-- ===== src/Examples/Whole.antt =====
-- The theorems on the whole service, the sessions of its logins and the files on its disk, applied in
-- the small world.
use abc_auth_svc.Base.{
  All, ◌≡◌, ◌≢◌, refl, true, false, some, List, [], ◌∷◌, ◌++◌, arith, Bytes, codes, ◌==◌, leb,
  if◌then◌else◌,
}
use abc_auth_svc.Text.{trim_space}
use abc_auth_svc.Upstreams.{ok}
use abc_auth_svc.Http.{empty, fail, str, done, Request}
use abc_auth_svc.Routes.{post_verb}
use abc_auth_svc.Service.{Service, Sent, serve}
use abc_auth_svc.Service.Calls.{serve-KeepsClaims}
use abc_auth_svc.Claim.Race.{KeepsClaims}
use abc_auth_svc.Service.Chain.{Inbound, mux_of, handler_of, no_headers}
use abc_auth_svc.Service.Guarded.{IsTurnedAway, respond_manage-IsTurnedAway}
use abc_auth_svc.Service.Labelled.{
  IsLabelled, labelled, label, mux_of-LeavesHeaders, handler_of-IsLabelled,
}
use abc_auth_svc.Text.{has_prefix}
use abc_auth_svc.Text.Query.{query_unescape}
use abc_auth_svc.Crypto.{IsByte}
use abc_auth_svc.Session.{make}
use abc_auth_svc.Forward.{set_session_cookie, verifier, Cookie, decide_validate, no_session}
use abc_auth_svc.Login.{safe_next, handle_login_post}
use abc_auth_svc.Login.Lifetime.{session_end, verdict_on, handle_login_post-IsSession}
use abc_auth_svc.Files.{
  Disk, Os, IsComponent, written, write_creds_file, write_abc_config_file, remove_creds_files,
}
use abc_auth_svc.Files.Apart.{AreKept, slot_files-AreApart}
use abc_auth_svc.Files.Replay.{disk_after, AreErased, handle_manage_suspend-AreErased}
use abc_auth_svc.Manage.Lifecycle.{handle_manage_suspend}
use abc_auth_svc.Scenario.{plain, short_digests, tagged, env, srv, world, request, stranger, ann}
use abc_auth_svc.Scenario.Network.{probes}

abbrev nothing_sent : Sent
nothing_sent = record {
  cli_token = empty;
  mint = empty;
  claim = empty;
  secrets = empty;
  field = empty;
}

abbrev service : Service
service = record {
  env = env;
  srv = srv;
  digests = short_digests;
  b64 = plain;
  aead = tagged;
  probes = probes;
  build = record { version = codes "dev"; build_time = []; git_commit = [] };
  mock_upstreams = false;
}

-- A stranger's request to suspend ann.
abbrev inbound : Inbound
inbound = record {
  verb = post_verb;
  path = codes "manage" ∷ codes "slots" ∷ ann ∷ codes "suspend" ∷ [];
  request = stranger;
  sent = nothing_sent;
  rid = [];
  random = ok (codes "0123456789ab");
}

abbrev suspension : List Bytes
suspension = codes "slots" ∷ ann ∷ codes "suspend" ∷ []

respond_manage-IsTurnedAway_example :
    IsTurnedAway service (record inbound { path = codes "manage" ∷ suspension }) world
    × IsTurnedAway service
        (record inbound { path = codes "auth" ∷ codes "manage" ∷ suspension })
        world
respond_manage-IsTurnedAway_example =
    respond_manage-IsTurnedAway service inbound suspension world λ p. ground arith

handler_of-IsLabelled_example :
    IsLabelled inbound
      (mux_of service (labelled inbound) (label inbound no_headers) world).0
      (handler_of (mux_of service) inbound no_headers world).0
    × ((handler_of (mux_of service) inbound no_headers world).1
        ≡ (mux_of service (labelled inbound) (label inbound no_headers) world).1)
unfolding codes
handler_of-IsLabelled_example =
    handler_of-IsLabelled (mux_of service) inbound no_headers world (mux_of-LeavesHeaders service)
      (refl, omega arith)

-- The operator's request to suspend ann.
serve-KeepsClaims_example :
    All KeepsClaims
      (serve service post_verb (codes "manage" ∷ suspension) request nothing_sent world).1.history
serve-KeepsClaims_example =
    serve-KeepsClaims service post_verb (codes "manage" ∷ suspension) request nothing_sent world tt

-- Everything succeeds on this system.
abbrev os : Os
os = record {
  makes = λ dir d. true;
  chmods = λ dir d. true;
  write_end = λ path d. written;
  removes = λ path d. true;
  join = λ dir name. dir ++ b'/' ∷ name;
  join-component = λ dir name h. refl;
}

abbrev disk : Disk
disk = record { dirs = []; files = [] }

ann-IsComponent : IsComponent ann
unfolding codes
ann-IsComponent = record {
  plain = omega arith;
  full = λ p. ground arith;
  not_here = λ p. ground arith;
  not_parent = λ p. ground arith;
}

abbrev bob : Bytes
bob = codes "bob"

bob-IsComponent : IsComponent bob
unfolding codes
bob-IsComponent = record {
  plain = omega arith;
  full = λ p. ground arith;
  not_here = λ p. ground arith;
  not_parent = λ p. ground arith;
}

ann-ne-bob : ann ≢ bob
unfolding codes
ann-ne-bob p = ground arith

slot_files-AreApart_example :
    AreKept os bob disk (write_creds_file os ann ann ann ann disk).1
    × AreKept os bob disk (write_abc_config_file os ann ann disk).1
    × AreKept os bob disk (remove_creds_files os ann disk).1
slot_files-AreApart_example =
    slot_files-AreApart os ann bob ann-IsComponent bob-IsComponent ann-ne-bob ann ann ann ann disk

handle_manage_suspend-AreErased_example :
    AreErased os ann (disk_after os disk (handle_manage_suspend env srv request world).1.history)
unfolding handle_manage_suspend abc_auth_svc.Http.◌>>=◌ abc_auth_svc.Manage.operator_slot
    abc_auth_svc.Http.require_operator abc_auth_svc.Http.pure
    abc_auth_svc.Manage.Lifecycle.suspend_slot abc_auth_svc.Http.when abc_auth_svc.Http.ask codes
    ◌==◌
handle_manage_suspend-AreErased_example =
    handle_manage_suspend-AreErased os disk (λ path d. refl) env srv request world refl

-- Ann logs in, and comes back with the cookie.
abbrev session_of_ann : Cookie
session_of_ann =
    set_session_cookie srv (make short_digests plain (verifier srv) 1000 ann srv.session_ttl)

abbrev check : Request
check = record request { cookie = some session_of_ann.value }

ann-IsByte : All IsByte ann
unfolding codes
ann-IsByte = omega arith

handle_login_post-IsSession_example :
    (decide_validate env srv short_digests plain check world).0
    ≡ done (
        if leb 1000 (session_end env srv short_digests plain request world)
        then verdict_on env srv short_digests plain world
            (trim_space (request.form (codes "username")))
        else no_session)
unfolding handle_login_post abc_auth_svc.Http.◌>>=◌ abc_auth_svc.Http.pure trim_space
    set_session_cookie codes ◌==◌ safe_next query_unescape has_prefix
handle_login_post-IsSession_example =
    handle_login_post-IsSession env srv short_digests plain request check world world session_of_ann
      (b'/' ∷ []) refl refl (λ p. ground arith) ann-IsByte (omega arith)
