-- ===== src/Examples/Store.antt =====
-- The theorems on the PocketBase client and the codes, applied in the small network.
use abc_auth_svc.PocketBase.Cache.Overlap.{Step, Reached, cached_slot_state-IsCurrent}
use abc_auth_svc.Base.{
  if◌then◌else◌, ltb, inr, ℕ, Bytes, ◌==◌, delete, find, ◌≤◌, ◌≡◌, refl, ◌⊎◌, none, List, [], ◌∷◌,
  arith, length, codes,
}
use abc_auth_svc.Text.{contains}
use abc_auth_svc.Upstreams.{Call, History, World, MagicCode}
use abc_auth_svc.Http.{done}
use abc_auth_svc.Forward.{decide_validate, deny}
use abc_auth_svc.Manage.Lifecycle.{handle_manage_suspend}
use abc_auth_svc.PocketBase.{PbClient, new_pb_client, do_request, get_method}
use abc_auth_svc.PocketBase.Token.{IsAuthorised}
use abc_auth_svc.PocketBase.Token.Served.{IsServed, do_request-IsServed}
use abc_auth_svc.PocketBase.Traffic.{replay-IsAuthorised, replay_sent_bound}
use abc_auth_svc.PocketBase.Replay.{replay, with_client}
use abc_auth_svc.PocketBase.Cache.{cached_slot_state}
use abc_auth_svc.PocketBase.Cache.Recent.{asked_state, IsRecent, cached_slot_state-IsRecent}
use abc_auth_svc.PocketBase.Suspended.{handle_manage_suspend-IsDenied}
use abc_auth_svc.Magic.Codes.Refinement.{
  IsTimed, CodeOp, issues, redeems, answers, store_answers, no_codes, answers-eq,
}
use abc_auth_svc.Scenario.{env, srv, world, request, short_digests, plain, token, slot, ann}
use abc_auth_svc.Scenario.Network.{site, suspended_slot, browser}
use abc_auth_svc.PocketBase.Cache.{fresh_entry}
use abc_auth_svc.PocketBase.{SlotStateEntry}
use abc_auth_svc.Base.{Bytes}
use abc_auth_svc.PocketBase.Cache.{store_entry}
use abc_auth_svc.Base.{ℕ}
use abc_auth_svc.PocketBase.Cache.{invalidate_slot_state}
use abc_auth_svc.Base.{inr}

-- Two reads of a user's state.
abbrev reads : History
reads = Call.slot_state ann ∷ Call.slot_state ann ∷ []

cached_slot_state-IsRecent_example :
    ((cached_slot_state site.net site.cfg ann (replay site reads)).0 ≡ asked_state site ann reads)
    ⊎ IsRecent site ann reads
cached_slot_state-IsRecent_example = cached_slot_state-IsRecent site ann reads

replay-IsAuthorised_example : IsAuthorised site.net site.cfg (replay site reads)
replay-IsAuthorised_example = replay-IsAuthorised site reads

replay_sent_bound_example : length (replay site reads).sent ≤ 8
replay_sent_bound_example = replay_sent_bound site reads

abbrev after_get : PbClient
after_get = (do_request site.net site.cfg get_method (codes "/x") none new_pb_client).1

do_request-IsServed_example :
    IsServed site.net site.cfg get_method (codes "/x") none (codes "c") after_get
unfolding replay do_request abc_auth_svc.PocketBase.◌>>=◌ abc_auth_svc.PocketBase.attempt
    abc_auth_svc.PocketBase.auth_token abc_auth_svc.PocketBase.authenticate
    abc_auth_svc.PocketBase.send codes abc_auth_svc.PocketBase.keep_token
    abc_auth_svc.PocketBase.checked
do_request-IsServed_example =
    do_request-IsServed site.net site.cfg get_method (codes "/x") none new_pb_client after_get
      (codes "c") (replay-IsAuthorised site []) refl

abbrev after_suspend : World
after_suspend = (handle_manage_suspend (with_client site env) srv request world).1

handle_manage_suspend-IsDenied_example :
    (decide_validate (with_client site env) srv short_digests plain browser after_suspend).0
    ≡ done (deny (codes "suspended"))
unfolding abc_auth_svc.Manage.operator_slot abc_auth_svc.Http.◌>>=◌
    abc_auth_svc.Http.require_operator codes ◌==◌ with_client
    abc_auth_svc.PocketBase.Records.find_slot abc_auth_svc.PocketBase.◌>>=◌ do_request
    abc_auth_svc.PocketBase.attempt abc_auth_svc.PocketBase.auth_token replay
    abc_auth_svc.PocketBase.authenticate abc_auth_svc.PocketBase.send
    abc_auth_svc.PocketBase.keep_token abc_auth_svc.PocketBase.checked handle_manage_suspend
    abc_auth_svc.Manage.Lifecycle.suspend_slot abc_auth_svc.Http.when abc_auth_svc.Http.ask
    abc_auth_svc.PocketBase.Records.patch_slot abc_auth_svc.PocketBase.Replay.perform
    abc_auth_svc.PocketBase.Replay.wait abc_auth_svc.PocketBase.Cache.invalidate_slot_state delete
    find abc_auth_svc.Forward.is_blocked abc_auth_svc.Text.Query.path_escape
    abc_auth_svc.Text.Query.query_escape abc_auth_svc.Session.verify abc_auth_svc.Session.make
    abc_auth_svc.Text.last_index_byte abc_auth_svc.Text.Decimal.decimal
    abc_auth_svc.Text.Decimal.parse_int abc_auth_svc.Session.decode_b64_url
    abc_auth_svc.Session.hmac_hex abc_auth_svc.Crypto.hex_encode abc_auth_svc.Text.Decimal.exceeds
handle_manage_suspend-IsDenied_example =
    handle_manage_suspend-IsDenied site env srv short_digests plain request browser world
      after_suspend slot suspended_slot token refl refl refl refl refl refl refl

abbrev entry : MagicCode
entry = record { username = ann; expiry = 60; next_url = []; extra = [] }

-- A code is issued, redeemed and tried again, and another one expires.
abbrev code_ops : List CodeOp
code_ops =
    issues (codes "a") entry 0
    ∷ redeems (codes "a") 10
    ∷ redeems (codes "a") 20
    ∷ issues (codes "b") entry 20
    ∷ redeems (codes "b") 70
    ∷ []

answers-eq_example : answers code_ops [] ≡ store_answers code_ops no_codes
unfolding IsTimed
answers-eq_example =
    answers-eq code_ops
      (omega arith, (omega arith, (omega arith, (omega arith, (omega arith, tt)))))

-- PocketBase suspends every slot at the time 40.
abbrev truth : Bytes → ℕ → Bytes
truth user t = if ltb t 40 then codes "active" else codes "suspended"

abbrev at_100 : PbClient
at_100 = record new_pb_client { clock = 100 }

abbrev suspended_entry : SlotStateEntry
suspended_entry = record { state = codes "suspended"; ts = 100 }

abbrev before_answer : PbClient
before_answer = store_entry ann suspended_entry (invalidate_slot_state ann at_100)

-- Ann's state is looked up, and forgotten while the lookup is in flight.
overlapping : Reached truth before_answer []
unfolding fresh_entry find invalidate_slot_state codes
overlapping =
    Reached.after _ _ _ _
      (Reached.after _ _ _ _
        (Reached.after _ _ _ _
          (Reached.after _ _ _ _ Reached.start
            (Step.works new_pb_client at_100 [] refl (omega arith)))
          (Step.begins ann at_100 [] refl))
        (Step.invalidates ann at_100 ((ann, 100) ∷ [])))
      (Step.ends ann 100 100 (codes "suspended") (invalidate_slot_state ann at_100) [] []
        (omega arith) (omega arith) (inr refl))

cached_slot_state-IsCurrent_example :
    ((cached_slot_state site.net site.cfg ann before_answer).0 ≡ codes "suspended")
    ⊎ ((cached_slot_state site.net site.cfg ann before_answer).0 ≡ codes "error")
unfolding fresh_entry store_entry find invalidate_slot_state codes ◌==◌
cached_slot_state-IsCurrent_example =
    cached_slot_state-IsCurrent truth site.net site.cfg before_answer [] ann (codes "suspended") 40
      overlapping (λ stale. absurd (ground arith)) (λ t h. ground arith) (omega arith)
