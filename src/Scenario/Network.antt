-- ===== src/Scenario/Network.antt =====
-- A small network for the examples: a PocketBase with one slot, whose state changes with the first
-- PATCH, a host where everything is there, and a Nomad with variables.
use abc_auth_svc.Base.{
  Bool, true, false, ◌||◌, some, List, [], ◌∷◌, if◌then◌else◌, Bytes, codes, ◌==◌,
}
use abc_auth_svc.Upstreams.{Outcome, ok, err, Slot}
use abc_auth_svc.Http.{Request}
use abc_auth_svc.PocketBase.{Net, HttpRequest, patch_method, Method}
use abc_auth_svc.PocketBase.Replay.{Site}
use abc_auth_svc.Diag.Host.{Probes, found_user, directory}
use abc_auth_svc.Clients.{ClientResponse, Send}
use abc_auth_svc.Clients.Nomad.{NomadJson, AdminClient}
use abc_auth_svc.Scenario.{slot, info, request, token}

abbrev pub suspended_slot : Slot
suspended_slot = record slot { state = codes "suspended" }

abbrev pub is_patch : Method → Bool
is_patch patch_method = true
is_patch _ = false

abbrev pub patched_before : List HttpRequest → Bool
patched_before [] = false
patched_before (req ∷ sent) = is_patch req.method || patched_before sent

abbrev pub net : Net
net = record {
  is_url = λ u. true;
  answer = λ sent req.
      ok (record { status = 200; body = if patched_before sent then codes "s" else codes "c" });
  latency = λ sent req. 1;
  credentials_json = λ email password. email;
  fields_json = λ fields. ok [];
  key_json = λ recipient wrapped version alg. ok wrapped;
  token_of = λ b. ok (codes "tok");
  items_of = λ b. ok ((if b == codes "s" then suspended_slot else slot) ∷ []);
  slot_of = λ b. ok slot;
  group_of = λ b. err;
}

abbrev pub site : Site
site = record {
  net = net;
  cfg = record { url = codes "pb"; admin_email = codes "a"; admin_password = codes "p" };
  pause = λ h. 1;
}

-- A browser of the slot's user.
abbrev pub browser : Request
browser = record request { cookie = some token }

abbrev pub probes : Probes
probes = record {
  user_lookup = λ name. found_user 1000;
  home_stat = λ path. directory (some 1000);
  is_file = λ path. true;
  store_error = [];
  hub_error = [];
}

abbrev pub nomad_json : NomadJson
nomad_json = record {
  var_json = λ path namespace v. ok v;
  items_of = λ b. ok ((codes "value", b) ∷ []);
  new_token_json = λ name roles. ok name;
  new_token_of = λ b. ok (b, b);
  roles_of = λ b. ok [];
  self_of = λ b. ok info;
}

abbrev pub nomad : AdminClient
nomad = record { addr = codes "n"; admin_token = codes "t" }

abbrev pub answer : Bytes → Outcome ClientResponse
answer b = ok (record { status = 200; body = b; cookies = [] })

-- Nomad with an old value everywhere, and with a new one at one URL.
abbrev pub old_values : Send
old_values req = answer (codes "old")

abbrev pub new_value : Bytes → Send
new_value url req = if req.url == url then answer (codes "new") else old_values req
