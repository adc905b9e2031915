-- ===== src/Identity.antt =====
-- internal/authsvc/identity.go and verify.go: the caller's identity, from a Nomad token.
pub mod Groups
pub mod Agreement
use abc_auth_svc.Base.{
  ℕ, zero, suc, ◌+◌, ◌-◌, ◌*◌, ◌/◌, ◌%◌, ◌^◌, ◌≤◌, ◌<◌, ◌≡◌, refl, sym, ap, ◌∙◌, subst, ◌≡⟨◌⟩◌, ◌∎,
  ◌≢◌, ◌↔◌, ◌⊎◌, inl, inr, Bool, true, false, not, ◌&&◌, ◌||◌, Option, none, some, List, [], ◌∷◌,
  ◌++◌, append-nil, append_assoc, arith, ltb, leb, nat_eq, if◌then◌else◌, nat_eq_iff, nat_eq_refl,
  Bool-cases, Option-cases, length, take, drop, all, length-append, take-append_left,
  drop-append_left, drop_past, All, All-append, All-append_left, All-append_right, Bytes, codes,
  ◌==◌, eq_of_==, ==_refl, ==_iff, is_empty, Lacks, String,
}
use abc_auth_svc.Text.{has_prefix, trim_prefix, has_suffix, trim_suffix, cut_end, join}
use abc_auth_svc.Upstreams.{NomadTokenSelf, NomadRole}

pub record Identity : Type 0 where
  pub user : Bytes
  pub group : Bytes
  pub namespace : Bytes
  pub policies : Bytes

abbrev pub or_else : Bytes → Bytes → Bytes
or_else s fallback = if is_empty s then fallback else s

-- nsGuess of nomadIdentity
ns_guess : Bytes → Bytes
ns_guess group =
    if has_prefix group (codes "member-")
    then drop (length (codes "member-")) group
    else if has_suffix group (codes "-pool")
    then cut_end group (codes "-pool")
    else if has_suffix group (codes "-admin")
    then cut_end group (codes "-admin")
    else if has_suffix group (codes "-member")
    then cut_end group (codes "-member")
    else group

-- The group and the policy string: of the policies, else of the first role.
group_of : List Bytes → List NomadRole → Bytes × Bytes
group_of (p ∷ ps) roles = (p, join (p ∷ ps) (codes ","))
group_of [] (role ∷ roles) = (trim_prefix role.name (codes "r-"), codes "role:" ++ role.name)
group_of [] [] = (codes "unknown", [])

-- nomadIdentity
unfoldable pub nomad_identity : NomadTokenSelf → Identity
unfolding group_of ns_guess
nomad_identity info =
    let name = or_else info.name (codes "anonymous") in
    let ttype = or_else info.type (codes "client") in
    if ttype == codes "management"
    then record {
      user = name;
      group = codes "admin";
      namespace = codes "*";
      policies = codes "management";
    }
    else (let (group, policies) = group_of info.policies info.roles in
        record {
          user = name;
          group = group;
          namespace = or_else info.namespace (ns_guess group);
          policies = policies;
        })

-- The X-Auth-* headers of `/verify`.
pub record IdentityHeaders : Type 0 where
  pub user : Bytes
  pub group : Bytes
  pub namespace : Bytes
  pub policies : Bytes
  pub type : Bytes

-- nsGuess of nomadIdentityHeaders
header_ns_guess : Bytes → Bytes
header_ns_guess group =
    if has_prefix group (codes "member-")
    then trim_prefix group (codes "member-")
    else if has_suffix group (codes "-pool")
    then trim_suffix group (codes "-pool")
    else if has_suffix group (codes "-admin")
    then trim_suffix group (codes "-admin")
    else if has_suffix group (codes "-member")
    then trim_suffix group (codes "-member")
    else group

-- A role with no name is called `unknown` here.
header_group_of : List Bytes → List NomadRole → Bytes × Bytes
header_group_of (p ∷ ps) roles = (p, join (p ∷ ps) (codes ","))
header_group_of [] (role ∷ roles) =
    let name = or_else role.name (codes "unknown") in
    (if has_prefix name (codes "r-") then drop 2 name else name, codes "role:" ++ name)
header_group_of [] [] = (codes "unknown", [])

-- nomadIdentityHeaders
unfoldable pub nomad_identity_headers : NomadTokenSelf → IdentityHeaders
unfolding header_group_of header_ns_guess
nomad_identity_headers info =
    let name = or_else info.name (codes "anonymous") in
    let ttype = or_else info.type (codes "client") in
    if ttype == codes "management"
    then record {
      user = name;
      group = codes "admin";
      namespace = codes "*";
      policies = codes "management";
      type = ttype;
    }
    else (let (group, policies) = header_group_of info.policies info.roles in
        record {
          user = name;
          group = group;
          namespace = or_else info.namespace (header_ns_guess group);
          policies = policies;
          type = ttype;
        })
