-- ===== src/Identity/Agreement.antt =====
-- The two derivations of an identity agree.
use abc_auth_svc.Base.{◌≡◌, refl, ◌≢◌, List, [], ◌∷◌, arith, Bytes, codes}
use abc_auth_svc.Text.{trim_prefix, trim_suffix}
use abc_auth_svc.Upstreams.{NomadTokenSelf, NomadRole}
use abc_auth_svc.Identity.{
  Identity, ns_guess, group_of, nomad_identity, header_ns_guess, header_group_of,
  nomad_identity_headers, IdentityHeaders, or_else,
}

ns_guess-eq : (g : Bytes) → header_ns_guess g ≡ ns_guess g
unfolding ns_guess header_ns_guess trim_prefix trim_suffix
ns_guess-eq g = ground arith

abbrev pub FirstRoleIsNamed : List NomadRole → Type 0
FirstRoleIsNamed [] = Unit
FirstRoleIsNamed (role ∷ roles) = role.name ≢ []

or_else_present : (s fallback : Bytes) → s ≢ [] → or_else s fallback ≡ s
or_else_present [] fallback h = absurd (h refl)
or_else_present (c ∷ s) fallback h = refl

group_of-eq :
    (ps : List Bytes) (roles : List NomadRole)
    → FirstRoleIsNamed roles
    → header_group_of ps roles ≡ group_of ps roles
unfolding group_of header_group_of trim_prefix codes
group_of-eq (p ∷ ps) roles h = refl
group_of-eq [] [] h = refl
group_of-eq [] (role ∷ roles) h = rw (or_else_present role.name (codes "unknown") h) (ground arith)

-- What the headers say, without the token's type.
abbrev pub forget_type : IdentityHeaders → Identity
forget_type h = record {
  user = h.user;
  group = h.group;
  namespace = h.namespace;
  policies = h.policies;
}

-- `/verify` and `/auth/me` derive the same user, group, namespace and policies from a token,
-- except for a token without policies whose first role has no name.
pub nomad_identity_agree :
    (info : NomadTokenSelf)
    → FirstRoleIsNamed info.roles
    → forget_type (nomad_identity_headers info) ≡ nomad_identity info
unfolding nomad_identity_headers nomad_identity
nomad_identity_agree info h =
    rw (group_of-eq info.policies info.roles h, ns_guess-eq (group_of info.policies info.roles).0)
      (ground arith)
