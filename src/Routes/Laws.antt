-- ===== src/Routes/Laws.antt =====
-- What the table of routes promises: the prefix that the proxy strips, and the operator's paths.
use abc_auth_svc.Base.{
  ◌≡◌, refl, Bool, true, false, not, ◌||◌, ◌&&◌, List, [], ◌∷◌, arith, all, All, Bytes, codes, ◌==◌,
  Bool-cases, inl, inr,
}
use abc_auth_svc.Routes.{
  cred_source_endpoint, slot_diag_endpoint, manage_list_slots_endpoint, manage_get_slot_endpoint,
  manage_suspend_endpoint, manage_reactivate_endpoint, manage_rotate_endpoint, keys_mint_endpoint,
  log_level_endpoint, not_found_endpoint, Segment, Endpoint, Route, Verb, accepts, fits, matches,
  choose, routes, endpoint_of,
}

-- The first segments of the paths that the proxy serves below `/auth`, with and without it.
pub shared_roots : List Bytes
shared_roots =
    codes "workbench"
    ∷ codes "exchange"
    ∷ codes "slots"
    ∷ codes "manage"
    ∷ codes "cli-token"
    ∷ codes "redeem"
    ∷ codes "minio-login"
    ∷ codes "secrets"
    ∷ codes "keys"
    ∷ []

-- The proxy strips `/auth` from some requests: below each of these first segments a path leads to
-- the same handler with `/auth` in front of it and without, whatever the verb and the rest are.
pub shared_roots-AreShared :
    (verb : Verb) (path : List Bytes)
    → All
        (λ root. endpoint_of verb (codes "auth" ∷ root ∷ path) ≡ endpoint_of verb (root ∷ path))
        shared_roots
unfolding endpoint_of choose routes matches fits codes ◌==◌ shared_roots
shared_roots-AreShared verb path =
    (refl, (refl, (refl, (refl, (refl, (refl, (refl, (refl, (refl, tt)))))))))

-- The handlers that ask for the operator's token first, and the reply 404.
unfoldable pub is_guarded : Endpoint → Bool
is_guarded cred_source_endpoint = true
is_guarded slot_diag_endpoint = true
is_guarded manage_list_slots_endpoint = true
is_guarded manage_get_slot_endpoint = true
is_guarded manage_suspend_endpoint = true
is_guarded manage_reactivate_endpoint = true
is_guarded manage_rotate_endpoint = true
is_guarded keys_mint_endpoint = true
is_guarded log_level_endpoint = true
is_guarded not_found_endpoint = true
is_guarded _ = false

begins_with : Bytes → List Segment → Bool
begins_with root [] = false
begins_with root (p ∷ ps) = fits p root

begins-matches :
    (root : Bytes) (path : List Bytes) (ps : List Segment)
    → matches ps (root ∷ path) ≡ true
    → begins_with root ps ≡ true
unfolding matches begins_with
begins-matches root path [] h = h
begins-matches root path (p ∷ ps) h = ground arith

keeps_guard : Bytes → Route → Bool
keeps_guard root r = not (begins_with root r.pattern) || is_guarded r.endpoint

choose-IsGuarded :
    (root : Bytes) (verb : Verb) (path : List Bytes) (rs : List Route)
    → all (keeps_guard root) rs ≡ true
    → is_guarded (choose rs verb (root ∷ path)) ≡ true
unfolding choose is_guarded keeps_guard
choose-IsGuarded root verb path [] h = refl
choose-IsGuarded root verb path (r ∷ rs) h =
    elim (Bool-cases (matches r.pattern (root ∷ path) && accepts r.verb verb)) [
      | inl e ↦ let begun = begins-matches root path r.pattern (ground arith) in rw e (ground arith)
      | inr e ↦ rw e (choose-IsGuarded root verb path rs (ground arith))
    ]

-- Whatever the verb and the rest of the path are, a request below `/manage`, and one below
-- `/auth/manage`, leads to a handler that asks for the operator's token first, or to a 404.
pub manage_routes-AreGuarded :
    (verb : Verb) (path : List Bytes)
    → (is_guarded (endpoint_of verb (codes "manage" ∷ path)) ≡ true)
      × (is_guarded (endpoint_of verb (codes "auth" ∷ codes "manage" ∷ path)) ≡ true)
unfolding endpoint_of routes fits codes ◌==◌ choose is_guarded keeps_guard begins_with matches
manage_routes-AreGuarded verb path =
    let guarded = choose-IsGuarded (codes "manage") verb path routes refl in (guarded, guarded)
