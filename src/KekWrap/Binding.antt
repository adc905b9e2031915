-- ===== src/KekWrap/Binding.antt =====
-- The additional data of a wrap tells every key id and version from every other.
use abc_auth_svc.Base.{
  ℕ, suc, ◌≡◌, sym, ap, ◌∙◌, some, ◌∷◌, ◌++◌, arith, length, take, drop, take-append_left,
  drop_past, Bytes, codes, Lacks,
}
use abc_auth_svc.Text.{last_index_byte}
use abc_auth_svc.Text.Index.{last_index_byte-append}
use abc_auth_svc.Text.Int.{ℤ, itoa, itoa-Lacks, itoa-injective}
use abc_auth_svc.KekWrap.{kek_wrap_aad}
use mathlib.Core.List.{append_cancel_left}

-- A split at the last `|` is the only one.
cut_unique :
    (s t d e : Bytes) (c : ℕ) → Lacks c d → Lacks c e → s ++ c ∷ d ≡ t ++ c ∷ e → (s ≡ t) × (d ≡ e)
cut_unique s t d e c hd he p =
    let q : some (length s) ≡ some (length t) =
      sym (last_index_byte-append s d c hd)
      ∙ ap (λ (x : Bytes). last_index_byte x c) p
      ∙ last_index_byte-append t e c he in
    let n : length s ≡ length t = ground arith in
    (
      sym (take-append_left s (c ∷ d))
          ∙ ap (λ (x : Bytes). take (length s) x) p
          ∙ (rw n (take-append_left t (c ∷ e))),
      sym (drop_past s c d)
          ∙ ap (λ (x : Bytes). drop (suc (length s)) x) p
          ∙ (rw n (drop_past t c e)),
    )

-- Two wraps have the same additional data only for the same key id and the same version, whatever
-- bytes the ids hold: `|` and digits too.
pub kek_wrap_aad-injective :
    (id id' : Bytes) (version version' : ℤ)
    → kek_wrap_aad id version ≡ kek_wrap_aad id' version'
    → (id ≡ id') × (version ≡ version')
unfolding kek_wrap_aad
kek_wrap_aad-injective id id' v v' p =
    let (same, digits) =
      cut_unique (codes "abc-kek-wrap-v1|" ++ id) (codes "abc-kek-wrap-v1|" ++ id') (itoa v)
        (itoa v') b'|' (itoa-Lacks b'|' v (omega arith)) (itoa-Lacks b'|' v' (omega arith)) p in
    (append_cancel_left (codes "abc-kek-wrap-v1|") id id' same, itoa-injective v v' digits)
