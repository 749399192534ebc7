-- ===== src/ApiKeys/Format.antt =====
-- Keys that app/core/api_keys.py generates have the format that it asks for.
use syn.Common.{
  ℕ, suc, ◌≡◌, ◌≤◌, refl, ◌∙◌, ap, subst, true, false, [], ◌∷◌, ◌++◌, arith, ◌==◌, length, take,
}
use syn.Common.Text.{Text, codes, text_eq, text_eq_refl}
use syn.ApiKeys.{
  is_alnum, all_chars, split_max, cons_first, valid_parts, is_valid_format, visible_prefix,
  verify_api_key, generate_api_key,
}

split_max-other :
    (c d n : ℕ) (s : Text)
    → d == c ≡ false
    → split_max c (suc n) (d ∷ s) ≡ cons_first d (split_max c (suc n) s)
unfolding split_max
split_max-other c d n s h = rw (h, split_max) refl

split_max-public :
    (public secret : Text)
    → all_chars is_alnum public ≡ true
    → split_max b'_' 1 (public ++ b'_' ∷ secret) ≡ public ∷ secret ∷ []
unfolding split_max all_chars is_alnum
split_max-public [] secret h = refl
split_max-public (c ∷ public) secret h =
    let other : c == b'_' ≡ false = ground (arith, h) in
    let rest : all_chars is_alnum public ≡ true = ground (arith, h) in
    split_max-other b'_' c 0 (public ++ b'_' ∷ secret) other
    ∙ ap (cons_first c) (split_max-public public secret rest)

take-exact : (s t : Text) → take (length s) (s ++ t) ≡ s
take-exact [] t = refl
take-exact (c ∷ s) t = ap (λ r. c ∷ r) (take-exact s t)

module _ (hash : Text → Text) (public secret : Text) where
  parts_are_valid :
      length public ≡ 8
      → all_chars is_alnum public ≡ true
      → 32 ≤ length secret
      → valid_parts (codes "syn" ∷ codes "live" ∷ public ∷ secret ∷ []) ≡ true
  unfolding valid_parts text_eq
  parts_are_valid l a h = ground (arith, l, a, h)

  -- A key that is generated of eight letters and digits and a secret of at least 32 characters has
  -- the format that is asked for, shows the eight characters in its prefix, and is verified against
  -- its hash.
  pub generate_api_key-valid :
      length public ≡ 8
      → all_chars is_alnum public ≡ true
      → 32 ≤ length secret
      → (is_valid_format (generate_api_key hash public secret).full_token ≡ true)
        × ((generate_api_key hash public secret).key_prefix ≡ codes "syn_live_" ++ public)
        × (verify_api_key hash
              (generate_api_key hash public secret).full_token
              (generate_api_key hash public secret).key_hash
            ≡ true)
  unfolding generate_api_key is_valid_format split_max visible_prefix verify_api_key
  generate_api_key-valid l a h = (
    ap (λ ps. valid_parts (codes "syn" ∷ codes "live" ∷ ps)) (split_max-public public secret a)
        ∙ parts_are_valid l a h,
    ap (λ s. codes "syn_live_" ++ s)
        (subst (λ n. take n (public ++ b'_' ∷ secret) ≡ public) l
          (take-exact public (b'_' ∷ secret))),
    text_eq_refl (hash (codes "syn_live_" ++ public ++ b'_' ∷ secret)),
  )
