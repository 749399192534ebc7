-- ===== src/LlamaCpp/Names.antt =====
-- The model names that app/backends/llama_cpp.py shows have no part of a path.
use syn.Common.{
  ℕ, ◌≡◌, refl, false, ◌||◌, some, inl, inr, List, [], ◌∷◌, arith, All, ◌==◌, Bool-cases,
}
use syn.Common.Text.{Text, has_char, split}
use syn.LlamaCpp.{forward_slashes, last_piece, text_or_none, sanitize_model_name}

-- A name that is no path: not empty, and without the separators.
pub record IsPlainName (name : Text) : Type 0 where
  pub nonempty : ¬ (name ≡ [])
  pub no_slash : has_char b'/' name ≡ false
  pub no_backslash : has_char b'\\' name ≡ false

forward_slashes-no_backslash : (s : Text) → has_char b'\\' (forward_slashes s) ≡ false
unfolding forward_slashes has_char
forward_slashes-no_backslash [] = refl
forward_slashes-no_backslash (c ∷ s) = ground (arith, forward_slashes-no_backslash s)

abbrev Lacks : ℕ → Text → Type 0
Lacks c s = has_char c s ≡ false

grown-Lacks :
    (c d : ℕ) (ps : List Text)
    → (d == c) ≡ false
    → All (Lacks c) ps
    → All (Lacks c) (elim ps [ [] ↦ (d ∷ []) ∷ [] | x ∷ xs ↦ (d ∷ x) ∷ xs ])
unfolding has_char
grown-Lacks c d [] h a = (ground (arith, h), tt)
grown-Lacks c d (x ∷ xs) h a = (ground (arith, h, a.0), a.1)

-- A character that a text lacks, its pieces lack, and each lacks the separator.
split-Lacks : (sep c : ℕ) (s : Text) → Lacks c s → All (Lacks c) (split sep s)
unfolding split has_char
split-Lacks sep c [] h = (refl, tt)
split-Lacks sep c (d ∷ s) h =
    let rest = split-Lacks sep c s (ground (arith, h)) in
    elim (Bool-cases (d == sep)) [
      | inl e ↦ rw e (refl, rest)
      | inr e ↦ rw e (grown-Lacks c d (split sep s) (ground (arith, h)) rest)
    ]

split-no_separator : (sep : ℕ) (s : Text) → All (Lacks sep) (split sep s)
unfolding split has_char
split-no_separator sep [] = (refl, tt)
split-no_separator sep (d ∷ s) = elim (Bool-cases (d == sep)) [
  | inl e ↦ rw e (refl, split-no_separator sep s)
  | inr e ↦ rw e (grown-Lacks sep d (split sep s) e (split-no_separator sep s))
]

last_piece-All : (P : Text → Type 0) → P [] → (ps : List Text) → All P ps → P (last_piece ps)
unfolding last_piece
last_piece-All P e [] a = e
last_piece-All P e (x ∷ []) a = a.0
last_piece-All P e (x ∷ y ∷ xs) a = last_piece-All P e (y ∷ xs) a.1

text_or_none-some : (s n : Text) → text_or_none s ≡ some n → (s ≡ n) × ¬ (s ≡ [])
unfolding text_or_none
text_or_none-some [] n h = absurd (cc)
text_or_none-some (c ∷ s) n h = (cc, λ e. absurd (cc))

plain : (s n : Text) → Lacks b'/' s → Lacks b'\\' s → text_or_none s ≡ some n → IsPlainName n
plain s n a b h =
    let (e, p) = text_or_none-some s n h in
    rw (← e) (record { nonempty = p; no_slash = a; no_backslash = b })

-- A name that is shown is no path, whatever identifier the server sent.
pub sanitize_model_name-IsPlainName :
    (raw name : Text) → sanitize_model_name raw ≡ some name → IsPlainName name
unfolding sanitize_model_name
sanitize_model_name-IsPlainName [] name h = absurd (cc)
sanitize_model_name-IsPlainName (c ∷ s) name h =
    let raw = c ∷ s in
    let slashes = forward_slashes raw in
    let pieces = split b'/' slashes in
    elim (Bool-cases (has_char b'\\' raw || has_char b'/' raw)) [
      | inl e ↦
          plain (last_piece pieces) name
            (last_piece-All (Lacks b'/') (unfold has_char in refl) pieces
              (split-no_separator b'/' slashes))
            (last_piece-All (Lacks b'\\') (unfold has_char in refl) pieces
              (split-Lacks b'/' b'\\' slashes (forward_slashes-no_backslash raw)))
            (rw e at h)
      | inr e ↦ plain raw name (ground (arith, e)) (ground (arith, e)) (rw e at h)
    ]
