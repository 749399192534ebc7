-- ===== src/Schemas.antt =====
-- The values that the fields of the schemas in app/schemas and app/api/chat_schemas.py take, of those
-- that a server has sent as JSON; pydantic raises its ValidationError, which is none of the program's
-- errors, for any other.
use syn.Common.{
  String, ◌≡◌, refl, ap, ◌⊎◌, inl, inr, ◌↔◌, true, Option, none, some, str_eq, str_eq_iff,
  if◌then◌else◌, arith,
}
use syn.Common.Json.{Json, null, bool, num, decimal, str, arr, obj}
use syn.Errors.{other, Result, ok, err}

-- str
unfoldable pub text_field : Json → Result String
text_field (str s) = ok s
text_field null = err other
text_field (bool b) = err other
text_field (num n) = err other
text_field (decimal s) = err other
text_field (arr items) = err other
text_field (obj d) = err other

-- Optional[str]
unfoldable pub optional_str : Json → Result (Option String)
optional_str null = ok none
optional_str (str s) = ok (some s)
optional_str (bool b) = err other
optional_str (num n) = err other
optional_str (decimal s) = err other
optional_str (arr items) = err other
optional_str (obj d) = err other

-- Literal[s]
unfoldable pub literal : String → Json → Result (Unit {0})
literal s (str t) = if str_eq t s then ok tt else err other
literal s null = err other
literal s (bool b) = err other
literal s (num n) = err other
literal s (decimal t) = err other
literal s (arr items) = err other
literal s (obj d) = err other

abbrev pub IsText : Json → Type 0
IsText v = (s : String) × (v ≡ str s)

abbrev pub IsOptionalText : Json → Type 0
IsOptionalText v = (v ≡ null) ⊎ IsText v

-- A step that succeeds exactly for values of a kind.
abbrev pub Accepts {ℓ} : {A : Type ℓ} → (Json → Result A) → (Json → Type 0) → Type ℓ
Accepts {A = A} f P = (v : Json) → ((a : A) × (f v ≡ ok a)) ↔ P v

pub text_field-Accepts : Accepts text_field IsText
unfolding text_field
text_field-Accepts (str s) = (λ (a, e). (s, refl), λ p. (s, refl))
text_field-Accepts _ = (λ (a, e). absurd (cc), λ (s, e). absurd (cc))

pub optional_str-Accepts : Accepts optional_str IsOptionalText
unfolding optional_str
optional_str-Accepts null = (λ (a, e). inl refl, λ p. (none, refl))
optional_str-Accepts (str s) = (λ (a, e). inr (s, refl), λ p. (some s, refl))
optional_str-Accepts _ =
    (λ (a, e). absurd (cc), λ p. elim p [ inl e ↦ absurd (cc) | inr q ↦ absurd (cc q.1) ])

pub literal-Accepts : (s : String) → Accepts (literal s) (λ v. v ≡ str s)
unfolding literal
literal-Accepts s (str t) = (
  λ (a, e). ap str ((str_eq_iff t s).0 (ground (arith, e))),
  λ p. let same : str_eq t s ≡ true = (str_eq_iff t s).1 (cc) in (tt, rw same refl),
)
literal-Accepts s _ = (λ (a, e). absurd (cc), λ e. absurd (cc))
