-- ===== src/Common/Decimal/RoundTrip.antt =====
-- A printed number is read back.
use Prim.Native.Nat.{ℕ, zero, suc, ◌+◌, ◌*◌, ◌/◌, ◌%◌, ◌≤◌, ◌<◌}
use mathlib.Core.Path.{◌≡◌, refl, sym, ap, ◌∙◌}
use mathlib.Core.Logic.{inl, inr}
use mathlib.Core.Bool.{Bool, true, false}
use mathlib.Core.Option.{none, some}
use mathlib.Core.List.{[], ◌∷◌, ◌++◌, append_assoc, append-nil}
use native.Mathlib.Omega.{arith}
use syn.Common.Tests.{ltb, Bool-cases}
use syn.Common.Lists.{length, length-append, All}
use syn.Common.Int.{pos}
use syn.Common.Text.{Text, strip, rstrip, drop_while, is_space}
use syn.Common.Decimal.{
  digits, str_of, is_digit, scan, within, whole, number, signed, int_of, max_digits,
}

abbrev pub IsDigits : Text → Type 0
IsDigits = All (λ c. is_digit c ≡ true)

IsDigits-append : (s t : Text) → IsDigits s → IsDigits t → IsDigits (s ++ t)
IsDigits-append [] t a b = b
IsDigits-append (c ∷ s) t (h, a) b = (h, IsDigits-append s t a b)

digit_of : (n : ℕ) → is_digit (b'0' + n % 10) ≡ true
unfolding is_digit
digit_of n = ground arith

pub digits-IsDigits : (fuel n : ℕ) → IsDigits (digits fuel n)
unfolding digits
digits-IsDigits zero n = tt
digits-IsDigits (suc fuel) n = elim (Bool-cases (ltb n 10)) [
  | inl e ↦ rw e (digit_of n, tt)
  | inr e ↦ rw e (
      IsDigits-append (digits fuel (n / 10)) ((b'0' + n % 10) ∷ []) (digits-IsDigits fuel (n / 10))
        (digit_of n, tt))
]

-- Reading one more digit.
scan-digit :
    (follows : Bool) (a k n : ℕ) (t : Text)
    → scan follows a k ((b'0' + n % 10) ∷ t) ≡ scan true (a * 10 + n % 10) (suc k) t
unfolding scan
scan-digit follows a k n t =
    rw (digit_of n) (ap (λ m. scan true (a * 10 + m) (suc k) t) (omega arith))

scan-digits :
    (fuel n k : ℕ) (follows : Bool) (t : Text)
    → n < fuel
    → scan follows 0 k (digits fuel n ++ t) ≡ scan true n (k + length (digits fuel n)) t
unfolding digits
scan-digits zero n k follows t h = absurd (omega arith)
scan-digits (suc fuel) n k follows t h =
    let last = b'0' + n % 10 in
    let front = digits fuel (n / 10) in
    elim (Bool-cases (ltb n 10)) [
      | inl e ↦ rw e (
          scan-digit follows 0 k n t
          ∙ ap (λ m. scan true m (suc k) t) (ground (arith, e))
          ∙ ap (λ j. scan true n j t) (omega arith))
      | inr e ↦ rw e (
          ap (scan follows 0 k) (append_assoc front (last ∷ []) t)
          ∙ scan-digits fuel (n / 10) k follows (last ∷ t) (ground (arith, e))
          ∙ scan-digit true (n / 10) (k + length front) n t
          ∙ ap (λ m. scan true m (suc (k + length front)) t) (omega arith)
          ∙ ap (λ j. scan true n j t) (omega (arith, length-append front (last ∷ []))))
    ]

not_space : (c : ℕ) → is_digit c ≡ true → is_space c ≡ false
unfolding is_digit is_space
not_space c h = ground (arith, h)

rstrip-digits : (s : Text) → IsDigits s → rstrip is_space s ≡ s
unfolding rstrip
rstrip-digits [] a = refl
rstrip-digits (c ∷ []) (h, a) = rw (not_space c h) refl
rstrip-digits (c ∷ d ∷ s) (h, a) = rw (rstrip-digits (d ∷ s) a) refl

strip-digits : (s : Text) → IsDigits s → strip s ≡ s
unfolding strip drop_while
strip-digits [] a = rstrip-digits [] a
strip-digits (c ∷ s) (h, a) = rw (not_space c h) (rstrip-digits (c ∷ s) (h, a))

whole-nil : whole [] ≡ none
unfolding whole scan within
whole-nil = refl

number-digits : (s : Text) {n : ℕ} → IsDigits s → whole s ≡ some n → number s ≡ some (pos n)
unfolding number signed is_digit
number-digits [] a e = cc whole-nil
number-digits (c ∷ s) (h, a) e = ground (arith, h, e)

-- A number of at most as many digits as `int` takes is read back from its print.
pub int_of-str_of : (n : ℕ) → length (str_of n) ≤ max_digits → int_of (str_of n) ≡ some (pos n)
unfolding int_of str_of whole within
int_of-str_of n h =
    let s = digits (suc n) n in
    let a = digits-IsDigits (suc n) n in
    let read : scan false 0 0 (s ++ []) ≡ some (n, 0 + length s) =
      scan-digits (suc n) n 0 false [] (omega arith) ∙ unfold scan in refl in
    rw (strip-digits s a) (
      number-digits s a
        (ap (λ t. within (scan false 0 0 t)) (sym (append-nil s)) ∙ rw read (ground (arith, h))))
