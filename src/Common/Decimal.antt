-- ===== src/Common/Decimal.antt =====
-- Python's `str` and `int` between whole numbers and texts of decimal digits.
-- A header value holds no character above 255, where `int` takes no digits but 0 to 9.
pub mod RoundTrip
use Prim.Native.Nat.{ℕ, zero, suc, ◌+◌, ◌-◌, ◌*◌, ◌/◌, ◌%◌}
use mathlib.Core.Bool.{Bool, true, false, ◌&&◌, ◌||◌}
use mathlib.Core.Option.{Option, none, some}
use mathlib.Core.List.{List, [], ◌∷◌, ◌++◌}
use syn.Common.Tests.{ltb, leb, ◌==◌, if◌then◌else◌}
use syn.Common.Int.{ℤ, pos, negsuc}
use syn.Common.Text.{Text, strip}

unfoldable pub is_digit : ℕ → Bool
is_digit c = leb b'0' c && leb c b'9'

-- The digits of a number, with as much fuel as there are digits at least.
unfoldable pub digits : ℕ → ℕ → Text
digits zero n = []
digits (suc fuel) n =
    let front = digits fuel (n / 10) in (if ltb n 10 then [] else front) ++ (b'0' + n % 10) ∷ []

-- str(n)
unfoldable pub str_of : ℕ → Text
str_of n = digits (suc n) n

-- Digits with single underscores between them: the number and how many digits it has, from those
-- read before; `follows` if the character before is a digit.
unfoldable pub scan : Bool → ℕ → ℕ → Text → Option (ℕ × ℕ)
unfolding is_digit
scan follows n count [] = if follows then some (n, count) else none
scan follows n count (c ∷ s) =
    let d = is_digit c in
    let rest = scan d (if d then n * 10 + (c - b'0') else n) (if d then suc count else count) s in
    if d || (follows && c == b'_') then rest else none

-- CPython refuses texts of more digits.
abbrev pub max_digits : ℕ
max_digits = 4300

within : Option (ℕ × ℕ) → Option ℕ
within none = none
within (some (n, count)) = if leb count max_digits then some n else none

unfoldable pub whole : Text → Option ℕ
unfolding scan within
whole s = within (scan false 0 0 s)

minus : ℕ → ℤ
minus zero = pos 0
minus (suc n) = negsuc n

signed : (ℕ → ℤ) → Option ℕ → Option ℤ
signed sign none = none
signed sign (some n) = some (sign n)

number : Text → Option ℤ
unfolding whole signed minus
number [] = none
number (c ∷ s) =
    if c == b'-'
    then signed minus (whole s)
    else if c == b'+'
    then signed pos (whole s)
    else signed pos (whole (c ∷ s))

-- int(s), and `none` for its ValueError
unfoldable pub int_of : Text → Option ℤ
unfolding number
int_of s = number (strip s)
