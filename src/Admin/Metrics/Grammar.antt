-- ===== src/Admin/Metrics/Grammar.antt =====
-- The lines of Prometheus' text format that the metrics of app/api/admin.py use.
use syn.Common.{
  ℕ, ◌≡◌, ◌||◌, ◌&&◌, not, Bool, true, false, List, [], ◌∷◌, All, leb, ◌==◌, is_empty,
  if◌then◌else◌,
}
use syn.Common.Text.{Text, codes, starts_with}
use syn.Common.Decimal.{is_digit}

is_lower : ℕ → Bool
is_lower c = leb b'a' c && leb c b'z'

-- A value: digits, with a point, signs and an exponent.
unfoldable pub is_value_char : ℕ → Bool
unfolding is_digit
is_value_char c = is_digit c || c == b'.' || c == b'e' || c == b'+' || c == b'-'

unfoldable pub all_value : Text → Bool
unfolding is_value_char
all_value [] = true
all_value (c ∷ s) = is_value_char c && all_value s

unfoldable pub is_value : Text → Bool
unfolding all_value
is_value s = not (is_empty s) && all_value s

-- The end of the labels, a space and a value.
closed : Text → Bool
unfolding is_value
closed (c ∷ d ∷ s) = c == b'}' && d == b' ' && is_value s
closed _ = false

-- A label's value, after its first quote.
quoted : Text → Bool
unfolding closed
quoted [] = false
quoted (c ∷ s) = let rest = quoted s in if c == b'"' then closed s else rest

opened : Text → Bool
unfolding quoted
opened [] = false
opened (c ∷ s) = c == b'"' && quoted s

-- The rest of a label's name, and what comes after it.
label_rest : Text → Bool
unfolding is_lower opened
label_rest [] = false
label_rest (c ∷ s) =
    let rest = label_rest s in
    if is_lower c || c == b'_' then rest else if c == b'=' then opened s else false

label : Text → Bool
unfolding is_lower label_rest
label [] = false
label (c ∷ s) = is_lower c && label_rest s

-- The rest of a metric's name, and what comes after it: a label in braces, or a space and a value.
metric_rest : Text → Bool
unfolding is_lower label is_value
metric_rest [] = false
metric_rest (c ∷ s) =
    let rest = metric_rest s in
    if is_lower c || c == b'_'
    then rest
    else if c == b'{'
    then label s
    else if c == b' '
    then is_value s
    else false

metric : Text → Bool
unfolding is_lower metric_rest
metric [] = false
metric (c ∷ s) = is_lower c && metric_rest s

-- A line of the format: blank, a comment, or a metric's name, in lower case, with at most one label,
-- then a space and a number.
unfoldable pub is_line : Text → Bool
unfolding metric
is_line s = is_empty s || starts_with (codes "#") s || metric s

abbrev pub AreLines : List Text → Type 0
AreLines lines = All (λ l. is_line l ≡ true) lines
