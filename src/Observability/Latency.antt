-- ===== src/Observability/Latency.antt =====
-- The latency statistics of app/services/observability.py. The fractions that the code computes with
-- floating-point numbers are exact here, and a percentile is given in hundredths.
pub mod Percentiles
pub mod Sorting
pub mod Bounds
use syn.Common.{
  ℕ, zero, suc, ◌+◌, ◌-◌, ◌*◌, ◌/◌, ◌%◌, Bool, true, false, Option, none, some, List, [], ◌∷◌, ltb,
  leb, ◌==◌, if◌then◌else◌, length,
}
use syn.Errors.{Exn, other, Result, ok, err, ◌>>=◌}

pub record LatencyStats : Type 0 where
  pub count : ℕ
  pub avg_ms : Option ℕ
  pub p50_ms : Option ℕ
  pub p95_ms : Option ℕ
  pub max_ms : Option ℕ

insert_sorted : ℕ → List ℕ → List ℕ
insert_sorted v [] = v ∷ []
insert_sorted v (x ∷ xs) = if leb v x then v ∷ x ∷ xs else x ∷ insert_sorted v xs

-- sorted(xs)
unfoldable pub sorted : List ℕ → List ℕ
unfolding insert_sorted
sorted [] = []
sorted (x ∷ xs) = insert_sorted x (sorted xs)

-- (v for v in values if v is not None)
unfoldable pub not_none : List (Option ℕ) → List ℕ
not_none [] = []
not_none (none ∷ vs) = not_none vs
not_none (some v ∷ vs) = v ∷ not_none vs

abbrev pub sum : List ℕ → ℕ
sum [] = 0
sum (x ∷ xs) = x + sum xs

-- xs[i], which raises IndexError out of range
unfoldable pub index : List ℕ → ℕ → Result ℕ
index [] i = err other
index (x ∷ xs) zero = ok x
index (x ∷ xs) (suc i) = index xs i

-- round(a / b): to the nearest, and to the even one of two
unfoldable pub round_div : ℕ → ℕ → ℕ
round_div a b =
    if ltb (2 * (a % b)) b
    then a / b
    else if ltb b (2 * (a % b))
    then a / b + 1
    else if (a / b) % 2 == 0
    then a / b
    else a / b + 1

-- The value at `k` hundredths of a place, where `f` and `c` are floor and ceiling of `k`.
unfoldable pub at_place : List ℕ → ℕ → ℕ → ℕ → Result ℕ
unfolding index
at_place vs k f c = if f == c then index vs f else (do
  lower ← index vs f
  upper ← index vs c
  ok (round_div (lower * (c * 100 - k) + upper * (k - f * 100)) 100))

unfoldable pub percentile : List ℕ → ℕ → Result ℕ
unfolding at_place
percentile [] p = ok 0
percentile (x ∷ []) p = ok x
percentile (x ∷ y ∷ vs) p =
    let k = suc (length vs) * p in at_place (x ∷ y ∷ vs) k (k / 100) ((k + 99) / 100)

-- xs[-1], for a list with a first entry
unfoldable pub last : ℕ → List ℕ → ℕ
last x [] = x
last x (y ∷ ys) = last y ys

-- `_compute_latency_for_field`, of the sorted values
unfoldable pub stats_of : List ℕ → Result LatencyStats
unfolding percentile
stats_of [] = ok (record { count = 0; avg_ms = none; p50_ms = none; p95_ms = none; max_ms = none })
stats_of (x ∷ xs) = do
  p50 ← percentile (x ∷ xs) 50
  p95 ← percentile (x ∷ xs) 95
  ok (record {
    count = length (x ∷ xs);
    avg_ms = some (round_div (sum (x ∷ xs)) (length (x ∷ xs)));
    p50_ms = some p50;
    p95_ms = some p95;
    max_ms = some (last x xs);
  })

unfoldable pub compute_latency_for_field : List (Option ℕ) → Result LatencyStats
unfolding not_none sorted stats_of
compute_latency_for_field values = stats_of (sorted (not_none values))
