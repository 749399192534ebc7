-- ===== src/Observability/Recent.antt =====
-- What app/services/observability.py shows of the recent requests.
use mathlib.Core.List.{Perm, append-nil}
use syn.Common.{
  ℕ, zero, suc, ◌≡◌, refl, ◌∙◌, ap, Option, List, [], ◌∷◌, ◌++◌, map, arith, ltb, if◌then◌else◌,
  length, take,
}
use syn.Common.Int.{ℤ, pos, negsuc}
use syn.Usage.{UsageRecord}
use syn.Observability.Order.{
  Descending, greatest_first, greatest_first-Perm, greatest_first-Descending, length-greatest_first,
}
use syn.Observability.{range, rows_in, newest_first, limited, recent_request, recent_requests}

-- How many of n rows a limit lets through: LIMIT reads a negative number as none.
abbrev pub capped : ℤ → ℕ → ℕ
capped (pos l) n = let cap = if ltb 200 l then 200 else l in if ltb n cap then n else cap
capped (negsuc l) n = n

length-take {ℓ} :
    {A : Type ℓ} (n : ℕ) (xs : List A)
    → length (take n xs) ≡ (if ltb (length xs) n then length xs else n)
length-take zero xs = ground arith
length-take (suc n) [] = ground arith
length-take (suc n) (x ∷ xs) = ground (arith, length-take n xs)

length-limited :
    (limit : ℤ) (rows : List UsageRecord) → length (limited limit rows) ≡ capped limit (length rows)
unfolding limited
length-limited (pos l) rows = length-take (if ltb 200 l then 200 else l) rows
length-limited (negsuc l) rows = refl

-- What a limit cuts off.
take-rest {ℓ} : {A : Type ℓ} (n : ℕ) (xs : List A) → (rest : List A) × (take n xs ++ rest ≡ xs)
take-rest zero xs = (xs, refl)
take-rest (suc n) [] = ([], refl)
take-rest (suc n) (x ∷ xs) = let (rest, e) = take-rest n xs in (rest, ap (λ ys. x ∷ ys) e)

limited-rest :
    (limit : ℤ) (rows : List UsageRecord)
    → (rest : List UsageRecord) × (limited limit rows ++ rest ≡ rows)
unfolding limited
limited-rest (pos l) rows = take-rest (if ltb 200 l then 200 else l) rows
limited-rest (negsuc l) rows = ([], append-nil rows)

-- The rows of a period are the shown ones and the rest, where each is at least as new as those after
-- it, and the limit says how many are shown.
pub record IsNewest (limit : ℤ) (rows shown rest : List UsageRecord) : Type 0 where
  pub all_rows : Perm (shown ++ rest) rows
  pub descending : Descending (λ (r : UsageRecord). r.started_at) (shown ++ rest)
  pub count : length shown ≡ capped limit (length rows)

-- The recent requests are those rows of the period that started last, the newest first. Their number
-- is the least of the limit, 200 and the number of the period's rows, unless the limit is negative:
-- then all the rows of the period are returned, however many they are.
pub recent_requests_lem :
    (day now : ℕ) (table : List UsageRecord) (limit : ℤ) (since until : Option ℕ)
    → (shown : List UsageRecord) × (rest : List UsageRecord) × (recent_requests day now table limit
          since until
        ≡ map recent_request shown)
      × IsNewest limit (rows_in (range day now since until) table) shown rest
unfolding recent_requests newest_first
recent_requests_lem day now table limit since until =
    let rows = rows_in (range day now since until) table in
    let newest = greatest_first (λ (r : UsageRecord). r.started_at) rows in
    let (rest, whole) = limited-rest limit newest in
    (
      limited limit newest,
      rest,
      refl,
      record {
        all_rows = rw whole (greatest_first-Perm (λ r. r.started_at) rows);
        descending = rw whole (greatest_first-Descending (λ r. r.started_at) rows);
        count =
            length-limited limit newest
            ∙ ap (λ n. capped limit n) (length-greatest_first (λ r. r.started_at) rows);
      },
    )
