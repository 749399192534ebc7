-- ===== src/Observability/Latency/Bounds.antt =====
-- The latency statistics of app/services/observability.py against the values that they are about.
use native.Mathlib.Nat.{
  mul-le-mul_left, zero-mul, le-div_iff_mul-le, div-lt_iff_lt-mul, mul-div_cancel, mul-mod_left,
}
use syn.Common.{
  ℕ, suc, ◌+◌, ◌*◌, ◌/◌, ◌%◌, ◌≤◌, ◌<◌, ◌≡◌, refl, sym, ◌∙◌, ap, inl, inr, true, Option, none, some,
  List, [], ◌∷◌, arith, All, ltb, length, Bool-cases,
}
use syn.Errors.{Result, ok}
use syn.Observability.Latency.{
  LatencyStats, sorted, not_none, sum, round_div, percentile, last, stats_of,
  compute_latency_for_field,
}
use syn.Observability.Latency.Percentiles.{
  IsSorted, IsSorted-get_or_zero, value_at, at_place-value_at, value_at_bounds, value_at_mono,
}
use syn.Observability.Latency.Sorting.{
  mem, sorted-All, sorted-IsSorted, length-sorted, mem-sorted, mem-last, last-get_or_zero, last-ge,
  sum_bounds,
}

round_div_within :
    (a n low high : ℕ)
    → 0 < n
    → low * n ≤ a
    → a ≤ high * n
    → (low ≤ round_div a n) × (round_div a n ≤ high)
unfolding round_div
round_div_within a n low high p h k =
    let above : low ≤ a / n = (le-div_iff_mul-le p).1 h in
    elim (Bool-cases (ltb a (high * n))) [
      | inl e ↦
          let below : a / n < high = (div-lt_iff_lt-mul p).1 (ground (arith, e)) in
          ground (arith, above, below)
      | inr e ↦
          let full : a ≡ high * n = ground (arith, e, k) in
          let exact : a / n ≡ high = ap (λ (t : ℕ). t / n) full ∙ mul-div_cancel high p in
          let even : a % n ≡ 0 = ap (λ (t : ℕ). t % n) full ∙ mul-mod_left high n in
          ground (arith, above, exact, even)
    ]

percentile-value_at :
    (x : ℕ) (xs : List ℕ) (p : ℕ)
    → p ≤ 100
    → percentile (x ∷ xs) p ≡ ok (value_at (x ∷ xs) (length xs * p))
unfolding percentile
percentile-value_at x [] p h = rw (zero-mul p) refl
percentile-value_at x (y ∷ xs) p h =
    at_place-value_at (x ∷ y ∷ xs) (suc (length xs) * p)
      (omega (arith, mul-le-mul_left (suc (length xs)) h))

-- What the statistics of some values are: there are as many as the count says, all lie between a
-- least value and the maximum, which is one of them, and so do the mean and the percentiles.
abbrev pub Described : List ℕ → Result LatencyStats → Type 0
Described [] r =
    r ≡ ok (record { count = 0; avg_ms = none; p50_ms = none; p95_ms = none; max_ms = none })
Described (v ∷ vs) r =
    (low avg p50 p95 high : ℕ) × (r
      ≡ ok (record {
        count = length (v ∷ vs);
        avg_ms = some avg;
        p50_ms = some p50;
        p95_ms = some p95;
        max_ms = some high;
      }))
    × All (λ x. low ≤ x) (v ∷ vs)
    × All (λ x. x ≤ high) (v ∷ vs)
    × (mem low (v ∷ vs) ≡ true)
    × (mem high (v ∷ vs) ≡ true)
    × (low ≤ avg)
    × (avg ≤ high)
    × (low ≤ p50)
    × (p50 ≤ p95)
    × (p95 ≤ high)

module _ (w : ℕ) (ws : List ℕ) (s : IsSorted (w ∷ ws)) where
  in_range :
      (k : ℕ)
      → (k + 99) / 100 ≤ length ws
      → (w ≤ value_at (w ∷ ws) k) × (value_at (w ∷ ws) k ≤ last w ws)
  in_range k h =
      let (a, b) = value_at_bounds (w ∷ ws) s k (omega (arith, h)) in
      (
        omega (
          arith,
          a,
          IsSorted-get_or_zero (w ∷ ws) 0 (k / 100) s (omega arith) (omega (arith, h)),
        ),
        omega (
          arith,
          b,
          last-get_or_zero w ws,
          IsSorted-get_or_zero (w ∷ ws) ((k + 99) / 100) (length ws) s h (omega arith),
        ),
      )

  stats_of-Described : Described (w ∷ ws) (stats_of (w ∷ ws))
  unfolding stats_of mem
  stats_of-Described =
      let least : All (λ x. w ≤ x) (w ∷ ws) = (omega arith, s.0) in
      let most = last-ge w ws s in
      let (below, above) = sum_bounds w (last w ws) (w ∷ ws) least most in
      let (a, b) =
        round_div_within (sum (w ∷ ws)) (length (w ∷ ws)) w (last w ws) (omega arith) below above in
      (
        w,
        round_div (sum (w ∷ ws)) (length (w ∷ ws)),
        value_at (w ∷ ws) (length ws * 50),
        value_at (w ∷ ws) (length ws * 95),
        last w ws,
        rw (percentile-value_at w ws 50 (omega arith), percentile-value_at w ws 95 (omega arith))
            refl,
        least,
        most,
        ground arith,
        mem-last w ws,
        a,
        b,
        (in_range (length ws * 50) (omega arith)).0,
        value_at_mono (w ∷ ws) s (length ws * 50) (length ws * 95) (omega arith) (omega arith),
        (in_range (length ws * 95) (omega arith)).1,
      )

-- A description depends on which values there are, not on their order.
Described-transfer :
    (vs ws : List ℕ) (r : Result LatencyStats)
    → length ws ≡ length vs
    → ((P : ℕ → Type 0) → All P ws → All P vs)
    → ((u : ℕ) → mem u ws ≡ mem u vs)
    → Described ws r
    → Described vs r
Described-transfer [] [] r l every m d = d
Described-transfer [] (w ∷ ws) r l every m d = absurd (omega (arith, l))
Described-transfer (v ∷ vs) [] r l every m d = absurd (omega (arith, l))
Described-transfer (v ∷ vs) (w ∷ ws) r l every m
      (low, avg, p50, p95, high, e, a, b, i, j, c0, c1, c2, c3, c4) =
    (
      low,
      avg,
      p50,
      p95,
      high,
      e
          ∙ ap
              (λ n. ok (record {
                count = n;
                avg_ms = some avg;
                p50_ms = some p50;
                p95_ms = some p95;
                max_ms = some high;
              }))
              l,
      every (λ x. low ≤ x) a,
      every (λ x. x ≤ high) b,
      sym (m low) ∙ i,
      sym (m high) ∙ j,
      c0,
      c1,
      c2,
      c3,
      c4,
    )

sorted-Described : (ws : List ℕ) → IsSorted ws → Described ws (stats_of ws)
sorted-Described [] s = unfold stats_of in refl
sorted-Described (w ∷ ws) s = stats_of-Described w ws s

-- The statistics of a column raise nothing, and pass over the values that are missing: with none
-- left they are empty, and else their count is the number of the values, the maximum is the
-- greatest of them, the mean lies between the least and the greatest, and the median is at most the
-- 95th percentile, both between the least and the greatest too.
pub compute_latency_for_field-Described :
    (values : List (Option ℕ)) → Described (not_none values) (compute_latency_for_field values)
unfolding compute_latency_for_field
compute_latency_for_field-Described values =
    let vs = not_none values in
    Described-transfer vs (sorted vs) (stats_of (sorted vs)) (length-sorted vs)
      (λ P. sorted-All P vs) (λ u. mem-sorted u vs)
      (sorted-Described (sorted vs) (sorted-IsSorted vs))
