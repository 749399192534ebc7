-- ===== src/Observability/Latency/Percentiles.antt =====
-- Percentiles of a sorted list are there, lie in its range and grow with the percentage.
use native.Mathlib.Nat.{mul-add, mul-le-mul_right}
use syn.Common.{
  ℕ, zero, suc, ◌+◌, ◌-◌, ◌*◌, ◌/◌, ◌≤◌, ◌<◌, ◌≡◌, refl, ap, inl, inr, List, [], ◌∷◌, arith, All,
  leb, ◌==◌, if◌then◌else◌, length, Bool-cases,
}
use syn.Errors.{ok}
use syn.Observability.Latency.{index, round_div, at_place}

abbrev pub IsSorted : List ℕ → Type 0
IsSorted [] = Unit
IsSorted (x ∷ xs) = All (λ y. x ≤ y) xs × IsSorted xs

-- The entry at a place that is there.
abbrev pub get_or_zero : List ℕ → ℕ → ℕ
get_or_zero [] i = 0
get_or_zero (x ∷ xs) zero = x
get_or_zero (x ∷ xs) (suc i) = get_or_zero xs i

pub index-get_or_zero : (vs : List ℕ) (i : ℕ) → i < length vs → index vs i ≡ ok (get_or_zero vs i)
unfolding index
index-get_or_zero [] i h = absurd (omega (arith, h))
index-get_or_zero (x ∷ xs) zero h = refl
index-get_or_zero (x ∷ xs) (suc i) h = index-get_or_zero xs i (omega (arith, h))

All-get_or_zero :
    (x : ℕ) (vs : List ℕ) (i : ℕ) → All (λ y. x ≤ y) vs → i < length vs → x ≤ get_or_zero vs i
All-get_or_zero x [] i a h = absurd (omega (arith, h))
All-get_or_zero x (y ∷ vs) zero a h = a.0
All-get_or_zero x (y ∷ vs) (suc i) a h = All-get_or_zero x vs i a.1 (omega (arith, h))

pub IsSorted-get_or_zero :
    (vs : List ℕ) (i j : ℕ)
    → IsSorted vs
    → i ≤ j
    → j < length vs
    → get_or_zero vs i ≤ get_or_zero vs j
IsSorted-get_or_zero [] i j s h k = absurd (omega (arith, k))
IsSorted-get_or_zero (x ∷ vs) zero zero s h k = omega arith
IsSorted-get_or_zero (x ∷ vs) zero (suc j) s h k = All-get_or_zero x vs j s.0 (omega (arith, k))
IsSorted-get_or_zero (x ∷ vs) (suc i) zero s h k = absurd (omega (arith, h))
IsSorted-get_or_zero (x ∷ vs) (suc i) (suc j) s h k =
    IsSorted-get_or_zero vs i j s.1 (omega (arith, h)) (omega (arith, k))

-- Rounding keeps to whole bounds, and is monotone.
round_div_bounds :
    (a m n : ℕ) → m * 100 ≤ a → a ≤ n * 100 → (m ≤ round_div a 100) × (round_div a 100 ≤ n)
unfolding round_div
round_div_bounds a m n h k = ground arith

round_div_mono : (a b : ℕ) → a ≤ b → round_div a 100 ≤ round_div b 100
unfolding round_div
round_div_mono a b h = ground arith

-- The value that `at_place` answers, for a place in range.
abbrev pub value_at : List ℕ → ℕ → ℕ
value_at vs k =
    if k / 100 == (k + 99) / 100
    then get_or_zero vs (k / 100)
    else round_div
        (get_or_zero vs (k / 100) * (((k + 99) / 100) * 100 - k)
          + get_or_zero vs ((k + 99) / 100) * (k - (k / 100) * 100))
        100

pub at_place-value_at :
    (vs : List ℕ) (k : ℕ)
    → (k + 99) / 100 < length vs
    → at_place vs k (k / 100) ((k + 99) / 100) ≡ ok (value_at vs k)
unfolding at_place
at_place-value_at vs k h =
    rw (index-get_or_zero vs (k / 100) (omega (arith, h)), index-get_or_zero vs ((k + 99) / 100) h)
      (ground arith)

-- A mean of two values, weighted by hundredths, lies between them.
mean_bounds :
    (a b u v : ℕ) → a ≤ b → u + v ≡ 100 → (a * 100 ≤ a * u + b * v) × (a * u + b * v ≤ b * 100)
mean_bounds a b u v h e = omega (
  arith,
  mul-add a u v,
  mul-add b u v,
  ap (λ (t : ℕ). a * t) e,
  ap (λ (t : ℕ). b * t) e,
  mul-le-mul_right u h,
  mul-le-mul_right v h,
)

mean_mono : (a b r s : ℕ) → a ≤ b → r ≤ s → s ≤ 100 → a * (100 - r) + b * r ≤ a * (100 - s) + b * s
mean_mono a b r s h k l =
    let d = s - r in
    let left : 100 - r ≡ (100 - s) + d = omega (arith, k, l) in
    let right : s ≡ r + d = omega (arith, k) in
    omega (
      arith,
      ap (λ (t : ℕ). a * t) left,
      mul-add a (100 - s) d,
      ap (λ (t : ℕ). b * t) right,
      mul-add b r d,
      mul-le-mul_right d h,
    )

module _ (vs : List ℕ) (s : IsSorted vs) where
  -- The value at a place lies between the entries on its two sides.
  pub value_at_bounds :
      (k : ℕ)
      → (k + 99) / 100 < length vs
      → (get_or_zero vs (k / 100) ≤ value_at vs k)
        × (value_at vs k ≤ get_or_zero vs ((k + 99) / 100))
  value_at_bounds k h =
      let a = get_or_zero vs (k / 100) in
      let b = get_or_zero vs ((k + 99) / 100) in
      let le : a ≤ b = IsSorted-get_or_zero vs (k / 100) ((k + 99) / 100) s (omega arith) h in
      elim (Bool-cases (k / 100 == (k + 99) / 100)) [
        | inl e ↦ rw e (omega arith, le)
        | inr e ↦
            let u = ((k + 99) / 100) * 100 - k in
            let v = k - (k / 100) * 100 in
            let whole : u + v ≡ 100 = ground (arith, e) in
            let (low, high) = mean_bounds a b u v le whole in
            rw e (round_div_bounds (a * u + b * v) a b low high)
      ]

  -- Of two places on one side of each whole place, the later has the greater value.
  value_at_mono_near :
      (k m : ℕ)
      → k ≤ m
      → (m + 99) / 100 < length vs
      → m / 100 ≡ k / 100
      → (m + 99) / 100 ≡ (k + 99) / 100
      → value_at vs k ≤ value_at vs m
  value_at_mono_near k m h l ef ec =
      let a = get_or_zero vs (k / 100) in
      let b = get_or_zero vs ((k + 99) / 100) in
      let le : a ≤ b =
        IsSorted-get_or_zero vs (k / 100) ((k + 99) / 100) s (omega arith) (omega (arith, ec, l)) in
      rw (ef, ec)
        (elim (Bool-cases (k / 100 == (k + 99) / 100)) [
          | inl e ↦ rw e (omega arith)
          | inr e ↦
              let r = k - (k / 100) * 100 in
              let q = m - (k / 100) * 100 in
              let er : ((k + 99) / 100) * 100 - k ≡ 100 - r = ground (arith, e) in
              let eq : ((k + 99) / 100) * 100 - m ≡ 100 - q = ground (arith, e, ef, ec) in
              rw (e, er, eq)
                (round_div_mono (a * (100 - r) + b * r) (a * (100 - q) + b * q)
                  (mean_mono a b r q le (omega (arith, h)) (ground (arith, e, ef, ec))))
        ])

  pub value_at_mono : (k m : ℕ) → k ≤ m → (m + 99) / 100 < length vs → value_at vs k ≤ value_at vs m
  value_at_mono k m h l = elim (Bool-cases (leb ((k + 99) / 100) (m / 100))) [
    | inl far ↦ omega (
      arith,
      (value_at_bounds k (ground (arith, h, l))).1,
      IsSorted-get_or_zero vs ((k + 99) / 100) (m / 100) s (ground (arith, far))
          (ground (arith, l)),
      (value_at_bounds m l).0,
    )
    | inr near ↦ value_at_mono_near k m h l (ground (arith, h, near)) (ground (arith, h, near))
  ]
