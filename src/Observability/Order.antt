-- ===== src/Observability/Order.antt =====
-- Sorting in descending order of a rank, where elements of one rank keep their order: what
-- app/services/observability.py asks of `sorted` with a negated key and of ORDER BY ... DESC.
use mathlib.Core.List.{Perm}
use mathlib.Core.List.Perm
use syn.Common.{
  ℕ, zero, suc, ◌+◌, ◌≤◌, ◌≡◌, refl, inl, inr, Bool, List, [], ◌∷◌, arith, All, leb, if◌then◌else◌,
  length, count_if, take, Bool-cases,
}

module _ {ℓ} {A : Type ℓ} where
  -- The sum of a measure over a list.
  abbrev pub sum_by : (A → ℕ) → List A → ℕ
  sum_by m [] = 0
  sum_by m (x ∷ xs) = m x + sum_by m xs

module _ {ℓ} {A : Type ℓ} (rank : A → ℕ) where
  unfoldable pub insert_by : A → List A → List A
  insert_by x [] = x ∷ []
  insert_by x (y ∷ ys) = if leb (rank y) (rank x) then x ∷ y ∷ ys else y ∷ insert_by x ys

  unfoldable pub greatest_first : List A → List A
  unfolding insert_by
  greatest_first [] = []
  greatest_first (x ∷ xs) = insert_by x (greatest_first xs)

  -- Each element's rank is at least that of those behind it.
  abbrev pub Descending : List A → Type 0
  Descending [] = Unit
  Descending (x ∷ xs) = All (λ y. rank y ≤ rank x) xs × Descending xs

  module _ {κ} (P : A → Type κ) where
    All-insert_by : (x : A) (xs : List A) → P x → All P xs → All P (insert_by x xs)
    unfolding insert_by
    All-insert_by x [] p a = (p, tt)
    All-insert_by x (y ∷ ys) p a = elim (Bool-cases (leb (rank y) (rank x))) [
      | inl e ↦ rw e (p, a)
      | inr e ↦ rw e (a.0, All-insert_by x ys p a.1)
    ]

    pub All-greatest_first : (xs : List A) → All P xs → All P (greatest_first xs)
    unfolding greatest_first
    All-greatest_first [] a = tt
    All-greatest_first (x ∷ xs) a =
        All-insert_by x (greatest_first xs) a.0 (All-greatest_first xs a.1)

  All-le :
      (x y : A) (zs : List A)
      → rank y ≤ rank x
      → All (λ z. rank z ≤ rank y) zs
      → All (λ z. rank z ≤ rank x) zs
  All-le x y [] h a = tt
  All-le x y (z ∷ zs) h a = (omega (arith, h, a.0), All-le x y zs h a.1)

  insert_by-Descending : (x : A) (xs : List A) → Descending xs → Descending (insert_by x xs)
  unfolding insert_by
  insert_by-Descending x [] d = (tt, tt)
  insert_by-Descending x (y ∷ ys) d = elim (Bool-cases (leb (rank y) (rank x))) [
    | inl e ↦ rw e ((ground (arith, e), All-le x y ys (ground (arith, e)) d.0), d)
    | inr e ↦ rw e (
      All-insert_by (λ z. rank z ≤ rank y) x ys (ground (arith, e)) d.0,
      insert_by-Descending x ys d.1,
    )
  ]

  pub greatest_first-Descending : (xs : List A) → Descending (greatest_first xs)
  unfolding greatest_first
  greatest_first-Descending [] = tt
  greatest_first-Descending (x ∷ xs) =
      insert_by-Descending x (greatest_first xs) (greatest_first-Descending xs)

  take-All {κ} : (P : A → Type κ) (n : ℕ) (xs : List A) → All P xs → All P (take n xs)
  take-All P zero xs a = tt
  take-All P (suc n) [] a = tt
  take-All P (suc n) (x ∷ xs) a = (a.0, take-All P n xs a.1)

  pub take-Descending : (n : ℕ) (xs : List A) → Descending xs → Descending (take n xs)
  take-Descending zero xs d = tt
  take-Descending (suc n) [] d = tt
  take-Descending (suc n) (x ∷ xs) d =
      (take-All (λ y. rank y ≤ rank x) n xs d.0, take-Descending n xs d.1)

  sum_by-insert_by :
      (m : A → ℕ) (x : A) (xs : List A) → sum_by m (insert_by x xs) ≡ m x + sum_by m xs
  unfolding insert_by
  sum_by-insert_by m x [] = refl
  sum_by-insert_by m x (y ∷ ys) = ground (arith, sum_by-insert_by m x ys)

  pub sum_by-greatest_first : (m : A → ℕ) (xs : List A) → sum_by m (greatest_first xs) ≡ sum_by m xs
  unfolding greatest_first
  sum_by-greatest_first m [] = refl
  sum_by-greatest_first m (x ∷ xs) =
      ground (arith, sum_by-insert_by m x (greatest_first xs), sum_by-greatest_first m xs)

  length-insert_by : (x : A) (xs : List A) → length (insert_by x xs) ≡ suc (length xs)
  unfolding insert_by
  length-insert_by x [] = refl
  length-insert_by x (y ∷ ys) = ground (arith, length-insert_by x ys)

  pub length-greatest_first : (xs : List A) → length (greatest_first xs) ≡ length xs
  unfolding greatest_first
  length-greatest_first [] = refl
  length-greatest_first (x ∷ xs) =
      omega (arith, length-insert_by x (greatest_first xs), length-greatest_first xs)

  count_if-insert_by :
      (p : A → Bool) (x : A) (xs : List A) → count_if p (insert_by x xs) ≡ count_if p (x ∷ xs)
  unfolding insert_by
  count_if-insert_by p x [] = refl
  count_if-insert_by p x (y ∷ ys) = ground (arith, count_if-insert_by p x ys)

  pub count_if-greatest_first :
      (p : A → Bool) (xs : List A) → count_if p (greatest_first xs) ≡ count_if p xs
  unfolding greatest_first
  count_if-greatest_first p [] = refl
  count_if-greatest_first p (x ∷ xs) =
      ground (arith, count_if-insert_by p x (greatest_first xs), count_if-greatest_first p xs)

  insert_by-Perm : (x : A) (xs : List A) → Perm (insert_by x xs) (x ∷ xs)
  unfolding insert_by
  insert_by-Perm x [] = Perm.refl (x ∷ [])
  insert_by-Perm x (y ∷ ys) = elim (Bool-cases (leb (rank y) (rank x))) [
    | inl e ↦ rw e (Perm.refl (x ∷ y ∷ ys))
    | inr e ↦ rw e (Perm.trans (Perm.cons y (insert_by-Perm x ys)) (Perm.swap x y ys))
  ]

  pub greatest_first-Perm : (xs : List A) → Perm (greatest_first xs) xs
  unfolding greatest_first
  greatest_first-Perm [] = Perm.refl []
  greatest_first-Perm (x ∷ xs) =
      Perm.trans (insert_by-Perm x (greatest_first xs)) (Perm.cons x (greatest_first-Perm xs))
