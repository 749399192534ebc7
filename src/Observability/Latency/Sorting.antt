-- ===== src/Observability/Latency/Sorting.antt =====
-- Sorting keeps the values of a list, and orders them.
use syn.Common.{
  ℕ, suc, ◌*◌, ◌≤◌, ◌≡◌, refl, inl, inr, Bool, true, false, List, [], ◌∷◌, arith, All, leb, ◌==◌,
  if◌then◌else◌, length, Bool-cases,
}
use syn.Observability.Latency.{insert_sorted, sorted, sum, last}
use syn.Observability.Latency.Percentiles.{IsSorted, get_or_zero}

-- v in xs
unfoldable pub mem : ℕ → List ℕ → Bool
mem v [] = false
mem v (x ∷ xs) = if x == v then true else mem v xs

module _ (P : ℕ → Type 0) where
  All-insert_sorted : (v : ℕ) (xs : List ℕ) → P v → All P xs → All P (insert_sorted v xs)
  unfolding insert_sorted
  All-insert_sorted v [] p a = (p, tt)
  All-insert_sorted v (x ∷ xs) p a = elim (Bool-cases (leb v x)) [
    | inl e ↦ rw e (p, a)
    | inr e ↦ rw e (a.0, All-insert_sorted v xs p a.1)
  ]

  insert_sorted-All : (v : ℕ) (xs : List ℕ) → All P (insert_sorted v xs) → P v × All P xs
  unfolding insert_sorted
  insert_sorted-All v [] a = (a.0, tt)
  insert_sorted-All v (x ∷ xs) a = elim (Bool-cases (leb v x)) [
    | inl e ↦ let b = rw e at a in (b.0, b.1)
    | inr e ↦ let b = rw e at a in let (p, rest) = insert_sorted-All v xs b.1 in (p, (b.0, rest))
  ]

  pub sorted-All : (xs : List ℕ) → All P (sorted xs) → All P xs
  unfolding sorted
  sorted-All [] a = tt
  sorted-All (x ∷ xs) a =
      let (p, rest) = insert_sorted-All x (sorted xs) a in (p, sorted-All xs rest)

All-le : (v x : ℕ) (xs : List ℕ) → v ≤ x → All (λ y. x ≤ y) xs → All (λ y. v ≤ y) xs
All-le v x [] h a = tt
All-le v x (y ∷ xs) h a = (omega (arith, h, a.0), All-le v x xs h a.1)

insert_sorted-IsSorted : (v : ℕ) (xs : List ℕ) → IsSorted xs → IsSorted (insert_sorted v xs)
unfolding insert_sorted
insert_sorted-IsSorted v [] s = (tt, tt)
insert_sorted-IsSorted v (x ∷ xs) s = elim (Bool-cases (leb v x)) [
  | inl e ↦ rw e (((ground (arith, e)), All-le v x xs (ground (arith, e)) s.0), s)
  | inr e ↦
      rw e (
        All-insert_sorted (λ y. x ≤ y) v xs (ground (arith, e)) s.0,
        insert_sorted-IsSorted v xs s.1,
      )
]

pub sorted-IsSorted : (xs : List ℕ) → IsSorted (sorted xs)
unfolding sorted
sorted-IsSorted [] = tt
sorted-IsSorted (x ∷ xs) = insert_sorted-IsSorted x (sorted xs) (sorted-IsSorted xs)

length-insert_sorted : (v : ℕ) (xs : List ℕ) → length (insert_sorted v xs) ≡ suc (length xs)
unfolding insert_sorted
length-insert_sorted v [] = refl
length-insert_sorted v (x ∷ xs) = ground (arith, length-insert_sorted v xs)

pub length-sorted : (xs : List ℕ) → length (sorted xs) ≡ length xs
unfolding sorted
length-sorted [] = refl
length-sorted (x ∷ xs) = omega (arith, length-insert_sorted x (sorted xs), length-sorted xs)

mem-insert_sorted :
    (u v : ℕ) (xs : List ℕ) → mem u (insert_sorted v xs) ≡ (if v == u then true else mem u xs)
unfolding insert_sorted mem
mem-insert_sorted u v [] = refl
mem-insert_sorted u v (x ∷ xs) = ground (arith, mem-insert_sorted u v xs)

pub mem-sorted : (u : ℕ) (xs : List ℕ) → mem u (sorted xs) ≡ mem u xs
unfolding sorted mem
mem-sorted u [] = refl
mem-sorted u (x ∷ xs) = ground (arith, mem-insert_sorted u x (sorted xs), mem-sorted u xs)

pub mem-last : (x : ℕ) (xs : List ℕ) → mem (last x xs) (x ∷ xs) ≡ true
unfolding mem last
mem-last x [] = ground arith
mem-last x (y ∷ xs) = ground (arith, mem-last y xs)

pub last-get_or_zero : (x : ℕ) (xs : List ℕ) → last x xs ≡ get_or_zero (x ∷ xs) (length xs)
unfolding last
last-get_or_zero x [] = refl
last-get_or_zero x (y ∷ xs) = last-get_or_zero y xs

-- Every value of a sorted list is at most the last one.
pub last-ge : (x : ℕ) (xs : List ℕ) → IsSorted (x ∷ xs) → All (λ v. v ≤ last x xs) (x ∷ xs)
unfolding last
last-ge x [] s = (omega arith, tt)
last-ge x (y ∷ xs) s = let rest = last-ge y xs s.1 in (omega (arith, (s.0).0, rest.0), rest)

pub sum_bounds :
    (low high : ℕ) (xs : List ℕ)
    → All (λ v. low ≤ v) xs
    → All (λ v. v ≤ high) xs
    → (low * length xs ≤ sum xs) × (sum xs ≤ high * length xs)
sum_bounds low high [] a b = omega arith
sum_bounds low high (x ∷ xs) a b = grind (arith, sum_bounds low high xs a.1 b.1)
