-- ===== src/Routing/Distinct.antt =====
-- Lists of texts without repetition, as the loops of app/routing build them: at the end.
use syn.Common.{String, ◌≡◌, refl, true, false, List, [], ◌∷◌, ◌++◌, arith, str_eq_iff}
use syn.Common.Dict.{elem, elem-append}

abbrev pub Distinct : List String → Type 0
Distinct [] = Unit
Distinct (x ∷ xs) = (elem x xs ≡ false) × Distinct xs

pub Distinct-snoc :
    (xs : List String) (x : String) → Distinct xs → elem x xs ≡ false → Distinct (xs ++ x ∷ [])
unfolding elem
Distinct-snoc [] x d e = (refl, tt)
Distinct-snoc (y ∷ ys) x d e = (
  ground (arith, elem-append y ys (x ∷ []), str_eq_iff x y, str_eq_iff y x),
  Distinct-snoc ys x d.1 (ground arith),
)

pub Distinct-append :
    (xs ys : List String)
    → Distinct (xs ++ ys)
    → Distinct xs × Distinct ys × ((a : String) → elem a ys ≡ true → elem a xs ≡ false)
unfolding elem
Distinct-append [] ys d = (tt, d, λ a h. refl)
Distinct-append (x ∷ xs) ys d =
    let (left, right, apart) = Distinct-append xs ys d.1 in
    (
      (ground (arith, elem-append x xs ys), left),
      right,
      λ a h. ground (arith, elem-append x xs ys, apart a, str_eq_iff a x),
    )
