-- ===== src/Common/Dict.antt =====
-- Python's `dict` with string keys: an association list in the order of insertion. A write to a
-- key that is there keeps its place, as in Python.
use Prim.Native.String.{String}
use mathlib.Core.Path.{◌≡◌, refl}
use mathlib.Core.Bool.{Bool, true, false}
use mathlib.Core.Option.{Option, none, some}
use mathlib.Core.List.{List, [], ◌∷◌, ◌++◌}
use native.Mathlib.Omega.{arith}
use syn.Common.Tests.{str_eq, str_eq_iff, if◌then◌else◌}

abbrev pub Dict {ℓ} : Type ℓ → Type ℓ
Dict V = List (String × V)

-- x in s, for a list or a set of texts
unfoldable pub elem : String → List String → Bool
elem x [] = false
elem x (y ∷ ys) = if str_eq x y then true else elem x ys

module _ {ℓ} {V : Type ℓ} where
  -- d.get(k)
  unfoldable pub get : Dict V → String → Option V
  get [] k = none
  get ((j, v) ∷ d) k = if str_eq j k then some v else get d k

  -- d[k] = v
  unfoldable pub put : Dict V → String → V → Dict V
  put [] k v = (k, v) ∷ []
  put ((j, w) ∷ d) k v = if str_eq j k then (j, v) ∷ d else (j, w) ∷ put d k v

  -- k in d
  abbrev pub has : Dict V → String → Bool
  has d k = elim (get d k) [ none ↦ false | some _ ↦ true ]

  -- list(d)
  unfoldable pub keys : Dict V → List String
  keys [] = []
  keys ((j, v) ∷ d) = j ∷ keys d

  -- d.values()
  unfoldable pub values : Dict V → List V
  values [] = []
  values ((j, v) ∷ d) = v ∷ values d

  pub get-put :
      (d : Dict V) (k j : String) (v : V)
      → get (put d k v) j ≡ (if str_eq k j then some v else get d j)
  unfolding get put
  get-put [] k j v = refl
  get-put ((i, w) ∷ d) k j v =
      ground (arith, str_eq_iff k j, str_eq_iff i k, str_eq_iff i j, get-put d k j v)

  -- A write to a new key goes to the end.
  pub values-put_new :
      (d : Dict V) (k : String) (v : V) → get d k ≡ none → values (put d k v) ≡ values d ++ v ∷ []
  unfolding get put values
  values-put_new [] k v h = refl
  values-put_new ((i, w) ∷ d) k v h = ground (arith, values-put_new d k v)

  pub keys-put_new :
      (d : Dict V) (k : String) (v : V) → get d k ≡ none → keys (put d k v) ≡ keys d ++ k ∷ []
  unfolding get put keys
  keys-put_new [] k v h = refl
  keys-put_new ((i, w) ∷ d) k v h = ground (arith, keys-put_new d k v)

  -- A key is listed exactly when it has a value.
  pub elem-keys : (d : Dict V) (k : String) → elem k (keys d) ≡ has d k
  unfolding get keys elem
  elem-keys [] k = refl
  elem-keys ((i, w) ∷ d) k = ground (arith, str_eq_iff i k, str_eq_iff k i, elem-keys d k)

pub elem-append :
    (x : String) (xs ys : List String) → elem x (xs ++ ys) ≡ (if elem x xs then true else elem x ys)
unfolding elem
elem-append x [] ys = refl
elem-append x (z ∷ xs) ys = ground (arith, elem-append x xs ys)

pub get-empty {ℓ} : {V : Type ℓ} (k : String) → get {V = V} [] k ≡ none
unfolding get
get-empty k = refl

pub ruleset dict_laws = (get-put, get-empty)
