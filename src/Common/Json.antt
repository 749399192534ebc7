-- ===== src/Common/Json.antt =====
-- The values that `json.loads` returns, with the tests that the program makes on them.
use Prim.Native.Nat.{ℕ}
use Prim.Native.String.{String}
use mathlib.Core.Bool.{Bool, true, false, not, ◌&&◌, ◌||◌}
use mathlib.Core.List.{[], ◌∷◌}
use mathlib.Core.Option.{Option, none, some}
use syn.Common.Tests.{str_eq, leb, ◌==◌, if◌then◌else◌}
use syn.Common.Text.{Text, codes}

-- A number that is no natural number keeps its text.
mutual
  pub data Json : Type 0 where
    null : Json
    bool : Bool → Json
    num : ℕ → Json
    decimal : String → Json
    str : String → Json
    arr : Items → Json
    obj : Fields → Json

  pub data Items : Type 0 where
    nil : Items
    cons : Json → Items → Items

  pub data Fields : Type 0 where
    end : Fields
    field : String → Json → Fields → Fields

-- d.get(k)
unfoldable pub get_field : Fields → String → Option Json
get_field end k = none
get_field (field j v d) k = if str_eq j k then some v else get_field d k

-- Whether the text of a number stands for one that `bool` takes for true: a digit other than 0 stands
-- before its exponent, or it is NaN or an infinity. A number that is not 0 but too small for a float
-- counts as one too.
is_nonzero : Text → Bool
is_nonzero [] = false
is_nonzero (c ∷ s) =
    let rest = is_nonzero s in
    if c == 101 || c == 69 then false else (leb 49 c && leb c 57) || c == 73 || c == 78 || rest

-- bool(v)
unfoldable pub truthy : Json → Bool
unfolding is_nonzero
truthy null = false
truthy (bool b) = b
truthy (num n) = not (n == 0)
truthy (decimal s) = is_nonzero (codes s)
truthy (str s) = not (str_eq s "")
truthy (arr nil) = false
truthy (arr (cons x xs)) = true
truthy (obj end) = false
truthy (obj (field k v d)) = true

-- isinstance(v, str) and v, for a value that may be missing
unfoldable pub nonempty_text : Option Json → Option String
nonempty_text (some (str s)) = if str_eq s "" then none else some s
nonempty_text (some null) = none
nonempty_text (some (bool b)) = none
nonempty_text (some (num n)) = none
nonempty_text (some (decimal s)) = none
nonempty_text (some (arr xs)) = none
nonempty_text (some (obj d)) = none
nonempty_text none = none

-- isinstance(v, list) and v
unfoldable pub nonempty_list : Option Json → Option Items
nonempty_list (some (arr (cons x xs))) = some (cons x xs)
nonempty_list _ = none
