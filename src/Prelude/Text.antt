-- ===== src/Prelude/Text.antt =====
-- Native strings: equality as a test with its law, and dictionaries with string keys as
-- association lists in insertion order.
use Prim.Native.String.{String}
use Prim.Native.Char.{code}
use mathlib.Core.Path.{◌≡◌, refl}
use mathlib.Core.Bool.{Bool, true, false, ◌||◌}
use mathlib.Core.Option.{Option, none, some}
use mathlib.Core.List.{List, [], ◌∷◌, ◌++◌}
use native.Mathlib.Omega.{arith}
use flight_safety.Prelude.Tests.{if◌then◌else◌, ltb, ◌==◌}
use flight_safety.Prelude.Lists.{any}
pub use text.Mathlib.TextPositions.{eq_refl}
pub use Prim.Native.String.{◌++◌ as ◌<>◌}
pub use text.Mathlib.Text.{◌==◌ as str_eq, find?}
pub use text.Mathlib.TextEquality.{eq_iff}

-- The order of Python's `str`.
unfoldable pub is_before : String → String → Bool
is_before String.[] t = true
is_before (String.◌∷◌ c s) String.[] = false
is_before (String.◌∷◌ c s) (String.◌∷◌ d t) =
    let rest = is_before s t in if code c == code d then rest else ltb (code c) (code d)

-- `sorted` on texts; stable.
unfoldable pub insert_text : String → List String → List String
insert_text x [] = x ∷ []
insert_text x (y ∷ rest) =
    let later = insert_text x rest in if is_before x y then x ∷ y ∷ rest else y ∷ later

unfoldable pub sorted_texts : List String → List String
unfolding insert_text is_before
sorted_texts [] = []
sorted_texts (x ∷ rest) = insert_text x (sorted_texts rest)

-- `s in xs` on a list of strings
abbrev pub str_mem : String → List String → Bool
str_mem s = any (λ t. str_eq t s)

-- `d.get(key)` and `d[key] = value`; a new key goes to the end, as in a Python dict.
module _ {ℓ} {V : Type ℓ} where
  unfoldable pub lookup : String → List (String × V) → Option V
  lookup key [] = none
  lookup key (entry ∷ rest) = if str_eq entry.0 key then some entry.1 else lookup key rest

  unfoldable pub insert : String → V → List (String × V) → List (String × V)
  insert key value [] = (key, value) ∷ []
  insert key value (entry ∷ rest) =
      let later = insert key value rest in
      if str_eq entry.0 key then (key, value) ∷ rest else entry ∷ later

  -- After a write, the written key has the new value and every other key its old one.
  pub lookup-insert :
      (written key : String) (value : V) (dict : List (String × V))
      → lookup key (insert written value dict)
        ≡ (if str_eq written key then some value else lookup key dict)
  unfolding lookup insert
  lookup-insert written key value [] = refl
  lookup-insert written key value (entry ∷ rest) = ground (
    arith,
    lookup-insert written key value rest,
    eq_iff written key,
    eq_iff entry.0 written,
    eq_iff entry.0 key,
  )

module _ {ℓ} {V : Type ℓ} where
  pub lookup-insert_self :
      (key : String) (value : V) (dict : List (String × V))
      → lookup key (insert key value dict) ≡ some value
  lookup-insert_self key value dict = simp (lookup-insert, eq_refl)

str_mem-insert_text :
    (key x : String) (xs : List String)
    → str_mem key (insert_text x xs) ≡ (str_eq x key || str_mem key xs)
unfolding insert_text
str_mem-insert_text key x [] = refl
str_mem-insert_text key x (y ∷ rest) = ground (arith, str_mem-insert_text key x rest)

-- Sorting keeps the members.
pub str_mem-sorted_texts :
    (key : String) (xs : List String) → str_mem key (sorted_texts xs) ≡ str_mem key xs
unfolding sorted_texts
str_mem-sorted_texts key [] = refl
str_mem-sorted_texts key (x ∷ rest) =
    ground (arith, str_mem-insert_text key x (sorted_texts rest), str_mem-sorted_texts key rest)

pub str_mem-append :
    (key : String) (xs ys : List String)
    → str_mem key (xs ++ ys) ≡ (str_mem key xs || str_mem key ys)
str_mem-append key [] ys = refl
str_mem-append key (x ∷ xs) ys = ground (arith, str_mem-append key xs ys)
