-- ===== src/Json.antt =====
-- Python values as JSON and YAML give them, and the tests that the code makes on them. A real number
-- counts trillionths.
pub mod Exact
use flight_safety.Prelude.{
  Bool, List, Option, String, [], all, false, if◌then◌else◌, is_some, none, refl, arith, ◌≡◌, not,
  some, true, ℕ, ◌&&◌, ◌∷◌,
}
use flight_safety.Prelude.Float.{Float, fin}
use flight_safety.Prelude.Int.{leb_ℤ, ltb_ℤ, pos, ℤ, ◌*ℤ◌}
use flight_safety.Prelude.Text.{str_eq, str_mem}

mutual
  pub data Value : Type 0 where
    null : Value
    boolean : Bool → Value
    integer : ℤ → Value
    real : Float → Value
    str : String → Value
    array : Values → Value
    object : Fields → Value

  pub data Values : Type 0 where
    no_items : Values
    item : Value → Values → Values

  -- A dictionary in insertion order.
  pub data Fields : Type 0 where
    no_fields : Fields
    field : String → Value → Fields → Fields

-- `d.get(key)`
unfoldable pub get : String → Fields → Option Value
get key no_fields = none
get key (field name v rest) = if str_eq name key then some v else get key rest

-- `d[key] = value`
unfoldable pub put : String → Value → Fields → Fields
put key v no_fields = field key v no_fields
put key v (field name w rest) =
    let later = put key v rest in if str_eq name key then field key v rest else field name w later

-- `del d[key]`, where it is there.
unfoldable pub delete : String → Fields → Fields
delete key no_fields = no_fields
delete key (field name v rest) =
    let others = delete key rest in if str_eq name key then others else field name v others

abbrev pub names_of : Fields → List String
names_of no_fields = []
names_of (field name v rest) = name ∷ names_of rest

abbrev pub values_of : Fields → List Value
values_of no_fields = []
values_of (field name v rest) = v ∷ values_of rest

abbrev pub items_of : Values → List Value
items_of no_items = []
items_of (item v rest) = v ∷ items_of rest

-- The fields of a mapping; none for what is no mapping.
abbrev pub fields_of : Option Value → Fields
fields_of (some (object d)) = d
fields_of _ = no_fields

abbrev pub is_object : Option Value → Bool
is_object (some (object d)) = true
is_object _ = false

abbrev pub is_true : Option Value → Bool
is_true (some (boolean b)) = b
is_true _ = false

abbrev pub is_false : Option Value → Bool
is_false (some (boolean b)) = not b
is_false _ = false

abbrev pub is_boolean : Option Value → Bool
is_boolean (some (boolean b)) = true
is_boolean _ = false

abbrev pub is_str : Option Value → Bool
is_str (some (str s)) = true
is_str _ = false

-- A text that is not empty.
abbrev pub is_filled_str : Option Value → Bool
is_filled_str (some (str s)) = not (str_eq s "")
is_filled_str _ = false

-- `value == expected`, for a text.
abbrev pub is_text : String → Option Value → Bool
is_text expected (some (str s)) = str_eq s expected
is_text expected _ = false

abbrev pub unit_of : ℤ
unit_of = pos 1000000000000

-- `_strict_number`, with the number in trillionths: a Boolean is none.
unfoldable pub number_of : Option Value → Option ℤ
number_of (some (integer n)) = some (n *ℤ unit_of)
number_of (some (real (fin n))) = some n
number_of _ = none

abbrev pub is_positive : Option ℤ → Bool
is_positive none = false
is_positive (some n) = ltb_ℤ (pos 0) n

-- `_finite_positive`
abbrev pub is_finite_positive : Option Value → Bool
is_finite_positive v = is_positive (number_of v)

-- An integer that is no Boolean, and at least `low`.
abbrev pub is_int_from : ℕ → Option Value → Bool
is_int_from low (some (integer n)) = leb_ℤ (pos low) n
is_int_from low _ = false

-- `set(value) == set(expected)`, for a mapping.
unfoldable pub has_keys : List String → Option Value → Bool
has_keys expected (some (object d)) =
    all (λ key. is_some (get key d)) expected && all (λ name. str_mem name expected) (names_of d)
has_keys expected _ = false

-- Nothing of the list is in the rest of it.
abbrev pub is_distinct_texts : List String → Bool
is_distinct_texts [] = true
is_distinct_texts (x ∷ rest) = not (str_mem x rest) && is_distinct_texts rest

-- A key has a value where it is one of the names.
pub is_some-get : (key : String) (d : Fields) → is_some (get key d) ≡ str_mem key (names_of d)
unfolding get
is_some-get key no_fields = refl
is_some-get key (field name v rest) = ground (arith, is_some-get key rest)
