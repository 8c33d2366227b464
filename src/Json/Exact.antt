-- ===== src/Json/Exact.antt =====
-- Equality of values, as `_exact_value` of vio_shadow.py has it.
use flight_safety.Prelude.{Bool, all, false, none, not, some, true, ◌&&◌, ◌==◌}
use flight_safety.Json.{
  Fields, Value, Values, array, boolean, field, get, integer, item, names_of, no_fields, no_items,
  null, object, real, str,
}
use flight_safety.Prelude.Float.{Float, fin, inf, neg_inf}
use flight_safety.Prelude.Int.{negsuc, pos, ℤ}
use flight_safety.Prelude.Text.{str_eq, str_mem}

abbrev pub eq_bool : Bool → Bool → Bool
eq_bool true b = b
eq_bool false b = not b

abbrev pub eq_ℤ : ℤ → ℤ → Bool
eq_ℤ (pos a) (pos b) = a == b
eq_ℤ (negsuc a) (negsuc b) = a == b
eq_ℤ a b = false

abbrev pub eq_float : Float → Float → Bool
eq_float (fin a) (fin b) = eq_ℤ a b
eq_float inf inf = true
eq_float neg_inf neg_inf = true
eq_float a b = false

abbrev pub same_names : Fields → Fields → Bool
same_names a b =
    all (λ name. str_mem name (names_of b)) (names_of a)
    && all (λ name. str_mem name (names_of a)) (names_of b)

-- The same types and contents; the order of a mapping's keys does not count.
unfoldable mutual
  pub exact_value : Value → Value → Bool
  exact_value null null = true
  exact_value (boolean a) (boolean b) = eq_bool a b
  exact_value (integer a) (integer b) = eq_ℤ a b
  exact_value (real a) (real b) = eq_float a b
  exact_value (str a) (str b) = str_eq a b
  exact_value (array xs) (array ys) = exact_items xs ys
  exact_value (object a) (object b) = same_names a b && exact_fields a b
  exact_value a b = false

  pub exact_items : Values → Values → Bool
  exact_items no_items no_items = true
  exact_items (item x xs) (item y ys) = exact_value x y && exact_items xs ys
  exact_items xs ys = false

  pub exact_fields : Fields → Fields → Bool
  exact_fields no_fields b = true
  exact_fields (field name v rest) b =
      let others = exact_fields rest b in
      elim (get name b) [ some w ↦ exact_value v w && others | none ↦ false ]
