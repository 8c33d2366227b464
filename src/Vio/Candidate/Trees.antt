-- ===== src/Vio/Candidate/Trees.antt =====
-- The helpers on parameter trees: merging, exact comparison, and paths into them.
use Prim.Native.Char.{Char, code}
use flight_safety.Prelude.{
  Bool, List, Option, String, [], false, if◌then◌else◌, none, some, true, ◌&&◌, ◌==◌, ◌∷◌,
}
use flight_safety.Json.{Fields, Value, delete, field, get, no_fields, object, put}
use flight_safety.Vio.Gates.{is_filled}

-- `_deep_merge`: a key of the overlay replaces the base's, and two mappings are merged.
unfoldable mutual
  pub merge : Fields → Fields → Fields
  merge base no_fields = base
  merge base (field key v rest) = merge (put key (merge_value (get key base) v) base) rest

  pub merge_value : Option Value → Value → Value
  merge_value (some (object b)) (object d) = object (merge b d)
  merge_value old v = v

abbrev pub deep_merge : Value → Value → Value
deep_merge (object base) (object overlay) = object (merge base overlay)
deep_merge base overlay = overlay

-- The character joins the first part.
abbrev pub onto_head : Char → List String → List String
onto_head c [] = String.◌∷◌ c "" ∷ []
onto_head c (part ∷ rest) = String.◌∷◌ c part ∷ rest

-- `s.split("/")`
unfoldable pub split : String → List String
split String.[] = "" ∷ []
split (String.◌∷◌ c s) = if code c == 47 then "" ∷ split s else onto_head c (split s)

-- `_path_parts`
unfoldable pub path_parts : String → List String
unfolding split
path_parts String.[] = []
path_parts (String.◌∷◌ c s) = if code c == 47 then split s else []

abbrev pub child : String → Value → Option Value
child part (object d) = get part d
child part v = none

-- The walk of `_tree_has_path`.
unfoldable pub has_parts : Value → List String → Bool
has_parts v [] = true
has_parts v (part ∷ rest) = elim (child part v) [ some w ↦ has_parts w rest | none ↦ false ]

unfoldable pub tree_has_path : Value → String → Bool
unfolding has_parts path_parts
tree_has_path v path = is_filled (path_parts path) && has_parts v (path_parts path)

abbrev pub put_child : String → Value → Value → Value
put_child part (object d) w = object (put part w d)
put_child part v w = v

abbrev pub delete_child : String → Value → Value
delete_child part (object d) = object (delete part d)
delete_child part v = v

-- One path of `_without_allowlisted_paths`.
unfoldable pub without_parts : Value → List String → Value
without_parts v [] = v
without_parts v (part ∷ []) = delete_child part v
without_parts v (part ∷ next ∷ rest) = elim (child part v) [
  | some w ↦ put_child part v (without_parts w (next ∷ rest))
  | none ↦ v
]

unfoldable pub without_allowlisted_paths : Value → List String → Value
unfolding without_parts path_parts
without_allowlisted_paths v [] = v
without_allowlisted_paths v (path ∷ rest) =
    without_allowlisted_paths (without_parts v (path_parts path)) rest
