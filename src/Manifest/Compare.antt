-- ===== src/Manifest/Compare.antt =====
-- `_compare_snapshots`. A snapshot is the mapping that was captured.
use flight_safety.Prelude.{
  Bool, List, Option, String, [], false, if◌then◌else◌, map, none, not, some, true, ◌++◌, ◌||◌, ◌∷◌,
}
use flight_safety.Json.{Fields, Value, field, fields_of, get, names_of, no_fields, object}
use flight_safety.Json.Exact.{exact_value}
use flight_safety.Prelude.Text.{sorted_texts, str_mem}

pub record Comparison : Type 0 where
  pub start_fingerprint : Option Value
  pub end_fingerprint : Option Value
  pub ros_parameters_changed : Bool
  pub repository_heads_changed : List (String × Bool)
  pub config_sha256_changed : List (String × Bool)

pub data Compared : Type 0 where
  unavailable : Compared
  available : Comparison → Compared

abbrev pub or_empty : Option Value → Value
or_empty none = object no_fields
or_empty (some v) = v

-- `value.get(key, {}) if isinstance(value, dict) else {}`
abbrev pub pick_key : String → Value → Value
pick_key key v = or_empty (get key (fields_of (some v)))

unfoldable pub pick : Value → List String → Value
pick v [] = v
pick v (key ∷ rest) = pick (pick_key key v) rest

-- The values are texts or missing, which `!=` and `_exact_value` tell apart alike.
unfoldable pub is_changed : Fields → Fields → List String → Bool
unfolding pick exact_value
is_changed old new keys = not (exact_value (pick (object old) keys) (pick (object new) keys))

-- The names that are not in the other list.
unfoldable pub names_beside : List String → List String → List String
names_beside known [] = []
names_beside known (name ∷ rest) =
    let others = names_beside known rest in if str_mem name known then others else name ∷ others

abbrev pub section_names : String → Fields → List String
section_names section snapshot = names_of (fields_of (get section snapshot))

-- `sorted(set(old) | set(new))`
unfoldable pub all_names : String → Fields → Fields → List String
unfolding names_beside sorted_texts
all_names section old new = sorted_texts (
    section_names section old
    ++ names_beside (section_names section old) (section_names section new))

unfoldable pub changes : String → String → Fields → Fields → List (String × Bool)
unfolding all_names is_changed
changes section key old new =
    map (λ name. (name, is_changed old new (section ∷ (name ∷ (key ∷ [])))))
      (all_names section old new)

abbrev pub is_empty : Fields → Bool
is_empty no_fields = true
is_empty (field name v rest) = false

abbrev pub comparison : Fields → Fields → Comparison
comparison old new = record {
  start_fingerprint = get "fingerprint_sha256" old;
  end_fingerprint = get "fingerprint_sha256" new;
  ros_parameters_changed = is_changed old new ("ros" ∷ ("parameters_sha256" ∷ []));
  repository_heads_changed = changes "repositories" "head" old new;
  config_sha256_changed = changes "config_files" "sha256" old new;
}

unfoldable pub compare_snapshots : Option Fields → Fields → Compared
unfolding changes is_changed
compare_snapshots none new = unavailable
compare_snapshots (some old) new =
    if is_empty old || is_empty new then unavailable else available (comparison old new)
