-- ===== src/Vio/Profile/Checks.antt =====
-- A check and what it says when it fails; the first failure is raised.
use flight_safety.Prelude.{
  Bool, List, Option, String, [], all, false, if◌then◌else◌, map, none, not, some, ◌&&◌, ◌||◌, ◌∷◌,
}
use flight_safety.Json.{Fields, Value, array, get, has_keys, is_distinct_texts, items_of, str}
use flight_safety.Vio.Hybrid.Ready.{all_some}
use flight_safety.Vio.Gates.{is_filled}
use flight_safety.Vio.Texts.{starts_with}
use flight_safety.Prelude.Text.{str_eq, ◌<>◌}

pub record Check : Type 0 where
  pub passed : Bool
  pub problem : String

abbrev pub check : Bool → String → Check
check passed problem = record { passed = passed; problem = problem }

-- `none` is a return.
unfoldable pub first_failure : List Check → Option String
first_failure [] = none
first_failure (c ∷ rest) =
    let later = first_failure rest in if c.passed then later else some c.problem

-- `_exact_keys`
abbrev pub exact_keys : Option Value → List String → String → Check
exact_keys v expected label = check (has_keys expected v) (label <> " has other keys")

-- One check for each key.
unfoldable pub for_keys : (Option Value → Bool) → String → Fields → List String → List Check
for_keys test problem d [] = []
for_keys test problem d (key ∷ rest) =
    check (test (get key d)) (key <> problem) ∷ for_keys test problem d rest

abbrev pub is_absolute_text : Option Value → Bool
is_absolute_text (some (str s)) = starts_with s "/"
is_absolute_text _ = false

-- A text that is empty or begins with `/`.
abbrev pub is_empty_or_absolute : Option Value → Bool
is_empty_or_absolute (some (str s)) = str_eq s "" || starts_with s "/"
is_empty_or_absolute _ = false

-- `part in s`
unfoldable pub contains : String → String → Bool
unfolding starts_with
contains part String.[] = starts_with "" part
contains part (String.◌∷◌ c s) = starts_with (String.◌∷◌ c s) part || contains part s

abbrev pub is_pointer : String → Bool
is_pointer path =
    starts_with path "/"
    && (not (str_eq path "/")
        && (not (contains "//" path) && (not (contains "~" path) && not (contains "*" path))))

abbrev pub text_of : Value → Option String
text_of (str s) = some s
text_of _ = none

-- The texts of the list, if it is a list of texts.
unfoldable pub texts_of : Option Value → Option (List String)
unfolding all_some
texts_of (some (array xs)) = all_some (map text_of (items_of xs))
texts_of _ = none

abbrev pub are_pointers : Option (List String) → Bool
are_pointers none = false
are_pointers (some paths) = is_distinct_texts paths && all is_pointer paths

-- `_valid_allowlist`
unfoldable pub valid_allowlist : Option Value → Bool
unfolding texts_of
valid_allowlist v = are_pointers (texts_of v)

abbrev pub are_names : Option (List String) → Bool
are_names none = false
are_names (some xs) = is_filled xs && (all (λ x. not (str_eq x "")) xs && is_distinct_texts xs)
