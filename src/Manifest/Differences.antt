-- ===== src/Manifest/Differences.antt =====
-- Theorems about `_compare_snapshots`: what a comparison says of the two snapshots.
use flight_safety.Json.{Fields, Value, field, fields_of, get, is_some-get, no_fields, object}
use flight_safety.Prelude.{
  Bool, Bool-cases, List, Option, String, [], ap, arith, if◌then◌else◌, inl, inr, is_some, map,
  none, not, refl, some, sym, ◌++◌, ◌||◌, ◌∙◌, ◌∷◌, ◌≡◌, ◌≢◌, ◌⊎◌,
}
use flight_safety.Manifest.Compare.{
  Compared, Comparison, all_names, available, changes, compare_snapshots, comparison, is_changed,
  names_beside, or_empty, pick, section_names, unavailable,
}
use flight_safety.Prelude.Text.{
  eq_iff, lookup, str_eq, str_mem, str_mem-append, str_mem-sorted_texts,
}
use flight_safety.Json.Exact.{exact_value}

-- What stands under the three keys; an empty mapping where one is missing.
abbrev pub found_or_empty : Option Value → Value
found_or_empty none = object no_fields
found_or_empty (some v) = v

abbrev pub leaf : String → String → String → Fields → Value
leaf section name key d =
    found_or_empty (get key (fields_of (get name (fields_of (get section d)))))

abbrev pub is_named : String → String → Fields → Bool
is_named section name d = is_some (get name (fields_of (get section d)))

-- A name has an entry if either snapshot has it, and the entry says whether the two values differ.
abbrev pub entry_of : String → String → Fields → Fields → String → Option Bool
entry_of section key old new name =
    if is_named section name old || is_named section name new
    then some (not (exact_value (leaf section name key old) (leaf section name key new)))
    else none

pub record IsComparison (old new : Fields) (c : Comparison) : Type 0 where
  pub started : c.start_fingerprint ≡ get "fingerprint_sha256" old
  pub ended : c.end_fingerprint ≡ get "fingerprint_sha256" new
  pub parameters :
      c.ros_parameters_changed
      ≡ not (
          exact_value
            (found_or_empty (get "parameters_sha256" (fields_of (get "ros" old))))
            (found_or_empty (get "parameters_sha256" (fields_of (get "ros" new)))))
  pub heads :
      (name : String)
      → lookup name c.repository_heads_changed ≡ entry_of "repositories" "head" old new name
  pub configs :
      (name : String)
      → lookup name c.config_sha256_changed ≡ entry_of "config_files" "sha256" old new name

-- There is a comparison exactly if both snapshots are there and not empty.
abbrev pub IsCompared : Option Fields → Fields → Compared → Type 0
IsCompared none new unavailable = Unit
IsCompared none new (available c) = ⊥
IsCompared (some old) new unavailable = (old ≡ no_fields) ⊎ (new ≡ no_fields)
IsCompared (some old) new (available c) =
    ((old ≢ no_fields) × (new ≢ no_fields)) × IsComparison old new c

fields_of-found_or_empty : (o : Option Value) → fields_of (some (found_or_empty o)) ≡ fields_of o
fields_of-found_or_empty none = refl
fields_of-found_or_empty (some v) = refl

or_empty-found_or_empty : (o : Option Value) → or_empty o ≡ found_or_empty o
or_empty-found_or_empty none = refl
or_empty-found_or_empty (some v) = refl

fields_of-or_empty : (o : Option Value) → fields_of (some (or_empty o)) ≡ fields_of o
fields_of-or_empty o =
    ap (λ v. fields_of (some v)) (or_empty-found_or_empty o) ∙ fields_of-found_or_empty o

pick-two :
    (section key : String) (d : Fields)
    → pick (object d) (section ∷ (key ∷ [])) ≡ found_or_empty (get key (fields_of (get section d)))
unfolding pick
pick-two section key d =
    ap (λ e. or_empty (get key e)) (fields_of-or_empty (get section d))
    ∙ or_empty-found_or_empty (get key (fields_of (get section d)))

pick-leaf :
    (section name key : String) (d : Fields)
    → pick (object d) (section ∷ (name ∷ (key ∷ []))) ≡ leaf section name key d
unfolding pick
pick-leaf section name key d =
    ap (λ e. or_empty (get key (fields_of (some (or_empty (get name e))))))
      (fields_of-or_empty (get section d))
    ∙ ap (λ e. or_empty (get key e)) (fields_of-or_empty (get name (fields_of (get section d))))
    ∙ or_empty-found_or_empty (get key (fields_of (get name (fields_of (get section d)))))

lookup-map :
    (f : String → Bool) (key : String) (names : List String)
    → lookup key (map (λ name. (name, f name)) names)
      ≡ (if str_mem key names then some (f key) else none)
unfolding lookup
lookup-map f key [] = refl
lookup-map f key (name ∷ rest) = elim (Bool-cases (str_eq name key)) [
  | inl same ↦ rw (same, (eq_iff name key).0 same) refl
  | inr apart ↦ rw apart (lookup-map f key rest)
]

str_mem-names_beside :
    (key : String) (known xs : List String)
    → (str_mem key known || str_mem key (names_beside known xs))
      ≡ (str_mem key known || str_mem key xs)
unfolding names_beside
str_mem-names_beside key known [] = refl
str_mem-names_beside key known (x ∷ rest) = elim (Bool-cases (str_eq x key)) [
  | inl same ↦
      let equal = (eq_iff x key).0 same in
      ground (arith, same, equal, str_mem-names_beside key known rest)
  | inr apart ↦ ground (arith, apart, str_mem-names_beside key known rest)
]

str_mem-all_names :
    (section name : String) (old new : Fields)
    → str_mem name (all_names section old new)
      ≡ (is_named section name old || is_named section name new)
unfolding all_names
str_mem-all_names section name old new =
    let first = section_names section old in
    let second = section_names section new in
    str_mem-sorted_texts name (first ++ names_beside first second)
    ∙ str_mem-append name first (names_beside first second)
    ∙ str_mem-names_beside name first second
    ∙ ap (λ b. b || str_mem name second) (sym (is_some-get name (fields_of (get section old))))
    ∙ ap (λ b. is_named section name old || b)
        (sym (is_some-get name (fields_of (get section new))))

is_changed-leaf :
    (section name key : String) (old new : Fields)
    → is_changed old new (section ∷ (name ∷ (key ∷ [])))
      ≡ not (exact_value (leaf section name key old) (leaf section name key new))
unfolding is_changed
is_changed-leaf section name key old new =
    ap (λ v. not (exact_value v (pick (object new) (section ∷ (name ∷ (key ∷ []))))))
      (pick-leaf section name key old)
    ∙ ap (λ v. not (exact_value (leaf section name key old) v)) (pick-leaf section name key new)

lookup-changes :
    (section key : String) (old new : Fields) (name : String)
    → lookup name (changes section key old new) ≡ entry_of section key old new name
unfolding changes
lookup-changes section key old new name =
    lookup-map (λ n. is_changed old new (section ∷ (n ∷ (key ∷ [])))) name
      (all_names section old new)
    ∙ ap (λ b. if b then some (is_changed old new (section ∷ (name ∷ (key ∷ [])))) else none)
        (str_mem-all_names section name old new)
    ∙ ap (λ b. if is_named section name old || is_named section name new then some b else none)
        (is_changed-leaf section name key old new)

comparison-IsComparison : (old new : Fields) → IsComparison old new (comparison old new)
unfolding is_changed
comparison-IsComparison old new = record {
  started = refl;
  ended = refl;
  parameters =
      ap (λ v. not (exact_value v (pick (object new) ("ros" ∷ ("parameters_sha256" ∷ [])))))
        (pick-two "ros" "parameters_sha256" old)
      ∙ ap
          (λ v.
            not (
              exact_value (found_or_empty (get "parameters_sha256" (fields_of (get "ros" old)))) v))
          (pick-two "ros" "parameters_sha256" new);
  heads = lookup-changes "repositories" "head" old new;
  configs = lookup-changes "config_files" "sha256" old new;
}

pub compare_snapshots-IsCompared :
    (old : Option Fields) (new : Fields) → IsCompared old new (compare_snapshots old new)
unfolding compare_snapshots
compare_snapshots-IsCompared none new = tt
compare_snapshots-IsCompared (some no_fields) new = inl refl
compare_snapshots-IsCompared (some (field name v rest)) no_fields = inr refl
compare_snapshots-IsCompared (some (field name v rest)) (field name' w rest') = (
  (λ e. ground (arith, e), λ e. ground (arith, e)),
  comparison-IsComparison (field name v rest) (field name' w rest'),
)
