-- ===== src/Vio/Candidate/Merged.antt =====
-- Theorems about `_deep_merge`.
use flight_safety.Prelude.{
  Bool-cases, Option, String, arith, false, if◌then◌else◌, inl, inr, none, refl, some, true, ◌≡◌,
  ap, ◌∙◌, List, ◌∷◌, sym,
}
use flight_safety.Json.{
  Fields, Value, field, get, is_distinct_texts, names_of, no_fields, put, array, boolean, integer,
  null, object, real, str,
}
use flight_safety.Prelude.Text.{eq_iff, str_eq, str_mem}
use flight_safety.Vio.Candidate.Trees.{merge, merge_value}

pub get-put :
    (written key : String) (v : Value) (d : Fields)
    → get key (put written v d) ≡ (if str_eq written key then some v else get key d)
unfolding get put
get-put written key v no_fields = refl
get-put written key v (field name w rest) =
    ground
      (arith, get-put written key v rest, eq_iff written key, eq_iff name written, eq_iff name key)

-- What a key holds after merging: two mappings are merged in turn, and otherwise the overlay's value
-- stands, if it has one.
abbrev pub merged : Option Value → Option Value → Option Value
merged (some (object b)) (some (object d)) = some (object (merge b d))
merged old none = old
merged old (some v) = some v

merged-none : (old : Option Value) → merged old none ≡ old
merged-none none = refl
merged-none (some null) = refl
merged-none (some (boolean b)) = refl
merged-none (some (integer n)) = refl
merged-none (some (real x)) = refl
merged-none (some (str s)) = refl
merged-none (some (array xs)) = refl
merged-none (some (object d)) = refl

merged-merge_value :
    (old : Option Value) (v : Value) → merged old (some v) ≡ some (merge_value old v)
unfolding merge_value
merged-merge_value none v = refl
merged-merge_value (some null) v = refl
merged-merge_value (some (boolean b)) v = refl
merged-merge_value (some (integer n)) v = refl
merged-merge_value (some (real x)) v = refl
merged-merge_value (some (str s)) v = refl
merged-merge_value (some (array xs)) v = refl
merged-merge_value (some (object b)) null = refl
merged-merge_value (some (object b)) (boolean c) = refl
merged-merge_value (some (object b)) (integer n) = refl
merged-merge_value (some (object b)) (real x) = refl
merged-merge_value (some (object b)) (str s) = refl
merged-merge_value (some (object b)) (array xs) = refl
merged-merge_value (some (object b)) (object d) = refl

absent : (key : String) (d : Fields) → str_mem key (names_of d) ≡ false → get key d ≡ none
unfolding get
absent key no_fields h = refl
absent key (field name v rest) h = ground (arith, h, absent key rest)

distinct-parts :
    (name : String) (xs : List String)
    → is_distinct_texts (name ∷ xs) ≡ true
    → (str_mem name xs ≡ false) × (is_distinct_texts xs ≡ true)
distinct-parts name xs h = ground (arith, h)

-- After merging an overlay with distinct keys, each key holds what the base and the overlay say of
-- it: the two mappings merged if both have one there, the base's value if the overlay has none, and
-- the overlay's otherwise.
pub get-merge :
    (key : String) (overlay base : Fields)
    → is_distinct_texts (names_of overlay) ≡ true
    → get key (merge base overlay) ≡ merged (get key base) (get key overlay)
unfolding merge get
get-merge key no_fields base distinct = sym (merged-none (get key base))
get-merge key (field name v rest) base distinct =
    let parts = distinct-parts name (names_of rest) distinct in
    let w = merge_value (get name base) v in
    let later = get-merge key rest (put name w base) (parts.1) in
    elim (Bool-cases (str_eq name key)) [
      | inl same ↦
          let equal = (eq_iff name key).0 same in
          let gone : get key rest ≡ none = absent key rest (rw (← equal) parts.0) in
          later
          ∙ ap (λ o. merged (get key (put name w base)) o) gone
          ∙ merged-none (get key (put name w base))
          ∙ get-put name key w base
          ∙ rw (same, equal) (sym (merged-merge_value (get key base) v))
      | inr apart ↦
          later ∙ ap (λ o. merged o (get key rest)) (get-put name key w base) ∙ rw apart refl
    ]
