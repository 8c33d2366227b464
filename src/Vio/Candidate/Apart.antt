-- ===== src/Vio/Candidate/Apart.antt =====
-- Values at the paths of a tree, and theorems about `_without_allowlisted_paths` and `_exact_value`
-- at such a path.
use flight_safety.Json.{
  Fields, Value, array, boolean, delete, field, get, integer, no_fields, null, object, real, str,
}
use flight_safety.Prelude.{
  Bool, Bool-cases, List, Option, Option-cases, String, [], all, ap, arith, false, if◌then◌else◌,
  inl, inr, none, not, refl, some, true, ◌||◌, ◌∙◌, ◌∷◌, ◌≡◌, sym,
}
use flight_safety.Vio.Candidate.Trees.{
  child, delete_child, path_parts, put_child, without_allowlisted_paths, without_parts,
}
use flight_safety.Prelude.Text.{eq_iff, eq_refl, str_eq}
use flight_safety.Vio.Candidate.Merged.{get-put}

-- The value that stands where the parts lead.
abbrev pub value_at : List String → Option Value → Option Value
value_at parts none = none
value_at [] (some v) = some v
value_at (part ∷ rest) (some v) = value_at rest (child part v)

-- Neither of the two leads through the other.
abbrev pub is_apart : List String → List String → Bool
is_apart [] ps = false
is_apart (q ∷ qs) [] = false
is_apart (q ∷ qs) (p ∷ ps) = not (str_eq q p) || is_apart qs ps

pub value_at-none : (parts : List String) → value_at parts none ≡ none
value_at-none [] = refl
value_at-none (p ∷ ps) = refl

get-delete_other :
    (gone key : String) (d : Fields) → str_eq gone key ≡ false → get key (delete gone d) ≡ get key d
unfolding get delete
get-delete_other gone key no_fields apart = refl
get-delete_other gone key (field name v rest) apart =
    ground (arith, apart, get-delete_other gone key rest apart, eq_iff name gone, eq_iff name key)

child-delete_child :
    (gone part : String) (v : Value)
    → str_eq gone part ≡ false
    → child part (delete_child gone v) ≡ child part v
child-delete_child gone part (object d) apart = get-delete_other gone part d apart
child-delete_child gone part null apart = refl
child-delete_child gone part (boolean b) apart = refl
child-delete_child gone part (integer n) apart = refl
child-delete_child gone part (real x) apart = refl
child-delete_child gone part (str s) apart = refl
child-delete_child gone part (array xs) apart = refl

-- Writing the child of a mapping: that child changes, and no other.
child-put_child :
    (written part : String) (v w old : Value)
    → child written v ≡ some old
    → child part (put_child written v w) ≡ (if str_eq written part then some w else child part v)
child-put_child written part (object d) w old there = get-put written part w d
child-put_child written part null w old there = absurd (ground (arith, there))
child-put_child written part (boolean b) w old there = absurd (ground (arith, there))
child-put_child written part (integer n) w old there = absurd (ground (arith, there))
child-put_child written part (real x) w old there = absurd (ground (arith, there))
child-put_child written part (str s) w old there = absurd (ground (arith, there))
child-put_child written part (array xs) w old there = absurd (ground (arith, there))

str_eq-swap : (a b : String) → str_eq a b ≡ false → str_eq b a ≡ false
str_eq-swap a b apart = ground (arith, apart, eq_iff a b, eq_iff b a)

without_parts-missing :
    (v : Value) (p next : String) (ps : List String)
    → child p v ≡ none
    → without_parts v (p ∷ next ∷ ps) ≡ v
unfolding without_parts
without_parts-missing v p next ps missing = ground (arith, missing)

without_parts-there :
    (v w : Value) (p next : String) (ps : List String)
    → child p v ≡ some w
    → without_parts v (p ∷ next ∷ ps) ≡ put_child p v (without_parts w (next ∷ ps))
unfolding without_parts
without_parts-there v w p next ps there = ground (arith, there)

-- Deleting one path leaves every value that is apart from it.
pub value_at-without_parts :
    (v : Value) (ps qs : List String)
    → is_apart qs ps ≡ true
    → value_at qs (some (without_parts v ps)) ≡ value_at qs (some v)
unfolding without_parts
value_at-without_parts v [] [] apart = absurd (ground (arith, apart))
value_at-without_parts v (p ∷ ps) [] apart = absurd (ground (arith, apart))
value_at-without_parts v [] (q ∷ qs) apart = absurd (ground (arith, apart))
value_at-without_parts v (p ∷ []) (q ∷ qs) apart =
    let differ : str_eq q p ≡ false = last_part q p qs apart in
    ap (value_at qs) (child-delete_child p q v (str_eq-swap q p differ))
  where
    last_part :
        (q p : String) (qs : List String) → is_apart (q ∷ qs) (p ∷ []) ≡ true → str_eq q p ≡ false
    last_part q p [] h = ground (arith, h)
    last_part q p (r ∷ qs) h = ground (arith, h)
value_at-without_parts v (p ∷ next ∷ ps) (q ∷ qs) apart = elim (Option-cases (child p v)) [
  | inl missing ↦ ap (λ t. value_at (q ∷ qs) (some t)) (without_parts-missing v p next ps missing)
  | inr (w, there) ↦
      let deeper = without_parts w (next ∷ ps) in
      ap (λ t. value_at (q ∷ qs) (some t)) (without_parts-there v w p next ps there)
      ∙ ap (value_at qs) (child-put_child p q v deeper w there)
      ∙ elim (Bool-cases (str_eq p q)) [
        | inl same ↦
            let equal = (eq_iff p q).0 same in
            let here : child q v ≡ some w = rw (← equal) there in
            let below : is_apart qs (next ∷ ps) ≡ true =
              ground (arith, apart, same, equal, eq_refl q) in
            ap (λ b. value_at qs (if b then some deeper else child q v)) same
            ∙ value_at-without_parts w (next ∷ ps) qs below
            ∙ ap (value_at qs) (sym here)
        | inr differ ↦ ap (λ b. value_at qs (if b then some deeper else child q v)) differ
      ]
]

pub value_at-without_allowlisted_paths :
    (v : Value) (paths qs : List String)
    → all (λ path. is_apart qs (path_parts path)) paths ≡ true
    → value_at qs (some (without_allowlisted_paths v paths)) ≡ value_at qs (some v)
unfolding without_allowlisted_paths
value_at-without_allowlisted_paths v [] qs apart = refl
value_at-without_allowlisted_paths v (path ∷ rest) qs apart =
    value_at-without_allowlisted_paths (without_parts v (path_parts path)) rest qs
      (ground (arith, apart))
    ∙ value_at-without_parts v (path_parts path) qs (ground (arith, apart))
