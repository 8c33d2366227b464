-- ===== src/Vio/Candidate/Same.antt =====
-- Theorems about `_exact_value` at the paths of two trees.
use flight_safety.Json.{
  Fields, Value, field, get, names_of, no_fields, array, boolean, integer, null, object, real, str,
  is_some-get,
}
use flight_safety.Prelude.{
  Bool, Bool-cases, List, Option, Option-cases, String, [], all, ap, arith, false, if◌then◌else◌,
  inl, inr, is_some, none, refl, some, true, ◌∙◌, ◌∷◌, ◌≡◌, sym, ◌&&◌, ◌⊎◌,
}
use flight_safety.Vio.Candidate.Trees.{child}
use flight_safety.Prelude.Text.{eq_iff, str_eq, str_mem}
use flight_safety.Json.Exact.{exact_fields, exact_value, same_names}
use flight_safety.Vio.Candidate.Apart.{value_at}

-- Both are missing, or both are there and the same.
abbrev pub same_if : Option Value → Option Value → Bool
same_if none none = true
same_if (some v) (some w) = exact_value v w
same_if a b = false

conjuncts : (a b : Bool) → (a && b) ≡ true → (a ≡ true) × (b ≡ true)
conjuncts a b h = ground (arith, h)

-- The test on one key, where the other mapping has it.
exact_fields-parts :
    (name : String) (v w : Value) (rest b : Fields)
    → exact_fields (field name v rest) b ≡ true
    → get name b ≡ some w
    → (exact_value v w ≡ true) × (exact_fields rest b ≡ true)
unfolding exact_value
exact_fields-parts name v w rest b h there = conjuncts (exact_value v w) (exact_fields rest b) (
    ap (λ o. elim o [ some u ↦ exact_value v u && exact_fields rest b | none ↦ false ]) (sym there)
    ∙ h)

exact_fields-some :
    (name : String) (v : Value) (rest b : Fields)
    → exact_fields (field name v rest) b ≡ true
    → get name b ≡ none
    → ⊥
unfolding exact_value
exact_fields-some name v rest b h missing = ground (arith, h, missing)

exact_fields-same_if :
    (key : String) (a b : Fields)
    → exact_fields a b ≡ true
    → str_mem key (names_of a) ≡ true
    → same_if (get key a) (get key b) ≡ true
unfolding get
exact_fields-same_if key no_fields b h listed = absurd (ground (arith, listed))
exact_fields-same_if key (field name v rest) b h listed = elim (Option-cases (get name b)) [
  | inl missing ↦ absurd (exact_fields-some name v rest b h missing)
  | inr (w, there) ↦
      let parts = exact_fields-parts name v w rest b h there in
      elim (Bool-cases (str_eq name key)) [
        | inl same ↦
            let equal = (eq_iff name key).0 same in
            let here : get key b ≡ some w = rw (← equal) there in
            ap (λ o. same_if (if str_eq name key then some v else get key rest) o) here
            ∙ ap (λ t. same_if (if t then some v else get key rest) (some w)) same
            ∙ parts.0
        | inr differ ↦
            ap (λ t. same_if (if t then some v else get key rest) (get key b)) differ
            ∙ exact_fields-same_if key rest b (parts.1) (ground (arith, listed, differ))
      ]
]

all_text :
    (test : String → Bool) (xs : List String) (key : String)
    → all test xs ≡ true
    → str_mem key xs ≡ true
    → test key ≡ true
all_text test [] key h listed = absurd (ground (arith, listed))
all_text test (x ∷ rest) key h listed = elim (Bool-cases (str_eq x key)) [
  | inl same ↦ rw (← (eq_iff x key).0 same) (ground (arith, h))
  | inr apart ↦ all_text test rest key (ground (arith, h)) (ground (arith, listed, apart))
]

both-none : (o p : Option Value) → is_some o ≡ false → is_some p ≡ false → same_if o p ≡ true
both-none none none a b = refl
both-none none (some w) a b = absurd (ground (arith, b))
both-none (some v) p a b = absurd (ground (arith, a))

-- Each key of two mappings that are the same.
get-same_if :
    (key : String) (a b : Fields)
    → same_names a b ≡ true
    → exact_fields a b ≡ true
    → same_if (get key a) (get key b) ≡ true
get-same_if key a b names h = elim (Bool-cases (str_mem key (names_of a))) [
  | inl listed ↦ exact_fields-same_if key a b h listed
  | inr absent ↦ elim (Bool-cases (str_mem key (names_of b))) [
    | inl there ↦ absurd (
        let known =
          all_text (λ name. str_mem name (names_of a)) (names_of b) key (ground (arith, names))
            there in
        ground (arith, known, absent))
    | inr missing ↦
        both-none (get key a) (get key b) (is_some-get key a ∙ absent) (is_some-get key b ∙ missing)
  ]
]

-- A value is a mapping, or has no children.
mapping_or_childless :
    (v : Value) → ((d : Fields) × (v ≡ object d)) ⊎ ((part : String) → child part v ≡ none)
mapping_or_childless (object d) = inl (d, refl)
mapping_or_childless null = inr (λ part. refl)
mapping_or_childless (boolean b) = inr (λ part. refl)
mapping_or_childless (integer n) = inr (λ part. refl)
mapping_or_childless (real x) = inr (λ part. refl)
mapping_or_childless (str s) = inr (λ part. refl)
mapping_or_childless (array xs) = inr (λ part. refl)

-- A value that is the same as a mapping is a mapping, whichever side it stands on.
pub right-mapping :
    (a : Fields) (w : Value)
    → exact_value (object a) w ≡ true
    → (b : Fields) × (w ≡ object b) × (same_names a b ≡ true) × (exact_fields a b ≡ true)
unfolding exact_value
right-mapping a (object b) h =
    let parts = conjuncts (same_names a b) (exact_fields a b) h in (b, refl, parts.0, parts.1)
right-mapping a null h = absurd (ground (arith, h))
right-mapping a (boolean b) h = absurd (ground (arith, h))
right-mapping a (integer n) h = absurd (ground (arith, h))
right-mapping a (real x) h = absurd (ground (arith, h))
right-mapping a (str s) h = absurd (ground (arith, h))
right-mapping a (array xs) h = absurd (ground (arith, h))

left-mapping :
    (v : Value) (b : Fields) → exact_value v (object b) ≡ true → (a : Fields) × (v ≡ object a)
unfolding exact_value
left-mapping (object a) b h = (a, refl)
left-mapping null b h = absurd (ground (arith, h))
left-mapping (boolean c) b h = absurd (ground (arith, h))
left-mapping (integer n) b h = absurd (ground (arith, h))
left-mapping (real x) b h = absurd (ground (arith, h))
left-mapping (str s) b h = absurd (ground (arith, h))
left-mapping (array xs) b h = absurd (ground (arith, h))

mapping-same_if :
    (part : String) (a : Fields) (w : Value)
    → exact_value (object a) w ≡ true
    → same_if (get part a) (child part w) ≡ true
mapping-same_if part a w h =
    let (b, is, names, fields) = right-mapping a w h in
    ap (λ u. same_if (get part a) (child part u)) is ∙ get-same_if part a b names fields

child-same_if :
    (part : String) (v w : Value)
    → exact_value v w ≡ true
    → same_if (child part v) (child part w) ≡ true
child-same_if part v w h = elim (mapping_or_childless v) [
  | inl (a, is) ↦
      ap (λ u. same_if (child part u) (child part w)) is
      ∙ mapping-same_if part a w (ap (λ u. exact_value u w) (sym is) ∙ h)
  | inr childless ↦ elim (mapping_or_childless w) [
    | inl (b, is) ↦
        let (a, mapping) = left-mapping v b (ap (exact_value v) (sym is) ∙ h) in
        ap (λ u. same_if (child part u) (child part w)) mapping
        ∙ mapping-same_if part a w (ap (λ u. exact_value u w) (sym mapping) ∙ h)
    | inr barren ↦ rw (childless part, barren part) refl
  ]
]

pub value_at-same_if :
    (parts : List String) (o p : Option Value)
    → same_if o p ≡ true
    → same_if (value_at parts o) (value_at parts p) ≡ true
value_at-same_if [] none none h = refl
value_at-same_if (part ∷ rest) none none h = refl
value_at-same_if parts none (some w) h = absurd (ground (arith, h))
value_at-same_if parts (some v) none h = absurd (ground (arith, h))
value_at-same_if [] (some v) (some w) h = h
value_at-same_if (part ∷ rest) (some v) (some w) h =
    value_at-same_if rest (child part v) (child part w) (child-same_if part v w h)
