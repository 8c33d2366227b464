-- ===== src/Vio/Candidate/Exact.antt =====
-- Theorems about `evaluate_candidate_provenance`.
use flight_safety.Prelude.{
  All, Bool, List, Option, String, [], all, any, ap, arith, false, inl, inr, is_some, none, not,
  refl, some, sym, true, ◌&&◌, ◌∷◌, ◌≡◌, Option-cases, if◌then◌else◌, ◌∙◌,
}
use flight_safety.Vio.Candidate.Gates.{
  Candidate, effective_paths, exact_if, expected_effective, has_path_in, normalized_runtime,
  allowlists_disjoint, build_exact, evaluate_candidate_provenance, libraries_exact,
  parameters_exact, allowlists_valid, is_filled_mapping, is_mapping, phase_b_exact,
}
use flight_safety.Json.{
  Value, array, boolean, get, integer, null, object, real, str, is_true, Fields,
}
use flight_safety.Vio.Candidate.Trees.{
  tree_has_path, child, deep_merge, has_parts, merge, path_parts,
}
use flight_safety.Vio.Profile.Keys.{fastlivo_libraries}
use flight_safety.Json.Exact.{exact_value}
use flight_safety.Vio.Candidate.Apart.{
  is_apart, value_at, value_at-none, value_at-without_allowlisted_paths,
}
use flight_safety.Vio.Gates.{is_filled}
use flight_safety.Vio.Candidate.Same.{same_if, value_at-same_if}
use flight_safety.Vio.Candidate.Agreement.{AreSame, same_if-AreSame}
use flight_safety.Vio.Candidate.Built.{IsBuilt, libraries_exact-IsBuilt}

-- The merged tree has a value where the path leads.
abbrev pub is_held : Value → List String → Bool
is_held v parts = is_filled parts && is_some (value_at parts (some v))

-- The running parameters have at `parts` what the overlay merged into the base has there, and the
-- merged tree has nothing at an allowed path.
pub record IsExact (c : Candidate) (parts : List String) : Type 0 where
  pub base : Fields
  pub overlay : Fields
  pub base_is : c.base_config ≡ object base
  pub overlay_is : c.overlay_config ≡ object overlay
  pub agrees :
      AreSame
        (value_at parts (some c.runtime_params))
        (value_at parts (some (object (merge base overlay))))
  pub disjoint :
      any (λ path. is_held (object (merge base overlay)) (path_parts path)) (effective_paths c)
      ≡ false

is_mapping-object : (v : Value) → is_mapping v ≡ true → (d : Fields) × (v ≡ object d)
is_mapping-object (object d) h = (d, refl)
is_mapping-object null h = absurd (ground (arith, h))
is_mapping-object (boolean b) h = absurd (ground (arith, h))
is_mapping-object (integer n) h = absurd (ground (arith, h))
is_mapping-object (real x) h = absurd (ground (arith, h))
is_mapping-object (str s) h = absurd (ground (arith, h))
is_mapping-object (array xs) h = absurd (ground (arith, h))

merged_if-mappings :
    (b o v : Value)
    → (if is_mapping b && is_mapping o then some (deep_merge b o) else none) ≡ some v
    → (base : Fields) × (overlay : Fields) × (b ≡ object base)
      × (o ≡ object overlay)
      × (v ≡ object (merge base overlay))
merged_if-mappings b o v h =
    let (base, is) = is_mapping-object b (ground (arith, h)) in
    let (overlay, is') = is_mapping-object o (ground (arith, h)) in
    (base, overlay, is, is', ground (arith, h, is, is'))

has_parts-value_at :
    (v : Value) (parts : List String) → has_parts v parts ≡ is_some (value_at parts (some v))
unfolding has_parts
has_parts-value_at v [] = refl
has_parts-value_at v (part ∷ rest) = elim (Option-cases (child part v)) [
  | inl missing ↦ ground (arith, missing, value_at-none rest)
  | inr (w, there) ↦ ground (arith, there, has_parts-value_at w rest)
]

any-same :
    (f g : String → Bool) → ((s : String) → f s ≡ g s) → (xs : List String) → any f xs ≡ any g xs
any-same f g same [] = refl
any-same f g same (x ∷ xs) = ground (arith, same x, any-same f g same xs)

tree_has_path-is_held :
    (v : Value) (path : String) → is_held v (path_parts path) ≡ tree_has_path v path
unfolding tree_has_path
tree_has_path-is_held v path =
    ap (λ t. is_filled (path_parts path) && t) (sym (has_parts-value_at v (path_parts path)))

-- Where a path is apart from the allowed ones, the comparison of the whole trees decides it.
agrees_lem :
    (c : Candidate) (parts : List String) (v : Value)
    → exact_value (normalized_runtime c) v ≡ true
    → all (λ path. is_apart parts (path_parts path)) (effective_paths c) ≡ true
    → AreSame (value_at parts (some c.runtime_params)) (value_at parts (some v))
agrees_lem c parts v exact apart =
    same_if-AreSame (value_at parts (some c.runtime_params)) (value_at parts (some v)) (
      ap (λ o. same_if o (value_at parts (some v)))
        (sym (value_at-without_allowlisted_paths c.runtime_params (effective_paths c) parts apart))
      ∙ value_at-same_if parts (some (normalized_runtime c)) (some v) exact)

exact_if-IsExact :
    (c : Candidate) (parts : List String) (found : Option Value)
    → expected_effective c ≡ found
    → exact_if (normalized_runtime c) found ≡ true
    → any (has_path_in found) (effective_paths c) ≡ false
    → all (λ path. is_apart parts (path_parts path)) (effective_paths c) ≡ true
    → IsExact c parts
exact_if-IsExact c parts none at h disjoint apart = absurd (ground (arith, h))
exact_if-IsExact c parts (some v) at h disjoint apart =
    let (base, overlay, is, is', merging) =
      merged_if-mappings c.base_config c.overlay_config v at in
    let tree = object (merge base overlay) in
    record {
      base = base;
      overlay = overlay;
      base_is = is;
      overlay_is = is';
      agrees = agrees_lem c parts tree (rw (← merging) h) apart;
      disjoint =
          any-same (λ path. is_held tree (path_parts path)) (tree_has_path tree)
            (tree_has_path-is_held tree) (effective_paths c)
          ∙ rw (← merging) disjoint;
    }

both : (a b : Bool) → (a && b) ≡ true → (a ≡ true) × (b ≡ true)
both a b h = ground arith

not-true : (b : Bool) → not b ≡ true → b ≡ false
not-true b h = ground (arith, h)

fourth-sixth :
    (a b c d e f g : Bool)
    → (a && (b && (c && (d && (e && (f && g)))))) ≡ true
    → (d ≡ true) × (f ≡ true)
fourth-sixth a b c d e f g h = ground (arith, h)

-- The merged parameters have none of the allowed paths.
allowlists_disjoint-any :
    (c : Candidate)
    → allowlists_disjoint c ≡ true
    → any (has_path_in (expected_effective c)) (effective_paths c) ≡ false
unfolding allowlists_disjoint
allowlists_disjoint-any c passes =
    not-true (any (has_path_in (expected_effective c)) (effective_paths c)) (
      (fourth-sixth (allowlists_valid c) (is_some (expected_effective c))
        (is_mapping c.camera_config) (is_mapping c.runtime_params)
        (is_mapping c.runtime_camera_params)
        (not (any (has_path_in (expected_effective c)) (effective_paths c))) _ passes).1)

parameters_exact-IsExact :
    (canonical : Option Value → Option String) (c : Candidate) (parts : List String)
    → parameters_exact canonical c ≡ true
    → all (λ path. is_apart parts (path_parts path)) (effective_paths c) ≡ true
    → IsExact c parts
unfolding parameters_exact
parameters_exact-IsExact canonical c parts passes apart =
    let gates =
      fourth-sixth (is_filled_mapping c.base_config) (is_filled_mapping c.overlay_config)
        (phase_b_exact c) (allowlists_disjoint c)
        (is_true (get "require_exact_effective_params" c.config))
        (exact_if (normalized_runtime c) (expected_effective c)) _ passes in
    exact_if-IsExact c parts (expected_effective c) refl (gates.1)
      (allowlists_disjoint-any c (gates.0)) apart

build_exact-libraries_exact :
    (canonical : Option Value → Option String) (c : Candidate)
    → build_exact canonical c ≡ true
    → libraries_exact c ≡ true
unfolding build_exact
build_exact-libraries_exact canonical c passes = ground (arith, passes)

-- In a candidate that is accepted, the running parameters have at every path that is apart from the
-- allowed ones what the overlay merged into the base has there: nothing, the same scalar, a list that
-- `_exact_value` finds the same, or a mapping too; the merged tree has none of
-- the allowed paths; and each of the estimator's libraries was measured with a well-formed hash that
-- is the one its build's manifest has.
pub evaluate_candidate_provenance-IsExact :
    (canonical : Option Value → Option String) (c : Candidate) (parts : List String)
    → evaluate_candidate_provenance canonical c ≡ true
    → all (λ path. is_apart parts (path_parts path)) (effective_paths c) ≡ true
    → IsExact c parts × All (IsBuilt c) fastlivo_libraries
unfolding evaluate_candidate_provenance
evaluate_candidate_provenance-IsExact canonical c parts passes apart = (
  parameters_exact-IsExact canonical c parts (ground (arith, passes)) apart,
  libraries_exact-IsBuilt c (build_exact-libraries_exact canonical c (ground (arith, passes))),
)
