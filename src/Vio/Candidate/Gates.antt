-- ===== src/Vio/Candidate/Gates.antt =====
-- The gates of `evaluate_candidate_provenance`. A section that is there and is no mapping raises in
-- the code, and fails the gate here.
use flight_safety.Prelude.{
  Bool, List, Option, String, [], all, any, false, if◌then◌else◌, is_some, none, not, some, true, ℕ,
  ◌&&◌, ◌∷◌,
}
use flight_safety.Json.{
  Fields, Value, array, field, fields_of, get, has_keys, is_false, is_object, is_text, is_true,
  no_fields, no_items, number_of, object, str, unit_of, null,
}
use flight_safety.Vio.Candidate.Trees.{deep_merge, tree_has_path, without_allowlisted_paths}
use flight_safety.Vio.Profile.Keys.{fastlivo_libraries}
use flight_safety.Vio.Gates.{is_filled}
use flight_safety.Prelude.Text.{lookup, str_mem}
use flight_safety.Prelude.Int.{pos, ℤ, ◌*ℤ◌}
use flight_safety.Vio.Hybrid.Ready.{same_text}
use flight_safety.Vio.Profile.Checks.{texts_of, valid_allowlist}
use flight_safety.Vio.Texts.{valid_sha256}
use flight_safety.Vio.Hybrid.Domain.{eq_ℤ}
use flight_safety.Json.Exact.{exact_value}

-- What is evaluated: the section of the profile, the parameter trees, the build's manifest, and the
-- hashes that were measured.
pub record Candidate : Type 0 where
  pub config : Fields
  pub base_config : Value
  pub overlay_config : Value
  pub runtime_params : Value
  pub camera_config : Value
  pub runtime_camera_params : Value
  pub build_manifest : Value
  pub executable_sha256 : Option String
  pub library_sha256 : List (String × String)
  pub source_file_sha256 : List (String × String)

abbrev pub is_mapping : Value → Bool
is_mapping v = is_object (some v)

abbrev pub is_filled_mapping : Value → Bool
is_filled_mapping (object no_fields) = false
is_filled_mapping (object (field name v rest)) = true
is_filled_mapping v = false

abbrev pub build_of : Candidate → Fields
build_of c = fields_of (some c.build_manifest)

-- The merged parameters, where both trees are mappings.
abbrev pub expected_effective : Candidate → Option Value
expected_effective c =
    if is_mapping c.base_config && is_mapping c.overlay_config
    then some (deep_merge c.base_config c.overlay_config)
    else none

-- An allowlist's paths; none for what is no valid one.
abbrev pub paths_if : Bool → Option (List String) → List String
paths_if true (some paths) = paths
paths_if valid paths = []

abbrev pub or_empty_list : Option Value → Option Value
or_empty_list none = some (array no_items)
or_empty_list (some v) = some v

abbrev pub effective_allowlist : Candidate → Option Value
effective_allowlist c = or_empty_list (get "effective_param_ephemeral_allowlist" c.config)

abbrev pub camera_allowlist : Candidate → Option Value
camera_allowlist c = or_empty_list (get "private_camera_param_ephemeral_allowlist" c.config)

unfoldable pub allowlists_valid : Candidate → Bool
allowlists_valid c = valid_allowlist (effective_allowlist c) && valid_allowlist (camera_allowlist c)

abbrev pub effective_paths : Candidate → List String
effective_paths c = paths_if (allowlists_valid c) (texts_of (effective_allowlist c))

abbrev pub camera_paths : Candidate → List String
camera_paths c = paths_if (allowlists_valid c) (texts_of (camera_allowlist c))

abbrev pub has_path_in : Option Value → String → Bool
has_path_in none path = false
has_path_in (some v) path = tree_has_path v path

unfoldable pub allowlists_disjoint : Candidate → Bool
allowlists_disjoint c =
    allowlists_valid c
    && (is_some (expected_effective c)
        && (is_mapping c.camera_config
            && (is_mapping c.runtime_params
                && (is_mapping c.runtime_camera_params
                    && (not (any (has_path_in (expected_effective c)) (effective_paths c))
                        && (not (any (tree_has_path c.camera_config) (camera_paths c))
                            && (all (tree_has_path c.runtime_params) (effective_paths c)
                                && all (tree_has_path c.runtime_camera_params)
                                    (camera_paths c))))))))

-- A tree that is no mapping stays as it is; without valid lists there are no paths.
abbrev pub normalized : Value → List String → Value
normalized v paths = without_allowlisted_paths v paths

abbrev pub normalized_runtime : Candidate → Value
normalized_runtime c = normalized c.runtime_params (effective_paths c)

abbrev pub normalized_camera : Candidate → Value
normalized_camera c = normalized c.runtime_camera_params (camera_paths c)

abbrev pub exact_if : Value → Option Value → Bool
exact_if v none = false
exact_if v (some w) = exact_value v w

abbrev pub section_of : String → Value → Fields
section_of name v = fields_of (get name (fields_of (some v)))

abbrev pub is_same_number : Option ℤ → ℤ → Bool
is_same_number none n = false
is_same_number (some m) n = eq_ℤ m n

-- `value == n`, for an integer or a real number.
abbrev pub is_number : ℕ → Option Value → Bool
is_number n v = is_same_number (number_of v) (pos n *ℤ unit_of)

unfoldable pub phase_b_exact : Candidate → Bool
phase_b_exact c =
    is_mapping c.overlay_config
    && (is_false (get "online_intrinsics_en" (section_of "common" c.overlay_config))
        && (is_number 10 (get "acc_cov" (section_of "imu" c.overlay_config))
            && (is_number 1000 (get "img_point_cov" (section_of "vio" c.overlay_config))
                && (is_number 600 (get "outlier_threshold" (section_of "vio" c.overlay_config))
                    && is_false (get "imu_rate_odom" (section_of "uav" c.overlay_config))))))

abbrev pub as_hash : Option Value → Option String
as_hash (some (str s)) = some s
as_hash _ = none

abbrev pub is_valid_hash : Option String → Bool
is_valid_hash none = false
is_valid_hash (some s) = valid_sha256 s

-- A hash that is one, and the same as another.
abbrev pub is_hash : Option String → Option String → Bool
is_hash (some a) expected = valid_sha256 a && same_text (some a) expected
is_hash none expected = false

-- The keys of the measured hashes are the given names.
abbrev pub has_names : List String → List (String × String) → Bool
has_names names d =
    all (λ name. is_some (lookup name d)) names && all (λ entry. str_mem entry.0 names) d

abbrev pub libraries_of : Candidate → Fields
libraries_of c = fields_of (get "dynamic_libraries" (build_of c))

unfoldable pub libraries_exact : Candidate → Bool
libraries_exact c =
    is_object (get "dynamic_libraries" (build_of c))
    && (has_keys fastlivo_libraries (get "dynamic_libraries" (build_of c))
        && (has_names fastlivo_libraries c.library_sha256
            && all (λ entry. is_hash (some entry.1) (as_hash (get entry.0 (libraries_of c))))
                c.library_sha256))

-- The build's sources that are mappings, with their hashes.
abbrev pub add_source :
    String → Value → List (String × Option String) → List (String × Option String)
add_source path (object d) rest = (path, as_hash (get "sha256" d)) ∷ rest
add_source path v rest = rest

abbrev pub sources_of : Fields → List (String × Option String)
sources_of no_fields = []
sources_of (field path v rest) = add_source path v (sources_of rest)

abbrev pub build_sources : Candidate → List (String × Option String)
build_sources c =
    sources_of (fields_of (get "files" (fields_of (get "source_tree_identity" (build_of c)))))

abbrev pub flat_hash : Option (Option String) → Option String
flat_hash none = none
flat_hash (some found) = found

unfoldable pub sources_exact : Candidate → Bool
sources_exact c =
    is_filled (build_sources c)
    && (all (λ entry. is_some (lookup entry.0 c.source_file_sha256)) (build_sources c)
        && (all (λ entry. is_some (lookup entry.0 (build_sources c))) c.source_file_sha256
            && all (λ entry. is_hash (some entry.1) (flat_hash (lookup entry.0 (build_sources c))))
                c.source_file_sha256))

unfoldable pub source_tree_consistent : Candidate → Bool
source_tree_consistent c =
    is_hash (as_hash (get "source_tree_sha256" (build_of c)))
      (as_hash (get "tree_sha256" (fields_of (get "source_tree_identity" (build_of c)))))
    && is_valid_hash (as_hash (get "identity_sha256" (build_of c)))

-- What `get` gives, where a missing key gives None.
abbrev pub or_null : Option Value → Value
or_null none = null
or_null (some v) = v

-- `a == b` on what `get` gives. Numbers of two types are different here, while the code has 1 equal
-- to 1.0 and to True; both sides are texts in practice.
abbrev pub is_same : Option Value → Option Value → Bool
is_same a b = exact_value (or_null a) (or_null b)

-- The status is PASS; `canonical` is `canonical_value_sha256`, `none` where it fails.
module _ (canonical : Option Value → Option String) where
  unfoldable pub parameters_exact : Candidate → Bool
  parameters_exact c =
      is_filled_mapping c.base_config
      && (is_filled_mapping c.overlay_config
          && (phase_b_exact c
              && (allowlists_disjoint c
                  && (is_true (get "require_exact_effective_params" c.config)
                      && (exact_if (normalized_runtime c) (expected_effective c)
                          && is_hash (canonical (expected_effective c))
                              (canonical (some (normalized_runtime c))))))))

  unfoldable pub camera_exact : Candidate → Bool
  camera_exact c =
      is_text "/laserMapping" (get "runtime_camera_param_namespace" c.config)
      && (is_filled_mapping c.camera_config
          && (exact_value (normalized_camera c) c.camera_config
              && is_hash (canonical (some c.camera_config))
                  (canonical (some (normalized_camera c)))))

  unfoldable pub build_exact : Candidate → Bool
  build_exact c =
      is_same (get "schema" (build_of c)) (get "required_build_manifest_schema" c.config)
      && (is_true (get "derived_from_actual_isolated_devel_and_source" (build_of c))
          && (source_tree_consistent c
              && (is_hash c.executable_sha256 (as_hash (get "executable_sha256" (build_of c)))
                  && (libraries_exact c && sources_exact c))))

  unfoldable pub evaluate_candidate_provenance : Candidate → Bool
  evaluate_candidate_provenance c = parameters_exact c && (camera_exact c && build_exact c)
