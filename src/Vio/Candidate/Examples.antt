-- ===== src/Vio/Candidate/Examples.antt =====
-- A candidate that is accepted, and changes of it that are not.
use flight_safety.Vio.Candidate.Exact
use flight_safety.Vio.Candidate.Built
use flight_safety.Vio.Candidate.Merged
use flight_safety.Vio.Candidate.Gates.{
  Candidate, allowlists_disjoint, allowlists_valid, build_exact, camera_exact,
  evaluate_candidate_provenance, libraries_exact, parameters_exact, phase_b_exact,
  source_tree_consistent, sources_exact,
}
use flight_safety.Prelude.{All, Option, String, [], false, refl, some, true, ◌∷◌, ◌≡◌}
use flight_safety.Json.{
  Fields, Value, array, boolean, delete, field, get, has_keys, integer, is_distinct_texts, item,
  names_of, no_fields, no_items, number_of, object, put, real, str,
}
use flight_safety.Vio.Hybrid.Ready.{all_some}
use flight_safety.Vio.Candidate.Trees.{
  has_parts, merge, path_parts, split, tree_has_path, without_allowlisted_paths, without_parts,
}
use flight_safety.Vio.Profile.Keys.{fastlivo_libraries}
use flight_safety.Prelude.Float.{fin}
use flight_safety.Prelude.Text.{lookup}
use flight_safety.Prelude.Int.{pos, ◌*ℤ◌}
use flight_safety.Vio.Texts.{starts_with, is_hex_of}
use flight_safety.Vio.Profile.Checks.{texts_of, valid_allowlist, contains}
use flight_safety.Json.Exact.{exact_value}

abbrev digest : String
digest = "0123456789abcdef0123456789abcdef0123456789abcdef0123456789abcdef"

-- Stands for the canonical hash.
abbrev fixed_hash : Option Value → Option String
fixed_hash v = some digest

abbrev base_tree : Fields
base_tree =
    field "common"
      (object
        (field "online_intrinsics_en" (boolean true) (field "rate" (integer (pos 5)) (no_fields))))
      (field "mode" (str "a") (no_fields))

abbrev overlay_tree : Fields
overlay_tree = field "common" (object (field "online_intrinsics_en" (boolean false) (no_fields))) (
    field "imu" (object (field "acc_cov" (real (fin (pos 10000000000000))) (no_fields))) (
      field "vio"
        (object (
          field "img_point_cov" (real (fin (pos 1000000000000000)))
            (field "outlier_threshold" (real (fin (pos 600000000000000))) (no_fields))))
        (field "uav" (object (field "imu_rate_odom" (boolean false) (no_fields))) (no_fields))))

-- What the estimator runs with: the merged tree and one path that is allowed.
abbrev running_tree : Fields
running_tree = field "run_id" (str "7") (
    field "uav" (object (field "imu_rate_odom" (boolean false) (no_fields))) (
      field "common"
        (object (
          field "online_intrinsics_en" (boolean false)
            (field "rate" (integer (pos 5)) (no_fields))))
        (field "mode" (str "a") (
          field "imu" (object (field "acc_cov" (real (fin (pos 10000000000000))) (no_fields))) (
            field "vio"
              (object (
                field "img_point_cov" (real (fin (pos 1000000000000000)))
                  (field "outlier_threshold" (real (fin (pos 600000000000000))) (no_fields))))
              (no_fields))))))

abbrev camera_tree : Fields
camera_tree = field "fx" (integer (pos 600)) (no_fields)

abbrev libraries : Fields
libraries = field "libimu_proc.so" (str digest) (
    field "liblaser_mapping.so" (str digest) (
      field "liblio.so" (str digest)
        (field "libpre.so" (str digest) (field "libvio.so" (str digest) (no_fields)))))

abbrev build : Fields
build = field "schema" (str "v1") (
    field "derived_from_actual_isolated_devel_and_source" (boolean true) (
      field "source_tree_sha256" (str digest) (
        field "source_tree_identity"
          (object (
            field "tree_sha256" (str digest) (
              field "files"
                (object (
                  field "src/main.cpp" (object (field "sha256" (str digest) (no_fields)))
                    (no_fields)))
                (no_fields))))
          (field "identity_sha256" (str digest) (
            field "executable_sha256" (str digest)
              (field "dynamic_libraries" (object libraries) (no_fields)))))))

abbrev config : Fields
config = field "effective_param_ephemeral_allowlist" (array (item (str "/run_id") (no_items))) (
    field "require_exact_effective_params" (boolean true) (
      field "runtime_camera_param_namespace" (str "/laserMapping")
        (field "required_build_manifest_schema" (str "v1") (no_fields))))

abbrev candidate : Candidate
candidate = record {
  config = config;
  base_config = object base_tree;
  overlay_config = object overlay_tree;
  runtime_params = object running_tree;
  camera_config = object camera_tree;
  runtime_camera_params = object camera_tree;
  build_manifest = object build;
  executable_sha256 = some digest;
  library_sha256 =
      ("libimu_proc.so", digest)
      ∷ (("liblaser_mapping.so", digest)
          ∷ (("liblio.so", digest) ∷ (("libpre.so", digest) ∷ (("libvio.so", digest) ∷ ([])))));
  source_file_sha256 = ("src/main.cpp", digest) ∷ [];
}

accepted : evaluate_candidate_provenance fixed_hash candidate ≡ true
unfolding evaluate_candidate_provenance parameters_exact camera_exact build_exact libraries_exact
    sources_exact source_tree_consistent phase_b_exact allowlists_disjoint allowlists_valid
    valid_allowlist texts_of all_some get put delete has_keys number_of ◌*ℤ◌ lookup merge
    exact_value without_allowlisted_paths without_parts path_parts split tree_has_path has_parts
    contains is_hex_of starts_with
accepted = refl

evaluate_candidate_provenance-IsExact_example :
    Exact.IsExact candidate ("vio" ∷ ("outlier_threshold" ∷ []))
    × All (Built.IsBuilt candidate) fastlivo_libraries
unfolding allowlists_valid valid_allowlist texts_of all_some get path_parts split contains
    starts_with
evaluate_candidate_provenance-IsExact_example =
    Exact.evaluate_candidate_provenance-IsExact fixed_hash candidate
      ("vio" ∷ ("outlier_threshold" ∷ [])) accepted refl

overlay_distinct : is_distinct_texts (names_of overlay_tree) ≡ true
overlay_distinct = refl

get-merge_example :
    get "common" (merge base_tree overlay_tree)
    ≡ Merged.merged (get "common" base_tree) (get "common" overlay_tree)
get-merge_example = Merged.get-merge "common" overlay_tree base_tree overlay_distinct

-- A parameter that runs with another value.
changed_parameter_refused :
    evaluate_candidate_provenance fixed_hash
      (record candidate { runtime_params = object (put "mode" (str "b") running_tree) })
    ≡ false
unfolding evaluate_candidate_provenance parameters_exact phase_b_exact allowlists_disjoint
    allowlists_valid valid_allowlist texts_of all_some get put delete number_of ◌*ℤ◌ merge
    exact_value without_allowlisted_paths without_parts path_parts split tree_has_path has_parts
    contains starts_with
changed_parameter_refused = refl
