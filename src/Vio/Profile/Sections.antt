-- ===== src/Vio/Profile/Sections.antt =====
-- The checks of the other sections.
use flight_safety.Prelude.{
  Bool, List, Option, String, [], all, false, if◌then◌else◌, map, none, not, some, ◌&&◌, ◌++◌, ◌||◌,
  ◌∷◌,
}
use flight_safety.Vio.Profile.Checks.{
  Check, are_names, check, exact_keys, for_keys, is_absolute_text, is_empty_or_absolute, texts_of,
  valid_allowlist,
}
use flight_safety.Json.{
  Fields, Value, fields_of, get, is_boolean, is_filled_str, is_finite_positive, is_int_from, is_str,
  is_text, is_true, str, values_of,
}
use flight_safety.Vio.Profile.Streams.{as_text, stream_name, streams_of}
use flight_safety.Vio.Profile.Keys.{
  domain_required_source_roles, evidence_keys, evidence_manifest_path_keys, evidence_source_keys,
  fastlivo_libraries, hybrid_imu_keys, identity_keys, linkage_keys, provenance_keys,
}
use flight_safety.Prelude.Text.{str_eq, str_mem}

abbrev pub section : String → Fields → Fields
section name d = fields_of (get name d)

unfoldable pub identity_checks : Fields → List Check
unfolding for_keys
identity_checks d =
    let v = section "identity" d in
    (exact_keys (get "identity" d) identity_keys "identity"
      ∷ (check (is_empty_or_absolute (get "status_topic" v))
            "identity status_topic must be empty or absolute"
          ∷ (check (is_text "diagnostic_msgs/DiagnosticArray" (get "status_message_type" v))
                "identity join must use diagnostic_msgs/DiagnosticArray"
              ∷ [])))
    ++ (for_keys is_filled_str " must be explicit" v ("status_name" ∷ ("status_schema" ∷ []))
        ++ (check (is_int_from 2 (get "min_samples" v)) "identity min_samples must be at least two"
            ∷ for_keys is_finite_positive " must be finite and positive" v
                ("max_idle_s" ∷ ("max_abs_header_latency_s" ∷ []))))

-- A stream's name.
abbrev pub is_named : List String → Option Value → Bool
is_named names (some (str s)) = str_mem s names
is_named names _ = false

abbrev pub stream_names : Fields → List String
stream_names d = map stream_name (streams_of d)

unfoldable pub linkage_checks : Fields → List Check
unfolding for_keys
linkage_checks d =
    let v = section "linkage" d in
    (exact_keys (get "linkage" d) linkage_keys "linkage"
      ∷ (check
            (is_named (stream_names d) (get "correction_stream" v)
              && is_named (stream_names d) (get "propagated_stream" v))
            "linkage stream names must reference configured streams"
          ∷ (check
                (not (
                  str_eq (as_text (get "correction_stream" v))
                    (as_text (get "propagated_stream" v))))
                "correction and propagated streams must differ"
              ∷ [])))
    ++ (for_keys is_finite_positive " must be finite and positive" v (
          "max_header_delta_s"
          ∷ ("max_status_arrival_delta_s" ∷ ("max_identity_correction_stamp_delta_s" ∷ [])))
        ++ check (is_true (get "require_typed_identity_join" v))
            "typed identity join must be explicitly required"
          ∷ [])

-- The first stream of the name.
unfoldable pub stream_of : String → List Value → Option Value
stream_of name [] = none
stream_of name (stream ∷ rest) =
    let later = stream_of name rest in
    if str_eq (stream_name stream) name then some stream else later

-- `source_roles == DOMAIN_REQUIRED_SOURCE_ROLES`, for the same keys.
unfoldable pub has_roles : List (String × String) → Fields → Bool
has_roles roles d = all (λ role. is_text role.1 (get role.0 d)) roles

-- Explicit where the flag asks for it.
abbrev pub is_filled_if : Option Value → Option Value → Bool
is_filled_if flag v = not (is_true flag) || is_filled_str v

unfoldable pub hybrid_topic_checks : Fields → Fields → List Check
unfolding for_keys stream_of
hybrid_topic_checks d v =
    (exact_keys (get "hybrid_imu" d) hybrid_imu_keys "hybrid_imu"
      ∷ (check (is_named (stream_names d) (get "output_stream" v))
            "hybrid_imu output_stream must reference a configured stream"
          ∷ (check
                (is_text "sensor_msgs/Imu" (
                  get "message_type"
                    (fields_of (stream_of (as_text (get "output_stream" v)) (streams_of d)))))
                "hybrid_imu output_stream must use sensor_msgs/Imu"
              ∷ [])))
    ++ (for_keys is_absolute_text " must be absolute" v ("ready_topic" ∷ ("diagnostics_topic" ∷ []))
        ++ (check (is_filled_str (get "diagnostic_name" v))
              "hybrid_imu diagnostic_name must be explicit"
            ∷ (for_keys is_finite_positive " must be finite and positive" v (
                  "diagnostic_max_gap_s"
                  ∷ ("diagnostic_max_idle_s"
                      ∷ ("ready_stable_before_mapping_s"
                          ∷ ("timesync_measurement_max_age_s"
                              ∷ ("timesync_max_abs_offset_s" ∷ [])))))
                ++ (for_keys is_empty_or_absolute " must be empty or absolute" v
                    ("mapping_start_topic" ∷ ("timesync_domain_topic" ∷ []))))))

unfoldable pub hybrid_checks : Fields → List Check
unfolding hybrid_topic_checks for_keys has_roles texts_of
hybrid_checks d =
    let v = section "hybrid_imu" d in
    hybrid_topic_checks d v
    ++ ((check (is_text "std_msgs/String" (get "mapping_start_message_type" v))
            "hybrid mapping start must carry a nonempty session String"
          ∷ (check
                (is_text "diagnostic_msgs/DiagnosticArray" (get "timesync_domain_message_type" v))
                "hybrid timesync domain evidence must be DiagnosticArray"
              ∷ []))
        ++ (for_keys is_boolean " must be an explicit boolean" v
              ("require_mapping_start_after_ready" ∷ ("require_timesync_domain" ∷ []))
            ++ ((check
                    (is_filled_if (get "require_timesync_domain" v)
                      (get "required_timesync_domain" v))
                    "required_timesync_domain must be explicit"
                  ∷ (check (is_int_from 2 (get "ready_diagnostic_samples_before_mapping" v))
                        "ready diagnostic samples before mapping must be at least two"
                      ∷ (check (are_names (texts_of (get "required_fault_counter_keys" v)))
                            "required fault counter keys must be unique nonempty strings"
                          ∷ [])))
                ++ (for_keys is_filled_str " must be explicit" v (
                      "timesync_domain_status_name"
                      ∷ ("timesync_domain_schema"
                          ∷ ("required_d435_clock_source" ∷ ("required_fcu_clock_source" ∷ []))))
                    ++ (exact_keys (get "timesync_source_roles" v)
                          (map (λ role. role.0) domain_required_source_roles)
                          "hybrid_imu.timesync_source_roles"
                        ∷ (check
                              (has_roles domain_required_source_roles
                                (section "timesync_source_roles" v))
                              "timesync source roles must bind the exact publisher/plugin source roles"
                            ∷ []))))))

abbrev pub is_camera_namespace : Option Value → Bool
is_camera_namespace (some (str s)) = str_eq s "" || str_eq s "/laserMapping"
is_camera_namespace _ = false

abbrev pub is_str_value : Value → Bool
is_str_value v = is_str (some v)

unfoldable pub provenance_checks : Fields → List Check
unfolding for_keys valid_allowlist
provenance_checks d =
    let v = section "producer_provenance" d in
    (exact_keys (get "producer_provenance" d) provenance_keys "producer_provenance"
      ∷ (check (is_empty_or_absolute (get "runtime_param_namespace" v))
            "runtime_param_namespace must be empty or absolute"
          ∷ (check (is_camera_namespace (get "runtime_camera_param_namespace" v))
                "runtime camera params must use /laserMapping private namespace"
              ∷ [])))
    ++ (for_keys is_str " must be a string" v ("executable_path" ∷ ("source_root" ∷ []))
        ++ ((exact_keys (get "dynamic_library_paths" v) fastlivo_libraries
                "producer_provenance.dynamic_library_paths"
              ∷ (check (all is_str_value (values_of (section "dynamic_library_paths" v)))
                    "dynamic library paths must be strings"
                  ∷ (check (is_filled_str (get "required_build_manifest_schema" v))
                        "required build manifest schema must be explicit"
                      ∷ (check (is_true (get "require_exact_effective_params" v))
                            "exact effective FAST-LIVO parameters must be required"
                          ∷ []))))
            ++ for_keys valid_allowlist
                " must be unique explicit JSON-pointer-like paths without wildcards" v
                ("effective_param_ephemeral_allowlist"
                  ∷ ("private_camera_param_ephemeral_allowlist" ∷ []))))

unfoldable pub evidence_checks : Fields → List Check
evidence_checks d =
    let v = section "evidence" d in
    exact_keys (get "evidence" d) evidence_keys "evidence"
    ∷ (check (is_boolean (get "require_source_identity" v))
          "require_source_identity must be an explicit boolean"
        ∷ (check (is_finite_positive (get "max_duration_overrun_s" v))
              "max_duration_overrun_s must be finite and positive"
            ∷ (exact_keys (get "source_paths" v) evidence_source_keys "evidence.source_paths"
                ∷ (check (all is_str_value (values_of (section "source_paths" v)))
                      "evidence source paths must be strings"
                    ∷ (exact_keys (get "source_manifest_paths" v) evidence_manifest_path_keys
                          "evidence.source_manifest_paths"
                        ∷ (check
                              (all (λ p. is_filled_str (some p))
                                (values_of (section "source_manifest_paths" v)))
                              "evidence manifest paths must be nonempty strings"
                            ∷ []))))))
