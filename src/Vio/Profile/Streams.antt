-- ===== src/Vio/Profile/Streams.antt =====
-- The checks of the profile's head and of its streams.
use flight_safety.Prelude.{
  Bool, List, Option, String, [], false, map, none, not, some, true, ◌&&◌, ◌++◌, ◌∷◌,
}
use flight_safety.Vio.Profile.Checks.{Check, check, exact_keys, for_keys}
use flight_safety.Json.{
  Fields, Value, array, unit_of, fields_of, get, is_boolean, is_distinct_texts, is_false,
  is_filled_str, is_finite_positive, is_int_from, is_str, is_text, items_of, no_items, number_of,
  str,
}
use flight_safety.Vio.Gates.{is_filled}
use flight_safety.Prelude.Int.{leb_ℤ, ltb_ℤ, pos, ℤ}
use flight_safety.Vio.Profile.Keys.{message_types, profile_keys, safety_keys, stream_keys}
use flight_safety.Vio.Texts.{starts_with}
use flight_safety.Prelude.Text.{str_mem}

abbrev pub safety_of : Fields → Fields
safety_of d = fields_of (get "safety_invariants" d)

abbrev pub is_empty_list : Option Value → Bool
is_empty_list (some (array no_items)) = true
is_empty_list _ = false

-- Without a duration, or with a positive one.
abbrev pub duration_ok : Option Value → Bool
duration_ok none = true
duration_ok (some v) = is_finite_positive (some v)

abbrev pub root_ok : Option String → Bool
root_ok none = true
root_ok (some path) = starts_with path "/"

unfoldable pub head_checks : Value → Option Value → Option String → List Check
head_checks profile duration output_root =
    let d = fields_of (some profile) in
    let safety = safety_of d in
    exact_keys (some profile) profile_keys "profile"
    ∷ (exact_keys (get "safety_invariants" d) safety_keys "safety_invariants"
        ∷ (check (is_text "shadow_only" (get "mode" safety)) "profile mode must be shadow_only"
            ∷ (check (is_false (get "allow_ros_publish" safety)) "allow_ros_publish must be false"
                ∷ (check (is_false (get "allow_fcu_actuation" safety))
                      "allow_fcu_actuation must be false"
                    ∷ (check (is_empty_list (get "fcu_output_topics" safety))
                          "fcu_output_topics must be an empty list"
                        ∷ (check (duration_ok duration) "duration_s must be finite and positive"
                            ∷ (check (root_ok output_root) "output_root must be absolute"
                                ∷ [])))))))

abbrev pub list_items : Option Value → List Value
list_items (some (array xs)) = items_of xs
list_items _ = []

-- `streams`
abbrev pub streams_of : Fields → List Value
streams_of d = list_items (get "streams" d)

abbrev pub name_of : Value → Option Value
name_of stream = get "name" (fields_of (some stream))

abbrev pub as_text : Option Value → String
as_text (some (str s)) = s
as_text _ = ""

abbrev pub stream_name : Value → String
stream_name stream = as_text (name_of stream)

abbrev pub is_stream_topic : Option Value → Bool
is_stream_topic (some (str s)) = starts_with s "/" && not (starts_with s "/mavros/setpoint")
is_stream_topic _ = false

abbrev pub is_message_type : Option Value → Bool
is_message_type (some (str s)) = str_mem s message_types
is_message_type _ = false

abbrev pub is_ratio : Option ℤ → Bool
is_ratio none = false
is_ratio (some n) = ltb_ℤ (pos 0) n && leb_ℤ n unit_of

abbrev pub is_nonnegative : Option ℤ → Bool
is_nonnegative none = false
is_nonnegative (some n) = leb_ℤ (pos 0) n

abbrev pub is_at_most : Option ℤ → Option ℤ → Bool
is_at_most (some a) (some b) = leb_ℤ a b
is_at_most a b = false

abbrev pub positive_checks : Fields → List Check
positive_checks d = for_keys is_finite_positive " must be finite and positive" d (
    "min_rate_hz"
    ∷ ("max_gap_s"
        ∷ ("max_idle_s"
            ∷ ("max_abs_header_latency_s"
                ∷ ("max_first_sample_delay_s"
                    ∷ ("covariance_max_diagonal"
                        ∷ ("covariance_max_abs" ∷ ("quaternion_norm_tolerance" ∷ []))))))))

abbrev pub bound_checks : Fields → List Check
bound_checks d =
    check (is_ratio (number_of (get "min_window_coverage_ratio" d)))
      "min_window_coverage_ratio must be in (0,1]"
    ∷ (for_keys (λ v. is_nonnegative (number_of v)) " must be finite and nonnegative" d
          ("covariance_symmetry_tolerance" ∷ ("covariance_psd_tolerance" ∷ []))
        ++ (for_keys is_finite_positive " must be finite and strictly positive" d
              ("covariance_min_diagonal" ∷ ("covariance_min_eigenvalue" ∷ []))
            ++ check
                (is_at_most (number_of (get "covariance_min_diagonal" d))
                  (number_of (get "covariance_max_diagonal" d)))
                "covariance diagonal bounds are inverted"
              ∷ []))

abbrev pub flag_checks : Fields → List Check
flag_checks d = for_keys is_boolean " must be an explicit boolean" d (
    "require_pose_covariance"
    ∷ ("require_twist_covariance"
        ∷ ("require_pose_payload"
            ∷ ("require_twist_payload"
                ∷ ("require_imu_payload"
                    ∷ ("require_imu_orientation" ∷ ("require_imu_covariance" ∷ [])))))))

unfoldable pub stream_checks : Value → List Check
unfolding for_keys
stream_checks stream =
    let d = fields_of (some stream) in
    (exact_keys (some stream) stream_keys "stream"
      ∷ (check (is_filled_str (get "name" d)) "stream names must be nonempty strings"
          ∷ (check (is_stream_topic (get "topic" d))
                "stream topic must be an absolute non-setpoint topic"
              ∷ (check (is_message_type (get "message_type" d)) "unsupported stream message_type"
                  ∷ (check (is_filled_str (get "expected_frame_id" d))
                        "expected_frame_id must be explicit"
                      ∷ (check (is_str (get "expected_child_frame_id" d))
                            "expected_child_frame_id must be a string"
                          ∷ (check (is_int_from 1 (get "queue_size" d))
                                "queue_size must be a positive integer"
                              ∷ (check (is_int_from 2 (get "min_samples" d))
                                    "min_samples must be at least two"
                                  ∷ []))))))))
    ++ (positive_checks d ++ (bound_checks d ++ flag_checks d))

unfoldable pub all_stream_checks : List Value → List Check
all_stream_checks [] = []
all_stream_checks (stream ∷ rest) = stream_checks stream ++ all_stream_checks rest

unfoldable pub streams_checks : Fields → List Check
unfolding all_stream_checks
streams_checks d =
    check (is_filled (streams_of d)) "at least one stream is required"
    ∷ (all_stream_checks (streams_of d)
        ++ check (is_distinct_texts (map stream_name (streams_of d))) "stream names must be unique"
          ∷ [])
