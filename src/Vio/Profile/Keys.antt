-- ===== src/Vio/Profile/Keys.antt =====
-- The key sets of the profile's sections.
use flight_safety.Prelude.{List, String, [], ◌∷◌}

abbrev pub profile_keys : List String
profile_keys =
    "safety_invariants"
    ∷ ("streams"
        ∷ ("identity" ∷ ("linkage" ∷ ("hybrid_imu" ∷ ("producer_provenance" ∷ ("evidence" ∷ []))))))

abbrev pub safety_keys : List String
safety_keys = "mode" ∷ ("allow_ros_publish" ∷ ("allow_fcu_actuation" ∷ ("fcu_output_topics" ∷ [])))

abbrev pub stream_keys : List String
stream_keys =
    "name"
    ∷ ("topic"
        ∷ ("message_type"
            ∷ ("queue_size"
                ∷ ("expected_frame_id"
                    ∷ ("expected_child_frame_id"
                        ∷ ("min_samples"
                            ∷ ("min_rate_hz"
                                ∷ ("max_gap_s"
                                    ∷ ("max_idle_s"
                                        ∷ ("max_abs_header_latency_s"
                                            ∷ ("max_first_sample_delay_s"
                                                ∷ ("min_window_coverage_ratio"
                                                    ∷ ("covariance_symmetry_tolerance"
                                                        ∷ ("covariance_psd_tolerance"
                                                            ∷ ("covariance_min_diagonal"
                                                            ∷ ("covariance_min_eigenvalue"
                                                            ∷ ("covariance_max_diagonal"
                                                            ∷ ("covariance_max_abs"
                                                            ∷ ("require_pose_covariance"
                                                            ∷ ("require_twist_covariance"
                                                            ∷ ("require_pose_payload"
                                                            ∷ ("require_twist_payload"
                                                            ∷ ("require_imu_payload"
                                                            ∷ ("require_imu_orientation"
                                                            ∷ ("require_imu_covariance"
                                                            ∷ ("quaternion_norm_tolerance"
                                                            ∷ []))))))))))))))))))))))))))

abbrev pub identity_keys : List String
identity_keys =
    "status_topic"
    ∷ ("status_message_type"
        ∷ ("status_name"
            ∷ ("status_schema"
                ∷ ("min_samples" ∷ ("max_idle_s" ∷ ("max_abs_header_latency_s" ∷ []))))))

abbrev pub linkage_keys : List String
linkage_keys =
    "correction_stream"
    ∷ ("propagated_stream"
        ∷ ("max_header_delta_s"
            ∷ ("max_status_arrival_delta_s"
                ∷ ("max_identity_correction_stamp_delta_s"
                    ∷ ("require_typed_identity_join" ∷ [])))))

abbrev pub evidence_keys : List String
evidence_keys =
    "require_source_identity"
    ∷ ("source_paths" ∷ ("source_manifest_paths" ∷ ("max_duration_overrun_s" ∷ [])))

abbrev pub evidence_source_keys : List String
evidence_source_keys =
    "shadow_entrypoint"
    ∷ ("bundle_manifest"
        ∷ ("hybrid_imu_node"
            ∷ ("hybrid_imu_core"
                ∷ ("hybrid_imu_launch"
                    ∷ ("hybrid_imu_build_manifest"
                        ∷ ("clock_domain_publisher_executable"
                            ∷ ("clock_domain_publisher_source"
                                ∷ ("clock_domain_publisher_build_manifest"
                                    ∷ ("mavros_timesync_plugin"
                                        ∷ ("selected_candidate_overlay"
                                            ∷ ("fastlivo_base_config"
                                                ∷ ("fastlivo_camera_config"
                                                    ∷ ("fastlivo_build_manifest" ∷ [])))))))))))))

abbrev pub evidence_manifest_path_keys : List String
evidence_manifest_path_keys =
    "shadow_entrypoint"
    ∷ ("hybrid_imu_node"
        ∷ ("hybrid_imu_core"
            ∷ ("hybrid_imu_launch"
                ∷ ("hybrid_imu_build_manifest"
                    ∷ ("clock_domain_publisher_executable"
                        ∷ ("clock_domain_publisher_source"
                            ∷ ("clock_domain_publisher_build_manifest"
                                ∷ ("mavros_timesync_plugin"
                                    ∷ ("selected_candidate_overlay"
                                        ∷ ("fastlivo_base_config"
                                            ∷ ("fastlivo_camera_config"
                                                ∷ ("fastlivo_build_manifest" ∷ []))))))))))))

abbrev pub hybrid_imu_keys : List String
hybrid_imu_keys =
    "output_stream"
    ∷ ("ready_topic"
        ∷ ("diagnostics_topic"
            ∷ ("diagnostic_name"
                ∷ ("diagnostic_max_gap_s"
                    ∷ ("diagnostic_max_idle_s"
                        ∷ ("mapping_start_topic"
                            ∷ ("mapping_start_message_type"
                                ∷ ("require_mapping_start_after_ready"
                                    ∷ ("ready_stable_before_mapping_s"
                                        ∷ ("ready_diagnostic_samples_before_mapping"
                                            ∷ ("required_fault_counter_keys"
                                                ∷ ("timesync_domain_topic"
                                                    ∷ ("timesync_domain_message_type"
                                                        ∷ ("timesync_domain_status_name"
                                                            ∷ ("timesync_domain_schema"
                                                            ∷ ("required_timesync_domain"
                                                            ∷ ("required_d435_clock_source"
                                                            ∷ ("required_fcu_clock_source"
                                                            ∷ ("timesync_source_roles"
                                                            ∷ ("timesync_measurement_max_age_s"
                                                            ∷ ("timesync_max_abs_offset_s"
                                                            ∷ ("require_timesync_domain"
                                                            ∷ []))))))))))))))))))))))

abbrev pub provenance_keys : List String
provenance_keys =
    "runtime_param_namespace"
    ∷ ("runtime_camera_param_namespace"
        ∷ ("executable_path"
            ∷ ("dynamic_library_paths"
                ∷ ("source_root"
                    ∷ ("required_build_manifest_schema"
                        ∷ ("require_exact_effective_params"
                            ∷ ("effective_param_ephemeral_allowlist"
                                ∷ ("private_camera_param_ephemeral_allowlist" ∷ []))))))))

abbrev pub fastlivo_libraries : List String
fastlivo_libraries =
    "libimu_proc.so" ∷ ("liblaser_mapping.so" ∷ ("liblio.so" ∷ ("libpre.so" ∷ ("libvio.so" ∷ []))))

abbrev pub message_types : List String
message_types =
    "geometry_msgs/PoseStamped"
    ∷ ("geometry_msgs/PoseWithCovarianceStamped" ∷ ("nav_msgs/Odometry" ∷ ("sensor_msgs/Imu" ∷ [])))

-- Which source each hash is of.
abbrev pub domain_required_source_roles : List (String × String)
domain_required_source_roles =
    ("hybrid_imu_node_sha256", "hybrid_imu_node")
    ∷ (("hybrid_imu_core_sha256", "hybrid_imu_core")
        ∷ (("d435_launch_sha256", "hybrid_imu_launch")
            ∷ (("mavros_timesync_plugin_sha256", "mavros_timesync_plugin")
                ∷ (("publisher_executable_sha256", "clock_domain_publisher_executable")
                    ∷ (("publisher_source_sha256", "clock_domain_publisher_source")
                        ∷ ((
                          "publisher_build_manifest_sha256",
                          "clock_domain_publisher_build_manifest",
                        )
                            ∷ []))))))
