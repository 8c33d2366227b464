-- ===== src/Vio/Profile/Preflight.antt =====
-- The repository's profile, config/vio_shadow_preflight.yaml.
use flight_safety.Json.{
  Value, array, boolean, field, integer, item, no_fields, no_items, object, real, str,
}
use flight_safety.Prelude.{false, true}
use flight_safety.Prelude.Float.{fin}
use flight_safety.Prelude.Int.{pos}

abbrev pub safety_invariants : Value
safety_invariants = object (
    field "mode" (str "shadow_only") (
      field "allow_ros_publish" (boolean false) (
        field "allow_fcu_actuation" (boolean false)
          (field "fcu_output_topics" (array no_items) no_fields))))

abbrev pub correction_pose_stream : Value
correction_pose_stream = object (
    field "name" (str "correction_pose") (
      field "topic" (str "/aft_mapped_to_body_correction_pose_cov") (
        field "message_type" (str "geometry_msgs/PoseWithCovarianceStamped") (
          field "queue_size" (integer (pos 1000)) (
            field "expected_frame_id" (str "odom") (
              field "expected_child_frame_id" (str "") (
                field "min_samples" (integer (pos 30)) (
                  field "min_rate_hz" (real (fin (pos 8000000000000))) (
                    field "max_gap_s" (real (fin (pos 250000000000))) (
                      field "max_idle_s" (real (fin (pos 250000000000))) (
                        field "max_abs_header_latency_s" (real (fin (pos 500000000000))) (
                          field "max_first_sample_delay_s" (real (fin (pos 500000000000))) (
                            field "min_window_coverage_ratio" (real (fin (pos 950000000000))) (
                              field "covariance_symmetry_tolerance" (real (fin (pos 1000))) (
                                field "covariance_psd_tolerance" (real (fin (pos 1000))) (
                                  field "covariance_min_diagonal" (real (fin (pos 1))) (
                                    field "covariance_min_eigenvalue" (real (fin (pos 1))) (
                                      field "covariance_max_diagonal"
                                        (real (fin (pos 1000000000000000)))
                                        (field "covariance_max_abs"
                                          (real (fin (pos 1000000000000000)))
                                          (field "quaternion_norm_tolerance"
                                            (real (fin (pos 1000000000)))
                                            (field "require_pose_payload" (boolean true) (
                                              field "require_twist_payload" (boolean false) (
                                                field "require_imu_payload" (boolean false) (
                                                  field "require_imu_orientation" (boolean false) (
                                                    field "require_imu_covariance" (boolean false) (
                                                      field "require_pose_covariance" (boolean true)
                                                        (field "require_twist_covariance"
                                                          (boolean false)
                                                          no_fields)))))))))))))))))))))))))))

abbrev pub propagated_odometry_stream : Value
propagated_odometry_stream = object (
    field "name" (str "propagated_odometry") (
      field "topic" (str "/aft_mapped_to_body_imu_propagated") (
        field "message_type" (str "nav_msgs/Odometry") (
          field "queue_size" (integer (pos 4000)) (
            field "expected_frame_id" (str "odom") (
              field "expected_child_frame_id" (str "base_link") (
                field "min_samples" (integer (pos 100)) (
                  field "min_rate_hz" (real (fin (pos 30000000000000))) (
                    field "max_gap_s" (real (fin (pos 50000000000))) (
                      field "max_idle_s" (real (fin (pos 100000000000))) (
                        field "max_abs_header_latency_s" (real (fin (pos 200000000000))) (
                          field "max_first_sample_delay_s" (real (fin (pos 500000000000))) (
                            field "min_window_coverage_ratio" (real (fin (pos 950000000000))) (
                              field "covariance_symmetry_tolerance" (real (fin (pos 1000))) (
                                field "covariance_psd_tolerance" (real (fin (pos 1000))) (
                                  field "covariance_min_diagonal" (real (fin (pos 1))) (
                                    field "covariance_min_eigenvalue" (real (fin (pos 1))) (
                                      field "covariance_max_diagonal"
                                        (real (fin (pos 1000000000000000)))
                                        (field "covariance_max_abs"
                                          (real (fin (pos 1000000000000000)))
                                          (field "quaternion_norm_tolerance"
                                            (real (fin (pos 1000000000)))
                                            (field "require_pose_payload" (boolean true) (
                                              field "require_twist_payload" (boolean true) (
                                                field "require_imu_payload" (boolean false) (
                                                  field "require_imu_orientation" (boolean false) (
                                                    field "require_imu_covariance" (boolean false) (
                                                      field "require_pose_covariance" (boolean true)
                                                        (field "require_twist_covariance"
                                                          (boolean true)
                                                          no_fields)))))))))))))))))))))))))))

abbrev pub hybrid_imu_output_stream : Value
hybrid_imu_output_stream = object (
    field "name" (str "hybrid_imu_output") (
      field "topic" (str "/camera/imu_hybrid") (
        field "message_type" (str "sensor_msgs/Imu") (
          field "queue_size" (integer (pos 4000)) (
            field "expected_frame_id" (str "camera_depth_optical_frame") (
              field "expected_child_frame_id" (str "") (
                field "min_samples" (integer (pos 300)) (
                  field "min_rate_hz" (real (fin (pos 150000000000000))) (
                    field "max_gap_s" (real (fin (pos 20000000000))) (
                      field "max_idle_s" (real (fin (pos 50000000000))) (
                        field "max_abs_header_latency_s" (real (fin (pos 200000000000))) (
                          field "max_first_sample_delay_s" (real (fin (pos 500000000000))) (
                            field "min_window_coverage_ratio" (real (fin (pos 950000000000))) (
                              field "covariance_symmetry_tolerance" (real (fin (pos 1000))) (
                                field "covariance_psd_tolerance" (real (fin (pos 1000))) (
                                  field "covariance_min_diagonal" (real (fin (pos 1))) (
                                    field "covariance_min_eigenvalue" (real (fin (pos 1))) (
                                      field "covariance_max_diagonal"
                                        (real (fin (pos 1000000000000000)))
                                        (field "covariance_max_abs"
                                          (real (fin (pos 1000000000000000)))
                                          (field "quaternion_norm_tolerance"
                                            (real (fin (pos 1000000000)))
                                            (field "require_pose_payload" (boolean false) (
                                              field "require_twist_payload" (boolean false) (
                                                field "require_imu_payload" (boolean true) (
                                                  field "require_imu_orientation" (boolean true) (
                                                    field "require_imu_covariance" (boolean true) (
                                                      field "require_pose_covariance"
                                                        (boolean false)
                                                        (field "require_twist_covariance"
                                                          (boolean false)
                                                          no_fields)))))))))))))))))))))))))))

abbrev pub streams : Value
streams = array (
    item correction_pose_stream
      (item propagated_odometry_stream (item hybrid_imu_output_stream no_items)))

abbrev pub identity : Value
identity = object (
    field "status_topic" (str "") (
      field "status_message_type" (str "diagnostic_msgs/DiagnosticArray") (
        field "status_name" (str "fast_livo/identity_join") (
          field "status_schema" (str "flight_safety/fastlivo_identity_join/v1") (
            field "min_samples" (integer (pos 30)) (
              field "max_idle_s" (real (fin (pos 500000000000)))
                (field "max_abs_header_latency_s" (real (fin (pos 200000000000))) no_fields)))))))

abbrev pub linkage : Value
linkage = object (
    field "correction_stream" (str "correction_pose") (
      field "propagated_stream" (str "propagated_odometry") (
        field "max_header_delta_s" (real (fin (pos 20000000000))) (
          field "max_status_arrival_delta_s" (real (fin (pos 50000000000))) (
            field "max_identity_correction_stamp_delta_s" (real (fin (pos 1000000000)))
              (field "require_typed_identity_join" (boolean true) no_fields))))))

abbrev pub hybrid_imu : Value
hybrid_imu = object (
    field "output_stream" (str "hybrid_imu_output") (
      field "ready_topic" (str "/camera/imu_hybrid/ready") (
        field "diagnostics_topic" (str "/camera/imu_hybrid/diagnostics") (
          field "diagnostic_name" (str "d435i_tools/hybrid_imu") (
            field "diagnostic_max_gap_s" (real (fin (pos 250000000000))) (
              field "diagnostic_max_idle_s" (real (fin (pos 250000000000))) (
                field "mapping_start_topic" (str "") (
                  field "mapping_start_message_type" (str "std_msgs/String") (
                    field "require_mapping_start_after_ready" (boolean true) (
                      field "ready_stable_before_mapping_s" (real (fin (pos 1000000000000))) (
                        field "ready_diagnostic_samples_before_mapping" (integer (pos 5)) (
                          field "required_fault_counter_keys"
                            (array (
                              item (str "invalid_fcu") (
                                item (str "fcu_stamp_rollback") (
                                  item (str "invalid_d435") (
                                    item (str "d435_stamp_rollback") (
                                      item (str "drop_pending_overflow") (
                                        item (str "drop_wait_timeout") (
                                          item (str "drop_outside_before_fcu") (
                                            item (str "drop_nonpositive_gap") (
                                              item (str "drop_gap_too_large") (
                                                item (str "drop_output_stamp_rollback")
                                                  no_items)))))))))))
                            (field "timesync_domain_topic" (str "") (
                              field "timesync_domain_message_type"
                                (str "diagnostic_msgs/DiagnosticArray")
                                (field "timesync_domain_status_name"
                                  (str "d435i_tools/clock_domain")
                                  (field "timesync_domain_schema"
                                    (str "flight_safety/d435_fcu_clock_domain/v1")
                                    (field "required_timesync_domain"
                                      (str "D435_HEADER_AND_FCU_IMU_COMMON_ROS_TIME_VERIFIED")
                                      (field "required_d435_clock_source"
                                        (str "D435_HEADER_ROS_TIME")
                                        (field "required_fcu_clock_source"
                                          (str "FCU_MAVROS_SYNCHRONIZED_ROS_TIME")
                                          (field "timesync_measurement_max_age_s"
                                            (real (fin (pos 50000000000)))
                                            (field "timesync_max_abs_offset_s"
                                              (real (fin (pos 50000000000)))
                                              (field "timesync_source_roles"
                                                (object (
                                                  field "hybrid_imu_node_sha256"
                                                    (str "hybrid_imu_node")
                                                    (field "hybrid_imu_core_sha256"
                                                      (str "hybrid_imu_core")
                                                      (field "d435_launch_sha256"
                                                        (str "hybrid_imu_launch")
                                                        (field "mavros_timesync_plugin_sha256"
                                                          (str "mavros_timesync_plugin")
                                                          (field "publisher_executable_sha256"
                                                            (str
                                                            "clock_domain_publisher_executable")
                                                            (field "publisher_source_sha256"
                                                            (str "clock_domain_publisher_source")
                                                            (field "publisher_build_manifest_sha256"
                                                            (str
                                                            "clock_domain_publisher_build_manifest")
                                                            no_fields))))))))
                                                (field "require_timesync_domain" (boolean true)
                                                  no_fields)))))))))))))))))))))))

abbrev pub producer_provenance : Value
producer_provenance = object (
    field "runtime_param_namespace" (str "") (
      field "runtime_camera_param_namespace" (str "") (
        field "executable_path" (str "") (
          field "dynamic_library_paths"
            (object (
              field "libimu_proc.so" (str "") (
                field "liblaser_mapping.so" (str "") (
                  field "liblio.so" (str "")
                    (field "libpre.so" (str "") (field "libvio.so" (str "") no_fields))))))
            (field "source_root" (str "") (
              field "required_build_manifest_schema" (str "fastlivo_vio_postfix_build_manifest/v1")
                (field "require_exact_effective_params" (boolean true) (
                  field "effective_param_ephemeral_allowlist" (array no_items) (
                    field "private_camera_param_ephemeral_allowlist" (array no_items)
                      no_fields)))))))))

abbrev pub evidence : Value
evidence = object (
    field "require_source_identity" (boolean true) (
      field "max_duration_overrun_s" (real (fin (pos 1000000000000))) (
        field "source_paths"
          (object (
            field "shadow_entrypoint" (str "") (
              field "bundle_manifest" (str "") (
                field "hybrid_imu_node" (str "") (
                  field "hybrid_imu_core" (str "") (
                    field "hybrid_imu_launch" (str "") (
                      field "hybrid_imu_build_manifest" (str "") (
                        field "clock_domain_publisher_executable" (str "") (
                          field "clock_domain_publisher_source" (str "") (
                            field "clock_domain_publisher_build_manifest" (str "") (
                              field "mavros_timesync_plugin" (str "") (
                                field "selected_candidate_overlay" (str "") (
                                  field "fastlivo_base_config" (str "") (
                                    field "fastlivo_camera_config" (str "") (
                                      field "fastlivo_build_manifest" (str "")
                                        no_fields)))))))))))))))
          (field "source_manifest_paths"
            (object (
              field "shadow_entrypoint" (str "scripts/vio_shadow_preflight.py") (
                field "hybrid_imu_node"
                  (str "../../../../modules/sensor/realsense-d435i/hybrid_imu.py")
                  (field "hybrid_imu_core"
                    (str "../../../../modules/sensor/realsense-d435i/hybrid_imu_core.py")
                    (field "hybrid_imu_launch"
                      (str "../../../../modules/sensor/realsense-d435i/d435i.launch")
                      (field "hybrid_imu_build_manifest"
                        (str "config/hybrid_imu_runtime_build_manifest.json")
                        (field "clock_domain_publisher_executable"
                          (str "external/unqualified/clock_domain_publisher")
                          (field "clock_domain_publisher_source"
                            (str "external/unqualified/clock_domain_publisher.py")
                            (field "clock_domain_publisher_build_manifest"
                              (str "external/unqualified/clock_domain_publisher_build.json")
                              (field "mavros_timesync_plugin"
                                (str
                                  "../../../risk-aware/src/risk_aware_planning/mavros/mavros/src/plugins/sys_time.cpp")
                                (field "selected_candidate_overlay"
                                  (str
                                    "../../../../modules/odometry/fast-livo/qualification/candidate_overlay.yaml")
                                  (field "fastlivo_base_config"
                                    (str
                                      "../../../../ws/fast-livo/src/FAST-LIVO2/config/d435i.yaml")
                                    (field "fastlivo_camera_config"
                                      (str
                                        "../../../../ws/fast-livo/src/FAST-LIVO2/config/camera_d435i.yaml")
                                      (field "fastlivo_build_manifest"
                                        (str
                                          "../../../../modules/odometry/fast-livo/qualification/build_manifest.json")
                                        no_fields))))))))))))))
            no_fields))))

abbrev pub preflight : Value
preflight = object (
    field "safety_invariants" safety_invariants (
      field "streams" streams (
        field "identity" identity (
          field "linkage" linkage (
            field "hybrid_imu" hybrid_imu (
              field "producer_provenance" producer_provenance
                (field "evidence" evidence no_fields)))))))
