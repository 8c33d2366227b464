-- ===== src/Vio/Hybrid/Examples.antt =====
-- A run of the hybrid IMU that passes.
use flight_safety.Vio.Hybrid.Passed
use flight_safety.Vio.Hybrid.Late
use flight_safety.Vio.Hybrid.Measured
use flight_safety.Vio.Hybrid.{
  Config, Hybrid, Publisher, new_hybrid, observe_diagnostic, observe_mapping_start, observe_ready,
  observe_timesync_domain, reading_of,
}
use flight_safety.Vio.Hybrid.Gates.{Context, domain_gate, passes, readings}
use flight_safety.Vio.Identity.{
  Dict, Status, has_exact_keys, normalize_item, normalize_items, normalize_key_values, uint_at,
}
use flight_safety.Prelude.{String, [], false, map, refl, some, true, ℕ, ◌∷◌, ◌≡◌}
use flight_safety.Vio.Texts.{
  as_bool, has_text, is_hex_of, starts_with, strict_int_text, strict_uint_text, strip,
}
use flight_safety.Vio.Hybrid.Ready.{
  counter_schema, counts, diagnostic_continuous, diagnostic_fresh, diagnostic_ok, diagnostics_from,
  final_ready, first_ready, has_fault_keys, header_gate, header_latency_gate, is_fault_key,
  is_nondecreasing, keyvalues_unique, mapping_after_stable_ready, mapping_session_bound,
  never_false, no_new_faults, not_ready_between, steps_within,
}
use flight_safety.Vio.Hybrid.Domain.{
  domain_measurement_freshness, domain_measurements, domain_runtime, domain_runtime_publisher,
  domain_schema, domain_session_reset, domain_source_fields, domain_sources, domain_values, measure,
  measurements,
}
use flight_safety.Prelude.Text.{insert, lookup}
use flight_safety.Vio.Gates.{is_contiguous, is_increasing}

abbrev digest : String
digest = "00000000000000000000000000000000ffffffffffffffffffffffffffffffff"

abbrev roles : Dict
roles = map (λ field. (field, field)) domain_source_fields

abbrev hashes : Dict
hashes = map (λ field. (field, digest)) domain_source_fields

abbrev config : Config
config = record {
  diagnostic_name = "hybrid imu";
  diagnostic_max_gap = 200;
  diagnostic_max_idle = 300;
  require_mapping_start_after_ready = true;
  ready_stable_before_mapping = 100;
  ready_diagnostic_samples_before_mapping = 2;
  required_fault_counter_keys = "drop_imu" ∷ [];
  timesync_domain_status_name = "clock";
  timesync_domain_schema = "v1";
  required_timesync_domain = "shared";
  required_d435_clock_source = "hw";
  required_fcu_clock_source = "ts";
  timesync_source_roles = roles;
  timesync_measurement_max_age = 50;
  timesync_max_abs_offset = 20;
  require_timesync_domain = true;
}

abbrev diagnostic : ℕ → Status
diagnostic t = record {
  name = "hybrid imu";
  level = 0;
  values = some ("ready", " True") ∷ (some ("drop_imu", "3") ∷ (some ("last_fault", "none") ∷ []));
  stamp = t;
  arrival_wall = t;
  arrival_ros = t;
}

abbrev clock : ℕ → String → String → String → String → Status
clock t sequence d435 fcu offset = record {
  name = "clock";
  level = 0;
  values =
      some ("schema", "v1")
      ∷ (some ("session_id", "s1")
          ∷ (some ("reset_counter", "0")
              ∷ (some ("measurement_sequence", sequence)
                  ∷ (some ("domain_id", "shared")
                      ∷ (some ("measurement_domain", "shared")
                          ∷ (some ("d435_clock_source", "hw")
                              ∷ (some ("fcu_clock_source", "ts")
                                  ∷ (some ("d435_stamp_ns", d435)
                                      ∷ (some ("fcu_stamp_ns", fcu)
                                          ∷ (some ("measured_offset_ns", offset)
                                              ∷ map some hashes))))))))));
  stamp = t;
  arrival_wall = t;
  arrival_ros = t;
}

abbrev publisher : Publisher
publisher = record {
  callerid = "/clock";
  pid = 12;
  uri = "http://here:1";
  host = "here";
  local_host_gate = true;
  executable_path = "/opt/clock";
  executable_sha256 = digest;
}

finished : Hybrid
unfolding observe_ready observe_diagnostic observe_mapping_start observe_timesync_domain
    normalize_key_values normalize_items normalize_item insert lookup strip has_text
finished = observe_timesync_domain config (clock 300 "5" "290" "295" "-5") (some publisher) (
    observe_timesync_domain config (clock 200 "4" "195" "190" "5") (some publisher) (
      observe_mapping_start "s1 " 250 (
        observe_diagnostic config (diagnostic 300) (
          observe_diagnostic config (diagnostic 200) (
            observe_diagnostic config (diagnostic 100)
              (observe_ready true 100 (observe_ready false 50 new_hybrid)))))))

abbrev context : Context
context = record {
  now_wall = 400;
  output_passed = true;
  source_hashes = hashes;
  session_ids = "s1" ∷ [];
  reset_counters = 0 ∷ [];
}

finished-passes : passes config context finished ≡ true
unfolding finished passes first_ready never_false final_ready diagnostics_from steps_within
    diagnostic_fresh diagnostic_continuous diagnostic_ok keyvalues_unique header_gate
    header_latency_gate is_fault_key has_fault_keys counter_schema counts is_nondecreasing
    no_new_faults mapping_after_stable_ready mapping_session_bound not_ready_between domain_schema
    domain_values domain_sources domain_runtime_publisher domain_session_reset domain_measurements
    domain_measurement_freshness domain_runtime domain_gate measure measurements has_exact_keys
    as_bool strict_uint_text strict_int_text is_hex_of is_increasing is_contiguous lookup
    starts_with
finished-passes = refl

passes-constant_counts_example :
    uint_at "drop_imu" (reading_of (diagnostic 300)).values
    ≡ uint_at "drop_imu" (reading_of (diagnostic 100)).values
unfolding finished diagnostics_from first_ready normalize_key_values normalize_items normalize_item
    insert lookup
passes-constant_counts_example =
    Passed.passes-constant_counts config context finished finished-passes "drop_imu" 2
      (reading_of (diagnostic 100)) (reading_of (diagnostic 300)) refl refl refl

passes-IsLate_example : Late.IsLate config finished
passes-IsLate_example = Passed.passes-IsLate config context finished finished-passes refl

passes-IsMeasured_example : Measured.IsMeasured config (readings finished)
passes-IsMeasured_example = Passed.passes-IsMeasured config context finished finished-passes refl
