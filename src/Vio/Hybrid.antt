-- ===== src/Vio/Hybrid.antt =====
-- `HybridImuAccumulator`: what it collects of the IMU's readiness, its diagnostics, the start of the
-- mapping, and the clock domain.
pub mod Ready
pub mod Domain
pub mod Gates
pub mod Unchanged
pub mod Late
pub mod Measured
pub mod Passed
mod Examples
use flight_safety.Prelude.{Bool, List, Option, String, [], if◌then◌else◌, some, ℕ, ◌++◌, ◌∷◌}
use flight_safety.Vio.Identity.{Dict, Status, normalize_key_values}
use flight_safety.Vio.Texts.{has_text, strip}
use flight_safety.Prelude.Text.{str_eq}

pub record Config : Type 0 where
  pub diagnostic_name : String
  pub diagnostic_max_gap : ℕ
  pub diagnostic_max_idle : ℕ
  pub require_mapping_start_after_ready : Bool
  pub ready_stable_before_mapping : ℕ
  pub ready_diagnostic_samples_before_mapping : ℕ
  pub required_fault_counter_keys : List String
  pub timesync_domain_status_name : String
  pub timesync_domain_schema : String
  pub required_timesync_domain : String
  pub required_d435_clock_source : String
  pub required_fcu_clock_source : String
  pub timesync_source_roles : Dict
  pub timesync_measurement_max_age : ℕ
  pub timesync_max_abs_offset : ℕ
  pub require_timesync_domain : Bool

pub record ReadySample : Type 0 where
  pub value : Bool
  pub arrival : ℕ

-- A diagnostic or clock-domain status after `_normalize_key_values`.
pub record Reading : Type 0 where
  pub level : ℕ
  pub values : Dict
  pub duplicate_keys : List String
  pub well_formed : Bool
  pub stamp : ℕ
  pub arrival_wall : ℕ
  pub arrival_ros : ℕ

-- The identity of the running publisher, where all of its fields are there with their types.
pub record Publisher : Type 0 where
  pub callerid : String
  pub pid : ℕ
  pub uri : String
  pub host : String
  pub local_host_gate : Bool
  pub executable_path : String
  pub executable_sha256 : String

pub record DomainReading : Type 0 where
  pub reading : Reading
  pub publisher : Option Publisher

pub record MappingStart : Type 0 where
  pub value : Option String
  pub valid : Bool
  pub arrival : ℕ

pub record Hybrid : Type 0 where
  pub ready_samples : List ReadySample
  pub diagnostics : List Reading
  pub mapping_starts : List MappingStart
  pub timesync_domains : List DomainReading

abbrev pub new_hybrid : Hybrid
new_hybrid = record {
  ready_samples = [];
  diagnostics = [];
  mapping_starts = [];
  timesync_domains = [];
}

unfoldable pub observe_ready : Bool → ℕ → Hybrid → Hybrid
observe_ready value arrival s = record s {
  ready_samples = s.ready_samples ++ record { value = value; arrival = arrival } ∷ [];
}

abbrev pub reading_of : Status → Reading
reading_of status =
    let kv = normalize_key_values status.values in
    record {
      level = status.level;
      values = kv.normalized;
      duplicate_keys = kv.duplicates;
      well_formed = kv.well_formed;
      stamp = status.stamp;
      arrival_wall = status.arrival_wall;
      arrival_ros = status.arrival_ros;
    }

unfoldable pub observe_diagnostic : Config → Status → Hybrid → Hybrid
observe_diagnostic cfg status s =
    if str_eq status.name cfg.diagnostic_name
    then record s { diagnostics = s.diagnostics ++ reading_of status ∷ [] }
    else s

-- The start of the mapping, as a `std_msgs/String`, which is the type that a valid profile asks for.
unfoldable pub observe_mapping_start : String → ℕ → Hybrid → Hybrid
observe_mapping_start text arrival s = record s {
  mapping_starts =
      s.mapping_starts
      ++ record { value = some (strip text); valid = has_text text; arrival = arrival } ∷ [];
}

unfoldable pub observe_timesync_domain : Config → Status → Option Publisher → Hybrid → Hybrid
observe_timesync_domain cfg status publisher s =
    if str_eq status.name cfg.timesync_domain_status_name
    then record s {
      timesync_domains =
          s.timesync_domains ++ record { reading = reading_of status; publisher = publisher } ∷ [];
    }
    else s
