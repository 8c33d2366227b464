-- ===== src/Vio/Hybrid/Domain.antt =====
-- The second part of `summarize`: the shared clock of the camera and the flight controller.
use flight_safety.Prelude.{
  Bool, List, Option, String, [], all, false, if◌then◌else◌, leb, length, ltb, map, none, not, some,
  ℕ, ◌&&◌, ◌+◌, ◌==◌, ◌∷◌,
}
use flight_safety.Vio.Hybrid.{Config, Publisher, Reading}
use flight_safety.Vio.Identity.{Dict, has_exact_keys, uint_at, value_of}
use flight_safety.Vio.Hybrid.Ready.{
  all_some, arrivals_of, fresh_at, is_unique, last_of, same_text, stamps_of, steps_within,
}
use flight_safety.Vio.Gates.{distance, is_contiguous, is_filled, is_increasing}
use flight_safety.Prelude.Text.{lookup, str_eq}
use flight_safety.Prelude.Int.{neg_part, negsuc, pos, pos_part, sub_ℕ, ℤ}
use flight_safety.Vio.Texts.{starts_with, strict_int_text, valid_sha256}

abbrev pub domain_source_fields : List String
domain_source_fields =
    "hybrid_imu_node_sha256"
    ∷ ("hybrid_imu_core_sha256"
        ∷ ("d435_launch_sha256"
            ∷ ("mavros_timesync_plugin_sha256"
                ∷ ("publisher_executable_sha256"
                    ∷ ("publisher_source_sha256" ∷ ("publisher_build_manifest_sha256" ∷ []))))))

abbrev pub domain_value_keys : List String
domain_value_keys =
    "schema"
    ∷ ("session_id"
        ∷ ("reset_counter"
            ∷ ("measurement_sequence"
                ∷ ("domain_id"
                    ∷ ("measurement_domain"
                        ∷ ("d435_clock_source"
                            ∷ ("fcu_clock_source"
                                ∷ ("d435_stamp_ns"
                                    ∷ ("fcu_stamp_ns"
                                        ∷ ("measured_offset_ns" ∷ domain_source_fields))))))))))

abbrev pub has_value : Dict → String → String → Bool
has_value d key expected = same_text (lookup key d) (some expected)

unfoldable pub domain_schema : Config → List Reading → Bool
domain_schema cfg xs =
    is_filled xs
    && all
        (λ d.
          is_unique d
          && (has_exact_keys domain_value_keys d.values
              && has_value d.values "schema" cfg.timesync_domain_schema))
        xs

unfoldable pub domain_values : Config → List Reading → Bool
domain_values cfg xs =
    is_filled xs
    && all
        (λ d.
          has_value d.values "domain_id" cfg.required_timesync_domain
          && (has_value d.values "measurement_domain" cfg.required_timesync_domain
              && (has_value d.values "d435_clock_source" cfg.required_d435_clock_source
                  && has_value d.values "fcu_clock_source" cfg.required_fcu_clock_source)))
        xs

-- The expected hash of the role that the field stands for.
abbrev pub hash_of_role : Dict → Option String → Option String
hash_of_role hashes none = none
hash_of_role hashes (some role) = lookup role hashes

abbrev pub expected_hash : Config → Dict → String → Option String
expected_hash cfg hashes field = hash_of_role hashes (lookup field cfg.timesync_source_roles)

abbrev pub same_hash : Option String → Option String → Bool
same_hash (some a) (some b) = valid_sha256 a && (valid_sha256 b && str_eq a b)
same_hash a b = false

unfoldable pub domain_sources : Config → Dict → List Reading → Bool
domain_sources cfg hashes xs =
    is_filled xs
    && all
        (λ d.
          all (λ field. same_hash (lookup field d.values) (expected_hash cfg hashes field))
            domain_source_fields)
        xs

abbrev pub is_absolute : String → Bool
is_absolute path = starts_with path "/"

abbrev pub is_publisher : Option String → Option Publisher → Bool
is_publisher expected none = false
is_publisher expected (some p) =
    not (str_eq p.callerid "")
    && (ltb 0 p.pid
        && (p.local_host_gate
            && (not (str_eq p.uri "")
                && (not (str_eq p.host "")
                    && (is_absolute p.executable_path
                        && (valid_sha256 p.executable_sha256
                            && same_text (some p.executable_sha256) expected))))))

abbrev pub same_publisher : Option Publisher → Option Publisher → Bool
same_publisher (some p) (some q) =
    str_eq p.callerid q.callerid
    && (p.pid == q.pid && (str_eq p.uri q.uri && str_eq p.executable_path q.executable_path))
same_publisher p q = false

abbrev pub one_publisher : List (Option Publisher) → Bool
one_publisher [] = false
one_publisher (p ∷ rest) = all (λ q. same_publisher q p) rest

unfoldable pub domain_runtime_publisher : Config → Dict → List (Option Publisher) → Bool
domain_runtime_publisher cfg hashes ps =
    is_filled ps
    && (all (is_publisher (expected_hash cfg hashes "publisher_executable_sha256")) ps
        && one_publisher ps)

abbrev pub same_count : Option ℕ → ℕ → Bool
same_count none n = false
same_count (some m) n = m == n

abbrev pub session_reset : List String → List ℕ → List Reading → Bool
session_reset (session ∷ []) (reset ∷ []) xs =
    all
      (λ d.
        has_value d.values "session_id" session
        && same_count (uint_at "reset_counter" d.values) reset)
      xs
session_reset sessions resets xs = false

unfoldable pub domain_session_reset : List String → List ℕ → List Reading → Bool
domain_session_reset sessions resets xs = is_filled xs && session_reset sessions resets xs

-- The numbers of one measurement.
pub record Measurement : Type 0 where
  pub sequence : ℕ
  pub d435 : ℕ
  pub fcu : ℕ
  pub offset : ℤ

abbrev pub measurement : Option ℕ → Option ℕ → Option ℕ → Option ℤ → Option Measurement
measurement (some sequence) (some d435) (some fcu) (some offset) =
    some (record { sequence = sequence; d435 = d435; fcu = fcu; offset = offset })
measurement sequence d435 fcu offset = none

abbrev pub int_at : String → Dict → Option ℤ
int_at key d = strict_int_text (value_of (lookup key d))

unfoldable pub measure : Reading → Option Measurement
measure d =
    measurement (uint_at "measurement_sequence" d.values) (uint_at "d435_stamp_ns" d.values)
      (uint_at "fcu_stamp_ns" d.values) (int_at "measured_offset_ns" d.values)

unfoldable pub measurements : List Reading → Option (List Measurement)
unfolding all_some
measurements xs = all_some (map measure xs)

abbrev pub eq_ℤ : ℤ → ℤ → Bool
eq_ℤ (pos a) (pos b) = a == b
eq_ℤ (negsuc a) (negsuc b) = a == b
eq_ℤ a b = false

abbrev pub magnitude : ℤ → ℕ
magnitude a = pos_part a + neg_part a

abbrev pub are_measurements : Config → Option (List Measurement) → Bool
are_measurements cfg none = false
are_measurements cfg (some ms) =
    all (λ m. ltb 0 m.d435 && ltb 0 m.fcu) ms
    && (is_contiguous (map (λ m. m.sequence) ms)
        && (is_increasing (map (λ m. m.d435) ms)
            && (is_increasing (map (λ m. m.fcu) ms)
                && (all (λ m. eq_ℤ m.offset (sub_ℕ m.d435 m.fcu)) ms
                    && all (λ m. leb (magnitude m.offset) cfg.timesync_max_abs_offset) ms))))

unfoldable pub domain_measurements : Config → List Reading → Bool
domain_measurements cfg xs = is_filled xs && are_measurements cfg (measurements xs)

abbrev pub later_of : ℕ → ℕ → ℕ
later_of a b = if leb a b then b else a

abbrev pub stamp_fresh : ℕ → ℕ → Option ℕ → Option ℕ → Bool
stamp_fresh limit stamp (some d435) (some fcu) = leb (distance stamp (later_of d435 fcu)) limit
stamp_fresh limit stamp d435 fcu = false

unfoldable pub domain_measurement_freshness : Config → List Reading → Bool
domain_measurement_freshness cfg xs =
    is_filled xs
    && all
        (λ d.
          stamp_fresh cfg.timesync_measurement_max_age d.stamp (uint_at "d435_stamp_ns" d.values)
            (uint_at "fcu_stamp_ns" d.values))
        xs

unfoldable pub domain_runtime : Config → ℕ → List Reading → Bool
domain_runtime cfg now xs =
    leb 2 (length xs)
    && (all (λ d. d.level == 0 && ltb 0 d.stamp) xs
        && (is_increasing (stamps_of xs)
            && (steps_within cfg.diagnostic_max_gap (arrivals_of xs)
                && (all (λ d. leb (distance d.arrival_ros d.stamp) cfg.diagnostic_max_idle) xs
                    && fresh_at cfg.diagnostic_max_idle now (last_of (arrivals_of xs))))))
