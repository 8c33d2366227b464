-- ===== src/Vio/Hybrid/Passed.antt =====
-- Theorems about `HybridImuAccumulator.summarize`.
use flight_safety.Prelude.{
  Bool, Bool-cases, List, String, [], all, arith, get_elem?, inl, inr, not, refl, some, suc, true,
  zero, ℕ, ◌&&◌, ◌||◌, ◌∷◌, ◌≡◌,
}
use flight_safety.Vio.Hybrid.{Config, Hybrid, Reading}
use flight_safety.Vio.Hybrid.Gates.{
  Context, domain_gates, observed, passes, readings, ready_gates, when_required,
}
use flight_safety.Vio.Hybrid.Domain.{domain_measurements, measurements}
use flight_safety.Vio.Hybrid.Ready.{
  counts, first_ready, first_start, is_quiet, mapping_after_stable_ready, no_new_faults,
}
use flight_safety.Vio.Hybrid.Unchanged.{counts-constant}
use flight_safety.Prelude.Text.{eq_iff, str_eq, str_mem}
use flight_safety.Vio.Identity.{uint_at}
use flight_safety.Vio.Hybrid.Late.{IsLate, late_lem}
use flight_safety.Vio.Hybrid.Measured.{IsMeasured, measured_lem}

all_at :
    {A : Type 0} (test : A → Bool) (xs : List A) (i : ℕ) (x : A)
    → all test xs ≡ true
    → get_elem? xs i ≡ some x
    → test x ≡ true
all_at test [] i x h at = absurd (ground (arith, at))
all_at test (y ∷ rest) zero x h at = ground (arith, h, at)
all_at test (y ∷ rest) (suc i) x h at = all_at test rest i x (ground (arith, h)) at

all_mem :
    (test : String → Bool) (xs : List String) (key : String)
    → all test xs ≡ true
    → str_mem key xs ≡ true
    → test key ≡ true
all_mem test [] key h listed = absurd (ground (arith, listed))
all_mem test (x ∷ rest) key h listed = elim (Bool-cases (str_eq x key)) [
  | inl same ↦ rw (← (eq_iff x key).0 same) (ground (arith, h))
  | inr apart ↦ all_mem test rest key (ground (arith, h)) (ground (arith, listed, apart))
]

both : (a b : Bool) → (a && b) ≡ true → (a ≡ true) × (b ≡ true)
both a b h = ground arith

module _ (cfg : Config) (w : Context) (s : Hybrid) (passed : passes cfg w s ≡ true) where
  ready_part : all (λ gate. gate.1) (ready_gates cfg w s) ≡ true
  unfolding passes
  ready_part =
      (both (all (λ gate. gate.1) (ready_gates cfg w s))
        (all (λ gate. gate.1) (domain_gates cfg w s)) passed).0

  domain_part : all (λ gate. gate.1) (domain_gates cfg w s) ≡ true
  unfolding passes
  domain_part =
      (both (all (λ gate. gate.1) (ready_gates cfg w s))
        (all (λ gate. gate.1) (domain_gates cfg w s)) passed).1

  -- If a run passes, then no required fault counter differs between two diagnostics that were taken
  -- since the IMU became ready: each has the count of the first.
  pub passes-constant_counts :
      (key : String) (i : ℕ) (first d : Reading)
      → str_mem key cfg.required_fault_counter_keys ≡ true
      → get_elem? (observed s) 0 ≡ some first
      → get_elem? (observed s) i ≡ some d
      → uint_at key d.values ≡ uint_at key first.values
  unfolding no_new_faults
  passes-constant_counts key i first d required at_0 at_i =
      let keys = cfg.required_fault_counter_keys in
      let gate =
        all_at (λ gate. gate.1) (ready_gates cfg w s) 9
          ("zero_new_fault_counters", no_new_faults keys (observed s)) ready_part refl in
      let quiet : all (λ k. is_quiet (counts k (observed s))) keys ≡ true = ground (arith, gate) in
      counts-constant key (observed s) i first d
        (all_mem (λ k. is_quiet (counts k (observed s))) keys key quiet required) at_0 at_i

  -- If a run passes whose profile requires it, the first start of the mapping arrived at least the
  -- configured time after the first sample that said ready, and no sample from the one to the other
  -- said that the IMU was not ready.
  pub passes-IsLate : cfg.require_mapping_start_after_ready ≡ true → IsLate cfg s
  unfolding mapping_after_stable_ready
  passes-IsLate required =
      let first = first_ready s.ready_samples in
      let gate =
        all_at (λ gate. gate.1) (ready_gates cfg w s) 12
          (
            "mapping_start_after_stable_ready",
            not cfg.require_mapping_start_after_ready
                || mapping_after_stable_ready cfg s.ready_samples (observed s) first
                    s.mapping_starts,
          )
          ready_part refl in
      late_lem cfg s first (first_start s.mapping_starts) refl refl (ground (arith, gate, required))

  -- If a run passes whose profile requires a clock domain, every status of the domain has a
  -- measurement, their numbers count up by one, and each offset is the difference of its two stamps.
  pub passes-IsMeasured : cfg.require_timesync_domain ≡ true → IsMeasured cfg (readings s)
  unfolding domain_measurements
  passes-IsMeasured required =
      let gate =
        all_at (λ gate. gate.1) (domain_gates cfg w s) 2
          (
            "clock_domain_actual_measurements",
            when_required cfg (domain_measurements cfg (readings s)),
          )
          domain_part refl in
      measured_lem cfg (readings s) (measurements (readings s)) refl
        (ground (arith, gate, required))
