-- ===== src/Diagnosis/Liveness/Laws.antt =====
-- Theorems about the report of a watched topic.
use flight_safety.Diagnosis.Liveness.{Liveness, on_msg, run_diag}
use flight_safety.Diagnosis.{Time, add_measurement, error_level, fresh, ok_level, since}
use flight_safety.Prelude.{arith, if◌then◌else◌, is_some, not, ◌&&◌, ◌≡◌}
use flight_safety.Prelude.Int.{ltb_ℤ}

-- Whatever the history, the level is ERROR exactly when a message was seen and the last one is
-- older than the limit, and OK otherwise: a topic that was never seen stays neutral.
pub silence_level :
    (l : Liveness) (now : Time)
    → (run_diag l now).level
      ≡ (if is_some l.last_rx && not (fresh l.last_rx now l.stale) then error_level else ok_level)
unfolding run_diag add_measurement
silence_level l now = ground arith

-- After a message, the topic is alive for as long as the limit, and dead strictly after it.
pub run_diag-on_msg :
    (l : Liveness) (seen now : Time)
    → (run_diag (on_msg seen l) now).level
      ≡ (if ltb_ℤ l.stale (since now seen) then error_level else ok_level)
unfolding run_diag on_msg add_measurement
run_diag-on_msg l seen now = ground arith
