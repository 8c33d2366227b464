-- ===== src/Diagnosis/Liveness.antt =====
-- src/flight_safety/diagnosis/liveness.py: silence of a topic that does not report on itself.
pub mod Laws
use flight_safety.Prelude.{String, Option, none, some, List, [], ◌∷◌, if◌then◌else◌}
use flight_safety.Prelude.Int.{ltb_ℤ}
use flight_safety.Diagnosis.{
  ok_level, error_level, plain, timed, Value, text, seconds, Status, add_measurement, Time,
  Duration, since, measured,
}

pub record Liveness : Type 0 where
  pub topic : String
  pub stale : Duration
  pub last_rx : Option Time

unfoldable pub on_msg : Time → Liveness → Liveness
on_msg now l = record l { last_rx = some now }

abbrev report : Liveness → Option Time → Time → List (String × Value) → Status
report l none now values = record {
  level = ok_level;
  message = plain "no msg yet (neutral)";
  values = values;
}
report l (some t) now values =
    let age = since now t in
    let measured = add_measurement values (seconds age) "s" none (some (seconds l.stale)) in
    if ltb_ℤ l.stale age
    then record { level = error_level; message = timed "DEAD: no msg " age "s"; values = measured }
    else record { level = ok_level; message = timed "alive (" age "s)"; values = measured }

unfoldable pub run_diag : Liveness → Time → Status
run_diag l now = report l l.last_rx now (("topic", text l.topic) ∷ [])
