-- ===== src/Diagnosis/Consistency.antt =====
-- src/flight_safety/diagnosis/consistency.py: agreement of VRPN and local_position. The matched
-- pair comes from `message_filters`; `math.sqrt` is an argument.
pub mod Laws
use flight_safety.Prelude.{Option, none, some, [], if◌then◌else◌}
use flight_safety.Prelude.Float.{Float, float_zero, ltb_f, ◌+f◌, ◌-f◌, square}
use flight_safety.Prelude.Int.{ltb_ℤ}
use flight_safety.Diagnosis.{
  ok_level, warn_level, error_level, plain, measured, timed, fixed, Status, add_measurement, Time,
  Duration, since,
}

pub record Consistency : Type 0 where
  pub pair_timeout : Duration
  pub warn : Float
  pub error : Float
  pub err : Float
  pub last_pair : Option Time

abbrev pub Point : Type 0
Point = Float × Float × Float

-- `math.sqrt(sum((x - y) ** 2 for x, y in zip(pa, pb)))`
unfoldable pub pair_error : (Float → Float) → Point → Point → Float
pair_error sqrt a b =
    sqrt (float_zero +f square (a.0 -f b.0) +f square (a.1 -f b.1) +f square (a.2 -f b.2))

unfoldable pub on_pair : (Float → Float) → Time → Point → Point → Consistency → Consistency
unfolding pair_error
on_pair sqrt now a b c = record c { err = pair_error sqrt a b; last_pair = some now }

abbrev graded : Consistency → Status
graded c =
    let values =
      add_measurement [] (fixed c.err) "m" (some (fixed c.warn)) (some (fixed c.error)) in
    if ltb_f c.error c.err
    then record { level = error_level; message = measured "MISMATCH " c.err "m"; values = values }
    else if ltb_f c.warn c.err
    then record { level = warn_level; message = measured "diff " c.err "m"; values = values }
    else record { level = ok_level; message = measured "match (" c.err "m)"; values = values }

abbrev report : Consistency → Option Time → Time → Status
report c none now = record {
  level = warn_level;
  message = plain "no synced pairs (cannot cross-check)";
  values = [];
}
report c (some t) now =
    if ltb_ℤ c.pair_timeout (since now t)
    then record {
      level = warn_level;
      message = timed "stale: no pair " (since now t) "s";
      values = [];
    }
    else graded c

unfoldable pub run_diag : Consistency → Time → Status
run_diag c now = report c c.last_pair now
