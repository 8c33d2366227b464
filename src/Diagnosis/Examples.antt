-- ===== src/Diagnosis/Examples.antt =====
-- The reporters at the limits of config/diagnosis.yaml, in millimetres and nanoseconds.
use flight_safety.Diagnosis.Geofence
use flight_safety.Diagnosis.Liveness
use flight_safety.Diagnosis.Geofence.Totality
use flight_safety.Diagnosis.Geofence.Walls
use flight_safety.Diagnosis.Geofence.Nan
use mathlib.Core.Option
use flight_safety.Diagnosis.Geofence.{Geofence}
use flight_safety.Prelude.Float.{Float, fin, inf, nan, ◌-f◌}
use flight_safety.Diagnosis.Liveness.{Liveness}
use flight_safety.Prelude.{[], is_some, none, refl, some, true, ◌==◌, ◌∷◌, ◌≡◌}
use flight_safety.Diagnosis.{Status, error_level, ok_level}
use flight_safety.Prelude.Text.{lookup}
use flight_safety.Prelude.Int.{negsuc, pos, ℤ, ◌-ℤ◌}

abbrev arena : Geofence.Config
arena = record {
  box =
      ("x", fin (negsuc 2499) ∷ fin (pos 2500) ∷ [])
      ∷ ("y", fin (negsuc 2499) ∷ fin (pos 2500) ∷ [])
      ∷ ("z", fin (negsuc 499) ∷ fin (pos 2000) ∷ [])
      ∷ [];
  enabled_axes = none;
  margin_m = fin (pos 400);
  pose_timeout = pos 500000000;
  fallback_timeout = pos 500000000;
}

abbrev armed_fence : Geofence.Geofence
armed_fence = record {
  box = arena.box;
  axes = Geofence.axis_names;
  margin = fin (pos 400);
  timeout = pos 500000000;
  fallback_timeout = pos 500000000;
  pos = none;
  last_rx = none;
  last_fallback_rx = none;
  frame = "odom";
}

arena_builds : Geofence.init arena ≡ Geofence.built armed_fence
unfolding Geofence.init Geofence.is_axis_set Geofence.first_bad_axis lookup
arena_builds = refl

abbrev at : ℤ → Float → Geofence.Geofence
at x z = record armed_fence { pos = some (fin x, fin (pos 0), z); last_rx = some 1000 }

at-IsReady : (x : ℤ) (z : Float) → Totality.IsReady (at x z)
unfolding Geofence.first_bad_axis lookup
at-IsReady x z = record { bounded = refl; posed = λ h. refl }

reads_inside :
    Option.map (λ s. s.level) (Geofence.run_diag (at (pos 0) (fin (pos 1000))) 2000) ≡ some 0
unfolding Geofence.run_diag Geofence.status Geofence.least_margin Geofence.wall_margin lookup ◌-f◌
    ◌-ℤ◌
reads_inside = refl

reads_outside :
    Option.map (λ s. s.level) (Geofence.run_diag (at (pos 2600) (fin (pos 1000))) 2000) ≡ some 2
unfolding Geofence.run_diag Geofence.status Geofence.least_margin Geofence.wall_margin lookup ◌-f◌
    ◌-ℤ◌
reads_outside = refl

report_never_raises_example :
    is_some (
      Geofence.run_diag
        (Totality.deliver_all (Totality.pose 5 (nan, inf, fin (pos 0)) "" ∷ []) armed_fence)
        7)
    ≡ true
report_never_raises_example =
    Totality.report_never_raises arena armed_fence (Totality.pose 5 (nan, inf, fin (pos 0)) "" ∷ [])
      7 arena_builds

run_diag-error_iff_example :
    (s : Status) × (Geofence.run_diag (at (pos 2600) (fin (pos 0))) 2000 ≡ some s)
    × ((s.level == error_level) ≡ Walls.must_kill (at (pos 2600) (fin (pos 0))) 2000)
run_diag-error_iff_example =
    Walls.run_diag-error_iff (at (pos 2600) (fin (pos 0))) 2000
      (at-IsReady (pos 2600) (fin (pos 0)))

abbrev blind : Geofence.Geofence
blind = record armed_fence { pos = some (nan, nan, nan); last_rx = some 1000 }

blind-IsReady : Totality.IsReady blind
unfolding Geofence.first_bad_axis lookup
blind-IsReady = record { bounded = refl; posed = λ h. refl }

blind_pose_reads_ok_example :
    (s : Status) × (Geofence.run_diag blind 2000 ≡ some s) × (s.level ≡ ok_level)
blind_pose_reads_ok_example =
    Nan.blind_pose_reads_ok blind blind-IsReady 2000 (nan, nan, nan) refl refl
      (unfold Nan.is_blind in refl)

abbrev watch : Liveness.Liveness
watch = record { topic = "/mavros/local_position/pose"; stale = pos 500000000; last_rx = some 0 }

silent : (Liveness.run_diag watch 600000000).level ≡ error_level
unfolding Liveness.run_diag
silent = refl
