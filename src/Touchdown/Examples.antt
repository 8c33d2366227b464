-- ===== src/Touchdown/Examples.antt =====
-- The default thresholds on a descent and an impact of the size that the source reports.
use flight_safety.Touchdown.Fires
use flight_safety.Touchdown.Bursts
use flight_safety.Touchdown.Attitude
use flight_safety.Touchdown.{Detector, Sample, default_detector, feed, is_impact, update}
use flight_safety.Prelude.{List, [], arith, refl, some, true, ◌++◌, ◌∷◌, ◌≡◌, ◌≤◌}
use flight_safety.Diagnosis.{Time}
use flight_safety.Prelude.Float.{fin}
use flight_safety.Prelude.Int.{negsuc, pos, ◌*ℤ◌, ◌+ℤ◌, ◌-ℤ◌, ◌≤ℤ◌}

abbrev descent : Time → Sample
descent t = record { t = t; vert = fin (pos 10700000); gyro_mag = fin (pos 140000); in_land = true }

abbrev impact : Time → Sample
impact t = record { t = t; vert = fin (pos 30000000); gyro_mag = fin (pos 900000); in_land = true }

abbrev landing : List Sample
landing =
    descent 0 ∷ descent 400000000 ∷ impact 500000000 ∷ impact 510000000 ∷ impact 520000000 ∷ []

lands_once : (feed default_detector landing).1 ≡ 1
unfolding feed update
lands_once = refl

abbrev glitch : List Sample
glitch = descent 0 ∷ impact 500000000 ∷ impact 900000000 ∷ []

glitches_ignored : (feed default_detector glitch).1 ≡ 0
unfolding feed update
glitches_ignored = refl

fires_once_example : (feed default_detector landing).1 ≤ 1
fires_once_example =
    Fires.fires_once default_detector landing (refl, (refl, (refl, (refl, (refl, tt)))))

abbrev before_impact : List Sample
before_impact = descent 0 ∷ descent 400000000 ∷ impact 500000000 ∷ []

fired_has_evidence_example :
    default_detector.confirm
    ≤ℤ pos (Fires.evidence default_detector 510000000 (before_impact ++ impact 510000000 ∷ []))
fired_has_evidence_example =
    Fires.fired_has_evidence default_detector before_impact (impact 510000000) refl
      (unfold feed update in refl)

abbrev descending : Detector
descending = record default_detector { land_t0 = some 0 }

in_burst :
    (t : Time)
    → 500000000 ≤ t
    → t ≤ 700000000
    → Bursts.IsBurstSample descending 0 500000000 700000000 (impact t)
unfolding is_impact
in_burst t from to = ground arith

burst_fires_example : (feed descending (impact 500000000 ∷ impact 700000000 ∷ [])).1 ≡ 1
burst_fires_example =
    Bursts.burst_fires 0 500000000 700000000 descending (impact 500000000) (impact 700000000 ∷ [])
      (record { began = refl; unfired = refl })
      (
        in_burst 500000000 (omega arith) (omega arith),
        (in_burst 700000000 (omega arith) (omega arith), tt),
      )
      refl (omega arith)

level_value :
    Attitude.world_vert
      (pos 25)
      (record { x = pos 0; y = pos 0; z = pos 3; w = pos 4 })
      (pos 7)
      (negsuc 3)
      (pos 10)
    ≡ pos 250
unfolding Attitude.world_vert ◌+ℤ◌ ◌-ℤ◌ ◌*ℤ◌
level_value = refl
