-- ===== src/Monitor/Examples.antt =====
-- The sources of config/monitor.yaml, a capped one among them.
use flight_safety.Monitor.Worst
use flight_safety.Prelude.{Any, List, [], arith, refl, ◌↔◌, ◌∷◌, ◌≡◌}
use flight_safety.Monitor.{
  Monitor, NamedStatus, Source, find, judge, mentions, note_report, note_reports, on_diag, worst,
}
use flight_safety.Diagnosis.{error_level, plain}
use flight_safety.Prelude.Text.{insert, lookup}
use flight_safety.Prelude.Int.{pos}

abbrev vrpn : Source
vrpn = record { name_part = "pure stream"; stale = pos 3000000000; max_level = 1 }

abbrev fence : Source
fence = record { name_part = "geofence"; stale = pos 3000000000; max_level = 2 }

abbrev watching : Monitor
watching = record {
  sources = vrpn ∷ fence ∷ [];
  last =
      ("pure stream", record { level = 2; message = plain "no data"; stamp = 9900000000 })
      ∷ ("geofence", record { level = 0; message = plain "INSIDE"; stamp = 9900000000 })
      ∷ [];
}

-- test_monitor_caps_vrpn_error_to_land_but_not_local_position_error of test/test_localization_policy.py
capped_to_warn :
    let f = worst watching 10000000000 in (f.level ≡ 1) × (f.names ≡ "pure stream" ∷ [])
unfolding worst find lookup
capped_to_warn = (refl, refl)

worst-error_iff_example :
    ((worst watching 10000000000).level ≡ error_level)
    ↔ Any (Worst.RequestsKill watching 10000000000) watching.sources
worst-error_iff_example =
    Worst.worst-error_iff watching 10000000000 (omega arith, (omega arith, tt))

abbrev array : List NamedStatus
array =
    record { name = "flight_safety_diagnosis: geofence"; level = 2; message = plain "OUTSIDE" } ∷ []

heard_outside : Worst.raw_level (on_diag 10000000000 array watching) 11000000000 fence ≡ 2
unfolding on_diag note_reports note_report mentions insert lookup judge
heard_outside = refl
