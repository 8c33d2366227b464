-- ===== src/Pipeline/Examples.antt =====
-- Runs of the chain on concrete inputs.
use flight_safety.Prelude.{Any, [], arith, false, inl, none, refl, some, true, ◌∷◌, ◌≡◌, ◌⊎◌}
use flight_safety.Response.Tick.{Clock, actuate, gate_touchdown, owns_vehicle, respond, tick}
use flight_safety.Diagnosis.Geofence.{Geofence, first_bad_axis, run_diag}
use flight_safety.Diagnosis.Geofence.Totality.{IsReady}
use flight_safety.Monitor.{Monitor, Source, find, worst}
use flight_safety.Response.Node.{Node, is_manual, on_fault, pilot_kill, start, Config}
use flight_safety.Monitor.Worst.{RequestsKill}
use flight_safety.Diagnosis.{Status, plain}
use flight_safety.Pipeline.{breach-kills, kill_has_source, publish_as, relay}
use flight_safety.Diagnosis.Geofence.Walls.{breached, escapes_axis, must_kill}
use flight_safety.Response.Tick.Branches.{commands_kill}
use flight_safety.Prelude.Float.{fin}
use flight_safety.Monitor.Reports.{last_mention}
use flight_safety.Prelude.Text.{lookup}
use flight_safety.Prelude.Int.{negsuc, pos}

abbrev outside_fence : Geofence
outside_fence = record {
  box = ("x", fin (negsuc 2499) ∷ fin (pos 2500) ∷ []) ∷ [];
  axes = "x" ∷ [];
  margin = fin (pos 400);
  timeout = pos 500000000;
  fallback_timeout = pos 500000000;
  pos = some (fin (pos 2600), fin (pos 0), fin (pos 0));
  last_rx = some 1000;
  last_fallback_rx = none;
  frame = "odom";
}

outside-IsReady : IsReady outside_fence
unfolding first_bad_axis lookup
outside-IsReady = record { bounded = refl; posed = λ h. refl }

abbrev watched_fence : Source
watched_fence = record { name_part = "geofence"; stale = pos 3000000000; max_level = 2 }

abbrev watcher : Monitor
watcher = record { sources = watched_fence ∷ []; last = [] }

abbrev policy : Config
policy = record {
  require_armed = true;
  descend = fin (pos 1000);
  normal_timeout = pos 500000000;
  idle_hold_enabled = true;
  estimator = "VRPN";
  manual_mode = "POSCTL";
  kill_channel = 8;
  kill_us = fin (pos 1500);
  allow_external_termination = false;
}

abbrev armed_node : Node
armed_node = record (start none) { armed = true; mode = "OFFBOARD"; state_initialized = true }

abbrev pass : Clock
pass = record { now = 4000; stamp = 4001 }

breach-kills_example :
    (s : Status) × (run_diag outside_fence 2000 ≡ some s)
    × (commands_kill
          (tick policy pass (
            on_fault
              (relay 2500 3000 (publish_as "flight_safety_diagnosis: geofence" s ∷ []) watcher)
              armed_node)).1
        ≡ true)
breach-kills_example =
    breach-kills outside_fence 2000 "flight_safety_diagnosis: geofence" [] watcher watched_fence
      2500 3000 policy pass armed_node outside-IsReady
      (unfold must_kill breached escapes_axis lookup in refl) (inl refl) (omega arith, tt) refl refl
      (unfold last_mention in refl) refl (unfold pilot_kill is_manual in refl)

abbrev quiet_watcher : Monitor
quiet_watcher = record {
  sources = watched_fence ∷ [];
  last = ("geofence", record { level = 2; message = plain "OUTSIDE"; stamp = 2500 }) ∷ [];
}

kill_has_source_example :
    (armed_node.touchdown_fired ≡ true)
    ⊎ Any (RequestsKill quiet_watcher 3000) quiet_watcher.sources
kill_has_source_example =
    kill_has_source quiet_watcher 3000 policy pass armed_node (omega arith, tt)
      (unfold tick gate_touchdown respond actuate owns_vehicle pilot_kill is_manual on_fault worst
          find lookup in
        refl)
