-- ===== src/Response/Examples.antt =====
-- A short flight of the response node under the parameters of config/response.yaml.
use flight_safety.Response.Run.Latch
use flight_safety.Response.Run.Session
use flight_safety.Response.Run.Provenance
use flight_safety.Response.Tick.Branches
use flight_safety.Response.Tick.Admission
use flight_safety.Response.Termination.Grants
use flight_safety.Prelude.{
  All, List, [], false, none, refl, some, true, ◌&&◌, ◌+◌, ◌||◌, ◌∷◌, ◌≡◌, ◌≤◌,
}
use flight_safety.Response.Tick.{
  Clock, actuate, admit, forward, gate_touchdown, owns_vehicle, respond, tick,
}
use flight_safety.Response.Node.{
  Config, FcuState, ImuScale, Node, is_manual, normal_is_fresh, on_normal, on_state, pilot_kill,
  start,
}
use flight_safety.Response.Run.{Event, normal_arrives, run, state_arrives, step, timer}
use flight_safety.Response.Setpoint.{Setpoint, hold_of, local_ned, mask_hold, zero_vector}
use flight_safety.Diagnosis.{Time, plain}
use flight_safety.Response.Termination.{acknowledged, kill_result, request_termination}
use flight_safety.Response.Display.{choose_lane}
use flight_safety.Response.Tick.Branches.{commands_kill, kill_due}
use flight_safety.Prelude.Float.{fin, float_zero}
use flight_safety.Prelude.Int.{pos}

abbrev config : Config
config = record {
  require_armed = true;
  descend = fin (pos 1000);
  normal_timeout = pos 500000000;
  idle_hold_enabled = true;
  estimator = "VRPN";
  manual_mode = "POSCTL";
  kill_channel = 8;
  kill_us = fin (pos 1500);
  allow_external_termination = true;
}

abbrev scale : ImuScale
scale = record { one = pos 1; sqrt = λ v. fin v }

abbrev command : Setpoint
command = record {
  stamp = 7;
  frame = local_ned;
  mask = mask_hold;
  position = (fin (pos 1), fin (pos 2), fin (pos 3));
  velocity = zero_vector;
  acceleration = zero_vector;
  yaw = fin (pos 1);
  yaw_rate = float_zero;
}

abbrev offboard : FcuState
offboard = record { connected = true; armed = true; mode = "OFFBOARD" }

abbrev at : Time → Clock
at t = record { now = t; stamp = t + 1 }

-- Arms in OFFBOARD, hears a Normal command and is admitted.
abbrev takeoff : List Event
takeoff =
    state_arrives 1000000000 offboard
    ∷ normal_arrives 1100000000 command
    ∷ timer (at 1200000000)
    ∷ []

abbrev flying : Node
flying = record (start none) {
  fcu_received = some 1000000000;
  fcu_connected = true;
  armed = true;
  mode = "OFFBOARD";
  normal = some command;
  normal_stamp = 1100000000;
  state_initialized = true;
  offboard_admitted = true;
}

abbrev failing : Node
failing = record flying {
  fault = record { level = 2; names = "geofence" ∷ []; messages = plain "OUTSIDE" ∷ [] };
}

takeoff_admits : (run config scale takeoff (start none)).0.offboard_admitted ≡ true
unfolding run step on_state on_normal hold_of tick gate_touchdown choose_lane pilot_kill is_manual
    respond actuate admit forward normal_is_fresh
takeoff_admits = refl

tick-kill_iff_example :
    commands_kill (tick config (at 1200000000) failing).1 ≡ kill_due config failing
tick-kill_iff_example = Branches.tick-kill_iff config (at 1200000000) failing

failing_is_due : kill_due config failing ≡ true
unfolding kill_due pilot_kill is_manual
failing_is_due = refl

tick-once_example : Branches.actuations (tick config (at 1200000000) flying).1 ≤ 1
tick-once_example = Branches.tick-once config (at 1200000000) flying

abbrev lost : Node
lost = record flying { normal = none; offboard_admitted = false }

abbrev dead : Node
dead = record failing { killed = true }

run-killed_example : Latch.StaysKilled (run config scale takeoff dead)
run-killed_example = Latch.run-killed config scale takeoff dead refl

abbrev shutdown : List Event
shutdown = timer (at 1200000000) ∷ timer (at 1300000000) ∷ []

timer_kills-le_one_example : Latch.timer_kills config scale shutdown failing ≤ 1
timer_kills-le_one_example = Latch.timer_kills-le_one config scale shutdown failing

kills_once : Latch.timer_kills config scale shutdown failing ≡ 1
unfolding Latch.timer_kills step tick gate_touchdown choose_lane pilot_kill is_manual respond
    actuate owns_vehicle
kills_once = refl

step-IsSession_example :
    Session.IsSession
      (Session.heard_after (normal_arrives 5 command) (start none) [])
      (step config scale (normal_arrives 5 command) (start none)).0
step-IsSession_example =
    Session.step-IsSession config scale (normal_arrives 5 command) [] (start none)
      (Provenance.start-IsSession none)

published_stems_from_session_example :
    All
      (Provenance.Justified config (Provenance.session_heard config scale takeoff (start none) []))
      (tick config (at 1700000000) (run config scale takeoff (start none)).0).1
published_stems_from_session_example =
    Provenance.published_stems_from_session config scale none takeoff (at 1700000000)

request_termination_lem_example :
    let (s', sent) = request_termination config 1300000000 (acknowledged false) flying in
    (commands_kill sent ≡ Grants.may_terminate config 1300000000 flying)
    × (s'.killed ≡ (
        flying.killed
        || (Grants.may_terminate config 1300000000 flying && kill_result (acknowledged false))))
    × (s'.termination_busy ≡ flying.termination_busy)
    × (Grants.may_terminate config 1300000000 flying ≡ false → s' ≡ flying)
request_termination_lem_example =
    Grants.request_termination_lem config 1300000000 (acknowledged false) flying

flying_granted : Grants.may_terminate config 1300000000 flying ≡ true
unfolding Grants.may_terminate normal_is_fresh pilot_kill
flying_granted = refl
