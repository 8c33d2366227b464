-- ===== src/Response/Run.antt =====
-- Runs of the response node: every callback, timer and service call as an event, in any order.
-- Each event is atomic but the termination request, whose two halves are events of their own.
pub mod Latch
pub mod Session
pub mod Provenance
use flight_safety.Response.Termination.{Ack, begin_termination, finish_termination}
use flight_safety.Prelude.{Bool, List, [], false, true, ℕ, ◌++◌, ◌∷◌}
use flight_safety.Response.Tick.{Clock, Effect, tick}
use flight_safety.Response.Node.{
  Config, FcuState, Imu, ImuScale, Node, on_fault, on_imu, on_normal, on_rc, on_state,
}
use flight_safety.Monitor.{Fault}
use flight_safety.Response.Setpoint.{Setpoint}
use flight_safety.Diagnosis.{Time}

pub data Event : Type 0 where
  fault_arrives : Fault → Event
  state_arrives : Time → FcuState → Event
  rc_arrives : List ℕ → Event
  normal_arrives : Time → Setpoint → Event
  imu_arrives : Imu → Event
  timer : Clock → Event
  request : Time → Event
  ack_arrives : Ack → Event

-- An answer of the vehicle that no request waits for does not occur, and changes nothing.
abbrev pub on_ack : Bool → Ack → Node → Node × List Effect
on_ack true ack s = finish_termination ack s
on_ack false ack s = (s, [])

unfoldable pub step : Config → ImuScale → Event → Node → Node × List Effect
step cfg scale (fault_arrives m) s = (on_fault m s, [])
step cfg scale (state_arrives now m) s = (on_state now m s, [])
step cfg scale (rc_arrives channels) s = (on_rc channels s, [])
step cfg scale (normal_arrives now m) s = (on_normal now m s, [])
step cfg scale (imu_arrives m) s = (on_imu scale m s, [])
step cfg scale (timer clock) s = tick cfg clock s
step cfg scale (request now) s = begin_termination cfg now s
step cfg scale (ack_arrives ack) s = on_ack s.termination_busy ack s

unfoldable pub run : Config → ImuScale → List Event → Node → Node × List Effect
run cfg scale [] s = (s, [])
run cfg scale (e ∷ rest) s =
    let (s', sent) = step cfg scale e s in
    let (s'', later) = run cfg scale rest s' in (s'', sent ++ later)
