-- ===== src/Response/Termination.antt =====
-- `_request_termination` of src/flight_safety/response.py with `MavrosActions.kill` of
-- src/flight_safety/actions.py: the opt-in external force-disarm. The call of the vehicle's service
-- lies between the two halves, and other callbacks may run while it is out.
pub mod Grants
use flight_safety.Prelude.{
  Bool, List, Option, String, [], false, if◌then◌else◌, is_some, none, not, some, true, ◌&&◌, ◌++◌,
  ◌||◌, ◌∷◌,
}
use flight_safety.Response.Node.{Config, Node, is_manual, is_offboard, normal_is_fresh, pilot_kill}
use flight_safety.Response.Tick.{Effect, TriggerResponse, answer, command_kill}
use flight_safety.Diagnosis.{Time, since}
use flight_safety.Prelude.Int.{leb_ℤ, ltb_ℤ, pos}

-- The service's result, or the exception that `kill` catches.
pub data Ack : Type 0 where
  acknowledged : Bool → Ack
  service_exception : Ack

unfoldable pub kill_result : Ack → Bool
kill_result (acknowledged success) = success
kill_result service_exception = false

-- `fresh` of the handler: a state message between 0 and 2 seconds old.
abbrev pub fcu_fresh : Option Time → Time → Bool
fcu_fresh none now = false
fcu_fresh (some t) now = leb_ℤ (pos 0) (since now t) && ltb_ℤ (since now t) (pos 2000000000)

-- The reason of a refusal, or `none` where the kill is sent.
unfoldable pub refusal : Config → Time → Node → Option String
refusal cfg now s =
    if not cfg.allow_external_termination
    then some "external termination disabled"
    else if not (
        fcu_fresh s.fcu_received now
        && (s.fcu_connected
            && (s.armed
                && (is_offboard s.mode
                    && (not (is_manual s) && (s.offboard_admitted && normal_is_fresh cfg s now))))))
    then some "fresh armed OFFBOARD with admitted Normal stream required"
    else if s.killed || (pilot_kill cfg s || s.termination_busy)
    then some "termination already latched or pending"
    else none

abbrev pub on_refusal : Node → Option String → Node × List Effect
on_refusal s (some why) = (s, answer (record { success = false; message = why }) ∷ [])
on_refusal s none = (record s { termination_busy = true }, command_kill ∷ [])

-- Up to the call of the vehicle's service.
unfoldable pub begin_termination : Config → Time → Node → Node × List Effect
unfolding refusal
begin_termination cfg now s = on_refusal s (refusal cfg now s)

abbrev pub verdict_of : Bool → TriggerResponse
verdict_of true = record {
  success = true;
  message = "force-disarm acknowledged; verify armed=false";
}
verdict_of false = record {
  success = false;
  message = "FCU rejected or failed to acknowledge force-disarm";
}

-- From the service's answer on; the `finally` clause clears the busy flag on both paths.
unfoldable pub finish_termination : Ack → Node → Node × List Effect
unfolding kill_result
finish_termination ack s =
    let done = kill_result ack in
    (
      record s { termination_busy = false; killed = s.killed || done },
      answer (verdict_of done) ∷ [],
    )

-- The whole handler, with nothing in between.
unfoldable pub request_termination : Config → Time → Ack → Node → Node × List Effect
unfolding begin_termination finish_termination
request_termination cfg now ack s =
    let (s', sent) = begin_termination cfg now s in
    if is_some (refusal cfg now s)
    then (s', sent)
    else (let (s'', replied) = finish_termination ack s' in (s'', sent ++ replied))
