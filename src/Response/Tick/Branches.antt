-- ===== src/Response/Tick/Branches.antt =====
-- Theorems about the branches of a tick.
use flight_safety.Prelude.{
  Bool, List, any, arith, false, leb, not, refl, true, ◌&&◌, ◌==◌, ◌||◌, ◌≡◌, keep_if, length, ℕ,
  ◌≤◌,
}
use flight_safety.Response.Tick.{
  Clock, Effect, command_kill, forward, gate_touchdown, to_manual, actuate, admit, owns_vehicle,
  respond, tick, publish_state,
}
use flight_safety.Response.Node.{Config, Node, is_manual, pilot_kill, normal_is_fresh}
use flight_safety.Diagnosis.{Time, error_level, warn_level}
use flight_safety.Response.Display.{choose_lane}

abbrev pub is_kill : Effect → Bool
is_kill command_kill = true
is_kill _ = false

abbrev pub commands_kill : List Effect → Bool
commands_kill = any is_kill

-- Why a tick force-disarms: the node has not killed yet and the pilot's switch is off; the vehicle
-- is in no manual mode, and armed where that is required; and the fault has at least ERROR, or a
-- touchdown is latched while an armed vehicle lands on WARN.
unfoldable pub kill_due : Config → Node → Bool
kill_due cfg s =
    not s.killed
    && (not (pilot_kill cfg s)
        && (not (is_manual s)
            && ((s.armed || not cfg.require_armed)
                && (leb error_level s.fault.level
                    || (s.touchdown_fired && (s.armed && s.fault.level == warn_level))))))

forward-quiet :
    (cfg : Config) (clock : Clock) (b : Bool) (s : Node)
    → commands_kill (forward cfg clock b s).1 ≡ false
unfolding forward
forward-quiet cfg clock b s = ground arith

to_manual-quiet :
    (cfg : Config) (now : Time) (s : Node) → commands_kill (to_manual cfg now s).1 ≡ false
unfolding to_manual
to_manual-quiet cfg now s = ground arith

-- The fields that gating the touchdown detector leaves alone.
module _ (cfg : Config) (s : Node) where
  abbrev gated : Node
  gated = gate_touchdown cfg s

  gate-pilot_kill : pilot_kill cfg gated ≡ pilot_kill cfg s
  unfolding gate_touchdown pilot_kill
  gate-pilot_kill = refl

  pub gate-is_manual : is_manual gated ≡ is_manual s
  unfolding gate_touchdown is_manual
  gate-is_manual = refl

module _ (cfg : Config) (clock : Clock) (b : Bool) (s : Node) where
  pub admit-quiet : commands_kill (admit cfg clock b s).1 ≡ false
  unfolding admit
  admit-quiet = ground (
    arith,
    forward-quiet cfg clock b s,
    forward-quiet cfg clock b (record s { offboard_admitted = true }),
    to_manual-quiet cfg clock.now s,
  )

  actuate-kill :
      commands_kill (actuate cfg clock b s).1
      ≡ (owns_vehicle cfg s && (leb error_level s.fault.level || s.touchdown_fired))
  unfolding actuate
  actuate-kill = ground (arith, admit-quiet)

  respond-kill : commands_kill (respond cfg clock b s).1 ≡ (
      not (s.killed || pilot_kill cfg s)
      && (owns_vehicle cfg s && (leb error_level s.fault.level || s.touchdown_fired)))
  unfolding respond
  respond-kill = ground (arith, actuate-kill)

-- A tick commands the force-disarm exactly when it is due.
pub tick-kill_iff :
    (cfg : Config) (clock : Clock) (s : Node) → commands_kill (tick cfg clock s).1 ≡ kill_due cfg s
unfolding tick kill_due gate_touchdown choose_lane owns_vehicle
tick-kill_iff cfg clock s = ground (
  arith,
  respond-kill cfg clock (normal_is_fresh cfg s clock.now) (gated cfg s),
  gate-pilot_kill cfg s,
  gate-is_manual cfg s,
)

-- A message to the vehicle: everything but the node's own state report.
abbrev pub is_actuation : Effect → Bool
is_actuation (publish_state m) = false
is_actuation _ = true

abbrev pub actuations : List Effect → ℕ
actuations effects = length (keep_if is_actuation effects)

forward-once :
    (cfg : Config) (clock : Clock) (b : Bool) (s : Node) → actuations (forward cfg clock b s).1 ≤ 1
unfolding forward
forward-once cfg clock b s = ground arith

module _ (cfg : Config) (clock : Clock) (b : Bool) (s : Node) where
  admit-once : actuations (admit cfg clock b s).1 ≤ 1
  unfolding admit to_manual
  admit-once = ground (
    arith,
    forward-once cfg clock b s,
    forward-once cfg clock b (record s { offboard_admitted = true }),
  )

  respond-once : actuations (respond cfg clock b s).1 ≤ 1
  unfolding respond actuate
  respond-once = ground (arith, admit-once)

-- A tick sends the vehicle at most one thing: a setpoint, a mode request or the force-disarm.
pub tick-once : (cfg : Config) (clock : Clock) (s : Node) → actuations (tick cfg clock s).1 ≤ 1
unfolding tick
tick-once cfg clock s =
    respond-once cfg clock (normal_is_fresh cfg s clock.now) (gate_touchdown cfg s)
