-- ===== src/Response/Tick.antt =====
-- `_tick` of src/flight_safety/response.py: one pass of the mux, with what it sends to the vehicle.
pub mod Branches
pub mod Admission
use flight_safety.Prelude.{
  Bool, List, Option, String, [], if◌then◌else◌, leb, none, not, some, true, ◌&&◌, ◌||◌, ◌∷◌,
}
use flight_safety.Response.Display.{FlightState, choose_lane, flight_state, is_land_lane}
use flight_safety.Response.Node.{Node, is_manual, pilot_kill, normal_is_fresh, Config}
use flight_safety.Response.Setpoint.{Setpoint, land_setpoint, stamped}
use flight_safety.Diagnosis.{Time, error_level, fresh, warn_level}
use flight_safety.Prelude.Int.{pos}

-- The answer of the termination service.
pub record TriggerResponse : Type 0 where
  pub success : Bool
  pub message : String

-- What a tick does outside the node. `command_kill` is `MavrosActions.kill`: its acknowledgement is
-- not read here. `answer` is sent by the service alone.
pub data Effect : Type 0 where
  publish_state : FlightState → Effect
  publish_setpoint : Setpoint → Effect
  command_kill : Effect
  set_mode : String → Effect
  answer : TriggerResponse → Effect

-- The clock at the start of the tick, and when it stamps what it publishes.
pub record Clock : Type 0 where
  pub now : Time
  pub stamp : Time

-- `_to_manual`: at most one request a second.
unfoldable pub to_manual : Config → Time → Node → Node × List Effect
to_manual cfg now s =
    if not (fresh s.last_manual now (pos 1000000000))
    then (record s { last_manual = some now }, set_mode cfg.manual_mode ∷ [])
    else (s, [])

-- Publishing stamps the stored message itself.
abbrev pub forward_normal : Time → Option Setpoint → Node → Node × List Effect
forward_normal stamp none s = (s, [])
forward_normal stamp (some sp) s =
    (record s { normal = some (stamped stamp sp) }, publish_setpoint (stamped stamp sp) ∷ [])

abbrev pub forward_hold : Time → Option Setpoint → Node → Node × List Effect
forward_hold stamp none s = (s, [])
forward_hold stamp (some sp) s =
    (record s { idle_hold = some (stamped stamp sp) }, publish_setpoint (stamped stamp sp) ∷ [])

-- The priority tail: a fresh Normal setpoint, then the idle hold.
unfoldable pub forward : Config → Clock → Bool → Node → Node × List Effect
forward cfg clock normal_fresh s =
    if normal_fresh
    then forward_normal clock.stamp s.normal s
    else if cfg.idle_hold_enabled
    then forward_hold clock.stamp s.idle_hold s
    else (s, [])

-- OFFBOARD is admitted by a fresh Normal setpoint of this session, or handed back.
unfoldable pub admit : Config → Clock → Bool → Node → Node × List Effect
admit cfg clock normal_fresh s =
    if not (is_manual s) && not s.offboard_admitted
    then (if normal_fresh
        then forward cfg clock normal_fresh (record s { offboard_admitted = true })
        else to_manual cfg clock.now s)
    else forward cfg clock normal_fresh s

-- LAND and KILL are the node's to command: autonomous mode, and armed where that is required.
unfoldable pub owns_vehicle : Config → Node → Bool
owns_vehicle cfg s = not (is_manual s) && (s.armed || not cfg.require_armed)

unfoldable pub actuate : Config → Clock → Bool → Node → Node × List Effect
unfolding owns_vehicle
actuate cfg clock normal_fresh s =
    if owns_vehicle cfg s && (leb error_level s.fault.level || s.touchdown_fired)
    then (record s { killed = true }, command_kill ∷ [])
    else if owns_vehicle cfg s && leb warn_level s.fault.level
    then (s, publish_setpoint (stamped clock.stamp (land_setpoint cfg.descend)) ∷ [])
    else admit cfg clock normal_fresh s

-- The touchdown detector listens only while the lane is LAND and the vehicle armed.
unfoldable pub gate_touchdown : Config → Node → Node
gate_touchdown cfg s =
    let landing = is_land_lane (choose_lane cfg s) && s.armed in
    record s { in_land = landing; touchdown_fired = landing && s.touchdown_fired }

unfoldable pub respond : Config → Clock → Bool → Node → Node × List Effect
respond cfg clock normal_fresh s =
    if s.killed || pilot_kill cfg s then (s, []) else actuate cfg clock normal_fresh s

unfoldable pub tick : Config → Clock → Node → Node × List Effect
tick cfg clock s =
    let gated = gate_touchdown cfg s in
    let (s', effects) = respond cfg clock (normal_is_fresh cfg s clock.now) gated in
    (s', publish_state (flight_state cfg gated clock.now) ∷ effects)
