-- ===== src/Response/Node.antt =====
-- The state of the response node and its subscriptions: `Response` of src/flight_safety/response.py
-- without the timer and the service. A time is when the callback runs.
use flight_safety.Prelude.{
  Bool, List, Option, String, [], false, get_elem?, if◌then◌else◌, is_some, none, not, some, true,
  ℕ, ◌&&◌, ◌||◌,
}
use flight_safety.Touchdown.{Detector, Sample, update}
use flight_safety.Diagnosis.{Duration, Time, ok_level, since}
use flight_safety.Monitor.{Fault}
use flight_safety.Prelude.Float.{Float, fin, ltb_f}
use flight_safety.Touchdown.Attitude.{Quaternion, world_vert}
use flight_safety.Response.Setpoint.{Setpoint, hold_of}
use flight_safety.Prelude.Int.{leb_ℤ, ltb_ℤ, pos, ℤ, ◌*ℤ◌, ◌+ℤ◌}
use flight_safety.Prelude.Text.{str_eq}

pub record Config : Type 0 where
  pub require_armed : Bool
  pub descend : Float
  pub normal_timeout : Duration
  pub idle_hold_enabled : Bool
  pub estimator : String
  pub manual_mode : String
  pub kill_channel : ℕ
  pub kill_us : Float
  pub allow_external_termination : Bool

pub record Node : Type 0 where
  pub fcu_received : Option Time
  pub fcu_connected : Bool
  pub termination_busy : Bool
  pub fault : Fault
  pub armed : Bool
  pub mode : String
  pub rc : List ℕ
  pub normal : Option Setpoint
  pub normal_stamp : Time
  pub idle_hold : Option Setpoint
  pub state_initialized : Bool
  pub offboard_admitted : Bool
  pub killed : Bool
  pub last_manual : Option Time
  pub in_land : Bool
  pub touchdown_fired : Bool
  pub touchdown : Option Detector

-- The state that the constructor leaves; the detector is absent when touchdown is disabled.
abbrev pub start : Option Detector → Node
start detector = record {
  fcu_received = none;
  fcu_connected = false;
  termination_busy = false;
  fault = record { level = ok_level; names = []; messages = [] };
  armed = false;
  mode = "";
  rc = [];
  normal = none;
  normal_stamp = 0;
  idle_hold = none;
  state_initialized = false;
  offboard_admitted = false;
  killed = false;
  last_manual = none;
  in_land = false;
  touchdown_fired = false;
  touchdown = detector;
}

unfoldable pub on_fault : Fault → Node → Node
on_fault m s = record s { fault = m }

unfoldable pub reset_control_session : Node → Node
reset_control_session s = record s {
  normal = none;
  normal_stamp = 0;
  idle_hold = none;
  offboard_admitted = false;
}

-- `mavros_msgs/State`, as far as it is read.
pub record FcuState : Type 0 where
  pub connected : Bool
  pub armed : Bool
  pub mode : String

abbrev pub is_offboard : String → Bool
is_offboard mode = str_eq mode "OFFBOARD"

abbrev pub bool_eq : Bool → Bool → Bool
bool_eq true b = b
bool_eq false b = not b

-- What `_on_state` resets on: an initial armed state, an arming edge, or leaving OFFBOARD.
unfoldable pub ends_session : FcuState → Node → Bool
ends_session m s =
    if not s.state_initialized
    then m.armed
    else not (bool_eq m.armed s.armed) || (is_offboard s.mode && not (is_offboard m.mode))

unfoldable pub on_state : Time → FcuState → Node → Node
unfolding reset_control_session ends_session
on_state now m s =
    let s' = record s {
      fcu_received = some now;
      fcu_connected = m.connected;
      armed = m.armed;
      mode = m.mode;
      state_initialized = true;
    } in
    if ends_session m s then reset_control_session s' else s'

unfoldable pub normal_is_fresh : Config → Node → Time → Bool
normal_is_fresh cfg s now =
    is_some s.normal
    && (leb_ℤ (pos 0) (since now s.normal_stamp)
        && ltb_ℤ (since now s.normal_stamp) cfg.normal_timeout)

unfoldable pub on_rc : List ℕ → Node → Node
on_rc channels s = record s { rc = channels }

abbrev pub or_kept {ℓ} : {A : Type ℓ} → Option A → Option A → Option A
or_kept none old = old
or_kept (some new) old = some new

unfoldable pub on_normal : Time → Setpoint → Node → Node
on_normal now m s = record s {
  normal = some m;
  normal_stamp = now;
  idle_hold = or_kept (hold_of m) s.idle_hold;
}

-- `sensor_msgs/Imu`, and how its integer components are scaled (see Touchdown.Attitude).
pub record Imu : Type 0 where
  pub stamp : Time
  pub orientation : Quaternion
  pub accel : ℤ × ℤ × ℤ
  pub gyro : ℤ × ℤ × ℤ

pub record ImuScale : Type 0 where
  pub one : ℤ
  pub sqrt : ℤ → Float

unfoldable pub sample_of : ImuScale → Imu → Bool → Sample
unfolding world_vert
sample_of scale m in_land = record {
  t = m.stamp;
  vert = fin (world_vert scale.one m.orientation m.accel.0 m.accel.1 m.accel.2);
  gyro_mag = scale.sqrt (m.gyro.0 *ℤ m.gyro.0 +ℤ m.gyro.1 *ℤ m.gyro.1 +ℤ m.gyro.2 *ℤ m.gyro.2);
  in_land = in_land;
}

-- `_on_imu` is subscribed only where the detector exists.
abbrev pub feed_imu : Option Detector → Sample → Node → Node
feed_imu none sample s = s
feed_imu (some d) sample s = record s {
  touchdown = some (update d sample).0;
  touchdown_fired = s.touchdown_fired || (update d sample).1;
}

unfoldable pub on_imu : ImuScale → Imu → Node → Node
on_imu scale m s = feed_imu s.touchdown (sample_of scale m s.in_land) s

-- `_manual`: the pilot owns the vehicle in every named mode but OFFBOARD.
unfoldable pub is_manual : Node → Bool
is_manual s = not (str_eq s.mode "") && not (is_offboard s.mode)

abbrev above : Float → Option ℕ → Bool
above limit none = false
above limit (some v) = ltb_f limit (fin (pos v))

-- `_kill`: the pilot's kill channel is deflected high.
unfoldable pub pilot_kill : Config → Node → Bool
pilot_kill cfg s = above cfg.kill_us (get_elem? s.rc cfg.kill_channel)
