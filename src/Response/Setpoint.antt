-- ===== src/Response/Setpoint.antt =====
-- The `PositionTarget` messages of src/flight_safety/response.py. A type mask is the record of its
-- IGNORE bits, and of the frames the code tells only FRAME_LOCAL_NED apart.
use flight_safety.Prelude.{Bool, Option, false, if◌then◌else◌, none, not, some, true, ℕ, ◌&&◌}
use flight_safety.Prelude.Float.{Float, float_zero, neg_f}
use flight_safety.Diagnosis.{Time}

pub record Mask : Type 0 where
  pub px : Bool
  pub py : Bool
  pub pz : Bool
  pub vx : Bool
  pub vy : Bool
  pub vz : Bool
  pub afx : Bool
  pub afy : Bool
  pub afz : Bool
  pub force : Bool
  pub yaw : Bool
  pub yaw_rate : Bool

pub data Frame : Type 0 where
  local_ned : Frame
  other_frame : ℕ → Frame

abbrev pub Vector : Type 0
Vector = Float × Float × Float

pub record Setpoint : Type 0 where
  pub stamp : Time
  pub frame : Frame
  pub mask : Mask
  pub position : Vector
  pub velocity : Vector
  pub acceleration : Vector
  pub yaw : Float
  pub yaw_rate : Float

abbrev pub zero_vector : Vector
zero_vector = (float_zero, float_zero, float_zero)

-- `_MASK_VEL`: velocity and yaw rate are commanded.
abbrev pub mask_vel : Mask
mask_vel = record {
  px = true;
  py = true;
  pz = true;
  vx = false;
  vy = false;
  vz = false;
  afx = true;
  afy = true;
  afz = true;
  force = false;
  yaw = true;
  yaw_rate = false;
}

-- `_MASK_HOLD`: position and yaw are commanded.
abbrev pub mask_hold : Mask
mask_hold = record {
  px = false;
  py = false;
  pz = false;
  vx = true;
  vy = true;
  vz = true;
  afx = true;
  afy = true;
  afz = true;
  force = false;
  yaw = false;
  yaw_rate = true;
}

abbrev pub is_local_ned : Frame → Bool
is_local_ned local_ned = true
is_local_ned (other_frame n) = false

abbrev hold_mask : Bool → Mask
hold_mask ignore_yaw = record mask_hold { yaw = ignore_yaw }

-- The position hold that `_on_normal` latches, where the command carries a local position.
unfoldable pub hold_of : Setpoint → Option Setpoint
hold_of m =
    if not m.mask.px && is_local_ned m.frame
    then some (record {
      stamp = 0;
      frame = local_ned;
      mask = hold_mask m.mask.yaw;
      position = m.position;
      velocity = zero_vector;
      acceleration = zero_vector;
      yaw = (if m.mask.yaw then float_zero else m.yaw);
      yaw_rate = float_zero;
    })
    else none

-- `_land_sp`, with the configured descent speed.
unfoldable pub land_setpoint : Float → Setpoint
land_setpoint descend = record {
  stamp = 0;
  frame = local_ned;
  mask = mask_vel;
  position = zero_vector;
  velocity = (float_zero, float_zero, neg_f descend);
  acceleration = zero_vector;
  yaw = float_zero;
  yaw_rate = float_zero;
}

-- `sp.header.stamp = rospy.Time.now()`
abbrev pub stamped : Time → Setpoint → Setpoint
stamped now sp = record sp { stamp = now }
