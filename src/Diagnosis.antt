-- ===== src/Diagnosis.antt =====
-- src/flight_safety/diagnosis/__init__.py and what the reporters share: severity levels, the
-- rendered texts, the status that a reporter fills, and ROS time.
pub mod Geofence
pub mod Consistency
pub mod Liveness
mod Examples
use flight_safety.Prelude.{
  ℕ, String, ◌≡◌, Bool, true, false, Option, none, some, List, [], ◌∷◌, ◌++◌,
}
use flight_safety.Prelude.Int.{ℤ, sub_ℕ, leb_ℤ}
use flight_safety.Prelude.Float.{Float}

-- `DiagnosticStatus` levels, as the source's checks and messages number them.
abbrev pub ok_level : ℕ
ok_level = 0

abbrev pub warn_level : ℕ
warn_level = 1

abbrev pub error_level : ℕ
error_level = 2

-- A text with the numbers that `%` formats into it.
pub data Message : Type 0 where
  plain : String → Message
  measured : String → Float → String → Message
  timed : String → ℤ → String → Message
  policy_cap : Message → ℕ → ℕ → Message
  joined : Message → Message → Message

pub data Value : Type 0 where
  text : String → Value
  fixed : Float → Value
  seconds : ℤ → Value
  triple : Float → Float → Float → Value

-- `DiagnosticStatusWrapper`, as far as a reporter fills it.
pub record Status : Type 0 where
  pub level : ℕ
  pub message : Message
  pub values : List (String × Value)

abbrev pub optional : String → Option Value → List (String × Value)
optional key none = []
optional key (some v) = (key, v) ∷ []

unfoldable pub add_measurement :
    List (String × Value) → Value → String → Option Value → Option Value → List (String × Value)
add_measurement values value units warn error =
    values
    ++ (("value", value) ∷ ("units", text units) ∷ [])
    ++ optional "warn" warn
    ++ optional "error" error

-- Times and durations are whole nanoseconds, as `rospy` keeps them; a difference is signed.
abbrev pub Time : Type 0
Time = ℕ

abbrev pub Duration : Type 0
Duration = ℤ

abbrev pub since : Time → Time → Duration
since now stamp = sub_ℕ now stamp

-- `last is not None and (now - last).to_sec() <= timeout`
abbrev pub fresh : Option Time → Time → Duration → Bool
fresh none now timeout = false
fresh (some t) now timeout = leb_ℤ (since now t) timeout
