-- ===== src/Response/Display.antt =====
-- The lane of a tick and the `FlightState` message: `_publish_state` of
-- src/flight_safety/response.py.
use flight_safety.Prelude.{Bool, List, String, [], false, if◌then◌else◌, true, ℕ, ◌==◌, ◌||◌, ◌∷◌}
use flight_safety.Diagnosis.{Message, Time, error_level, joined, ok_level, plain, warn_level}
use flight_safety.Response.Node.{Node, is_manual, Config, pilot_kill}
use flight_safety.Prelude.Text.{str_eq, ◌<>◌}
use flight_safety.Monitor.{worst}

pub data Lane : Type 0 where
  normal_lane land_lane kill_lane manual_lane : Lane

-- `_LANE.get(level, "NORMAL")`
abbrev pub lane_of_level : ℕ → Lane
lane_of_level level =
    if level == ok_level
    then normal_lane
    else if level == warn_level
    then land_lane
    else if level == error_level
    then kill_lane
    else normal_lane

unfoldable pub choose_lane : Config → Node → Lane
choose_lane cfg s =
    if pilot_kill cfg s || s.killed
    then kill_lane
    else if is_manual s
    then manual_lane
    else lane_of_level s.fault.level

abbrev pub is_land_lane : Lane → Bool
is_land_lane land_lane = true
is_land_lane _ = false

abbrev pub lane_name : Lane → String
lane_name normal_lane = "NORMAL"
lane_name land_lane = "LAND"
lane_name kill_lane = "KILL"
lane_name manual_lane = "MANUAL"

-- `_RESP`
abbrev pub response_name : Lane → String
response_name normal_lane = ""
response_name land_lane = "land"
response_name kill_lane = "kill"
response_name manual_lane = ""

pub record FlightState : Type 0 where
  pub stamp : Time
  pub level : ℕ
  pub armed : Bool
  pub mode : String
  pub kill_switch : Bool
  pub control_lane : Lane
  pub active_response : String
  pub estimator : String
  pub worst_monitor : String
  pub worst_message : Message
  pub summary : Message

abbrev first_name : List String → String
first_name [] = ""
first_name (n ∷ ns) = n

abbrev first_message : List String → List Message → Message
first_message [] ms = plain ""
first_message (n ∷ ns) [] = plain ""
first_message (n ∷ ns) (m ∷ ms) = m

-- `_LVL.get(level, "?")`
abbrev level_name : ℕ → String
level_name level =
    if level == ok_level
    then "OK"
    else if level == warn_level
    then "WARN"
    else if level == error_level
    then "ERR"
    else "?"

-- `self.mode or "-"`
abbrev mode_text : String → String
mode_text mode = if str_eq mode "" then "-" else mode

abbrev lane_text : Bool → Bool → Bool → Lane → String → String
lane_text kill killed manual lane mode =
    if kill
    then "KILL(pilot)/" <> mode_text mode
    else if killed
    then "KILL(auto)/" <> mode_text mode
    else if manual
    then "MANUAL/" <> mode_text mode
    else mode_text mode <> ("/" <> lane_name lane)

abbrev monitor_text : String → Message → Message
monitor_text worst message =
    if str_eq worst "" then plain "mon OK" else joined (plain (worst <> ": ")) message

unfoldable pub flight_state : Config → Node → Time → FlightState
unfolding choose_lane
flight_state cfg s now =
    let kill = pilot_kill cfg s in
    let lane = choose_lane cfg s in
    let worst = first_name s.fault.names in
    let message = first_message s.fault.names s.fault.messages in
    record {
      stamp = now;
      level = s.fault.level;
      armed = s.armed;
      mode = s.mode;
      kill_switch = kill;
      control_lane = lane;
      active_response = response_name lane;
      estimator = cfg.estimator;
      worst_monitor = worst;
      worst_message = message;
      summary =
          joined
            (plain (
              level_name s.fault.level
              <> (" | "
                  <> (lane_text kill s.killed (is_manual s) lane s.mode
                      <> (" | est " <> (cfg.estimator <> " | "))))))
            (monitor_text worst message);
    }
