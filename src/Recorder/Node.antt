-- ===== src/Recorder/Node.antt =====
-- The recorder's configuration, state and file system, and what it does to the outside.
use flight_safety.Prelude.{
  Bool, List, Option, String, [], false, if◌then◌else◌, is_some, none, some, ℕ, ◌∷◌,
}
use flight_safety.Prelude.Text.{insert, lookup, str_eq}
use flight_safety.Prelude.Int.{ℤ}

-- `mavros_msgs/State`, as `_mavros_state_dict` projects it.
pub record MavrosState : Type 0 where
  pub connected : Bool
  pub is_armed : Bool
  pub guided : Bool
  pub manual_input : Bool
  pub mode : String
  pub system_status : ℕ

pub record Config : Type 0 where
  pub bag_dir : String
  pub prefix : String
  pub record_all : Bool
  pub topics : List String
  pub exclude : String
  pub lz4 : Bool
  pub webcam_enable : Bool
  pub webcam_start_srv : String
  pub webcam_stop_srv : String
  pub odom_history_enable : Bool
  pub odom_history_start_srv : String
  pub odom_history_stop_srv : String
  pub manifest_enabled : Bool

-- The files by path; the number stands for the content.
abbrev pub Disk : Type 0
Disk = List (String × ℕ)

abbrev pub exists : String → Disk → Bool
exists path disk = is_some (lookup path disk)

unfoldable pub unlink : String → Disk → Disk
unlink path [] = []
unlink path (entry ∷ rest) =
    let others = unlink path rest in if str_eq entry.0 path then others else entry ∷ others

abbrev pub move : String → String → Option ℕ → Disk → Option Disk
move old new none disk = none
move old new (some content) disk = some (insert new content (unlink old disk))

-- `os.rename`, which replaces the target; `none` is the `OSError`. The flag is the system's answer.
unfoldable pub rename : Bool → String → String → Disk → Option Disk
unfolding unlink
rename allowed old new disk = if allowed then move old new (lookup old disk) disk else none

pub record Recorder : Type 0 where
  -- The process that `Popen` gave.
  pub proc : Option ℕ
  pub cur_bag : Option String
  pub armed : Bool
  pub last_mavros_state : Option MavrosState
  pub webcam_on : Bool
  pub odom_history_on : Bool
  pub runtime_manifest_active : Bool
  pub disk : Disk

pub data Signal : Type 0 where
  -- SIGINT to the process group, and to the process alone.
  int_group : Signal
  int_process : Signal
  term : Signal
  kill : Signal

pub data Action : Type 0 where
  spawn : List String → Action
  -- `Popen.wait` with the settling time.
  wait_settled : Action
  send : Signal → Action
  -- A trigger service in a thread, and one that is waited for.
  trigger_thread : String → Action
  trigger_sync : String → Action
  start_manifest : String → List String → Action
  finish_manifest : String → String → Option ℤ → Option String → Action

-- `__init__`, before the orphans are looked for.
abbrev pub new_recorder : Disk → Recorder
new_recorder disk = record {
  proc = none;
  cur_bag = none;
  armed = false;
  last_mavros_state = none;
  webcam_on = false;
  odom_history_on = false;
  runtime_manifest_active = false;
  disk = disk;
}
