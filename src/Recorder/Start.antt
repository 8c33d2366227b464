-- ===== src/Recorder/Start.antt =====
-- `_start`: the recording process, the manifest, and the two trigger services.
use flight_safety.Recorder.Node.{
  Action, Config, Disk, Recorder, spawn, start_manifest, trigger_thread,
}
use flight_safety.Prelude.{
  Bool, List, Option, String, [], if◌then◌else◌, is_some, none, not, some, true, ℕ, ◌&&◌, ◌++◌,
  ◌||◌, ◌∷◌,
}
use flight_safety.Recorder.Paths.{join}
use flight_safety.Prelude.Text.{str_eq, ◌<>◌}

-- What the system answers: whether an old process still runs, the time stamp's text, the new process
-- or an `OSError` of `Popen`, whether the manifest's start raised, and the disk as it then is.
pub record StartAnswers : Type 0 where
  pub running : Bool
  pub stamp : String
  pub popen : Option ℕ
  pub manifest_raised : Bool
  pub disk_recording : Disk

unfoldable pub command : Config → String → List String
command cfg bag =
    ("rosbag" ∷ ("record" ∷ ("-O" ∷ (bag ∷ []))))
    ++ ((if cfg.lz4 then "--lz4" ∷ [] else [])
        ++ (if cfg.record_all
            then "-a" ∷ (if str_eq cfg.exclude "" then [] else "-x" ∷ (cfg.exclude ∷ []))
            else cfg.topics))

abbrev pub webcam_start : Config → Recorder → Recorder × List Action
webcam_start cfg s =
    if not cfg.webcam_enable || s.webcam_on
    then (s, [])
    else (record s { webcam_on = true }, trigger_thread cfg.webcam_start_srv ∷ [])

abbrev pub odom_history_start : Config → Recorder → Recorder × List Action
odom_history_start cfg s =
    if not cfg.odom_history_enable || s.odom_history_on
    then (s, [])
    else (record s { odom_history_on = true }, trigger_thread cfg.odom_history_start_srv ∷ [])

-- The two services, in this order.
unfoldable pub services_start : Config → Recorder → Recorder × List Action
services_start cfg s =
    let webcam = webcam_start cfg s in
    let odom = odom_history_start cfg webcam.0 in (odom.0, webcam.1 ++ odom.1)

-- After `Popen`; without a process the exception leaves `_start`.
unfoldable pub after_popen :
    Config → StartAnswers → String → Recorder → Option ℕ → Recorder × List Action
after_popen cfg w bag s none = (record s { cur_bag = some bag }, spawn (command cfg bag) ∷ [])
after_popen cfg w bag s (some pid) =
    let started = services_start cfg (record s {
      cur_bag = some bag;
      proc = some pid;
      disk = w.disk_recording;
      runtime_manifest_active = cfg.manifest_enabled && not w.manifest_raised;
    }) in
    (started.0, spawn (command cfg bag) ∷ (start_manifest bag (command cfg bag) ∷ started.1))

abbrev pub new_bag : Config → String → String
new_bag cfg stamp = join cfg.bag_dir (cfg.prefix <> ("_" <> (stamp <> ".bag")))

unfoldable pub start : Config → StartAnswers → Recorder → Recorder × List Action
unfolding command services_start after_popen join
start cfg w s =
    if is_some s.proc && w.running
    then (s, [])
    else after_popen cfg w (new_bag cfg w.stamp) s w.popen
