-- ===== src/Recorder/Stop.antt =====
-- `_stop`: the services, the signals, and the finalising of the bag.
use flight_safety.Recorder.Node.{
  Action, Config, Disk, Recorder, exists, finish_manifest, int_group, int_process, kill, rename,
  send, term, trigger_sync, wait_settled,
}
use flight_safety.Prelude.{
  Bool, List, Option, String, [], false, if◌then◌else◌, is_some, none, not, some, ℕ, ◌&&◌, ◌++◌,
  ◌||◌, ◌∷◌,
}
use flight_safety.Recorder.Paths.{basename, join, or_whole, search_mp4, stem}
use flight_safety.Prelude.Text.{insert, str_eq, ◌<>◌}
use flight_safety.Prelude.Int.{ℤ}

-- A trigger service's response.
pub record Response : Type 0 where
  pub success : Bool
  pub message : String

-- The answers of the operating system and the services. `none` for a return code is a process that
-- still runs, and for a wait an exception.
pub record StopAnswers : Type 0 where
  pub webcam : Option Response
  pub first_poll : Option ℤ
  pub second_poll : Option ℤ
  pub killpg_raised : Bool
  pub settled : Option ℤ
  pub terminated : Option ℤ
  pub killed : Option ℤ
  -- The disk as the recording process leaves it.
  pub disk_left : Disk
  pub active_rename_allowed : Bool
  pub match_rename_allowed : Bool
  pub marker_allowed : Bool

abbrev pub odom_history_stop : Config → Recorder → Recorder × List Action
odom_history_stop cfg s =
    if not cfg.odom_history_enable || not s.odom_history_on
    then (s, [])
    else (record s { odom_history_on = false }, trigger_sync cfg.odom_history_stop_srv ∷ [])

-- The path in the response, if it is a success.
abbrev pub mp4_of : Option Response → Option String
mp4_of none = none
mp4_of (some r) = if r.success then search_mp4 r.message else none

abbrev pub webcam_stop :
    Config → Option Response → Recorder → Recorder × (List Action × Option String)
webcam_stop cfg answered s =
    if not cfg.webcam_enable || not s.webcam_on
    then (s, ([], none))
    else (record s { webcam_on = false }, (trigger_sync cfg.webcam_stop_srv ∷ [], mp4_of answered))

-- Stopping a process: the actions, and the return code, which a later wait replaces.
abbrev pub interrupt : StopAnswers → List Action
interrupt w =
    if is_some w.second_poll
    then []
    else if w.killpg_raised
    then send int_group ∷ (send int_process ∷ [])
    else send int_group ∷ []

abbrev pub after_kill : StopAnswers → Option ℤ → List Action × Option ℤ
after_kill w (some c) = (send kill ∷ [], some c)
after_kill w none = (send kill ∷ [], w.first_poll)

abbrev pub after_term : StopAnswers → Option ℤ → List Action × Option ℤ
after_term w (some c) = (send term ∷ [], some c)
after_term w none = let last = after_kill w w.killed in (send term ∷ last.0, last.1)

abbrev pub after_settle : StopAnswers → Option ℤ → List Action × Option ℤ
after_settle w (some c) = ([], some c)
after_settle w none = after_term w w.terminated

unfoldable pub stop_process : StopAnswers → Option ℕ → List Action × Option ℤ
stop_process w none = ([], none)
stop_process w (some pid) =
    let rest = after_settle w w.settled in (interrupt w ++ (wait_settled ∷ rest.0), rest.1)

-- The bag's path and the disk, as each step of the finalising leaves them.
abbrev pub Place : Type 0
Place = Option String × Disk

abbrev pub active_path : String → String
active_path bag = bag <> ".active"

abbrev pub recovered : String → Disk → Option Disk → Place
recovered bag disk (some moved) = (some bag, moved)
recovered bag disk none = (some (active_path bag), disk)

-- An unfinalised bag is renamed, or kept under its `.active` name.
unfoldable pub recover_active : Bool → Option String → Disk → Place
unfolding rename
recover_active allowed none disk = (none, disk)
recover_active allowed (some bag) disk =
    if not (exists bag disk) && exists (active_path bag) disk
    then recovered bag disk (rename allowed (active_path bag) bag disk)
    else (some bag, disk)

abbrev pub matched_path : Config → String → String
matched_path cfg mp4 = join cfg.bag_dir (stem (basename mp4) <> ".bag")

abbrev pub renamed : String → String → Disk → Option Disk → Place
renamed bag target disk (some moved) = (some target, moved)
renamed bag target disk none = (some bag, disk)

-- `_match_bag_name`
unfoldable pub match_bag_name : Config → Bool → Option String → Option String → Disk → Place
match_bag_name cfg allowed none mp4 disk = (none, disk)
match_bag_name cfg allowed (some bag) none disk = (some bag, disk)
match_bag_name cfg allowed (some bag) (some mp4) disk =
    let target = matched_path cfg mp4 in
    if not (exists bag disk) || str_eq target bag
    then (some bag, disk)
    else renamed bag target disk (rename allowed bag target disk)

abbrev pub ready_path : String → String
ready_path bag = stem bag <> ".ready"

-- `_mark_ready`; an `OSError` is only logged.
unfoldable pub mark_ready : Bool → String → Disk → Disk
mark_ready allowed bag disk = if allowed then insert (ready_path bag) 0 disk else disk

-- The last part of `_stop`: the manifest, if one was started, and the marker, if there is a bag.
unfoldable pub finalize :
    StopAnswers
    → Option ℤ
    → Option String
    → Option String
    → Place
    → Recorder
    → Recorder × List Action
unfolding mark_ready
finalize w code mp4 original (none, disk) s = (record s { cur_bag = none; disk = disk }, [])
finalize w code mp4 original (some bag, disk) s =
    if exists bag disk
    then (
      record s {
        cur_bag = some bag;
        disk = mark_ready w.marker_allowed bag disk;
        runtime_manifest_active = false;
      },
      if s.runtime_manifest_active
          then finish_manifest (or_whole "" original) bag code mp4 ∷ []
          else [],
    )
    else (record s { cur_bag = some bag; disk = disk }, [])

unfoldable pub stop : Config → StopAnswers → Recorder → Recorder × List Action
unfolding stop_process recover_active match_bag_name finalize
stop cfg w s =
    let odom = odom_history_stop cfg s in
    let webcam = webcam_stop cfg w.webcam odom.0 in
    let mp4 = webcam.1.1 in
    let process = stop_process w s.proc in
    let kept = recover_active w.active_rename_allowed s.cur_bag w.disk_left in
    let named = match_bag_name cfg w.match_rename_allowed kept.0 mp4 kept.1 in
    let final = finalize w process.1 mp4 kept.0 named (record webcam.0 { proc = none }) in
    (final.0, odom.1 ++ (webcam.1.0 ++ (process.0 ++ final.1)))
