-- ===== src/Recorder/Examples.antt =====
-- Runs on concrete inputs.
use flight_safety.Recorder.Ready
use flight_safety.Recorder.Session
use flight_safety.Recorder.Orphans.Requeued
use flight_safety.Prelude.{Bool, List, String, [], false, none, refl, some, true, ◌∷◌, ◌≡◌}
use flight_safety.Recorder.Node.{
  Config, MavrosState, Recorder, finish_manifest, int_group, int_process, new_recorder, send, term,
  trigger_sync, wait_settled,
}
use flight_safety.Recorder.Start.{StartAnswers, command}
use flight_safety.Recorder.Stop.{StopAnswers, stop}
use flight_safety.Recorder.Paths.{basename, join, search_mp4, stem, without_bag}
use flight_safety.Prelude.Text.{insert, lookup}
use flight_safety.Prelude.Int.{negsuc}
use flight_safety.Recorder.Orphans.{recover_orphans}

abbrev config : Config
config = record {
  bag_dir = "/work";
  prefix = "safety";
  record_all = false;
  topics = "/imu" ∷ [];
  exclude = "";
  lz4 = true;
  webcam_enable = true;
  webcam_start_srv = "/recorder/start";
  webcam_stop_srv = "/recorder/stop";
  odom_history_enable = false;
  odom_history_start_srv = "/odom/start";
  odom_history_stop_srv = "/odom/stop";
  manifest_enabled = true;
}

mp4_found : search_mp4 "saved to /media/flight_1.mp4 (12 s)" ≡ some "/media/flight_1.mp4"
unfolding search_mp4
mp4_found = refl

stem_taken : stem "/work.d/flight.1.bag" ≡ "/work.d/flight.1"
unfolding stem
stem_taken = refl

hidden_kept : stem "/work.d/.bag" ≡ "/work.d/.bag"
unfolding stem
hidden_kept = refl

command_built :
    command config "/work/a.bag"
    ≡ "rosbag" ∷ ("record" ∷ ("-O" ∷ ("/work/a.bag" ∷ ("--lz4" ∷ ("/imu" ∷ [])))))
unfolding command
command_built = refl

abbrev mavros : Bool → MavrosState
mavros armed = record {
  connected = true;
  is_armed = armed;
  guided = false;
  manual_input = false;
  mode = "OFFBOARD";
  system_status = 4;
}

abbrev starting : StartAnswers
starting = record {
  running = false;
  stamp = "2025";
  popen = some 41;
  manifest_raised = false;
  disk_recording = ("/work/safety_2025.bag.active", 7) ∷ [];
}

-- The process hangs, is terminated, and leaves an unfinished bag; the webcam names its file.
abbrev stopping : StopAnswers
stopping = record {
  webcam = some (record { success = true; message = "saved /media/f1.mp4" });
  first_poll = none;
  second_poll = none;
  killpg_raised = true;
  settled = none;
  terminated = some (negsuc 14);
  killed = none;
  disk_left = ("/work/safety_2025.bag.active", 7) ∷ [];
  active_rename_allowed = true;
  match_rename_allowed = true;
  marker_allowed = true;
}

abbrev flight : List Session.Message
flight =
    record { state = mavros true; starting = starting; stopping = stopping }
    ∷ (record { state = mavros true; starting = starting; stopping = stopping }
        ∷ (record { state = mavros false; starting = starting; stopping = stopping } ∷ []))

abbrev flying : Recorder
flying = record (new_recorder []) {
  proc = some 41;
  cur_bag = some "/work/safety_2025.bag";
  armed = true;
  webcam_on = true;
  runtime_manifest_active = true;
}

flight_signals :
    (stop config stopping flying).1
    ≡ trigger_sync "/recorder/stop"
      ∷ (send int_group
          ∷ (send int_process
              ∷ (wait_settled
                  ∷ (send term
                      ∷ (finish_manifest "/work/safety_2025.bag" "/work/f1.bag"
                            (some (negsuc 14))
                            (some "/media/f1.mp4")
                          ∷ [])))))
unfolding stop lookup insert stem search_mp4 basename join
flight_signals = refl

flight_files :
    (stop config stopping flying).0.disk ≡ ("/work/f1.bag", 7) ∷ (("/work/f1.ready", 0) ∷ [])
unfolding stop lookup insert stem search_mp4 basename join
flight_files = refl

stop-IsMarked_example : Ready.IsMarked 7 (stop config stopping flying).0
unfolding lookup
stop-IsMarked_example =
    Ready.stop-IsMarked config stopping flying "/work/safety_2025.bag" 7 refl refl refl

run-edges_example :
    Session.marks (Session.run config flight (new_recorder [])).1
    ≡ Session.began ∷ (Session.ended ∷ [])
run-edges_example = Session.run-edges config flight [] (
  record { pid = 41; opened = refl },
  (record { pid = 41; opened = refl }, (record { pid = 41; opened = refl }, tt)),
)

abbrev listed : List String
listed = "b.bag" ∷ ("notes.txt" ∷ ("a.bag" ∷ []))

orphans_marked :
    recover_orphans true config (some listed) (("/work/a.synced", 0) ∷ [])
    ≡ ("/work/a.synced", 0) ∷ (("/work/b.ready", 0) ∷ [])
unfolding recover_orphans lookup insert stem join
orphans_marked = refl

recover_orphans-is_marked_example :
    Requeued.is_marked "/work/b" (recover_orphans true config (some listed) []) ≡ true
unfolding without_bag stem join
recover_orphans-is_marked_example =
    Requeued.recover_orphans-is_marked config listed "b.bag" [] refl refl refl

-- A stop at shutdown, long after the flight, marks the bag again that was already transferred.
shutdown_marks_again :
    lookup "/work/f1.ready"
      (stop config
        (record stopping { disk_left = ("/work/f1.bag", 7) ∷ (("/work/f1.synced", 0) ∷ []) })
        (record (new_recorder []) { cur_bag = some "/work/f1.bag" })).0.disk
    ≡ some 0
unfolding stop lookup insert stem
shutdown_marks_again = refl
