-- ===== src/Manifest/Sidecar.antt =====
-- `RuntimeManifestRecorder`: its document, its background thread and its file. The snapshots, the
-- times and the answers of the file system are arguments.
use flight_safety.Prelude.{
  Bool, List, Option, String, [], false, if◌then◌else◌, is_some, none, not, some, ◌&&◌, ◌++◌, ◌||◌,
  ◌∷◌,
}
use flight_safety.Manifest.Compare.{Compared, compare_snapshots}
use flight_safety.Json.{Fields, Value}
use flight_safety.Recorder.Start.{command}
use flight_safety.Prelude.Text.{insert, str_eq}
use flight_safety.Manifest.Names.{path_for_bag}
use flight_safety.Prelude.Int.{ℤ}

pub data CaptureStatus : Type 0 where
  capturing_start : CaptureStatus
  recording : CaptureStatus
  complete : CaptureStatus
  complete_with_errors : CaptureStatus

-- An entry of `capture_errors`: its time and its message.
abbrev pub CaptureError : Type 0
CaptureError = String × String

-- What `finish` adds to the recorder's section.
pub record Closing : Type 0 where
  pub rosbag_returncode : Option ℤ
  pub webcam_path : Option String
  pub bag_path_before_webcam_rename : String
  pub bag_artifact : Value

pub record Document : Type 0 where
  pub capture_status : CaptureStatus
  pub bag_path_at_arm : String
  pub bag_path_final : Option String
  pub manifest_path : String
  pub arm_time : String
  pub disarm_time : Option String
  pub rosbag_command : List String
  pub closing : Option Closing
  pub start_snapshot : Option Fields
  pub end_snapshot : Option Fields
  pub compared : Option Compared
  pub capture_errors : List CaptureError

-- `is_capturing` says that `self._thread` has begun and not ended. There is one such thread: the
-- recorder finishes a session before it starts the next.
pub record Sidecar : Type 0 where
  pub enabled : Bool
  pub suffix : String
  pub is_capturing : Bool
  pub path : Option String
  pub document : Option Document
  pub disk : List (String × Document)

pub data Result : Type 0 where
  returned : Option String → Result
  raised : Result

-- What a capture meets: the snapshot, or none where it raises, the errors that it records, and
-- whether the file can be written.
pub record Capture : Type 0 where
  pub snapshot : Option Fields
  pub errors : List CaptureError
  pub write_allowed : Bool

-- `_write_atomic`; the temporary file that a failed write may leave is not kept.
abbrev pub write_atomic :
    Bool → String → Document → List (String × Document) → List (String × Document)
write_atomic allowed path d disk = if allowed then insert path d disk else disk

unfoldable pub remove : String → List (String × Document) → List (String × Document)
remove path [] = []
remove path (entry ∷ rest) =
    let others = remove path rest in if str_eq entry.0 path then others else entry ∷ others

abbrev pub new_document : String → String → String → List String → Document
new_document time path bag command = record {
  capture_status = capturing_start;
  bag_path_at_arm = bag;
  bag_path_final = none;
  manifest_path = path;
  arm_time = time;
  disarm_time = none;
  rosbag_command = command;
  closing = none;
  start_snapshot = none;
  end_snapshot = none;
  compared = none;
  capture_errors = [];
}

-- `start`; the thread begins only after the file is written.
unfoldable pub start : String → Bool → String → List String → Sidecar → Sidecar × Result
unfolding path_for_bag
start time allowed bag command s =
    let path = path_for_bag s.suffix bag in
    let d = new_document time path bag command in
    if not s.enabled then (s, returned none) else (
      record s {
        path = some path;
        document = some d;
        disk = write_atomic allowed path d s.disk;
        is_capturing = allowed || s.is_capturing;
      },
      if allowed then returned (some path) else raised,
    )

-- `_error`, for each error in its order.
abbrev pub with_errors : List CaptureError → Document → Document
with_errors errors d = record d { capture_errors = d.capture_errors ++ errors }

-- The document after the snapshot, and the file, which is written only then.
abbrev pub with_start : Option Fields → Document → Document
with_start none d = d
with_start (some v) d = record d { start_snapshot = some v; capture_status = recording }

abbrev pub write_if :
    Option Fields
    → Bool
    → Option String
    → Document
    → List (String × Document)
    → List (String × Document)
write_if (some v) allowed (some path) d disk = write_atomic allowed path d disk
write_if captured allowed path d disk = disk

-- `_capture_start`, the thread's body. An exception ends the thread and nothing else.
abbrev pub captured_start : Capture → Document → Sidecar → Sidecar
captured_start c d s =
    let after = with_start c.snapshot (with_errors c.errors d) in
    record s {
      document = some after;
      disk = write_if c.snapshot c.write_allowed s.path after s.disk;
      is_capturing = false;
    }

unfoldable pub capture_start : Capture → Sidecar → Sidecar
capture_start c s = elim s.document [
  | some d ↦ captured_start c d s
  | none ↦ record s { is_capturing = false }
]

-- `self._thread.join()`: a capture that still runs ends first.
unfoldable pub join_thread : Capture → Sidecar → Sidecar
unfolding capture_start
join_thread c s = if s.is_capturing then capture_start c s else s

-- What `finish` is called with.
pub record FinishCall : Type 0 where
  pub original_bag : String
  pub final_bag : String
  pub rosbag_returncode : Option ℤ
  pub webcam_path : Option String

-- What it meets: the end's capture, the bag's artifact with its errors, and the time.
pub record FinishAnswers : Type 0 where
  pub capture : Capture
  pub artifact : Value
  pub artifact_errors : List CaptureError
  pub time : String
  pub unlink_allowed : Bool

abbrev pub final_status : List CaptureError → CaptureStatus
final_status [] = complete
final_status (e ∷ errors) = complete_with_errors

abbrev pub closed_document : FinishCall → FinishAnswers → String → Fields → Document → Document
closed_document call w path new d =
    let d_errors = with_errors w.artifact_errors (with_errors w.capture.errors d) in
    record d_errors {
      capture_status = final_status d_errors.capture_errors;
      bag_path_final = some call.final_bag;
      manifest_path = path;
      disarm_time = some w.time;
      closing = some record {
        rosbag_returncode = call.rosbag_returncode;
        webcam_path = call.webcam_path;
        bag_path_before_webcam_rename = call.original_bag;
        bag_artifact = w.artifact;
      };
      end_snapshot = some new;
      compared = some (compare_snapshots d.start_snapshot new);
    }

-- `os.unlink` of the old file, where the path has changed; its error is passed over. A document
-- comes with a path.
unfoldable pub drop_old :
    Bool → Option String → String → List (String × Document) → List (String × Document)
unfolding remove
drop_old allowed none path disk = disk
drop_old allowed (some old) path disk =
    if allowed && not (str_eq old path) then remove old disk else disk

abbrev pub written_end : FinishAnswers → String → Document → Sidecar → Sidecar × Result
written_end w path d s =
    if w.capture.write_allowed
    then (
      record s {
        document = some d;
        path = some path;
        disk = drop_old w.unlink_allowed s.path path (insert path d s.disk);
      },
      returned (some path),
    )
    else (record s { document = some d }, raised)

abbrev pub finish_document :
    FinishCall → FinishAnswers → Option Fields → Document → Sidecar → Sidecar × Result
finish_document call w none d s =
    (record s { document = some (with_errors w.capture.errors d) }, raised)
finish_document call w (some new) d s =
    let path = path_for_bag s.suffix call.final_bag in
    written_end w path (closed_document call w path new d) s

abbrev pub finish_joined : FinishCall → FinishAnswers → Sidecar → Sidecar × Result
finish_joined call w s = elim s.document [
  | some d ↦ finish_document call w w.capture.snapshot d s
  | none ↦ (s, returned none)
]

-- `finish`, with what a capture that still runs meets.
unfoldable pub finish : Capture → FinishCall → FinishAnswers → Sidecar → Sidecar × Result
unfolding join_thread drop_old compare_snapshots path_for_bag
finish running call w s =
    if not s.enabled || not (is_some s.document)
    then (s, returned none)
    else finish_joined call w (join_thread running s)
