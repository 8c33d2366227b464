-- ===== src/Manifest/Examples.antt =====
-- The manifest of one recording, whose bag is renamed at the end.
use flight_safety.Manifest.Finished
use flight_safety.Json.{Fields, field, get, no_fields, object, str}
use flight_safety.Manifest.Sidecar.{
  Capture, FinishAnswers, FinishCall, Sidecar, capture_start, drop_old, finish, join_thread,
  new_document, remove, returned, start,
}
use flight_safety.Prelude.{String, [], false, none, refl, some, true, ◌∷◌, ◌≡◌}
use flight_safety.Manifest.Compare.{all_names, changes, is_changed, names_beside, pick}
use flight_safety.Prelude.Text.{insert, insert_text, is_before, lookup, sorted_texts}
use flight_safety.Manifest.Names.{path_for_bag, without_ending}
use flight_safety.Prelude.Int.{pos}
use flight_safety.Recorder.Paths.{before_extension}
use flight_safety.Json.Exact.{exact_value}

abbrev idle : Sidecar
idle = record {
  enabled = true;
  suffix = ".runtime_manifest.yaml";
  is_capturing = false;
  path = none;
  document = none;
  disk = [];
}

abbrev snapshot : String → Fields
snapshot head = field "fingerprint_sha256" (str head) (
    field "repositories"
      (object (field "planning" (object (field "head" (str head) no_fields)) no_fields)) no_fields)

abbrev at_arm : Capture
at_arm = record {
  snapshot = some (snapshot "a1");
  errors = ("t1", "command failed") ∷ [];
  write_allowed = true;
}

abbrev call : FinishCall
call = record {
  original_bag = "/bags/f.bag";
  final_bag = "/bags/video.bag";
  rosbag_returncode = some (pos 0);
  webcam_path = some "/video.mp4";
}

abbrev at_end : FinishAnswers
at_end = record {
  capture = record { snapshot = some (snapshot "b2"); errors = []; write_allowed = true };
  artifact = object no_fields;
  artifact_errors = [];
  time = "t2";
  unlink_allowed = true;
}

abbrev started : Sidecar
started = (start "t0" true "/bags/f.bag" ("rosbag" ∷ []) idle).0

finish-IsFinished_example :
    ((finish at_arm call at_end started).1 ≡ returned (some "/bags/video.runtime_manifest.yaml"))
    × Finished.IsFinished at_arm call at_end
        (snapshot "b2")
        "/bags/f.runtime_manifest.yaml"
        "/bags/video.runtime_manifest.yaml"
        (finish at_arm call at_end started).0
unfolding path_for_bag without_ending before_extension
finish-IsFinished_example =
    Finished.finish-IsFinished "t0" "/bags/f.bag" ("rosbag" ∷ []) at_arm call at_end (snapshot "b2")
      idle refl refl refl

abbrev begun : Sidecar
begun = record idle {
  is_capturing = true;
  path = some "/bags/f.runtime_manifest.yaml";
  document = some (new_document "t0" "/bags/f.runtime_manifest.yaml" "/bags/f.bag" ("rosbag" ∷ []));
}

finish-capture_start_example :
    finish at_end.capture call at_end (capture_start at_arm begun) ≡ finish at_arm call at_end begun
finish-capture_start_example =
    Finished.finish-capture_start at_arm at_end.capture call at_end
      (new_document "t0" "/bags/f.runtime_manifest.yaml" "/bags/f.bag" ("rosbag" ∷ [])) begun refl
      refl refl

active_path : path_for_bag ".yaml" "/bags/f.bag.active" ≡ "/bags/f.yaml"
unfolding path_for_bag without_ending before_extension
active_path = refl

-- The old file is gone, and the commit is seen to have changed.
old_removed :
    lookup "/bags/f.runtime_manifest.yaml" (finish at_arm call at_end started).0.disk ≡ none
unfolding start finish join_thread capture_start drop_old remove lookup insert path_for_bag
    without_ending before_extension
old_removed = refl

head_changed :
    changes "repositories" "head" (snapshot "a1") (snapshot "b2") ≡ ("planning", true) ∷ []
unfolding changes is_changed pick all_names names_beside sorted_texts insert_text get exact_value
    is_before
head_changed = refl
