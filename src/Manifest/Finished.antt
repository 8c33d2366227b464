-- ===== src/Manifest/Finished.antt =====
-- Theorems about `finish` and the background capture.
use flight_safety.Json.{Fields}
use flight_safety.Prelude.{
  Bool, Bool-cases, List, Option, String, [], arith, false, inl, inr, none, refl, some, true, ◌++◌,
  ◌∷◌, ◌≡◌, ap, ◌∙◌, is_some, not, ◌||◌, ◌≢◌, ◌⊎◌,
}
use flight_safety.Manifest.Sidecar.{
  Capture, Document, FinishAnswers, FinishCall, Sidecar, capture_start, drop_old, final_status,
  finish, join_thread, remove, returned, start, closed_document, new_document, with_errors,
  with_start, written_end, finish_document, write_if, CaptureError, CaptureStatus, complete,
  complete_with_errors,
}
use flight_safety.Manifest.Compare.{compare_snapshots, Compared}
use flight_safety.Prelude.Text.{eq_iff, lookup, str_eq, insert, lookup-insert_self, lookup-insert}
use flight_safety.Manifest.Names.{path_for_bag}
use flight_safety.Recorder.Start.{command}
use flight_safety.Manifest.Differences.{IsCompared, compare_snapshots-IsCompared}

lookup-remove_other :
    (old path : String) (disk : List (String × Document))
    → str_eq old path ≡ false
    → lookup path (remove old disk) ≡ lookup path disk
unfolding remove lookup
lookup-remove_other old path [] apart = refl
lookup-remove_other old path ((name, d) ∷ rest) apart =
    ground
      (arith, apart, lookup-remove_other old path rest apart, eq_iff name old, eq_iff name path)

lookup-remove_self :
    (path : String) (disk : List (String × Document)) → lookup path (remove path disk) ≡ none
unfolding remove lookup
lookup-remove_self path [] = refl
lookup-remove_self path ((name, d) ∷ rest) = ground (arith, lookup-remove_self path rest)

-- The written file stays when the old one is removed.
lookup-drop_old :
    (allowed : Bool) (old : Option String) (path : String) (disk : List (String × Document))
    → lookup path (drop_old allowed old path disk) ≡ lookup path disk
unfolding drop_old
lookup-drop_old allowed none path disk = refl
lookup-drop_old false (some old) path disk = refl
lookup-drop_old true (some old) path disk = elim (Bool-cases (str_eq old path)) [
  | inl same ↦ rw same refl
  | inr apart ↦ rw apart (lookup-remove_other old path disk apart)
]

-- The old file is there exactly if it was not removed.
is_some-drop_old :
    (allowed : Bool) (old path : String) (disk : List (String × Document))
    → is_some (lookup old disk) ≡ true
    → is_some (lookup old (drop_old allowed (some old) path disk))
      ≡ (not allowed || str_eq old path)
unfolding drop_old
is_some-drop_old false old path disk there = there
is_some-drop_old true old path disk there = elim (Bool-cases (str_eq old path)) [
  | inl same ↦ rw (same, there) refl
  | inr apart ↦ rw (apart, lookup-remove_self old disk) refl
]

is_some-insert :
    (old path : String) (d : Document) (disk : List (String × Document))
    → is_some (lookup old disk) ≡ true
    → is_some (lookup old (insert path d disk)) ≡ true
is_some-insert old path d disk there = ground (arith, there, lookup-insert path old d disk)

-- The thread's write keeps the file of the start.
is_some-write_if :
    (v : Option Fields) (allowed : Bool) (old : String) (d e : Document)
    (disk : List (String × Document))
    → is_some (lookup old (write_if v allowed (some old) d (insert old e disk))) ≡ true
is_some-write_if none allowed old d e disk = ap is_some (lookup-insert_self old e disk)
is_some-write_if (some v) false old d e disk = ap is_some (lookup-insert_self old e disk)
is_some-write_if (some v) true old d e disk =
    ap is_some (lookup-insert_self old d (insert old e disk))

-- While the thread captures for a session, its end may come at any time before the session is
-- finished, or during it: the state, the files and the result are the same.
pub finish-capture_start :
    (running other : Capture) (call : FinishCall) (w : FinishAnswers) (d : Document) (s : Sidecar)
    → s.enabled ≡ true
    → s.is_capturing ≡ true
    → s.document ≡ some d
    → finish other call w (capture_start running s) ≡ finish running call w s
unfolding finish capture_start join_thread
finish-capture_start running other call w d s on capturing there = rw (there, on, capturing) refl

-- A status that says whether there was an error.
abbrev pub HasStatus : List CaptureError → CaptureStatus → Type 0
HasStatus errors status =
    ((errors ≡ []) × (status ≡ complete)) ⊎ ((errors ≢ []) × (status ≡ complete_with_errors))

final_status-HasStatus : (errors : List CaptureError) → HasStatus errors (final_status errors)
final_status-HasStatus [] = inl (refl, refl)
final_status-HasStatus (e ∷ errors) = inr (λ h. ground (arith, h), refl)

-- What the finished manifest holds.
pub record IsFinished (running : Capture) (call : FinishCall) (w : FinishAnswers) (new : Fields)
    (old path : String) (after : Sidecar) : Type 0 where
  pub document : Document
  pub stored : lookup path after.disk ≡ some document
  pub bag : document.bag_path_final ≡ some call.final_bag
  pub began : document.start_snapshot ≡ running.snapshot
  pub ended : document.end_snapshot ≡ some new
  pub compared : Compared
  pub noted : document.compared ≡ some compared
  pub differences : IsCompared running.snapshot new compared
  pub errors : document.capture_errors ≡ (running.errors ++ w.capture.errors) ++ w.artifact_errors
  pub status : HasStatus document.capture_errors document.capture_status
  -- The file of the start stays only where it is the same one, or cannot be removed.
  pub left : is_some (lookup old after.disk) ≡ (not w.unlink_allowed || str_eq old path)

with_start-start_snapshot :
    (v : Option Fields) (d : Document)
    → d.start_snapshot ≡ none
    → (with_start v d).start_snapshot ≡ v
with_start-start_snapshot none d none_yet = none_yet
with_start-start_snapshot (some v) d none_yet = refl

with_start-capture_errors :
    (v : Option Fields) (d : Document) → (with_start v d).capture_errors ≡ d.capture_errors
with_start-capture_errors none d = refl
with_start-capture_errors (some v) d = refl

written_end-IsFinished :
    (running : Capture) (call : FinishCall) (w : FinishAnswers) (new : Fields) (old path : String)
    (d : Document) (s : Sidecar)
    → s.path ≡ some old
    → is_some (lookup old s.disk) ≡ true
    → w.capture.write_allowed ≡ true
    → d.start_snapshot ≡ running.snapshot
    → d.capture_errors ≡ running.errors
    → let ended = written_end w path (closed_document call w path new d) s in
      (ended.1 ≡ returned (some path)) × IsFinished running call w new old path ended.0
written_end-IsFinished running call w new old path d s held there allowed began errors =
    rw allowed (
      refl,
      record {
        document = closed_document call w path new d;
        stored =
            lookup-drop_old w.unlink_allowed s.path path
              (insert path (closed_document call w path new d) s.disk)
            ∙ lookup-insert_self path (closed_document call w path new d) s.disk;
        bag = refl;
        began = began;
        ended = refl;
        compared = compare_snapshots running.snapshot new;
        noted = ap (λ v. some (compare_snapshots v new)) began;
        differences = compare_snapshots-IsCompared running.snapshot new;
        errors = ap (λ v. (v ++ w.capture.errors) ++ w.artifact_errors) errors;
        status = final_status-HasStatus (closed_document call w path new d).capture_errors;
        left = rw held (
            is_some-drop_old w.unlink_allowed old path
              (insert path (closed_document call w path new d) s.disk)
              (is_some-insert old path (closed_document call w path new d) s.disk there));
      },
    )

finish_document-IsFinished :
    (running : Capture) (call : FinishCall) (w : FinishAnswers) (found : Option Fields)
    (new : Fields) (old : String) (d : Document) (s : Sidecar)
    → found ≡ some new
    → s.path ≡ some old
    → is_some (lookup old s.disk) ≡ true
    → w.capture.write_allowed ≡ true
    → d.start_snapshot ≡ running.snapshot
    → d.capture_errors ≡ running.errors
    → let path = path_for_bag s.suffix call.final_bag in
      let ended = finish_document call w found d s in
      (ended.1 ≡ returned (some path)) × IsFinished running call w new old path ended.0
finish_document-IsFinished running call w none new old d s captured held there allowed began
      errors =
    absurd (ground (arith, captured))
finish_document-IsFinished running call w (some v) new old d s captured held there allowed began
      errors =
    let same : v ≡ new = ground (arith, captured) in
    rw same (
      written_end-IsFinished running call w new old (path_for_bag s.suffix call.final_bag) d s held
        there allowed began errors)

-- A session whose start was written, and whose end is captured and can be written, gives the path of
-- the final bag's manifest. The file there has the snapshot of the start that the thread captured
-- (none if that failed), the snapshot of the end, what differs between the two, every error of the
-- captures in order, and a status that says whether there was an error. The file of the start is gone
-- unless it is the same one or cannot be removed.
pub finish-IsFinished :
    (time bag : String) (command : List String) (running : Capture) (call : FinishCall)
    (w : FinishAnswers) (new : Fields) (s : Sidecar)
    → s.enabled ≡ true
    → w.capture.snapshot ≡ some new
    → w.capture.write_allowed ≡ true
    → let path = path_for_bag s.suffix call.final_bag in
      let old = path_for_bag s.suffix bag in
      let ended = finish running call w (start time true bag command s).0 in
      (ended.1 ≡ returned (some path)) × IsFinished running call w new old path ended.0
unfolding finish start join_thread capture_start
finish-IsFinished time bag command running call w new s on captured allowed =
    let d =
      with_errors running.errors (new_document time (path_for_bag s.suffix bag) bag command) in
    rw on (
      finish_document-IsFinished running call w w.capture.snapshot new (path_for_bag s.suffix bag)
        (with_start running.snapshot d) _ captured refl
        (is_some-write_if running.snapshot running.write_allowed (path_for_bag s.suffix bag)
          (with_start running.snapshot d)
          (new_document time (path_for_bag s.suffix bag) bag command) s.disk)
        allowed (with_start-start_snapshot running.snapshot d refl)
        (with_start-capture_errors running.snapshot d))
