-- ===== src/Recorder/Session.antt =====
-- `_on_state` and whole runs, with theorems about them.
use flight_safety.Recorder.Node.{
  Action, Config, MavrosState, Recorder, spawn, wait_settled, Disk, new_recorder,
}
use flight_safety.Prelude.{
  Bool, List, [], ap, arith, false, is_some, none, not, refl, some, sym, true, ℕ, ◌&&◌, ◌++◌, ◌∙◌,
  ◌∷◌, ◌≡◌, Option, String, All, map,
}
use flight_safety.Recorder.Start.{
  StartAnswers, after_popen, odom_history_start, services_start, start, webcam_start, new_bag,
}
use flight_safety.Recorder.Stop.{
  StopAnswers, stop, Place, Response, after_settle, finalize, interrupt, match_bag_name,
  odom_history_stop, recover_active, stop_process, webcam_stop,
}
use mathlib.Core.List.{append_assoc}
use flight_safety.Prelude.Int.{ℤ}

-- A message of `/mavros/state`, with what the outside answers if it starts or stops a recording.
pub record Message : Type 0 where
  pub state : MavrosState
  pub starting : StartAnswers
  pub stopping : StopAnswers

-- Whether the vehicle is armed now, and was before.
abbrev pub on_edge : Config → Message → Bool → Bool → Recorder → Recorder × List Action
on_edge cfg m true false s = start cfg m.starting (record s { armed = true })
on_edge cfg m false true s = stop cfg m.stopping (record s { armed = false })
on_edge cfg m false false s = (s, [])
on_edge cfg m true true s = (s, [])

unfoldable pub on_state : Config → Message → Recorder → Recorder × List Action
on_state cfg m s =
    on_edge cfg m m.state.is_armed s.armed (record s { last_mavros_state = some m.state })

unfoldable pub run : Config → List Message → Recorder → Recorder × List Action
run cfg [] s = (s, [])
run cfg (m ∷ rest) s =
    let now = on_state cfg m s in let later = run cfg rest now.0 in (later.0, now.1 ++ later.1)

-- The specification: a session begins and ends at the edges of the flag.
pub data Mark : Type 0 where
  began : Mark
  ended : Mark

abbrev pub edges : Bool → List Bool → List Mark
edges flag [] = []
edges false (false ∷ rest) = edges false rest
edges false (true ∷ rest) = began ∷ edges true rest
edges true (true ∷ rest) = edges true rest
edges true (false ∷ rest) = ended ∷ edges false rest

-- What a session's begin and end are among the actions: the new process, and the wait for its end.
abbrev pub mark_of : Action → List Mark
mark_of (spawn cmd) = began ∷ []
mark_of wait_settled = ended ∷ []
mark_of _ = []

unfoldable pub marks : List Action → List Mark
marks [] = []
marks (a ∷ rest) = mark_of a ++ marks rest

marks_nil : marks [] ≡ []
unfolding marks
marks_nil = refl

marks-append : (xs ys : List Action) → marks (xs ++ ys) ≡ marks xs ++ marks ys
unfolding marks
marks-append [] ys = refl
marks-append (a ∷ rest) ys =
    ap (λ later. mark_of a ++ later) (marks-append rest ys)
    ∙ sym (append_assoc (mark_of a) (marks rest) (marks ys))

-- The recorder has a process exactly while it is armed.
pub record IsInStep (s : Recorder) : Type 0 where
  pub in_step : is_some s.proc ≡ s.armed

webcam_start-quiet : (cfg : Config) (s : Recorder) → marks (webcam_start cfg s).1 ≡ []
unfolding marks
webcam_start-quiet cfg s = ground arith

odom_history_start-quiet : (cfg : Config) (s : Recorder) → marks (odom_history_start cfg s).1 ≡ []
unfolding marks
odom_history_start-quiet cfg s = ground arith

services_start-quiet : (cfg : Config) (s : Recorder) → marks (services_start cfg s).1 ≡ []
unfolding services_start
services_start-quiet cfg s =
    let webcam = webcam_start cfg s in
    marks-append webcam.1 (odom_history_start cfg webcam.0).1
    ∙ rw (webcam_start-quiet cfg s) (odom_history_start-quiet cfg webcam.0)

services_start-proc :
    (cfg : Config) (s : Recorder)
    → ((services_start cfg s).0.proc ≡ s.proc) × ((services_start cfg s).0.armed ≡ s.armed)
unfolding services_start
services_start-proc cfg s = ground arith

after_popen_lem :
    (cfg : Config) (w : StartAnswers) (bag : String) (s : Recorder) (pid : ℕ)
    → (marks (after_popen cfg w bag s (some pid)).1 ≡ began ∷ [])
      × (((after_popen cfg w bag s (some pid)).0.proc ≡ some pid)
          × ((after_popen cfg w bag s (some pid)).0.armed ≡ s.armed))
unfolding after_popen marks
after_popen_lem cfg w bag s pid =
    let s' : Recorder = record s {
      cur_bag = some bag;
      proc = some pid;
      disk = w.disk_recording;
      runtime_manifest_active = cfg.manifest_enabled && not w.manifest_raised;
    } in
    (ap (λ later. began ∷ later) (services_start-quiet cfg s'), services_start-proc cfg s')

-- From a recorder without a process, a start whose `Popen` succeeds begins one session.
start_lem :
    (cfg : Config) (w : StartAnswers) (s : Recorder) (pid : ℕ)
    → s.proc ≡ none
    → w.popen ≡ some pid
    → (marks (start cfg w s).1 ≡ began ∷ [])
      × (((start cfg w s).0.proc ≡ some pid) × ((start cfg w s).0.armed ≡ s.armed))
unfolding start
start_lem cfg w s pid idle opened =
    rw (idle, opened) (after_popen_lem cfg w (new_bag cfg w.stamp) s pid)

odom_history_stop-quiet : (cfg : Config) (s : Recorder) → marks (odom_history_stop cfg s).1 ≡ []
unfolding marks
odom_history_stop-quiet cfg s = ground arith

webcam_stop-quiet :
    (cfg : Config) (answered : Option Response) (s : Recorder)
    → marks (webcam_stop cfg answered s).1.0 ≡ []
unfolding marks
webcam_stop-quiet cfg answered s = ground arith

interrupt-quiet : (w : StopAnswers) → marks (interrupt w) ≡ []
unfolding marks
interrupt-quiet w = ground arith

after_settle-quiet : (w : StopAnswers) (settled : Option ℤ) → marks (after_settle w settled).0 ≡ []
unfolding marks
after_settle-quiet w settled = ground arith

finalize-quiet :
    (w : StopAnswers) (code : Option ℤ) (mp4 original : Option String) (p : Place) (s : Recorder)
    → (marks (finalize w code mp4 original p s).1 ≡ [])
      × (((finalize w code mp4 original p s).0.proc ≡ s.proc)
          × ((finalize w code mp4 original p s).0.armed ≡ s.armed))
unfolding finalize marks
finalize-quiet w code mp4 original (none, disk) s = (refl, (refl, refl))
finalize-quiet w code mp4 original (some bag, disk) s = ground arith

stop_process-marks : (w : StopAnswers) (pid : ℕ) → marks (stop_process w (some pid)).0 ≡ ended ∷ []
unfolding stop_process
stop_process-marks w pid =
    let rest = after_settle w w.settled in
    marks-append (interrupt w) (wait_settled ∷ rest.0)
    ∙ rw (interrupt-quiet w)
        (unfold marks in ap (λ later. ended ∷ later) (after_settle-quiet w w.settled))

stopping-armed :
    (cfg : Config) (answered : Option Response) (s : Recorder)
    → (webcam_stop cfg answered (odom_history_stop cfg s).0).0.armed ≡ s.armed
stopping-armed cfg answered s = ground arith

-- A stop of a recorder with a process ends one session.
stop_lem :
    (cfg : Config) (w : StopAnswers) (s : Recorder) (pid : ℕ)
    → s.proc ≡ some pid
    → (marks (stop cfg w s).1 ≡ ended ∷ [])
      × (((stop cfg w s).0.proc ≡ none) × ((stop cfg w s).0.armed ≡ s.armed))
unfolding stop
stop_lem cfg w s pid busy =
    let odom = odom_history_stop cfg s in
    let webcam = webcam_stop cfg w.webcam odom.0 in
    let mp4 = webcam.1.1 in
    let process = stop_process w s.proc in
    let kept = recover_active w.active_rename_allowed s.cur_bag w.disk_left in
    let named = match_bag_name cfg w.match_rename_allowed kept.0 mp4 kept.1 in
    let final = finalize w process.1 mp4 kept.0 named (record webcam.0 { proc = none }) in
    let quiet = finalize-quiet w process.1 mp4 kept.0 named (record webcam.0 { proc = none }) in
    let ending : marks process.0 ≡ ended ∷ [] = rw busy (stop_process-marks w pid) in
    (
      marks-append odom.1 (webcam.1.0 ++ (process.0 ++ final.1))
          ∙ rw (odom_history_stop-quiet cfg s) (
              marks-append webcam.1.0 (process.0 ++ final.1)
              ∙ rw (webcam_stop-quiet cfg w.webcam odom.0)
                  (marks-append process.0 final.1 ∙ rw (ending, quiet.0) refl)),
      (quiet.1.0, quiet.1.1 ∙ stopping-armed cfg w.webcam s),
    )

-- `Popen` gives a process whenever it is asked.
pub record Opens (m : Message) : Type 0 where
  pub pid : ℕ
  pub opened : m.starting.popen ≡ some pid

abbrev edge : Bool → Bool → List Mark
edge false true = began ∷ []
edge true false = ended ∷ []
edge before now = []

edges-edge :
    (before now : Bool) (rest : List Bool)
    → edges before (now ∷ rest) ≡ edge before now ++ edges now rest
edges-edge false false rest = refl
edges-edge false true rest = refl
edges-edge true false rest = refl
edges-edge true true rest = refl

is_some-none : (o : Option ℕ) → is_some o ≡ false → o ≡ none
is_some-none none h = refl
is_some-none (some a) h = absurd (ground (arith, h))

is_some-some : (o : Option ℕ) → is_some o ≡ true → (a : ℕ) × (o ≡ some a)
is_some-some none h = absurd (ground (arith, h))
is_some-some (some a) h = (a, refl)

-- One message makes the edge's marks and leaves the recorder in step.
abbrev EdgeDone : Bool → Bool → Recorder × List Action → Type 0
EdgeDone before now r =
    (marks r.1 ≡ edge before now) × ((is_some r.0.proc ≡ now) × (r.0.armed ≡ now))

on_edge_lem :
    (cfg : Config) (m : Message) (now before : Bool) (s : Recorder)
    → is_some s.proc ≡ before
    → s.armed ≡ before
    → Opens m
    → EdgeDone before now (on_edge cfg m now before s)
on_edge_lem cfg m false false s in_step was opens = (marks_nil, (in_step, was))
on_edge_lem cfg m true true s in_step was opens = (marks_nil, (in_step, was))
on_edge_lem cfg m true false s in_step was opens =
    let started =
      start_lem cfg m.starting (record s { armed = true }) opens.pid (is_some-none s.proc in_step)
        opens.opened in
    (started.0, (ap is_some started.1.0, started.1.1))
on_edge_lem cfg m false true s in_step was opens =
    let busy = is_some-some s.proc in_step in
    let stopped = stop_lem cfg m.stopping (record s { armed = false }) busy.0 busy.1 in
    (stopped.0, (ap is_some stopped.1.0, stopped.1.1))

on_state_lem :
    (cfg : Config) (m : Message) (s : Recorder)
    → IsInStep s
    → Opens m
    → EdgeDone s.armed m.state.is_armed (on_state cfg m s)
unfolding on_state
on_state_lem cfg m s h opens =
    on_edge_lem cfg m m.state.is_armed s.armed (record s { last_mavros_state = some m.state })
      h.in_step refl opens

run_lem :
    (cfg : Config) (ms : List Message) (s : Recorder)
    → IsInStep s
    → All Opens ms
    → marks (run cfg ms s).1 ≡ edges s.armed (map (λ m. m.state.is_armed) ms)
unfolding run
run_lem cfg [] s h opens = marks_nil
run_lem cfg (m ∷ rest) s h (o, os) =
    let now = on_state cfg m s in
    let done = on_state_lem cfg m s h o in
    let next : IsInStep now.0 = record { in_step = done.1.0 ∙ sym done.1.1 } in
    marks-append now.1 (run cfg rest now.0).1
    ∙ rw (done.0, run_lem cfg rest now.0 next os, done.1.1)
        (sym (edges-edge s.armed m.state.is_armed (map (λ m. m.state.is_armed) rest)))

-- Refinement: from the start, whatever the messages and whatever the services, signals and renames
-- come to, as long as `Popen` gives a process, the recorder begins and ends its recordings exactly
-- at the edges of the armed flag, alternately and none skipped.
pub run-edges :
    (cfg : Config) (ms : List Message) (disk : Disk)
    → All Opens ms
    → marks (run cfg ms (new_recorder disk)).1 ≡ edges false (map (λ m. m.state.is_armed) ms)
run-edges cfg ms disk opens = run_lem cfg ms (new_recorder disk) (record { in_step = refl }) opens
