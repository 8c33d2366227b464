-- ===== src/Pipeline.antt =====
-- The chain from a diagnosis to the vehicle: scripts/diagnosis_node.py publishes a reporter's status
-- in a `/diagnostics` array, scripts/monitor_node.py a fault, and the response node acts on it.
mod Examples
use flight_safety.Prelude.{
  Any, Bool, List, String, [], arith, false, inl, inr, not, refl, some, true, ◌&&◌, ◌||◌, ◌∷◌, ◌≡◌,
  All-trivial, Any-mono, sym, ◌∙◌, ◌≤◌, ◌⊎◌, is_some, none,
}
use flight_safety.Monitor.{Fault, Monitor, NamedStatus, Source, on_diag, worst, mentions}
use flight_safety.Monitor.Worst.{
  IsCapped, RequestsKill, worst-error_iff, worst-le-error, judge-IsFailing,
}
use flight_safety.Diagnosis.Geofence.{run_diag, Geofence}
use flight_safety.Response.Node.{Config, Node, is_manual, on_fault, pilot_kill}
use flight_safety.Diagnosis.{Status, Time, error_level, since}
use flight_safety.Prelude.Text.{eq_refl, find?, lookup}
use flight_safety.Response.Tick.Branches.{kill_due, commands_kill, tick-kill_iff}
use flight_safety.Monitor.Reports.{last_mention, raw_level-on_diag, watched}
use flight_safety.Prelude.Int.{ltb_ℤ}
use flight_safety.Response.Tick.{Clock, tick}
use flight_safety.Diagnosis.Geofence.Totality.{IsReady}
use flight_safety.Diagnosis.Geofence.Walls.{must_kill, run_diag-error_iff}
use mathlib.Core.Path.{subst}

-- One reporter's status as it travels, under its name in the array.
unfoldable pub publish_as : String → Status → NamedStatus
publish_as name s = record { name = name; level = s.level; message = s.message }

-- The fault that the monitor publishes at `t` after an array that arrived at `seen`.
unfoldable pub relay : Time → Time → List NamedStatus → Monitor → Fault
relay seen t sts m = worst (on_diag seen sts m) t

-- The node may act: nothing is latched or switched, the mode is autonomous, and the vehicle armed
-- where that is required.
abbrev pub is_ready_to_act : Config → Node → Bool
is_ready_to_act cfg n =
    not n.killed
    && (not (pilot_kill cfg n) && (not (is_manual n) && (n.armed || not cfg.require_armed)))

on_fault-kill_due :
    (cfg : Config) (f : Fault) (n : Node)
    → is_ready_to_act cfg n ≡ true
    → f.level ≡ error_level
    → kill_due cfg (on_fault f n) ≡ true
unfolding kill_due on_fault is_manual pilot_kill
on_fault-kill_due cfg f n ready e = ground arith

cause :
    (cfg : Config) (f : Fault) (n : Node)
    → kill_due cfg (on_fault f n) ≡ true
    → (n.touchdown_fired ≡ true) ⊎ (error_level ≤ f.level)
unfolding kill_due on_fault
cause cfg f n due = ground arith

sources-on_diag :
    (seen : Time) (sts : List NamedStatus) (m : Monitor) → (on_diag seen sts m).sources ≡ m.sources
unfolding on_diag
sources-on_diag seen sts m = refl

-- `src` is one of the sources.
abbrev pub IsSource : Source → List Source → Type 0
IsSource src = Any (λ s. s ≡ src)

watched-member :
    (sources : List Source) (src : Source)
    → IsSource src sources
    → watched src.name_part sources ≡ true
watched-member [] src here = absurd here
watched-member (s ∷ rest) src (inl e) = ground (arith, e, eq_refl src.name_part)
watched-member (s ∷ rest) src (inr later) = ground (arith, watched-member rest src later)

-- A source of the monitor whose cap is ERROR, and whose last mention in the array has ERROR, makes
-- the relayed fault ERROR until the source's limit has passed.
pub relay-error :
    (m : Monitor) (src : Source) (sts : List NamedStatus) (st : NamedStatus) (seen t : Time)
    → IsSource src m.sources
    → IsCapped m.sources
    → src.max_level ≡ error_level
    → last_mention src.name_part sts ≡ some st
    → st.level ≡ error_level
    → ltb_ℤ src.stale (since t seen) ≡ false
    → (relay seen t sts m).level ≡ error_level
unfolding relay
relay-error m src sts st seen t member caps full last bad in_time =
    let m' = on_diag seen sts m in
    let known = watched-member m.sources src member in
    let raw = raw_level-on_diag m seen t sts src known in
    let asks : RequestsKill m' t src = (
      full,
      judge-IsFailing t src.stale (lookup src.name_part m'.last)
          (ground (arith, raw, last, bad, in_time)),
    ) in
    (worst-error_iff m' t (subst IsCapped (sym (sources-on_diag seen sts m)) caps)).1 (
      subst (λ xs. Any (RequestsKill m' t) xs) (sym (sources-on_diag seen sts m))
        (Any-mono (λ s r e. subst (RequestsKill m' t) (sym e) asks) m.sources
          (All-trivial m.sources) member))

first-mention :
    (name part : String) (s : Status) (rest : List NamedStatus)
    → is_some (find? name part) ≡ true
    → last_mention part rest ≡ none
    → last_mention part (publish_as name s ∷ rest) ≡ some (publish_as name s)
unfolding last_mention mentions publish_as
first-mention name part s rest named alone = rw alone (rw named)

-- From a wall to the vehicle: where the geofence reporter must kill, its report is the last one in
-- the array to mention a watched source whose cap is ERROR, the fault is relayed within that source's limit, and the
-- response node may act, the next tick commands the force-disarm.
pub breach-kills :
    (g : Geofence) (sampled : Time) (name : String) (rest : List NamedStatus) (m : Monitor)
    (src : Source) (seen t : Time) (cfg : Config) (clock : Clock) (n : Node)
    → IsReady g
    → must_kill g sampled ≡ true
    → IsSource src m.sources
    → IsCapped m.sources
    → src.max_level ≡ error_level
    → is_some (find? name src.name_part) ≡ true
    → last_mention src.name_part rest ≡ none
    → ltb_ℤ src.stale (since t seen) ≡ false
    → is_ready_to_act cfg n ≡ true
    → (s : Status) × (run_diag g sampled ≡ some s)
      × (commands_kill (tick cfg clock (on_fault (relay seen t (publish_as name s ∷ rest) m) n)).1
          ≡ true)
unfolding publish_as
breach-kills g sampled name rest m src seen t cfg clock n ready must member caps full named alone
      in_time act =
    let (s, report, level) = run_diag-error_iff g sampled ready in
    let bad : s.level ≡ error_level = ground (arith, level, must) in
    let f = relay seen t (publish_as name s ∷ rest) m in
    let e =
      relay-error m src (publish_as name s ∷ rest) (publish_as name s) seen t member caps full
        (first-mention name src.name_part s rest named alone) bad in_time in
    (s, report, tick-kill_iff cfg clock (on_fault f n) ∙ on_fault-kill_due cfg f n act e)

-- A kill by the timer right after a fault has a cause: a touchdown has been confirmed, or a
-- watched source whose cap is ERROR has gone silent past its limit or reports ERROR.
pub kill_has_source :
    (m : Monitor) (t : Time) (cfg : Config) (clock : Clock) (n : Node)
    → IsCapped m.sources
    → commands_kill (tick cfg clock (on_fault (worst m t) n)).1 ≡ true
    → (n.touchdown_fired ≡ true) ⊎ Any (RequestsKill m t) m.sources
kill_has_source m t cfg clock n caps killed =
    elim (cause cfg (worst m t) n (sym (tick-kill_iff cfg clock _) ∙ killed)) [
      | inl touchdown ↦ inl touchdown
      | inr high ↦ inr ((worst-error_iff m t caps).0 (omega (arith, worst-le-error m t caps, high)))
    ]
