-- ===== src/Response/Run/Provenance.antt =====
-- Theorems about the published setpoints over runs.
use flight_safety.Prelude.{
  All, Any, Bool, Bool-cases, List, Option, false, inl, inr, none, refl, some, true, ◌≡◌, ◌⊎◌, not,
  ◌&&◌, [], if◌then◌else◌, leb, ◌||◌, ◌∷◌,
}
use flight_safety.Response.Tick.{
  Clock, Effect, forward, forward_hold, forward_normal, publish_setpoint, admit, to_manual, actuate,
  command_kill, gate_touchdown, owns_vehicle, respond, tick,
}
use flight_safety.Response.Node.{
  Config, Node, is_manual, normal_is_fresh, pilot_kill, ImuScale, start,
}
use flight_safety.Prelude.Float.{Float}
use flight_safety.Response.Run.Session.{
  IsSession, unstamped, gate-IsSession, heard_after, step-IsSession,
}
use flight_safety.Response.Setpoint.{Setpoint, hold_of, land_setpoint, stamped}
use flight_safety.Diagnosis.{Time, fresh, error_level, warn_level}
use flight_safety.Prelude.Int.{pos}
use flight_safety.Touchdown.{recent, Detector}
use flight_safety.Response.Run.{Event, run, step}

-- The setpoint is the descent, or a Normal command of the session, or the position hold of one;
-- its publication time aside.
abbrev pub IsJustified : Config → List Setpoint → Setpoint → Type 0
IsJustified cfg heard sp =
    (stamped 0 sp ≡ land_setpoint cfg.descend)
    ⊎ (Any (λ h. stamped 0 h ≡ stamped 0 sp) heard
        ⊎ Any (λ h. hold_of h ≡ some (stamped 0 sp)) heard)

abbrev pub Justified : Config → List Setpoint → Effect → Type 0
Justified cfg heard (publish_setpoint sp) = IsJustified cfg heard sp
Justified cfg heard _ = Unit

-- The part of a session that forwarding relies on.
record StemsFrom (heard : List Setpoint) (s : Node) : Type 0 where
  pub normal_heard :
      (sp : Setpoint) → unstamped s.normal ≡ some sp → Any (λ h. stamped 0 h ≡ sp) heard
  pub hold_heard :
      (sp : Setpoint) → unstamped s.idle_hold ≡ some sp → Any (λ h. hold_of h ≡ some sp) heard

stems : {heard : List Setpoint} {s : Node} → IsSession heard s → StemsFrom heard s
stems inv = record { normal_heard = inv.normal_heard; hold_heard = inv.hold_heard }

stems-admitted :
    {heard : List Setpoint} {s : Node}
    → IsSession heard s
    → StemsFrom heard (record s { offboard_admitted = true })
stems-admitted inv = record { normal_heard = inv.normal_heard; hold_heard = inv.hold_heard }

pub land_setpoint-unstamped :
    (v : Float) (t : Time) → stamped 0 (stamped t (land_setpoint v)) ≡ land_setpoint v
unfolding land_setpoint
land_setpoint-unstamped v t = refl

module _ (cfg : Config) (clock : Clock) (heard : List Setpoint) where
  forward_normal-Justified :
      (s : Node) (o : Option Setpoint)
      → ((sp : Setpoint) → unstamped o ≡ some sp → Any (λ h. stamped 0 h ≡ sp) heard)
      → All (Justified cfg heard) (forward_normal clock.stamp o s).1
  forward_normal-Justified s none h = tt
  forward_normal-Justified s (some sp) h = (inr (inl (h (stamped 0 sp) refl)), tt)

  forward_hold-Justified :
      (s : Node) (o : Option Setpoint)
      → ((sp : Setpoint) → unstamped o ≡ some sp → Any (λ h. hold_of h ≡ some sp) heard)
      → All (Justified cfg heard) (forward_hold clock.stamp o s).1
  forward_hold-Justified s none h = tt
  forward_hold-Justified s (some sp) h = (inr (inr (h (stamped 0 sp) refl)), tt)

  forward-Justified :
      (b : Bool) (s : Node)
      → StemsFrom heard s
      → All (Justified cfg heard) (forward cfg clock b s).1
  unfolding forward
  forward-Justified true s inv = forward_normal-Justified s s.normal inv.normal_heard
  forward-Justified false s inv = elim (Bool-cases cfg.idle_hold_enabled) [
    | inl on ↦ rw on (forward_hold-Justified s s.idle_hold inv.hold_heard)
    | inr off ↦ rw off tt
  ]

  to_manual-Justified : (s : Node) → All (Justified cfg heard) (to_manual cfg clock.now s).1
  unfolding to_manual
  to_manual-Justified s = elim (Bool-cases (fresh s.last_manual clock.now (pos 1000000000))) [
    | inl recent ↦ rw recent tt
    | inr old ↦ rw old (tt, tt)
  ]

  admit-Justified :
      (b : Bool) (s : Node) → IsSession heard s → All (Justified cfg heard) (admit cfg clock b s).1
  unfolding admit
  admit-Justified b s inv = elim (Bool-cases (not (is_manual s) && not s.offboard_admitted)) [
    | inl closed ↦ rw closed (open_or_return b)
    | inr opened ↦ rw opened (forward-Justified b s (stems inv))
  ]
    where
      open_or_return :
          (fresh_normal : Bool)
          → All
              (Justified cfg heard)
              (if fresh_normal
                then forward cfg clock fresh_normal (record s { offboard_admitted = true })
                else to_manual cfg clock.now s).1
      open_or_return true = forward-Justified true _ (stems-admitted inv)
      open_or_return false = to_manual-Justified s

  land-Justified : IsJustified cfg heard (stamped clock.stamp (land_setpoint cfg.descend))
  land-Justified = inl (land_setpoint-unstamped cfg.descend clock.stamp)

  actuate-Justified :
      (b : Bool) (s : Node)
      → IsSession heard s
      → All (Justified cfg heard) (actuate cfg clock b s).1
  unfolding actuate
  actuate-Justified b s inv =
      choose (owns_vehicle cfg s && (leb error_level s.fault.level || s.touchdown_fired))
        (owns_vehicle cfg s && leb warn_level s.fault.level)
    where
      choose :
          (kill land : Bool)
          → All
              (Justified cfg heard)
              (if kill
                then (record s { killed = true }, command_kill ∷ [])
                else if land
                then (s, publish_setpoint (stamped clock.stamp (land_setpoint cfg.descend)) ∷ [])
                else admit cfg clock b s).1
      choose true land = (tt, tt)
      choose false true = (land-Justified, tt)
      choose false false = admit-Justified b s inv

  respond-Justified :
      (b : Bool) (s : Node)
      → IsSession heard s
      → All (Justified cfg heard) (respond cfg clock b s).1
  unfolding respond
  respond-Justified b s inv = elim (Bool-cases (s.killed || pilot_kill cfg s)) [
    | inl dead ↦ rw dead tt
    | inr alive ↦ rw alive (actuate-Justified b s inv)
  ]

-- In a session, every setpoint that a tick publishes is the descent, a Normal command heard in that
-- session, or the position hold of one: nothing of an earlier session is ever forwarded.
pub tick-Justified :
    (cfg : Config) (clock : Clock) (heard : List Setpoint) (s : Node)
    → IsSession heard s
    → All (Justified cfg heard) (tick cfg clock s).1
unfolding tick
tick-Justified cfg clock heard s inv = (
  tt,
  respond-Justified cfg clock heard (normal_is_fresh cfg s clock.now) (gate_touchdown cfg s)
      (gate-IsSession cfg heard s inv),
)

-- The Normal commands of the current session, after a run.
unfoldable pub session_heard : Config → ImuScale → List Event → Node → List Setpoint → List Setpoint
session_heard cfg scale [] s heard = heard
session_heard cfg scale (e ∷ rest) s heard =
    session_heard cfg scale rest (step cfg scale e s).0 (heard_after e s heard)

pub run-IsSession :
    (cfg : Config) (scale : ImuScale) (events : List Event) (s : Node) (heard : List Setpoint)
    → IsSession heard s
    → IsSession (session_heard cfg scale events s heard) (run cfg scale events s).0
unfolding run session_heard
run-IsSession cfg scale [] s heard inv = inv
run-IsSession cfg scale (e ∷ rest) s heard inv =
    run-IsSession cfg scale rest (step cfg scale e s).0 (heard_after e s heard)
      (step-IsSession cfg scale e heard s inv)

pub start-IsSession : (detector : Option Detector) → IsSession [] (start detector)
start-IsSession detector = record {
  normal_heard = λ sp e. cc;
  hold_heard = λ sp e. cc;
  admitted_heard = λ e. cc;
  touchdown_landing = λ e. cc;
}

-- After any run from the start, every setpoint that the next tick publishes is the descent, or a
-- Normal command heard since the last arming edge or exit from OFFBOARD, or the position hold of
-- such a command.
pub published_stems_from_session :
    (cfg : Config) (scale : ImuScale) (detector : Option Detector) (events : List Event)
    (clock : Clock)
    → All
        (Justified cfg (session_heard cfg scale events (start detector) []))
        (tick cfg clock (run cfg scale events (start detector)).0).1
published_stems_from_session cfg scale detector events clock =
    tick-Justified cfg clock _ _
      (run-IsSession cfg scale events (start detector) [] (start-IsSession detector))
