-- ===== src/Response/Run/Session.antt =====
-- What a control session has heard: the Normal commands since the last arming edge or exit from
-- OFFBOARD, kept beside the node as a ghost list, newest first.
use flight_safety.Prelude.{
  Any, Bool-cases, List, Option, [], ap, arith, false, if◌then◌else◌, inl, inr, none, refl, some,
  sym, true, ◌∙◌, ◌∷◌, ◌≡◌, ◌≢◌, Bool, is_some, ◌⊎◌, Option-cases,
}
use flight_safety.Response.Run.{
  Event, normal_arrives, state_arrives, ack_arrives, fault_arrives, imu_arrives, rc_arrives,
  request, step, timer, on_ack,
}
use flight_safety.Response.Node.{
  FcuState, Node, ends_session, on_normal, on_state, Config, or_kept, Imu, ImuScale, feed_imu,
  normal_is_fresh, on_fault, on_imu, on_rc, sample_of,
}
use flight_safety.Response.Setpoint.{Setpoint, hold_of, stamped}
use flight_safety.Diagnosis.{Time}
use flight_safety.Response.Tick.{
  Clock, admit, forward, to_manual, actuate, gate_touchdown, respond, tick,
}
use flight_safety.Touchdown.{Detector, Sample, update}
use flight_safety.Response.Termination.{begin_termination, finish_termination, refusal, Ack}

abbrev pub heard_after : Event → Node → List Setpoint → List Setpoint
heard_after (state_arrives now m) s heard = if ends_session m s then [] else heard
heard_after (normal_arrives now m) s heard = m ∷ heard
heard_after _ s heard = heard

-- The command without its publication time.
abbrev pub unstamped : Option Setpoint → Option Setpoint
unstamped none = none
unstamped (some sp) = some (stamped 0 sp)

-- Everything that the node could forward stems from the session, and so does its admission.
pub record IsSession (heard : List Setpoint) (s : Node) : Type 0 where
  pub normal_heard :
      (sp : Setpoint) → unstamped s.normal ≡ some sp → Any (λ h. stamped 0 h ≡ sp) heard
  pub hold_heard :
      (sp : Setpoint) → unstamped s.idle_hold ≡ some sp → Any (λ h. hold_of h ≡ some sp) heard
  pub admitted_heard : s.offboard_admitted ≡ true → heard ≢ []
  pub touchdown_landing : s.touchdown_fired ≡ true → s.in_land ≡ true

-- A step that keeps the stored commands keeps the session.
IsSession-same :
    (heard : List Setpoint) (s s' : Node)
    → IsSession heard s
    → unstamped s'.normal ≡ unstamped s.normal
    → unstamped s'.idle_hold ≡ unstamped s.idle_hold
    → (s'.offboard_admitted ≡ true → heard ≢ [])
    → (s'.touchdown_fired ≡ true → s'.in_land ≡ true)
    → IsSession heard s'
IsSession-same heard s s' inv n i a t = record {
  normal_heard = λ sp e. inv.normal_heard sp (sym n ∙ e);
  hold_heard = λ sp e. inv.hold_heard sp (sym i ∙ e);
  admitted_heard = a;
  touchdown_landing = t;
}

IsSession-reset :
    (s : Node)
    → s.normal ≡ none
    → s.idle_hold ≡ none
    → s.offboard_admitted ≡ false
    → (s.touchdown_fired ≡ true → s.in_land ≡ true)
    → IsSession [] s
IsSession-reset s n i a t = record {
  normal_heard = λ sp e. cc (ap unstamped n);
  hold_heard = λ sp e. cc (ap unstamped i);
  admitted_heard = λ e. cc;
  touchdown_landing = t;
}

on_state-IsSession :
    (now : Time) (m : FcuState) (heard : List Setpoint) (s : Node)
    → IsSession heard s
    → IsSession (heard_after (state_arrives now m) s heard) (on_state now m s)
unfolding on_state
on_state-IsSession now m heard s inv = elim (Bool-cases (ends_session m s)) [
  | inl ends ↦ rw ends (IsSession-reset _ refl refl refl inv.touchdown_landing)
  | inr stays ↦
      rw stays (IsSession-same heard s _ inv refl refl inv.admitted_heard inv.touchdown_landing)
]

hold_of-unstamped : (m : Setpoint) → unstamped (hold_of m) ≡ hold_of m
unfolding hold_of
hold_of-unstamped m = ground arith

or_kept-cases :
    (new old : Option Setpoint) (sp : Setpoint)
    → unstamped (or_kept new old) ≡ some sp
    → (unstamped new ≡ some sp) ⊎ (unstamped old ≡ some sp)
or_kept-cases none old sp e = inr e
or_kept-cases (some n) old sp e = inl e

on_normal-IsSession :
    (now : Time) (m : Setpoint) (heard : List Setpoint) (s : Node)
    → IsSession heard s
    → IsSession (m ∷ heard) (on_normal now m s)
unfolding on_normal
on_normal-IsSession now m heard s inv = record {
  normal_heard = λ sp e. inl (ground arith);
  hold_heard = λ sp e. elim (or_kept-cases (hold_of m) s.idle_hold sp e) [
    | inl new ↦ inl (sym (hold_of-unstamped m) ∙ new)
    | inr old ↦ inr (inv.hold_heard sp old)
  ];
  admitted_heard = λ e. ground arith;
  touchdown_landing = inv.touchdown_landing;
}

-- What a tick leaves of the stored commands, of the admission and of the touchdown latch.
record KeepsSession (s s' : Node) : Type 0 where
  pub normal : unstamped s'.normal ≡ unstamped s.normal
  pub hold : unstamped s'.idle_hold ≡ unstamped s.idle_hold
  pub admitted :
      s'.offboard_admitted ≡ true → (s.offboard_admitted ≡ true) ⊎ (is_some s.normal ≡ true)
  pub touchdown : (s'.in_land ≡ s.in_land) × (s'.touchdown_fired ≡ s.touchdown_fired)

forward-Keeps :
    (cfg : Config) (clock : Clock) (b : Bool) (s : Node) → KeepsSession s (forward cfg clock b s).0
unfolding forward
forward-Keeps cfg clock b s = ground arith

module _ (cfg : Config) (clock : Clock) (b : Bool) (s : Node) where
  admit-Keeps : (b ≡ true → is_some s.normal ≡ true) → KeepsSession s (admit cfg clock b s).0
  unfolding admit to_manual
  admit-Keeps fresh_normal =
      let plain = forward-Keeps cfg clock b s in
      let opened = forward-Keeps cfg clock b (record s { offboard_admitted = true }) in
      ground (arith, plain, opened, fresh_normal)

  respond-Keeps : (b ≡ true → is_some s.normal ≡ true) → KeepsSession s (respond cfg clock b s).0
  unfolding respond actuate
  respond-Keeps fresh_normal = ground (arith, admit-Keeps fresh_normal)

normal_is_fresh-some :
    (cfg : Config) (s : Node) (now : Time)
    → normal_is_fresh cfg s now ≡ true
    → is_some s.normal ≡ true
unfolding normal_is_fresh
normal_is_fresh-some cfg s now h = ground arith

pub gate-IsSession :
    (cfg : Config) (heard : List Setpoint) (s : Node)
    → IsSession heard s
    → IsSession heard (gate_touchdown cfg s)
unfolding gate_touchdown
gate-IsSession cfg heard s inv =
    IsSession-same heard s (gate_touchdown cfg s) inv refl refl inv.admitted_heard
      (λ e. ground arith)

heard_of_normal :
    (heard : List Setpoint) (o : Option Setpoint)
    → is_some o ≡ true
    → ((sp : Setpoint) → unstamped o ≡ some sp → Any (λ h. stamped 0 h ≡ sp) heard)
    → heard ≢ []
heard_of_normal [] none h k e = cc
heard_of_normal [] (some sp) h k e = k (stamped 0 sp) refl
heard_of_normal (x ∷ xs) o h k e = cc

tick-IsSession :
    (cfg : Config) (clock : Clock) (heard : List Setpoint) (s : Node)
    → IsSession heard s
    → IsSession heard (tick cfg clock s).0
unfolding tick
tick-IsSession cfg clock heard s inv =
    let g = gate_touchdown cfg s in
    let at_gate = gate-IsSession cfg heard s inv in
    let fresh_normal = normal_is_fresh cfg s clock.now in
    let keeps =
      respond-Keeps cfg clock fresh_normal g
        (λ e. unfold gate_touchdown in normal_is_fresh-some cfg s clock.now e) in
    IsSession-same heard g (tick cfg clock s).0 at_gate keeps.normal keeps.hold
      (λ e. elim (keeps.admitted e) [
        | inl was ↦ at_gate.admitted_heard was
        | inr now ↦ heard_of_normal heard g.normal now at_gate.normal_heard
      ])
      (λ e. ground (arith, keeps.touchdown, at_gate.touchdown_landing))

-- The detector confirms a touchdown only while it is armed.
update-landing : (d : Detector) (x : Sample) → (update d x).1 ≡ true → x.in_land ≡ true
unfolding update
update-landing d x h = ground arith

imu-IsSession :
    (scale : ImuScale) (m : Imu) (heard : List Setpoint) (s : Node) (d : Option Detector)
    → IsSession heard s
    → IsSession heard (feed_imu d (sample_of scale m s.in_land) s)
unfolding sample_of
imu-IsSession scale m heard s none inv = inv
imu-IsSession scale m heard s (some d) inv =
    IsSession-same heard s _ inv refl refl inv.admitted_heard
      (λ e. ground (arith, inv.touchdown_landing, update-landing d (sample_of scale m s.in_land)))

ack-IsSession :
    (busy : Bool) (ack : Ack) (heard : List Setpoint) (s : Node)
    → IsSession heard s
    → IsSession heard (on_ack busy ack s).0
unfolding finish_termination
ack-IsSession true ack heard s inv =
    IsSession-same heard s _ inv refl refl inv.admitted_heard inv.touchdown_landing
ack-IsSession false ack heard s inv = inv

-- Every event keeps the session: what the node stores to forward, and its admission, stem from the
-- Normal commands heard since the session began; a latched touchdown belongs to a landing.
pub step-IsSession :
    (cfg : Config) (scale : ImuScale) (e : Event) (heard : List Setpoint) (s : Node)
    → IsSession heard s
    → IsSession (heard_after e s heard) (step cfg scale e s).0
unfolding step on_fault on_rc begin_termination on_imu
step-IsSession cfg scale (fault_arrives m) heard s inv =
    IsSession-same heard s _ inv refl refl inv.admitted_heard inv.touchdown_landing
step-IsSession cfg scale (state_arrives now m) heard s inv = on_state-IsSession now m heard s inv
step-IsSession cfg scale (rc_arrives channels) heard s inv =
    IsSession-same heard s _ inv refl refl inv.admitted_heard inv.touchdown_landing
step-IsSession cfg scale (normal_arrives now m) heard s inv = on_normal-IsSession now m heard s inv
step-IsSession cfg scale (imu_arrives m) heard s inv = imu-IsSession scale m heard s s.touchdown inv
step-IsSession cfg scale (timer clock) heard s inv = tick-IsSession cfg clock heard s inv
step-IsSession cfg scale (request now) heard s inv = elim (Option-cases (refusal cfg now s)) [
  | inl granted ↦
      rw granted (IsSession-same heard s _ inv refl refl inv.admitted_heard inv.touchdown_landing)
  | inr (why, denied) ↦ rw denied inv
]
step-IsSession cfg scale (ack_arrives ack) heard s inv =
    ack-IsSession s.termination_busy ack heard s inv
