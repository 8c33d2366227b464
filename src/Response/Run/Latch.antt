-- ===== src/Response/Run/Latch.antt =====
-- Theorems about the kill latch over runs.
use flight_safety.Prelude.{
  Bool, List, [], all, arith, false, refl, true, ◌&&◌, ◌++◌, ◌∷◌, ◌≡◌, Bool-cases, if◌then◌else◌,
  inl, inr, suc, ℕ, ◌≤◌,
}
use flight_safety.Response.Tick.{
  Clock, Effect, actuate, answer, gate_touchdown, publish_state, respond, tick,
}
use flight_safety.Response.Node.{
  Config, Imu, ImuScale, Node, on_fault, on_imu, on_normal, on_rc, on_state, normal_is_fresh,
}
use flight_safety.Response.Run.{
  Event, ack_arrives, fault_arrives, imu_arrives, normal_arrives, rc_arrives, request, run,
  state_arrives, step, timer,
}
use flight_safety.Diagnosis.{Time}
use flight_safety.Response.Termination.{begin_termination, finish_termination}
use flight_safety.Response.Tick.Branches.{commands_kill, admit-quiet}

-- What may still be sent after a kill: the state report and the service's answers.
abbrev pub is_report : Effect → Bool
is_report (publish_state m) = true
is_report (answer r) = true
is_report _ = false

abbrev is_timer : Event → Bool
is_timer (timer clock) = true
is_timer _ = false

-- The latch holds after the step, and the step sent reports alone.
pub record StaysKilled (r : Node × List Effect) : Type 0 where
  pub latched : r.0.killed ≡ true
  pub quiet : all is_report r.1 ≡ true

tick-killed :
    (cfg : Config) (clock : Clock) (s : Node) → s.killed ≡ true → StaysKilled (tick cfg clock s)
unfolding tick respond gate_touchdown
tick-killed cfg clock s h = ground arith

begin_termination-killed :
    (cfg : Config) (now : Time) (s : Node)
    → s.killed ≡ true
    → StaysKilled (begin_termination cfg now s)
unfolding begin_termination
begin_termination-killed cfg now s h = ground arith

imu-killed :
    (scale : ImuScale) (m : Imu) (s : Node) → s.killed ≡ true → (on_imu scale m s).killed ≡ true
unfolding on_imu
imu-killed scale m s h = ground arith

step-killed :
    (cfg : Config) (scale : ImuScale) (e : Event) (s : Node)
    → s.killed ≡ true
    → StaysKilled (step cfg scale e s)
unfolding step on_fault on_state on_rc on_normal finish_termination
step-killed cfg scale (timer clock) s h = tick-killed cfg clock s h
step-killed cfg scale (request now) s h = begin_termination-killed cfg now s h
step-killed cfg scale (imu_arrives m) s h = ground (arith, imu-killed scale m s h)
step-killed cfg scale (ack_arrives ack) s h = ground arith
step-killed cfg scale (state_arrives now m) s h = ground arith
step-killed cfg scale (fault_arrives m) s h = ground arith
step-killed cfg scale (rc_arrives channels) s h = ground arith
step-killed cfg scale (normal_arrives now m) s h = ground arith

all-append :
    (xs ys : List Effect) → all is_report (xs ++ ys) ≡ (all is_report xs && all is_report ys)
all-append [] ys = refl
all-append (x ∷ xs) ys = ground (arith, all-append xs ys)

-- Once the node has latched a kill, it stays latched through every sequence of callbacks, timer
-- passes and requests, and from then on no setpoint, no mode request and no further force-disarm
-- is sent.
pub run-killed :
    (cfg : Config) (scale : ImuScale) (events : List Event) (s : Node)
    → s.killed ≡ true
    → StaysKilled (run cfg scale events s)
unfolding run
run-killed cfg scale [] s h = ground arith
run-killed cfg scale (e ∷ rest) s h =
    let first = step-killed cfg scale e s h in
    let later = run-killed cfg scale rest (step cfg scale e s).0 first.latched in
    ground (
      arith,
      first,
      later,
      all-append (step cfg scale e s).1 (run cfg scale rest (step cfg scale e s).0).1,
    )

-- A tick that commands the kill latches it.
tick-latches :
    (cfg : Config) (clock : Clock) (s : Node)
    → commands_kill (tick cfg clock s).1 ≡ true
    → (tick cfg clock s).0.killed ≡ true
unfolding tick respond actuate
tick-latches cfg clock s h =
    ground (arith, admit-quiet cfg clock (normal_is_fresh cfg s clock.now) (gate_touchdown cfg s))

-- How many timer passes of a run commanded the kill.
unfoldable pub timer_kills : Config → ImuScale → List Event → Node → ℕ
timer_kills cfg scale [] s = 0
timer_kills cfg scale (e ∷ rest) s =
    let n = timer_kills cfg scale rest (step cfg scale e s).0 in
    if is_timer e && commands_kill (step cfg scale e s).1 then suc n else n

reports-no_kill :
    (effects : List Effect) → all is_report effects ≡ true → commands_kill effects ≡ false
reports-no_kill [] h = refl
reports-no_kill (x ∷ xs) h = ground (arith, reports-no_kill xs)

timer_kills-killed :
    (cfg : Config) (scale : ImuScale) (events : List Event) (s : Node)
    → s.killed ≡ true
    → timer_kills cfg scale events s ≡ 0
unfolding timer_kills
timer_kills-killed cfg scale [] s h = refl
timer_kills-killed cfg scale (e ∷ rest) s h =
    let first = step-killed cfg scale e s h in
    ground (
      arith,
      reports-no_kill (step cfg scale e s).1 first.quiet,
      timer_kills-killed cfg scale rest (step cfg scale e s).0 first.latched,
    )

timer-latches :
    (cfg : Config) (scale : ImuScale) (e : Event) (s : Node)
    → is_timer e && commands_kill (step cfg scale e s).1 ≡ true
    → (step cfg scale e s).0.killed ≡ true
unfolding step
timer-latches cfg scale (timer clock) s h = tick-latches cfg clock s h
timer-latches cfg scale (fault_arrives m) s h = cc
timer-latches cfg scale _ s h = cc

-- In any run, the timer commands the force-disarm at most once: it is not repeated, whether or not
-- the vehicle acknowledged it.
pub timer_kills-le_one :
    (cfg : Config) (scale : ImuScale) (events : List Event) (s : Node)
    → timer_kills cfg scale events s ≤ 1
unfolding timer_kills
timer_kills-le_one cfg scale [] s = omega arith
timer_kills-le_one cfg scale (e ∷ rest) s =
    elim (Bool-cases (is_timer e && commands_kill (step cfg scale e s).1)) [
      | inl kills ↦ ground (
        arith,
        kills,
        timer_kills-killed cfg scale rest (step cfg scale e s).0
            (timer-latches cfg scale e s kills),
      )
      | inr quiet ↦ ground (arith, quiet, timer_kills-le_one cfg scale rest (step cfg scale e s).0)
    ]
