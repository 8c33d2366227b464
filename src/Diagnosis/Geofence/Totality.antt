-- ===== src/Diagnosis/Geofence/Totality.antt =====
-- Theorems about the exceptions of the geofence reporter.
use flight_safety.Prelude.{
  ◌≡◌, refl, true, Option, none, some, List, [], ◌∷◌, arith, is_some, Bool-cases, String, false,
  inl, inr,
}
use flight_safety.Prelude.Float.{Float, fin, inf, ◌-f◌}
use flight_safety.Prelude.Int.{ℤ}
use flight_safety.Diagnosis.Geofence.{
  Geofence, are_bounds, first_bad_axis, least_margin, min₂, wall_margin, Config, bind, built, init,
  on_fallback_pose, on_pose, status, run_diag,
}
use flight_safety.Prelude.Text.{eq_iff, lookup, str_eq, str_mem}
use flight_safety.Diagnosis.{Time, fresh}

pub record IsReady (g : Geofence) : Type 0 where
  pub bounded : first_bad_axis g.box g.axes ≡ none
  pub posed : is_some g.last_rx ≡ true → is_some g.pos ≡ true

pub are_bounds-finite :
    (o : Option (List Float))
    → are_bounds o ≡ true
    → (lo hi : ℤ) × (o ≡ some (fin lo ∷ fin hi ∷ []))
are_bounds-finite none h = cc
are_bounds-finite (some []) h = cc
are_bounds-finite (some (a ∷ [])) h = cc
are_bounds-finite (some (fin lo ∷ fin hi ∷ [])) h = (lo, hi, refl)
are_bounds-finite (some (a ∷ b ∷ r)) h = ground arith

pub bounds_at :
    (box : List (String × List Float)) (axes : List String) (ax : String)
    → first_bad_axis box axes ≡ none
    → str_mem ax axes ≡ true
    → are_bounds (lookup ax box) ≡ true
unfolding first_bad_axis
bounds_at box [] ax h m = cc
bounds_at box (a ∷ rest) ax h m = elim (Bool-cases (str_eq a ax)) [
  | inl same ↦ rw (← (eq_iff a ax).0 same) (ground arith)
  | inr other ↦ bounds_at box rest ax (ground arith) (ground arith)
]

bind_total :
    {A B : Type 0} (o : Option A) (f : A → Option B)
    → is_some o ≡ true
    → ((a : A) → is_some (f a) ≡ true)
    → is_some (bind o f) ≡ true
bind_total none f h k = h
bind_total (some a) f h k = k a

pub bind_inv :
    {A B : Type 0} (o : Option A) (f : A → Option B) {b : B}
    → bind o f ≡ some b
    → (a : A) × (o ≡ some a) × (f a ≡ some b)
bind_inv none f h = cc
bind_inv (some a) f h = (a, refl, h)

pub bind-some :
    {A B : Type 0} {o : Option A} {a : A} (f : A → Option B) → o ≡ some a → bind o f ≡ f a
bind-some f h = rw h

module _ (g : Geofence) (ready : IsReady g) where
  -- With the axis enabled, the margin is Python's `min` over the two walls.
  pub wall_margin-enabled :
      (m : Float) (ax : String) (v : Float)
      → str_mem ax g.axes ≡ true
      → (lo hi : ℤ) × (lookup ax g.box ≡ some (fin lo ∷ fin hi ∷ []))
        × (wall_margin g m ax v ≡ some (min₂ (min₂ m (v -f fin lo)) (fin hi -f v)))
  unfolding wall_margin
  wall_margin-enabled m ax v on =
      let (lo, hi, e) =
        are_bounds-finite (lookup ax g.box) (bounds_at g.box g.axes ax ready.bounded on) in
      (lo, hi, e, ground (arith, on, e))

  pub wall_margin-disabled :
      (m : Float) (ax : String) (v : Float)
      → str_mem ax g.axes ≡ false
      → wall_margin g m ax v ≡ some m
  unfolding wall_margin
  wall_margin-disabled m ax v off = rw off

  wall_margin_total : (m : Float) (ax : String) (v : Float) → is_some (wall_margin g m ax v) ≡ true
  wall_margin_total m ax v = elim (Bool-cases (str_mem ax g.axes)) [
    | inl on ↦ let (lo, hi, e, w) = wall_margin-enabled m ax v on in rw w
    | inr off ↦ rw (wall_margin-disabled m ax v off)
  ]

  pub least_margin_total : (p : Float × Float × Float) → is_some (least_margin g p) ≡ true
  unfolding least_margin
  least_margin_total p =
      bind_total (wall_margin g inf "x" p.0) _ (wall_margin_total inf "x" p.0) λ mx.
        bind_total (wall_margin g mx "y" p.1) _ (wall_margin_total mx "y" p.1)
          λ my. wall_margin_total my "z" p.2

  pub status_total : (now : Time) → is_some (status g now) ≡ true
  unfolding status
  status_total now = elim (Bool-cases (fresh g.last_rx now g.timeout)) [
    | inl live ↦ rw live (
        bind_total g.pos _ (ready.posed (ground arith))
          λ p. bind_total (least_margin g p) _ (least_margin_total p) λ m. refl)
    | inr old ↦ rw old
  ]

  -- The report of a ready reporter exists at every time: `run_diag` does not raise.
  pub run_diag_total : (now : Time) → is_some (run_diag g now) ≡ true
  unfolding run_diag
  run_diag_total now = bind_total (status g now) _ (status_total now) λ r. refl

pub on_pose-IsReady :
    (g : Geofence) (now : Time) (p : Float × Float × Float) (frame_id : String)
    → IsReady g
    → IsReady (on_pose now p frame_id g)
unfolding on_pose
on_pose-IsReady g now p frame_id ready = record { bounded = ready.bounded; posed = λ h. refl }

pub on_fallback_pose-IsReady :
    (g : Geofence) (now : Time) → IsReady g → IsReady (on_fallback_pose now g)
unfolding on_fallback_pose
on_fallback_pose-IsReady g now ready = record { bounded = ready.bounded; posed = ready.posed }

pub init-IsReady : (cfg : Config) (g : Geofence) → init cfg ≡ built g → IsReady g
unfolding init
init-IsReady cfg g h = ground arith

-- The two subscriptions, in any order and number.
pub data Callback : Type 0 where
  pose : Time → (Float × Float × Float) → String → Callback
  fallback : Time → Callback

unfoldable pub deliver : Callback → Geofence → Geofence
deliver (pose now p frame_id) g = on_pose now p frame_id g
deliver (fallback now) g = on_fallback_pose now g

unfoldable pub deliver_all : List Callback → Geofence → Geofence
deliver_all [] g = g
deliver_all (c ∷ rest) g = deliver_all rest (deliver c g)

deliver-IsReady : (c : Callback) (g : Geofence) → IsReady g → IsReady (deliver c g)
unfolding deliver
deliver-IsReady (pose now p frame_id) g ready = on_pose-IsReady g now p frame_id ready
deliver-IsReady (fallback now) g ready = on_fallback_pose-IsReady g now ready

pub deliver_all-IsReady :
    (cs : List Callback) (g : Geofence) → IsReady g → IsReady (deliver_all cs g)
unfolding deliver_all
deliver_all-IsReady [] g ready = ready
deliver_all-IsReady (c ∷ rest) g ready =
    deliver_all-IsReady rest (deliver c g) (deliver-IsReady c g ready)

-- A reporter that the constructor accepted reports at every time, whatever poses arrive and in
-- whatever order: neither a missing key nor a missing pose is ever raised.
pub report_never_raises :
    (cfg : Config) (g : Geofence) (cs : List Callback) (now : Time)
    → init cfg ≡ built g
    → is_some (run_diag (deliver_all cs g) now) ≡ true
report_never_raises cfg g cs now h =
    run_diag_total (deliver_all cs g) (deliver_all-IsReady cs g (init-IsReady cfg g h)) now
