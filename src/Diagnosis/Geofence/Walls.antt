-- ===== src/Diagnosis/Geofence/Walls.antt =====
-- Theorems about the state and the level of the geofence reporter.
use flight_safety.Prelude.{
  Bool, Bool-cases, List, Option, String, [], arith, false, inl, inr, some, ◌&&◌, ◌||◌, ◌∷◌, ◌≡◌,
  Option-cases, refl, true, ◌↔◌, ◌∙◌, if◌then◌else◌, none, not, ◌==◌, sym,
}
use flight_safety.Prelude.Float.{
  Float, fin, float_zero, is_nan, ltb_f, sub_lower_neg, sub_upper_neg, ◌-f◌, inf,
}
use flight_safety.Diagnosis.Geofence.{
  Geofence, least_margin, min₂, wall_margin, State, grade, outside, status, fallback_fresh,
  run_diag, verdict, unknown,
}
use flight_safety.Diagnosis.Geofence.Totality.{
  IsReady, wall_margin-disabled, wall_margin-enabled, bind_inv, bind-some, least_margin_total,
}
use flight_safety.Prelude.Text.{lookup, str_mem}
use flight_safety.Diagnosis.{Time, fresh, Status, error_level}

-- The coordinate lies strictly beyond one of the two walls.
abbrev beyond : Option (List Float) → Float → Bool
beyond (some (lo ∷ hi ∷ [])) v = ltb_f v lo || ltb_f hi v
beyond _ v = false

unfoldable pub escapes_axis : Geofence → String → Float → Bool
escapes_axis g ax v = str_mem ax g.axes && beyond (lookup ax g.box) v

-- Some enabled coordinate lies strictly beyond one of its walls.
unfoldable pub escapes : Geofence → (Float × Float × Float) → Bool
escapes g p = escapes_axis g "x" p.0 || escapes_axis g "y" p.1 || escapes_axis g "z" p.2

-- A negative argument of `min` makes a negative result, and a NaN argument is passed over.
min₂_negative :
    (m a : Float)
    → is_nan m ≡ false
    → (is_nan (min₂ m a) ≡ false)
      × (ltb_f (min₂ m a) float_zero ≡ (ltb_f m float_zero || ltb_f a float_zero))
unfolding min₂
min₂_negative m a h = ground arith

module _ (g : Geofence) (ready : IsReady g) where
  wall_margin_negative :
      (m : Float) (ax : String) (v : Float) (m' : Float)
      → is_nan m ≡ false
      → wall_margin g m ax v ≡ some m'
      → (is_nan m' ≡ false) × (ltb_f m' float_zero ≡ (ltb_f m float_zero || escapes_axis g ax v))
  unfolding escapes_axis
  wall_margin_negative m ax v m' h e = elim (Bool-cases (str_mem ax g.axes)) [
    | inl on ↦
        let (lo, hi, found, w) = wall_margin-enabled g ready m ax v on in
        rw (on, found)
          (ground (
            arith,
            e,
            w,
            min₂_negative m (v -f fin lo),
            min₂_negative (min₂ m (v -f fin lo)) (fin hi -f v),
            sub_lower_neg v lo,
            sub_upper_neg v hi,
          ))
    | inr off ↦ rw off (ground (arith, e, wall_margin-disabled g ready m ax v off))
  ]

  least_margin_negative :
      (p : Float × Float × Float) (m : Float)
      → least_margin g p ≡ some m
      → ltb_f m float_zero ≡ escapes g p
  unfolding escapes least_margin
  least_margin_negative p m h =
      let (mx, ex, hx) = bind_inv (wall_margin g inf "x" p.0) _ h in
      let (my, ey, hy) = bind_inv (wall_margin g mx "y" p.1) _ hx in
      let nx = wall_margin_negative inf "x" p.0 mx refl ex in
      let ny = wall_margin_negative mx "y" p.1 my nx.0 ey in
      let nz = wall_margin_negative my "z" p.2 m ny.0 hy in ground (arith, nx.1, ny.1, nz.1)

  least_margin-some : (p : Float × Float × Float) → (m : Float) × (least_margin g p ≡ some m)
  least_margin-some p = elim (Option-cases (least_margin g p)) [
    | inl e ↦ cc (e, least_margin_total g ready p)
    | inr found ↦ found
  ]

  pub status_live :
      (now : Time) (p : Float × Float × Float) (m : Float)
      → fresh g.last_rx now g.timeout ≡ true
      → g.pos ≡ some p
      → least_margin g p ≡ some m
      → status g now ≡ some (grade g.margin m, some m)
  unfolding status
  status_live now p m live at e = rw live (bind-some _ at ∙ bind-some _ e)

  -- While the pose is fresh, the geofence reads OUTSIDE exactly when some enabled coordinate of
  -- it lies strictly beyond one of its walls.
  pub outside_iff_escapes :
      (now : Time) (p : Float × Float × Float)
      → fresh g.last_rx now g.timeout ≡ true
      → g.pos ≡ some p
      → (m : Float) × (st : State) × (status g now ≡ some (st, some m))
        × ((st ≡ outside) ↔ (escapes g p ≡ true))
  outside_iff_escapes now p live at =
      let (m, e) = least_margin-some p in
      (
        m,
        grade g.margin m,
        status_live now p m live at e,
        ground (arith, least_margin_negative p m e),
      )

-- The latest pose lies strictly beyond a wall of an enabled axis.
unfoldable pub breached : Geofence → Bool
unfolding escapes
breached g = elim g.pos [ none ↦ false | some p ↦ escapes g p ]

-- The reporter's own reason to request a kill.
unfoldable pub must_kill : Geofence → Time → Bool
must_kill g now = if fresh g.last_rx now g.timeout then breached g else not (fallback_fresh g now)

verdict_error :
    (g : Geofence) (now : Time) (p : Float × Float × Float) (m : Float)
    → ltb_f m float_zero ≡ escapes g p
    → ((verdict g now (grade g.margin m) (some m)).0 == error_level) ≡ escapes g p
unfolding verdict
verdict_error g now p m h = ground arith

breached-some :
    (g : Geofence) (p : Float × Float × Float) → g.pos ≡ some p → breached g ≡ escapes g p
unfolding breached
breached-some g p h = ground arith

pub run_diag-some :
    (g : Geofence) (now : Time) (st : State) (m : Option Float)
    → status g now ≡ some (st, m)
    → (s : Status) × (run_diag g now ≡ some s) × (s.level ≡ (verdict g now st m).0)
unfolding run_diag
run_diag-some g now st m e = (_, bind-some _ e, refl)

unposed :
    (g : Geofence) (now : Time)
    → IsReady g
    → fresh g.last_rx now g.timeout ≡ true
    → g.pos ≡ none
    → ⊥
unposed g now ready live e = ground (arith, ready.posed)

error_live :
    (g : Geofence) (now : Time)
    → IsReady g
    → fresh g.last_rx now g.timeout ≡ true
    → (s : Status) × (run_diag g now ≡ some s) × ((s.level == error_level) ≡ breached g)
error_live g now ready live = elim (Option-cases g.pos) [
  | inl e ↦ absurd (unposed g now ready live e)
  | inr (p, at) ↦
      let (m, e) = least_margin-some g ready p in
      let (s, r, level) = run_diag-some g now _ _ (status_live g ready now p m live at e) in
      (
        s,
        r,
        rw level (
            verdict_error g now p m (least_margin_negative g ready p m e)
            ∙ sym (breached-some g p at)),
      )
]

error_stale :
    (g : Geofence) (now : Time)
    → fresh g.last_rx now g.timeout ≡ false
    → (s : Status) × (run_diag g now ≡ some s)
      × ((s.level == error_level) ≡ not (fallback_fresh g now))
unfolding verdict
error_stale g now old =
    let (s, r, level) = run_diag-some g now unknown none (unfold status in rw old) in
    (s, r, rw level (ground arith))

-- The report of a constructed reporter has level ERROR exactly when the pose is fresh and some
-- enabled coordinate is strictly beyond a wall, or the pose and the fallback are both stale.
pub run_diag-error_iff :
    (g : Geofence) (now : Time)
    → IsReady g
    → (s : Status) × (run_diag g now ≡ some s) × ((s.level == error_level) ≡ must_kill g now)
unfolding must_kill
run_diag-error_iff g now ready = elim (Bool-cases (fresh g.last_rx now g.timeout)) [
  | inl live ↦ rw live (error_live g now ready live)
  | inr old ↦ rw old (error_stale g now old)
]
