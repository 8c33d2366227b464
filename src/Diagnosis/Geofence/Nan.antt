-- ===== src/Diagnosis/Geofence/Nan.antt =====
-- Theorems about the geofence reporter and NaN coordinates.
use flight_safety.Prelude.{
  Bool, Bool-cases, String, arith, inl, inr, not, some, true, ◌&&◌, ◌||◌, ◌∙◌, ◌≡◌,
}
use flight_safety.Prelude.Float.{Float, fin, inf, is_nan, ◌-f◌}
use flight_safety.Diagnosis.Geofence.{Geofence, least_margin, min₂, run_diag, verdict, wall_margin}
use flight_safety.Diagnosis.Geofence.Totality.{
  IsReady, bind-some, wall_margin-disabled, wall_margin-enabled,
}
use flight_safety.Diagnosis.{Status, Time, fresh, ok_level}
use flight_safety.Prelude.Int.{ℤ}
use flight_safety.Diagnosis.Geofence.Walls.{run_diag-some, status_live}
use flight_safety.Prelude.Text.{str_mem}

-- The axis cannot be judged: it is disabled, or its coordinate is NaN.
abbrev pub is_blind_axis : Geofence → String → Float → Bool
is_blind_axis g ax v = not (str_mem ax g.axes) || is_nan v

unfoldable pub is_blind : Geofence → (Float × Float × Float) → Bool
is_blind g p = is_blind_axis g "x" p.0 && (is_blind_axis g "y" p.1 && is_blind_axis g "z" p.2)

min₂_nan : (m a : Float) → is_nan a ≡ true → min₂ m a ≡ m
unfolding min₂
min₂_nan m a h = ground arith

sub_nan : (v : Float) (k : ℤ) → is_nan v ≡ true → is_nan (v -f fin k) ≡ true
unfolding ◌-f◌
sub_nan v k h = ground arith

nan_sub : (v : Float) (k : ℤ) → is_nan v ≡ true → is_nan (fin k -f v) ≡ true
unfolding ◌-f◌
nan_sub v k h = ground arith

module _ (g : Geofence) (ready : IsReady g) where
  wall_margin-blind :
      (m : Float) (ax : String) (v : Float)
      → is_blind_axis g ax v ≡ true
      → wall_margin g m ax v ≡ some m
  wall_margin-blind m ax v h = elim (Bool-cases (str_mem ax g.axes)) [
    | inl on ↦
        let (lo, hi, found, w) = wall_margin-enabled g ready m ax v on in
        let b : is_nan v ≡ true = ground (arith, on) in
        ground (
          arith,
          w,
          min₂_nan m (v -f fin lo) (sub_nan v lo b),
          min₂_nan m (fin hi -f v) (nan_sub v hi b),
        )
    | inr off ↦ wall_margin-disabled g ready m ax v off
  ]

  least_margin-blind :
      (p : Float × Float × Float) → is_blind g p ≡ true → least_margin g p ≡ some inf
  unfolding is_blind least_margin
  least_margin-blind p h =
      bind-some _ (wall_margin-blind inf "x" p.0 (ground arith))
      ∙ bind-some _ (wall_margin-blind inf "y" p.1 (ground arith))
      ∙ wall_margin-blind inf "z" p.2 (ground arith)

  -- While the pose is fresh and all its enabled coordinates are NaN, the report has level OK: the
  -- comparisons that would find it outside or near a wall are all false.
  pub blind_pose_reads_ok :
      (now : Time) (p : Float × Float × Float)
      → fresh g.last_rx now g.timeout ≡ true
      → g.pos ≡ some p
      → is_blind g p ≡ true
      → (s : Status) × (run_diag g now ≡ some s) × (s.level ≡ ok_level)
  unfolding verdict
  blind_pose_reads_ok now p live at h =
      let (s, r, level) =
        run_diag-some g now _ _ (status_live g ready now p inf live at (least_margin-blind p h)) in
      (s, r, rw level (ground arith))
