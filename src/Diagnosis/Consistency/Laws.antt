-- ===== src/Diagnosis/Consistency/Laws.antt =====
-- Theorems about the report of the cross-check.
use flight_safety.Prelude.{Bool, arith, if◌then◌else◌, not, true, ◌||◌, ◌≡◌}
use flight_safety.Diagnosis.Consistency.{Consistency, Point, pair_error, run_diag, on_pair}
use flight_safety.Prelude.Float.{Float, is_nan, ltb_f, nan, square, ◌+f◌, ◌-f◌, float_zero}
use flight_safety.Diagnosis.{Time, add_measurement, error_level, fresh, ok_level, warn_level, since}
use flight_safety.Prelude.Int.{leb_ℤ}
use flight_safety.Touchdown.{recent}

-- The pair is missing or older than the timeout.
unfoldable pub unpaired : Consistency → Time → Bool
unpaired c now = not (fresh c.last_pair now c.pair_timeout)

-- The level is WARN without a recent pair; with one it is ERROR above the error threshold, WARN
-- above the warning threshold, and OK otherwise.
pub cross_check_level :
    (c : Consistency) (now : Time)
    → (run_diag c now).level ≡ (
        if unpaired c now
        then warn_level
        else if ltb_f c.error c.err
        then error_level
        else if ltb_f c.warn c.err
        then warn_level
        else ok_level)
unfolding run_diag unpaired add_measurement
cross_check_level c now = ground arith

abbrev pub has_nan : Point → Bool
has_nan p = is_nan p.0 || (is_nan p.1 || is_nan p.2)

plus_nan : (a b : Float) → is_nan a || is_nan b ≡ true → is_nan (a +f b) ≡ true
unfolding ◌+f◌
plus_nan a b h = ground arith

difference_nan : (a b : Float) → is_nan a || is_nan b ≡ true → is_nan (square (a -f b)) ≡ true
unfolding ◌-f◌ square
difference_nan a b h = ground arith

nan_of_is_nan : (v : Float) → is_nan v ≡ true → v ≡ nan
nan_of_is_nan v h = ground arith

sum_nan :
    (a b : Point)
    → has_nan a || has_nan b ≡ true
    → is_nan (float_zero +f square (a.0 -f b.0) +f square (a.1 -f b.1) +f square (a.2 -f b.2))
      ≡ true
sum_nan a b h =
    let x = square (a.0 -f b.0) in
    let y = square (a.1 -f b.1) in
    let z = square (a.2 -f b.2) in
    ground (
      arith,
      difference_nan a.0 b.0,
      difference_nan a.1 b.1,
      difference_nan a.2 b.2,
      plus_nan float_zero x,
      plus_nan (float_zero +f x) y,
      plus_nan (float_zero +f x +f y) z,
    )

-- With a `sqrt` that maps NaN to NaN, as `math.sqrt` does: a pair in which any coordinate is NaN
-- is reported with level OK for as long as the pair is recent, since no threshold is exceeded.
pub nan_pair_reads_ok :
    (sqrt : Float → Float) (c : Consistency) (seen now : Time) (a b : Point)
    → sqrt nan ≡ nan
    → has_nan a || has_nan b ≡ true
    → leb_ℤ (since now seen) c.pair_timeout ≡ true
    → (run_diag (on_pair sqrt seen a b c) now).level ≡ ok_level
unfolding run_diag on_pair pair_error add_measurement
nan_pair_reads_ok sqrt c seen now a b root h recent =
    let e = nan_of_is_nan _ (sum_nan a b h) in ground (arith, e, root)
