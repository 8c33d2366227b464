-- ===== src/Touchdown.antt =====
-- src/flight_safety/touchdown.py: the IMU touchdown detector of the emergency descent.
pub mod Fires
pub mod Bursts
pub mod Attitude
mod Examples
use flight_safety.Prelude.{
  Bool, List, Option, [], false, if◌then◌else◌, keep_if, length, none, not, some, suc, true, ℕ,
  ◌&&◌, ◌++◌, ◌||◌, ◌∷◌,
}
use flight_safety.Diagnosis.{Duration, Time, since}
use flight_safety.Prelude.Float.{Float, fin, leb_f, ltb_f}
use flight_safety.Prelude.Int.{leb_ℤ, ltb_ℤ, pos, ℤ}

pub record Detector : Type 0 where
  pub vert_thresh : Float
  pub gyro_thresh : Float
  pub min_land : Duration
  pub confirm : ℤ
  pub window : Duration
  pub land_t0 : Option Time
  pub hits : List Time
  pub fired : Bool

-- One IMU sample, with the flag that the response node feeds beside it.
pub record Sample : Type 0 where
  pub t : Time
  pub vert : Float
  pub gyro_mag : Float
  pub in_land : Bool

-- The constructor's keyword defaults, in nanoseconds and in millionths of the unit.
abbrev pub default_detector : Detector
default_detector = record {
  vert_thresh = fin (pos 16000000);
  gyro_thresh = fin (pos 300000);
  min_land = pos 300000000;
  confirm = pos 2;
  window = pos 250000000;
  land_t0 = none;
  hits = [];
  fired = false;
}

unfoldable pub disarm : Detector → Detector
disarm d = record d { land_t0 = none; hits = []; fired = false }

-- `if self.land_t0 is None: self.land_t0 = t`
abbrev pub begun : Option Time → Time → Time
begun none t = t
begun (some t0) t = t0

unfoldable pub is_impact : Detector → Float → Float → Bool
is_impact d vert gyro_mag = ltb_f d.vert_thresh vert && leb_f d.gyro_thresh gyro_mag

abbrev pub recent : Duration → Time → Time → Bool
recent window t h = leb_ℤ (since t h) window

unfoldable pub add_hit : Detector → Time → Detector × Bool
add_hit d t =
    let hits = keep_if (recent d.window t) (d.hits ++ t ∷ []) in
    if leb_ℤ d.confirm (pos (length hits))
    then (record d { hits = hits; fired = true }, true)
    else (record d { hits = hits }, false)

unfoldable pub update : Detector → Sample → Detector × Bool
unfolding disarm is_impact add_hit
update d s =
    let t0 = begun d.land_t0 s.t in
    let d' = record d { land_t0 = some t0 } in
    if not s.in_land
    then (disarm d, false)
    else if d.fired || ltb_ℤ (since s.t t0) d.min_land
    then (d', false)
    else if is_impact d s.vert s.gyro_mag
    then add_hit d' s.t
    else (d', false)

-- A stream of samples; how many of the calls returned `True`.
unfoldable pub feed : Detector → List Sample → Detector × ℕ
feed d [] = (d, 0)
feed d (s ∷ rest) =
    let (d', hit) = update d s in let (d'', n) = feed d' rest in (d'', if hit then suc n else n)
