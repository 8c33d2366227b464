-- ===== src/Diagnosis/Geofence.antt =====
-- src/flight_safety/diagnosis/geofence.py: construction, callbacks, status and report of the
-- geofence reporter. Where Python would raise, the result is `none` or an error.
pub mod Totality
pub mod Walls
pub mod Nan
use flight_safety.Prelude.{
  ℕ, String, Bool, false, not, ◌||◌, ◌&&◌, Option, none, some, List, [], ◌∷◌, ◌++◌, leb, ◌*◌,
  if◌then◌else◌, all,
}
use flight_safety.Prelude.Float.{Float, inf, float_zero, ltb_f, leb_f, ◌-f◌, neg_f, is_finite}
use flight_safety.Prelude.Text.{◌<>◌, str_eq, str_mem, lookup}
use flight_safety.Diagnosis.{
  ok_level, warn_level, error_level, Message, plain, measured, Value, text, fixed, triple, Status,
  add_measurement, Time, Duration, fresh,
}
use Prim.Native.Nat.{◌%◌}

pub data State : Type 0 where
  inside approaching outside unknown : State

pub record Geofence : Type 0 where
  pub box : List (String × List Float)
  pub axes : List String
  pub margin : Float
  pub timeout : Duration
  pub fallback_timeout : Duration
  pub pos : Option (Float × Float × Float)
  pub last_rx : Option Time
  pub last_fallback_rx : Option Time
  pub frame : String

-- The configuration, its defaults already filled in where a key is missing.
pub record Config : Type 0 where
  pub box : List (String × List Float)
  pub enabled_axes : Option (List String)
  pub margin_m : Float
  pub pose_timeout : Duration
  pub fallback_timeout : Duration

pub data InitError : Type 0 where
  bad_axes : InitError
  bad_bounds : String → InitError

abbrev pub axis_names : List String
axis_names = "x" ∷ "y" ∷ "z" ∷ []

unfoldable pub has_duplicate : List String → Bool
has_duplicate [] = false
has_duplicate (a ∷ rest) = str_mem a rest || has_duplicate rest

unfoldable pub is_axis_set : List String → Bool
unfolding has_duplicate
is_axis_set [] = false
is_axis_set axes = not (has_duplicate axes) && all (λ a. str_mem a axis_names) axes

-- `box.get(ax, ())` holds two finite numbers in order.
abbrev pub are_bounds : Option (List Float) → Bool
are_bounds (some (lo ∷ hi ∷ [])) = is_finite lo && is_finite hi && not (leb_f hi lo)
are_bounds _ = false

unfoldable pub first_bad_axis : List (String × List Float) → List String → Option String
first_bad_axis box [] = none
first_bad_axis box (ax ∷ rest) =
    if are_bounds (lookup ax box) then first_bad_axis box rest else some ax

abbrev pub axes_or_all : Option (List String) → List String
axes_or_all none = axis_names
axes_or_all (some axes) = axes

pub data InitResult : Type 0 where
  built : Geofence → InitResult
  refused : InitError → InitResult

unfoldable pub init : Config → InitResult
init cfg =
    let axes = axes_or_all cfg.enabled_axes in
    if not (is_axis_set axes) then refused bad_axes else elim (first_bad_axis cfg.box axes) [
      | some ax ↦ refused (bad_bounds ax)
      | none ↦ built (record {
        box = cfg.box;
        axes = axes;
        margin = cfg.margin_m;
        timeout = cfg.pose_timeout;
        fallback_timeout = cfg.fallback_timeout;
        pos = none;
        last_rx = none;
        last_fallback_rx = none;
        frame = "odom";
      })
    ]

-- `m.header.frame_id or self.frame`
unfoldable pub on_pose : Time → (Float × Float × Float) → String → Geofence → Geofence
on_pose now position frame_id g = record g {
  pos = some position;
  frame = (if str_eq frame_id "" then g.frame else frame_id);
  last_rx = some now;
}

unfoldable pub on_fallback_pose : Time → Geofence → Geofence
on_fallback_pose now g = record g { last_fallback_rx = some now }

unfoldable pub fallback_fresh : Geofence → Time → Bool
fallback_fresh g now = fresh g.last_fallback_rx now g.fallback_timeout

-- Python's `min(m, a, b)`: the first argument that no later one is below.
unfoldable pub min₂ : Float → Float → Float
min₂ m a = if ltb_f a m then a else m

unfoldable pub wall_margin : Geofence → Float → String → Float → Option Float
unfolding min₂
wall_margin g m ax v = if not (str_mem ax g.axes) then some m else elim (lookup ax g.box) [
  | some (lo ∷ hi ∷ []) ↦ some (min₂ (min₂ m (v -f lo)) (hi -f v))
  | _ ↦ none
]

abbrev pub bind {ℓ} : {A B : Type ℓ} → Option A → (A → Option B) → Option B
bind none f = none
bind (some a) f = f a

unfoldable pub least_margin : Geofence → (Float × Float × Float) → Option Float
least_margin g p =
    bind (wall_margin g inf "x" p.0)
      λ mx. bind (wall_margin g mx "y" p.1) λ my. wall_margin g my "z" p.2

abbrev pub grade : Float → Float → State
grade warn m = if ltb_f m float_zero then outside else if ltb_f m warn then approaching else inside

unfoldable pub status : Geofence → Time → Option (State × Option Float)
status g now =
    if not (fresh g.last_rx now g.timeout)
    then some (unknown, none)
    else bind g.pos λ p. bind (least_margin g p) λ m. some (grade g.margin m, some m)

abbrev state_name : State → String
state_name inside = "INSIDE"
state_name approaching = "APPROACHING"
state_name outside = "OUTSIDE"
state_name unknown = "UNKNOWN"

-- `",".join(axes)`
abbrev join_axes : List String → String
join_axes [] = ""
join_axes (a ∷ []) = a
join_axes (a ∷ b ∷ rest) = a <> ("," <> join_axes (b ∷ rest))

abbrev pos_values : Option (Float × Float × Float) → List (String × Value)
pos_values none = []
pos_values (some p) = ("pos_xyz_m", triple p.0 p.1 p.2) ∷ []

abbrev margin_values : Geofence → Option Float → List (String × Value) → List (String × Value)
margin_values g none values = values
margin_values g (some m) values =
    add_measurement values (fixed m) "m" (some (fixed g.margin)) (some (fixed float_zero))

abbrev or_zero : Option Float → Float
or_zero none = float_zero
or_zero (some m) = m

-- Level and message of the report. `margin` is there whenever a branch formats it.
unfoldable pub verdict : Geofence → Time → State → Option Float → ℕ × Message
unfolding fallback_fresh
verdict g now outside m = (error_level, measured "OUTSIDE " (neg_f (or_zero m)) "m past wall")
verdict g now approaching m = (warn_level, measured "APPROACHING " (or_zero m) "m to wall")
verdict g now unknown m =
    if fallback_fresh g now
    then (warn_level, plain "no VRPN pose; local_position alive (controlled LAND)")
    else (error_level, plain "no VRPN pose and no local_position (KILL)")
verdict g now inside m = (ok_level, measured "INSIDE " (or_zero m) "m")

unfoldable pub run_diag : Geofence → Time → Option Status
unfolding verdict add_measurement
run_diag g now = bind (status g now) λ r. some (record {
  level = (verdict g now r.0 r.1).0;
  message = (verdict g now r.0 r.1).1;
  values = margin_values g r.1 (
      pos_values g.pos
      ++ (("enabled_axes", text (join_axes g.axes)) ∷ ("status", text (state_name r.0)) ∷ []));
})

-- Marker colours. `t` is in nanoseconds, so three blinks a second are `t * 3` modulo a second.
abbrev pub color_of : State → ℕ × ℕ × ℕ
color_of inside = (0, 10, 0)
color_of approaching = (10, 10, 0)
color_of outside = (10, 0, 0)
color_of unknown = (5, 5, 5)

unfoldable pub color : State → Time → ℕ × ℕ × ℕ
color approaching t =
    if leb 500000000 (t * 3 % 1000000000) then color_of outside else color_of approaching
color st t = color_of st
