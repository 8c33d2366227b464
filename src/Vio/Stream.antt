-- ===== src/Vio/Stream.antt =====
-- `StreamAccumulator`: the arrival times, header stamps and frames of one stream, and the gates on
-- them. The payload and covariance counters are not part of this model.
pub mod Order
pub mod Summary
use flight_safety.Prelude.{
  Bool, List, Option, String, [], if◌then◌else◌, leb, ltb, none, not, some, suc, ℕ, ◌&&◌, ◌++◌, ◌-◌,
  ◌==◌, ◌∷◌,
}
use flight_safety.Prelude.Text.{str_eq, str_mem}
use flight_safety.Prelude.Int.{sub_ℕ, ℤ}

-- A frequency is in millionths of a hertz and a ratio in millionths.
pub record Contract : Type 0 where
  pub max_gap : ℕ
  pub max_idle : ℕ
  pub max_abs_header_latency : ℕ
  pub max_first_sample_delay : ℕ
  pub min_samples : ℕ
  pub min_rate : ℕ
  pub min_window_coverage : ℕ
  pub expected_frame_id : String
  pub expected_child_frame_id : String

pub record Message : Type 0 where
  pub stamp : ℕ
  pub arrival_ros : ℕ
  pub arrival_wall : ℕ
  pub frame_id : String
  pub child_frame_id : String

-- A message's arrival on the wall clock and its header stamp.
pub record Moment : Type 0 where
  pub arrival : ℕ
  pub header : ℕ

pub record Stream : Type 0 where
  pub window_start : Option ℕ
  pub sample_count : ℕ
  pub first : Option Moment
  pub last : Option Moment
  pub arrival_intervals : List ℕ
  pub stamp_intervals : List ℕ
  pub latencies : List ℤ
  pub zero_stamp_count : ℕ
  pub duplicate_stamp_count : ℕ
  pub backward_stamp_count : ℕ
  pub arrival_backward_count : ℕ
  pub arrival_gap_count : ℕ
  pub max_arrival_gap : ℕ
  pub gap_count : ℕ
  pub max_gap_seen : ℕ
  pub frame_ids : List String
  pub child_frame_ids : List String
  pub frame_mismatch_count : ℕ
  pub child_frame_mismatch_count : ℕ

abbrev pub new_stream : Option ℕ → Stream
new_stream window_start = record {
  window_start = window_start;
  sample_count = 0;
  first = none;
  last = none;
  arrival_intervals = [];
  stamp_intervals = [];
  latencies = [];
  zero_stamp_count = 0;
  duplicate_stamp_count = 0;
  backward_stamp_count = 0;
  arrival_backward_count = 0;
  arrival_gap_count = 0;
  max_arrival_gap = 0;
  gap_count = 0;
  max_gap_seen = 0;
  frame_ids = [];
  child_frame_ids = [];
  frame_mismatch_count = 0;
  child_frame_mismatch_count = 0;
}

-- `n` more by one when the test holds.
abbrev pub count_if : Bool → ℕ → ℕ
count_if test n = if test then suc n else n

abbrev pub max₂ : ℕ → ℕ → ℕ
max₂ a b = if leb a b then b else a

-- `values.add(value)`
abbrev pub add_text : String → List String → List String
add_text value values = if str_mem value values then values else values ++ value ∷ []

abbrev pub or_else : {A : Type 0} → A → Option A → A
or_else given none = given
or_else given (some value) = value

-- The interval from the last arrival; a step back is only counted.
unfoldable pub note_arrival : Contract → ℕ → Option Moment → Stream → Stream
note_arrival cfg arrival none s = s
note_arrival cfg arrival (some last) s =
    if ltb arrival last.arrival
    then record s { arrival_backward_count = suc s.arrival_backward_count }
    else record s {
      arrival_intervals = s.arrival_intervals ++ (arrival - last.arrival) ∷ [];
      arrival_gap_count = count_if (ltb cfg.max_gap (arrival - last.arrival)) s.arrival_gap_count;
      max_arrival_gap = max₂ s.max_arrival_gap (arrival - last.arrival);
    }

-- The interval from the last header stamp; a step back and a repetition are only counted.
unfoldable pub note_stamp : Contract → ℕ → Option Moment → Stream → Stream
note_stamp cfg stamp none s = s
note_stamp cfg stamp (some last) s =
    if ltb stamp last.header
    then record s { backward_stamp_count = suc s.backward_stamp_count }
    else if stamp == last.header
    then record s { duplicate_stamp_count = suc s.duplicate_stamp_count }
    else record s {
      stamp_intervals = s.stamp_intervals ++ (stamp - last.header) ∷ [];
      gap_count = count_if (ltb cfg.max_gap (stamp - last.header)) s.gap_count;
      max_gap_seen = max₂ s.max_gap_seen (stamp - last.header);
    }

unfoldable pub note_latency : Message → Stream → Stream
note_latency x s =
    if x.stamp == 0
    then record s { zero_stamp_count = suc s.zero_stamp_count }
    else record s { latencies = s.latencies ++ sub_ℕ x.arrival_ros x.stamp ∷ [] }

-- The count, the first and the last moment, and the frames.
unfoldable pub note_message : Contract → Message → Stream → Stream
note_message cfg x s = record s {
  sample_count = suc s.sample_count;
  first = some (or_else (record { arrival = x.arrival_wall; header = x.stamp }) s.first);
  last = some (record { arrival = x.arrival_wall; header = x.stamp });
  frame_ids = add_text x.frame_id s.frame_ids;
  child_frame_ids = add_text x.child_frame_id s.child_frame_ids;
  frame_mismatch_count =
      count_if (not (str_eq x.frame_id cfg.expected_frame_id)) s.frame_mismatch_count;
  child_frame_mismatch_count =
      count_if (not (str_eq x.child_frame_id cfg.expected_child_frame_id))
        s.child_frame_mismatch_count;
}

abbrev pub open_window : Message → Stream → Stream
open_window x s = record s { window_start = some (or_else x.arrival_wall s.window_start) }

unfoldable pub observe : Contract → Message → Stream → Stream
observe cfg x s = note_message cfg x (
    note_latency x
      (note_stamp cfg x.stamp s.last (note_arrival cfg x.arrival_wall s.last (open_window x s))))

unfoldable pub observe_all : Contract → List Message → Stream → Stream
observe_all cfg [] s = s
observe_all cfg (x ∷ rest) s = observe_all cfg rest (observe cfg x s)

-- The gates on the counters.
unfoldable pub stamps_ok : Stream → Bool
stamps_ok s =
    s.zero_stamp_count == 0 && (s.backward_stamp_count == 0 && s.duplicate_stamp_count == 0)

unfoldable pub arrivals_ok : Stream → Bool
arrivals_ok s = s.arrival_backward_count == 0

unfoldable pub gaps_ok : Stream → Bool
gaps_ok s = s.gap_count == 0

unfoldable pub frames_ok : Stream → Bool
frames_ok s = s.frame_mismatch_count == 0 && s.child_frame_mismatch_count == 0
