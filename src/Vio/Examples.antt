-- ===== src/Vio/Examples.antt =====
-- Runs on concrete inputs: two corrections with their identities.
use flight_safety.Vio.Linkage.OneToOne
use flight_safety.Vio.Linkage.Passed
use flight_safety.Vio.Identity.Summary
use flight_safety.Vio.Stream.Order
use flight_safety.Vio.Stream
use flight_safety.Vio.Identity.{
  Config, Join, Parsed, normalize_item, normalize_items, normalize_key_values,
}
use flight_safety.Vio.Linkage.{
  Linkage, Sample, Streams, arrival_link, candidates, match_all, match_step, nearest, no_matching,
  observe_stream, one_to_one, parsed_identity, propagation_gate, stamp_link, summarize,
}
use flight_safety.Prelude.{
  List, [], all, false, none, refl, some, true, ℕ, ◌&&◌, ◌+◌, ◌∷◌, ◌≡◌, ltb, ◌≤◌,
}
use flight_safety.Vio.Gates.{is_contiguous, is_increasing}
use flight_safety.Vio.Identity.Summary.{gates, last_arrival, parsed_list, passes}
use flight_safety.Prelude.Text.{insert, lookup}
use flight_safety.Vio.Stream.{
  Contract, Message, arrivals_ok, frames_ok, gaps_ok, new_stream, note_arrival, note_latency,
  note_message, note_stamp, observe, observe_all, stamps_ok,
}
use flight_safety.Vio.Texts.{digits_value, strict_uint_text}

abbrev cfg : Linkage
cfg = record {
  correction_stream = "correction";
  propagated_stream = "propagated";
  max_header_delta = 20;
  max_status_arrival_delta = 30;
  stamp_limit = 5;
  require_typed_identity_join = true;
}

abbrev sample : ℕ → ℕ → Sample
sample stamp arrival = record { stamp = stamp; arrival = arrival }

abbrev streams : Streams
streams =
    ("correction", sample 100 110 ∷ (sample 200 210 ∷ []))
    ∷ (("propagated", sample 95 101 ∷ (sample 190 195 ∷ [])) ∷ [])

abbrev identity : ℕ → ℕ → Parsed
identity sequence stamp = record {
  session_id = "s1";
  reset_counter = 0;
  correction_sequence = sequence;
  correction_stamp = stamp;
}

abbrev join : ℕ → ℕ → ℕ → Join
join sequence stamp arrival = record {
  level = 0;
  well_formed = true;
  duplicate_keys = [];
  parsed = some (identity sequence stamp);
  stamp = stamp;
  arrival_wall = arrival;
  arrival_ros = arrival;
}

abbrev records : List Join
records = join 7 100 112 ∷ (join 8 202 215 ∷ [])

stream_observed :
    lookup "correction" (observe_stream "correction" (sample 300 310) streams)
    ≡ some (sample 100 110 ∷ (sample 200 210 ∷ (sample 300 310 ∷ [])))
unfolding observe_stream lookup insert
stream_observed = refl

match_all-one_to_one_example :
    OneToOne.IsMatching 5
      (parsed_identity records)
      (sample 100 110 ∷ (sample 200 210 ∷ []))
      no_matching
      (match_all 5 (parsed_identity records) (sample 100 110 ∷ (sample 200 210 ∷ [])) no_matching)
match_all-one_to_one_example =
    OneToOne.match_all-one_to_one 5 (parsed_identity records)
      (sample 100 110 ∷ (sample 200 210 ∷ []))

summarize-IsLinked_example : Passed.IsLinked cfg streams records
unfolding summarize propagation_gate nearest one_to_one parsed_identity match_all match_step
    candidates stamp_link arrival_link is_contiguous lookup
summarize-IsLinked_example = Passed.summarize-IsLinked cfg streams records refl

-- Two identities near one correction are ambiguous, and the linkage fails.
ambiguous_fails :
    summarize cfg
      (("correction", sample 100 110 ∷ (sample 103 113 ∷ []))
        ∷ (("propagated", sample 100 100 ∷ []) ∷ []))
      (join 7 100 112 ∷ (join 8 103 114 ∷ []))
    ≡ false
unfolding summarize propagation_gate nearest one_to_one parsed_identity match_all match_step
    candidates stamp_link arrival_link is_contiguous lookup
ambiguous_fails = refl

abbrev identity_cfg : Config
identity_cfg = record {
  status_name = "vio identity";
  status_schema = "v1";
  min_samples = 2;
  max_idle = 50;
  max_abs_header_latency = 40;
}

passes-IsUnbroken_example : Summary.IsUnbroken identity_cfg records
unfolding passes gates parsed_list last_arrival is_increasing is_contiguous
passes-IsUnbroken_example = Summary.passes-IsUnbroken identity_cfg 230 records refl

digits_read : strict_uint_text "1042" ≡ some 1042
unfolding strict_uint_text digits_value
digits_read = refl

sign_refused : strict_uint_text "-1" ≡ none
unfolding strict_uint_text digits_value
sign_refused = refl

repeated_key_found :
    (normalize_key_values (some ("k", "1") ∷ (some ("k", "2") ∷ []))).duplicates ≡ "k" ∷ []
unfolding normalize_key_values normalize_items normalize_item lookup insert
repeated_key_found = refl

abbrev stream_contract : Contract
stream_contract = record {
  max_gap = 60000000;
  max_idle = 100000000;
  max_abs_header_latency = 20000000;
  max_first_sample_delay = 30000000;
  min_samples = 2;
  min_rate = 20000000;
  min_window_coverage = 400000;
  expected_frame_id = "odom";
  expected_child_frame_id = "body";
}

abbrev message : ℕ → Message
message t = record {
  stamp = t;
  arrival_ros = t + 1000000;
  arrival_wall = t + 1000000;
  frame_id = "odom";
  child_frame_id = "body";
}

abbrev messages : List Message
messages = message 10000000 ∷ (message 50000000 ∷ (message 90000000 ∷ []))

observe_all-stamps_ok_example :
    stamps_ok
      (observe_all stream_contract (message 50000000 ∷ (message 50000000 ∷ [])) (new_stream none))
    ≡ (stamps_ok (new_stream none)
        && (all (λ x. ltb 0 x.stamp) (message 50000000 ∷ (message 50000000 ∷ []))
            && Order.rises_from none (message 50000000 ∷ (message 50000000 ∷ []))))
observe_all-stamps_ok_example =
    Order.observe_all-stamps_ok stream_contract (message 50000000 ∷ (message 50000000 ∷ []))
      (new_stream none)

timing_gates-in_order_example :
    (2 ≤ 3)
    × ((all (λ x. ltb 0 x.stamp) messages ≡ true)
        × ((Order.rises_from none messages ≡ true)
            × (all (flight_safety.Vio.Stream.Summary.has_frames stream_contract) messages ≡ true)))
unfolding flight_safety.Vio.Stream.Summary.timing_gates flight_safety.Vio.Stream.Summary.span
    flight_safety.Vio.Stream.Summary.latency_ok observe_all observe note_message note_latency
    note_stamp note_arrival stamps_ok arrivals_ok gaps_ok frames_ok
timing_gates-in_order_example =
    flight_safety.Vio.Stream.Summary.timing_gates-in_order stream_contract none messages 100000000
      100000000 (some 150000000) refl
