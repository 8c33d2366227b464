-- ===== src/Vio/Stream/Summary.antt =====
-- `StreamAccumulator.summarize`: the gates on the timing and the frames, with theorems about them.
use flight_safety.Prelude.{
  Bool, List, Option, [], all, arith, false, if◌then◌else◌, leb, length, ltb, none, some, true, ℕ,
  ◌&&◌, ◌*◌, ◌+◌, ◌-◌, ◌==◌, ◌∷◌, ◌≡◌, ◌≤◌, leb→le, sym, ◌∙◌,
}
use flight_safety.Vio.Stream.{
  Contract, Message, Moment, Stream, arrivals_ok, frames_ok, gaps_ok, new_stream, note_arrival,
  note_latency, note_message, note_stamp, observe, observe_all, stamps_ok,
}
use flight_safety.Vio.Gates.{distance, is_filled}
use flight_safety.Prelude.Int.{neg_part, pos_part, ℤ}
use flight_safety.Vio.Stream.Order.{observe-sample_count, observe_all-stamps_ok, rises_from}
use flight_safety.Response.Node.{start}
use flight_safety.Prelude.Text.{str_eq}

-- The last moment less the first, if there are two messages and it is positive.
abbrev pub span_of : (Moment → ℕ) → Option Moment → Option Moment → Option ℕ
span_of read (some a) (some b) = if ltb (read a) (read b) then some (read b - read a) else none
span_of read a b = none

unfoldable pub span : (Moment → ℕ) → Stream → Option ℕ
span read s = if ltb 1 s.sample_count then span_of read s.first s.last else none

-- `rate >= min_rate_hz`, cross-multiplied.
abbrev pub rate_ok : ℕ → ℕ → Option ℕ → Bool
rate_ok min_rate count none = false
rate_ok min_rate count (some d) = leb (min_rate * d) ((count - 1) * 1000000000000000)

-- `0 <= now - then <= limit`
abbrev pub recent_enough : ℕ → ℕ → Option Moment → Bool
recent_enough limit now none = false
recent_enough limit now (some m) = leb m.arrival now && leb (now - m.arrival) limit

abbrev pub header_fresh : ℕ → ℕ → Option Moment → Bool
header_fresh limit now none = false
header_fresh limit now (some m) = ltb 0 m.header && leb (distance now m.header) limit

abbrev pub first_delay_ok : ℕ → Option Moment → Option ℕ → Bool
first_delay_ok limit (some m) (some start) = leb start m.arrival && leb (m.arrival - start) limit
first_delay_ok limit m start = false

-- The ratio is the arrivals' span to the requested duration, or to itself; at most one.
abbrev pub coverage_ok : ℕ → Option ℕ → Option ℕ → Bool
coverage_ok ratio none requested = false
coverage_ok ratio (some d) none = leb ratio 1000000
coverage_ok ratio (some d) (some duration) =
    ltb 0 duration && (leb ratio 1000000 && leb (ratio * duration) (d * 1000000))

abbrev pub magnitude : ℤ → ℕ
magnitude a = pos_part a + neg_part a

unfoldable pub latency_ok : ℕ → List ℤ → Bool
latency_ok limit xs = is_filled xs && all (λ d. leb (magnitude d) limit) xs

-- The gates from `minimum_samples` to `window_coverage`.
unfoldable pub timing_gates : Contract → ℕ → ℕ → Option ℕ → Stream → Bool
timing_gates cfg now_wall now_ros requested s =
    leb cfg.min_samples s.sample_count
    && (rate_ok cfg.min_rate s.sample_count (span (λ m. m.arrival) s)
        && (rate_ok cfg.min_rate s.sample_count (span (λ m. m.header) s)
            && (gaps_ok s
                && (s.arrival_gap_count == 0
                    && (recent_enough cfg.max_idle now_wall s.last
                        && (header_fresh (cfg.max_idle + cfg.max_abs_header_latency) now_ros s.last
                            && (stamps_ok s
                                && (arrivals_ok s
                                    && (frames_ok s
                                        && (latency_ok cfg.max_abs_header_latency s.latencies
                                            && (first_delay_ok cfg.max_first_sample_delay s.first
                                                  s.window_start
                                                && coverage_ok cfg.min_window_coverage
                                                    (span (λ m. m.arrival) s) requested)))))))))))

abbrev pub has_frames : Contract → Message → Bool
has_frames cfg x =
    str_eq x.frame_id cfg.expected_frame_id && str_eq x.child_frame_id cfg.expected_child_frame_id

observe-frames_ok :
    (cfg : Contract) (x : Message) (s : Stream)
    → frames_ok (observe cfg x s) ≡ (frames_ok s && has_frames cfg x)
unfolding frames_ok observe note_message note_latency note_stamp note_arrival
observe-frames_ok cfg x s = ground arith

observe_all-frames_ok :
    (cfg : Contract) (xs : List Message) (s : Stream)
    → frames_ok (observe_all cfg xs s) ≡ (frames_ok s && all (has_frames cfg) xs)
unfolding observe_all
observe_all-frames_ok cfg [] s = ground arith
observe_all-frames_ok cfg (x ∷ rest) s =
    ground (arith, observe_all-frames_ok cfg rest (observe cfg x s), observe-frames_ok cfg x s)

observe_all-sample_count :
    (cfg : Contract) (xs : List Message) (s : Stream)
    → (observe_all cfg xs s).sample_count ≡ length xs + s.sample_count
unfolding observe_all
observe_all-sample_count cfg [] s = omega arith
observe_all-sample_count cfg (x ∷ rest) s =
    omega (arith, observe_all-sample_count cfg rest (observe cfg x s), observe-sample_count cfg x s)

both : (a b : Bool) → (a && b) ≡ true → (a ≡ true) × (b ≡ true)
both a b h = ground arith

passed_parts :
    (a b c d e f g h i j k : Bool)
    → (a && (b && (c && (d && (e && (f && (g && (h && (i && (j && k)))))))))) ≡ true
    → (a ≡ true) × ((h ≡ true) × (j ≡ true))
passed_parts a b c d e f g h i j k p = ground (arith, p)

-- If the timing gates of a new stream pass after some messages, these are enough, every header
-- stamp is positive and greater than the one before, and every message has the expected frames.
pub timing_gates-in_order :
    (cfg : Contract) (window : Option ℕ) (xs : List Message) (now_wall now_ros : ℕ)
    → (requested : Option ℕ)
    → timing_gates cfg now_wall now_ros requested (observe_all cfg xs (new_stream window)) ≡ true
    → (cfg.min_samples ≤ length xs)
      × ((all (λ x. ltb 0 x.stamp) xs ≡ true)
          × ((rises_from none xs ≡ true) × (all (has_frames cfg) xs ≡ true)))
unfolding timing_gates stamps_ok frames_ok
timing_gates-in_order cfg window xs now_wall now_ros requested passed =
    let s = observe_all cfg xs (new_stream window) in
    let read =
      passed_parts (leb cfg.min_samples s.sample_count)
        (rate_ok cfg.min_rate s.sample_count (span (λ m. m.arrival) s))
        (rate_ok cfg.min_rate s.sample_count (span (λ m. m.header) s)) (gaps_ok s)
        (s.arrival_gap_count == 0) (recent_enough cfg.max_idle now_wall s.last)
        (header_fresh (cfg.max_idle + cfg.max_abs_header_latency) now_ros s.last) (stamps_ok s)
        (arrivals_ok s) (frames_ok s)
        (latency_ok cfg.max_abs_header_latency s.latencies
          && (first_delay_ok cfg.max_first_sample_delay s.first s.window_start
              && coverage_ok cfg.min_window_coverage (span (λ m. m.arrival) s) requested))
        passed in
    let in_order = sym (observe_all-stamps_ok cfg xs (new_stream window)) ∙ read.1.0 in
    let framed = sym (observe_all-frames_ok cfg xs (new_stream window)) ∙ read.1.1 in
    let ordered = both (all (λ x. ltb 0 x.stamp) xs) (rises_from none xs) in_order in
    (
      omega (
        arith,
        leb→le cfg.min_samples s.sample_count read.0,
        observe_all-sample_count cfg xs (new_stream window),
      ),
      (ordered.0, (ordered.1, framed)),
    )
