-- ===== src/Vio/Hybrid/Measured.antt =====
-- The clock's measurements, and theorems about `domain_measurements`.
use flight_safety.Prelude.{
  List, Option, [], all, arith, get_elem?, map, none, some, true, ℕ, ◌+◌, ◌∷◌, ◌≡◌, ap, ◌∙◌,
}
use flight_safety.Vio.Hybrid.{Config, Reading}
use flight_safety.Vio.Hybrid.Domain.{
  Measurement, are_measurements, eq_ℤ, measurements, int_at, measure, measurement,
}
use flight_safety.Vio.Hybrid.Ready.{all_some}
use flight_safety.Vio.Gates.{contiguous_from}
use flight_safety.Vio.Hybrid.Unchanged.{cons_some-parts}
use flight_safety.Prelude.Int.{sub_ℕ, negsuc, pos, ℤ}
use flight_safety.Vio.Identity.{uint_at}

-- The measurement is what the texts of the status say, and its offset is the difference of the two
-- stamps.
pub record IsMeasurement (d : Reading) (m : Measurement) : Type 0 where
  pub sequence : uint_at "measurement_sequence" d.values ≡ some m.sequence
  pub camera : uint_at "d435_stamp_ns" d.values ≡ some m.d435
  pub controller : uint_at "fcu_stamp_ns" d.values ≡ some m.fcu
  pub offset : int_at "measured_offset_ns" d.values ≡ some (sub_ℕ m.d435 m.fcu)

-- One measurement for each status, in order.
abbrev pub AreMeasurements : List Reading → List Measurement → Type 0
AreMeasurements [] [] = Unit
AreMeasurements (d ∷ ds) (m ∷ ms) = IsMeasurement d m × AreMeasurements ds ms
AreMeasurements [] (m ∷ ms) = ⊥
AreMeasurements (d ∷ ds) [] = ⊥

eq_ℤ-same : (a b : ℤ) → eq_ℤ a b ≡ true → a ≡ b
eq_ℤ-same (pos a) (pos b) h = ap pos (ground (arith, h))
eq_ℤ-same (negsuc a) (negsuc b) h = ap negsuc (ground (arith, h))
eq_ℤ-same (pos a) (negsuc b) h = absurd (ground (arith, h))
eq_ℤ-same (negsuc a) (pos b) h = absurd (ground (arith, h))

measurement-parts :
    (n c f : Option ℕ) (o : Option ℤ) (m : Measurement)
    → measurement n c f o ≡ some m
    → (n ≡ some m.sequence) × (c ≡ some m.d435) × (f ≡ some m.fcu) × (o ≡ some m.offset)
measurement-parts none c f o m h = absurd (ground (arith, h))
measurement-parts (some n) none f o m h = absurd (ground (arith, h))
measurement-parts (some n) (some c) none o m h = absurd (ground (arith, h))
measurement-parts (some n) (some c) (some f) none m h = absurd (ground (arith, h))
measurement-parts (some n) (some c) (some f) (some o) m h = ground (arith, h)

measure-IsMeasurement :
    (d : Reading) (m : Measurement)
    → measure d ≡ some m
    → eq_ℤ m.offset (sub_ℕ m.d435 m.fcu) ≡ true
    → IsMeasurement d m
unfolding measure
measure-IsMeasurement d m h exact =
    let parts =
      measurement-parts (uint_at "measurement_sequence" d.values) (uint_at "d435_stamp_ns" d.values)
        (uint_at "fcu_stamp_ns" d.values) (int_at "measured_offset_ns" d.values) m h in
    record {
      sequence = parts.0;
      camera = parts.1;
      controller = parts.2;
      offset = parts.3 ∙ ap some (eq_ℤ-same m.offset (sub_ℕ m.d435 m.fcu) exact);
    }

all_some-AreMeasurements :
    (xs : List Reading) (ms : List Measurement)
    → all_some (map measure xs) ≡ some ms
    → all (λ m. eq_ℤ m.offset (sub_ℕ m.d435 m.fcu)) ms ≡ true
    → AreMeasurements xs ms
unfolding all_some
all_some-AreMeasurements [] [] h exact = tt
all_some-AreMeasurements [] (m ∷ ms) h exact = absurd (ground (arith, h))
all_some-AreMeasurements (d ∷ ds) [] h exact =
    let parts = cons_some-parts (measure d) (all_some (map measure ds)) [] h in
    absurd (ground (arith, parts.4))
all_some-AreMeasurements (d ∷ ds) (m ∷ ms) h exact =
    let parts = cons_some-parts (measure d) (all_some (map measure ds)) (m ∷ ms) h in
    let head : measure d ≡ some m = ground (arith, parts.2, parts.4) in
    let tail : all_some (map measure ds) ≡ some ms = ground (arith, parts.3, parts.4) in
    (
      measure-IsMeasurement d m head (ground (arith, exact)),
      all_some-AreMeasurements ds ms tail (ground (arith, exact)),
    )

-- The clock's measurements: one for each status, and their numbers count up by one.
pub record IsMeasured (cfg : Config) (xs : List Reading) : Type 0 where
  pub taken : List Measurement
  pub each : AreMeasurements xs taken
  pub none_missing :
      (first i n : ℕ)
      → get_elem? (map (λ m. m.sequence) taken) 0 ≡ some first
      → get_elem? (map (λ m. m.sequence) taken) i ≡ some n
      → n ≡ first + i

pub measured_lem :
    (cfg : Config) (xs : List Reading) (ms : Option (List Measurement))
    → measurements xs ≡ ms
    → are_measurements cfg ms ≡ true
    → IsMeasured cfg xs
unfolding measurements
measured_lem cfg xs none there h = absurd (ground (arith, h))
measured_lem cfg xs (some ms) there h = record {
  taken = ms;
  each = all_some-AreMeasurements xs ms there (ground (arith, h));
  none_missing = λ first i n at_0 at_i.
      contiguous_from (map (λ m. m.sequence) ms) first i n (ground (arith, h)) at_0 at_i;
}
