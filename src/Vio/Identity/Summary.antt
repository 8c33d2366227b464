-- ===== src/Vio/Identity/Summary.antt =====
-- `IdentityAccumulator.summarize`: its gates, with theorems about them.
use flight_safety.Prelude.{
  Bool, List, Option, String, [], all, arith, false, get_elem?, is_some, leb, length, ltb, map,
  none, refl, some, suc, true, zero, ℕ, ◌&&◌, ◌+◌, ◌-◌, ◌==◌, ◌∷◌, ◌≡◌, ◌≤◌,
}
use flight_safety.Vio.Identity.{Config, Join, Parsed}
use flight_safety.Vio.Gates.{contiguous_from, distance, is_contiguous, is_filled, is_increasing}
use flight_safety.Prelude.Text.{str_eq}

abbrev pub typed : Option Parsed → List Parsed → List Parsed
typed none rest = rest
typed (some p) rest = p ∷ rest

-- `parsed`
unfoldable pub parsed_list : List Join → List Parsed
parsed_list [] = []
parsed_list (item ∷ rest) = typed item.parsed (parsed_list rest)

-- `len(set(xs)) == 1`
abbrev pub all_same_text : List String → Bool
all_same_text [] = false
all_same_text (x ∷ rest) = all (λ y. str_eq y x) rest

abbrev pub all_same : List ℕ → Bool
all_same [] = false
all_same (x ∷ rest) = all (λ y. y == x) rest

-- `arrivals[-1]`
unfoldable pub last_arrival : List Join → Option ℕ
last_arrival [] = none
last_arrival (item ∷ []) = some item.arrival_wall
last_arrival (item ∷ next ∷ rest) = last_arrival (next ∷ rest)

-- `0 <= idle <= limit`
abbrev pub is_fresh : ℕ → ℕ → Option ℕ → Bool
is_fresh limit now none = false
is_fresh limit now (some at) = leb at now && leb (now - at) limit

-- Each gate of the report, in its order.
pub record IdentityGates : Type 0 where
  pub typed_exact_schema : Bool
  pub no_duplicate_key_values : Bool
  pub all_status_levels_ok : Bool
  pub header_stamps_monotonic : Bool
  pub arrival_clock_monotonic : Bool
  pub header_latency : Bool
  pub fresh_at_finish : Bool
  pub single_nonempty_session : Bool
  pub no_reset_during_window : Bool
  pub correction_sequence_contiguous : Bool
  pub correction_stamps_monotonic_unique : Bool

unfoldable pub gates : Config → ℕ → List Join → IdentityGates
gates cfg now records =
    let parsed = parsed_list records in
    let stamps = map (λ item. item.stamp) records in
    let arrivals = map (λ item. item.arrival_wall) records in
    let sequences = map (λ p. p.correction_sequence) parsed in
    let correction_stamps = map (λ p. p.correction_stamp) parsed in
    record {
      typed_exact_schema = leb cfg.min_samples (length records) && length parsed == length records;
      no_duplicate_key_values =
          is_filled records
          && all (λ item. item.well_formed && length item.duplicate_keys == 0) records;
      all_status_levels_ok = is_filled records && all (λ item. item.level == 0) records;
      header_stamps_monotonic =
          is_filled stamps && (all (λ t. ltb 0 t) stamps && is_increasing stamps);
      arrival_clock_monotonic = is_filled arrivals && is_increasing arrivals;
      header_latency =
          is_filled records
          && all (λ item. leb (distance item.arrival_ros item.stamp) cfg.max_abs_header_latency)
              records;
      fresh_at_finish = is_fresh cfg.max_idle now (last_arrival records);
      single_nonempty_session = all_same_text (map (λ p. p.session_id) parsed);
      no_reset_during_window = all_same (map (λ p. p.reset_counter) parsed);
      correction_sequence_contiguous = is_filled sequences && is_contiguous sequences;
      correction_stamps_monotonic_unique =
          is_filled correction_stamps && is_increasing correction_stamps;
    }

-- `all(gates.values())`
unfoldable pub passes : IdentityGates → Bool
passes g =
    g.typed_exact_schema
    && (g.no_duplicate_key_values
        && (g.all_status_levels_ok
            && (g.header_stamps_monotonic
                && (g.arrival_clock_monotonic
                    && (g.header_latency
                        && (g.fresh_at_finish
                            && (g.single_nonempty_session
                                && (g.no_reset_during_window
                                    && (g.correction_sequence_contiguous
                                        && g.correction_stamps_monotonic_unique)))))))))

length-parsed_list : (records : List Join) → length (parsed_list records) ≤ length records
unfolding parsed_list
length-parsed_list [] = omega arith
length-parsed_list (item ∷ rest) = ground (arith, length-parsed_list rest)

parsed_list-full :
    (records : List Join)
    → length (parsed_list records) ≡ length records
    → all (λ item. is_some item.parsed) records ≡ true
unfolding parsed_list
parsed_list-full [] h = refl
parsed_list-full (item ∷ rest) h = ground (arith, length-parsed_list rest, parsed_list-full rest)

same_from :
    (xs : List ℕ) (i a b : ℕ)
    → all_same xs ≡ true
    → get_elem? xs 0 ≡ some a
    → get_elem? xs i ≡ some b
    → b ≡ a
same_from [] i a b h at_0 at_i = absurd (ground (arith, at_0))
same_from (x ∷ rest) zero a b h at_0 at_i = ground (arith, at_0, at_i)
same_from (x ∷ []) (suc i) a b h at_0 at_i = absurd (ground (arith, at_i))
same_from (x ∷ y ∷ rest) (suc zero) a b h at_0 at_i = ground (arith, at_0, at_i)
same_from (x ∷ y ∷ rest) (suc (suc i)) a b h at_0 at_i =
    same_from (x ∷ rest) (suc i) a b (ground arith) at_0 at_i

-- The corrections of a window without a break.
pub record IsUnbroken (cfg : Config) (records : List Join) : Type 0 where
  pub enough : cfg.min_samples ≤ length records
  pub all_parsed : all (λ item. is_some item.parsed) records ≡ true
  pub one_reset :
      (i a b : ℕ)
      → get_elem? (map (λ p. p.reset_counter) (parsed_list records)) 0 ≡ some a
      → get_elem? (map (λ p. p.reset_counter) (parsed_list records)) i ≡ some b
      → b ≡ a
  pub no_correction_missing :
      (i a b : ℕ)
      → get_elem? (map (λ p. p.correction_sequence) (parsed_list records)) 0 ≡ some a
      → get_elem? (map (λ p. p.correction_sequence) (parsed_list records)) i ≡ some b
      → b ≡ a + i

-- If every gate passes, there are enough records, every record was parsed, the reset counter of all
-- of them is that of the first, and the i-th correction's number is the first one's plus i, so no
-- correction of the window is missing.
pub passes-IsUnbroken :
    (cfg : Config) (now : ℕ) (records : List Join)
    → passes (gates cfg now records) ≡ true
    → IsUnbroken cfg records
unfolding passes gates
passes-IsUnbroken cfg now records h = record {
  enough = ground (arith, h);
  all_parsed = parsed_list-full records (ground (arith, h));
  one_reset = λ i a b at_0 at_i.
      same_from (map (λ p. p.reset_counter) (parsed_list records)) i a b (ground (arith, h)) at_0
        at_i;
  no_correction_missing = λ i a b at_0 at_i.
      contiguous_from (map (λ p. p.correction_sequence) (parsed_list records)) a i b
        (ground (arith, h)) at_0 at_i;
}
