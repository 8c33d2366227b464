-- ===== src/Vio/Linkage.antt =====
-- `LinkageAccumulator`: the join of corrections with typed identities, and the distance of each
-- correction from the propagated poses.
pub mod Propagated
pub mod OneToOne
pub mod Passed
use flight_safety.Prelude.{
  Bool, List, Option, String, [], all, any, false, if◌then◌else◌, leb, length, map, none, not, some,
  suc, ℕ, ◌&&◌, ◌++◌, ◌==◌, ◌∷◌,
}
use flight_safety.Vio.Identity.{Join, Parsed}
use flight_safety.Vio.Gates.{distance, is_contiguous, is_filled}
use flight_safety.Prelude.Text.{insert, lookup}
use flight_safety.Diagnosis.{joined}

pub record Sample : Type 0 where
  pub stamp : ℕ
  pub arrival : ℕ

-- The configuration; `stamp_limit` is the limit on the identity's stamp.
pub record Linkage : Type 0 where
  pub correction_stream : String
  pub propagated_stream : String
  pub max_header_delta : ℕ
  pub max_status_arrival_delta : ℕ
  pub stamp_limit : ℕ
  pub require_typed_identity_join : Bool

abbrev pub Streams : Type 0
Streams = List (String × List Sample)

abbrev pub or_empty : Option (List Sample) → List Sample
or_empty none = []
or_empty (some xs) = xs

-- `streams.get(name, [])`
abbrev pub samples_of : String → Streams → List Sample
samples_of name streams = or_empty (lookup name streams)

unfoldable pub observe_stream : String → Sample → Streams → Streams
observe_stream name x streams = insert name (samples_of name streams ++ x ∷ []) streams

abbrev pub closer : ℕ → Option ℕ → ℕ
closer d none = d
closer d (some e) = if leb d e then d else e

-- `min((abs(stamp - other) for other in propagated), default=None)`
unfoldable pub nearest : ℕ → List Sample → Option ℕ
nearest stamp [] = none
nearest stamp (x ∷ rest) = some (closer (distance stamp x.stamp) (nearest stamp rest))

abbrev pub within : ℕ → Option ℕ → Bool
within limit none = false
within limit (some d) = leb d limit

unfoldable pub propagation_gate : Linkage → List Sample → List Sample → Bool
propagation_gate cfg corrections propagated =
    is_filled corrections
    && (is_filled propagated
        && all (λ c. within cfg.max_header_delta (nearest c.stamp propagated)) corrections)

-- A typed identity: where it stands among the typed ones, and when it arrived.
pub record Typed : Type 0 where
  pub identity : Parsed
  pub arrival_wall : ℕ

abbrev pub typed_of : Join → Option Parsed → List Typed → List Typed
typed_of item none rest = rest
typed_of item (some p) rest = record { identity = p; arrival_wall = item.arrival_wall } ∷ rest

-- `parsed_identity`
unfoldable pub parsed_identity : List Join → List Typed
parsed_identity [] = []
parsed_identity (item ∷ rest) = typed_of item item.parsed (parsed_identity rest)

abbrev pub mem_ℕ : ℕ → List ℕ → Bool
mem_ℕ n = any (λ m. m == n)

-- The unused identities near the correction, from the index `i` on.
unfoldable pub candidates : ℕ → List ℕ → ℕ → ℕ → List Typed → List (ℕ × Typed)
candidates limit used stamp i [] = []
candidates limit used stamp i (item ∷ rest) =
    let later = candidates limit used stamp (suc i) rest in
    if not (mem_ℕ i used) && leb (distance stamp item.identity.correction_stamp) limit
    then (i, item) ∷ later
    else later

pub record Matching : Type 0 where
  pub used : List ℕ
  pub matched : List (Sample × Typed)
  pub ambiguous : ℕ

-- One correction: matched only if there is exactly one candidate.
abbrev pub take_candidate : Sample → List (ℕ × Typed) → Matching → Matching
take_candidate c (found ∷ []) m = record m {
  used = found.0 ∷ m.used;
  matched = m.matched ++ (c, found.1) ∷ [];
}
take_candidate c [] m = record m { ambiguous = suc m.ambiguous }
take_candidate c (found ∷ next ∷ rest) m = record m { ambiguous = suc m.ambiguous }

unfoldable pub match_step : ℕ → List Typed → Sample → Matching → Matching
match_step limit typed c m = take_candidate c (candidates limit m.used c.stamp 0 typed) m

unfoldable pub match_all : ℕ → List Typed → List Sample → Matching → Matching
match_all limit typed [] m = m
match_all limit typed (c ∷ rest) m = match_all limit typed rest (match_step limit typed c m)

abbrev pub no_matching : Matching
no_matching = record { used = []; matched = []; ambiguous = 0 }

-- The gates of `summarize`.
unfoldable pub one_to_one : List Join → List Typed → List Sample → Matching → Bool
one_to_one records typed corrections m =
    is_filled corrections
    && (length records == length corrections
        && (length typed == length corrections
            && (length m.matched == length corrections
                && (length m.used == length typed && m.ambiguous == 0))))

unfoldable pub stamp_link : ℕ → List (Sample × Typed) → Bool
stamp_link limit matched =
    all (λ pair. leb (distance pair.0.stamp pair.1.identity.correction_stamp) limit) matched

unfoldable pub arrival_link : ℕ → List (Sample × Typed) → Bool
arrival_link limit matched =
    all (λ pair. leb (distance pair.0.arrival pair.1.arrival_wall) limit) matched

unfoldable pub summarize : Linkage → Streams → List Join → Bool
summarize cfg streams records =
    let corrections = samples_of cfg.correction_stream streams in
    let typed = parsed_identity records in
    let m = match_all cfg.stamp_limit typed corrections no_matching in
    let joined = one_to_one records typed corrections m in
    propagation_gate cfg corrections (samples_of cfg.propagated_stream streams)
    && (cfg.require_typed_identity_join
        && (joined
            && (stamp_link cfg.stamp_limit m.matched
                && (arrival_link cfg.max_status_arrival_delta m.matched
                    && is_contiguous
                        (map (λ pair. pair.1.identity.correction_sequence) m.matched)))))
