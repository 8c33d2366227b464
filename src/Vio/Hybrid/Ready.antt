-- ===== src/Vio/Hybrid/Ready.antt =====
-- The first part of `summarize`: readiness, diagnostics, fault counters, and the mapping's start.
use flight_safety.Prelude.{
  Bool, List, Option, String, [], all, any, false, if◌then◌else◌, is_some, keep_if, leb, length,
  ltb, map, none, not, some, true, ℕ, ◌&&◌, ◌+◌, ◌-◌, ◌==◌, ◌||◌, ◌∷◌,
}
use flight_safety.Vio.Hybrid.{Config, MappingStart, Reading, ReadySample}
use flight_safety.Vio.Identity.Summary.{all_same_text}
use flight_safety.Vio.Texts.{as_bool, ends_with, starts_with}
use flight_safety.Vio.Gates.{distance, is_filled, is_increasing}
use flight_safety.Prelude.Text.{lookup, str_eq, str_mem}
use flight_safety.Vio.Identity.{uint_at}

-- The arrival of the first sample that says ready.
unfoldable pub first_ready : List ReadySample → Option ℕ
first_ready [] = none
first_ready (x ∷ rest) = let later = first_ready rest in if x.value then some x.arrival else later

abbrev pub is_from : Option ℕ → ℕ → Bool
is_from none t = false
is_from (some first) t = leb first t

-- `false_after_ready == 0`
unfoldable pub never_false : Option ℕ → List ReadySample → Bool
never_false first xs = all (λ x. x.value || not (is_from first x.arrival)) xs

unfoldable pub final_ready : List ReadySample → Bool
final_ready [] = false
final_ready (x ∷ []) = x.value
final_ready (x ∷ y ∷ rest) = final_ready (y ∷ rest)

-- The diagnostics since the first ready sample.
unfoldable pub diagnostics_from : Option ℕ → List Reading → List Reading
diagnostics_from first xs = keep_if (λ d. is_from first d.arrival_wall) xs

-- `0 < right - left <= limit` for neighbours.
unfoldable pub steps_within : ℕ → List ℕ → Bool
steps_within limit [] = true
steps_within limit (x ∷ []) = true
steps_within limit (x ∷ y ∷ rest) = (ltb x y && leb (y - x) limit) && steps_within limit (y ∷ rest)

abbrev pub arrivals_of : List Reading → List ℕ
arrivals_of xs = map (λ d. d.arrival_wall) xs

abbrev pub stamps_of : List Reading → List ℕ
stamps_of xs = map (λ d. d.stamp) xs

abbrev pub last_of : List ℕ → Option ℕ
last_of [] = none
last_of (x ∷ []) = some x
last_of (x ∷ y ∷ rest) = last_of (y ∷ rest)

abbrev pub fresh_at : ℕ → ℕ → Option ℕ → Bool
fresh_at limit now none = false
fresh_at limit now (some t) = leb t now && leb (now - t) limit

unfoldable pub diagnostic_fresh : Config → ℕ → List Reading → Bool
diagnostic_fresh cfg now xs = fresh_at cfg.diagnostic_max_idle now (last_of (arrivals_of xs))

unfoldable pub diagnostic_continuous : Config → List Reading → Bool
diagnostic_continuous cfg xs =
    leb 2 (length xs) && steps_within cfg.diagnostic_max_gap (arrivals_of xs)

abbrev pub is_unique : Reading → Bool
is_unique d = d.well_formed && length d.duplicate_keys == 0

abbrev pub ready_text : Option String → String
ready_text none = "false"
ready_text (some s) = s

abbrev pub says_ready : Reading → Bool
says_ready d = as_bool (ready_text (lookup "ready" d.values))

unfoldable pub diagnostic_ok : List Reading → Bool
diagnostic_ok xs = is_filled xs && all (λ d. d.level == 0 && (is_unique d && says_ready d)) xs

unfoldable pub keyvalues_unique : List Reading → Bool
keyvalues_unique xs = is_filled xs && all is_unique xs

unfoldable pub header_gate : List Reading → Bool
header_gate xs = is_filled xs && (all (λ d. ltb 0 d.stamp) xs && is_increasing (stamps_of xs))

unfoldable pub header_latency_gate : ℕ → List Reading → Bool
header_latency_gate limit xs =
    is_filled xs && all (λ d. leb (distance d.arrival_ros d.stamp) limit) xs

-- `_is_fault_key`
unfoldable pub is_fault_key : String → Bool
unfolding starts_with ends_with
is_fault_key key =
    any (starts_with key) ("drop_" ∷ ("invalid_" ∷ ("fault_" ∷ [])))
    || any (ends_with key) ("_rollback" ∷ ("_error" ∷ ("_overflow" ∷ ("_timeout" ∷ []))))

-- The fault keys of the record are exactly the required ones.
unfoldable pub has_fault_keys : List String → Reading → Bool
has_fault_keys required d =
    all (λ key. is_fault_key key && is_some (lookup key d.values)) required
    && all (λ entry. not (is_fault_key entry.0) || str_mem entry.0 required) d.values

unfoldable pub counter_schema : List String → List Reading → Bool
counter_schema required xs = keyvalues_unique xs && all (has_fault_keys required) xs

abbrev pub cons_some {ℓ} : {A : Type ℓ} → Option A → Option (List A) → Option (List A)
cons_some none rest = none
cons_some (some x) none = none
cons_some (some x) (some rest) = some (x ∷ rest)

-- The values, if none of them is missing.
unfoldable pub all_some {ℓ} : {A : Type ℓ} → List (Option A) → Option (List A)
all_some [] = some []
all_some (x ∷ rest) = cons_some x (all_some rest)

-- A fault counter over the diagnostics; `none` if one of them has no count.
unfoldable pub counts : String → List Reading → Option (List ℕ)
unfolding all_some
counts key xs = all_some (map (λ d. uint_at key d.values) xs)

unfoldable pub is_nondecreasing : List ℕ → Bool
is_nondecreasing [] = true
is_nondecreasing (x ∷ []) = true
is_nondecreasing (x ∷ y ∷ rest) = leb x y && is_nondecreasing (y ∷ rest)

-- The last count less the first is 0.
abbrev pub is_delta_zero : List ℕ → Option ℕ → Bool
is_delta_zero [] last = false
is_delta_zero (first ∷ rest) none = false
is_delta_zero (first ∷ rest) (some last) = last == first

-- A counter is there in every diagnostic, never falls, and ends as it began.
abbrev pub is_quiet : Option (List ℕ) → Bool
is_quiet none = false
is_quiet (some xs) = is_filled xs && (is_nondecreasing xs && is_delta_zero xs (last_of xs))

-- The last faults are all there and all the same.
abbrev pub same_texts : Option (List String) → Bool
same_texts none = false
same_texts (some xs) = all_same_text xs

unfoldable pub no_new_faults : List String → List Reading → Bool
unfolding all_some
no_new_faults required xs =
    counter_schema required xs
    && (all (λ key. is_quiet (counts key xs)) required
        && same_texts (all_some (map (λ d. lookup "last_fault" d.values) xs)))

abbrev pub mapping_valid : List MappingStart → Bool
mapping_valid starts = is_filled starts && all (λ m. m.valid) starts

abbrev pub first_start : List MappingStart → Option MappingStart
first_start [] = none
first_start (m ∷ rest) = some m

-- Some sample says not ready in the interval.
unfoldable pub not_ready_between : ℕ → ℕ → List ReadySample → Bool
not_ready_between from to xs = any (λ x. not x.value && (leb from x.arrival && leb x.arrival to)) xs

abbrev pub before_mapping : ℕ → List Reading → List Reading
before_mapping arrival xs = keep_if (λ d. leb d.arrival_wall arrival) xs

abbrev pub after_stable_ready :
    Config → List ReadySample → List Reading → Option ℕ → Option MappingStart → Bool
after_stable_ready cfg ready xs none start = false
after_stable_ready cfg ready xs (some first) none = false
after_stable_ready cfg ready xs (some first) (some start) =
    leb (first + cfg.ready_stable_before_mapping) start.arrival
    && (leb cfg.ready_diagnostic_samples_before_mapping (length (before_mapping start.arrival xs))
        && (all (λ d. d.level == 0 && says_ready d) (before_mapping start.arrival xs)
            && not (not_ready_between first start.arrival ready)))

unfoldable pub mapping_after_stable_ready :
    Config → List ReadySample → List Reading → Option ℕ → List MappingStart → Bool
mapping_after_stable_ready cfg ready xs first starts =
    mapping_valid starts && after_stable_ready cfg ready xs first (first_start starts)

abbrev pub same_text : Option String → Option String → Bool
same_text (some a) (some b) = str_eq a b
same_text a b = false

abbrev pub is_session : Option MappingStart → List String → Bool
is_session (some start) (session ∷ []) = same_text start.value (some session)
is_session _ sessions = false

unfoldable pub mapping_session_bound : List MappingStart → List String → Bool
mapping_session_bound starts sessions =
    mapping_valid starts && is_session (first_start starts) sessions
