-- ===== src/Vio/Profile/Safe.antt =====
-- Theorems about `validate_profile`.
use flight_safety.Prelude.{
  All, Bool-cases, List, Option, String, [], all, ap, arith, false, get_elem?, inl, inr, map, none,
  not, refl, some, suc, true, zero, ℕ, ◌++◌, ◌∷◌, ◌≡◌, Bool,
}
use flight_safety.Vio.Profile.Checks.{Check, check, first_failure}
use flight_safety.Json.{
  Fields, Value, array, boolean, fields_of, get, integer, is_distinct_texts, is_false, is_text,
  null, object, real, str,
}
use flight_safety.Vio.Profile.Streams.{
  all_stream_checks, as_text, head_checks, is_stream_topic, safety_of, stream_checks, stream_name,
  streams_checks, streams_of,
}
use flight_safety.Prelude.Text.{eq_iff, str_eq}
use flight_safety.Vio.Profile.Sections.{
  evidence_checks, hybrid_checks, identity_checks, linkage_checks, provenance_checks, section,
  stream_names,
}
use flight_safety.Vio.Profile.Whole.{profile_checks, validate_profile}
use flight_safety.Vio.Texts.{starts_with}
use flight_safety.Vio.Gates.{is_filled}

all-append :
    (xs ys : List Check)
    → all (λ c. c.passed) (xs ++ ys) ≡ true
    → (all (λ c. c.passed) xs ≡ true) × (all (λ c. c.passed) ys ≡ true)
all-append [] ys h = (refl, h)
all-append (x ∷ xs) ys h = ground (arith, h, all-append xs ys)

first_failure-none : (cs : List Check) → first_failure cs ≡ none → all (λ c. c.passed) cs ≡ true
unfolding first_failure
first_failure-none [] h = refl
first_failure-none (c ∷ rest) h = elim (Bool-cases c.passed) [
  | inl passed ↦ ground (arith, passed, first_failure-none rest (ground (arith, h, passed)))
  | inr failed ↦ absurd (ground (arith, h, failed))
]

tail_passed :
    (c : Check) (cs : List Check)
    → all (λ d. d.passed) (c ∷ cs) ≡ true
    → all (λ d. d.passed) cs ≡ true
tail_passed c cs h = ground (arith, h)

not-true : (b : Bool) → not b ≡ true → b ≡ false
not-true b h = ground (arith, h)

passed_at :
    (cs : List Check) (i : ℕ) (c : Check)
    → all (λ d. d.passed) cs ≡ true
    → get_elem? cs i ≡ some c
    → c.passed ≡ true
passed_at [] i c h at = absurd (ground (arith, at))
passed_at (x ∷ rest) zero c h at = ground (arith, h, at)
passed_at (x ∷ rest) (suc i) c h at = passed_at rest i c (ground (arith, h)) at

is_text-get :
    (expected : String) (v : Option Value) → is_text expected v ≡ true → v ≡ some (str expected)
is_text-get expected none h = absurd (ground (arith, h))
is_text-get expected (some (str s)) h = ap (λ t. some (str t)) ((eq_iff s expected).0 h)
is_text-get expected (some null) h = absurd (ground (arith, h))
is_text-get expected (some (boolean b)) h = absurd (ground (arith, h))
is_text-get expected (some (integer n)) h = absurd (ground (arith, h))
is_text-get expected (some (real x)) h = absurd (ground (arith, h))
is_text-get expected (some (array xs)) h = absurd (ground (arith, h))
is_text-get expected (some (object d)) h = absurd (ground (arith, h))

is_false-get : (v : Option Value) → is_false v ≡ true → v ≡ some (boolean false)
is_false-get none h = absurd (ground (arith, h))
is_false-get (some (boolean false)) h = refl
is_false-get (some (boolean true)) h = absurd (ground (arith, h))
is_false-get (some (str s)) h = absurd (ground (arith, h))
is_false-get (some null) h = absurd (ground (arith, h))
is_false-get (some (integer n)) h = absurd (ground (arith, h))
is_false-get (some (real x)) h = absurd (ground (arith, h))
is_false-get (some (array xs)) h = absurd (ground (arith, h))
is_false-get (some (object d)) h = absurd (ground (arith, h))

-- The stream's topic is a text that does not begin with the setpoints' prefix.
pub record IsReadOnly (stream : Value) : Type 0 where
  pub topic : String
  pub given : get "topic" (fields_of (some stream)) ≡ some (str topic)
  pub allowed : starts_with topic "/mavros/setpoint" ≡ false

topic-IsReadOnly :
    (stream : Value) (v : Option Value)
    → get "topic" (fields_of (some stream)) ≡ v
    → is_stream_topic v ≡ true
    → IsReadOnly stream
topic-IsReadOnly stream none at h = absurd (ground (arith, h))
topic-IsReadOnly stream (some (str s)) at h = record {
  topic = s;
  given = at;
  allowed = ground (arith, h);
}
topic-IsReadOnly stream (some null) at h = absurd (ground (arith, h))
topic-IsReadOnly stream (some (boolean b)) at h = absurd (ground (arith, h))
topic-IsReadOnly stream (some (integer n)) at h = absurd (ground (arith, h))
topic-IsReadOnly stream (some (real x)) at h = absurd (ground (arith, h))
topic-IsReadOnly stream (some (array xs)) at h = absurd (ground (arith, h))
topic-IsReadOnly stream (some (object d)) at h = absurd (ground (arith, h))

stream_checks-IsReadOnly :
    (stream : Value) → all (λ c. c.passed) (stream_checks stream) ≡ true → IsReadOnly stream
unfolding stream_checks
stream_checks-IsReadOnly stream h =
    let d = fields_of (some stream) in
    topic-IsReadOnly stream (get "topic" d) refl (
      passed_at (stream_checks stream) 2
        (check (is_stream_topic (get "topic" d))
          "stream topic must be an absolute non-setpoint topic")
        h refl)

all_stream_checks-IsReadOnly :
    (streams : List Value)
    → all (λ c. c.passed) (all_stream_checks streams) ≡ true
    → All IsReadOnly streams
unfolding all_stream_checks
all_stream_checks-IsReadOnly [] h = tt
all_stream_checks-IsReadOnly (stream ∷ rest) h =
    let parts = all-append (stream_checks stream) (all_stream_checks rest) h in
    (stream_checks-IsReadOnly stream parts.0, all_stream_checks-IsReadOnly rest parts.1)

-- What an accepted profile has.
pub record IsSafe (d : Fields) : Type 0 where
  pub mode : get "mode" (safety_of d) ≡ some (str "shadow_only")
  pub no_publish : get "allow_ros_publish" (safety_of d) ≡ some (boolean false)
  pub no_actuation : get "allow_fcu_actuation" (safety_of d) ≡ some (boolean false)
  pub read_only : All IsReadOnly (streams_of d)
  pub distinct : is_distinct_texts (stream_names d) ≡ true
  pub two_streams :
      str_eq
        (as_text (get "correction_stream" (section "linkage" d)))
        (as_text (get "propagated_stream" (section "linkage" d)))
      ≡ false

module _ (profile : Value) (duration : Option Value) (output_root : Option String) where
  head_part :
      all (λ c. c.passed) (profile_checks profile duration output_root) ≡ true
      → (all (λ c. c.passed) (head_checks profile duration output_root) ≡ true)
        × ((all (λ c. c.passed) (streams_checks (fields_of (some profile))) ≡ true)
            × (all (λ c. c.passed) (linkage_checks (fields_of (some profile))) ≡ true))
  unfolding profile_checks
  head_part h =
      let d = fields_of (some profile) in
      let tail = hybrid_checks d ++ (provenance_checks d ++ evidence_checks d) in
      let linked = linkage_checks d ++ tail in
      let one =
        all-append (head_checks profile duration output_root)
          (streams_checks d ++ (identity_checks d ++ linked)) h in
      let two = all-append (streams_checks d) (identity_checks d ++ linked) one.1 in
      let three = all-append (identity_checks d) linked two.1 in
      (one.0, (two.0, (all-append (linkage_checks d) tail three.1).0))

  -- If the validation returns, the profile says `shadow_only`, its flags for publishing and actuation
  -- are false,
  -- each stream's topic is a text outside the setpoints' prefix, the streams' names are distinct,
  -- and the corrections and the propagated poses are two streams.
  pub validate_profile-IsSafe :
      validate_profile profile duration output_root ≡ none → IsSafe (fields_of (some profile))
  unfolding validate_profile head_checks streams_checks linkage_checks
  validate_profile-IsSafe h =
      let d = fields_of (some profile) in
      let parts = head_part (first_failure-none (profile_checks profile duration output_root) h) in
      let safety = safety_of d in
      let streams =
        all-append (all_stream_checks (streams_of d))
          (check (is_distinct_texts (map stream_name (streams_of d))) "stream names must be unique"
            ∷ [])
          (tail_passed (check (is_filled (streams_of d)) "at least one stream is required")
            (all_stream_checks (streams_of d)
              ++ check (is_distinct_texts (map stream_name (streams_of d)))
                  "stream names must be unique"
                ∷ [])
            parts.1.0) in
      let v = section "linkage" d in
      record {
        mode = is_text-get "shadow_only" (get "mode" safety) (
            passed_at (head_checks profile duration output_root) 2
              (check (is_text "shadow_only" (get "mode" safety)) "profile mode must be shadow_only")
              parts.0 refl);
        no_publish = is_false-get (get "allow_ros_publish" safety) (
            passed_at (head_checks profile duration output_root) 3
              (check (is_false (get "allow_ros_publish" safety)) "allow_ros_publish must be false")
              parts.0 refl);
        no_actuation = is_false-get (get "allow_fcu_actuation" safety) (
            passed_at (head_checks profile duration output_root) 4
              (check (is_false (get "allow_fcu_actuation" safety))
                "allow_fcu_actuation must be false")
              parts.0 refl);
        read_only = all_stream_checks-IsReadOnly (streams_of d) streams.0;
        distinct =
            passed_at
              (check (is_distinct_texts (map stream_name (streams_of d)))
                  "stream names must be unique"
                ∷ [])
              0
              (check (is_distinct_texts (map stream_name (streams_of d)))
                "stream names must be unique")
              streams.1 refl;
        two_streams =
            not-true
              (str_eq (as_text (get "correction_stream" v)) (as_text (get "propagated_stream" v)))
              (passed_at (linkage_checks d) 2
                (check
                  (not (
                    str_eq (as_text (get "correction_stream" v))
                      (as_text (get "propagated_stream" v))))
                  "correction and propagated streams must differ")
                parts.1.1 refl);
      }
