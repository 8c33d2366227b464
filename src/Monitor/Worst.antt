-- ===== src/Monitor/Worst.antt =====
-- Theorems about `worst` and the policy caps.
use flight_safety.Prelude.{
  All, Any, List, [], arith, if◌then◌else◌, inl, inr, ltb, refl, ℕ, ◌∷◌, ◌≡◌, ◌≤◌, ◌⊎◌, All-map,
  All-mono, Any-elim, Any-map, Any-mono, Option-cases, map, map-All, some, ◌↔◌, Bool, keep_if, true,
  ◌≢◌, All-trivial, suc, zero, Bool-cases, Option, none,
}
use flight_safety.Monitor.{
  Finding, Monitor, Source, find, judge, worst_level, SourceConfig, init, read_sources, worst,
  is_worst, LastReport,
}
use flight_safety.Diagnosis.{Time, error_level, ok_level, Duration, fresh, since}
use flight_safety.Prelude.Text.{lookup}
use flight_safety.Prelude.Int.{ltb_ℤ}

-- The source's own grade before the cap.
abbrev pub raw_level : Monitor → Time → Source → ℕ
raw_level m now s = (judge now s.stale (lookup s.name_part m.last)).0

find-level :
    (m : Monitor) (now : Time) (s : Source)
    → (find m now s).level
      ≡ (if ltb s.max_level (raw_level m now s) then s.max_level else raw_level m now s)
unfolding find
find-level m now s = ground arith

pub worst_level-le :
    (fs : List Finding) (start k : ℕ)
    → start ≤ k
    → All (λ f. f.level ≤ k) fs
    → worst_level fs start ≤ k
unfolding worst_level
worst_level-le [] start k h all_le = h
worst_level-le (f ∷ rest) start k h (le, les) =
    worst_level-le rest (if ltb start f.level then f.level else start) k (ground arith) les

start-le-worst_level : (fs : List Finding) (start : ℕ) → start ≤ worst_level fs start
unfolding worst_level
start-le-worst_level [] start = omega arith
start-le-worst_level (f ∷ rest) start =
    ground (arith, start-le-worst_level rest (if ltb start f.level then f.level else start))

pub worst_level-IsUpper :
    (fs : List Finding) (start : ℕ) → All (λ f. f.level ≤ worst_level fs start) fs
unfolding worst_level
worst_level-IsUpper [] start = tt
worst_level-IsUpper (f ∷ rest) start =
    let next = if ltb start f.level then f.level else start in
    (ground (arith, start-le-worst_level rest next), worst_level-IsUpper rest next)

-- The maximum is the start value or is reached by a finding.
pub worst_level-reached :
    (fs : List Finding) (start : ℕ)
    → (worst_level fs start ≡ start) ⊎ Any (λ f. f.level ≡ worst_level fs start) fs
unfolding worst_level
worst_level-reached [] start = inl refl
worst_level-reached (f ∷ rest) start =
    elim (worst_level-reached rest (if ltb start f.level then f.level else start)) [
      | inl e ↦ ground (arith, e)
      | inr found ↦ inr (inr found)
    ]

-- What `init` makes sure of: no cap exceeds ERROR.
abbrev pub IsCapped : List Source → Type 0
IsCapped = All (λ s. s.max_level ≤ error_level)

read_sources-IsCapped :
    (configs : List SourceConfig) (sources : List Source)
    → read_sources configs ≡ some sources
    → IsCapped sources
unfolding read_sources
read_sources-IsCapped [] sources h = ground arith
read_sources-IsCapped (c ∷ rest) sources h = elim (Option-cases (read_sources rest)) [
  | inl e ↦ ground (arith, e)
  | inr (later, e) ↦ ground (arith, e, read_sources-IsCapped rest later e)
]

pub init-IsCapped :
    (configs : List SourceConfig) (m : Monitor) → init configs ≡ some m → IsCapped m.sources
unfolding init
init-IsCapped configs m h = elim (Option-cases (read_sources configs)) [
  | inl e ↦ ground (arith, e)
  | inr (sources, e) ↦ ground (arith, e, read_sources-IsCapped configs sources e)
]

-- A report that has been silent past the limit, or has ERROR. A source that never reported is in
-- neither case.
abbrev pub IsFailing : Time → Duration → Option LastReport → Type 0
IsFailing now stale none = ⊥
IsFailing now stale (some r) = (ltb_ℤ stale (since now r.stamp) ≡ true) ⊎ (error_level ≤ r.level)

pub judge-IsFailing :
    (now : Time) (stale : Duration) (o : Option LastReport)
    → error_level ≤ (judge now stale o).0
    → IsFailing now stale o
unfolding judge
judge-IsFailing now stale none high = omega (arith, high)
judge-IsFailing now stale (some r) high = elim (Bool-cases (ltb_ℤ stale (since now r.stamp))) [
  | inl late ↦ inl late
  | inr fresh ↦ inr (ground (arith, high, fresh))
]

IsFailing-judge :
    (now : Time) (stale : Duration) (o : Option LastReport)
    → IsFailing now stale o
    → error_level ≤ (judge now stale o).0
unfolding judge
IsFailing-judge now stale none failing = absurd failing
IsFailing-judge now stale (some r) (inl late) = ground (arith, late)
IsFailing-judge now stale (some r) (inr high) = ground (arith, high)

-- A source that can request a kill, and does: its cap is ERROR, and its last report is silent past
-- the limit or has at least ERROR.
abbrev pub RequestsKill : Monitor → Time → Source → Type 0
RequestsKill m now s =
    (s.max_level ≡ error_level) × IsFailing now s.stale (lookup s.name_part m.last)

module _ (m : Monitor) (now : Time) (caps : IsCapped m.sources) where
  -- Whatever levels the sources report, the published level is at most ERROR.
  pub worst-le-error : (worst m now).level ≤ error_level
  unfolding worst
  worst-le-error = worst_level-le (map (find m now) m.sources) ok_level error_level (omega arith) (
      map-All (find m now) (λ f. f.level ≤ error_level) m.sources
        (All-mono (λ s cap. ground (arith, find-level m now s, cap)) m.sources caps))

  find-error :
      (s : Source)
      → s.max_level ≤ error_level
      → (find m now s).level ≡ error_level
      → RequestsKill m now s
  find-error s cap e = (
    ground (arith, find-level m now s),
    judge-IsFailing now s.stale (lookup s.name_part m.last) (ground (arith, find-level m now s)),
  )

  error-find : (s : Source) → RequestsKill m now s → (find m now s).level ≡ error_level
  error-find s r =
      ground
        (arith, find-level m now s, IsFailing-judge now s.stale (lookup s.name_part m.last) r.1)

  worst-IsUpper : All (λ s. (find m now s).level ≤ (worst m now).level) m.sources
  unfolding worst
  worst-IsUpper =
      All-map (find m now) (λ f. f.level ≤ (worst m now).level) m.sources
        (worst_level-IsUpper (map (find m now) m.sources) ok_level)

  worst-reached :
      (worst m now).level ≡ error_level → Any (λ s. (find m now s).level ≡ error_level) m.sources
  unfolding worst
  worst-reached e = elim (worst_level-reached (map (find m now) m.sources) ok_level) [
    | inl start ↦ absurd (ground (arith, start, e))
    | inr found ↦ Any-map (find m now) (λ f. f.level ≡ error_level) m.sources (rw e at found)
  ]

  -- The monitor publishes ERROR exactly when some source whose cap is ERROR has gone silent past
  -- its limit or reports ERROR; a source with a lower cap, or that never reported, has no part in
  -- it.
  pub worst-error_iff : ((worst m now).level ≡ error_level) ↔ Any (RequestsKill m now) m.sources
  worst-error_iff = (
    λ e. Any-mono find-error m.sources caps (worst-reached e),
    λ found.
        Any-elim (λ s upper r. ground (arith, error-find s r, worst-le-error)) m.sources
          worst-IsUpper found,
  )

keep_if-nonempty :
    {A : Type 0} (test : A → Bool) (xs : List A)
    → Any (λ x. test x ≡ true) xs
    → keep_if test xs ≢ []
keep_if-nonempty test [] h e = h
keep_if-nonempty test (x ∷ xs) (inl p) e = ground arith
keep_if-nonempty test (x ∷ xs) (inr h) e = ground (arith, keep_if-nonempty test xs h)

no_worst : (fs : List Finding) → keep_if (is_worst 0) fs ≡ []
no_worst [] = refl
no_worst (f ∷ rest) = ground (arith, no_worst rest)

map-eq_nil : {A B : Type 0} (f : A → B) (xs : List A) → map f xs ≡ [] → xs ≡ []
map-eq_nil f [] h = refl
map-eq_nil f (x ∷ xs) h = ground arith

worst_names :
    (fs : List Finding) (level : ℕ)
    → (level ≡ 0) ⊎ Any (λ f. f.level ≡ level) fs
    → (map (λ f. f.source) (keep_if (is_worst level) fs) ≡ []) ↔ (level ≡ 0)
worst_names fs zero reached = (λ e. refl, λ e. rw no_worst)
worst_names fs (suc k) (inl e) = absurd (ground arith)
worst_names fs (suc k) (inr found) =
    let kept =
      keep_if-nonempty (is_worst (suc k)) fs
        (Any-mono {R = λ f. Unit {0}} (λ f r e. ground arith) fs (All-trivial fs) found) in
    (λ e. absurd (kept (map-eq_nil (λ (f : Finding). f.source) _ e)), λ e. absurd (ground arith))

-- A fault names a source exactly when its level is above OK.
pub worst-names_iff :
    (m : Monitor) (now : Time) → ((worst m now).names ≡ []) ↔ ((worst m now).level ≡ ok_level)
unfolding worst
worst-names_iff m now =
    let fs = map (find m now) m.sources in
    worst_names fs (worst_level fs ok_level) (worst_level-reached fs ok_level)
