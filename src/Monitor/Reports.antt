-- ===== src/Monitor/Reports.antt =====
-- Theorems about `on_diag`.
use mathlib.Core.Option
use flight_safety.Prelude.{
  Bool, Bool-cases, List, Option, String, [], any, arith, if◌then◌else◌, inl, inr, none, refl, some,
  true, ◌&&◌, ◌∷◌, ◌≡◌,
}
use flight_safety.Monitor.{
  LastReport, NamedStatus, Source, mentions, note_report, note_reports, Monitor, judge, on_diag,
}
use flight_safety.Diagnosis.{Time, error_level, since}
use flight_safety.Prelude.Text.{eq_iff, insert, lookup, lookup-insert, str_eq}
use flight_safety.Prelude.Int.{ltb_ℤ}
use flight_safety.Monitor.Worst.{raw_level}

-- The last status of the array that mentions the source.
unfoldable pub last_mention : String → List NamedStatus → Option NamedStatus
last_mention part [] = none
last_mention part (st ∷ rest) = elim (last_mention part rest) [
  | some later ↦ some later
  | none ↦ if mentions part st then some st else none
]

abbrev pub watched : String → List Source → Bool
watched part = any (λ s. str_eq s.name_part part)

abbrev pub report_of : Time → NamedStatus → LastReport
report_of now st = record { level = st.level; message = st.message; stamp = now }

lookup-note_report :
    (now : Time) (st : NamedStatus) (sources : List Source) (last : List (String × LastReport))
    (part : String)
    → lookup part (note_report now st sources last) ≡ (
        if watched part sources && mentions part st
        then some (report_of now st)
        else lookup part last)
unfolding note_report
lookup-note_report now st [] last part = refl
lookup-note_report now st (s ∷ rest) last part = elim (Bool-cases (str_eq s.name_part part)) [
  | inl same ↦ ground (
    arith,
    (eq_iff s.name_part part).0 same,
    lookup-insert s.name_part part (report_of now st) last,
    lookup-note_report now st rest last part,
    lookup-note_report now st rest (insert s.name_part (report_of now st) last) part,
  )
  | inr other ↦ ground (
    arith,
    other,
    lookup-insert s.name_part part (report_of now st) last,
    lookup-note_report now st rest last part,
    lookup-note_report now st rest (insert s.name_part (report_of now st) last) part,
  )
]

abbrev pub or_else {ℓ} : {A : Type ℓ} → Option A → Option A → Option A
or_else none b = b
or_else (some a) b = some a

lookup-note_reports :
    (now : Time) (sts : List NamedStatus) (sources : List Source)
    (last : List (String × LastReport)) (part : String)
    → watched part sources ≡ true
    → lookup part (note_reports now sts sources last)
      ≡ or_else (Option.map (report_of now) (last_mention part sts)) (lookup part last)
unfolding note_reports last_mention
lookup-note_reports now [] sources last part w = refl
lookup-note_reports now (st ∷ rest) sources last part w = ground (
  arith,
  lookup-note_reports now rest sources (note_report now st sources last) part w,
  lookup-note_report now st sources last part,
  w,
)

-- After an array that arrived at `seen`, a watched source has the level of the last status that
-- mentions it, until it has been silent for longer than its limit, when it has ERROR; a source
-- that no status mentions keeps the level that it had.
pub raw_level-on_diag :
    (m : Monitor) (seen now : Time) (sts : List NamedStatus) (s : Source)
    → watched s.name_part m.sources ≡ true
    → raw_level (on_diag seen sts m) now s ≡ elim (last_mention s.name_part sts) [
      | none ↦ raw_level m now s
      | some st ↦ if ltb_ℤ s.stale (since now seen) then error_level else st.level
    ]
unfolding on_diag judge
raw_level-on_diag m seen now sts s w =
    ground (arith, lookup-note_reports seen sts m.sources m.last s.name_part w)
