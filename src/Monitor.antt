-- ===== src/Monitor.antt =====
-- src/flight_safety/monitor.py and scripts/monitor_node.py: the L2 monitor. It remembers the last
-- report of each watched source and publishes the worst capped level as one fault.
pub mod Worst
pub mod Reports
mod Examples
use flight_safety.Prelude.{
  Bool, List, Option, String, [], if◌then◌else◌, is_some, keep_if, ltb, map, none, some, ℕ, ◌&&◌,
  ◌==◌, ◌∷◌,
}
use flight_safety.Diagnosis.{
  Duration, Message, Time, error_level, ok_level, plain, policy_cap, since, timed, warn_level,
}
use flight_safety.Prelude.Text.{find?, insert, lookup}
use flight_safety.Prelude.Int.{ltb_ℤ}

-- `SourceConfig` is an entry of `~sources`, the default of `stale_s` already filled in.
pub record SourceConfig : Type 0 where
  pub name_part : String
  pub stale : Duration
  pub max_level : Option ℕ

pub record Source : Type 0 where
  pub name_part : String
  pub stale : Duration
  pub max_level : ℕ

pub record LastReport : Type 0 where
  pub level : ℕ
  pub message : Message
  pub stamp : Time

pub record Monitor : Type 0 where
  pub sources : List Source
  pub last : List (String × LastReport)

-- One `DiagnosticStatus` of a `/diagnostics` array.
pub record NamedStatus : Type 0 where
  pub name : String
  pub level : ℕ
  pub message : Message

abbrev pub cap_of : Option ℕ → ℕ
cap_of none = error_level
cap_of (some n) = n

-- `none` where the constructor raises: a `max_level` that is not 0, 1 or 2.
unfoldable pub read_sources : List SourceConfig → Option (List Source)
read_sources [] = some []
read_sources (c ∷ rest) =
    let cap = cap_of c.max_level in
    let later = read_sources rest in
    if ltb error_level cap then none else elim later [
      | none ↦ none
      | some sources ↦
          some (record { name_part = c.name_part; stale = c.stale; max_level = cap } ∷ sources)
    ]

abbrev started : Option (List Source) → Option Monitor
started none = none
started (some sources) = some (record { sources = sources; last = [] })

unfoldable pub init : List SourceConfig → Option Monitor
init configs = started (read_sources configs)

-- `match in st.name`
unfoldable pub mentions : String → NamedStatus → Bool
mentions part st = is_some (find? st.name part)

unfoldable pub note_report :
    Time → NamedStatus → List Source → List (String × LastReport) → List (String × LastReport)
note_report now st [] last = last
note_report now st (s ∷ rest) last = note_report now st rest (
    if mentions s.name_part st
    then insert s.name_part (record { level = st.level; message = st.message; stamp = now }) last
    else last)

unfoldable pub note_reports :
    Time → List NamedStatus → List Source → List (String × LastReport) → List (String × LastReport)
note_reports now [] sources last = last
note_reports now (st ∷ rest) sources last =
    note_reports now rest sources (note_report now st sources last)

unfoldable pub on_diag : Time → List NamedStatus → Monitor → Monitor
on_diag now statuses m = record m { last = note_reports now statuses m.sources m.last }

-- The level and the message of one source before the policy cap.
unfoldable pub judge : Time → Duration → Option LastReport → ℕ × Message
judge now stale none = (warn_level, plain "no report yet")
judge now stale (some r) =
    if ltb_ℤ stale (since now r.stamp)
    then (error_level, timed "DEAD: silent " (since now r.stamp) "s")
    else (r.level, r.message)

pub record Finding : Type 0 where
  pub source : String
  pub level : ℕ
  pub message : Message

abbrev pub capped : String → ℕ → ℕ × Message → Finding
capped source cap (lv, msg) =
    if ltb cap lv
    then record { source = source; level = cap; message = policy_cap msg lv cap }
    else record { source = source; level = lv; message = msg }

unfoldable pub find : Monitor → Time → Source → Finding
unfolding judge
find m now s = capped s.name_part s.max_level (judge now s.stale (lookup s.name_part m.last))

unfoldable pub worst_level : List Finding → ℕ → ℕ
worst_level [] level = level
worst_level (f ∷ rest) level = worst_level rest (if ltb level f.level then f.level else level)

-- `lv == level and level > OK`
abbrev pub is_worst : ℕ → Finding → Bool
is_worst level f = f.level == level && ltb ok_level level

-- `Fault`, as the node publishes it, without its header.
pub record Fault : Type 0 where
  pub level : ℕ
  pub names : List String
  pub messages : List Message

unfoldable pub worst : Monitor → Time → Fault
unfolding worst_level
worst m now =
    let per = map (find m now) m.sources in
    let level = worst_level per ok_level in
    record {
      level = level;
      names = map (λ f. f.source) (keep_if (is_worst level) per);
      messages = map (λ f. f.message) (keep_if (is_worst level) per);
    }
