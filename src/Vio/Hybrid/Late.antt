-- ===== src/Vio/Hybrid/Late.antt =====
-- The readiness before the mapping's start, and theorems about `mapping_after_stable_ready`.
use flight_safety.Prelude.{
  Bool-cases, List, Option, [], arith, false, get_elem?, inl, inr, none, refl, some, true, ℕ, ◌+◌,
  ◌∷◌, ◌≡◌, ◌≤◌, All, ap, ◌++◌, ◌<◌, ◌⊎◌,
}
use flight_safety.Vio.Hybrid.{Config, Hybrid, MappingStart, ReadySample}
use flight_safety.Vio.Hybrid.Gates.{observed}
use flight_safety.Vio.Hybrid.Ready.{after_stable_ready, first_ready, first_start, not_ready_between}

-- The first sample that says ready arrived then: none before it does.
pub record IsFirstReady (samples : List ReadySample) (ready_at : ℕ) : Type 0 where
  pub early : List ReadySample
  pub sample : ReadySample
  pub rest : List ReadySample
  pub split : samples ≡ early ++ sample ∷ rest
  pub unready : All (λ x. x.value ≡ false) early
  pub ready : sample.value ≡ true
  pub arrived : sample.arrival ≡ ready_at

first_ready-IsFirstReady :
    (samples : List ReadySample) (t : ℕ) → first_ready samples ≡ some t → IsFirstReady samples t
unfolding first_ready
first_ready-IsFirstReady [] t h = absurd (ground (arith, h))
first_ready-IsFirstReady (x ∷ xs) t h = elim (Bool-cases x.value) [
  | inl said ↦ record {
    early = [];
    sample = x;
    rest = xs;
    split = refl;
    unready = tt;
    ready = said;
    arrived = ground (arith, h, said);
  }
  | inr silent ↦
      let later = first_ready-IsFirstReady xs t (ground (arith, h, silent)) in
      record {
        early = x ∷ later.early;
        sample = later.sample;
        rest = later.rest;
        split = ap (λ ys. x ∷ ys) later.split;
        unready = (silent, later.unready);
        ready = later.ready;
        arrived = later.arrived;
      }
]

-- The sample says ready, or arrived before `from` or after `to`.
abbrev pub IsReadyOrOutside : ℕ → ℕ → ReadySample → Type 0
IsReadyOrOutside from to x = (x.value ≡ true) ⊎ ((x.arrival < from) ⊎ (to < x.arrival))

not_ready_between-All :
    (from to : ℕ) (samples : List ReadySample)
    → not_ready_between from to samples ≡ false
    → All (IsReadyOrOutside from to) samples
unfolding not_ready_between
not_ready_between-All from to [] h = tt
not_ready_between-All from to (x ∷ rest) h =
    (ground (arith, h), not_ready_between-All from to rest (ground (arith, h)))

first_start-first :
    (starts : List MappingStart) (m : MappingStart)
    → first_start starts ≡ some m
    → get_elem? starts 0 ≡ some m
first_start-first [] m h = h
first_start-first (x ∷ rest) m h = h

-- The mapping began after the IMU was ready for long enough, and it stayed ready until then.
pub record IsLate (cfg : Config) (s : Hybrid) : Type 0 where
  pub ready_at : ℕ
  pub start : MappingStart
  pub began : IsFirstReady s.ready_samples ready_at
  pub started : get_elem? s.mapping_starts 0 ≡ some start
  pub late : ready_at + cfg.ready_stable_before_mapping ≤ start.arrival
  pub stayed : All (IsReadyOrOutside ready_at start.arrival) s.ready_samples

pub late_lem :
    (cfg : Config) (s : Hybrid) (first : Option ℕ) (start : Option MappingStart)
    → first_ready s.ready_samples ≡ first
    → first_start s.mapping_starts ≡ start
    → after_stable_ready cfg s.ready_samples (observed s) first start ≡ true
    → IsLate cfg s
late_lem cfg s none start a b h = absurd (ground (arith, h))
late_lem cfg s (some t) none a b h = absurd (ground (arith, h))
late_lem cfg s (some t) (some m) a b h = record {
  ready_at = t;
  start = m;
  began = first_ready-IsFirstReady s.ready_samples t a;
  started = first_start-first s.mapping_starts m b;
  late = ground (arith, h);
  stayed = not_ready_between-All t m.arrival s.ready_samples (ground (arith, h));
}
