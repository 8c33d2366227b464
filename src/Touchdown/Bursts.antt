-- ===== src/Touchdown/Bursts.antt =====
-- Theorems about bursts of impacts.
use flight_safety.Prelude.{
  Bool, [], arith, false, keep_if, leb, length, length-keep_if, length-keep_if-append,
  length-keep_if-implied, some, true, ℕ, ◌&&◌, ◌++◌, ◌+◌, ◌∷◌, ◌≡◌, ◌≤◌, ◌⊎◌, All, List, inl, inr,
}
use flight_safety.Touchdown.{Detector, Sample, is_impact, recent, update, feed}
use flight_safety.Diagnosis.{Time, since}
use flight_safety.Prelude.Int.{leb_ℤ, ltb_ℤ, pos, ◌≤ℤ◌}
use flight_safety.Touchdown.Fires.{SameSetup, update-SameSetup, AllInLand, fires_once}

-- An impact in the descent, past the entry transient, between the times `a` and `b`.
pub record IsBurstSample (d : Detector) (t0 a b : Time) (s : Sample) : Type 0 where
  pub landing : s.in_land ≡ true
  pub impact : is_impact d s.vert s.gyro_mag ≡ true
  pub past_entry : ltb_ℤ (since s.t t0) d.min_land ≡ false
  pub from : a ≤ s.t
  pub to : s.t ≤ b

abbrev in_span : Time → Time → Time → Bool
in_span a b t = leb a t && leb t b

abbrev span_hits : Time → Time → Detector → ℕ
span_hits a b d = length (keep_if (in_span a b) d.hits)

-- The detector in mid-descent, not yet fired.
pub record IsDescending (d : Detector) (t0 : Time) : Type 0 where
  pub began : d.land_t0 ≡ some t0
  pub unfired : d.fired ≡ false

module _ (t0 a b : Time) where
  span-recent :
      (d : Detector) (s : Sample)
      → leb_ℤ (since b a) d.window ≡ true
      → s.t ≤ b
      → (h : Time) → in_span a b h ≡ true
      → recent d.window s.t h ≡ true
  span-recent d s narrow to h within = ground arith

  -- One impact of the burst fires, or is kept among the hits.
  burst-step :
      (d : Detector) (s : Sample)
      → IsDescending d t0
      → IsBurstSample d t0 a b s
      → leb_ℤ (since b a) d.window ≡ true
      → ((update d s).1 ≡ true)
        ⊎ (((update d s).1 ≡ false)
            × IsDescending (update d s).0 t0
            × (span_hits a b (update d s).0 ≡ span_hits a b d + 1)
            × (d.confirm ≤ℤ pos (span_hits a b d + 1) → ⊥))
  unfolding update
  burst-step d s going burst narrow =
      let hits = d.hits ++ s.t ∷ [] in
      ground (
        arith,
        length-keep_if-implied (in_span a b) (recent d.window s.t) (span-recent d s narrow burst.to)
            hits,
        length-keep_if-append (in_span a b) d.hits (s.t ∷ []),
        length-keep_if (in_span a b) (keep_if (recent d.window s.t) hits),
      )

  IsBurstSample-SameSetup :
      (d e : Detector) (s : Sample)
      → SameSetup e d
      → IsBurstSample d t0 a b s
      → IsBurstSample e t0 a b s
  unfolding is_impact
  IsBurstSample-SameSetup d e s same burst = ground arith

  All-SameSetup :
      (d e : Detector) (samples : List Sample)
      → SameSetup e d
      → All (IsBurstSample d t0 a b) samples
      → All (IsBurstSample e t0 a b) samples
  All-SameSetup d e [] same all_burst = tt
  All-SameSetup d e (s ∷ rest) same (burst, bursts) =
      (IsBurstSample-SameSetup d e s same burst, All-SameSetup d e rest same bursts)

  burst-feed :
      (d : Detector) (s : Sample) (rest : List Sample)
      → IsDescending d t0
      → All (IsBurstSample d t0 a b) (s ∷ rest)
      → leb_ℤ (since b a) d.window ≡ true
      → d.confirm ≤ℤ pos (span_hits a b d + length (s ∷ rest))
      → 1 ≤ (feed d (s ∷ rest)).1
  unfolding feed
  burst-feed d s [] going (burst, bursts) narrow enough = elim (burst-step d s going burst narrow) [
    | inl hit ↦ ground (arith, hit)
    | inr (quiet, still, more, short) ↦ absurd (short (omega arith))
  ]
  burst-feed d s (next ∷ rest) going (burst, bursts) narrow enough =
      elim (burst-step d s going burst narrow) [
        | inl hit ↦ ground (arith, hit)
        | inr (quiet, still, more, short) ↦
            let same = update-SameSetup d s in
            let later =
              burst-feed (update d s).0 next rest still
                (All-SameSetup d (update d s).0 (next ∷ rest) same bursts) (rw same.window narrow)
                (rw same.confirm (omega (arith, more, enough))) in
            ground (arith, quiet, later)
      ]

  All-landing :
      (d : Detector) (samples : List Sample)
      → All (IsBurstSample d t0 a b) samples
      → AllInLand samples
  All-landing d [] bursts = tt
  All-landing d (s ∷ rest) (burst, bursts) = (burst.landing, All-landing d rest bursts)

  -- In mid-descent and past the entry transient, impacts that all lie between two times at most
  -- one window apart confirm a touchdown, exactly once, if they are at least `confirm` many.
  pub burst_fires :
      (d : Detector) (s : Sample) (rest : List Sample)
      → IsDescending d t0
      → All (IsBurstSample d t0 a b) (s ∷ rest)
      → leb_ℤ (since b a) d.window ≡ true
      → d.confirm ≤ℤ pos (length (s ∷ rest))
      → (feed d (s ∷ rest)).1 ≡ 1
  burst_fires d s rest going bursts narrow enough = omega (
    arith,
    fires_once d (s ∷ rest) (All-landing d (s ∷ rest) bursts),
    burst-feed d s rest going bursts narrow (omega arith),
  )
