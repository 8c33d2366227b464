-- ===== src/Touchdown/Fires.antt =====
-- Theorems about confirmed touchdowns.
use flight_safety.Prelude.{
  All, Bool-cases, List, [], arith, false, if◌then◌else◌, inl, inr, refl, suc, true, ℕ, ◌&&◌, ◌∷◌,
  ◌≡◌, ◌≤◌, keep_if, length, length-keep_if-append, length-keep_if-keep_if, ◌++◌, ◌+◌,
}
use flight_safety.Touchdown.{Detector, Sample, feed, is_impact, recent, update}
use flight_safety.Diagnosis.{Time}
use flight_safety.Prelude.Int.{pos, ◌≤ℤ◌}

update_fired :
    (d : Detector) (s : Sample)
    → s.in_land ≡ true
    → d.fired ≡ true
    → ((update d s).0.fired ≡ true) × ((update d s).1 ≡ false)
unfolding update
update_fired d s l f = ground arith

confirmed-fired : (d : Detector) (s : Sample) → (update d s).1 ≡ true → (update d s).0.fired ≡ true
unfolding update
confirmed-fired d s h = ground arith

abbrev pub AllInLand : List Sample → Type 0
AllInLand = All (λ s. s.in_land ≡ true)

feed_fired :
    (d : Detector) (samples : List Sample)
    → AllInLand samples
    → d.fired ≡ true
    → (feed d samples).1 ≡ 0
unfolding feed
feed_fired d [] l f = refl
feed_fired d (s ∷ rest) (l, ls) f =
    let (f', quiet) = update_fired d s l f in
    ground (arith, quiet, feed_fired (update d s).0 rest ls f')

-- In one uninterrupted descent, from any state, `update` returns `True` at most once.
pub fires_once : (d : Detector) (samples : List Sample) → AllInLand samples → (feed d samples).1 ≤ 1
unfolding feed
fires_once d [] l = omega arith
fires_once d (s ∷ rest) (l, ls) = elim (Bool-cases (update d s).1) [
  | inl hit ↦ ground (arith, hit, feed_fired (update d s).0 rest ls (confirmed-fired d s hit))
  | inr quiet ↦ ground (arith, quiet, fires_once (update d s).0 rest ls)
]

-- The samples of a descent that count as evidence for a touchdown at `t`: impacts under the
-- detector's thresholds, and no older than its window.
unfoldable pub evidence : Detector → Time → List Sample → ℕ
evidence d t [] = 0
evidence d t (s ∷ rest) =
    let n = evidence d t rest in
    if is_impact d s.vert s.gyro_mag && recent d.window t s.t then suc n else n

-- The configured part of a detector, which no call changes.
pub record SameSetup (d e : Detector) : Type 0 where
  pub vert : d.vert_thresh ≡ e.vert_thresh
  pub gyro : d.gyro_thresh ≡ e.gyro_thresh
  pub land : d.min_land ≡ e.min_land
  pub confirm : d.confirm ≡ e.confirm
  pub window : d.window ≡ e.window

pub update-SameSetup : (d : Detector) (s : Sample) → SameSetup (update d s).0 d
unfolding update
update-SameSetup d s = ground arith

pub SameSetup-trans : {a b c : Detector} → SameSetup a b → SameSetup b c → SameSetup a c
SameSetup-trans p q = ground arith

pub feed-SameSetup : (d : Detector) (samples : List Sample) → SameSetup (feed d samples).0 d
unfolding feed
feed-SameSetup d [] = ground arith
feed-SameSetup d (s ∷ rest) =
    SameSetup-trans (feed-SameSetup (update d s).0 rest) (update-SameSetup d s)

evidence-SameSetup :
    (d e : Detector) (t : Time) (samples : List Sample)
    → SameSetup d e
    → evidence d t samples ≡ evidence e t samples
unfolding evidence is_impact
evidence-SameSetup d e t [] same = refl
evidence-SameSetup d e t (s ∷ rest) same = ground (arith, evidence-SameSetup d e t rest same)

evidence-append :
    (d : Detector) (t : Time) (xs ys : List Sample)
    → evidence d t (xs ++ ys) ≡ evidence d t xs + evidence d t ys
unfolding evidence
evidence-append d t [] ys = omega arith
evidence-append d t (s ∷ rest) ys = ground (arith, evidence-append d t rest ys)

abbrev recent_hits : Detector → Time → ℕ
recent_hits d t = length (keep_if (recent d.window t) d.hits)

update-recent_hits :
    (d : Detector) (t : Time) (s : Sample)
    → recent_hits (update d s).0 t ≤ recent_hits d t + evidence d t (s ∷ [])
unfolding update evidence
update-recent_hits d t s = ground (
  arith,
  length-keep_if-keep_if (recent d.window t) (recent d.window s.t) (d.hits ++ s.t ∷ []),
  length-keep_if-append (recent d.window t) d.hits (s.t ∷ []),
)

feed-recent_hits :
    (d : Detector) (t : Time) (samples : List Sample)
    → recent_hits (feed d samples).0 t ≤ recent_hits d t + evidence d t samples
unfolding feed
feed-recent_hits d t [] = omega arith
feed-recent_hits d t (s ∷ rest) = omega (
  arith,
  feed-recent_hits (update d s).0 t rest,
  update-recent_hits d t s,
  evidence-append d t (s ∷ []) rest,
  evidence-SameSetup (update d s).0 d t rest (update-SameSetup d s),
)

confirmed-recent_hits :
    (d : Detector) (s : Sample)
    → (update d s).1 ≡ true
    → d.confirm ≤ℤ pos (recent_hits d s.t + evidence d s.t (s ∷ []))
unfolding update evidence
confirmed-recent_hits d s h =
    ground (arith, length-keep_if-append (recent d.window s.t) d.hits (s.t ∷ []))

-- When a sample confirms a touchdown, at least `confirm` samples since the detector had no hits,
-- this one among them, were impacts under the thresholds no older than the window.
pub fired_has_evidence :
    (d : Detector) (samples : List Sample) (s : Sample)
    → d.hits ≡ []
    → (update (feed d samples).0 s).1 ≡ true
    → d.confirm ≤ℤ pos (evidence d s.t (samples ++ s ∷ []))
fired_has_evidence d samples s empty h =
    let d' = (feed d samples).0 in
    let same = feed-SameSetup d samples in
    ground (
      arith,
      same.confirm,
      empty,
      confirmed-recent_hits d' s h,
      feed-recent_hits d s.t samples,
      evidence-append d s.t samples (s ∷ []),
      evidence-SameSetup d' d s.t (s ∷ []) same,
    )
