-- ===== src/Vio/Linkage/OneToOne.antt =====
-- Theorems about the greedy matching of `LinkageAccumulator.summarize`.
use flight_safety.Prelude.{
  All, All-mono, Bool, Bool-cases, List, [], arith, false, get_elem?, inl, inr, leb, length, not,
  refl, some, suc, true, ℕ, ◌&&◌, ◌+◌, ◌∷◌, ◌≡◌, all, ap, map, ◌++◌, ◌∙◌, ◌≤◌,
}
use flight_safety.Vio.Linkage.{
  Matching, Sample, Typed, candidates, match_all, match_step, mem_ℕ, no_matching, take_candidate,
}
use flight_safety.Vio.Gates.{distance}

-- What makes an identity a candidate, in a list whose first index is `i`.
record IsCandidate (limit : ℕ) (used : List ℕ) (stamp i : ℕ) (typed : List Typed)
    (found : ℕ × Typed) : Type 0 where
  offset : ℕ
  index : found.0 ≡ i + offset
  here : get_elem? typed offset ≡ some found.1
  fresh : mem_ℕ found.0 used ≡ false
  near : leb (distance stamp found.1.identity.correction_stamp) limit ≡ true

IsCandidate-shift :
    (limit : ℕ) (used : List ℕ) (stamp i : ℕ) (first : Typed) (rest : List Typed)
    → (found : ℕ × Typed) → IsCandidate limit used stamp (suc i) rest found
    → IsCandidate limit used stamp i (first ∷ rest) found
IsCandidate-shift limit used stamp i first rest found h = record {
  offset = suc h.offset;
  index = omega (arith, h.index);
  here = h.here;
  fresh = h.fresh;
  near = h.near;
}

candidates-All :
    (limit : ℕ) (used : List ℕ) (stamp i : ℕ) (typed : List Typed)
    → All (IsCandidate limit used stamp i typed) (candidates limit used stamp i typed)
unfolding candidates
candidates-All limit used stamp i [] = tt
candidates-All limit used stamp i (item ∷ rest) =
    let later =
      All-mono (IsCandidate-shift limit used stamp i item rest)
        (candidates limit used stamp (suc i) rest) (candidates-All limit used stamp (suc i) rest) in
    elim (Bool-cases
      (not (mem_ℕ i used) && leb (distance stamp item.identity.correction_stamp) limit)) [
        | inl take ↦ rw take (
          record {
            offset = 0;
            index = omega arith;
            here = refl;
            fresh = ground (arith, take);
            near = ground (arith, take);
          },
          later,
        )
        | inr pass ↦ rw pass later
      ]

abbrev pub is_distinct : List ℕ → Bool
is_distinct [] = true
is_distinct (n ∷ rest) = not (mem_ℕ n rest) && is_distinct rest

-- A correction with the typed identity that it was given, and where that stands in the list.
pub record Link : Type 0 where
  pub correction : Sample
  pub place : ℕ
  pub identity : Typed

-- The identity is the one at that place, and its stamp is near the correction's.
pub record IsLink (limit : ℕ) (typed : List Typed) (l : Link) : Type 0 where
  pub stands : get_elem? typed l.place ≡ some l.identity
  pub close : leb (distance l.correction.stamp l.identity.identity.correction_stamp) limit ≡ true

abbrev pub pair_of : Link → Sample × Typed
pair_of l = (l.correction, l.identity)

-- The first list is the second without some of its members.
pub data IsSublist : List Sample → List Sample → Type 0 where
  nothing : IsSublist [] []
  keep : (c : Sample) {xs ys : List Sample} → IsSublist xs ys → IsSublist (c ∷ xs) (c ∷ ys)
  skip : (c : Sample) {xs ys : List Sample} → IsSublist xs ys → IsSublist xs (c ∷ ys)

-- What a run over the corrections adds to a matching: its links are of the corrections in their
-- order, each to a place that was not used and is used once; the other corrections are counted.
pub record IsMatching (limit : ℕ) (typed : List Typed) (corrections : List Sample)
    (before after : Matching) : Type 0 where
  pub links : List Link
  pub matched : after.matched ≡ before.matched ++ map pair_of links
  pub distinct : is_distinct (map (λ l. l.place) links) ≡ true
  pub fresh : all (λ l. not (mem_ℕ l.place before.used)) links ≡ true
  pub valid : All (IsLink limit typed) links
  pub taken : IsSublist (map (λ l. l.correction) links) corrections
  pub counted : length links + after.ambiguous ≡ length corrections + before.ambiguous

-- Places that are fresh beside one more used place are fresh, and none of them is that place.
fresh-parts :
    (n : ℕ) (used : List ℕ) (links : List Link)
    → all (λ l. not (mem_ℕ l.place (n ∷ used))) links ≡ true
    → (all (λ l. not (mem_ℕ l.place used)) links ≡ true)
      × (mem_ℕ n (map (λ (l : Link). l.place) links) ≡ false)
fresh-parts n used [] h = (refl, refl)
fresh-parts n used (l ∷ rest) h = ground (arith, h, fresh-parts n used rest)

skip-IsMatching :
    (limit : ℕ) (typed : List Typed) (c : Sample) (rest : List Sample) (m after : Matching)
    → IsMatching limit typed rest (record m { ambiguous = suc m.ambiguous }) after
    → IsMatching limit typed (c ∷ rest) m after
skip-IsMatching limit typed c rest m after h = record {
  links = h.links;
  matched = h.matched;
  distinct = h.distinct;
  fresh = h.fresh;
  valid = h.valid;
  taken = skip c h.taken;
  counted = omega (arith, h.counted);
}

append_assoc : {A : Type 0} (xs ys zs : List A) → (xs ++ ys) ++ zs ≡ xs ++ (ys ++ zs)
append_assoc [] ys zs = refl
append_assoc (x ∷ xs) ys zs = ap (λ ws. x ∷ ws) (append_assoc xs ys zs)

keep-IsMatching :
    (limit : ℕ) (typed : List Typed) (c : Sample) (found : ℕ × Typed) (rest : List Sample)
    (m after : Matching)
    → IsCandidate limit m.used c.stamp 0 typed found
    → IsMatching limit typed rest (take_candidate c (found ∷ []) m) after
    → IsMatching limit typed (c ∷ rest) m after
keep-IsMatching limit typed c found rest m after ok h =
    let parts = fresh-parts found.0 m.used h.links h.fresh in
    let same : ok.offset ≡ found.0 = omega (arith, ok.index) in
    record {
      links = record { correction = c; place = found.0; identity = found.1 } ∷ h.links;
      matched = h.matched ∙ append_assoc m.matched ((c, found.1) ∷ []) (map pair_of h.links);
      distinct = ground (arith, parts.1, h.distinct);
      fresh = ground (arith, parts.0, ok.fresh);
      valid = (record { stands = rw (← same) ok.here; close = ok.near }, h.valid);
      taken = keep c h.taken;
      counted = omega (arith, h.counted);
    }

take_candidate-IsMatching :
    (limit : ℕ) (typed : List Typed) (c : Sample) (found : List (ℕ × Typed)) (rest : List Sample)
    (m after : Matching)
    → All (IsCandidate limit m.used c.stamp 0 typed) found
    → IsMatching limit typed rest (take_candidate c found m) after
    → IsMatching limit typed (c ∷ rest) m after
take_candidate-IsMatching limit typed c [] rest m after ok h =
    skip-IsMatching limit typed c rest m after h
take_candidate-IsMatching limit typed c (found ∷ next ∷ more) rest m after ok h =
    skip-IsMatching limit typed c rest m after h
take_candidate-IsMatching limit typed c (found ∷ []) rest m after ok h =
    keep-IsMatching limit typed c found rest m after ok.0 h

append_nil : {A : Type 0} (xs : List A) → xs ≡ xs ++ []
append_nil [] = refl
append_nil (x ∷ xs) = ap (λ ys. x ∷ ys) (append_nil xs)

match_all-IsMatching :
    (limit : ℕ) (typed : List Typed) (corrections : List Sample) (m : Matching)
    → IsMatching limit typed corrections m (match_all limit typed corrections m)
unfolding match_all match_step
match_all-IsMatching limit typed [] m = record {
  links = [];
  matched = append_nil m.matched;
  distinct = refl;
  fresh = refl;
  valid = tt;
  taken = nothing;
  counted = refl;
}
match_all-IsMatching limit typed (c ∷ rest) m =
    let found = candidates limit m.used c.stamp 0 typed in
    take_candidate-IsMatching limit typed c found rest m
      (match_all limit typed rest (take_candidate c found m))
      (candidates-All limit m.used c.stamp 0 typed)
      (match_all-IsMatching limit typed rest (take_candidate c found m))

-- For any corrections and identities: the matched pairs are links of some of the corrections, in
-- their order; each is to the typed identity at some place of the list, whose stamp is within the
-- limit; no place is used by two links; and the ambiguous count is the number of the other
-- corrections.
pub match_all-one_to_one :
    (limit : ℕ) (typed : List Typed) (corrections : List Sample)
    → IsMatching limit typed corrections no_matching (match_all limit typed corrections no_matching)
match_all-one_to_one limit typed corrections =
    match_all-IsMatching limit typed corrections no_matching

pub length-IsSublist : {xs ys : List Sample} → IsSublist xs ys → length xs ≤ length ys
length-IsSublist nothing = omega arith
length-IsSublist (keep c h) = let le = length-IsSublist h in omega (arith, le)
length-IsSublist (skip c h) = let le = length-IsSublist h in omega (arith, le)

-- A sublist of the same length is the list.
pub IsSublist-whole : {xs ys : List Sample} → IsSublist xs ys → length xs ≡ length ys → xs ≡ ys
IsSublist-whole nothing e = refl
IsSublist-whole (keep c h) e = ap (λ zs. c ∷ zs) (IsSublist-whole h (omega (arith, e)))
IsSublist-whole (skip c h) e = let le = length-IsSublist h in absurd (omega (arith, e, le))
