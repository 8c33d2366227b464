-- ===== src/Vio/Linkage/Passed.antt =====
-- Theorems about `LinkageAccumulator.summarize`.
use flight_safety.Vio.Identity.{Join}
use flight_safety.Vio.Linkage.{
  Linkage, Sample, Streams, Typed, arrival_link, samples_of, match_all, no_matching, one_to_one,
  parsed_identity, summarize, Matching,
}
use flight_safety.Prelude.{
  List, arith, get_elem?, length, map, some, true, ℕ, ◌+◌, ◌≡◌, All, all, any, leb, Bool, [], ap,
  refl, sym, ◌∙◌, ◌∷◌, length-map,
}
use flight_safety.Vio.Gates.{distance, contiguous_from, is_contiguous}
use flight_safety.Vio.Linkage.Propagated.{propagation_gate_lem}
use flight_safety.Vio.Linkage.OneToOne.{
  IsLink, IsMatching, IsSublist-whole, Link, is_distinct, match_all-one_to_one, pair_of,
}

all-map :
    {A B : Type 0} (f : A → B) (test : B → Bool) (xs : List A)
    → all test (map f xs) ≡ true
    → all (λ x. test (f x)) xs ≡ true
all-map f test [] h = refl
all-map f test (x ∷ xs) h = ground (arith, h, all-map f test xs)

abbrev pub sequences : List Link → List ℕ
sequences links = map (λ l. l.identity.identity.correction_sequence) links

pub record IsLinked (cfg : Linkage) (streams : Streams) (records : List Join) : Type 0 where
  pub links : List Link
  pub all_taken : map (λ l. l.correction) links ≡ samples_of cfg.correction_stream streams
  pub all_typed : length records ≡ length links
  pub distinct : is_distinct (map (λ l. l.place) links) ≡ true
  pub joined : All (IsLink cfg.stamp_limit (parsed_identity records)) links
  pub arrived :
      all
        (λ l.
          leb (distance l.correction.arrival l.identity.arrival_wall) cfg.max_status_arrival_delta)
        links
      ≡ true
  pub propagated :
      all
        (λ c.
          any
            (λ x. leb (distance c.stamp x.stamp) cfg.max_header_delta)
            (samples_of cfg.propagated_stream streams))
        (samples_of cfg.correction_stream streams)
      ≡ true
  pub counted :
      (first i n : ℕ)
      → get_elem? (sequences links) 0 ≡ some first
      → get_elem? (sequences links) i ≡ some n
      → n ≡ first + i

sequences-map :
    (links : List Link)
    → sequences links ≡ map (λ pair. pair.1.identity.correction_sequence) (map pair_of links)
sequences-map [] = refl
sequences-map (l ∷ rest) =
    ap (λ ns. l.identity.identity.correction_sequence ∷ ns) (sequences-map rest)

matching-IsLinked :
    (cfg : Linkage) (streams : Streams) (records : List Join) (m : Matching)
    → IsMatching cfg.stamp_limit
        (parsed_identity records)
        (samples_of cfg.correction_stream streams)
        no_matching
        m
    → length m.matched ≡ length (samples_of cfg.correction_stream streams)
    → length records ≡ length (samples_of cfg.correction_stream streams)
    → arrival_link cfg.max_status_arrival_delta m.matched ≡ true
    → is_contiguous (map (λ pair. pair.1.identity.correction_sequence) m.matched) ≡ true
    → all
        (λ c.
          any
            (λ x. leb (distance c.stamp x.stamp) cfg.max_header_delta)
            (samples_of cfg.propagated_stream streams))
        (samples_of cfg.correction_stream streams)
      ≡ true
    → IsLinked cfg streams records
unfolding arrival_link
matching-IsLinked cfg streams records m h full numbered arrived counted near =
    let size : length h.links ≡ length (samples_of cfg.correction_stream streams) =
      sym (length-map pair_of h.links) ∙ ap length (sym h.matched) ∙ full in
    record {
      links = h.links;
      all_taken = IsSublist-whole h.taken (length-map (λ (l : Link). l.correction) h.links ∙ size);
      all_typed = numbered ∙ sym size;
      distinct = h.distinct;
      joined = h.valid;
      arrived =
          all-map pair_of
            (λ pair. leb (distance pair.0.arrival pair.1.arrival_wall) cfg.max_status_arrival_delta)
            h.links (rw (← h.matched) arrived);
      propagated = near;
      counted = λ first i n at_0 at_i.
          contiguous_from (sequences h.links) first i n
            (ap is_contiguous (
                sequences-map h.links
                ∙ ap (map (λ (pair : Sample × Typed). pair.1.identity.correction_sequence))
                    (sym h.matched))
              ∙ counted)
            at_0 at_i;
    }

-- If the linkage of a run passes, there are as many identities as corrections, and each correction,
-- in their order, is joined to a typed identity of its own, whose stamp and arrival lie within the
-- limits of the correction's; each correction has a propagated pose within the limit; and the
-- sequence numbers, in the order of the corrections, count up by one.
pub summarize-IsLinked :
    (cfg : Linkage) (streams : Streams) (records : List Join)
    → summarize cfg streams records ≡ true
    → IsLinked cfg streams records
unfolding summarize one_to_one
summarize-IsLinked cfg streams records passed =
    let corrections = samples_of cfg.correction_stream streams in
    let near = samples_of cfg.propagated_stream streams in
    let typed = parsed_identity records in
    let m = match_all cfg.stamp_limit typed corrections no_matching in
    let gate = propagation_gate_lem cfg corrections near in
    matching-IsLinked cfg streams records m (match_all-one_to_one cfg.stamp_limit typed corrections)
      (ground (arith, passed)) (ground (arith, passed)) (ground (arith, passed))
      (ground (arith, passed)) (ground (arith, passed, gate))
