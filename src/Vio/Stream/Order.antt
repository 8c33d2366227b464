-- ===== src/Vio/Stream/Order.antt =====
-- Theorems about the stamp counters of `StreamAccumulator`.
use flight_safety.Prelude.{
  Bool, List, Option, [], all, arith, ltb, none, refl, some, true, ℕ, ◌&&◌, ◌∷◌, ◌≡◌, ap, suc,
}
use flight_safety.Vio.Stream.{
  Contract, Message, Moment, Stream, note_arrival, note_latency, note_message, note_stamp, observe,
  observe_all, stamps_ok,
}

-- The stamps rise from the last one seen.
abbrev pub rises_from : Option Moment → List Message → Bool
rises_from last [] = true
rises_from none (x ∷ rest) =
    rises_from (some (record { arrival = x.arrival_wall; header = x.stamp })) rest
rises_from (some m) (x ∷ rest) =
    ltb m.header x.stamp
    && rises_from (some (record { arrival = x.arrival_wall; header = x.stamp })) rest

abbrev after : Option Moment → ℕ → Bool
after none stamp = true
after (some m) stamp = ltb m.header stamp

observe-stamps_ok :
    (cfg : Contract) (x : Message) (s : Stream)
    → stamps_ok (observe cfg x s) ≡ (stamps_ok s && (ltb 0 x.stamp && after s.last x.stamp))
unfolding stamps_ok observe note_message note_latency note_stamp note_arrival
observe-stamps_ok cfg x s = ground arith

observe-last :
    (cfg : Contract) (x : Message) (s : Stream)
    → (observe cfg x s).last ≡ some (record { arrival = x.arrival_wall; header = x.stamp })
unfolding observe note_message
observe-last cfg x s = refl

rises_from-after :
    (last : Option Moment) (x : Message) (rest : List Message)
    → rises_from last (x ∷ rest) ≡ (
        after last x.stamp
        && rises_from (some (record { arrival = x.arrival_wall; header = x.stamp })) rest)
rises_from-after none x rest = refl
rises_from-after (some m) x rest = refl

-- Whatever the messages, the gate on the header stamps, which only reads three counters, passes
-- exactly if it passed before, every stamp is positive, and each stamp is greater than the one
-- before it.
pub observe_all-stamps_ok :
    (cfg : Contract) (xs : List Message) (s : Stream)
    → stamps_ok (observe_all cfg xs s)
      ≡ (stamps_ok s && (all (λ x. ltb 0 x.stamp) xs && rises_from s.last xs))
unfolding observe_all
observe_all-stamps_ok cfg [] s = ground arith
observe_all-stamps_ok cfg (x ∷ rest) s =
    let next = observe cfg x s in
    let seen = ap (λ last. rises_from last rest) (observe-last cfg x s) in
    ground (
      arith,
      observe_all-stamps_ok cfg rest next,
      observe-stamps_ok cfg x s,
      rises_from-after s.last x rest,
      seen,
    )

pub observe-sample_count :
    (cfg : Contract) (x : Message) (s : Stream)
    → (observe cfg x s).sample_count ≡ suc s.sample_count
unfolding observe note_message note_latency note_stamp note_arrival
observe-sample_count cfg x s = ground arith
