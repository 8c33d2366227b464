-- ===== src/Vio/Linkage/Propagated.antt =====
-- Theorems about the gate on the propagated poses.
use flight_safety.Prelude.{
  Bool, List, [], all, any, leb, refl, ℕ, ◌&&◌, ◌∷◌, ◌≡◌, Option, ap, arith, none, some, ◌||◌, ◌∙◌,
}
use flight_safety.Vio.Linkage.{Linkage, Sample, nearest, propagation_gate, within, closer}
use flight_safety.Vio.Gates.{distance, is_filled}

within-closer :
    (limit d : ℕ) (e : Option ℕ)
    → within limit (some (closer d e)) ≡ (leb d limit || within limit e)
within-closer limit d none = ground arith
within-closer limit d (some e) = ground arith

within-nearest :
    (limit stamp : ℕ) (xs : List Sample)
    → within limit (nearest stamp xs) ≡ any (λ x. leb (distance stamp x.stamp) limit) xs
unfolding nearest
within-nearest limit stamp [] = refl
within-nearest limit stamp (x ∷ rest) =
    within-closer limit (distance stamp x.stamp) (nearest stamp rest)
    ∙ ap (λ far. leb (distance stamp x.stamp) limit || far) (within-nearest limit stamp rest)

all-ext : {A : Type 0} (p q : A → Bool) (xs : List A) → ((x : A) → p x ≡ q x) → all p xs ≡ all q xs
all-ext p q [] h = refl
all-ext p q (x ∷ xs) h = rw (h x, all-ext p q xs h) refl

-- The gate passes exactly when there are corrections and propagated poses, and each correction has
-- some propagated pose whose stamp differs by at most the limit.
pub propagation_gate_lem :
    (cfg : Linkage) (corrections propagated : List Sample)
    → propagation_gate cfg corrections propagated ≡ (
        is_filled corrections
        && (is_filled propagated
            && all
                (λ c. any (λ x. leb (distance c.stamp x.stamp) cfg.max_header_delta) propagated)
                corrections))
unfolding propagation_gate
propagation_gate_lem cfg corrections propagated =
    rw
      (all-ext (λ c. within cfg.max_header_delta (nearest c.stamp propagated))
        (λ c. any (λ x. leb (distance c.stamp x.stamp) cfg.max_header_delta) propagated) corrections
        (λ c. within-nearest cfg.max_header_delta c.stamp propagated))
      refl
