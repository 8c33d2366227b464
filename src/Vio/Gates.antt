-- ===== src/Vio/Gates.antt =====
-- The tests on lists that the gates of vio_shadow.py share, with theorems about them.
use flight_safety.Prelude.{
  Bool, List, [], arith, false, get_elem?, if◌then◌else◌, leb, ltb, some, suc, true, zero, ℕ, ◌&&◌,
  ◌+◌, ◌-◌, ◌<◌, ◌==◌, ◌∷◌, ◌≡◌,
}

-- `all(right > left for left, right in zip(xs, xs[1:]))`
unfoldable pub is_increasing : List ℕ → Bool
is_increasing [] = true
is_increasing (x ∷ []) = true
is_increasing (x ∷ y ∷ rest) = ltb x y && is_increasing (y ∷ rest)

-- `all(right == left + 1 for left, right in zip(xs, xs[1:]))`
unfoldable pub is_contiguous : List ℕ → Bool
is_contiguous [] = true
is_contiguous (x ∷ []) = true
is_contiguous (x ∷ y ∷ rest) = y == suc x && is_contiguous (y ∷ rest)

abbrev pub is_filled {ℓ} : {A : Type ℓ} → List A → Bool
is_filled [] = false
is_filled (x ∷ rest) = true

-- |a - b|
abbrev pub distance : ℕ → ℕ → ℕ
distance a b = if leb a b then b - a else a - b

-- A contiguous list counts up by one from its first number.
pub contiguous_at :
    (x : ℕ) (rest : List ℕ) (i y : ℕ)
    → is_contiguous (x ∷ rest) ≡ true
    → get_elem? (x ∷ rest) i ≡ some y
    → y ≡ x + i
unfolding is_contiguous
contiguous_at x rest zero y h at = ground arith
contiguous_at x [] (suc i) y h at = absurd (ground (arith, at))
contiguous_at x (z ∷ rest) (suc i) y h at = ground (arith, contiguous_at z rest i y)

-- In an increasing list a later number is greater.
pub increasing_at :
    (x : ℕ) (rest : List ℕ) (i y : ℕ)
    → is_increasing (x ∷ rest) ≡ true
    → get_elem? rest i ≡ some y
    → x < y
unfolding is_increasing
increasing_at x [] i y h at = absurd (ground (arith, at))
increasing_at x (z ∷ rest) zero y h at = ground arith
increasing_at x (z ∷ rest) (suc i) y h at = ground (arith, increasing_at z rest i y)

pub contiguous_from :
    (xs : List ℕ) (first i n : ℕ)
    → is_contiguous xs ≡ true
    → get_elem? xs 0 ≡ some first
    → get_elem? xs i ≡ some n
    → n ≡ first + i
contiguous_from [] first i n h at_0 at_i = absurd (ground (arith, at_0))
contiguous_from (x ∷ rest) first i n h at_0 at_i = ground (arith, contiguous_at x rest i n h at_i)
