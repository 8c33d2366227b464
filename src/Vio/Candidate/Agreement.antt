-- ===== src/Vio/Candidate/Agreement.antt =====
-- Theorems about what `_exact_value` finds the same.
use flight_safety.Json.{Value, array, boolean, integer, null, object, real, str, Values}
use flight_safety.Prelude.{
  Bool, Option, ap, arith, false, inl, inr, none, some, true, ◌≡◌, ◌&&◌, ◌⊎◌,
}
use flight_safety.Prelude.Text.{eq_iff}
use flight_safety.Json.Exact.{exact_value, eq_bool, eq_float}
use flight_safety.Prelude.Float.{Float}
use flight_safety.Vio.Hybrid.Domain.{eq_ℤ}
use flight_safety.Vio.Candidate.Gates.{is_mapping}
use flight_safety.Prelude.Int.{negsuc, pos, ℤ}
use flight_safety.Vio.Candidate.Same.{right-mapping, same_if}

abbrev pub is_list : Value → Bool
is_list (array xs) = true
is_list v = false

-- The same scalar, two lists that `_exact_value` finds the same, or two mappings.
abbrev pub IsSame : Value → Value → Type 0
IsSame v w =
    (v ≡ w)
    ⊎ ((((is_list v && is_list w) ≡ true) × (exact_value v w ≡ true))
        ⊎ ((is_mapping v && is_mapping w) ≡ true))

-- Two places that both have nothing, or the same.
abbrev pub AreSame : Option Value → Option Value → Type 0
AreSame none none = Unit
AreSame none (some w) = ⊥
AreSame (some v) none = ⊥
AreSame (some v) (some w) = IsSame v w

eq_bool-same : (a b : Bool) → eq_bool a b ≡ true → a ≡ b
eq_bool-same a b h = ground (arith, h)

eq_ℤ-same : (a b : ℤ) → eq_ℤ a b ≡ true → a ≡ b
eq_ℤ-same (pos a) (pos b) h = ap pos (ground (arith, h))
eq_ℤ-same (negsuc a) (negsuc b) h = ap negsuc (ground (arith, h))
eq_ℤ-same (pos a) (negsuc b) h = absurd (ground (arith, h))
eq_ℤ-same (negsuc a) (pos b) h = absurd (ground (arith, h))

eq_float-same : (a b : Float) → eq_float a b ≡ true → a ≡ b
eq_float-same a b h = grind (arith, h, eq_ℤ-same)

list-same : (xs : Values) (w : Value) → exact_value (array xs) w ≡ true → is_list w ≡ true
unfolding exact_value
list-same xs w h = grind (arith, h)

exact_value-IsSame : (v w : Value) → exact_value v w ≡ true → IsSame v w
unfolding exact_value
exact_value-IsSame null w h = inl (grind (arith, h))
exact_value-IsSame (boolean b) w h = inl (grind (arith, h, eq_bool-same))
exact_value-IsSame (integer n) w h = inl (grind (arith, h, eq_ℤ-same))
exact_value-IsSame (real x) w h = inl (grind (arith, h, eq_float-same))
exact_value-IsSame (str s) w h = inl (grind (arith, h, eq_iff))
exact_value-IsSame (array xs) w h = inr (inl (list-same xs w h, h))
exact_value-IsSame (object d) w h =
    let parts = right-mapping d w h in inr (inr (ap is_mapping (parts.1)))

pub same_if-AreSame : (o p : Option Value) → same_if o p ≡ true → AreSame o p
same_if-AreSame none none h = tt
same_if-AreSame none (some w) h = absurd (ground (arith, h))
same_if-AreSame (some v) none h = absurd (ground (arith, h))
same_if-AreSame (some v) (some w) h = exact_value-IsSame v w h
