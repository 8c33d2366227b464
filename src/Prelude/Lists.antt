-- ===== src/Prelude/Lists.antt =====
-- Lists measured and indexed by native numbers, and predicates over their members.
use Prim.Native.Nat.{ℕ, zero, suc, ◌+◌, ◌≤◌}
use mathlib.Core.Path.{◌≡◌, ap, refl}
use mathlib.Core.Bool.{Bool, true, false, ◌&&◌, ◌||◌}
use mathlib.Core.Option.{Option, none, some}
use mathlib.Core.List.{List, [], ◌∷◌, ◌++◌, map}
use mathlib.Core.Logic.{◌⊎◌, inl, inr}
use native.Mathlib.Omega.{arith}
use flight_safety.Prelude.Tests.{if◌then◌else◌}

module _ {ℓ} {A : Type ℓ} where
  abbrev pub length : List A → ℕ
  length [] = 0
  length (x ∷ xs) = suc (length xs)

  abbrev pub get_elem? : List A → ℕ → Option A
  get_elem? [] i = none
  get_elem? (x ∷ xs) zero = some x
  get_elem? (x ∷ xs) (suc i) = get_elem? xs i

  -- `[x for x in xs if test(x)]`
  abbrev pub keep_if : (A → Bool) → List A → List A
  keep_if test [] = []
  keep_if test (x ∷ xs) = let rest = keep_if test xs in if test x then x ∷ rest else rest

  -- Python's `all` and `any`
  abbrev pub all : (A → Bool) → List A → Bool
  all test [] = true
  all test (x ∷ xs) = test x && all test xs

  abbrev pub any : (A → Bool) → List A → Bool
  any test [] = false
  any test (x ∷ xs) = test x || any test xs

  pub length-append : (xs ys : List A) → length (xs ++ ys) ≡ length xs + length ys
  length-append [] ys = omega arith
  length-append (x ∷ xs) ys = omega (arith, length-append xs ys)

  pub length-keep_if : (test : A → Bool) (xs : List A) → length (keep_if test xs) ≤ length xs
  length-keep_if test [] = omega arith
  length-keep_if test (x ∷ xs) = ground (arith, length-keep_if test xs)

module _ {ℓ} {A : Type ℓ} where
  pub length-keep_if-append :
      (test : A → Bool) (xs ys : List A)
      → length (keep_if test (xs ++ ys)) ≡ length (keep_if test xs) + length (keep_if test ys)
  length-keep_if-append test [] ys = omega arith
  length-keep_if-append test (x ∷ xs) ys = ground (arith, length-keep_if-append test xs ys)

  pub length-keep_if-keep_if :
      (p q : A → Bool) (xs : List A) → length (keep_if p (keep_if q xs)) ≤ length (keep_if p xs)
  length-keep_if-keep_if p q [] = omega arith
  length-keep_if-keep_if p q (x ∷ xs) = ground (arith, length-keep_if-keep_if p q xs)

  -- A filter that drops nothing which a second one keeps.
  pub length-keep_if-implied :
      (p q : A → Bool)
      → ((x : A) → p x ≡ true → q x ≡ true)
      → (xs : List A) → length (keep_if p (keep_if q xs)) ≡ length (keep_if p xs)
  length-keep_if-implied p q imp [] = refl
  length-keep_if-implied p q imp (x ∷ xs) = ground (arith, imp x, length-keep_if-implied p q imp xs)

module _ {ℓ} {A : Type ℓ} where
  -- A predicate at every member, and at some member, by recursion.
  abbrev pub All : (A → Type 0) → List A → Type 0
  All P [] = Unit
  All P (x ∷ xs) = P x × All P xs

  abbrev pub Any : (A → Type 0) → List A → Type 0
  Any P [] = ⊥
  Any P (x ∷ xs) = P x ⊎ Any P xs

module _ {ℓ} {A : Type ℓ} (P : A → Type 0) where
  pub All-append : (xs : List A) (last : A) → All P xs → P last → All P (xs ++ last ∷ [])
  All-append [] last h p = (p, tt)
  All-append (x ∷ xs) last (q, h) p = (q, All-append xs last h p)

module _ {ℓ} {A : Type ℓ} where
  pub All-mono : {P Q : A → Type 0} → ((x : A) → P x → Q x) → (xs : List A) → All P xs → All Q xs
  All-mono imp [] h = tt
  All-mono imp (x ∷ xs) (p, ps) = (imp x p, All-mono imp xs ps)

  pub All-trivial : (xs : List A) → All (λ x. Unit) xs
  All-trivial [] = tt
  All-trivial (x ∷ xs) = (tt, All-trivial xs)

  -- A member with `P`, where every member has `R`.
  pub Any-mono :
      {R P Q : A → Type 0}
      → ((x : A) → R x → P x → Q x)
      → (xs : List A) → All R xs
      → Any P xs
      → Any Q xs
  Any-mono imp [] r h = h
  Any-mono imp (x ∷ xs) (r, rs) (inl p) = inl (imp x r p)
  Any-mono imp (x ∷ xs) (r, rs) (inr h) = inr (Any-mono imp xs rs h)

  pub Any-elim :
      {R P : A → Type 0} {C : Type 0}
      → ((x : A) → R x → P x → C)
      → (xs : List A) → All R xs
      → Any P xs
      → C
  Any-elim imp [] r h = absurd h
  Any-elim imp (x ∷ xs) (r, rs) (inl p) = imp x r p
  Any-elim imp (x ∷ xs) (r, rs) (inr h) = Any-elim imp xs rs h

module _ {ℓ κ} {A : Type ℓ} {B : Type κ} (f : A → B) (P : B → Type 0) where
  pub Any-map : (xs : List A) → Any P (map f xs) → Any (λ x. P (f x)) xs
  Any-map [] h = h
  Any-map (x ∷ xs) (inl p) = inl p
  Any-map (x ∷ xs) (inr h) = inr (Any-map xs h)

  pub All-map : (xs : List A) → All P (map f xs) → All (λ x. P (f x)) xs
  All-map [] h = tt
  All-map (x ∷ xs) (p, ps) = (p, All-map xs ps)

  pub map-All : (xs : List A) → All (λ x. P (f x)) xs → All P (map f xs)
  map-All [] h = tt
  map-All (x ∷ xs) (p, ps) = (p, map-All xs ps)

pub length-map {ℓ κ} :
    {A : Type ℓ} {B : Type κ} (f : A → B) (xs : List A) → length (map f xs) ≡ length xs
length-map f [] = refl
length-map f (x ∷ xs) = ap suc (length-map f xs)
