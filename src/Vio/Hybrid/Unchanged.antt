-- ===== src/Vio/Hybrid/Unchanged.antt =====
-- Theorems about the counters of the hybrid IMU: `no_new_faults` and the tests that it uses.
use flight_safety.Prelude.{
  List, Option, Option-cases, [], arith, get_elem?, inl, inr, map, refl, some, suc, true, zero, ℕ,
  ◌∷◌, ◌≡◌, ◌≤◌, String, ap, none, sym, ◌∙◌,
}
use flight_safety.Vio.Hybrid.Ready.{
  all_some, is_nondecreasing, is_quiet, last_of, cons_some, counts,
}
use flight_safety.Vio.Hybrid.{Reading}
use flight_safety.Vio.Identity.{uint_at}

-- A number of a nondecreasing list lies between its first and its last.
between :
    (x : ℕ) (rest : List ℕ) (i y last : ℕ)
    → is_nondecreasing (x ∷ rest) ≡ true
    → last_of (x ∷ rest) ≡ some last
    → get_elem? (x ∷ rest) i ≡ some y
    → (x ≤ y) × (y ≤ last)
unfolding is_nondecreasing
between x [] zero y last h end at = ground (arith, end, at)
between x [] (suc i) y last h end at = absurd (ground (arith, at))
between x (z ∷ rest) zero y last h end at =
    ground (arith, at, between z rest zero z last (ground arith) end refl)
between x (z ∷ rest) (suc i) y last h end at =
    ground (arith, between z rest i y last (ground arith) end at)

-- A quiet counter has its first value everywhere.
pub is_quiet-constant :
    (xs : List ℕ) (i first y : ℕ)
    → is_quiet (some xs) ≡ true
    → get_elem? xs 0 ≡ some first
    → get_elem? xs i ≡ some y
    → y ≡ first
is_quiet-constant [] i first y h at_0 at_i = absurd (ground (arith, at_0))
is_quiet-constant (x ∷ rest) i first y h at_0 at_i = elim (Option-cases (last_of (x ∷ rest))) [
  | inl missing ↦ absurd (ground (arith, h, missing))
  | inr (last, end) ↦
      ground (arith, h, end, at_0, between x rest i y last (ground (arith, h)) end at_i)
]

module _ {A : Type 0} where
  pub cons_some-parts :
      (o : Option A) (r : Option (List A)) (ys : List A)
      → cons_some o r ≡ some ys
      → (y : A) × (zs : List A) × (o ≡ some y) × (r ≡ some zs) × (ys ≡ y ∷ zs)
  cons_some-parts none r ys h = absurd (ground (arith, h))
  cons_some-parts (some y) none ys h = absurd (ground (arith, h))
  cons_some-parts (some y) (some zs) ys h = (y, zs, refl, refl, ground (arith, h))

-- Where all values are there, the i-th value is that of the i-th item.
pub all_some-map :
    {A B : Type 0} (f : A → Option B) (ds : List A) (ys : List B) (i : ℕ) (d : A)
    → all_some (map f ds) ≡ some ys
    → get_elem? ds i ≡ some d
    → f d ≡ get_elem? ys i
unfolding all_some
all_some-map f [] ys i d h at = absurd (ground (arith, at))
all_some-map f (x ∷ rest) ys zero d h at =
    let parts = cons_some-parts (f x) (all_some (map f rest)) ys h in
    ground (arith, at, parts.2, parts.4)
all_some-map f (x ∷ rest) ys (suc i) d h at =
    let parts = cons_some-parts (f x) (all_some (map f rest)) ys h in
    ground (arith, at, parts.4, all_some-map f rest parts.1 i d parts.3 at)

in_range :
    {A B : Type 0} (f : A → Option B) (ds : List A) (ys : List B) (i : ℕ) (d : A)
    → all_some (map f ds) ≡ some ys
    → get_elem? ds i ≡ some d
    → get_elem? ys i ≡ none
    → ⊥
unfolding all_some
in_range f [] ys i d h at beyond = absurd (ground (arith, at))
in_range f (x ∷ rest) ys zero d h at beyond =
    let parts = cons_some-parts (f x) (all_some (map f rest)) ys h in
    ground (arith, beyond, parts.4)
in_range f (x ∷ rest) ys (suc i) d h at beyond =
    let parts = cons_some-parts (f x) (all_some (map f rest)) ys h in
    in_range f rest parts.1 i d parts.3 at (ground (arith, beyond, parts.4))

same_counts :
    (f : Reading → Option ℕ) (xs : List Reading) (ys : List ℕ) (i : ℕ) (first d : Reading)
    → is_quiet (some ys) ≡ true
    → all_some (map f xs) ≡ some ys
    → get_elem? xs 0 ≡ some first
    → get_elem? xs i ≡ some d
    → f d ≡ f first
same_counts f xs [] i first d steady there at_0 at_i = absurd (ground (arith, steady))
same_counts f xs (y ∷ ys) i first d steady there at_0 at_i =
    elim (Option-cases (get_elem? (y ∷ ys) i)) [
      | inr (z, found) ↦
          all_some-map f xs (y ∷ ys) i d there at_i
          ∙ found
          ∙ ap some (is_quiet-constant (y ∷ ys) i y z steady refl found)
          ∙ sym (all_some-map f xs (y ∷ ys) 0 first there at_0)
      | inl beyond ↦ absurd (in_range f xs (y ∷ ys) i d there at_i beyond)
    ]

-- A required counter that is quiet over the diagnostics has one count in all of them.
pub counts-constant :
    (key : String) (xs : List Reading) (i : ℕ) (first d : Reading)
    → is_quiet (counts key xs) ≡ true
    → get_elem? xs 0 ≡ some first
    → get_elem? xs i ≡ some d
    → uint_at key d.values ≡ uint_at key first.values
unfolding counts
counts-constant key xs i first d quiet at_0 at_i =
    elim (Option-cases (all_some (map (λ (r : Reading). uint_at key r.values) xs))) [
      | inl missing ↦ absurd (ground (arith, quiet, missing))
      | inr (ys, there) ↦
          let f : Reading → Option ℕ = λ r. uint_at key r.values in
          let steady : is_quiet (some ys) ≡ true = ap is_quiet (sym there) ∙ quiet in
          same_counts f xs ys i first d steady there at_0 at_i
    ]
