-- ===== src/Vio/Candidate/Built.antt =====
-- Theorems about the libraries of an accepted candidate.
use flight_safety.Prelude.{
  All, Bool, Bool-cases, List, Option, String, [], all, ap, arith, inl, inr, is_some, none, refl,
  some, sym, true, ◌∷◌, ◌≡◌,
}
use flight_safety.Vio.Candidate.Gates.{Candidate, as_hash, is_hash, libraries_of, libraries_exact}
use flight_safety.Json.{Value, array, boolean, get, integer, null, object, real, str}
use flight_safety.Prelude.Text.{eq_iff, lookup, str_eq}
use flight_safety.Vio.Texts.{valid_sha256}
use flight_safety.Vio.Profile.Keys.{fastlivo_libraries}

-- Every library's measured hash is the build manifest's.
pub record IsBuilt (c : Candidate) (name : String) : Type 0 where
  pub hash : String
  pub measured : lookup name c.library_sha256 ≡ some hash
  pub recorded : get name (libraries_of c) ≡ some (str hash)
  pub well_formed : valid_sha256 hash ≡ true

all-lookup :
    (test : String × String → Bool) (d : List (String × String)) (key hash : String)
    → all test d ≡ true
    → lookup key d ≡ some hash
    → test (key, hash) ≡ true
unfolding lookup
all-lookup test [] key hash h at = absurd (ground (arith, at))
all-lookup test ((k, v) ∷ rest) key hash h at = elim (Bool-cases (str_eq k key)) [
  | inl same ↦
      let found : v ≡ hash = ground (arith, at, same) in
      rw (← (eq_iff k key).0 same, ← found) (ground (arith, h))
  | inr apart ↦ all-lookup test rest key hash (ground (arith, h)) (ground (arith, at, apart))
]

is_hash-recorded :
    (hash : String) (v : Option Value)
    → is_hash (some hash) (as_hash v) ≡ true
    → (v ≡ some (str hash)) × (valid_sha256 hash ≡ true)
is_hash-recorded hash none h = absurd (ground (arith, h))
is_hash-recorded hash (some (str s)) h =
    (ap (λ t. some (str t)) (sym ((eq_iff hash s).0 (ground (arith, h)))), ground (arith, h))
is_hash-recorded hash (some null) h = absurd (ground (arith, h))
is_hash-recorded hash (some (boolean b)) h = absurd (ground (arith, h))
is_hash-recorded hash (some (integer n)) h = absurd (ground (arith, h))
is_hash-recorded hash (some (real x)) h = absurd (ground (arith, h))
is_hash-recorded hash (some (array xs)) h = absurd (ground (arith, h))
is_hash-recorded hash (some (object d)) h = absurd (ground (arith, h))

library-IsBuilt :
    (c : Candidate) (name : String) (found : Option String)
    → all
        (λ entry. is_hash (some entry.1) (as_hash (get entry.0 (libraries_of c))))
        c.library_sha256
      ≡ true
    → lookup name c.library_sha256 ≡ found
    → is_some found ≡ true
    → IsBuilt c name
library-IsBuilt c name none hashed at there = absurd (ground (arith, there))
library-IsBuilt c name (some hash) hashed at there =
    let exact =
      all-lookup (λ entry. is_hash (some entry.1) (as_hash (get entry.0 (libraries_of c))))
        c.library_sha256 name hash hashed at in
    let parts = is_hash-recorded hash (get name (libraries_of c)) exact in
    record { hash = hash; measured = at; recorded = parts.0; well_formed = parts.1 }

libraries-IsBuilt :
    (c : Candidate) (names : List String)
    → all
        (λ entry. is_hash (some entry.1) (as_hash (get entry.0 (libraries_of c))))
        c.library_sha256
      ≡ true
    → all (λ name. is_some (lookup name c.library_sha256)) names ≡ true
    → All (IsBuilt c) names
libraries-IsBuilt c [] hashed there = tt
libraries-IsBuilt c (name ∷ rest) hashed there = (
  library-IsBuilt c name (lookup name c.library_sha256) hashed refl (ground (arith, there)),
  libraries-IsBuilt c rest hashed (ground (arith, there)),
)

pub libraries_exact-IsBuilt :
    (c : Candidate) → libraries_exact c ≡ true → All (IsBuilt c) fastlivo_libraries
unfolding libraries_exact
libraries_exact-IsBuilt c passes =
    libraries-IsBuilt c fastlivo_libraries (ground (arith, passes)) (ground (arith, passes))
