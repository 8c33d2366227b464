-- ===== src/Evidence/Run/Confined.antt =====
-- Theorems about `AppendOnlyRun.__init__`.
use Prim.Native.Char.{code}
use flight_safety.Prelude.{
  Bool, String, [], arith, false, refl, some, suc, true, zero, ℕ, ◌==◌, ◌||◌, ◌≡◌, Bool-cases, inl,
  inr, not,
}
use flight_safety.Evidence.Run.{
  Root, matches_rest, matches_run_id, open_run, directory, is_alnum, link_or_file, missing,
  root_run,
}
use flight_safety.Evidence.Store.{Store}

-- Some character of the text has the code.
abbrev pub has_code : ℕ → String → Bool
has_code n String.[] = false
has_code n (String.◌∷◌ c s) = code c == n || has_code n s

matches_rest-no_slash : (room : ℕ) (s : String) → matches_rest room s ≡ true → has_code 47 s ≡ false
unfolding matches_rest
matches_rest-no_slash room String.[] h = refl
matches_rest-no_slash zero (String.◌∷◌ c String.[]) h = ground arith
matches_rest-no_slash zero (String.◌∷◌ c (String.◌∷◌ d s)) h = ground arith
matches_rest-no_slash (suc room) (String.◌∷◌ c String.[]) h = ground arith
matches_rest-no_slash (suc room) (String.◌∷◌ c (String.◌∷◌ d s)) h =
    ground (arith, matches_rest-no_slash room (String.◌∷◌ d s))

abbrev pub begins_alnum : String → Bool
begins_alnum String.[] = false
begins_alnum (String.◌∷◌ c s) = is_alnum (code c)

matches_run_id-no_slash :
    (s : String) → matches_run_id s ≡ true → (has_code 47 s ≡ false) × (begins_alnum s ≡ true)
unfolding matches_run_id
matches_run_id-no_slash String.[] h = absurd (ground (arith, h))
matches_run_id-no_slash (String.◌∷◌ c s) h = ground (arith, matches_rest-no_slash 127 s)

root_run-empty :
    (root : Root) (taken : Bool) (r : Store) → root_run root taken ≡ some r → r.artifacts ≡ []
root_run-empty link_or_file taken r h = absurd (ground (arith, h))
root_run-empty missing taken r h = ground arith
root_run-empty directory true r h = absurd (ground (arith, h))
root_run-empty directory false r h = ground arith

-- A run is opened only under an absolute root, with a name that begins with a letter or a digit and
-- has no `/` in it, so its directory is a direct child of the root; and nothing is recorded yet.
pub open_run-confined :
    (absolute_root : Bool) (root : Root) (run_id : String) (taken : Bool) (r : Store)
    → open_run absolute_root root run_id taken ≡ some r
    → (absolute_root ≡ true)
      × ((begins_alnum run_id ≡ true) × ((has_code 47 run_id ≡ false) × (r.artifacts ≡ [])))
unfolding open_run
open_run-confined absolute_root root run_id taken r h =
    elim (Bool-cases (not absolute_root || not (matches_run_id run_id))) [
      | inl refused_run ↦ absurd (ground (arith, refused_run))
      | inr accepted ↦
          ground (arith, accepted, matches_run_id-no_slash run_id, root_run-empty root taken r)
    ]
