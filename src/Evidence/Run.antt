-- ===== src/Evidence/Run.antt =====
-- `AppendOnlyRun.__init__`: the tests on the root and the run's name, and the new directory.
pub mod Confined
use Prim.Native.Char.{code}
use flight_safety.Prelude.{
  Bool, Option, String, [], false, if◌then◌else◌, leb, none, not, some, suc, true, zero, ℕ, ◌&&◌,
  ◌==◌, ◌||◌, ◌∷◌,
}
use flight_safety.Evidence.Store.{Store, special}
use Prim.Native.String

abbrev pub in_range : ℕ → ℕ → ℕ → Bool
in_range low high c = leb low c && leb c high

abbrev pub is_empty : String → Bool
is_empty String.[] = true
is_empty (String.◌∷◌ c s) = false

-- What is at the output root before the run.
pub data Root : Type 0 where
  missing : Root
  directory : Root
  link_or_file : Root

-- `[A-Za-z0-9]` and `[A-Za-z0-9_.-]`
abbrev pub is_alnum : ℕ → Bool
is_alnum c = in_range 65 90 c || (in_range 97 122 c || in_range 48 57 c)

abbrev pub is_id_char : ℕ → Bool
is_id_char c = is_alnum c || (c == 95 || (c == 46 || c == 45))

-- `[A-Za-z0-9_.-]{0,room}$`; as in `re.match`, the `$` also stands before a final line feed.
unfoldable pub matches_rest : ℕ → String → Bool
matches_rest room String.[] = true
matches_rest zero (String.◌∷◌ c s) = code c == 10 && is_empty s
matches_rest (suc room) (String.◌∷◌ c s) =
    let rest = matches_rest room s in is_id_char (code c) && rest || code c == 10 && is_empty s

unfoldable pub matches_run_id : String → Bool
unfolding matches_rest
matches_run_id String.[] = false
matches_run_id (String.◌∷◌ c s) = is_alnum (code c) && matches_rest 127 s

abbrev pub new_store : Store
new_store = record { disk = (".", special) ∷ ("evidence", special) ∷ []; artifacts = [] }

-- A root that is there must be a directory; the run directory must be new.
abbrev pub root_run : Root → Bool → Option Store
root_run link_or_file taken = none
root_run missing taken = some new_store
root_run directory taken = if taken then none else some new_store

-- `__init__`: `none` where it raises. The last argument says whether the run directory exists.
unfoldable pub open_run : Bool → Root → String → Bool → Option Store
unfolding matches_run_id
open_run absolute_root root run_id taken =
    if not absolute_root || not (matches_run_id run_id) then none else root_run root taken
