-- ===== src/Manifest/Names.antt =====
-- `path_for_bag`: the manifest's path beside the bag's.
use Prim.Native.Char.{Char}
use flight_safety.Prelude.Text.{◌<>◌, eq_iff, str_eq}
use flight_safety.Prelude.{
  Bool-cases, Option, String, ap, arith, false, if◌then◌else◌, inl, inr, none, refl, some, suc, ℕ,
  ◌+◌, ◌<◌, ◌≡◌, ◌∙◌,
}
use flight_safety.Recorder.Paths.{before_extension, or_whole}
use Prim.Native.String.append

-- `s[:-len(ending)]`, if `s.endswith(ending)`.
unfoldable pub without_ending : String → String → Option String
without_ending ending String.[] = none
without_ending ending (String.◌∷◌ c s) =
    let inner = without_ending ending s in
    if str_eq (String.◌∷◌ c s) ending
    then some ""
    else elim inner [ some p ↦ some (String.◌∷◌ c p) | none ↦ none ]

-- `splitext`, where the extension is `.bag`.
abbrev pub beside : String → String → Option String → String
beside suffix bag none = bag <> suffix
beside suffix bag (some base) =
    if str_eq (base <> ".bag") bag then base <> suffix else bag <> suffix

unfoldable pub path_for_bag : String → String → String
unfolding without_ending
path_for_bag suffix bag =
    let closed = or_whole bag (without_ending ".active" bag) in
    beside suffix closed (before_extension false closed)

-- The number of characters.
size : String → ℕ
size String.[] = 0
size (String.◌∷◌ c s) = suc (size s)

size-append : (s t : String) → size (s <> t) ≡ size s + size t
unfolding size
size-append String.[] t = let empty = ap size (append.nil t) in omega (arith, empty)
size-append (String.◌∷◌ c s) t =
    let head = ap size (append.cons c s t) in
    let tail = size-append s t in omega (arith, head, tail)

longer_differs : (s t : String) → size t < size s → str_eq s t ≡ false
longer_differs s t longer = elim (Bool-cases (str_eq s t)) [
  | inl same ↦ absurd (let equal = ap size ((eq_iff s t).0 same) in omega arith)
  | inr apart ↦ apart
]

longer_than_ending : (c : Char) (s : String) → size ".active" < size (String.◌∷◌ c (s <> ".active"))
unfolding size
longer_than_ending c s = let total = size-append s ".active" in omega arith

-- A character before a text that is longer than the ending.
without_ending-longer :
    (c : Char) (s p : String)
    → size ".active" < size (String.◌∷◌ c s)
    → without_ending ".active" s ≡ some p
    → without_ending ".active" (String.◌∷◌ c s) ≡ some (String.◌∷◌ c p)
unfolding without_ending
without_ending-longer c s p longer inner =
    rw (longer_differs (String.◌∷◌ c s) ".active" longer, inner) refl

pub without_ending-append : (s : String) → without_ending ".active" (s <> ".active") ≡ some s
unfolding without_ending
without_ending-append String.[] = ap (without_ending ".active") (append.nil ".active") ∙ refl
without_ending-append (String.◌∷◌ c s) =
    ap (without_ending ".active") (append.cons c s ".active")
    ∙ without_ending-longer c (s <> ".active") s (longer_than_ending c s) (without_ending-append s)

-- While rosbag still writes to the bag, whose name then ends in `.active`, the manifest already has
-- the path that it has for the finished bag.
pub path_for_bag-active :
    (suffix bag : String)
    → without_ending ".active" bag ≡ none
    → path_for_bag suffix (bag <> ".active") ≡ path_for_bag suffix bag
unfolding path_for_bag
path_for_bag-active suffix bag closed = rw (without_ending-append bag, closed) refl
