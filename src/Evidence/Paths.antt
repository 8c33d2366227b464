-- ===== src/Evidence/Paths.antt =====
-- `AppendOnlyRun._checked_relative`: `os.path.normpath` on the parts of a path, and the refusal of
-- paths that leave the run directory.
pub mod Inside
use flight_safety.Prelude.{
  Bool, List, Option, String, [], false, if◌then◌else◌, none, not, some, ◌||◌, ◌∷◌,
}
use flight_safety.Prelude.Text.{str_eq, ◌<>◌}

-- A path text split at `/`, and whether it began with one.
pub record RawPath : Type 0 where
  pub absolute : Bool
  pub parts : List String

abbrev pub is_up : String → Bool
is_up part = str_eq part ".."

abbrev pub is_skipped : String → Bool
is_skipped part = str_eq part "" || str_eq part "."

-- One part of `normpath`; the parts kept so far are innermost first.
unfoldable pub push_part : List String → String → List String
push_part [] part = if is_skipped part then [] else part ∷ []
push_part (top ∷ below) part =
    if is_skipped part
    then top ∷ below
    else if not (is_up part) || is_up top
    then part ∷ (top ∷ below)
    else below

unfoldable pub normalize : List String → List String → List String
normalize kept [] = kept
normalize kept (part ∷ rest) = normalize (push_part kept part) rest

-- The outermost part is `..`: the normalised text is `..` or begins with `../`.
unfoldable pub leaves_root : List String → Bool
leaves_root [] = false
leaves_root (part ∷ []) = is_up part
leaves_root (part ∷ outer ∷ rest) = leaves_root (outer ∷ rest)

-- `none` where the method raises; otherwise the normalised parts, innermost first.
unfoldable pub checked_relative : RawPath → Option (List String)
checked_relative raw =
    let kept = normalize [] raw.parts in
    if raw.absolute || leaves_root kept then none else some kept

-- The path text of the parts, `.` for none.
unfoldable pub render : List String → String
render [] = "."
render (part ∷ []) = part
render (part ∷ outer ∷ rest) = render (outer ∷ rest) <> ("/" <> part)
