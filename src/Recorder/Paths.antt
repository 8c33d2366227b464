-- ===== src/Recorder/Paths.antt =====
-- The path texts of the recorder: `os.path.join`, `basename`, `splitext`, and the search for the
-- webcam's file name.
use Prim.Native.Char.{code}
use flight_safety.Prelude.{
  Bool, Option, String, false, if◌then◌else◌, leb, none, not, some, true, ℕ, ◌&&◌, ◌==◌, ◌||◌,
}
use flight_safety.Prelude.Text.{str_eq, ◌<>◌}

abbrev pub slash : ℕ
slash = 47

unfoldable pub has_slash : String → Bool
has_slash String.[] = false
has_slash (String.◌∷◌ c s) = code c == slash || has_slash s

-- `os.path.basename`
unfoldable pub basename : String → String
unfolding has_slash
basename String.[] = ""
basename (String.◌∷◌ c s) =
    let inner = basename s in
    if has_slash s then inner else if code c == slash then s else String.◌∷◌ c s

-- The text before the last `.` of the last component, if a character other than `.` stands before
-- it there; the flag says whether one was seen in this component.
unfoldable pub before_extension : Bool → String → Option String
unfolding has_slash
before_extension seen String.[] = none
before_extension seen (String.◌∷◌ c s) =
    elim (before_extension (not (code c == slash) && (seen || not (code c == 46))) s) [
      | some p ↦ some (String.◌∷◌ c p)
      | none ↦ if code c == 46 && (seen && not (has_slash s)) then some "" else none
    ]

abbrev pub or_whole : String → Option String → String
or_whole s none = s
or_whole s (some p) = p

-- `os.path.splitext(s)[0]`
unfoldable pub stem : String → String
unfolding before_extension
stem s = or_whole s (before_extension false s)

abbrev pub ends_in_slash : String → Bool
ends_in_slash String.[] = false
ends_in_slash (String.◌∷◌ c String.[]) = code c == slash
ends_in_slash (String.◌∷◌ c (String.◌∷◌ d s)) = ends_in_slash (String.◌∷◌ d s)

abbrev pub starts_with_slash : String → Bool
starts_with_slash String.[] = false
starts_with_slash (String.◌∷◌ c s) = code c == slash

-- `os.path.join(dir, name)`
unfoldable pub join : String → String → String
join dir name =
    if starts_with_slash name
    then name
    else if str_eq dir "" || ends_in_slash dir
    then dir <> name
    else dir <> ("/" <> name)

-- The ASCII characters that `\s` matches.
abbrev pub is_blank : ℕ → Bool
is_blank c = leb 9 c && leb c 13 || leb 28 c && leb c 32

abbrev pub starts_mp4 : String → Bool
starts_mp4 (String.◌∷◌ a (String.◌∷◌ b (String.◌∷◌ c (String.◌∷◌ d s)))) =
    code a == 46 && (code b == 109 && (code c == 112 && code d == 52))
starts_mp4 s = false

-- The longest `\S+\.mp4` at the start; the flag says whether a character was taken.
unfoldable pub match_mp4 : Bool → String → Option String
match_mp4 taken String.[] = none
match_mp4 taken (String.◌∷◌ c s) =
    let longer = match_mp4 true s in
    if is_blank (code c) then none else elim longer [
      | some p ↦ some (String.◌∷◌ c p)
      | none ↦ if taken && starts_mp4 (String.◌∷◌ c s) then some ".mp4" else none
    ]

-- `re.search(r"(\S+\.mp4)", s)`
unfoldable pub search_mp4 : String → Option String
unfolding match_mp4
search_mp4 String.[] = none
search_mp4 (String.◌∷◌ c s) = elim (match_mp4 false (String.◌∷◌ c s)) [
  | some p ↦ some p
  | none ↦ search_mp4 s
]

-- `f[:-len(".bag")]`, where `f` ends in `.bag`.
unfoldable pub without_bag : String → Option String
without_bag String.[] = none
without_bag (String.◌∷◌ c s) =
    let inner = without_bag s in
    if str_eq (String.◌∷◌ c s) ".bag"
    then some ""
    else elim inner [ some p ↦ some (String.◌∷◌ c p) | none ↦ none ]
