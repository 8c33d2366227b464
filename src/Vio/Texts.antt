-- ===== src/Vio/Texts.antt =====
-- The text helpers of the status values, on ASCII.
use Prim.Native.Char.{code}
use flight_safety.Prelude.{
  Bool, Option, String, false, if◌then◌else◌, leb, none, not, some, suc, true, zero, ℕ, ◌&&◌, ◌*◌,
  ◌+◌, ◌-◌, ◌==◌, ◌||◌,
}
use flight_safety.Prelude.Int.{negsuc, pos, ℤ}
use flight_safety.Prelude.Text.{str_eq}

-- The characters that `str.strip` removes.
abbrev pub is_space : ℕ → Bool
is_space c = leb 9 c && leb c 13 || leb 28 c && leb c 32

-- `bool(text.strip())`
unfoldable pub has_text : String → Bool
has_text String.[] = false
has_text (String.◌∷◌ c s) = not (is_space (code c)) || has_text s

unfoldable pub strip_right : String → String
unfolding has_text
strip_right String.[] = ""
strip_right (String.◌∷◌ c s) =
    let rest = strip_right s in if has_text (String.◌∷◌ c s) then String.◌∷◌ c rest else ""

unfoldable pub strip : String → String
unfolding strip_right
strip String.[] = ""
strip (String.◌∷◌ c s) =
    let rest = strip s in if is_space (code c) then rest else strip_right (String.◌∷◌ c s)

abbrev pub lower : ℕ → ℕ
lower c = if leb 65 c && leb c 90 then c + 32 else c

-- `s.lower() == t`, for a lower-case `t`.
unfoldable pub is_lower_case : String → String → Bool
is_lower_case String.[] String.[] = true
is_lower_case String.[] (String.◌∷◌ d t) = false
is_lower_case (String.◌∷◌ c s) String.[] = false
is_lower_case (String.◌∷◌ c s) (String.◌∷◌ d t) = lower (code c) == code d && is_lower_case s t

-- `_as_bool`
unfoldable pub as_bool : String → Bool
unfolding strip is_lower_case
as_bool s = is_lower_case (strip s) "true"

-- `s.startswith(prefix)`
unfoldable pub starts_with : String → String → Bool
starts_with s String.[] = true
starts_with String.[] (String.◌∷◌ d prefix) = false
starts_with (String.◌∷◌ c s) (String.◌∷◌ d prefix) = code c == code d && starts_with s prefix

-- `s.endswith(suffix)`
unfoldable pub ends_with : String → String → Bool
ends_with String.[] suffix = str_eq "" suffix
ends_with (String.◌∷◌ c s) suffix = str_eq (String.◌∷◌ c s) suffix || ends_with s suffix

-- `_strict_uint_text`: `none` for anything but digits.
unfoldable pub digits_value : ℕ → String → Option ℕ
digits_value n String.[] = some n
digits_value n (String.◌∷◌ c s) =
    let rest = digits_value (n * 10 + (code c - 48)) s in
    if leb 48 (code c) && leb (code c) 57 then rest else none

unfoldable pub strict_uint_text : String → Option ℕ
unfolding digits_value
strict_uint_text String.[] = none
strict_uint_text (String.◌∷◌ c s) = digits_value 0 (String.◌∷◌ c s)

abbrev pub negative_of : Option ℕ → Option ℤ
negative_of none = none
negative_of (some zero) = some (pos 0)
negative_of (some (suc n)) = some (negsuc n)

abbrev pub positive_of : Option ℕ → Option ℤ
positive_of none = none
positive_of (some n) = some (pos n)

-- `_strict_int_text`: one `-` may stand before the digits.
unfoldable pub strict_int_text : String → Option ℤ
unfolding strict_uint_text
strict_int_text String.[] = none
strict_int_text (String.◌∷◌ c s) =
    if code c == 45
    then negative_of (strict_uint_text s)
    else positive_of (strict_uint_text (String.◌∷◌ c s))

abbrev pub is_hex : ℕ → Bool
is_hex c = leb 48 c && leb c 57 || leb 97 c && leb c 102

-- So many hexadecimal digits, and nothing more.
unfoldable pub is_hex_of : ℕ → String → Bool
is_hex_of zero String.[] = true
is_hex_of zero (String.◌∷◌ c s) = false
is_hex_of (suc n) String.[] = false
is_hex_of (suc n) (String.◌∷◌ c s) = is_hex (code c) && is_hex_of n s

-- `_valid_sha256`
abbrev pub valid_sha256 : String → Bool
valid_sha256 s = is_hex_of 64 s
