-- ===== src/Text.antt =====
-- The string functions of the standard library that src/server/field/headers.rs and
-- src/server/field/mod.rs use: texts as lists of code points, and `str::from_utf8`.
pub mod Front
pub mod Scan
use multipart_async.Base.{
  ℕ, zero, suc, ◌+◌, ◌*◌, ◌%◌, Bool, true, false, ◌&&◌, ◌||◌, [], ◌∷◌, Bytes, Option, none, some,
  leb, ltb, ◌==◌, if◌then◌else◌,
}
use mathlib.Core.List.{reverse, map}
use multipart_async.Stream.{Text}

abbrev within : ℕ → ℕ → ℕ → Bool
within lo hi c = leb lo c && leb c hi

-- `char::is_whitespace`: the property White_Space of Unicode
unfoldable pub is_whitespace : ℕ → Bool
is_whitespace c =
    within 9 13 c
    || c == 32
    || c == 0x85
    || c == 0xA0
    || c == 0x1680
    || within 0x2000 0x200A c
    || c == 0x2028
    || c == 0x2029
    || c == 0x202F
    || c == 0x205F
    || c == 0x3000

-- `str::trim_left_matches`
unfoldable pub trim_left_by : (ℕ → Bool) → Text → Text
trim_left_by p [] = []
trim_left_by p (c ∷ s) = if p c then trim_left_by p s else c ∷ s

-- `str::trim_matches`
unfoldable pub trim_by : (ℕ → Bool) → Text → Text
unfolding trim_left_by
trim_by p s = reverse (trim_left_by p (reverse (trim_left_by p s)))

-- `str::trim`
unfoldable pub trim : Text → Text
unfolding trim_by is_whitespace
trim s = trim_by is_whitespace s

-- `str::splitn(2, p)`: what stands before the first match, and what stands behind it if there is one
unfoldable pub split_two : (ℕ → Bool) → Text → Text × Option Text
split_two p [] = ([], none)
split_two p (c ∷ s) =
    let (before, after) = split_two p s in if p c then ([], some s) else (c ∷ before, after)

-- `u8::to_ascii_lowercase`
to_lower : ℕ → ℕ
to_lower c = if within b'A' b'Z' c then c + 32 else c

-- `==` on texts
unfoldable pub text_eq : Text → Text → Bool
text_eq [] [] = true
text_eq (x ∷ xs) (y ∷ ys) = x == y && text_eq xs ys
text_eq _ _ = false

-- `str::eq_ignore_ascii_case`
unfoldable pub eq_ignore_ascii_case : Text → Text → Bool
unfolding text_eq to_lower
eq_ignore_ascii_case a b = text_eq (map to_lower a) (map to_lower b)

-- What stands at the front of a byte string: a character with so many continuation bytes, a byte
-- sequence of that length that begins no character, or the beginning of a character that is cut off.
pub data Utf8Front : Type 0 where
  char : ℕ → Utf8Front
  bad : ℕ → Utf8Front
  cut : Utf8Front

abbrev is_cont : ℕ → Bool
is_cont c = within 0x80 0xBF c

-- the second byte that may follow `first`
second_range : ℕ → ℕ → Bool
second_range first c =
    if first == 0xE0
    then within 0xA0 0xBF c
    else if first == 0xED
    then within 0x80 0x9F c
    else if first == 0xF0
    then within 0x90 0xBF c
    else if first == 0xF4
    then within 0x80 0x8F c
    else is_cont c

-- the bytes behind the first, of which there must be so many
rest_of_char : ℕ → ℕ → Bytes → Utf8Front
rest_of_char done zero s = char done
rest_of_char done (suc k) [] = cut
rest_of_char done (suc k) (c ∷ s) =
    let rest = rest_of_char (suc done) k s in if is_cont c then rest else bad (suc done)

second_of_char : ℕ → ℕ → Bytes → Utf8Front
unfolding second_range rest_of_char
second_of_char first k [] = cut
second_of_char first k (c ∷ s) = if second_range first c then rest_of_char 1 k s else bad 1

pub utf8_front : ℕ → Bytes → Utf8Front
unfolding second_of_char
utf8_front first s =
    if ltb first 0x80
    then char 0
    else if within 0xC2 0xDF first
    then second_of_char first 0 s
    else if within 0xE0 0xEF first
    then second_of_char first 1 s
    else if within 0xF0 0xF4 first
    then second_of_char first 2 s
    else bad 1

-- `Result<&str, Utf8Error>`: `valid_up_to` and `error_len`
pub data Utf8Check : Type 0 where
  valid : Utf8Check
  invalid : ℕ → Option ℕ → Utf8Check

-- The scan of `str::from_utf8`: so many bytes of the current character are still to be passed, and
-- it began at `start`; `pos` counts the bytes that are read.
pub scan_utf8 : ℕ → ℕ → Bytes → Utf8Check
unfolding utf8_front
scan_utf8 skip pos [] = valid
scan_utf8 (suc skip) pos (c ∷ s) = scan_utf8 skip (suc pos) s
scan_utf8 zero pos (c ∷ s) = elim (utf8_front c s) [
  | char k ↦ scan_utf8 k (suc pos) s
  | bad n ↦ invalid pos (some n)
  | cut ↦ invalid pos none
]

-- `str::from_utf8`
unfoldable pub check_utf8 : Bytes → Utf8Check
unfolding scan_utf8
check_utf8 s = scan_utf8 0 0 s

-- The code point of the character at the front of `first ∷ s`.
code_point : ℕ → Bytes → ℕ
code_point first (a ∷ b ∷ c ∷ s) =
    if ltb first 0x80
    then first
    else if ltb first 0xE0
    then (first % 32) * 64 + a % 64
    else if ltb first 0xF0
    then ((first % 16) * 64 + a % 64) * 64 + b % 64
    else (((first % 8) * 64 + a % 64) * 64 + b % 64) * 64 + c % 64
code_point first (a ∷ b ∷ []) =
    if ltb first 0x80
    then first
    else if ltb first 0xE0
    then (first % 32) * 64 + a % 64
    else ((first % 16) * 64 + a % 64) * 64 + b % 64
code_point first (a ∷ []) = if ltb first 0x80 then first else (first % 32) * 64 + a % 64
code_point first [] = first

-- The characters of a byte string that is valid UTF-8.
decode_chars : ℕ → Bytes → Text
unfolding utf8_front code_point
decode_chars skip [] = []
decode_chars (suc skip) (c ∷ s) = decode_chars skip s
decode_chars zero (c ∷ s) = elim (utf8_front c s) [
  | char k ↦ code_point c s ∷ decode_chars k s
  | bad n ↦ []
  | cut ↦ []
]

-- `str::from_utf8`, as a text
unfoldable pub from_utf8 : Bytes → Option Text
unfolding check_utf8 decode_chars
from_utf8 s = elim (check_utf8 s) [ valid ↦ some (decode_chars 0 s) | invalid _ _ ↦ none ]
