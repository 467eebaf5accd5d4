-- ===== src/Base/Text.antt =====
-- Rust's strings as lists of code points, byte slices as lists of bytes, and the operations of
-- `str` and slices that the source calls.
use Prim.Native.Nat.{ℕ, ◌+◌, ◌/◌, ◌%◌}
use Prim.Native.Char.{code}
use Prim.Native.String.{String}
use mathlib.Core.Bool.{Bool, true, false, ◌&&◌, ◌||◌}
use mathlib.Core.Option.{Option, none, some}
use mathlib.Core.List.{List, [], ◌∷◌, ◌++◌, reverse}
use gitveil.Base.Tests.{if◌then◌else◌, leb, ltb, eqb}

abbrev pub Str : Type 0
Str = List ℕ

abbrev pub codes : String → Str
codes String.[] = []
codes (String.◌∷◌ c s) = code c ∷ codes s

abbrev pub within : ℕ → ℕ → ℕ → Bool
within lo hi c = leb lo c && leb c hi

abbrev pub is_lower : ℕ → Bool
is_lower = within b'a' b'z'

abbrev pub is_upper : ℕ → Bool
is_upper = within b'A' b'Z'

abbrev pub is_digit : ℕ → Bool
is_digit = within b'0' b'9'

abbrev pub is_ascii_alphanumeric : ℕ → Bool
is_ascii_alphanumeric c = is_lower c || is_upper c || is_digit c

unfoldable pub to_ascii_lowercase : ℕ → ℕ
to_ascii_lowercase c = if is_upper c then c + 32 else c

-- The general category Cc.
unfoldable pub is_control : ℕ → Bool
is_control c = leb c 31 || within 127 159 c

-- The property White_Space.
unfoldable pub is_whitespace : ℕ → Bool
is_whitespace c =
    within 9 13 c
    || eqb c 32
    || eqb c 133
    || eqb c 160
    || eqb c 5760
    || within 8192 8202 c
    || eqb c 8232
    || eqb c 8233
    || eqb c 8239
    || eqb c 8287
    || eqb c 12288

-- The bytes of a code point in UTF-8.
unfoldable pub utf8_width : ℕ → ℕ
utf8_width c = if ltb c 128 then 1 else if ltb c 2048 then 2 else if ltb c 65536 then 3 else 4

-- `str::len`
unfoldable pub byte_len : Str → ℕ
unfolding utf8_width
byte_len [] = 0
byte_len (c ∷ s) = utf8_width c + byte_len s

abbrev pub char_bytes : ℕ → List ℕ
char_bytes c =
    if ltb c 128
    then c ∷ []
    else if ltb c 2048
    then (192 + c / 64) ∷ (128 + c % 64) ∷ []
    else if ltb c 65536
    then (224 + c / 4096) ∷ (128 + c / 64 % 64) ∷ (128 + c % 64) ∷ []
    else (240 + c / 262144) ∷ (128 + c / 4096 % 64) ∷ (128 + c / 64 % 64) ∷ (128 + c % 64) ∷ []

-- `str::as_bytes`: UTF-8
unfoldable pub utf8_bytes : Str → List ℕ
utf8_bytes [] = []
utf8_bytes (c ∷ s) = char_bytes c ++ utf8_bytes s

unfoldable pub strip_prefix : Str → Str → Option Str
strip_prefix [] s = some s
strip_prefix (p ∷ ps) [] = none
strip_prefix (p ∷ ps) (c ∷ s) = if eqb p c then strip_prefix ps s else none

unfoldable pub starts_with : Str → Str → Bool
starts_with [] s = true
starts_with (p ∷ ps) [] = false
starts_with (p ∷ ps) (c ∷ s) = eqb p c && starts_with ps s

unfoldable pub ends_with : Str → Str → Bool
unfolding starts_with
ends_with p s = starts_with (reverse p) (reverse s)

-- `s.contains(needle)`, and a match among the windows of a slice
unfoldable pub contains_str : Str → Str → Bool
unfolding starts_with
contains_str p [] = starts_with p []
contains_str p (c ∷ s) = starts_with p (c ∷ s) || contains_str p s

-- Adds a character to the first piece.
abbrev pub push_first : ℕ → List Str → List Str
push_first c [] = (c ∷ []) ∷ []
push_first c (piece ∷ rest) = (c ∷ piece) ∷ rest

-- `s.split(sep)`
unfoldable pub split : ℕ → Str → List Str
split sep [] = [] ∷ []
split sep (c ∷ s) = let rest = split sep s in if eqb c sep then [] ∷ rest else push_first c rest

-- `s.split_once(sep)`
unfoldable pub split_once : ℕ → Str → Option (Str × Str)
split_once sep [] = none
split_once sep (c ∷ s) =
    if eqb c sep
    then some ([], s)
    else (elim (split_once sep s) [ none ↦ none | some (a, b) ↦ some (c ∷ a, b) ])

unfoldable pub trim_start : Str → Str
unfolding is_whitespace
trim_start [] = []
trim_start (c ∷ s) = if is_whitespace c then trim_start s else c ∷ s

unfoldable pub trim_end : Str → Str
unfolding is_whitespace
trim_end [] = []
trim_end (c ∷ s) = elim (trim_end s) [
  | [] ↦ (if is_whitespace c then [] else c ∷ [])
  | d ∷ t ↦ c ∷ d ∷ t
]

unfoldable pub trim : Str → Str
unfolding trim_start trim_end
trim s = trim_end (trim_start s)

-- `s.replace(c, to)` for one character
unfoldable pub replace_char : ℕ → Str → Str → Str
replace_char c to [] = []
replace_char c to (d ∷ s) =
    let rest = replace_char c to s in if eqb d c then to ++ rest else d ∷ rest

-- A piece without the carriage return at its end.
abbrev pub strip_return : Str → Str
strip_return [] = []
strip_return (c ∷ []) = if eqb c 13 then [] else c ∷ []
strip_return (c ∷ d ∷ s) = c ∷ strip_return (d ∷ s)

-- The lines of the pieces between newlines: the last piece is a line only if it is not empty.
abbrev pub lines_of : List Str → List Str
lines_of [] = []
lines_of ([] ∷ []) = []
lines_of ((c ∷ last) ∷ []) = (c ∷ last) ∷ []
lines_of (line ∷ next ∷ rest) = strip_return line ∷ lines_of (next ∷ rest)

-- `s.lines()`
unfoldable pub lines : Str → List Str
unfolding split
lines s = lines_of (split 10 s)
