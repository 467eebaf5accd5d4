-- ===== src/Configure/Ignore.antt =====
-- src/configure/plan.rs: the managed block of `.gitignore`. A line is its content and its ending,
-- the slices of the source's line; the text before `start` and after `end` is that of the other
-- lines. Texts are lists of bytes, and a path becomes the bytes of its UTF-8.
pub mod Lines
pub mod Newlines
pub mod Rules
pub mod Keeping
use gitveil.Base.{
  ℕ, zero, suc, ◌-◌, Bool, true, false, not, ◌&&◌, ◌||◌, List, [], ◌∷◌, ◌++◌, ◌==◌, Option, none,
  some, if◌then◌else◌, Str, codes, utf8_bytes, any, is_empty, ends_with, contains_str, Outcome, ok,
  err, ◌>>=◌, ◌>>◌, fail_if, nat_eq, list_eq,
}
use gitveil.ManagedPath.{ManagedPath}
use gitveil.ManagedPath.Suffix.{suffix}

-- `BEGIN_MARKER`
abbrev pub begin_marker : Str
begin_marker = codes "# BEGIN gitveil managed files"

-- `END_MARKER`
abbrev pub end_marker : Str
end_marker = codes "# END gitveil managed files"

-- `MARKER_FRAGMENT`
abbrev pub marker_fragment : Str
marker_fragment = codes "gitveil managed files"

pub data ManagedIgnoreError : Type 0 where
  malformed_block : ManagedIgnoreError

pub record Line : Type 0 where
  pub content : Str
  pub ending : Str

-- A byte before the lines: a carriage return before a line feed belongs to the ending.
abbrev pub push_byte : ℕ → List Line → List Line
push_byte c [] = record { content = c ∷ []; ending = [] } ∷ []
push_byte c (line ∷ rest) =
    if c == 13 && is_empty line.content && line.ending == codes "\n"
    then record { content = []; ending = codes "\r\n" } ∷ rest
    else record line { content = c ∷ line.content } ∷ rest

unfoldable pub read_lines : Str → List Line
read_lines [] = []
read_lines (c ∷ input) =
    let rest = read_lines input in
    if c == 10 then record { content = []; ending = codes "\n" } ∷ rest else push_byte c rest

-- The text of lines.
unfoldable pub text_of : List Line → Str
text_of [] = []
text_of (line ∷ rest) = (line.content ++ line.ending) ++ text_of rest

abbrev pub is_begin : Line → Bool
is_begin line = line.content == begin_marker

abbrev pub is_end : Line → Bool
is_end line = line.content == end_marker

-- A line that is no marker but has the fragment.
unfoldable pub is_malformed : Line → Bool
unfolding contains_str
is_malformed line =
    not (is_begin line) && not (is_end line) && contains_str marker_fragment line.content

-- A line before those of a cut.
abbrev pub push_before : Line → Option (List Line × List Line) → Option (List Line × List Line)
push_before line none = none
push_before line (some (before, after)) = some (line ∷ before, after)

-- The lines before and after the first line with a property.
unfoldable pub split_at : (Line → Bool) → List Line → Option (List Line × List Line)
split_at p [] = none
split_at p (line ∷ rest) =
    let later = split_at p rest in if p line then some ([], rest) else push_before line later

-- The lines after the block, from those after its beginning.
abbrev pub after_block : Option (List Line × List Line) → Outcome ManagedIgnoreError (List Line)
after_block none = err malformed_block
after_block (some (inside, after)) = if any is_end after then err malformed_block else ok after

-- The text without its block: no markers, or one of each, the beginning first.
abbrev pub without_block :
    List Line → Option (List Line × List Line) → Outcome ManagedIgnoreError (List Line)
without_block lines none = if any is_end lines then err malformed_block else ok lines
without_block lines (some (before, rest)) =
    if any is_begin rest || any is_end before
    then err malformed_block
    else (do after ← after_block (split_at is_end rest); ok (before ++ after))

unfoldable pub preferred_newline : List Line → Str
preferred_newline [] = codes "\n"
preferred_newline (line ∷ rest) = if is_empty line.ending then codes "\n" else line.ending

-- The spaces at the end of a text, each with a backslash before it.
unfoldable pub escape_trailing_spaces : Str → Str
escape_trailing_spaces [] = []
escape_trailing_spaces (c ∷ s) =
    let rest = escape_trailing_spaces s in
    if not (c == 32)
    then c ∷ rest
    else if any (λ d. not (d == 32)) s
    then c ∷ rest
    else b'\\' ∷ c ∷ rest

-- The loop over the paths.
unfoldable pub rules : Str → List ManagedPath → Str
unfolding escape_trailing_spaces utf8_bytes
rules newline [] = []
rules newline (path ∷ paths) =
    (b'/' ∷ utf8_bytes (escape_trailing_spaces path))
    ++ (newline
        ++ (codes "!/"
            ++ (utf8_bytes (escape_trailing_spaces path)
                ++ (suffix ++ (newline ++ rules newline paths)))))

abbrev pub block : Str → List ManagedPath → Str
block newline paths = begin_marker ++ (newline ++ (rules newline paths ++ (end_marker ++ newline)))

-- The text with a newline at its end, if it is not empty.
abbrev pub terminated : Str → Str → Str
terminated newline [] = []
terminated newline (c ∷ base) =
    if ends_with (codes "\n") (c ∷ base) then c ∷ base else (c ∷ base) ++ newline

unfoldable pub render_managed_ignore : Str → List ManagedPath → Outcome ManagedIgnoreError Str
unfolding read_lines text_of is_malformed split_at preferred_newline rules ends_with
render_managed_ignore existing paths = do
  fail_if (any is_malformed (read_lines existing)) malformed_block
  base ← without_block (read_lines existing) (split_at is_begin (read_lines existing))
  let newline = preferred_newline (read_lines existing)
  ok (terminated newline (text_of base) ++ block newline paths)
