-- ===== src/Source/Dotenv.antt =====
-- src/source/dotenv.rs. Positions in a text count code points, as the source's count bytes at
-- code point boundaries.
pub mod Value
pub mod Parse
pub mod Aligned
pub mod Generate
use gitveil.Base.{
  ℕ, zero, suc, Bool, true, false, not, ◌&&◌, ◌||◌, List, [], ◌∷◌, ◌++◌, ◌≡◌, ◌==◌, Option, none,
  some, if◌then◌else◌, Str, codes, within, is_lower, is_upper, is_ascii_alphanumeric, all, is_empty,
  strip_prefix, starts_with, ends_with, split, split_once, trim, trim_start, trim_end, replace_char,
  take, drop, find?, contains_key, insert, IndexMap, Outcome, ok, err, ◌>>=◌, ◌>>◌, fail_if, nat_eq,
  list_eq,
}
use gitveil.Config.{dotenv}
use gitveil.Source.NodePath.{root, child_key}
use gitveil.Source.Node.{
  Node, Fields, end, field, mapping, scalar, string, as_scalar, of_entries, Scalar,
}
use gitveil.Source.Layout.{
  LineEnding, lf, cr_lf, detect, apply, crlf_to_lf, QuoteStyle, unquoted, single, double, quote_eq,
  DotenvLayout, Layout,
}
use gitveil.Source.Document.{
  SourceDocument, SourceError, parse_error, generate_error, duplicate_key,
}

unfoldable pub valid_key : Str → Bool
unfolding all
valid_key [] = false
valid_key (c ∷ key) =
    ((c == 95) || is_upper c || is_lower c) && all (λ d. (d == 95) || is_ascii_alphanumeric d) key

-- The loop of `find_unescaped` from position `index` on.
unfoldable pub find_from : ℕ → Bool → ℕ → Str → Option ℕ
find_from index escaped quote [] = none
find_from index escaped quote (c ∷ s) =
    let rest = find_from (suc index) (if c == 92 then not escaped else false) quote s in
    if (c == quote) && not escaped then some index else rest

unfoldable pub find_unescaped : Str → ℕ → Option ℕ
unfolding find_from
find_unescaped value quote = find_from 0 false quote value

-- The character that an escape stands for.
abbrev pub unescape : ℕ → ℕ
unescape c = if c == b'n' then 10 else if c == b'r' then 13 else if c == b't' then 9 else c

unfoldable pub decode_double : Str → Outcome SourceError Str
decode_double [] = ok []
decode_double (c ∷ []) = if c == 92 then err (parse_error dotenv) else ok (c ∷ [])
decode_double (c ∷ e ∷ s) = elim (c == 92) [
  | true ↦ do decoded ← decode_double s; ok (unescape e ∷ decoded)
  | false ↦ do decoded ← decode_double (e ∷ s); ok (c ∷ decoded)
]

-- A value with its style, the number of lines it took beyond the first, and its comment.
pub record ParsedValue : Type 0 where
  pub value : Str
  pub quote : QuoteStyle
  pub consumed : ℕ
  pub inline_comment : Option Str

-- The end of `parse_quoted`, where the closing quote stands at `stop`.
unfoldable pub close_quote : Str → ℕ → ℕ → QuoteStyle → Outcome SourceError ParsedValue
unfolding take drop trim starts_with decode_double
close_quote joined stop consumed style = do
  let suffix = trim (drop (suc stop) joined)
  fail_if (not (is_empty suffix) && not (starts_with (35 ∷ []) suffix)) (parse_error dotenv)
  value ← if style == double then decode_double (take stop joined) else ok (take stop joined)
  ok (record {
    value = value;
    quote = style;
    consumed = consumed;
    inline_comment = if is_empty suffix then none else some suffix;
  })

-- The loop of `parse_quoted`: line by line until the quote closes.
unfoldable pub parse_quoted : Str → ℕ → List Str → ℕ → QuoteStyle → Outcome SourceError ParsedValue
unfolding find_unescaped close_quote
parse_quoted joined consumed [] quote style = elim (find_unescaped joined quote) [
  | some stop ↦ close_quote joined stop consumed style
  | none ↦ err (parse_error dotenv)
]
parse_quoted joined consumed (next ∷ remaining) quote style = elim (find_unescaped joined quote) [
  | some stop ↦ close_quote joined stop consumed style
  | none ↦ parse_quoted (joined ++ 10 ∷ next) (suc consumed) remaining quote style
]

-- `raw.find(" #")` as the two parts of `raw` at the match.
unfoldable pub find_comment : Str → Option (Str × Str)
unfolding starts_with
find_comment [] = none
find_comment (c ∷ s) =
    let rest = find_comment s in
    if starts_with (codes " #") (c ∷ s)
    then some ([], c ∷ s)
    else (elim rest [ none ↦ none | some (before, found) ↦ some (c ∷ before, found) ])

unfoldable pub parse_unquoted : Str → ParsedValue
unfolding find_comment trim_start trim_end
parse_unquoted raw = elim (find_comment raw) [
  | none ↦ record { value = trim_end raw; quote = unquoted; consumed = 0; inline_comment = none }
  | some (before, found) ↦ record {
    value = trim_end before;
    quote = unquoted;
    consumed = 0;
    inline_comment = some (trim_start found);
  }
]

unfoldable pub parse_trimmed : Str → List Str → Outcome SourceError ParsedValue
unfolding parse_quoted parse_unquoted
parse_trimmed [] remaining = ok (parse_unquoted [])
parse_trimmed (c ∷ raw) remaining =
    if c == 39
    then parse_quoted raw 0 remaining 39 single
    else if c == 34
    then parse_quoted raw 0 remaining 34 double
    else ok (parse_unquoted (c ∷ raw))

unfoldable pub parse_value : Str → List Str → Outcome SourceError ParsedValue
unfolding trim_start parse_trimmed
parse_value raw remaining = parse_trimmed (trim_start raw) remaining

-- The test on what a candidate parses to.
abbrev pub same_value : Str → QuoteStyle → Outcome SourceError ParsedValue → Bool
same_value value style (err e) = false
same_value value style (ok parsed) =
    parsed.value == value
    && parsed.quote == style
    && parsed.consumed == 0
    && (elim parsed.inline_comment [ none ↦ true | some c ↦ false ])

unfoldable pub renders_back : Str → Str → QuoteStyle → Bool
unfolding parse_value
renders_back candidate value style = same_value value style (parse_value candidate [])

-- The chain of replacements of a double-quoted value.
unfoldable pub escape_double : Str → Str
unfolding replace_char
escape_double value = replace_char 9 (codes "\\t") (
    replace_char 10 (codes "\\n") (
      replace_char 13 (codes "\\r")
        (replace_char 34 (codes "\\\"") (replace_char 92 (codes "\\\\") value))))

abbrev pub candidate_of : Str → QuoteStyle → Option Str
candidate_of value unquoted = if is_empty value then none else some value
candidate_of value single = some (39 ∷ value ++ 39 ∷ [])
candidate_of value double = none

unfoldable pub render_value : Str → QuoteStyle → Str
unfolding renders_back escape_double
render_value value preferred =
    let fallback = 34 ∷ escape_double value ++ 34 ∷ [] in
    elim (candidate_of value preferred) [
      | none ↦ fallback
      | some candidate ↦ if renders_back candidate value preferred then candidate else fallback
    ]
