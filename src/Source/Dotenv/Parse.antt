-- ===== src/Source/Dotenv/Parse.antt =====
-- src/source/dotenv.rs: `parse`. The loop over the lines is a recursion on them; the lines that a
-- quoted value took are skipped.
use gitveil.Base.{
  ℕ, zero, suc, Bool, true, false, not, ◌&&◌, ◌||◌, List, [], ◌∷◌, ◌++◌, none, some, Str, codes,
  is_empty, strip_prefix, starts_with, ends_with, split, split_once, trim, trim_start, IndexMap,
  contains_key, insert, Outcome, ok, ◌>>=◌, ◌>>◌, fail_if, ok_or, nat_eq, list_eq,
}
use gitveil.Config.{dotenv}
use gitveil.Source.NodePath.{root, child_key}
use gitveil.Source.Node.{Node, mapping, scalar, string, of_entries}
use gitveil.Source.Layout.{detect, crlf_to_lf, DotenvLayout}
use gitveil.Source.Document.{SourceDocument, SourceError, parse_error, duplicate_key}
use gitveil.Source.Dotenv.{ParsedValue, valid_key, parse_value}

-- The variables of the loop.
pub record ParseState : Type 0 where
  pub values : IndexMap Str Node
  pub layouts : List DotenvLayout
  pub pending : List Str

abbrev pub start : ParseState
start = record { values = []; layouts = []; pending = [] }

-- The marker `export ` and what follows it.
abbrev pub split_export : Str → Bool × Str
split_export trimmed = elim (strip_prefix (codes "export ") trimmed) [
  | some rest ↦ (true, trim_start rest)
  | none ↦ (false, trimmed)
]

-- The layout of an assignment.
abbrev pub layout_of : Bool → Str → ParsedValue → List Str → DotenvLayout
layout_of exported key parsed pending = record {
  key = key;
  exported = exported;
  quote = parsed.quote;
  leading = pending;
  inline_comment = parsed.inline_comment;
}

-- The state after an assignment.
abbrev pub assign : Bool → Str → ParsedValue → ParseState → ParseState
assign exported key parsed state = record {
  values = insert key (scalar (string parsed.value)) state.values;
  layouts = state.layouts ++ layout_of exported key parsed state.pending ∷ [];
  pending = [];
}

-- An assignment: the new state and the number of lines to skip.
unfoldable pub parse_assignment : Str → List Str → ParseState → Outcome SourceError (ParseState × ℕ)
unfolding strip_prefix trim_start split_once valid_key parse_value
parse_assignment trimmed remaining state = do
  let (exported, assignment) = split_export trimmed
  (key, raw_value) ← ok_or (split_once 61 assignment) (parse_error dotenv)
  fail_if (not (valid_key key)) (parse_error dotenv)
  fail_if (contains_key key state.values) (duplicate_key dotenv (child_key root key))
  parsed ← parse_value raw_value remaining
  ok (assign exported key parsed state, parsed.consumed)

-- The loop: `skip` lines belong to the value before.
unfoldable pub parse_lines : Bool → ℕ → List Str → ParseState → Outcome SourceError ParseState
unfolding trim starts_with parse_assignment
parse_lines trailing skip [] state = ok state
parse_lines trailing (suc skip) (line ∷ rest) state = parse_lines trailing skip rest state
parse_lines trailing zero (line ∷ rest) state = elim (is_empty rest && is_empty line && trailing) [
  | true ↦ ok state
  | false ↦
      let trimmed = trim line in
      elim (is_empty trimmed || starts_with (35 ∷ []) trimmed) [
        | true ↦
            parse_lines trailing zero rest (record state { pending = state.pending ++ line ∷ [] })
        | false ↦ do
          (next, skip) ← parse_assignment trimmed rest state
          parse_lines trailing skip rest next
      ]
]

abbrev pub has_trailing_newline : Str → Bool
has_trailing_newline input = ends_with (10 ∷ []) (crlf_to_lf input)

-- The document of the final state.
unfoldable pub document_of : Str → ParseState → SourceDocument
unfolding detect crlf_to_lf ends_with of_entries
document_of input state = record {
  format = dotenv;
  root = mapping (of_entries state.values);
  layout = record {
    line_ending = detect input;
    trailing_newline = has_trailing_newline input;
    preamble_comments = state.pending;
    dotenv = state.layouts;
    template = none;
  };
}

unfoldable pub parse : Str → Outcome SourceError SourceDocument
unfolding crlf_to_lf ends_with split parse_lines document_of
parse input = do
  state ← parse_lines (has_trailing_newline input) zero (split 10 (crlf_to_lf input)) start
  ok (document_of input state)
