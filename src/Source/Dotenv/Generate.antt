-- ===== src/Source/Dotenv/Generate.antt =====
-- src/source/dotenv.rs: `generate`, up to the encoding of the text as UTF-8.
use gitveil.Base.{
  List, [], ◌∷◌, ◌++◌, ◌==◌, if◌then◌else◌, Option, none, some, Str, codes, find?, Outcome, ok, err,
  ◌>>=◌, nat_eq, list_eq,
}
use gitveil.Config.{dotenv}
use gitveil.Source.Node.{Fields, end, field, mapping, Scalar, string, as_scalar}
use gitveil.Source.Layout.{double, apply, DotenvLayout}
use gitveil.Source.Document.{SourceDocument, SourceError, generate_error}
use gitveil.Source.Dotenv.{render_value}

-- Each line with its newline.
unfoldable pub write_lines : List Str → Str
write_lines [] = []
write_lines (line ∷ rest) = line ++ 10 ∷ write_lines rest

abbrev pub string_of : Option Scalar → Outcome SourceError Str
string_of (some (string value)) = ok value
string_of _ = err (generate_error dotenv)

-- One assignment, in the style of its layout.
unfoldable pub write_entry : Option DotenvLayout → Str → Str → Str
unfolding write_lines render_value
write_entry none key value = key ++ 61 ∷ render_value value double ++ 10 ∷ []
write_entry (some style) key value =
    write_lines style.leading
    ++ (if style.exported then codes "export " else [])
    ++ key
    ++ 61 ∷ render_value value style.quote
    ++ (elim style.inline_comment [ none ↦ [] | some comment ↦ 32 ∷ comment ])
    ++ 10 ∷ []

-- The loop over the values.
unfoldable pub write_fields : List DotenvLayout → Fields → Outcome SourceError Str
unfolding as_scalar find? write_entry
write_fields layouts end = ok []
write_fields layouts (field key node rest) = do
  value ← string_of (as_scalar node)
  after ← write_fields layouts rest
  ok (write_entry (find? (λ (e : DotenvLayout). e.key == key) layouts) key value ++ after)

-- `output.pop()`
unfoldable pub pop : Str → Str
pop [] = []
pop (c ∷ []) = []
pop (c ∷ d ∷ s) = c ∷ pop (d ∷ s)

unfoldable pub generate : SourceDocument → Outcome SourceError Str
unfolding write_fields write_lines pop apply
generate document = elim document.root [
  | mapping values ↦ do
    written ← write_fields document.layout.dotenv values
    let output = written ++ write_lines document.layout.preamble_comments
    ok (
        apply document.layout.line_ending
          (if document.layout.trailing_newline then output else pop output))
  | _ ↦ err (generate_error dotenv)
]
