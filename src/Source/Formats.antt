-- ===== src/Source/Formats.antt =====
-- src/source/mod.rs: the formats behind one interface. JSON, YAML and TOML are read and written
-- by third-party crates, and so are parameters; texts are lists of code points.
use gitveil.Base.{
  ℕ, Bool, ◌||◌, List, [], ◌∷◌, ◌==◌, Option, if◌then◌else◌, Str, codes, any, contains, starts_with,
  lines, Outcome, ◌>>=◌, ◌>>◌, fail_if, ok_or, nat_eq, list_eq,
}
use gitveil.Config.{SourceFormat, dotenv, json, yaml, toml}
use gitveil.Source.Document.{SourceDocument, SourceError, non_utf8, conflict_markers}
use gitveil.Source.Dotenv.Parse.{parse as parse_dotenv}
use gitveil.Source.Dotenv.Generate.{generate as generate_dotenv}

-- A reader and a writer.
pub record Adapter : Type 0 where
  pub read : Str → Outcome SourceError SourceDocument
  pub write : SourceDocument → Outcome SourceError Str

-- The adapters, and the decoding of UTF-8.
pub record Adapters : Type 0 where
  pub from_utf8 : List ℕ → Option Str
  pub json_adapter : Adapter
  pub yaml_adapter : Adapter
  pub toml_adapter : Adapter

-- `line.trim_start_matches([' ', '\t', '#', '/', ';'])`
unfoldable pub trim_comment : Str → Str
unfolding contains
trim_comment [] = []
trim_comment (c ∷ line) = if contains (codes " \t#/;") c then trim_comment line else c ∷ line

abbrev pub is_marker_line : Str → Bool
is_marker_line line =
    starts_with (codes "<<<<<<< ") line
    || line == codes "======="
    || starts_with (codes ">>>>>>> ") line

unfoldable pub has_conflict_markers : Str → Bool
unfolding any trim_comment starts_with lines
has_conflict_markers input = any (λ line. is_marker_line (trim_comment line)) (lines input)

unfoldable pub parse_text : Adapters → SourceFormat → Str → Outcome SourceError SourceDocument
unfolding parse_dotenv
parse_text adapters dotenv text = parse_dotenv text
parse_text adapters json text = adapters.json_adapter.read text
parse_text adapters yaml text = adapters.yaml_adapter.read text
parse_text adapters toml text = adapters.toml_adapter.read text

unfoldable pub parse : Adapters → SourceFormat → List ℕ → Outcome SourceError SourceDocument
unfolding has_conflict_markers parse_text
parse adapters format input = do
  text ← ok_or (adapters.from_utf8 input) (non_utf8 format)
  fail_if (has_conflict_markers text) (conflict_markers format)
  parse_text adapters format text

unfoldable pub generate : Adapters → SourceDocument → Outcome SourceError Str
unfolding generate_dotenv
generate adapters document = elim document.format [
  | dotenv ↦ generate_dotenv document
  | json ↦ adapters.json_adapter.write document
  | yaml ↦ adapters.yaml_adapter.write document
  | toml ↦ adapters.toml_adapter.write document
]
