-- ===== src/Tests/Documents.antt =====
-- Small dotenv documents.
use gitveil.Base.{
  true, false, [], ◌∷◌, ◌≡◌, ◌⊎◌, refl, none, some, Str, codes, ok, err, contains_key, insert,
  list_beq, option_eq,
}
use gitveil.Config.{dotenv}
use gitveil.Source.Node.{mapping, scalar, string, Fields, end, field, entries}
use gitveil.Source.Layout.{
  lf, unquoted, single, double, QuoteStyle, DotenvLayout, Layout, dotenv_eq,
}
use gitveil.Source.Layout.Dotenv.{merge_field, find_entry}
use gitveil.Source.Layout.Merge.{TextDiff, merge_three_way}
use gitveil.Source.Layout.Keys.{merge_three_way-keys}
use gitveil.Source.Document.{SourceDocument, parse_error}
use gitveil.Source.Dotenv.{parse_value, render_value}
use gitveil.Source.Dotenv.Value.{plain_value, parse_value-render_value}
use gitveil.Source.Dotenv.Parse.{parse}
use gitveil.Source.Dotenv.Generate.{generate}
use gitveil.Source.Dotenv.Aligned.{IsAligned, parse-IsAligned}
use gitveil.Resolve.{merged, plan_merge}
use gitveil.Resolve.Laws.{plan_merge_one_sided}

abbrev input : Str
input = codes "# head\nA=1\nexport B='x y' # note\n"

abbrev entry_a : DotenvLayout
entry_a = record {
  key = codes "A";
  exported = false;
  quote = unquoted;
  leading = codes "# head" ∷ [];
  inline_comment = none;
}

abbrev entry_b : DotenvLayout
entry_b = record {
  key = codes "B";
  exported = true;
  quote = single;
  leading = [];
  inline_comment = some (codes "# note");
}

abbrev values : Fields
values =
    field (codes "A") (scalar (string (codes "1")))
      (field (codes "B") (scalar (string (codes "x y"))) end)

abbrev document : SourceDocument
document = record {
  format = dotenv;
  root = mapping values;
  layout = record {
    line_ending = lf;
    trailing_newline = true;
    preamble_comments = [];
    dotenv = entry_a ∷ entry_b ∷ [];
    template = none;
  };
}

parse_runs : parse input ≡ ok document
unfolding parse contains_key insert list_beq
parse_runs = refl

generate_runs : generate document ≡ ok input
unfolding generate list_beq
generate_runs = refl

-- A document whose value has a newline and stays unquoted.
abbrev two_lines : SourceDocument
two_lines = record document {
  root = mapping (field (codes "A") (scalar (string (codes "a\nb"))) end);
  layout = record document.layout { dotenv = entry_a ∷ [] };
}

newline_written : generate two_lines ≡ ok (codes "# head\nA=a\nb\n")
unfolding generate list_beq
newline_written = refl

-- What was written for it is not read back.
newline_lost : parse (codes "# head\nA=a\nb\n") ≡ err (parse_error dotenv)
unfolding parse contains_key insert list_beq
newline_lost = refl

parse_value-render_value_example :
    (style : QuoteStyle) × ((style ≡ single) ⊎ (style ≡ double))
    × (parse_value (render_value (codes "it's") single) (codes "B=2" ∷ [])
        ≡ ok (plain_value (codes "it's") style))
parse_value-render_value_example = parse_value-render_value (codes "it's") single (codes "B=2" ∷ [])

parse-IsAligned_example :
    (fields : Fields) × (mapping values ≡ mapping fields)
    × IsAligned (entries fields) (entry_a ∷ entry_b ∷ [])
parse-IsAligned_example = parse-IsAligned input document parse_runs

-- One side drops `B`, the other drops the comment of `A`.
abbrev differ : TextDiff
differ = record { ops = λ old new. [] }

abbrev bare_a : DotenvLayout
bare_a = record entry_a { leading = [] }

abbrev base_layout : Layout
base_layout = document.layout

abbrev ours_layout : Layout
ours_layout = record base_layout { dotenv = entry_a ∷ [] }

abbrev theirs_layout : Layout
theirs_layout = record base_layout { dotenv = bare_a ∷ entry_b ∷ [] }

abbrev merged_layout : Layout
merged_layout = record base_layout { dotenv = bare_a ∷ [] }

merge_layouts_runs :
    merge_three_way differ base_layout ours_layout theirs_layout ≡ some merged_layout
unfolding merge_three_way list_beq
merge_layouts_runs = refl

merge_three_way-keys_example :
    merge_field
      (find_entry (codes "A") base_layout.dotenv)
      (find_entry (codes "A") ours_layout.dotenv)
      (find_entry (codes "A") theirs_layout.dotenv)
    ≡ some (find_entry (codes "A") merged_layout.dotenv)
merge_three_way-keys_example =
    merge_three_way-keys differ base_layout ours_layout theirs_layout merged_layout (codes "A")
      merge_layouts_runs

abbrev other : SourceDocument
other = record document { layout = merged_layout }

plan_merge_one_sided_example :
    (plan_merge differ generate document document other 7 ≡ ok (merged other))
    × (plan_merge differ generate document other document 7 ≡ ok (merged other))
    × (plan_merge differ generate document other other 7 ≡ ok (merged other))
plan_merge_one_sided_example = plan_merge_one_sided differ generate document other 7 refl
