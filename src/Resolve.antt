-- ===== src/Resolve.antt =====
-- src/resolve/plan.rs: what the merge driver writes. The generator stands for
-- `SourceDocument::generate`, which calls third-party code for all formats but dotenv; the texts
-- are lists of code points.
pub mod Laws
pub mod Command
pub mod Narrowed
use gitveil.Base.{
  ℕ, zero, suc, Bool, true, false, List, [], ◌∷◌, ◌++◌, if◌then◌else◌, Option, none, some, Str,
  codes, ends_with, Outcome, ok, err, ◌>>=◌,
}
use gitveil.Source.NodePath.{NodePath, root}
use gitveil.Source.Layout.{Layout}
use gitveil.Source.Layout.Merge.{TextDiff, merge_three_way}
use gitveil.Source.Document.{SourceDocument, SourceError}
use gitveil.Semantic.Merge.{MergeResult, merge}

abbrev pub Generator : Type 0
Generator = SourceDocument → Outcome SourceError Str

pub data MergePlan : Type 0 where
  merged : SourceDocument → MergePlan
  conflict : NodePath → Str → MergePlan

-- `text.repeat(n)` for one character
unfoldable pub repeat : ℕ → ℕ → Str
repeat c zero = []
repeat c (suc n) = c ∷ repeat c n

-- A side of the conflict, with a newline at its end.
abbrev pub with_newline : Str → Str
with_newline text = if ends_with (10 ∷ []) text then text else text ++ 10 ∷ []

-- The text with the markers.
unfoldable pub conflict_text : Str → Str → ℕ → Str
unfolding repeat ends_with
conflict_text ours theirs marker_size =
    repeat b'<' marker_size
    ++ codes " ours\n"
    ++ with_newline ours
    ++ repeat b'=' marker_size
    ++ 10 ∷ with_newline theirs
    ++ repeat b'>' marker_size
    ++ codes " theirs\n"

unfoldable pub build_conflict :
    Generator → SourceDocument → SourceDocument → ℕ → Outcome SourceError Str
unfolding conflict_text
build_conflict generate ours theirs marker_size = do
  our_text ← generate ours
  their_text ← generate theirs
  ok (conflict_text our_text their_text marker_size)

-- The path of the first conflict.
abbrev pub first_path : List NodePath → NodePath
first_path [] = root
first_path (path ∷ conflicts) = path

abbrev pub decide :
    Generator
    → SourceDocument
    → SourceDocument
    → ℕ
    → MergeResult
    → Option Layout
    → Outcome SourceError MergePlan
decide generate ours theirs size (ok node) (some layout) =
    ok (merged (record { format = ours.format; root = node; layout = layout }))
decide generate ours theirs size (err conflicts) layout = do
  text ← build_conflict generate ours theirs size
  ok (conflict (first_path conflicts) text)
decide generate ours theirs size (ok node) none = do
  text ← build_conflict generate ours theirs size
  ok (conflict root text)

unfoldable pub plan_merge :
    TextDiff
    → Generator
    → SourceDocument
    → SourceDocument
    → SourceDocument
    → ℕ
    → Outcome SourceError MergePlan
unfolding build_conflict merge merge_three_way
plan_merge differ generate base ours theirs marker_size =
    decide generate ours theirs marker_size (merge base.root ours.root theirs.root)
      (merge_three_way differ base.layout ours.layout theirs.layout)
