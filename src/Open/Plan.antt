-- ===== src/Open/Plan.antt =====
-- src/open/plan.rs: the layout of the merge, and the plan.
use gitveil.Base.{
  Bool, true, false, List, [], ◌∷◌, ◌++◌, ◌==◌, Option, none, some, if◌then◌else◌, Str, is_ok,
  nat_eq, list_eq, option_eq,
}
use gitveil.Source.Node.{Node, mapping, of_entries}
use gitveil.Source.Layout.{DotenvLayout, Layout, layout_eq}
use gitveil.Source.Layout.Dotenv.{find_entry}
use gitveil.Source.Document.{SourceDocument, semantic_eq}
use gitveil.Resolve.{Generator}
use gitveil.Baseline.{Digests, view_eq, root_unit, unit_view, residual_layout}
use gitveil.Baseline.Record.{BaselineRecord, residual_layout_matches}
use gitveil.Open.{
  OpenConflict, key_conflict, layout_conflict, structural, OpenPlan, Side, local_side, remote_side,
  Arbitration, take_remote, keep_local, conflict, arbitrate, Merged, merge_units,
}

-- The document of the first choice and that of the second.
abbrev pub primary : Side → SourceDocument → SourceDocument → SourceDocument
primary local_side local remote = local
primary remote_side local remote = remote

abbrev pub secondary : Side → SourceDocument → SourceDocument → SourceDocument
secondary side local remote = primary side remote local

abbrev pub or_entry : Option DotenvLayout → Option DotenvLayout → Option DotenvLayout
or_entry none other = other
or_entry (some entry) other = some entry

abbrev pub push_entry : Option DotenvLayout → List DotenvLayout → List DotenvLayout
push_entry none rest = rest
push_entry (some entry) rest = entry ∷ rest

-- The loop over the merged keys.
unfoldable pub layout_entries : Merged → SourceDocument → SourceDocument → List DotenvLayout
unfolding find_entry
layout_entries [] local remote = []
layout_entries ((key, (node, side)) ∷ merged) local remote =
    push_entry
      (or_entry (find_entry key (primary side local remote).layout.dotenv)
        (find_entry key (secondary side local remote).layout.dotenv))
      (layout_entries merged local remote)

unfoldable pub assemble_layout : Merged → Layout → SourceDocument → SourceDocument → Layout
unfolding layout_entries
assemble_layout merged residual local remote = record residual {
  dotenv = layout_entries merged local remote;
}

-- The residual layout that wins, and whether its choice is a conflict.
unfoldable pub choose_residual_layout :
    Digests → SourceDocument → SourceDocument → Option BaselineRecord → Layout × Bool
unfolding residual_layout residual_layout_matches
choose_residual_layout crates local remote none = (residual_layout local, false)
choose_residual_layout crates local remote (some baseline) =
    if residual_layout local == residual_layout remote
    then (residual_layout local, false)
    else if residual_layout_matches crates baseline local
    then (residual_layout remote, false)
    else if residual_layout_matches crates baseline remote
    then (residual_layout local, false)
    else (residual_layout local, true)

-- A document and the conflicts of its merge.
abbrev pub Merge : Type 0
Merge = SourceDocument × List OpenConflict

-- The nodes of the merged keys.
unfoldable pub merged_nodes : Merged → List (Str × Node)
merged_nodes [] = []
merged_nodes ((key, (node, side)) ∷ merged) = (key, node) ∷ merged_nodes merged

unfoldable pub merge_documents :
    Digests → SourceDocument → SourceDocument → Option BaselineRecord → Merge
unfolding merge_units choose_residual_layout assemble_layout merged_nodes of_entries
merge_documents crates local remote baseline =
    let units = merge_units crates local remote baseline in
    let (residual, contested) = choose_residual_layout crates local remote baseline in
    (
      record {
        format = local.format;
        root = mapping (of_entries (merged_nodes units.merged));
        layout = assemble_layout units.merged residual local remote;
      },
      (if contested then units.conflicts ++ layout_conflict ∷ [] else units.conflicts),
    )

abbrev pub whole : SourceDocument → SourceDocument → Arbitration → Merge
whole local remote take_remote = (remote, [])
whole local remote keep_local = (local, [])
whole local remote conflict = (local, key_conflict root_unit ∷ [])

unfoldable pub merge_whole_document :
    Digests → SourceDocument → SourceDocument → Option BaselineRecord → Merge
unfolding unit_view arbitrate
merge_whole_document crates local remote baseline =
    if unit_view local root_unit == unit_view remote root_unit
    then (local, [])
    else whole local remote (
        arbitrate crates baseline root_unit (unit_view local root_unit)
          (unit_view remote root_unit))

abbrev pub is_mapping : Node → Bool
is_mapping (mapping fs) = true
is_mapping _ = false

unfoldable pub merge_sides :
    Digests → SourceDocument → SourceDocument → Option BaselineRecord → Merge
unfolding merge_documents merge_whole_document
merge_sides crates local remote baseline = elim (is_mapping local.root) [
  | true ↦ elim (is_mapping remote.root) [
    | true ↦ merge_documents crates local remote baseline
    | false ↦ merge_whole_document crates local remote baseline
  ]
  | false ↦ merge_whole_document crates local remote baseline
]

-- What the plan does with the merge.
unfoldable pub finish : Generator → SourceDocument → Merge → OpenPlan
unfolding semantic_eq
finish generate local (document, conflicts) =
    if semantic_eq document local
    then record { document = none; conflicts = conflicts }
    else if is_ok (generate document)
    then record { document = some document; conflicts = conflicts }
    else record { document = none; conflicts = conflicts ++ structural ∷ [] }

unfoldable pub plan_open :
    Digests → Generator → Option SourceDocument → SourceDocument → Option BaselineRecord → OpenPlan
unfolding merge_sides finish
plan_open crates generate none remote baseline = record { document = some remote; conflicts = [] }
plan_open crates generate (some local) remote baseline =
    finish generate local (merge_sides crates local remote baseline)
