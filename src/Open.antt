-- ===== src/Open.antt =====
-- src/open/plan.rs: the key-wise merge of the decrypted remote document into the local plaintext.
-- The generator stands for `SourceDocument::generate`.
pub mod Units
pub mod Plan
pub mod Entries
pub mod Keeping
pub mod Roots
pub mod Command
pub mod Written
use gitveil.Base.{
  ℕ, suc, Bool, true, false, List, [], ◌∷◌, ◌++◌, ◌==◌, Option, none, some, if◌then◌else◌, Str, map,
  contains, IndexMap, keys, insert, get_index_of, shift_insert, nat_eq, list_eq, option_eq, Outcome,
  ok, err,
}
use gitveil.Source.Node.{Node, mapping, entries, of_entries}
use gitveil.Source.Layout.{DotenvLayout, Layout, layout_eq}
use gitveil.Source.Layout.Dotenv.{find_entry}
use gitveil.Source.Document.{SourceDocument, semantic_eq}
use gitveil.Resolve.{Generator}
use gitveil.Baseline.{Digests, UnitView, view_eq, root_unit, unit_view, residual_layout}
use gitveil.Baseline.Record.{BaselineRecord, unit_matches, residual_layout_matches}

pub data OpenConflict : Type 0 where
  key_conflict deleted_remotely deleted_locally : Str → OpenConflict
  layout_conflict structural : OpenConflict

pub record OpenPlan : Type 0 where
  pub document : Option SourceDocument
  pub conflicts : List OpenConflict

pub data Side : Type 0 where
  local_side remote_side : Side

pub data Arbitration : Type 0 where
  take_remote keep_local conflict : Arbitration

-- Both matches of the units that the record does not settle: which of the sides has the unit.
abbrev pub by_presence : Option UnitView → Option UnitView → Arbitration
by_presence none (some r) = take_remote
by_presence (some l) none = keep_local
by_presence _ _ = conflict

-- The arms on what the record says of the local and of the remote unit.
abbrev pub by_matches : Option UnitView → Option UnitView → Option Bool → Option Bool → Arbitration
by_matches l r none none = by_presence l r
by_matches l r (some true) remote_matches = take_remote
by_matches l r local_matches (some true) = keep_local
by_matches l r _ _ = conflict

unfoldable pub arbitrate :
    Digests → Option BaselineRecord → Str → Option UnitView → Option UnitView → Arbitration
unfolding unit_matches
arbitrate crates none key l r = by_presence l r
arbitrate crates (some baseline) key l r =
    by_matches l r (unit_matches crates baseline key l) (unit_matches crates baseline key r)

abbrev pub Merged : Type 0
Merged = IndexMap Str (Node × Side)

-- The merged keys and the conflicts so far.
pub record Progress : Type 0 where
  pub merged : Merged
  pub conflicts : List OpenConflict

abbrev pub push_conflict : OpenConflict → Progress → Progress
push_conflict c progress = record progress { conflicts = progress.conflicts ++ c ∷ [] }

abbrev pub put : Str → Node → Side → Progress → Progress
put key node side progress = record progress { merged = insert key (node, side) progress.merged }

-- The arms of the arbitration of a key that both sides have, and of one that the remote lacks.
abbrev pub settle_both : Str → UnitView → UnitView → Arbitration → Progress → Progress
settle_both key l r take_remote progress = put key r.node remote_side progress
settle_both key l r keep_local progress = put key l.node local_side progress
settle_both key l r conflict progress =
    put key l.node local_side (push_conflict (key_conflict key) progress)

abbrev pub settle_local : Str → UnitView → Arbitration → Progress → Progress
settle_local key l take_remote progress = progress
settle_local key l keep_local progress = put key l.node local_side progress
settle_local key l conflict progress =
    put key l.node local_side (push_conflict (deleted_remotely key) progress)

-- The body of the loop over the local keys.
unfoldable pub local_step :
    Digests → Option BaselineRecord → Str → Option UnitView → Option UnitView → Progress → Progress
unfolding arbitrate insert
local_step crates baseline key (some l) (some r) progress =
    if l == r
    then put key l.node local_side progress
    else settle_both key l r (arbitrate crates baseline key (some l) (some r)) progress
local_step crates baseline key (some l) none progress =
    settle_local key l (arbitrate crates baseline key (some l) none) progress
local_step crates baseline key none r progress = progress

unfoldable pub local_loop :
    Digests
    → Option BaselineRecord
    → SourceDocument
    → SourceDocument
    → List Str
    → Progress
    → Progress
unfolding local_step unit_view
local_loop crates baseline local remote [] progress = progress
local_loop crates baseline local remote (key ∷ names) progress =
    local_loop crates baseline local remote names
      (local_step crates baseline key (unit_view local key) (unit_view remote key) progress)

-- The place of the first of the keys that is merged.
unfoldable pub find_anchor : List Str → Merged → Option ℕ
unfolding get_index_of
find_anchor [] merged = none
find_anchor (candidate ∷ earlier) merged = elim (get_index_of candidate merged) [
  | none ↦ find_anchor earlier merged
  | some i ↦ some i
]

abbrev pub put_after : Option ℕ → Str → Node × Side → Merged → Merged
put_after none key value merged = insert key value merged
put_after (some anchor) key value merged = shift_insert (suc anchor) key value merged

-- The arms of the arbitration of a key that the local side lacks; `earlier` holds the remote keys
-- before it, the nearest first.
abbrev pub settle_remote : List Str → Str → UnitView → Arbitration → Progress → Progress
settle_remote earlier key r take_remote progress = record progress {
  merged =
      put_after (find_anchor earlier progress.merged) key (r.node, remote_side) progress.merged;
}
settle_remote earlier key r keep_local progress = progress
settle_remote earlier key r conflict progress = push_conflict (deleted_locally key) progress

-- The body of the loop over the remote keys, for a key that the local side lacks.
unfoldable pub remote_step :
    Digests → Option BaselineRecord → List Str → Str → Option UnitView → Progress → Progress
unfolding arbitrate insert shift_insert find_anchor
remote_step crates baseline earlier key none progress = progress
remote_step crates baseline earlier key (some r) progress =
    settle_remote earlier key r (arbitrate crates baseline key none (some r)) progress

unfoldable pub remote_loop :
    Digests
    → Option BaselineRecord
    → List Str
    → SourceDocument
    → List Str
    → List Str
    → Progress
    → Progress
unfolding remote_step unit_view contains
remote_loop crates baseline local_keys remote earlier [] progress = progress
remote_loop crates baseline local_keys remote earlier (key ∷ names) progress =
    remote_loop crates baseline local_keys remote (key ∷ earlier) names (
      if contains local_keys key
      then progress
      else remote_step crates baseline earlier key (unit_view remote key) progress)

-- `mapping_keys`, and no keys for other roots
unfoldable pub mapping_keys : SourceDocument → List Str
unfolding keys entries
mapping_keys document = elim document.root [ mapping fs ↦ keys (entries fs) | _ ↦ [] ]

abbrev pub start : Progress
start = record { merged = []; conflicts = [] }

-- The two loops of `merge_documents`.
unfoldable pub merge_units :
    Digests → SourceDocument → SourceDocument → Option BaselineRecord → Progress
unfolding local_loop remote_loop mapping_keys
merge_units crates local remote baseline =
    remote_loop crates baseline (mapping_keys local) remote [] (mapping_keys remote)
      (local_loop crates baseline local remote (mapping_keys local) start)
