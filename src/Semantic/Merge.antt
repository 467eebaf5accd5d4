-- ===== src/Semantic/Merge.antt =====
-- src/semantic/merge.rs: the three-way merge of trees. The conflicts that the source pushes are
-- returned beside the node. The recursion is on the base: a merge goes into children only where
-- the base is a mapping or a tagged value, so `merge_fields` prepares the merge of each child of
-- the base, and the loop over the keys calls the one at its key.
pub mod Laws
pub mod Order
pub mod Loop
pub mod Keys
use gitveil.Base.{
  Bool, true, false, not, ◌&&◌, ◌||◌, List, [], ◌∷◌, ◌++◌, ◌≡◌, ◌==◌, Option, none, some,
  if◌then◌else◌, filter, contains, is_empty, keys, get, contains_key, insert, IndexMap, Str, nat_eq,
  list_eq, option_eq, Outcome, ok, err,
}
use gitveil.Source.NodePath.{NodePath, root, child_key}
use gitveil.Source.Node.{
  Node, mapping, sequence, scalar, tagged, Fields, end, field, entries, of_entries,
}
use gitveil.Source.Node.Equality.{node_eq}

-- A node and the paths of the conflicts met, in order.
abbrev pub Merged : Type 0
Merged = Option Node × List NodePath

-- How to merge one child of the base with the two sides.
abbrev pub ChildMerge : Type 0
ChildMerge = NodePath → Option Node → Option Node → Merged

-- The three early returns of `merge_at`.
unfoldable pub settle : Option Node → Option Node → Option Node → Merged → Merged
settle base ours theirs contested =
    if ours == theirs
    then (ours, [])
    else if ours == base
    then (theirs, [])
    else if theirs == base
    then (ours, [])
    else contested

-- The last arm: a conflict that keeps our side.
abbrev pub conflict : NodePath → Option Node → Merged
conflict path ours = (ours, path ∷ [])

-- `merge_at` with no base
unfoldable pub merge_new : ChildMerge
unfolding settle
merge_new path ours theirs = settle none ours theirs (conflict path ours)

-- The keys that all three mappings have, in the order of the base.
unfoldable pub shared_keys : Fields → Fields → Fields → List Str
unfolding entries
shared_keys base ours theirs =
    filter (λ k. contains_key k (entries ours) && contains_key k (entries theirs))
      (keys (entries base))

abbrev pub shared_order : List Str → Fields → List Str
shared_order shared fs = filter (λ k. contains shared k) (keys (entries fs))

-- The loop that adds the keys that are not there yet.
unfoldable pub push_new : List Str → List Str → List Str
push_new known [] = known
push_new known (k ∷ rest) = push_new (if contains known k then known else known ++ k ∷ []) rest

abbrev pub key_union : Fields → Fields → Fields → List Str
key_union primary secondary base =
    push_new (push_new (push_new [] (keys (entries primary))) (keys (entries secondary)))
      (keys (entries base))

-- `merged_order`
unfoldable pub merged_order : Fields → Fields → Fields → List Str × Bool
unfolding shared_keys push_new
merged_order base ours theirs =
    let shared = shared_keys base ours theirs in
    let base_shared = shared_order shared base in
    let ours_shared = shared_order shared ours in
    let theirs_shared = shared_order shared theirs in
    if ours_shared == theirs_shared
    then (key_union ours theirs base, false)
    else if ours_shared == base_shared
    then (key_union theirs ours base, false)
    else if theirs_shared == base_shared
    then (key_union ours theirs base, false)
    else (key_union ours theirs base, true)

-- The merge of the child at a key.
abbrev pub child_of : Option ChildMerge → ChildMerge
child_of none = merge_new
child_of (some prepared) = prepared

-- `if let Some(value) = .. { merged.insert(key, value) }`
abbrev pub keep : Str → Option Node → IndexMap Str Node → IndexMap Str Node
keep key none merged = merged
keep key (some value) merged = insert key value merged

-- The loop over the keys, from the entries and the conflicts so far.
unfoldable pub merge_keys :
    NodePath
    → IndexMap Str ChildMerge
    → Fields
    → Fields
    → IndexMap Str Node
    → List NodePath
    → List Str
    → IndexMap Str Node × List NodePath
unfolding merge_new entries
merge_keys path children ours theirs merged conflicts [] = (merged, conflicts)
merge_keys path children ours theirs merged conflicts (k ∷ rest) =
    let child =
      child_of (get k children) (child_key path k) (get k (entries ours))
        (get k (entries theirs)) in
    merge_keys path children ours theirs (keep k child.0 merged) (conflicts ++ child.1) rest

-- The arm for three mappings.
unfoldable pub merge_mappings :
    NodePath → Fields → IndexMap Str ChildMerge → Fields → Fields → Merged
unfolding merged_order merge_keys of_entries
merge_mappings path base children ours theirs =
    let order = merged_order base ours theirs in
    let result =
      merge_keys path children ours theirs [] (if order.1 then path ∷ [] else []) order.0 in
    (some (mapping (of_entries result.0)), result.1)

-- The match of `merge_at` where the base is a mapping.
unfoldable pub contest_mapping :
    NodePath → Fields → IndexMap Str ChildMerge → Option Node → Option Node → Merged
unfolding merge_mappings
contest_mapping path base children (some (mapping ours)) (some (mapping theirs)) =
    merge_mappings path base children ours theirs
contest_mapping path base children ours theirs = conflict path ours

-- `.map(|value| Node::Tagged { .. })`
abbrev pub retag : Str → Merged → Merged
retag tag (none, conflicts) = (none, conflicts)
retag tag (some value, conflicts) = (some (tagged tag value), conflicts)

-- The match of `merge_at` where the base is tagged.
unfoldable pub contest_tagged : NodePath → Str → ChildMerge → Option Node → Option Node → Merged
contest_tagged path tag inner (some (tagged ours_tag ours)) (some (tagged theirs_tag theirs)) =
    if tag == ours_tag && tag == theirs_tag
    then retag tag (inner path (some ours) (some theirs))
    else conflict path (some (tagged ours_tag ours))
contest_tagged path tag inner ours theirs = conflict path ours

unfoldable mutual
  unfolding settle contest_mapping contest_tagged

  -- `merge_at` with a base
  pub merge_node : Node → NodePath → Option Node → Option Node → Merged
  merge_node (mapping base) path ours theirs =
      settle (some (mapping base)) ours theirs
        (contest_mapping path base (merge_fields base) ours theirs)
  merge_node (tagged tag base) path ours theirs =
      settle (some (tagged tag base)) ours theirs
        (contest_tagged path tag (λ p o t. merge_node base p o t) ours theirs)
  merge_node (sequence base) path ours theirs =
      settle (some (sequence base)) ours theirs (conflict path ours)
  merge_node (scalar base) path ours theirs =
      settle (some (scalar base)) ours theirs (conflict path ours)

  -- The merge of each child of the base, by key.
  pub merge_fields : Fields → IndexMap Str ChildMerge
  merge_fields end = []
  merge_fields (field k v base) = (k, λ p o t. merge_node v p o t) ∷ merge_fields base

-- `merge_at`
unfoldable pub merge_at : NodePath → Option Node → Option Node → Option Node → Merged
unfolding merge_node merge_new
merge_at path none ours theirs = merge_new path ours theirs
merge_at path (some base) ours theirs = merge_node base path ours theirs

-- `MergeResult`: the merged tree, or the conflicts.
abbrev pub MergeResult : Type 0
MergeResult = Outcome (List NodePath) Node

-- `merge`
unfoldable pub merge : Node → Node → Node → MergeResult
unfolding merge_at
merge base ours theirs =
    let (merged, conflicts) = merge_at root (some base) (some ours) (some theirs) in
    if is_empty conflicts
    then ok (elim merged [ some node ↦ node | none ↦ mapping end ])
    else err conflicts
