-- ===== src/Semantic/Diff.antt =====
-- src/semantic/diff.rs: the changes between two trees. The list that the source pushes to is the
-- concatenation of what each part pushes.
pub mod Exact
use gitveil.Base.{
  Bool, true, false, not, ◌&&◌, ◌||◌, List, [], ◌∷◌, ◌++◌, ◌≡◌, ◌==◌, Option, none, some,
  if◌then◌else◌, filter, keys, get, contains_key, IndexMap, Str, nat_eq, list_eq,
}
use gitveil.Source.NodePath.{NodePath, root, child_key}
use gitveil.Source.Node.{
  Node, mapping, sequence, scalar, tagged, Fields, end, field, entries, node_beq,
}

pub data ChangeKind : Type 0 where
  added deleted modified order_changed : ChangeKind

pub record Change : Type 0 where
  pub path : NodePath
  pub kind : ChangeKind

abbrev pub change : NodePath → ChangeKind → List Change
change p k = record { path = p; kind = k } ∷ []

-- The keys of one mapping that the other has too, in order.
abbrev pub common : Fields → Fields → List Str
common l r = filter (λ k. contains_key k (entries r)) (keys (entries l))

unfoldable pub order_change : NodePath → Fields → Fields → List Change
unfolding entries
order_change path before after =
    if common before after == common after before then [] else change path order_changed

-- The loop over the entries of `after` that are not in `before`.
unfoldable pub added_fields : NodePath → Fields → IndexMap Str Node → List Change
unfolding entries
added_fields path before [] = []
added_fields path before ((k, v) ∷ rest) =
    let others = added_fields path before rest in
    if contains_key k (entries before) then others else change (child_key path k) added ++ others

-- The arms for a mapping before; `children` is the loop over its entries.
unfoldable pub diff_mapping : NodePath → Fields → Option Node → (Fields → List Change) → List Change
unfolding order_change added_fields node_beq
diff_mapping path before none children = change path deleted
diff_mapping path before (some (mapping after)) children =
    if node_beq (mapping before) (mapping after)
    then []
    else order_change path before after
      ++ (children after ++ added_fields path before (entries after))
diff_mapping path before (some after) children =
    if node_beq (mapping before) after then [] else change path modified

-- The arms for a tagged value before; `inner` compares the values under the tags.
unfoldable pub diff_tagged :
    NodePath → Str → Node → Option Node → (Node → List Change) → List Change
unfolding node_beq
diff_tagged path tag before none inner = change path deleted
diff_tagged path tag before (some (tagged tag' after)) inner =
    if node_beq (tagged tag before) (tagged tag' after)
    then []
    else if tag == tag'
    then inner after
    else change path modified
diff_tagged path tag before (some after) inner =
    if node_beq (tagged tag before) after then [] else change path modified

-- The arms for a scalar or a sequence before.
unfoldable pub diff_leaf : NodePath → Node → Option Node → List Change
unfolding node_beq
diff_leaf path before none = change path deleted
diff_leaf path before (some after) = if node_beq before after then [] else change path modified

unfoldable mutual
  unfolding diff_mapping diff_tagged diff_leaf entries

  -- `diff_at` with a node before
  pub diff_node : NodePath → Node → Option Node → List Change
  diff_node path (mapping before) after =
      diff_mapping path before after (λ fields. diff_fields path before fields)
  diff_node path (tagged tag before) after =
      diff_tagged path tag before after (λ node. diff_node path before (some node))
  diff_node path (sequence items) after = diff_leaf path (sequence items) after
  diff_node path (scalar value) after = diff_leaf path (scalar value) after

  -- The loop over the entries of `before`.
  pub diff_fields : NodePath → Fields → Fields → List Change
  diff_fields path end after = []
  diff_fields path (field k v before) after =
      diff_node (child_key path k) v (get k (entries after)) ++ diff_fields path before after

-- `diff_at`
unfoldable pub diff_at : NodePath → Option Node → Option Node → List Change
unfolding diff_node
diff_at path none none = []
diff_at path none (some after) = change path added
diff_at path (some before) after = diff_node path before after

-- `diff`
unfoldable pub diff : Node → Node → List Change
unfolding diff_at
diff before after = diff_at root (some before) (some after)
