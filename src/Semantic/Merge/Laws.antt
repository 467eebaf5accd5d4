-- ===== src/Semantic/Merge/Laws.antt =====
-- The laws of a three-way merge that hold of every tree.
use gitveil.Base.{
  [], ◌≡◌, refl, arith, Option, none, some, eq_iff, eq_refl, nat_eq, list_eq, option_eq, ok,
}
use gitveil.Source.NodePath.{NodePath, root}
use gitveil.Source.Node.{Node, mapping, tagged}
use gitveil.Source.Node.Equality.{node_eq}
use gitveil.Semantic.Merge.{
  Merged, settle, conflict, contest_mapping, contest_tagged, merge_node, merge_fields, merge_at,
  merge,
}

-- Every merge begins with the three early returns.
pub settled_same : (b o : Option Node) (c : Merged) → settle b o o c ≡ (o, [])
unfolding settle
settled_same b o c = rw (eq_refl o)

pub settled_ours : (b t : Option Node) (c : Merged) → settle b b t c ≡ (t, [])
unfolding settle
settled_ours b t c = ground (arith, eq_refl b, eq_iff b t)

pub settled_theirs : (b o : Option Node) (c : Merged) → settle b o b c ≡ (o, [])
unfolding settle
settled_theirs b o c = ground (arith, eq_refl b, eq_iff o b)

-- `merge_at` as the early returns before the match.
pub contested : NodePath → Option Node → Option Node → Option Node → Merged
unfolding contest_mapping contest_tagged
contested path none ours theirs = conflict path ours
contested path (some (mapping base)) ours theirs =
    contest_mapping path base (merge_fields base) ours theirs
contested path (some (tagged tag base)) ours theirs =
    contest_tagged path tag (λ p o t. merge_node base p o t) ours theirs
contested path (some base) ours theirs = conflict path ours

pub merge_at-settle :
    (path : NodePath) (base ours theirs : Option Node)
    → merge_at path base ours theirs ≡ settle base ours theirs (contested path base ours theirs)
unfolding merge_at contested
merge_at-settle path none ours theirs = refl
merge_at-settle path (some (mapping b)) ours theirs = refl
merge_at-settle path (some (tagged t b)) ours theirs = refl
merge_at-settle path (some b) ours theirs = refl

pub merge_at-same :
    (path : NodePath) (base side : Option Node) → merge_at path base side side ≡ (side, [])
merge_at-same path base side = rw merge_at-settle (settled_same base side _)

pub merge_at-ours :
    (path : NodePath) (base theirs : Option Node) → merge_at path base base theirs ≡ (theirs, [])
merge_at-ours path base theirs = rw merge_at-settle (settled_ours base theirs _)

pub merge_at-theirs :
    (path : NodePath) (base ours : Option Node) → merge_at path base ours base ≡ (ours, [])
merge_at-theirs path base ours = rw merge_at-settle (settled_theirs base ours _)

-- Where only one side changed, the merge is that side, and where both made the same change it is
-- that change; there is no conflict.
pub merge_one_sided :
    (base side : Node)
    → (merge base base side ≡ ok side)
      × (merge base side base ≡ ok side)
      × (merge base side side ≡ ok side)
unfolding merge
merge_one_sided base side = (
  rw (merge_at-ours root (some base) (some side)),
  rw (merge_at-theirs root (some base) (some side)),
  rw (merge_at-same root (some base) (some side)),
)
