-- ===== src/Resolve/Laws.antt =====
-- The merge driver on changes of one side.
use gitveil.Base.{ℕ, ◌≡◌, refl, ok}
use gitveil.Source.Layout.Merge.{TextDiff}
use gitveil.Source.Layout.Keys.{merge_three_way_one_sided}
use gitveil.Source.Document.{SourceDocument}
use gitveil.Semantic.Merge.Laws.{merge_one_sided}
use gitveil.Resolve.{Generator, merged, plan_merge}

-- Where the base and the side that changed have one format, the plan takes a change of one side,
-- or the same change of both, whole: values and layout, with no conflict.
pub plan_merge_one_sided :
    (differ : TextDiff) (generate : Generator) (base side : SourceDocument) (marker_size : ℕ)
    → base.format ≡ side.format
    → (plan_merge differ generate base base side marker_size ≡ ok (merged side))
      × (plan_merge differ generate base side base marker_size ≡ ok (merged side))
      × (plan_merge differ generate base side side marker_size ≡ ok (merged side))
unfolding plan_merge
plan_merge_one_sided differ generate base side marker_size same =
    let (tree_theirs, tree_ours, tree_both) = merge_one_sided base.root side.root in
    let (theirs, ours, both) = merge_three_way_one_sided differ base.layout side.layout in
    (
      rw (plan_merge, tree_theirs, theirs, same) refl,
      rw (plan_merge, tree_ours, ours) refl,
      rw (plan_merge, tree_both, both) refl,
    )
