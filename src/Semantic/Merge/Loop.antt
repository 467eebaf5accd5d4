-- ===== src/Semantic/Merge/Loop.antt =====
-- The loop over the keys of a merge.
use gitveil.Base.{
  Bool, true, List, [], ◌∷◌, ◌++◌, ◌≡◌, refl, ◌==◌, arith, Option, none, some, if◌then◌else◌,
  eq_iff, Bool-cases, inl, inr, contains, get, get-insert, IndexMap, Str, nat_eq, list_eq,
  option_eq,
}
use gitveil.Source.NodePath.{NodePath, child_key}
use gitveil.Source.Node.{Node, Fields, entries}
use gitveil.Source.Node.Equality.{node_eq}
use gitveil.Semantic.Merge.{Merged, ChildMerge, child_of, keep, merge_keys}

-- The value of a child, or what stood there before.
abbrev pub or_before : Option Node → Option Node → Option Node
or_before none before = before
or_before (some v) before = some v

left_nil : (xs ys : List NodePath) → xs ++ ys ≡ [] → xs ≡ []
left_nil [] ys h = refl
left_nil (x ∷ xs) ys h = cc

right_nil : (xs ys : List NodePath) → xs ++ ys ≡ [] → ys ≡ []
right_nil [] ys h = h
right_nil (x ∷ xs) ys h = cc

settle_twice :
    (again : Bool) (o before : Option Node)
    → (if again then or_before o (or_before o before) else or_before o before) ≡ or_before o before
settle_twice again o before = ground arith

module _ (path : NodePath) (children : IndexMap Str ChildMerge) (ours theirs : Fields) where
  abbrev pub child : Str → Merged
  child k =
      child_of (get k children) (child_key path k) (get k (entries ours)) (get k (entries theirs))

  get-keep :
      (k j : Str) (o : Option Node) (m : IndexMap Str Node)
      → get j (keep k o m) ≡ (if k == j then or_before o (get j m) else get j m)
  get-keep k j none m = ground arith
  get-keep k j (some v) m = get-insert k j v m

  pub get-merge_keys :
      (j : Str) (order : List Str) (m : IndexMap Str Node) (cs : List NodePath)
      → get j (merge_keys path children ours theirs m cs order).0
        ≡ (if contains order j then or_before (child j).0 (get j m) else get j m)
  unfolding merge_keys contains
  get-merge_keys j [] m cs = refl
  get-merge_keys j (k ∷ order) m cs =
      let ih = get-merge_keys j order (keep k (child k).0 m) (cs ++ (child k).1) in
      elim (Bool-cases (k == j)) [
        | inl same ↦
            let e = (eq_iff k j).0 same in
            rw (ih, get-keep k j (child k).0 m, same)
              (rw e (settle_twice (contains order j) (child j).0 (get j m)))
        | inr other ↦ rw (ih, get-keep k j (child k).0 m, other) refl
      ]

  -- A key whose merge met a conflict has its conflicts in the result.
  pub conflict_kept :
      (j : Str) (order : List Str) (m : IndexMap Str Node) (cs : List NodePath)
      → (merge_keys path children ours theirs m cs order).1 ≡ []
      → (cs ≡ []) × (contains order j ≡ true → (child j).1 ≡ [])
  unfolding merge_keys contains
  conflict_kept j [] m cs h = (h, λ found. cc)
  conflict_kept j (k ∷ order) m cs h =
      let (none_yet, later) = conflict_kept j order (keep k (child k).0 m) (cs ++ (child k).1) h in
      (
        left_nil cs (child k).1 none_yet,
        λ found. elim (Bool-cases (k == j)) [
          | inl same ↦ rw (← (eq_iff k j).0 same) (right_nil cs (child k).1 none_yet)
          | inr other ↦ later (ground arith)
        ],
      )
