-- ===== src/Tests/Semantic.antt =====
-- Diff and merge at small trees.
use gitveil.Base.{
  [], ◌∷◌, ◌≡◌, refl, ◌↔◌, some, get, Str, codes, ok, list_beq, nat_eq, list_eq, keys, contains,
  filter, contains_key, insert,
}
use gitveil.Source.NodePath.{root, key, child_key}
use gitveil.Source.Node.{Node, mapping, scalar, string, Fields, end, field, entries, node_beq}
use gitveil.Semantic.Diff.{added, modified, diff}
use gitveil.Semantic.Diff.Exact.{IsKeyed, diff-nil_iff}
use gitveil.Semantic.Merge.{merge, merge_at}
use gitveil.Semantic.Merge.Laws.{merge_one_sided}
use gitveil.Semantic.Merge.Keys.{merge_at-keys}

abbrev text : Str → Node
text s = scalar (string s)

-- A=1 B=2
abbrev base : Fields
base = field (codes "A") (text (codes "1")) (field (codes "B") (text (codes "2")) end)

-- A=9 B=2 C=3
abbrev ours : Fields
ours =
    field (codes "A") (text (codes "9"))
      (field (codes "B") (text (codes "2")) (field (codes "C") (text (codes "3")) end))

-- A=1
abbrev theirs : Fields
theirs = field (codes "A") (text (codes "1")) end

diff_runs :
    diff (mapping base) (mapping ours)
    ≡ record { path = key (codes "A") ∷ []; kind = modified }
      ∷ record { path = key (codes "C") ∷ []; kind = added }
      ∷ []
unfolding diff entries get keys filter contains_key list_beq
diff_runs = refl

merge_runs :
    merge (mapping base) (mapping ours) (mapping theirs)
    ≡ ok (mapping (field (codes "A") (text (codes "9")) (field (codes "C") (text (codes "3")) end)))
unfolding merge entries get keys filter contains contains_key insert list_beq node_beq
merge_runs = refl

base-IsKeyed : IsKeyed (mapping base)
unfolding IsKeyed entries keys contains list_beq
base-IsKeyed = ((refl, (refl, tt)), (tt, (tt, tt)))

diff-nil_iff_example : (diff (mapping base) (mapping ours) ≡ []) ↔ (mapping base ≡ mapping ours)
diff-nil_iff_example = diff-nil_iff (mapping base) (mapping ours) base-IsKeyed

merge_one_sided_example :
    (merge (mapping base) (mapping base) (mapping ours) ≡ ok (mapping ours))
    × (merge (mapping base) (mapping ours) (mapping base) ≡ ok (mapping ours))
    × (merge (mapping base) (mapping ours) (mapping ours) ≡ ok (mapping ours))
merge_one_sided_example = merge_one_sided (mapping base) (mapping ours)

merge_at-keys_example :
    (fields : Fields) × ((merge_at root
        (some (mapping base))
        (some (mapping ours))
        (some (mapping theirs))).0
      ≡ some (mapping fields))
    × ((k : Str)
        → get k (entries fields)
          ≡ (merge_at
              (child_key root k)
              (get k (entries base))
              (get k (entries ours))
              (get k (entries theirs))).0)
    × ((merge_at root (some (mapping base)) (some (mapping ours)) (some (mapping theirs))).1 ≡ []
        → (k : Str)
        → (merge_at
            (child_key root k)
            (get k (entries base))
            (get k (entries ours))
            (get k (entries theirs))).1
          ≡ [])
merge_at-keys_example = merge_at-keys root base ours theirs
