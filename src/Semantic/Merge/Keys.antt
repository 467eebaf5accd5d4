-- ===== src/Semantic/Merge/Keys.antt =====
-- The merge of mappings is the merge at every key.
use gitveil.Base.{
  true, false, List, [], ◌∷◌, ◌≡◌, refl, sym, ap, ◌∙◌, ◌==◌, arith, Option, none, some,
  if◌then◌else◌, eq_iff, Bool-cases, inl, inr, contains, get, contains_key-get, Str, nat_eq,
  list_eq, option_eq,
}
use gitveil.Source.NodePath.{NodePath, child_key}
use gitveil.Source.Node.{Node, mapping, Fields, end, field, entries, of_entries, entries-of_entries}
use gitveil.Source.Node.Equality.{node_eq}
use gitveil.Semantic.Merge.{
  Merged, settle, merged_order, child_of, merge_keys, merge_mappings, merge_fields, merge_at,
}
use gitveil.Semantic.Merge.Laws.{
  settled_same, settled_ours, settled_theirs, merge_at-same, merge_at-ours, merge_at-theirs,
}
use gitveil.Semantic.Merge.Order.{has_key, merged_order-covers}
use gitveil.Semantic.Merge.Loop.{or_before, get-merge_keys, conflict_kept}

-- The prepared merge of a child is the merge with the base at its key.
child_of-merge_fields :
    (k : Str) (base : Fields) (path : NodePath) (ours theirs : Option Node)
    → child_of (get k (merge_fields base)) path ours theirs
      ≡ merge_at path (get k (entries base)) ours theirs
unfolding merge_fields merge_at get entries
child_of-merge_fields k end path ours theirs = refl
child_of-merge_fields k (field j v base) path ours theirs = elim (Bool-cases (j == k)) [
  | inl here ↦ rw here refl
  | inr other ↦ rw other (child_of-merge_fields k base path ours theirs)
]

-- What the merge of three mappings must be: at every key, the merge of the values there.
record PerKey (path : NodePath) (base ours theirs : Fields) (result : Merged) : Type 0 where
  fields : Fields
  node_eq_fields : result.0 ≡ some (mapping fields)
  at_key :
      (k : Str)
      → get k (entries fields)
        ≡ (merge_at
            (child_key path k)
            (get k (entries base))
            (get k (entries ours))
            (get k (entries theirs))).0
  quiet :
      result.1 ≡ []
      → (k : Str)
      → (merge_at
          (child_key path k)
          (get k (entries base))
          (get k (entries ours))
          (get k (entries theirs))).1
        ≡ []

same_fields : (l r : Fields) → (some (mapping l) == some (mapping r)) ≡ true → l ≡ r
same_fields l r h =
    let e : ◌≡◌ {A = Option Node} (some (mapping l)) (some (mapping r)) =
      (eq_iff (some (mapping l)) (some (mapping r))).0 h in
    cc

or_before-none : (o : Option Node) → or_before o none ≡ o
or_before-none none = refl
or_before-none (some v) = refl

get_absent : (k : Str) (fs : Fields) → has_key k fs ≡ false → get k (entries fs) ≡ none
unfolding has_key
get_absent k fs h = ground (arith, contains_key-get k (entries fs))

module _ (path : NodePath) (base ours theirs : Fields) (c : Merged) where
  same_sides :
      ours ≡ theirs
      → PerKey path base ours theirs
          (settle (some (mapping base)) (some (mapping ours)) (some (mapping theirs)) c)
  same_sides e =
      rw (e, settled_same (some (mapping base)) (some (mapping theirs)) c)
        (record {
          fields = theirs;
          node_eq_fields = refl;
          at_key = λ k.
              ap (λ (r : Merged). r.0)
                (sym (
                  merge_at-same (child_key path k) (get k (entries base))
                    (get k (entries theirs))));
          quiet = λ _ k.
              ap (λ (r : Merged). r.1)
                (merge_at-same (child_key path k) (get k (entries base)) (get k (entries theirs)));
        })

  only_theirs :
      ours ≡ base
      → PerKey path base ours theirs
          (settle (some (mapping base)) (some (mapping ours)) (some (mapping theirs)) c)
  only_theirs e =
      rw (e, settled_ours (some (mapping base)) (some (mapping theirs)) c)
        (record {
          fields = theirs;
          node_eq_fields = refl;
          at_key = λ k.
              ap (λ (r : Merged). r.0)
                (sym (
                  merge_at-ours (child_key path k) (get k (entries base))
                    (get k (entries theirs))));
          quiet = λ _ k.
              ap (λ (r : Merged). r.1)
                (merge_at-ours (child_key path k) (get k (entries base)) (get k (entries theirs)));
        })

  only_ours :
      theirs ≡ base
      → PerKey path base ours theirs
          (settle (some (mapping base)) (some (mapping ours)) (some (mapping theirs)) c)
  only_ours e =
      rw (e, settled_theirs (some (mapping base)) (some (mapping ours)) c)
        (record {
          fields = ours;
          node_eq_fields = refl;
          at_key = λ k.
              ap (λ (r : Merged). r.0)
                (sym (
                  merge_at-theirs (child_key path k) (get k (entries base))
                    (get k (entries ours))));
          quiet = λ _ k.
              ap (λ (r : Merged). r.1)
                (merge_at-theirs (child_key path k) (get k (entries base)) (get k (entries ours)));
        })

  contested_sides :
      (some (mapping ours) == some (mapping theirs)) ≡ false
      → (some (mapping ours) == some (mapping base)) ≡ false
      → (some (mapping theirs) == some (mapping base)) ≡ false
      → settle (some (mapping base)) (some (mapping ours)) (some (mapping theirs)) c ≡ c
  unfolding settle
  contested_sides h1 h2 h3 = rw (h1, h2, h3) refl

module _ (path : NodePath) (base ours theirs : Fields) where
  abbrev merge_at_key : Str → Merged
  merge_at_key k =
      merge_at (child_key path k) (get k (entries base)) (get k (entries ours))
        (get k (entries theirs))

  -- A key of no mapping is merged to nothing, and quietly.
  absent_key :
      (k : Str) → contains (merged_order base ours theirs).0 k ≡ false → merge_at_key k ≡ (none, [])
  absent_key k h =
      let c = merged_order-covers base ours theirs k in
      let o = get_absent k ours (ground arith) in
      let t = get_absent k theirs (ground arith) in
      rw (o, t) (merge_at-same (child_key path k) (get k (entries base)) none)

  value_at :
      (k : Str) (cs : List NodePath)
      → get k
          (merge_keys path
            (merge_fields base)
            ours
            theirs
            []
            cs
            (merged_order base ours theirs).0).0
        ≡ (merge_at_key k).0
  unfolding get
  value_at k cs =
      let order = (merged_order base ours theirs).0 in
      let read = get-merge_keys path (merge_fields base) ours theirs k order [] cs in
      let prepared =
        child_of-merge_fields k base (child_key path k) (get k (entries ours))
          (get k (entries theirs)) in
      elim (Bool-cases (contains order k)) [
        | inl listed ↦ read ∙ rw listed (or_before-none _ ∙ ap (λ (r : Merged). r.0) prepared)
        | inr absent ↦ read ∙ rw (absent, absent_key k absent) refl
      ]

  quiet_at :
      (k : Str) (cs : List NodePath)
      → (merge_keys path (merge_fields base) ours theirs [] cs (merged_order base ours theirs).0).1
        ≡ []
      → (merge_at_key k).1 ≡ []
  quiet_at k cs h =
      let order = (merged_order base ours theirs).0 in
      let kept = conflict_kept path (merge_fields base) ours theirs k order [] cs h in
      let prepared =
        child_of-merge_fields k base (child_key path k) (get k (entries ours))
          (get k (entries theirs)) in
      elim (Bool-cases (contains order k)) [
        | inl listed ↦ rw (← prepared) (kept.1 listed)
        | inr absent ↦ rw (absent_key k absent) refl
      ]

  merge_mappings-PerKey :
      PerKey path base ours theirs (merge_mappings path base (merge_fields base) ours theirs)
  unfolding merge_mappings
  merge_mappings-PerKey =
      let cs = if (merged_order base ours theirs).1 then path ∷ [] else [] in
      let made =
        (merge_keys path (merge_fields base) ours theirs [] cs
          (merged_order base ours theirs).0).0 in
      record {
        fields = of_entries made;
        node_eq_fields = refl;
        at_key = λ k. ap (get k) (entries-of_entries made) ∙ value_at k cs;
        quiet = λ h k. quiet_at k cs h;
      }

  settle-PerKey :
      (contested_result : Merged)
      → PerKey path base ours theirs contested_result
      → PerKey path base ours theirs (
          settle
            (some (mapping base))
            (some (mapping ours))
            (some (mapping theirs))
            contested_result)
  settle-PerKey c h = elim (Bool-cases (some (mapping ours) == some (mapping theirs))) [
    | inl e ↦ same_sides path base ours theirs c (same_fields ours theirs e)
    | inr n1 ↦ elim (Bool-cases (some (mapping ours) == some (mapping base))) [
      | inl e ↦ only_theirs path base ours theirs c (same_fields ours base e)
      | inr n2 ↦ elim (Bool-cases (some (mapping theirs) == some (mapping base))) [
        | inl e ↦ only_ours path base ours theirs c (same_fields theirs base e)
        | inr n3 ↦ rw (contested_sides path base ours theirs c n1 n2 n3) h
      ]
    ]
  ]

  -- The merge of three mappings is a mapping that has, at every key, the merge of the three values
  -- at that key, an absent value included; and it meets no conflict only if no key does.
  pub merge_at-keys :
      (fields : Fields) × ((merge_at path
          (some (mapping base))
          (some (mapping ours))
          (some (mapping theirs))).0
        ≡ some (mapping fields))
      × ((k : Str)
          → get k (entries fields)
            ≡ (merge_at
                (child_key path k)
                (get k (entries base))
                (get k (entries ours))
                (get k (entries theirs))).0)
      × ((merge_at path (some (mapping base)) (some (mapping ours)) (some (mapping theirs))).1 ≡ []
          → (k : Str)
          → (merge_at
              (child_key path k)
              (get k (entries base))
              (get k (entries ours))
              (get k (entries theirs))).1
            ≡ [])
  unfolding merge_at
  merge_at-keys =
      let p = settle-PerKey _ merge_mappings-PerKey in
      (p.fields, p.node_eq_fields, p.at_key, p.quiet)
