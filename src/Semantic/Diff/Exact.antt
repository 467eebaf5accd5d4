-- ===== src/Semantic/Diff/Exact.antt =====
-- A diff is empty exactly for equal trees.
use gitveil.Base.{
  true, false, ◌↔◌, List, [], ◌∷◌, ◌++◌, ◌≡◌, ◌≢◌, refl, sym, ap, ◌∙◌, ◌==◌, arith, Option, none,
  some, if◌then◌else◌, eq_iff, Bool-cases, inl, inr, contains, all, filter-eq_self, IsUnique, keys,
  get, contains_key, contains_key-get, IndexMap, Str, nat_eq, list_eq,
}
use gitveil.Source.NodePath.{NodePath, root, child_key}
use gitveil.Source.Node.{
  Node, mapping, sequence, scalar, tagged, Fields, end, field, Items, nil, item, entries, node_beq,
}
use gitveil.Source.Node.Equality.{node_beq_iff}
use gitveil.Semantic.Diff.{
  Change, change, common, order_change, added_fields, diff_mapping, diff_tagged, diff_node,
  diff_fields, diff_at, diff, modified,
}

-- No mapping in the tree has a key twice: what `IndexMap` guarantees.
unfoldable mutual
  pub IsKeyed : Node → Type 0
  IsKeyed (mapping fs) = IsUnique (keys (entries fs)) × FieldsKeyed fs
  IsKeyed (sequence vs) = ItemsKeyed vs
  IsKeyed (scalar v) = Unit
  IsKeyed (tagged t v) = IsKeyed v

  pub FieldsKeyed : Fields → Type 0
  FieldsKeyed end = Unit
  FieldsKeyed (field k v fs) = IsKeyed v × FieldsKeyed fs

  pub ItemsKeyed : Items → Type 0
  ItemsKeyed nil = Unit
  ItemsKeyed (item v vs) = IsKeyed v × ItemsKeyed vs

-- Every entry of the first mapping is what the second has at its key.
abbrev Holds : Fields → Fields → Type 0
Holds end r = Unit
Holds (field k v l) r = (get k (entries r) ≡ some v) × Holds l r

append-nil-left : (xs ys : List Change) → xs ++ ys ≡ [] → xs ≡ []
append-nil-left [] ys h = refl
append-nil-left (x ∷ xs) ys h = cc

append-nil-right : (xs ys : List Change) → xs ++ ys ≡ [] → ys ≡ []
append-nil-right [] ys h = h
append-nil-right (x ∷ xs) ys h = cc

-- With no deletion every key of `before` is in `after`.
Holds-keys :
    (l r : Fields) → Holds l r → all (λ k. contains_key k (entries r)) (keys (entries l)) ≡ true
unfolding all keys entries
Holds-keys end r h = refl
Holds-keys (field k v l) r h = ground (arith, Holds-keys l r, contains_key-get k (entries r))

added-keys :
    (path : NodePath) (l : Fields) (m : IndexMap Str Node)
    → added_fields path l m ≡ []
    → all (λ k. contains_key k (entries l)) (keys m) ≡ true
unfolding added_fields all keys
added-keys path l [] h = refl
added-keys path l ((k, v) ∷ m) h = ground (arith, added-keys path l m)

Holds-tail :
    (k : Str) (w : Node) (l r : Fields)
    → contains (keys (entries l)) k ≡ false
    → Holds l (field k w r)
    → Holds l r
unfolding contains keys entries get
Holds-tail k w end r n h = tt
Holds-tail k w (field j v l) r n h =
    (ground (arith, eq_iff j k, eq_iff k j), Holds-tail k w l r (ground arith) h.1)

-- Mappings with the same keys in the same order and the same values are equal.
Holds-eq :
    (l r : Fields)
    → keys (entries l) ≡ keys (entries r)
    → IsUnique (keys (entries l))
    → Holds l r
    → l ≡ r
unfolding keys entries get
Holds-eq end end e u h = refl
Holds-eq end (field k w r) e u h = cc
Holds-eq (field k v l) end e u h = cc
Holds-eq (field k v l) (field j w r) e u h =
    let k_eq : k ≡ j = cc in
    let v_eq : w ≡ v = ground (arith, eq_iff j k) in
    let rest : keys (entries l) ≡ keys (entries r) = cc in
    cc (k_eq, v_eq, Holds-eq l r rest u.1 (Holds-tail j w l r (rw (← k_eq) u.0) h.1))

order_change-nil :
    (path : NodePath) (l r : Fields)
    → order_change path l r ≡ []
    → Holds l r
    → all (λ k. contains_key k (entries l)) (keys (entries r)) ≡ true
    → keys (entries l) ≡ keys (entries r)
unfolding order_change
order_change-nil path l r h kept covered =
    let left =
      filter-eq_self (λ k. contains_key k (entries r)) (keys (entries l)) (Holds-keys l r kept) in
    let right = filter-eq_self (λ k. contains_key k (entries l)) (keys (entries r)) covered in
    let same = (eq_iff (common l r) (common r l)).0 (ground arith) in sym left ∙ same ∙ right

-- The arm for two mappings, from what an empty list of the children's changes means.
mapping_exact :
    (path : NodePath) (l r : Fields) (children : Fields → List Change)
    → IsUnique (keys (entries l))
    → (children r ≡ [] → Holds l r)
    → diff_mapping path l (some (mapping r)) children ≡ []
    → mapping l ≡ mapping r
unfolding diff_mapping
mapping_exact path l r children unique kept h =
    elim (Bool-cases (node_beq (mapping l) (mapping r))) [
      | inl same ↦ (node_beq_iff (mapping l) (mapping r)).0 same
      | inr differ ↦
          let all_parts : order_change path l r ++ (children r ++ added_fields path l (entries r))
              ≡ [] =
            ground arith in
          let rest = append-nil-right (order_change path l r) _ all_parts in
          let holds = kept (append-nil-left (children r) _ rest) in
          let covered = added-keys path l (entries r) (append-nil-right (children r) _ rest) in
          let order =
            order_change-nil path l r (append-nil-left (order_change path l r) _ all_parts) holds
              covered in
          ap mapping (Holds-eq l r order unique holds)
    ]

tagged_exact :
    (path : NodePath) (t : Str) (v : Node) (u : Str) (w : Node) (inner : Node → List Change)
    → (inner w ≡ [] → v ≡ w)
    → diff_tagged path t v (some (tagged u w)) inner ≡ []
    → tagged t v ≡ tagged u w
unfolding diff_tagged
tagged_exact path t v u w inner same h = elim (Bool-cases (node_beq (tagged t v) (tagged u w))) [
  | inl e ↦ (node_beq_iff (tagged t v) (tagged u w)).0 e
  | inr differ ↦ elim (Bool-cases (t == u)) [
    | inl tags ↦
        let e : v ≡ w = same (ground arith) in let f : t ≡ u = (eq_iff t u).0 tags in cc (e, f)
    | inr other ↦ absurd (ground arith)
  ]
]

other_exact :
    (path : NodePath) (a b : Node)
    → (if node_beq a b then [] else change path modified) ≡ []
    → a ≡ b
other_exact path a b h = (node_beq_iff a b).0 (ground arith)

deleted-ne-nil : (path : NodePath) (v : Node) → diff_node path v none ≢ []
unfolding diff_node
deleted-ne-nil path (mapping l) h = cc
deleted-ne-nil path (sequence l) h = cc
deleted-ne-nil path (scalar l) h = cc
deleted-ne-nil path (tagged t l) h = cc

child_exact :
    (path : NodePath) (v : Node) (o : Option Node)
    → ((w : Node) → diff_node path v (some w) ≡ [] → v ≡ w)
    → diff_node path v o ≡ []
    → o ≡ some v
child_exact path v none same h = absurd (deleted-ne-nil path v h)
child_exact path v (some w) same h = ap some (sym (same w h))

mutual
  unfolding diff_node IsKeyed

  exact_node : (path : NodePath) (a b : Node) → IsKeyed a → diff_node path a (some b) ≡ [] → a ≡ b
  exact_node path (mapping l) (mapping r) keyed h =
      mapping_exact path l r (λ f. diff_fields path l f) keyed.0
        (λ e. exact_fields path l r keyed.1 e) h
  exact_node path (tagged t v) (tagged u w) keyed h =
      tagged_exact path t v u w (λ n. diff_node path v (some n)) (λ e. exact_node path v w keyed e)
        h
  exact_node path a b keyed h = other_exact path a b h

  exact_fields :
      (path : NodePath) (l r : Fields) → FieldsKeyed l → diff_fields path l r ≡ [] → Holds l r
  exact_fields path end r keyed h = tt
  exact_fields path (field k v l) r keyed h = (
    child_exact (child_key path k) v (get k (entries r))
        (λ w e. exact_node (child_key path k) v w keyed.0 e) (append-nil-left _ _ h),
    exact_fields path l r keyed.1
        (append-nil-right (diff_node (child_key path k) v (get k (entries r))) _ h),
  )

diff_self : (a : Node) → diff a a ≡ []
unfolding diff diff_at
diff_self (mapping l) = rw ((node_beq_iff (mapping l) (mapping l)).1 refl)
diff_self (tagged t v) = rw ((node_beq_iff (tagged t v) (tagged t v)).1 refl)
diff_self (sequence l) = rw ((node_beq_iff (sequence l) (sequence l)).1 refl)
diff_self (scalar l) = rw ((node_beq_iff (scalar l) (scalar l)).1 refl)

-- For a tree in which no mapping has a key twice, the diff is empty exactly when the other tree is
-- the same tree, order and tags included.
pub diff-nil_iff : (a b : Node) → IsKeyed a → (diff a b ≡ []) ↔ (a ≡ b)
unfolding diff diff_at
diff-nil_iff a b keyed = (exact_node root a b keyed, λ e. rw (← e) (diff_self a))
