-- ===== src/Source/Node/Equality.antt =====
-- `Node::eq` decides equality of trees, the order of mapping entries included.
use gitveil.Base.{
  Bool, true, ◌&&◌, ◌↔◌, ◌≡◌, refl, ap, ◌==◌, arith, Eq, eq_iff, eq_refl, nat_eq, bool_eq, list_eq,
  option_eq,
}
use gitveil.Source.Node.{
  Scalar, string, integer, float, bool, date_time, Node, mapping, sequence, scalar, tagged, Fields,
  end, field, Items, nil, item, fields_len, scalar_beq, node_beq, pairs_beq, items_beq,
}

scalar_beq_iff : (a b : Scalar) → (scalar_beq a b ≡ true) ↔ (a ≡ b)
unfolding scalar_beq
scalar_beq_iff (string a) (string b) = ground (arith, eq_iff a b)
scalar_beq_iff (integer a) (integer b) = ground (arith, eq_iff a b)
scalar_beq_iff (float a) (float b) = ground (arith, eq_iff a b)
scalar_beq_iff (bool a) (bool b) = ground (arith, eq_iff a b)
scalar_beq_iff (date_time a) (date_time b) = ground (arith, eq_iff a b)
scalar_beq_iff a b = ground arith

and_true : (a b : Bool) → a ≡ true → b ≡ true → (a && b) ≡ true
and_true a b h k = ground arith

and_left : (a b : Bool) → (a && b) ≡ true → a ≡ true
and_left a b h = ground arith

and_right : (a b : Bool) → (a && b) ≡ true → b ≡ true
and_right a b h = ground arith

mutual
  unfolding node_beq fields_len

  node_refl : (a : Node) → node_beq a a ≡ true
  node_refl (mapping l) =
      and_true (fields_len l == fields_len l) (pairs_beq l l) (eq_refl (fields_len l))
        (pairs_refl l)
  node_refl (sequence l) = items_refl l
  node_refl (scalar l) = (scalar_beq_iff l l).1 refl
  node_refl (tagged s l) = and_true (s == s) (node_beq l l) (eq_refl s) (node_refl l)

  pairs_refl : (l : Fields) → pairs_beq l l ≡ true
  pairs_refl end = refl
  pairs_refl (field j v fs) =
      and_true (j == j && node_beq v v) (pairs_beq fs fs)
        (and_true (j == j) (node_beq v v) (eq_refl j) (node_refl v)) (pairs_refl fs)

  items_refl : (l : Items) → items_beq l l ≡ true
  items_refl nil = refl
  items_refl (item v vs) = and_true (node_beq v v) (items_beq vs vs) (node_refl v) (items_refl vs)

mutual
  unfolding node_beq fields_len

  node_sound : (a b : Node) → node_beq a b ≡ true → a ≡ b
  node_sound (mapping l) (mapping r) h =
      let n = and_left (fields_len l == fields_len r) (pairs_beq l r) h in
      let p = and_right (fields_len l == fields_len r) (pairs_beq l r) h in
      ap mapping (pairs_sound l r ((eq_iff (fields_len l) (fields_len r)).0 n) p)
  node_sound (sequence l) (sequence r) h = ap sequence (items_sound l r h)
  node_sound (scalar l) (scalar r) h = ap scalar ((scalar_beq_iff l r).0 h)
  node_sound (tagged s l) (tagged t r) h =
      let e = (eq_iff s t).0 (and_left (s == t) (node_beq l r) h) in
      cc (e, node_sound l r (and_right (s == t) (node_beq l r) h))
  node_sound a b h = cc

  pairs_sound : (l r : Fields) → fields_len l ≡ fields_len r → pairs_beq l r ≡ true → l ≡ r
  pairs_sound (field j v fs) (field k w gs) n h =
      let vs = and_left (j == k && node_beq v w) (pairs_beq fs gs) h in
      let e = (eq_iff j k).0 (and_left (j == k) (node_beq v w) vs) in
      cc (
        e,
        node_sound v w (and_right (j == k) (node_beq v w) vs),
        pairs_sound fs gs (omega arith) (and_right (j == k && node_beq v w) (pairs_beq fs gs) h),
      )
  pairs_sound end end n h = refl
  pairs_sound l r n h = absurd (omega arith)

  items_sound : (l r : Items) → items_beq l r ≡ true → l ≡ r
  items_sound (item v vs) (item w ws) h = cc (
    node_sound v w (and_left (node_beq v w) (items_beq vs ws) h),
    items_sound vs ws (and_right (node_beq v w) (items_beq vs ws) h),
  )
  items_sound nil nil h = refl
  items_sound l r h = cc

-- Two trees compare equal exactly when they are the same tree.
pub node_beq_iff : (a b : Node) → (node_beq a b ≡ true) ↔ (a ≡ b)
node_beq_iff a b = (node_sound a b, λ e. rw e (node_refl b))

instance abbrev pub node_eq : Eq Node
node_eq = record { test = node_beq; decides = node_beq_iff }
