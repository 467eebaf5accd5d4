-- ===== src/Source/Node.antt =====
-- src/source/document.rs: the semantic tree of a document. `IndexMap<String, Node>` is the type
-- `Fields`, which holds its entries in order; `entries` gives them as an association list.
pub mod Equality
use gitveil.Base.{
  ℕ, zero, suc, ◌-◌, Bool, true, false, ◌&&◌, ◌||◌, List, [], ◌∷◌, ◌≡◌, refl, ap, ◌==◌, ltb, Option,
  none, some, if◌then◌else◌, IndexMap, get, Str, nat_eq, bool_eq, list_eq,
}
use gitveil.Source.NodePath.{PathSegment, key, index, NodePath}

pub data Scalar : Type 0 where
  string integer float : Str → Scalar
  bool : Bool → Scalar
  null : Scalar
  date_time : Str → Scalar

mutual
  pub data Node : Type 0 where
    mapping : Fields → Node
    sequence : Items → Node
    scalar : Scalar → Node
    tagged : Str → Node → Node

  pub data Fields : Type 0 where
    end : Fields
    field : Str → Node → Fields → Fields

  pub data Items : Type 0 where
    nil : Items
    item : Node → Items → Items

unfoldable pub entries : Fields → IndexMap Str Node
entries end = []
entries (field k v fs) = (k, v) ∷ entries fs

unfoldable pub of_entries : IndexMap Str Node → Fields
of_entries [] = end
of_entries ((k, v) ∷ m) = field k v (of_entries m)

pub entries-of_entries : (m : IndexMap Str Node) → entries (of_entries m) ≡ m
unfolding entries of_entries
entries-of_entries [] = refl
entries-of_entries ((k, v) ∷ m) = ap (λ r. (k, v) ∷ r) (entries-of_entries m)

unfoldable pub fields_len : Fields → ℕ
fields_len end = 0
fields_len (field k v fs) = suc (fields_len fs)

-- The derived equality of scalars.
unfoldable pub scalar_beq : Scalar → Scalar → Bool
scalar_beq (string a) (string b) = a == b
scalar_beq (integer a) (integer b) = a == b
scalar_beq (float a) (float b) = a == b
scalar_beq (bool a) (bool b) = a == b
scalar_beq null null = true
scalar_beq (date_time a) (date_time b) = a == b
scalar_beq _ _ = false

-- `Node::eq`: mappings by length and then entry by entry, in order. The loop over the zipped
-- entries, `pairs_beq`, ends with the shorter one.
unfoldable mutual
  unfolding fields_len scalar_beq

  pub node_beq : Node → Node → Bool
  node_beq (mapping l) (mapping r) = fields_len l == fields_len r && pairs_beq l r
  node_beq (sequence l) (sequence r) = items_beq l r
  node_beq (scalar l) (scalar r) = scalar_beq l r
  node_beq (tagged s l) (tagged t r) = s == t && node_beq l r
  node_beq _ _ = false

  pub pairs_beq : Fields → Fields → Bool
  pairs_beq (field j v fs) (field k w gs) = j == k && node_beq v w && pairs_beq fs gs
  pairs_beq _ _ = true

  pub items_beq : Items → Items → Bool
  items_beq nil nil = true
  items_beq (item v vs) (item w ws) = node_beq v w && items_beq vs ws
  items_beq _ _ = false

-- `values.get(index)`
unfoldable pub get_item : ℕ → Items → Option Node
get_item i nil = none
get_item zero (item v vs) = some v
get_item (suc i) (item v vs) = get_item i vs

-- `Node::scalar`
unfoldable pub as_scalar : Node → Option Scalar
as_scalar (scalar value) = some value
as_scalar (tagged t value) = as_scalar value
as_scalar (mapping fs) = none
as_scalar (sequence vs) = none

-- The loop that drops the tags of `current`.
unfoldable pub untag : Node → Node
untag (tagged t value) = untag value
untag node = node

-- One step of `at_path` below the tags.
unfoldable pub step_into : PathSegment → Node → Option Node
unfolding entries get_item
step_into (key k) (mapping fs) = get k (entries fs)
step_into (index i) (sequence vs) = get_item i vs
step_into _ _ = none

-- `Node::at_path`
unfoldable pub at_path : NodePath → Node → Option Node
unfolding untag step_into
at_path [] node = some node
at_path (segment ∷ rest) node = elim (step_into segment (untag node)) [
  | none ↦ none
  | some child ↦ at_path rest child
]
