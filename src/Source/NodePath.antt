-- ===== src/Source/NodePath.antt =====
-- src/source/document.rs: paths into a document.
use gitveil.Base.{
  ℕ, Bool, true, false, ◌↔◌, List, [], ◌∷◌, ◌++◌, ◌≡◌, ◌==◌, arith, Eq, Str, nat_eq, list_eq,
  list_beq_iff, decimal,
}

pub data PathSegment : Type 0 where
  key : Str → PathSegment
  index : ℕ → PathSegment

-- The derived equality.
abbrev pub segment_beq : PathSegment → PathSegment → Bool
segment_beq (key a) (key b) = a == b
segment_beq (index i) (index j) = i == j
segment_beq _ _ = false

pub segment_beq_iff : (a b : PathSegment) → (segment_beq a b ≡ true) ↔ (a ≡ b)
segment_beq_iff (key a) (key b) = ground (arith, list_beq_iff a b)
segment_beq_iff a b = ground arith

instance abbrev pub segment_eq : Eq PathSegment
segment_eq = record { test = segment_beq; decides = segment_beq_iff }

-- `NodePath` is its segments.
abbrev pub NodePath : Type 0
NodePath = List PathSegment

-- `NodePath::root`
abbrev pub root : NodePath
root = []

-- `NodePath::child_key`
abbrev pub child_key : NodePath → Str → NodePath
child_key path k = path ++ key k ∷ []

-- `NodePath::child_index`
abbrev pub child_index : NodePath → ℕ → NodePath
child_index path i = path ++ index i ∷ []

-- `Display` of a path after its first segment.
unfoldable pub render_rest : NodePath → Str
unfolding decimal
render_rest [] = []
render_rest (key k ∷ path) = 46 ∷ k ++ render_rest path
render_rest (index i ∷ path) = 91 ∷ decimal i ++ 93 ∷ render_rest path

-- `Display` of a path
unfoldable pub render : NodePath → Str
unfolding render_rest
render [] = 36 ∷ []
render (key k ∷ path) = k ++ render_rest path
render (index i ∷ path) = render_rest (index i ∷ path)
