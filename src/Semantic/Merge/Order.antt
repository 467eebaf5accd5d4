-- ===== src/Semantic/Merge/Order.antt =====
-- The keys of a merge, in order.
use gitveil.Base.{
  Bool, true, false, ◌||◌, List, [], ◌∷◌, ◌++◌, ◌≡◌, ◌⊎◌, refl, arith, if◌then◌else◌, eq_iff,
  Bool-cases, inl, inr, contains, contains-append, keys, contains_key, contains-keys, Str, nat_eq,
  list_eq, option_eq,
}
use gitveil.Source.Node.{Fields, entries}
use gitveil.Source.Node.Equality.{node_eq}
use gitveil.Semantic.Merge.{push_new, key_union, merged_order}

contains-nil : (k : Str) → contains [] k ≡ false
unfolding contains
contains-nil k = refl

contains-push_new :
    (known more : List Str) (k : Str)
    → contains (push_new known more) k ≡ (contains known k || contains more k)
unfolding push_new contains
contains-push_new known [] k = ground arith
contains-push_new known (x ∷ more) k = elim (Bool-cases (contains known x)) [
  | inl old ↦ rw old (ground (arith, contains-push_new known more k, eq_iff x k))
  | inr new ↦
      rw new (
        ground
          (arith, contains-push_new (known ++ x ∷ []) more k, contains-append known (x ∷ []) k))
]

unfoldable pub has_key : Str → Fields → Bool
has_key k fs = contains_key k (entries fs)

key_union-covers :
    (primary secondary base : Fields) (k : Str)
    → contains (key_union primary secondary base) k
      ≡ (has_key k primary || has_key k secondary || has_key k base)
unfolding has_key
key_union-covers primary secondary base k =
    let first = push_new [] (keys (entries primary)) in
    let second = push_new first (keys (entries secondary)) in
    ground (
      arith,
      contains-push_new second (keys (entries base)) k,
      contains-push_new first (keys (entries secondary)) k,
      contains-push_new [] (keys (entries primary)) k,
      contains-nil k,
      contains-keys k (entries primary),
      contains-keys k (entries secondary),
      contains-keys k (entries base),
    )

abbrev pick : Bool → Bool → Bool → List Str → List Str → List Str × Bool
pick a b c x y =
    if a then (x, false) else if b then (y, false) else if c then (x, false) else (x, true)

pick_cases : (a b c : Bool) (x y : List Str) → ((pick a b c x y).0 ≡ x) ⊎ ((pick a b c x y).0 ≡ y)
pick_cases true b c x y = inl refl
pick_cases false true c x y = inr refl
pick_cases false false true x y = inl refl
pick_cases false false false x y = inl refl

-- The keys are those of all three mappings, whichever side is listed first.
merged_order-union :
    (base ours theirs : Fields)
    → ((merged_order base ours theirs).0 ≡ key_union ours theirs base)
      ⊎ ((merged_order base ours theirs).0 ≡ key_union theirs ours base)
unfolding merged_order
merged_order-union base ours theirs = pick_cases _ _ _ _ _

pub merged_order-covers :
    (base ours theirs : Fields) (k : Str)
    → contains (merged_order base ours theirs).0 k
      ≡ (has_key k ours || has_key k theirs || has_key k base)
merged_order-covers base ours theirs k = elim (merged_order-union base ours theirs) [
  | inl e ↦ rw e (key_union-covers ours theirs base k)
  | inr e ↦ rw e (ground (arith, key_union-covers theirs ours base k))
]
