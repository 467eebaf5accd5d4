-- ===== src/Source/Layout/Dotenv.antt =====
-- src/source/document.rs: the merge of the dotenv entries of three layouts.
use gitveil.Base.{
  ◌&&◌, List, [], ◌∷◌, ◌++◌, ◌==◌, Option, none, some, if◌then◌else◌, Str, any, map, find?, filter,
  contains, nat_eq, bool_eq, list_eq, option_eq, Eq,
}
use gitveil.Source.Layout.{
  line_ending_eq, template_eq, dotenv_eq, layout_eq, placeholder_eq, DotenvLayout,
}

unfoldable pub merge_field {ℓ} : {A : Type ℓ} ⦃e : Eq A⦄ → A → A → A → Option A
merge_field base ours theirs =
    if ours == theirs
    then some ours
    else if ours == base
    then some theirs
    else if theirs == base
    then some ours
    else none

unfoldable pub find_entry : Str → List DotenvLayout → Option DotenvLayout
unfolding find?
find_entry key entries = find? (λ (e : DotenvLayout). e.key == key) entries

abbrev pub layout_keys : List DotenvLayout → List Str
layout_keys = map (λ (e : DotenvLayout). e.key)

-- The keys of `base` that all three sides have.
unfoldable pub shared_keys : List DotenvLayout → List DotenvLayout → List DotenvLayout → List Str
unfolding any filter
shared_keys base ours theirs = layout_keys (
    filter
      (λ (e : DotenvLayout).
        any (λ (other : DotenvLayout). other.key == e.key) ours
        && any (λ (other : DotenvLayout). other.key == e.key) theirs)
      base)

unfoldable pub shared_order : List Str → List DotenvLayout → List Str
unfolding filter contains
shared_order shared entries =
    layout_keys (filter (λ (e : DotenvLayout). contains shared e.key) entries)

-- The keys that are not yet in `order`, appended.
unfoldable pub push_keys : List Str → List DotenvLayout → List Str
unfolding contains
push_keys order [] = order
push_keys order (e ∷ rest) =
    push_keys (if contains order e.key then order else order ++ e.key ∷ []) rest

-- The body of the loop over the ordered keys.
unfoldable pub merge_key :
    List DotenvLayout → List DotenvLayout → List DotenvLayout → Str → Option (Option DotenvLayout)
unfolding find_entry merge_field
merge_key base ours theirs key =
    merge_field (find_entry key base) (find_entry key ours) (find_entry key theirs)

-- The loop over the ordered keys.
unfoldable pub merge_entries :
    List DotenvLayout
    → List DotenvLayout
    → List DotenvLayout
    → List Str
    → Option (List DotenvLayout)
unfolding merge_key
merge_entries base ours theirs [] = some []
merge_entries base ours theirs (key ∷ order) =
    let rest = merge_entries base ours theirs order in
    elim (merge_key base ours theirs key) [
      | none ↦ none
      | some none ↦ rest
      | some (some entry) ↦ elim rest [ none ↦ none | some merged ↦ some (entry ∷ merged) ]
    ]

-- The keys of the merge, in order, or `none` where both sides reordered the shared keys.
unfoldable pub merge_order :
    List DotenvLayout → List DotenvLayout → List DotenvLayout → Option (List Str)
unfolding shared_keys shared_order push_keys
merge_order base ours theirs =
    let shared = shared_keys base ours theirs in
    let order_of = λ (primary secondary : List DotenvLayout).
      push_keys (push_keys (push_keys [] primary) secondary) base in
    if shared_order shared ours == shared_order shared theirs
    then some (order_of ours theirs)
    else if shared_order shared ours == shared_order shared base
    then some (order_of theirs ours)
    else if shared_order shared theirs == shared_order shared base
    then some (order_of ours theirs)
    else none

unfoldable pub merge_dotenv :
    List DotenvLayout → List DotenvLayout → List DotenvLayout → Option (List DotenvLayout)
unfolding merge_order merge_entries
merge_dotenv base ours theirs = elim (merge_order base ours theirs) [
  | none ↦ none
  | some order ↦ merge_entries base ours theirs order
]
