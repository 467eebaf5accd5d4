-- ===== src/Source/Layout/Entries.antt =====
-- The merge of dotenv entries is the merge at every key.
use gitveil.Base.{
  true, false, ◌||◌, ◌⊎◌, List, [], ◌∷◌, ◌++◌, ◌≡◌, refl, ap, ◌==◌, arith, none, some, Str, find?,
  contains, contains-append, Bool-cases, Option-cases, inl, inr, eq_iff, nat_eq, list_eq, option_eq,
  Eq, is_some,
}
use gitveil.Source.Layout.{DotenvLayout, dotenv_eq, layout_eq}
use gitveil.Source.Layout.Dotenv.{
  merge_field, find_entry, layout_keys, push_keys, merge_key, merge_entries, merge_order,
  merge_dotenv,
}

-- The merged field is one of the three.
merge_field-from {ℓ} :
    {A : Type ℓ} ⦃e : Eq A⦄ (base ours theirs : A) {merged : A}
    → merge_field base ours theirs ≡ some merged
    → (ours ≡ merged) ⊎ (theirs ≡ merged)
unfolding merge_field
merge_field-from base ours theirs h = ground arith

-- An entry is found under its own key.
find_entry-key :
    (key : Str) (entries : List DotenvLayout) (entry : DotenvLayout)
    → find_entry key entries ≡ some entry
    → (entry.key == key) ≡ true
unfolding find_entry find?
find_entry-key key [] entry h = cc
find_entry-key key (e ∷ entries) entry h = ground (arith, find_entry-key key entries entry)

contains-layout_keys :
    (key : Str) (entries : List DotenvLayout)
    → contains (layout_keys entries) key ≡ is_some (find_entry key entries)
unfolding find_entry find? contains
contains-layout_keys key [] = refl
contains-layout_keys key (e ∷ entries) = ground (arith, contains-layout_keys key entries)

find_entry-absent :
    (key : Str) (entries : List DotenvLayout)
    → contains (layout_keys entries) key ≡ false
    → find_entry key entries ≡ none
find_entry-absent key entries h = elim (Option-cases (find_entry key entries)) [
  | inl e ↦ e
  | inr (entry, e) ↦ cc (contains-layout_keys key entries, ap is_some e)
]

contains-push_keys :
    (order : List Str) (entries : List DotenvLayout) (key : Str)
    → contains (push_keys order entries) key
      ≡ (contains order key || contains (layout_keys entries) key)
unfolding push_keys contains
contains-push_keys order [] key = ground arith
contains-push_keys order (e ∷ entries) key = elim (Bool-cases (contains order e.key)) [
  | inl old ↦ rw old (ground (arith, contains-push_keys order entries key, eq_iff e.key key))
  | inr new ↦ rw new (
      ground (
        arith,
        contains-push_keys (order ++ e.key ∷ []) entries key,
        contains-append order (e.key ∷ []) key,
      ))
]

order-covers :
    (primary secondary base : List DotenvLayout) (key : Str)
    → contains (push_keys (push_keys (push_keys [] primary) secondary) base) key ≡ (
        contains (layout_keys primary) key
        || contains (layout_keys secondary) key
        || contains (layout_keys base) key)
unfolding contains
order-covers primary secondary base key =
    let first = push_keys [] primary in
    let second = push_keys first secondary in
    ground (
      arith,
      contains-push_keys second base key,
      contains-push_keys first secondary key,
      contains-push_keys [] primary key,
    )

module _ (base ours theirs : List DotenvLayout) where
  -- What the merge finds for one key is filed under that key.
  merged-key :
      (key : Str) {entry : DotenvLayout}
      → merge_key base ours theirs key ≡ some (some entry)
      → (entry.key == key) ≡ true
  unfolding merge_key
  merged-key key {entry} h =
      elim (merge_field-from (find_entry key base) (find_entry key ours) (find_entry key theirs)
        h) [ inl o ↦ find_entry-key key ours entry o | inr t ↦ find_entry-key key theirs entry t ]

  -- A successful step either drops the key or puts its entry first.
  merge_entries-step :
      (key : Str) (order : List Str) {merged : List DotenvLayout}
      → merge_entries base ours theirs (key ∷ order) ≡ some merged
      → ((merge_key base ours theirs key ≡ some none)
          × (merge_entries base ours theirs order ≡ some merged))
        ⊎ ((entry : DotenvLayout) × (rest : List DotenvLayout) × (merge_key base ours theirs key
              ≡ some (some entry))
            × (merge_entries base ours theirs order ≡ some rest)
            × (merged ≡ entry ∷ rest))
  unfolding merge_entries
  merge_entries-step key order h = elim (Option-cases (merge_key base ours theirs key)) [
    | inl e ↦ cc (rw (merge_entries, e) at h)
    | inr (none, e) ↦ inl (e, rw (merge_entries, e) at h)
    | inr (some entry, e) ↦ elim (Option-cases (merge_entries base ours theirs order)) [
      | inl f ↦ cc (rw (merge_entries, e, f) at h)
      | inr (rest, f) ↦ inr (entry, rest, e, f, ground (arith, rw (merge_entries, e, f) at h))
    ]
  ]

  merge_entries-absent :
      {merged : List DotenvLayout} (order : List Str) (key : Str)
      → merge_entries base ours theirs order ≡ some merged
      → contains order key ≡ false
      → find_entry key merged ≡ none
  unfolding merge_entries contains find_entry find?
  merge_entries-absent [] key h missing = ground arith
  merge_entries-absent (k ∷ order) key h missing = elim (merge_entries-step k order h) [
    | inl (_, f) ↦ merge_entries-absent order key f (ground arith)
    | inr (entry, rest, e, f, m) ↦
        rw m (ground (arith, merge_entries-absent order key f, merged-key k e, eq_iff entry.key k))
  ]

  merge_entries-found :
      {merged : List DotenvLayout} (order : List Str) (key : Str)
      → merge_entries base ours theirs order ≡ some merged
      → contains order key ≡ true
      → merge_key base ours theirs key ≡ some (find_entry key merged)
  unfolding merge_entries contains find_entry find?
  merge_entries-found [] key h present = cc
  merge_entries-found (k ∷ order) key h present = elim (Bool-cases (k == key)) [
    | inl same ↦
        let same' : k ≡ key = (eq_iff k key).0 same in
        elim (merge_entries-step k order h) [
          | inl (e, f) ↦ elim (Bool-cases (contains order key)) [
            | inl again ↦ merge_entries-found order key f again
            | inr last ↦ rw (merge_entries-absent order key f last) (rw same' at e)
          ]
          | inr (entry, rest, e, f, m) ↦ rw m (
              ground (
                arith,
                rw same' at e,
                merged-key k e,
                eq_iff entry.key k,
                same',
                merged-key key (rw same' at e),
              ))
        ]
    | inr other ↦ elim (merge_entries-step k order h) [
      | inl (_, f) ↦ merge_entries-found order key f (ground arith)
      | inr (entry, rest, e, f, m) ↦
          rw m (ground (arith, merge_entries-found order key f, merged-key k e, eq_iff entry.key k))
    ]
  ]

  -- The order holds exactly the keys of the three sides.
  merge_order-covers :
      (key : Str) (order : List Str)
      → merge_order base ours theirs ≡ some order
      → contains order key ≡ (
          contains (layout_keys ours) key
          || contains (layout_keys theirs) key
          || contains (layout_keys base) key)
  unfolding merge_order
  merge_order-covers key order h =
      ground (arith, order-covers ours theirs base key, order-covers theirs ours base key)

-- At every key, the dotenv entry of a merge is the three-way merge of the entries at that key.
pub merge_dotenv-keys :
    (base ours theirs merged : List DotenvLayout) (key : Str)
    → merge_dotenv base ours theirs ≡ some merged
    → merge_field (find_entry key base) (find_entry key ours) (find_entry key theirs)
      ≡ some (find_entry key merged)
unfolding merge_dotenv merge_key
merge_dotenv-keys base ours theirs merged key h =
    elim (Option-cases (merge_order base ours theirs)) [
      | inl e ↦ cc (rw (merge_dotenv, e) at h)
      | inr (order, e) ↦
          let h' : merge_entries base ours theirs order ≡ some merged = rw (merge_dotenv, e) at h in
          elim (Bool-cases (contains order key)) [
            | inl there ↦ merge_entries-found base ours theirs order key h' there
            | inr missing ↦
                let union = merge_order-covers base ours theirs key order e in
                rw
                  (
                    find_entry-absent key base (ground (arith, union)),
                    find_entry-absent key ours (ground (arith, union)),
                    find_entry-absent key theirs (ground (arith, union)),
                    merge_entries-absent base ours theirs order key h' missing,
                  )
                  refl
          ]
    ]
