-- ===== src/Open/Entries.antt =====
-- src/open/plan.rs: `assemble_layout` keeps the layout entries of the local side.
use gitveil.Base.{
  true, false, ◌≡◌, refl, ap, ◌∙◌, subst, inl, inr, List, [], ◌∷◌, ◌==◌, Option, none, some, Str,
  get, find?, eq_iff, Option-cases, nat_eq, list_eq, option_eq, Bool-cases, some_injective,
}
use gitveil.Source.Node.{Node, mapping, Fields, entries}
use gitveil.Source.Layout.{DotenvLayout}
use gitveil.Source.Layout.Dotenv.{find_entry}
use gitveil.Source.Document.{SourceDocument}
use gitveil.Baseline.{UnitView, view_eq, key_view, view_at, unit_view}
use gitveil.Open.{Side, local_side, Merged}
use gitveil.Open.Plan.{primary, secondary, or_entry, push_entry, layout_entries}

-- The layout entry of a unit, if it has one, stays.
abbrev pub KeepsEntry : Option DotenvLayout → Option DotenvLayout → Type 0
KeepsEntry none found = Unit
KeepsEntry (some entry) found = found ≡ some entry

find_entry-key :
    (key : Str) (entries : List DotenvLayout) (entry : DotenvLayout)
    → find_entry key entries ≡ some entry
    → (entry.key == key) ≡ true
unfolding find_entry find?
find_entry-key key [] entry h = cc
find_entry-key key (e ∷ rest) entry h = elim (Bool-cases (e.key == key)) [
  | inl found ↦
      subst (λ (d : DotenvLayout). (d.key == key) ≡ true)
        (some_injective e entry (rw (find_entry, found) at h)) found
  | inr other ↦ find_entry-key key rest entry (rw (find_entry, other) at h)
]

-- The entry that a merged key gets has that key.
or_entry-key :
    (key : Str) (first second : List DotenvLayout) (entry : DotenvLayout)
    → or_entry (find_entry key first) (find_entry key second) ≡ some entry
    → (entry.key == key) ≡ true
or_entry-key key first second entry h = elim (Option-cases (find_entry key first)) [
  | inl missing ↦ find_entry-key key second entry (rw missing at h)
  | inr (found, e) ↦ find_entry-key key first entry (e ∙ (rw e at h))
]

find_entry-first :
    (key : Str) (entry : DotenvLayout) (rest : List DotenvLayout)
    → (entry.key == key) ≡ true
    → find_entry key (entry ∷ rest) ≡ some entry
unfolding find_entry find?
find_entry-first key entry rest h = rw h refl

find_entry-push_entry :
    (key : Str) (first : Option DotenvLayout) (rest : List DotenvLayout)
    → ((entry : DotenvLayout) → first ≡ some entry → (entry.key == key) ≡ false)
    → find_entry key (push_entry first rest) ≡ find_entry key rest
unfolding find_entry find?
find_entry-push_entry key none rest h = refl
find_entry-push_entry key (some entry) rest h = rw (h entry refl) refl

-- A merged key of the local side gets the local layout entry.
find_entry-layout_entries :
    (key : Str) (m : Merged) (local remote : SourceDocument) (node : Node) (entry : DotenvLayout)
    → get key m ≡ some (node, local_side)
    → find_entry key local.layout.dotenv ≡ some entry
    → find_entry key (layout_entries m local remote) ≡ some entry
unfolding layout_entries get
find_entry-layout_entries key [] local remote node entry h f = cc
find_entry-layout_entries key ((k, (n, side)) ∷ m) local remote node entry h f =
    elim (Bool-cases (k == key)) [
      | inl same ↦
          let value : (n, side) ≡ (node, local_side) =
            some_injective (n, side) (node, local_side) (rw same at h) in
          let local_wins : side ≡ local_side = ap (λ (v : Node × Side). v.1) value in
          let eq : k ≡ key = (eq_iff k key).0 same in
          rw (local_wins, eq, f)
            (find_entry-first key entry (layout_entries m local remote)
              (find_entry-key key local.layout.dotenv entry f))
      | inr other ↦
          find_entry-push_entry key _ (layout_entries m local remote) (λ e found.
            other_key e
              (or_entry-key k (primary side local remote).layout.dotenv
                (secondary side local remote).layout.dotenv e found)
              other)
          ∙ find_entry-layout_entries key m local remote node entry (rw other at h) f
    ]
  where
    other_key :
        (e : DotenvLayout) → (e.key == k) ≡ true → (k == key) ≡ false → (e.key == key) ≡ false
    other_key e same other = rw ((eq_iff e.key k).0 same) other

pub KeepsEntry-find_entry :
    (key : Str) (m : Merged) (local remote : SourceDocument) (node : Node) (o : Option DotenvLayout)
    → get key m ≡ some (node, local_side)
    → find_entry key local.layout.dotenv ≡ o
    → KeepsEntry o (find_entry key (layout_entries m local remote))
KeepsEntry-find_entry key m local remote node none h f = tt
KeepsEntry-find_entry key m local remote node (some entry) h f =
    find_entry-layout_entries key m local remote node entry h f

-- The view of a key of a mapping has the layout entry of the key.
pub unit_view-entry :
    (document : SourceDocument) (fs : Fields) (key : Str) (l : UnitView)
    → document.root ≡ mapping fs
    → unit_view document key ≡ some l
    → find_entry key document.layout.dotenv ≡ l.entry
unfolding unit_view
unit_view-entry document fs key l e h = at_node (get key (entries fs)) l (rw (unit_view, e) at h)
  where
    at_node :
        (node : Option Node) (l : UnitView)
        → view_at document key node ≡ some l
        → find_entry key document.layout.dotenv ≡ l.entry
    at_node none l h = cc
    at_node (some node) l h =
        ap (λ (v : UnitView). v.entry) (some_injective (key_view document key node) l h)
