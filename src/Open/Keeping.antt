-- ===== src/Open/Keeping.antt =====
-- src/open/plan.rs: what an open may replace.
use gitveil.Base.{
  ℕ, Bool, true, false, ◌≡◌, ◌≢◌, refl, sym, ap, ◌∙◌, subst, ◌⊎◌, inl, inr, List, [], ◌∷◌, ◌==◌,
  arith, Option, none, some, Str, IsUnique, get, nat_eq, list_eq, option_eq, Bool-cases,
  some_injective, is_ok,
}
use gitveil.Source.Node.{Node, mapping, sequence, scalar, tagged, Fields, entries-of_entries}
use gitveil.Source.Layout.Dotenv.{find_entry}
use gitveil.Source.Document.{SourceDocument, semantic_eq}
use gitveil.Resolve.{Generator}
use gitveil.Baseline.{
  Digests, UnitView, view_eq, key_view, view_at, unit_view, unit_keys, unit_bytes,
}
use gitveil.Baseline.Framing.{IsSized, Collision}
use gitveil.Baseline.Record.{CipherSummary, BaselineRecord, unit_matches, capture}
use gitveil.Baseline.Trust.{Reliable, AreBytes, SameView, FitsMemory, unit_matches-capture}
use gitveil.Open.{
  OpenConflict, Side, local_side, Arbitration, take_remote, keep_local, conflict, by_matches,
  arbitrate, Merged, mapping_keys, merge_units,
}
use gitveil.Open.Units.{outcome, both_value, local_value, get-merge_units}
use gitveil.Open.Plan.{
  assemble_layout, merged_nodes, merge_documents, merge_sides, finish, plan_open, is_mapping,
}
use gitveil.Open.Entries.{KeepsEntry, KeepsEntry-find_entry, unit_view-entry}

by_matches-take_remote :
    (l : UnitView) (r : Option UnitView) (m n : Option Bool)
    → by_matches (some l) r m n ≡ take_remote
    → m ≡ some true
by_matches-take_remote l none none none h = cc
by_matches-take_remote l (some r) none none h = cc
by_matches-take_remote l r none (some true) h = cc
by_matches-take_remote l r none (some false) h = cc
by_matches-take_remote l r (some true) n h = refl
by_matches-take_remote l r (some false) none h = cc
by_matches-take_remote l r (some false) (some true) h = cc
by_matches-take_remote l r (some false) (some false) h = cc

-- The local unit is the one that the record has.
abbrev pub IsSynchronised : Digests → Option BaselineRecord → Str → UnitView → Type 0
IsSynchronised crates baseline key view =
    (recorded : BaselineRecord) × (baseline ≡ some recorded)
    × (unit_matches crates recorded key (some view) ≡ some true)

pub arbitrate-take_remote :
    (crates : Digests) (baseline : Option BaselineRecord) (key : Str) (l : UnitView)
    (r : Option UnitView)
    → arbitrate crates baseline key (some l) r ≡ take_remote
    → IsSynchronised crates baseline key l
unfolding arbitrate
arbitrate-take_remote crates none key l none h = cc
arbitrate-take_remote crates none key l (some r) h = cc
arbitrate-take_remote crates (some baseline) key l r h = (
  baseline,
  refl,
  by_matches-take_remote l r (unit_matches crates baseline key (some l))
      (unit_matches crates baseline key r) h,
)

-- Every arbitration but one keeps the local side.
takes_remote : (a : Arbitration) → (a ≡ take_remote) ⊎ (a ≢ take_remote)
takes_remote take_remote = inl refl
takes_remote keep_local = inr (λ h. cc)
takes_remote conflict = inr (λ h. cc)

both_value-kept :
    (l r : UnitView) (a : Arbitration) → a ≢ take_remote → both_value l r a ≡ (l.node, local_side)
both_value-kept l r take_remote h = absurd (h refl)
both_value-kept l r keep_local h = refl
both_value-kept l r conflict h = refl

local_value-kept :
    (l : UnitView) (a : Arbitration) → a ≢ take_remote → local_value l a ≡ some (l.node, local_side)
local_value-kept l take_remote h = absurd (h refl)
local_value-kept l keep_local h = refl
local_value-kept l conflict h = refl

outcome-kept :
    (crates : Digests) (baseline : Option BaselineRecord) (key : Str) (l : UnitView)
    (r : Option UnitView)
    → arbitrate crates baseline key (some l) r ≢ take_remote
    → outcome crates baseline key (some l) r ≡ some (l.node, local_side)
unfolding outcome
outcome-kept crates baseline key l none h =
    local_value-kept l (arbitrate crates baseline key (some l) none) h
outcome-kept crates baseline key l (some r) h = elim (Bool-cases (l == r)) [
  | inl same ↦ rw same refl
  | inr other ↦
      rw other (ap some (both_value-kept l r (arbitrate crates baseline key (some l) (some r)) h))
]

-- A local unit stays with its value, or was synchronised.
outcome-local :
    (crates : Digests) (baseline : Option BaselineRecord) (key : Str) (l : UnitView)
    (r : Option UnitView)
    → (outcome crates baseline key (some l) r ≡ some (l.node, local_side))
      ⊎ IsSynchronised crates baseline key l
outcome-local crates baseline key l r =
    elim (takes_remote (arbitrate crates baseline key (some l) r)) [
      | inl taken ↦ inr (arbitrate-take_remote crates baseline key l r taken)
      | inr kept ↦ inl (outcome-kept crates baseline key l r kept)
    ]

get-merged_nodes :
    (key : Str) (m : Merged) (node : Node) (side : Side)
    → get key m ≡ some (node, side)
    → get key (merged_nodes m) ≡ some node
unfolding get merged_nodes
get-merged_nodes key [] node side h = cc
get-merged_nodes key ((k, (n, s)) ∷ m) node side h = elim (Bool-cases (k == key)) [
  | inl same ↦ rw same (ground (arith, (rw same at h)))
  | inr other ↦ rw other (get-merged_nodes key m node side (rw other at h))
]

-- The document has the unit, with its node and its layout entry.
abbrev pub HasUnit : SourceDocument → Str → UnitView → Type 0
HasUnit document key unit =
    (view : UnitView) × (unit_view document key ≡ some view)
    × (view.node ≡ unit.node)
    × KeepsEntry unit.entry view.entry

view_at-HasUnit :
    (document : SourceDocument) (key : Str) (unit : UnitView) (found : Option Node)
    → unit_view document key ≡ view_at document key found
    → found ≡ some unit.node
    → KeepsEntry unit.entry (find_entry key document.layout.dotenv)
    → HasUnit document key unit
view_at-HasUnit document key unit none h g k = cc
view_at-HasUnit document key unit (some other) h g k = (key_view document key other, h, cc, k)

merge_documents-HasUnit :
    (crates : Digests) (local remote : SourceDocument) (baseline : Option BaselineRecord)
    (fs : Fields) (key : Str) (l : UnitView)
    → local.root ≡ mapping fs
    → unit_view local key ≡ some l
    → get key (merge_units crates local remote baseline).merged ≡ some (l.node, local_side)
    → HasUnit (merge_documents crates local remote baseline).0 key l
unfolding merge_documents unit_view assemble_layout
merge_documents-HasUnit crates local remote baseline fs key l e has h =
    let merged = (merge_units crates local remote baseline).merged in
    view_at-HasUnit (merge_documents crates local remote baseline).0 key l
      (get key (merged_nodes merged)) (rw (entries-of_entries (merged_nodes merged)) refl)
      (get-merged_nodes key merged l.node local_side h)
      (KeepsEntry-find_entry key merged local remote l.node l.entry h
        (unit_view-entry local fs key l e has))

pub finish-document :
    (generate : Generator) (local document planned : SourceDocument) (conflicts : List OpenConflict)
    → (finish generate local (document, conflicts)).document ≡ some planned
    → document ≡ planned
unfolding finish
finish-document generate local document planned conflicts h =
    elim (Bool-cases (semantic_eq document local)) [
      | inl same ↦ absurd (ground (arith, (rw (finish, same) at h)))
      | inr other ↦ elim (Bool-cases (is_ok (generate document))) [
        | inl good ↦ ground (arith, (rw (finish, other, good) at h))
        | inr bad ↦ absurd (ground (arith, (rw (finish, other, bad) at h)))
      ]
    ]

is_mapping-root : (node : Node) → is_mapping node ≡ true → (fs : Fields) × (node ≡ mapping fs)
is_mapping-root (mapping fs) h = (fs, refl)
is_mapping-root (sequence vs) h = cc
is_mapping-root (scalar s) h = cc
is_mapping-root (tagged t v) h = cc

-- Where both roots are mappings and the remote keys are distinct, a unit of the local document
-- has its value and, if it has one, its layout entry in a planned document, whatever the remote
-- document says, unless the record has the digest of the local unit: between mappings an open
-- never overwrites or deletes a unit that it has not recorded.
pub plan_open-HasUnit :
    (crates : Digests) (generate : Generator) (local remote planned : SourceDocument)
    (baseline : Option BaselineRecord) (key : Str) (l : UnitView)
    → is_mapping local.root ≡ true
    → is_mapping remote.root ≡ true
    → IsUnique (mapping_keys remote)
    → (plan_open crates generate (some local) remote baseline).document ≡ some planned
    → unit_view local key ≡ some l
    → HasUnit planned key l ⊎ IsSynchronised crates baseline key l
unfolding plan_open merge_sides
plan_open-HasUnit crates generate local remote planned baseline key l lm rm unique h has =
    let (fs, e) = is_mapping-root local.root lm in
    let (gs, f) = is_mapping-root remote.root rm in
    let merge = merge_documents crates local remote baseline in
    let same : merge.0 ≡ planned =
      finish-document generate local merge.0 planned merge.1
        (rw (plan_open, merge_sides, lm, rm) at h) in
    elim (outcome-local crates baseline key l (unit_view remote key)) [
      | inl kept ↦ inl (
          subst (λ d. HasUnit d key l) same
            (merge_documents-HasUnit crates local remote baseline fs key l e has
              (get-merge_units crates baseline local remote fs gs key e f unique ∙ rw has kept)))
      | inr synchronised ↦ inr synchronised
    ]

-- With reliable crates and the conditions under which digests tell units apart: where the roots of
-- both documents are mappings, the remote keys are distinct and the record was captured from an
-- earlier document, an open that plans a document keeps the value and any layout entry of each
-- local unit, or the unit is still that of the earlier document (in JSON), or two inputs have the
-- same SHA-256.
pub plan_open-capture :
    (crates : Digests)
    → Reliable crates
    → (generate : Generator) (earlier local remote planned : SourceDocument)
      (cipher : CipherSummary) (salt : List ℕ) (key : Str) (l : UnitView)
    → is_mapping local.root ≡ true
    → is_mapping remote.root ≡ true
    → IsUnique (mapping_keys remote)
    → IsUnique (unit_keys earlier)
    → AreBytes salt
    → IsSized salt
    → IsSized (crates.as_bytes key)
    → IsSized (unit_bytes crates l)
    → FitsMemory crates earlier key
    → (plan_open crates generate
        (some local)
        remote
        (some (capture crates earlier cipher salt))).document
      ≡ some planned
    → unit_view local key ≡ some l
    → HasUnit planned key l
      ⊎ (((original : UnitView) × (unit_view earlier key ≡ some original)
            × SameView crates original l)
          ⊎ Collision crates)
plan_open-capture crates reliable generate earlier local remote planned cipher salt key l lm rm
      unique unique_earlier bytes s k v fits h has =
    elim (plan_open-HasUnit crates generate local remote planned
      (some (capture crates earlier cipher salt)) key l lm rm unique h has) [
        | inl kept ↦ inl kept
        | inr (recorded, same, matching) ↦ inr (
            unit_matches-capture crates reliable earlier cipher salt key l unique_earlier bytes s k
              v fits
              (subst (λ b. unit_matches crates b key (some l) ≡ some true)
                (some_injective recorded (capture crates earlier cipher salt) (sym same)) matching))
      ]
