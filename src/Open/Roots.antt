-- ===== src/Open/Roots.antt =====
-- src/open/plan.rs: `merge_whole_document` where the local root is not a mapping.
use gitveil.Base.{
  true, false, List, [], ◌∷◌, ◌≡◌, ◌≢◌, refl, ap, sym, ◌==◌, Option, none, some, nat_eq, list_eq,
  option_eq, eq_refl, inl, inr, Bool-cases,
}
use gitveil.Config.{format_eq}
use gitveil.Source.Node.{Node, mapping, sequence, scalar, tagged}
use gitveil.Source.Node.Equality.{node_eq}
use gitveil.Source.Layout.{layout_eq}
use gitveil.Source.Document.{SourceDocument, semantic_eq}
use gitveil.Resolve.{Generator}
use gitveil.Baseline.{Digests, UnitView, view_eq, root_unit, root_view, unit_view}
use gitveil.Baseline.Record.{BaselineRecord}
use gitveil.Open.{
  OpenConflict, key_conflict, Arbitration, take_remote, keep_local, conflict, arbitrate,
}
use gitveil.Open.Keeping.{IsSynchronised, finish-document, arbitrate-take_remote}
use gitveil.Open.Plan.{whole, merge_sides, merge_whole_document, finish, plan_open, is_mapping}

abbrev whole_view : SourceDocument → Node → Option UnitView
whole_view document node =
    some (record { node = node; entry = none; layout = some document.layout })

unit_view-root_unit :
    (document : SourceDocument)
    → is_mapping document.root ≡ false
    → unit_view document root_unit ≡ some (root_view document)
unfolding unit_view
unit_view-root_unit document h = of_root document.root refl h
  where
    of_root :
        (node : Node)
        → document.root ≡ node
        → is_mapping node ≡ false
        → unit_view document root_unit ≡ some (root_view document)
    of_root (mapping fs) e h = cc
    of_root (sequence vs) e h = rw (unit_view, e, eq_refl root_unit) (ap (whole_view document) e)
    of_root (scalar s) e h = rw (unit_view, e, eq_refl root_unit) (ap (whole_view document) e)
    of_root (tagged t v) e h = rw (unit_view, e, eq_refl root_unit) (ap (whole_view document) e)

semantic_eq_refl : (document : SourceDocument) → semantic_eq document document ≡ true
unfolding semantic_eq
semantic_eq_refl document =
    rw (eq_refl document.format, eq_refl document.root, eq_refl document.layout) refl

-- A merge that is the local document is not written.
finish-local :
    (generate : Generator) (local planned : SourceDocument) (conflicts : List OpenConflict)
    → (finish generate local (local, conflicts)).document ≢ some planned
unfolding finish
finish-local generate local planned conflicts h = cc (rw (finish, semantic_eq_refl local) at h)

-- Of the three arbitrations only one is written.
finish-whole :
    (generate : Generator) (local remote planned : SourceDocument) (a : Arbitration)
    → (finish generate local (whole local remote a)).document ≡ some planned
    → (planned ≡ remote) × (a ≡ take_remote)
finish-whole generate local remote planned take_remote h =
    (sym (finish-document generate local remote planned [] h), refl)
finish-whole generate local remote planned keep_local h =
    absurd (finish-local generate local planned [] h)
finish-whole generate local remote planned conflict h =
    absurd (finish-local generate local planned (key_conflict root_unit ∷ []) h)

merge_sides-whole :
    (crates : Digests) (local remote : SourceDocument) (baseline : Option BaselineRecord)
    → is_mapping local.root ≡ false
    → merge_sides crates local remote baseline ≡ merge_whole_document crates local remote baseline
unfolding merge_sides
merge_sides-whole crates local remote baseline h = rw (merge_sides, h) refl

-- Where the root of the local document is not a mapping, an open plans to write only the whole
-- remote document, whatever its root, and only if there is a record that has the digest of the
-- whole local document.
pub plan_open-IsSynchronised :
    (crates : Digests) (generate : Generator) (local remote planned : SourceDocument)
    (baseline : Option BaselineRecord)
    → is_mapping local.root ≡ false
    → (plan_open crates generate (some local) remote baseline).document ≡ some planned
    → (planned ≡ remote) × IsSynchronised crates baseline root_unit (root_view local)
unfolding plan_open merge_whole_document
plan_open-IsSynchronised crates generate local remote planned baseline lm h =
    let here = unit_view-root_unit local lm in
    let there = unit_view remote root_unit in
    elim (Bool-cases (some (root_view local) == there)) [
      | inl same ↦ absurd (
          finish-local generate local planned [] (
            rw
              (
                plan_open,
                merge_sides-whole crates local remote baseline lm,
                merge_whole_document,
                here,
                same,
              )
              at h))
      | inr other ↦
          let (replaced, taken) =
            finish-whole generate local remote planned
              (arbitrate crates baseline root_unit (some (root_view local)) there)
              (rw
                (
                  plan_open,
                  merge_sides-whole crates local remote baseline lm,
                  merge_whole_document,
                  here,
                  other,
                )
                at h) in
          (replaced, arbitrate-take_remote crates baseline root_unit (root_view local) there taken)
    ]
