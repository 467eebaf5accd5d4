-- ===== src/Open/Written.antt =====
-- src/open.rs: the files after the opening of one entry.
use gitveil.Base.{
  ℕ, not, ◌≡◌, ◌≢◌, refl, sym, ap, ◌∙◌, subst, ◌⊎◌, inl, inr, List, [], ◌∷◌, Option, none, some,
  Outcome, ok, err, fail_if, map_err, >>=-eq-ok, fail_if-not, map_err-ok, ok-eq, Option-cases,
  nat_eq, list_eq,
}
use gitveil.ManagedPath.{ManagedPath}
use gitveil.Source.Document.{SourceDocument, semantic_eq}
use gitveil.Source.Formats.{parse as parse_source, generate}
use gitveil.Baseline.Record.{BaselineRecord, capture, from_envelope}
use gitveil.Envelope.Ciphertext.{CiphertextEnvelope}
use gitveil.Seal.{semantic_eq_iff}
use gitveil.Open.{OpenConflict}
use gitveil.Workflow.{
  ErrorCategory, Tools, World, ResolvedManifestEntry, Effect, update, fail_with, write,
}
use gitveil.Workflow.Files.{update-same, update-other, finish_with-files, write-files}
use gitveil.Open.Command.{
  OpenOutcome, Prepared, prepare, rendered, Opened, write_plan, record_baseline, synced,
  record_synced, outcome_of, conclude, after_write, perform, open_entry,
}

-- The bytes are read back to the document.
abbrev pub ReadsBack : Tools → ResolvedManifestEntry → SourceDocument → List ℕ → Type 0
ReadsBack tools resolved document bytes =
    parse_source tools.adapters resolved.entry.format bytes ≡ ok document

rendered-ReadsBack :
    (tools : Tools) (resolved : ResolvedManifestEntry) (document written : SourceDocument)
    (bytes : List ℕ)
    → rendered tools resolved document ≡ ok (bytes, written)
    → (written ≡ document) × ReadsBack tools resolved document bytes
unfolding rendered
rendered-ReadsBack tools resolved document written bytes h =
    let (text, generated, h1) =
      >>=-eq-ok (map_err (λ _. ErrorCategory.source) (generate tools.adapters document)) _ h in
    let output = tools.codecs.as_bytes text in
    let (back, parsed, h2) =
      >>=-eq-ok
        (map_err (λ _. ErrorCategory.integrity)
          (parse_source tools.adapters resolved.entry.format output))
        _ h1 in
    let (_, same, h3) =
      >>=-eq-ok (fail_if (not (semantic_eq back document)) ErrorCategory.integrity)
        (λ _. ok (output, back)) h2 in
    let equal : back ≡ document =
      (semantic_eq_iff back document).0
        (fail_if-not (semantic_eq back document) ErrorCategory.integrity same) in
    subst
      (λ (result : List ℕ × SourceDocument).
        (result.1 ≡ document) × ReadsBack tools resolved document result.0)
      (ok-eq (output, back) (bytes, written) h3)
      (
        equal,
        map_err-ok (λ _. ErrorCategory.integrity)
              (parse_source tools.adapters resolved.entry.format output) parsed
            ∙ ap ok equal,
      )

-- The planned document, if there is one, has been written as bytes that are read back to it.
abbrev Writes : Tools → World → ResolvedManifestEntry → Option SourceDocument → Opened → Type 0
Writes tools world resolved none result = (result.world ≡ world) × (result.final_document ≡ none)
Writes tools world resolved (some document) result =
    (bytes : List ℕ) × (result.world.files ≡ update world.files resolved.entry.path bytes)
    × ReadsBack tools resolved document bytes

write_plan-Writes :
    (tools : Tools) (world : World) (resolved : ResolvedManifestEntry)
    (planned : Option SourceDocument) (result : Opened)
    → write_plan tools world resolved planned ≡ ok result
    → Writes tools world resolved planned result
unfolding write_plan
write_plan-Writes tools world resolved none result h =
    subst (Writes tools world resolved none)
      (ok-eq (record { world = world; final_document = none }) result h) (refl, refl)
write_plan-Writes tools world resolved (some document) result h =
    let ((bytes, written), shown, h1) = >>=-eq-ok (rendered tools resolved document) _ h in
    let (next, stored, h2) =
      >>=-eq-ok (write tools world resolved.entry.path bytes)
        (λ next. ok (record { world = next; final_document = some written })) h1 in
    subst (Writes tools world resolved (some document))
      (ok-eq (record { world = next; final_document = some written }) result h2)
      (
        bytes,
        write-files tools world next resolved.entry.path bytes stored,
        (rendered-ReadsBack tools resolved document written bytes shown).1,
      )

record_baseline-files :
    (tools : Tools) (world next : World) (store : ManagedPath → Option BaselineRecord)
    (resolved : ResolvedManifestEntry) (document : SourceDocument) (envelope : CiphertextEnvelope)
    → record_baseline tools world store resolved document envelope ≡ ok next
    → next.files ≡ world.files
unfolding record_baseline
record_baseline-files tools world next store resolved document envelope h =
    let baseline = capture tools.digests document (from_envelope envelope) tools.fresh_salt in
    let (_, saved, h1) =
      >>=-eq-ok (fail_with (tools.save_error resolved.entry.path baseline))
        (λ _. ok (record world { baselines = some (update store resolved.entry.path baseline) }))
        h in
    ap (λ (w : World). w.files) (sym (ok-eq _ next h1))

record_synced-files :
    (tools : Tools) (world next : World) (resolved : ResolvedManifestEntry)
    (envelope : CiphertextEnvelope) (document : Option SourceDocument)
    → record_synced tools world resolved envelope document ≡ ok next
    → next.files ≡ world.files
unfolding record_synced
record_synced-files tools world next resolved envelope none h =
    elim (Option-cases world.baselines) [
      | inl absent ↦
          ap (λ (w : World). w.files) (sym (ok-eq world next (rw (record_synced, absent) at h)))
      | inr (store, present) ↦
          ap (λ (w : World). w.files) (sym (ok-eq world next (rw (record_synced, present) at h)))
    ]
record_synced-files tools world next resolved envelope (some document) h =
    elim (Option-cases world.baselines) [
      | inl absent ↦
          ap (λ (w : World). w.files) (sym (ok-eq world next (rw (record_synced, absent) at h)))
      | inr (store, present) ↦
          record_baseline-files tools world next store resolved document envelope
            (rw (record_synced, present) at h)
    ]

conclude-files :
    (tools : Tools) (resolved : ResolvedManifestEntry) (prepared : Prepared) (result : Opened)
    (found : List OpenConflict)
    → (conclude tools resolved prepared result found).1.files ≡ result.world.files
conclude-files tools resolved prepared result [] =
    finish_with-files (outcome_of result.final_document) result.world
      (record_synced tools result.world resolved prepared.envelope
        (synced result.final_document prepared.local))
      (λ next h.
        record_synced-files tools result.world next resolved prepared.envelope
          (synced result.final_document prepared.local) h)
conclude-files tools resolved prepared result (c ∷ rest) = refl

-- The plaintext file holds a planned document.
abbrev pub HasOpened : Tools → World → ResolvedManifestEntry → World → Type 0
HasOpened tools world resolved next =
    (prepared : Prepared) × (document : SourceDocument) × (bytes : List ℕ) × (prepare tools world
        resolved
      ≡ ok prepared)
    × (prepared.plan.document ≡ some document)
    × (next.files resolved.entry.path ≡ some bytes)
    × ReadsBack tools resolved document bytes

-- What opening does to the files.
abbrev pub Opens : Tools → World → ResolvedManifestEntry → Effect OpenOutcome → Type 0
Opens tools world resolved effect =
    ((other : ManagedPath) → other ≢ resolved.entry.path → effect.1.files other ≡ world.files other)
    × ((effect.1.files ≡ world.files) ⊎ HasOpened tools world resolved effect.1)

Opens-after_write :
    (tools : Tools) (world : World) (resolved : ResolvedManifestEntry) (prepared : Prepared)
    (planned : Option SourceDocument) (written : Outcome ErrorCategory Opened)
    → prepare tools world resolved ≡ ok prepared
    → prepared.plan.document ≡ planned
    → written ≡ write_plan tools world resolved planned
    → Opens tools world resolved (after_write tools world resolved prepared written)
Opens-after_write tools world resolved prepared planned (err e) made plan same =
    ((λ other h. refl), inl refl)
Opens-after_write tools world resolved prepared none (ok result) made plan same =
    let (kept, _) = write_plan-Writes tools world resolved none result (sym same) in
    let files =
      conclude-files tools resolved prepared result prepared.plan.conflicts
      ∙ ap (λ (w : World). w.files) kept in
    ((λ other h. ap (λ f. f other) files), inl files)
Opens-after_write tools world resolved prepared (some document) (ok result) made plan same =
    let (bytes, stored, back) =
      write_plan-Writes tools world resolved (some document) result (sym same) in
    let files = conclude-files tools resolved prepared result prepared.plan.conflicts ∙ stored in
    (
      (λ other h.
          ap (λ f. f other) files ∙ update-other world.files resolved.entry.path bytes other h),
      inr (
        prepared,
        document,
        bytes,
        made,
        plan,
        (ap (λ f. f resolved.entry.path) files ∙ update-same world.files resolved.entry.path bytes),
        back,
      ),
    )

Opens-perform :
    (tools : Tools) (world : World) (resolved : ResolvedManifestEntry)
    (made : Outcome ErrorCategory Prepared)
    → prepare tools world resolved ≡ made
    → Opens tools world resolved (perform tools world resolved made)
Opens-perform tools world resolved (err e) same = ((λ other h. refl), inl refl)
Opens-perform tools world resolved (ok prepared) same =
    Opens-after_write tools world resolved prepared prepared.plan.document
      (write_plan tools world resolved prepared.plan.document) same refl refl

-- Whatever the tools answer, and also when the command fails half-way: opening an entry changes no
-- file but its plaintext, and leaves there what was there, or bytes that are read back to the
-- document of the plan.
pub open_entry-Opens :
    (tools : Tools) (world : World) (resolved : ResolvedManifestEntry)
    → Opens tools world resolved (open_entry tools world resolved)
unfolding open_entry
open_entry-Opens tools world resolved =
    Opens-perform tools world resolved (prepare tools world resolved) refl
