-- ===== src/Open/Command.antt =====
-- src/open.rs: the opening of one entry. What precedes the first write is `prepare`.
use gitveil.Base.{
  ℕ, not, List, [], ◌∷◌, Option, none, some, Outcome, ok, err, ◌>>=◌, ◌>>◌, fail_if, ok_or, map_err,
  nat_eq, list_eq,
}
use gitveil.ManagedPath.{ManagedPath}
use gitveil.Manifest.{ciphertext_path}
use gitveil.Source.Document.{SourceDocument, SourceError, conflict_markers, semantic_eq}
use gitveil.Source.Formats.{parse as parse_source, generate}
use gitveil.Envelope.Ciphertext.{CiphertextEnvelope}
use gitveil.Baseline.Record.{BaselineRecord, capture, from_envelope}
use gitveil.Open.{OpenConflict, OpenPlan}
use gitveil.Open.Plan.{plan_open}
use gitveil.Workflow.{
  ErrorCategory, Tools, World, ResolvedManifestEntry, update, fail_with, read, write,
  decrypt_source, Effect, finish_with,
}
use gitveil.Seal.Command.{traverse, has_markers, open_envelope}

pub data OpenOutcome : Type 0 where
  opened up_to_date : OpenOutcome
  conflicts : List OpenConflict → OpenOutcome

-- The category of an error of the local file.
abbrev pub local_category : SourceError → ErrorCategory
local_category (conflict_markers format) = ErrorCategory.conflict
local_category _ = ErrorCategory.source

abbrev pub load : World → ManagedPath → Option BaselineRecord
load world place = elim world.baselines [ none ↦ none | some store ↦ store place ]

-- The plan, with what it was made of.
pub record Prepared : Type 0 where
  pub envelope : CiphertextEnvelope
  pub local : Option SourceDocument
  pub plan : OpenPlan

unfoldable pub prepare : Tools → World → ResolvedManifestEntry → Outcome ErrorCategory Prepared
unfolding read ciphertext_path open_envelope decrypt_source parse_source generate plan_open
prepare tools world resolved = do
  content ← read tools world (ciphertext_path resolved.entry)
  bytes ← ok_or content ErrorCategory.configuration
  fail_if (has_markers tools (some bytes)) ErrorCategory.conflict
  envelope ← open_envelope tools resolved.entry.format bytes
  remote ← decrypt_source tools bytes resolved
  existing ← read tools world resolved.entry.path
  local ←
      traverse
        (λ text. map_err local_category (parse_source tools.adapters resolved.entry.format text))
        existing
  ok (record {
    envelope = envelope;
    local = local;
    plan =
        plan_open tools.digests (generate tools.adapters) local remote
          (load world resolved.entry.path);
  })

-- The bytes of a planned document, and the document that they are read back to.
unfoldable pub rendered :
    Tools → ResolvedManifestEntry → SourceDocument → Outcome ErrorCategory (List ℕ × SourceDocument)
unfolding generate parse_source semantic_eq
rendered tools resolved document = do
  text ← map_err (λ _. ErrorCategory.source) (generate tools.adapters document)
  written ←
      map_err (λ _. ErrorCategory.integrity)
        (parse_source tools.adapters resolved.entry.format (tools.codecs.as_bytes text))
  fail_if (not (semantic_eq written document)) ErrorCategory.integrity
  ok (tools.codecs.as_bytes text, written)

-- The files after the plan, and the document that the plaintext file holds.
pub record Opened : Type 0 where
  pub world : World
  pub final_document : Option SourceDocument

unfoldable pub write_plan :
    Tools → World → ResolvedManifestEntry → Option SourceDocument → Outcome ErrorCategory Opened
unfolding rendered write
write_plan tools world resolved none = ok (record { world = world; final_document = none })
write_plan tools world resolved (some document) = do
  (bytes, written) ← rendered tools resolved document
  next ← write tools world resolved.entry.path bytes
  ok (record { world = next; final_document = some written })

-- `record_baseline`
unfoldable pub record_baseline :
    Tools
    → World
    → (ManagedPath → Option BaselineRecord)
    → ResolvedManifestEntry
    → SourceDocument
    → CiphertextEnvelope
    → Outcome ErrorCategory World
unfolding capture from_envelope
record_baseline tools world store resolved document envelope =
    let baseline = capture tools.digests document (from_envelope envelope) tools.fresh_salt in
    (do
      done ← fail_with (tools.save_error resolved.entry.path baseline)
      ok (record world { baselines = some (update store resolved.entry.path baseline) }))

-- The document that both sides have now.
abbrev pub synced : Option SourceDocument → Option SourceDocument → Option SourceDocument
synced (some document) local = some document
synced none local = local

unfoldable pub record_synced :
    Tools
    → World
    → ResolvedManifestEntry
    → CiphertextEnvelope
    → Option SourceDocument
    → Outcome ErrorCategory World
unfolding record_baseline
record_synced tools world resolved envelope document = elim world.baselines [
  | none ↦ ok world
  | some store ↦ elim document [
    | none ↦ ok world
    | some known ↦ record_baseline tools world store resolved known envelope
  ]
]

abbrev pub outcome_of : Option SourceDocument → OpenOutcome
outcome_of none = up_to_date
outcome_of (some document) = opened

-- The conflicts of the plan, or the record of the synchronised state.
abbrev pub conclude :
    Tools → ResolvedManifestEntry → Prepared → Opened → List OpenConflict → Effect OpenOutcome
conclude tools resolved prepared result [] =
    finish_with (outcome_of result.final_document) result.world (
      record_synced tools result.world resolved prepared.envelope
        (synced result.final_document prepared.local))
conclude tools resolved prepared result (c ∷ rest) = (ok (conflicts (c ∷ rest)), result.world)

-- What follows the write.
abbrev pub after_write :
    Tools
    → World
    → ResolvedManifestEntry
    → Prepared
    → Outcome ErrorCategory Opened
    → Effect OpenOutcome
after_write tools world resolved prepared (err e) = (err e, world)
after_write tools world resolved prepared (ok result) =
    conclude tools resolved prepared result prepared.plan.conflicts

abbrev pub perform :
    Tools → World → ResolvedManifestEntry → Outcome ErrorCategory Prepared → Effect OpenOutcome
perform tools world resolved (err e) = (err e, world)
perform tools world resolved (ok prepared) =
    after_write tools world resolved prepared
      (write_plan tools world resolved prepared.plan.document)

unfoldable pub open_entry : Tools → World → ResolvedManifestEntry → Effect OpenOutcome
unfolding prepare write_plan record_synced
open_entry tools world resolved = perform tools world resolved (prepare tools world resolved)
