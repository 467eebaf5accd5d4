-- ===== src/Recipients.antt =====
-- src/recipients.rs: the types of `gitveil recipient add` and `gitveil recipient remove`, and the
-- convergence of one ciphertext. The command is in Recipients/Command.
pub mod Command
pub mod Converged
pub mod Order
pub mod Kept
pub mod Engine
use gitveil.Base
use gitveil.Base.{
  ℕ, Bool, not, ◌&&◌, List, ◌==◌, Option, none, some, same_map, Outcome, ok, err, fail_if, map_err,
  nat_eq, list_eq,
}
use gitveil.ManagedPath.{ManagedPath}
use gitveil.Recipient.{AgeRecipient, AgeRecipientPolicy, PolicyName, matches, new_policy}
use gitveil.Authorization.{
  ConvergenceAction, already_aligned, rewrap, rotate, PolicyDelta, FilePlan,
}
use gitveil.Manifest.{ManifestEntry, ciphertext_path}
use gitveil.Source.Document.{SourceDocument, semantic_eq}
use gitveil.Envelope.Ciphertext.{CiphertextEnvelope}
use gitveil.Baseline.Record.{capture, from_envelope}
use gitveil.Workflow.{ErrorCategory, Tools, ResolvedManifestEntry, decrypt_source}
use gitveil.Script.{Script, done, ask, pure, ◌>>=◌, ◌>>◌, validate, stage, persist, save}
use gitveil.Publishing.{Setting, default_mode}
use gitveil.Seal.Command.{parse_ciphertext, desired_envelope}

pub data RecipientFileOutcome : Type 0 where
  rewrapped data_key_rotated no_change_needed : RecipientFileOutcome

pub record FileConvergence : Type 0 where
  pub outcome : RecipientFileOutcome
  pub pending_additions : List AgeRecipient
  pub pending_removals : List AgeRecipient

pub record RecipientFileReport : Type 0 where
  pub path : ManagedPath
  pub result : Outcome ErrorCategory FileConvergence

pub data ManifestDisposition : Type 0 where
  unchanged published withheld : ManifestDisposition

pub record AuthorizationOutcome : Type 0 where
  pub policy : PolicyName
  pub deltas : List PolicyDelta
  pub manifest : ManifestDisposition
  pub reports : List RecipientFileReport

pub data Direction : Type 0 where
  adding removing : Direction

pub record AffectedFile : Type 0 where
  pub entry : ManifestEntry
  pub ciphertext : List ℕ

unfoldable pub verify_target_recipients :
    CiphertextEnvelope → AgeRecipientPolicy → Outcome ErrorCategory (Unit {0})
unfolding matches
verify_target_recipients envelope target =
    fail_if (not (matches target envelope.age_recipients)) ErrorCategory.integrity

abbrev pub same_ciphertexts : CiphertextEnvelope → CiphertextEnvelope → Bool
same_ciphertexts before after =
    same_map before.leaves after.leaves && before.layout_ciphertext == after.layout_ciphertext

unfoldable pub verify_rewrap :
    Tools
    → List ℕ
    → List ℕ
    → ResolvedManifestEntry
    → AgeRecipientPolicy
    → Outcome ErrorCategory (Unit {0})
unfolding verify_target_recipients same_map
verify_rewrap tools before after resolved target =
    Base.◌>>=◌ (parse_ciphertext tools before resolved.entry.format) λ old.
      Base.◌>>=◌ (parse_ciphertext tools after resolved.entry.format) λ new.
        Base.◌>>=◌ (verify_target_recipients new target)
          λ _. fail_if (not (same_ciphertexts old new)) ErrorCategory.integrity

unfoldable pub verify_rotation :
    Tools
    → List ℕ
    → ResolvedManifestEntry
    → AgeRecipientPolicy
    → SourceDocument
    → Outcome ErrorCategory (Unit {0})
unfolding verify_target_recipients decrypt_source semantic_eq
verify_rotation tools rotated resolved target document =
    Base.◌>>=◌ (parse_ciphertext tools rotated resolved.entry.format) λ envelope.
      Base.◌>>=◌ (verify_target_recipients envelope target) λ _.
        Base.◌>>=◌ (decrypt_source tools rotated resolved)
          λ actual. fail_if (not (semantic_eq actual document)) ErrorCategory.integrity

-- A decrypted file, with its plan.
pub record Ready : Type 0 where
  pub ciphertext : List ℕ
  pub plan : FilePlan
  pub resolved : ResolvedManifestEntry
  pub document : SourceDocument

-- The new ciphertext, if one is needed.
unfoldable pub converged :
    Setting
    → Ready
    → AgeRecipientPolicy
    → ConvergenceAction
    → Outcome ErrorCategory (Option (List ℕ × RecipientFileOutcome))
unfolding verify_rewrap verify_rotation desired_envelope
converged setting ready target already_aligned = ok none
converged setting ready target rewrap =
    Base.◌>>=◌ (setting.sops_rewrap ready.ciphertext target) λ bytes.
      Base.◌>>=◌ (verify_rewrap setting.tools ready.ciphertext bytes ready.resolved target)
        λ _. ok (some (bytes, rewrapped))
converged setting ready target rotate =
    Base.◌>>=◌ (desired_envelope setting.tools ready.document) λ desired.
      Base.◌>>=◌ (setting.tools.sops_encrypt_new desired ready.resolved.entry.path target) λ bytes.
        Base.◌>>=◌ (verify_rotation setting.tools bytes ready.resolved target ready.document)
          λ _. ok (some (bytes, data_key_rotated))

-- `write_ciphertext_file` of src/workspace.rs
unfoldable pub write_ciphertext_file : ManagedPath → List ℕ → Script (Unit {0})
write_ciphertext_file place bytes = do
  ask (validate place)
  ask (stage place bytes default_mode)
  ask (persist place bytes default_mode)

unfoldable pub commit :
    Setting → Ready → Option (List ℕ × RecipientFileOutcome) → Script RecipientFileOutcome
unfolding write_ciphertext_file ciphertext_path capture from_envelope
commit setting ready none = pure no_change_needed
commit setting ready (some (bytes, outcome)) = do
  write_ciphertext_file (ciphertext_path ready.resolved.entry) bytes
  envelope ← done (parse_ciphertext setting.tools bytes ready.resolved.entry.format)
  ask (
      save ready.resolved.entry.path (
        capture setting.tools.digests ready.document (from_envelope envelope)
          setting.tools.fresh_salt))
  pure outcome

unfoldable pub converge_file : Setting → PolicyName → Ready → Script RecipientFileOutcome
unfolding converged commit new_policy
converge_file setting policy_name ready = do
  target ←
      done (
        map_err (λ _. ErrorCategory.integrity)
          (new_policy policy_name ready.plan.target_recipients))
  made ← done (converged setting ready target ready.plan.action)
  commit setting ready made
