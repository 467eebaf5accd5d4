-- ===== src/Seal/Command.antt =====
-- src/seal.rs: the sealing of one entry. What precedes the first write is `prepare`; it reads the
-- files and calls SOPS, and changes nothing.
use gitveil.Base.{
  ℕ, Bool, false, not, ◌||◌, ◌==◌, List, [], ◌∷◌, Option, none, some, if◌then◌else◌, Outcome, ok,
  err, ◌>>=◌, ◌>>◌, fail_if, ok_or, map_err, nat_eq, list_eq,
}
use gitveil.Config.{SourceFormat, format_eq}
use gitveil.Recipient.{matches, diff, is_aligned}
use gitveil.Manifest.{ManifestEntry, Manifest, ciphertext_path}
use gitveil.Source.Document.{SourceDocument}
use gitveil.Source.Formats.{parse as parse_source}
use gitveil.Envelope.Ciphertext.{CiphertextEnvelope, parse, detect_format}
use gitveil.Envelope.Decrypted.{from_source, to_yaml}
use gitveil.Baseline.Record.{capture, from_envelope}
use gitveil.Seal.{
  SealAction, preserve_baseline, encrypt_new, edit_existing, plan_seal, result_matches,
  resembles_envelope, ciphertext_has_conflict_markers,
}
use gitveil.Workflow.{
  ErrorCategory, Tools, World, ResolvedManifestEntry, update, fail_with, read, write,
  decrypt_source, Effect, finish_with,
}

pub data SealOutcome : Type 0 where
  sealed unchanged : SealOutcome

-- A step on a file that may be missing.
abbrev pub traverse {ℓ} :
    {A : Type ℓ}
    → (List ℕ → Outcome ErrorCategory A)
    → Option (List ℕ)
    → Outcome ErrorCategory (Option A)
traverse f none = ok none
traverse f (some bytes) = do a ← f bytes; ok (some a)

-- The parser of a ciphertext, with its error.
abbrev pub parse_ciphertext :
    Tools → List ℕ → SourceFormat → Outcome ErrorCategory CiphertextEnvelope
parse_ciphertext tools bytes format =
    map_err (λ _. ErrorCategory.ciphertext) (parse tools.codecs bytes format)

abbrev pub has_markers : Tools → Option (List ℕ) → Bool
has_markers tools none = false
has_markers tools (some bytes) = ciphertext_has_conflict_markers tools.codecs.from_utf8 bytes

-- The envelope of the existing ciphertext.
unfoldable pub open_envelope :
    Tools → SourceFormat → List ℕ → Outcome ErrorCategory CiphertextEnvelope
unfolding detect_format parse
open_envelope tools format bytes = do
  found ← map_err (λ _. ErrorCategory.ciphertext) (detect_format tools.codecs bytes)
  fail_if (not (found == format)) ErrorCategory.configuration
  parse_ciphertext tools bytes format

-- Whether the policy check passes over an entry.
abbrev pub is_other_policy : ResolvedManifestEntry → ManifestEntry → Bool
is_other_policy resolved other =
    other.path == resolved.entry.path
    || not (other.recipient_policy == resolved.recipient_policy.name)

-- The check of one other ciphertext under the policy.
unfoldable pub check_aligned :
    Tools
    → ResolvedManifestEntry
    → SourceFormat
    → Option (List ℕ)
    → Outcome ErrorCategory (Unit {0})
unfolding diff is_aligned parse
check_aligned tools resolved format none = ok tt
check_aligned tools resolved format (some bytes) = do
  envelope ← parse_ciphertext tools bytes format
  fail_if (not (is_aligned (diff resolved.recipient_policy envelope.age_recipients)))
      ErrorCategory.configuration

-- The loop over the entries of the manifest.
unfoldable pub ensure_policy_ciphertexts_aligned :
    Tools → World → ResolvedManifestEntry → List ManifestEntry → Outcome ErrorCategory (Unit {0})
unfolding check_aligned read ciphertext_path
ensure_policy_ciphertexts_aligned tools world resolved [] = ok tt
ensure_policy_ciphertexts_aligned tools world resolved (other ∷ rest) =
    let later = ensure_policy_ciphertexts_aligned tools world resolved rest in
    if is_other_policy resolved other then later else (do
      bytes ← read tools world (ciphertext_path other)
      check_aligned tools resolved other.format bytes
      later)

-- The recipients of the existing ciphertext, or of the others under the policy.
unfoldable pub check_recipients :
    Tools
    → World
    → Manifest
    → ResolvedManifestEntry
    → Option CiphertextEnvelope
    → Outcome ErrorCategory (Unit {0})
unfolding diff is_aligned ensure_policy_ciphertexts_aligned
check_recipients tools world manifest resolved (some envelope) =
    fail_if (not (is_aligned (diff resolved.recipient_policy envelope.age_recipients)))
      ErrorCategory.configuration
check_recipients tools world manifest resolved none =
    ensure_policy_ciphertexts_aligned tools world resolved manifest.entries

unfoldable pub desired_envelope : Tools → SourceDocument → Outcome ErrorCategory (List ℕ)
unfolding to_yaml
desired_envelope tools source =
    map_err (λ _. ErrorCategory.ciphertext) (to_yaml tools.codecs (from_source source))

unfoldable pub verify_recipient_policy :
    CiphertextEnvelope → ResolvedManifestEntry → Outcome ErrorCategory (Unit {0})
unfolding matches
verify_recipient_policy envelope resolved =
    fail_if (not (matches resolved.recipient_policy envelope.age_recipients))
      ErrorCategory.integrity

unfoldable pub verify_result :
    Tools → List ℕ → SourceDocument → ResolvedManifestEntry → Outcome ErrorCategory (Unit {0})
unfolding parse verify_recipient_policy decrypt_source result_matches
verify_result tools bytes desired resolved = do
  envelope ← parse_ciphertext tools bytes resolved.entry.format
  verify_recipient_policy envelope resolved
  actual ← decrypt_source tools bytes resolved
  fail_if (not (result_matches desired actual)) ErrorCategory.integrity

-- What remains to be written: nothing but the baseline, or a new ciphertext.
pub data Prepared : Type 0 where
  preserve replace : SourceDocument → List ℕ → Prepared

-- The arms of the action that write a ciphertext.
unfoldable pub encrypt :
    Tools
    → ResolvedManifestEntry
    → SourceDocument
    → Option (List ℕ)
    → SealAction
    → Outcome ErrorCategory Prepared
unfolding desired_envelope verify_result
encrypt tools resolved desired existing preserve_baseline = do
  bytes ← ok_or existing ErrorCategory.integrity
  ok (preserve desired bytes)
encrypt tools resolved desired existing encrypt_new = do
  envelope ← desired_envelope tools desired
  bytes ← tools.sops_encrypt_new envelope resolved.entry.path resolved.recipient_policy
  verify_result tools bytes desired resolved
  ok (replace desired bytes)
encrypt tools resolved desired existing edit_existing = do
  baseline ← ok_or existing ErrorCategory.integrity
  envelope ← desired_envelope tools desired
  bytes ← tools.sops_edit baseline envelope resolved.entry.path
  verify_result tools bytes desired resolved
  ok (replace desired bytes)

-- The document that the plaintext file holds.
unfoldable pub read_desired :
    Tools → World → ResolvedManifestEntry → Outcome ErrorCategory SourceDocument
unfolding read resembles_envelope parse_source
read_desired tools world resolved = do
  content ← read tools world resolved.entry.path
  plaintext ← ok_or content ErrorCategory.configuration
  fail_if (resembles_envelope plaintext) ErrorCategory.source
  map_err (λ _. ErrorCategory.source) (parse_source tools.adapters resolved.entry.format plaintext)

unfoldable pub prepare :
    Tools → World → Manifest → ResolvedManifestEntry → Outcome ErrorCategory Prepared
unfolding read_desired read ciphertext_path ciphertext_has_conflict_markers open_envelope
    check_recipients decrypt_source plan_seal encrypt
prepare tools world manifest resolved = do
  desired ← read_desired tools world resolved
  existing ← read tools world (ciphertext_path resolved.entry)
  fail_if (has_markers tools existing) ErrorCategory.conflict
  envelope ← traverse (open_envelope tools resolved.entry.format) existing
  check_recipients tools world manifest resolved envelope
  baseline ← traverse (λ bytes. decrypt_source tools bytes resolved) existing
  encrypt tools resolved desired existing (plan_seal desired baseline)

-- The record of a ciphertext, where there is a store.
unfoldable pub update_baseline :
    Tools → World → ResolvedManifestEntry → SourceDocument → List ℕ → Outcome ErrorCategory World
unfolding parse capture from_envelope
update_baseline tools world resolved desired bytes = elim world.baselines [
  | none ↦ ok world
  | some store ↦ (do
    envelope ← parse_ciphertext tools bytes resolved.entry.format
    done ← fail_with (
        tools.save_error resolved.entry.path
          (capture tools.digests desired (from_envelope envelope) tools.fresh_salt))
    ok (record world {
      baselines = some (
          update store resolved.entry.path
            (capture tools.digests desired (from_envelope envelope) tools.fresh_salt));
    }))
]

-- The baseline after a write.
abbrev pub after_write :
    Tools
    → World
    → ResolvedManifestEntry
    → SourceDocument
    → List ℕ
    → Outcome ErrorCategory World
    → Effect SealOutcome
after_write tools world resolved desired bytes (err e) = (err e, world)
after_write tools world resolved desired bytes (ok next) =
    finish_with sealed next (update_baseline tools next resolved desired bytes)

abbrev pub perform :
    Tools → World → ResolvedManifestEntry → Outcome ErrorCategory Prepared → Effect SealOutcome
perform tools world resolved (err e) = (err e, world)
perform tools world resolved (ok (preserve desired bytes)) =
    finish_with unchanged world (update_baseline tools world resolved desired bytes)
perform tools world resolved (ok (replace desired bytes)) =
    after_write tools world resolved desired bytes
      (write tools world (ciphertext_path resolved.entry) bytes)

unfoldable pub seal_entry : Tools → World → Manifest → ResolvedManifestEntry → Effect SealOutcome
unfolding prepare update_baseline write ciphertext_path
seal_entry tools world manifest resolved =
    perform tools world resolved (prepare tools world manifest resolved)
