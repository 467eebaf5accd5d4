-- ===== src/History.antt =====
-- src/verify.rs and src/verify/policy.rs: the scan of the history. Git is a parameter: the commits that touch a path in the
-- range, or an error, and the blob of a path at a commit. The reasons are left out.
use gitveil.Base.{
  ℕ, suc, Bool, List, [], ◌∷◌, ◌++◌, ◌==◌, Option, none, some, if◌then◌else◌, Str, is_ok, Outcome,
  ok, err, ◌>>=◌, ◌>>◌, fail_if, not, ◌||◌, codes, is_empty, starts_with, any, is_whitespace,
  contains, nat_eq, list_eq,
}
use gitveil.Config.{SourceFormat, format_eq}
use gitveil.ManagedPath.{ManagedPath}
use gitveil.Manifest.{ManifestEntry, Manifest, ciphertext_path}
use gitveil.Envelope.{Codecs, format_mismatch}
use gitveil.Envelope.Ciphertext.{parse, detect_format}
use gitveil.Workflow.{ErrorCategory}

pub record Repository : Type 0 where
  pub touching_commits : ManagedPath → Outcome ErrorCategory (List Str)
  pub revision_blob : Str → ManagedPath → Outcome ErrorCategory (Option (List ℕ))

pub data Violation : Type 0 where
  plaintext_in_history invalid_ciphertext : Str → ManagedPath → Violation

pub record VerifyReport : Type 0 where
  pub scanned_blobs : ℕ
  pub violations : List Violation

unfoldable pub is_valid_envelope : Codecs → List ℕ → Bool
unfolding detect_format parse
is_valid_envelope codecs bytes =
    is_ok (do format ← detect_format codecs bytes; parse codecs bytes format)

-- The reading of a ciphertext of the declared format.
unfoldable pub is_declared_envelope : Codecs → SourceFormat → List ℕ → Bool
unfolding detect_format parse
is_declared_envelope codecs declared bytes = is_ok (do
  format ← detect_format codecs bytes
  if format == declared then parse codecs bytes format else err format_mismatch)

abbrev pub push_violation : Violation → VerifyReport → VerifyReport
push_violation v report = record report { violations = report.violations ++ v ∷ [] }

-- The body of the loop over the commits of a plaintext.
abbrev pub plaintext_step :
    Codecs → Str → ManagedPath → Option (List ℕ) → VerifyReport → VerifyReport
plaintext_step codecs commit path none report = report
plaintext_step codecs commit path (some bytes) report =
    if is_valid_envelope codecs bytes
    then report
    else push_violation (plaintext_in_history commit path) report

-- The body of the loop over the commits of a ciphertext.
abbrev pub ciphertext_step :
    Codecs → SourceFormat → Str → ManagedPath → Option (List ℕ) → VerifyReport → VerifyReport
ciphertext_step codecs declared commit path none report = report
ciphertext_step codecs declared commit path (some bytes) report =
    let scanned = record report { scanned_blobs = suc report.scanned_blobs } in
    if is_declared_envelope codecs declared bytes
    then scanned
    else push_violation (invalid_ciphertext commit path) scanned

unfoldable pub scan_plaintexts :
    Codecs → Repository → ManagedPath → List Str → VerifyReport → Outcome ErrorCategory VerifyReport
unfolding is_valid_envelope
scan_plaintexts codecs repository path [] report = ok report
scan_plaintexts codecs repository path (commit ∷ rest) report = do
  blob ← repository.revision_blob commit path
  scan_plaintexts codecs repository path rest (plaintext_step codecs commit path blob report)

unfoldable pub scan_ciphertexts :
    Codecs
    → Repository
    → SourceFormat
    → ManagedPath
    → List Str
    → VerifyReport
    → Outcome ErrorCategory VerifyReport
unfolding is_declared_envelope
scan_ciphertexts codecs repository declared path [] report = ok report
scan_ciphertexts codecs repository declared path (commit ∷ rest) report = do
  blob ← repository.revision_blob commit path
  scan_ciphertexts codecs repository declared path rest
      (ciphertext_step codecs declared commit path blob report)

unfoldable pub scan_plaintext_history :
    Codecs → Repository → ManifestEntry → VerifyReport → Outcome ErrorCategory VerifyReport
unfolding scan_plaintexts
scan_plaintext_history codecs repository entry report = do
  commits ← repository.touching_commits entry.path
  scan_plaintexts codecs repository entry.path commits report

unfoldable pub scan_ciphertext_history :
    Codecs → Repository → ManifestEntry → VerifyReport → Outcome ErrorCategory VerifyReport
unfolding scan_ciphertexts ciphertext_path
scan_ciphertext_history codecs repository entry report = do
  commits ← repository.touching_commits (ciphertext_path entry)
  scan_ciphertexts codecs repository entry.format (ciphertext_path entry) commits report

-- The loop over the entries of the manifest.
unfoldable pub scan_entries :
    Codecs → Repository → List ManifestEntry → VerifyReport → Outcome ErrorCategory VerifyReport
unfolding scan_plaintext_history scan_ciphertext_history
scan_entries codecs repository [] report = ok report
scan_entries codecs repository (entry ∷ rest) report = do
  plain ← scan_plaintext_history codecs repository entry report
  both ← scan_ciphertext_history codecs repository entry plain
  scan_entries codecs repository rest both

-- src/verify/policy.rs
unfoldable pub is_revision_range : Str → Bool
unfolding starts_with any is_whitespace contains
is_revision_range range =
    not (
      is_empty range
      || starts_with (codes "-") range
      || any is_whitespace range
      || contains range 0)

abbrev pub validate_revision_range : Option Str → Outcome ErrorCategory (Unit {0})
validate_revision_range none = ok tt
validate_revision_range (some range) =
    fail_if (not (is_revision_range range)) ErrorCategory.configuration

-- The commits of the repository are those of the range.
unfoldable pub verify :
    Codecs → Repository → Manifest → Option Str → Outcome ErrorCategory VerifyReport
unfolding scan_entries is_revision_range
verify codecs repository manifest range = do
  validate_revision_range range
  scan_entries codecs repository manifest.entries (record { scanned_blobs = 0; violations = [] })
