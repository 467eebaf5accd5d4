-- ===== src/Status.antt =====
-- src/status.rs: the state of a pair of files, which needs no key. The messages are left out.
pub mod Clean
use gitveil.Base.{
  ℕ, Bool, true, false, not, ◌&&◌, ◌||◌, ◌≡◌, ◌↔◌, refl, List, [], ◌∷◌, ◌++◌, ◌==◌, arith, Option,
  none, some, if◌then◌else◌, Str, contains, filter, keys, is_empty, Outcome, ok, err, ◌>>=◌, nat_eq,
  list_eq,
}
use gitveil.ManagedPath.{ManagedPath}
use gitveil.Recipient.{PolicyName, RecipientSetDiff, diff, is_aligned}
use gitveil.Manifest.{ciphertext_path}
use gitveil.Source.Node.{Node, mapping, entries}
use gitveil.Source.Document.{SourceDocument, SourceError, conflict_markers}
use gitveil.Source.Formats.{parse as parse_source}
use gitveil.Envelope.{EnvelopeError}
use gitveil.Envelope.Ciphertext.{CiphertextEnvelope, parse}
use gitveil.Baseline.{root_unit, unit_keys}
use gitveil.Baseline.Record.{
  CipherSummary, BaselineRecord, BaselineDiff, is_unchanged, from_envelope, unit_names, diff_plain,
  diff_cipher,
}
use gitveil.Workflow.{ErrorCategory, Tools, World, ResolvedManifestEntry, read}
use gitveil.Seal.{ciphertext_has_conflict_markers}
use gitveil.Open.Command.{load}

pub data PairDataStatus : Type 0 where
  clean unknown conflicted plaintext_missing ciphertext_missing missing corrupt : PairDataStatus
  local_edits behind : BaselineDiff → PairDataStatus
  diverged : BaselineDiff → BaselineDiff → PairDataStatus
  differs : List Str → PairDataStatus

pub data RecipientStatus : Type 0 where
  aligned not_applicable : RecipientStatus
  drift : PolicyName → RecipientSetDiff → RecipientStatus

pub record PairStatus : Type 0 where
  pub data_status : PairDataStatus
  pub recipients : RecipientStatus

abbrev pub is_clean_data : PairDataStatus → Bool
is_clean_data clean = true
is_clean_data _ = false

abbrev pub is_aligned_status : RecipientStatus → Bool
is_aligned_status aligned = true
is_aligned_status _ = false

-- `PairStatus::is_clean`
abbrev pub is_clean : PairStatus → Bool
is_clean status = is_clean_data status.data_status && is_aligned_status status.recipients

-- `PairStatus::is_bad`
abbrev pub is_bad : PairStatus → Bool
is_bad status = elim status.data_status [ conflicted ↦ true | corrupt ↦ true | _ ↦ false ]

-- The function `not_applicable`.
abbrev pub inapplicable : PairDataStatus → PairStatus
inapplicable state = record { data_status = state; recipients = not_applicable }

unfoldable pub baseline_status :
    Tools → BaselineRecord → SourceDocument → CipherSummary → PairDataStatus
unfolding diff_plain diff_cipher
baseline_status tools baseline local summary =
    let local_diff = diff_plain tools.digests baseline local in
    let remote_diff = diff_cipher tools.digests baseline summary in
    if is_unchanged local_diff
    then (if is_unchanged remote_diff then clean else behind remote_diff)
    else if is_unchanged remote_diff
    then local_edits local_diff
    else diverged local_diff remote_diff

-- `Vec::dedup`
unfoldable pub dedup : List Str → List Str
dedup [] = []
dedup (x ∷ []) = x ∷ []
dedup (x ∷ y ∷ rest) = let later = dedup (y ∷ rest) in if x == y then later else x ∷ later

-- The keys that only one side has.
unfoldable pub differing : SourceDocument → CipherSummary → List Str
unfolding unit_keys filter contains dedup
differing local summary = dedup (
    filter (λ key. not (contains (unit_names summary) key)) (unit_keys local)
    ++ filter (λ key. not (contains (unit_keys local) key)) (unit_names summary))

unfoldable pub keyless_status : SourceDocument → CipherSummary → PairDataStatus
unfolding differing
keyless_status local summary =
    if is_empty (differing local summary) then unknown else differs (differing local summary)

unfoldable pub recipient_status : ResolvedManifestEntry → CiphertextEnvelope → RecipientStatus
unfolding diff is_aligned
recipient_status resolved envelope =
    let found = diff resolved.recipient_policy envelope.age_recipients in
    if is_aligned found then aligned else drift resolved.recipient_policy.name found

-- The state of two documents, with a baseline and without.
abbrev pub data_status_of :
    Tools → Option BaselineRecord → SourceDocument → CipherSummary → PairDataStatus
data_status_of tools (some baseline) local summary = baseline_status tools baseline local summary
data_status_of tools none local summary = keyless_status local summary

-- The state with a parsed ciphertext, by the reading of the plaintext.
abbrev pub local_status :
    Tools
    → Option BaselineRecord
    → CiphertextEnvelope
    → Outcome SourceError SourceDocument
    → PairDataStatus
local_status tools baseline envelope (err (conflict_markers format)) = conflicted
local_status tools baseline envelope (err _) = corrupt
local_status tools baseline envelope (ok local) =
    data_status_of tools baseline local (from_envelope envelope)

abbrev pub plaintext_status :
    Tools
    → ResolvedManifestEntry
    → Option BaselineRecord
    → CiphertextEnvelope
    → Option (List ℕ)
    → PairDataStatus
plaintext_status tools resolved baseline envelope none = plaintext_missing
plaintext_status tools resolved baseline envelope (some bytes) =
    local_status tools baseline envelope (parse_source tools.adapters resolved.entry.format bytes)

abbrev pub envelope_status :
    Tools
    → ResolvedManifestEntry
    → Option BaselineRecord
    → Option (List ℕ)
    → Outcome EnvelopeError CiphertextEnvelope
    → PairStatus
envelope_status tools resolved baseline plaintext (err e) = inapplicable corrupt
envelope_status tools resolved baseline plaintext (ok envelope) = record {
  data_status = plaintext_status tools resolved baseline envelope plaintext;
  recipients = recipient_status resolved envelope;
}

-- What is said of the two files.
unfoldable pub pair_status :
    Tools
    → Bool
    → ResolvedManifestEntry
    → Option BaselineRecord
    → Option (List ℕ)
    → Option (List ℕ)
    → PairStatus
unfolding parse parse_source from_envelope baseline_status keyless_status recipient_status
    ciphertext_has_conflict_markers
pair_status tools is_unmerged resolved baseline none none = inapplicable missing
pair_status tools is_unmerged resolved baseline (some text) none = inapplicable ciphertext_missing
pair_status tools is_unmerged resolved baseline plaintext (some bytes) =
    if ciphertext_has_conflict_markers tools.codecs.from_utf8 bytes || is_unmerged
    then inapplicable conflicted
    else envelope_status tools resolved baseline plaintext
        (parse tools.codecs bytes resolved.entry.format)

-- `unmerged` are the paths that Git lists as unmerged.
unfoldable pub status_entry :
    Tools → World → List ManagedPath → ResolvedManifestEntry → Outcome ErrorCategory PairStatus
unfolding read ciphertext_path pair_status contains
status_entry tools world unmerged resolved = do
  plaintext ← read tools world resolved.entry.path
  bytes ← read tools world (ciphertext_path resolved.entry)
  ok (
      pair_status tools (contains unmerged (ciphertext_path resolved.entry)) resolved
        (load world resolved.entry.path) plaintext bytes)
