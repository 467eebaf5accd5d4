-- ===== src/Resolve/Command.antt =====
-- src/resolve.rs: the resolution of one conflicted entry. What precedes the first write is
-- `prepare`.
use gitveil.Base.{
  ℕ, Bool, true, false, not, ◌==◌, List, [], ◌∷◌, Option, none, some, if◌then◌else◌, contains,
  filter, is_empty, length, str_lt, Outcome, ok, err, ◌>>=◌, ◌>>◌, fail_if, map_err, nat_eq,
  list_eq,
}
use gitveil.Recipient.{AgeRecipient, AgeRecipientPolicy, new_policy, diff, is_aligned}
use gitveil.Manifest.{ciphertext_path}
use gitveil.Source.NodePath.{NodePath}
use gitveil.Source.Node.{mapping, end}
use gitveil.Source.Layout.{lf}
use gitveil.Source.Layout.Merge.{TextDiff}
use gitveil.Source.Document.{SourceDocument, semantic_eq}
use gitveil.Source.Formats.{generate}
use gitveil.Envelope.Ciphertext.{CiphertextEnvelope}
use gitveil.Baseline.Record.{capture, from_envelope}
use gitveil.Resolve.{MergePlan, merged, conflict, plan_merge}
use gitveil.Seal.Command.{desired_envelope, parse_ciphertext}
use gitveil.Workflow.{
  ErrorCategory, Tools, World, ResolvedManifestEntry, Effect, update, fail_with, write,
  decrypt_source, finish_with,
}

-- `MARKER_SIZE`
abbrev pub marker_size : ℕ
marker_size = 7

pub data ResolveOutcome : Type 0 where
  resolved_pair : Bool → Bool → ResolveOutcome
  conflict_written : NodePath → ResolveOutcome

abbrev pub empty_document : ResolvedManifestEntry → SourceDocument
empty_document resolved = record {
  format = resolved.entry.format;
  root = mapping end;
  layout = record {
    line_ending = lf;
    trailing_newline = true;
    preamble_comments = [];
    dotenv = [];
    template = none;
  };
}

unfoldable pub decrypt_stage :
    Tools → List ℕ → ResolvedManifestEntry → Outcome ErrorCategory SourceDocument
unfolding decrypt_source
decrypt_stage tools bytes resolved = do
  envelope ← parse_ciphertext tools bytes resolved.entry.format
  decrypt_source tools bytes resolved

abbrev pub decrypt_base :
    Tools → Option (List ℕ) → ResolvedManifestEntry → Outcome ErrorCategory SourceDocument
decrypt_base tools none resolved = ok (empty_document resolved)
decrypt_base tools (some bytes) resolved = decrypt_stage tools bytes resolved

-- The recipients of our side that the policy still has.
unfoldable pub target_of : CiphertextEnvelope → AgeRecipientPolicy → List AgeRecipient
unfolding filter contains
target_of ours policy =
    filter (λ recipient. contains policy.recipients recipient) ours.age_recipients

unfoldable pub insert_recipient : AgeRecipient → List AgeRecipient → List AgeRecipient
unfolding str_lt
insert_recipient r [] = r ∷ []
insert_recipient r (s ∷ rest) =
    let later = insert_recipient r rest in if str_lt s r then s ∷ later else r ∷ s ∷ rest

-- `sort_unstable` of texts, where equal elements cannot be told apart
unfoldable pub sort : List AgeRecipient → List AgeRecipient
unfolding insert_recipient
sort [] = []
sort (r ∷ rest) = insert_recipient r (sort rest)

unfoldable pub verify_recipients_exact :
    CiphertextEnvelope → List AgeRecipient → Outcome ErrorCategory (Unit {0})
unfolding sort
verify_recipients_exact envelope target =
    fail_if (not (sort envelope.age_recipients == sort target)) ErrorCategory.integrity

-- A ciphertext for fewer recipients has a fresh data key.
unfoldable pub encrypt_merged :
    Tools
    → ResolvedManifestEntry
    → List ℕ
    → List ℕ
    → List AgeRecipient
    → Bool
    → Outcome ErrorCategory (List ℕ)
unfolding new_policy
encrypt_merged tools resolved ours desired target true = do
  narrowed ←
      map_err (λ _. ErrorCategory.integrity) (new_policy resolved.recipient_policy.name target)
  tools.sops_encrypt_new desired resolved.entry.path narrowed
encrypt_merged tools resolved ours desired target false =
    tools.sops_edit ours desired resolved.entry.path

-- A resolved pair: the new ciphertext with its envelope, and whether the data key is new.
pub record Merged : Type 0 where
  pub document : SourceDocument
  pub bytes : List ℕ
  pub envelope : CiphertextEnvelope
  pub plaintext : List ℕ
  pub data_key_rotated : Bool

unfoldable pub seal_merged :
    Tools → ResolvedManifestEntry → List ℕ → SourceDocument → Outcome ErrorCategory Merged
unfolding desired_envelope target_of encrypt_merged verify_recipients_exact decrypt_source
    semantic_eq generate
seal_merged tools resolved ours document = do
  desired ← desired_envelope tools document
  ours_envelope ← parse_ciphertext tools ours resolved.entry.format
  let target = target_of ours_envelope resolved.recipient_policy
  fail_if (is_empty target) ErrorCategory.configuration
  let rotated = not (length target == length ours_envelope.age_recipients)
  bytes ← encrypt_merged tools resolved ours desired target rotated
  envelope ← parse_ciphertext tools bytes resolved.entry.format
  verify_recipients_exact envelope target
  verified ← decrypt_source tools bytes resolved
  fail_if (not (semantic_eq verified document)) ErrorCategory.integrity
  text ← map_err (λ _. ErrorCategory.source) (generate tools.adapters document)
  ok (record {
    document = document;
    bytes = bytes;
    envelope = envelope;
    plaintext = tools.codecs.as_bytes text;
    data_key_rotated = rotated;
  })

-- What remains to be written.
pub data Prepared : Type 0 where
  complete : Merged → Prepared
  conflicted : NodePath → List ℕ → Prepared

abbrev pub follow :
    Tools → ResolvedManifestEntry → List ℕ → MergePlan → Outcome ErrorCategory Prepared
follow tools resolved ours (merged document) = do
  result ← seal_merged tools resolved ours document
  ok (complete result)
follow tools resolved ours (conflict node text) = ok (conflicted node (tools.codecs.as_bytes text))

unfoldable pub prepare :
    Tools
    → TextDiff
    → ResolvedManifestEntry
    → Option (List ℕ)
    → List ℕ
    → List ℕ
    → Outcome ErrorCategory Prepared
unfolding decrypt_stage plan_merge seal_merged generate
prepare tools differ resolved base ours theirs = do
  base_document ← decrypt_base tools base resolved
  ours_document ← decrypt_stage tools ours resolved
  theirs_document ← decrypt_stage tools theirs resolved
  plan ←
      map_err (λ _. ErrorCategory.source)
        (plan_merge differ (generate tools.adapters) base_document ours_document theirs_document
          marker_size)
  follow tools resolved ours plan

-- The two writes, the ciphertext first.
abbrev pub then_write :
    Tools
    → ResolvedManifestEntry
    → List ℕ
    → World
    → Outcome ErrorCategory World
    → Outcome ErrorCategory World × World
then_write tools resolved plaintext world (err e) = (err e, world)
then_write tools resolved plaintext world (ok next) =
    elim (write tools next resolved.entry.path plaintext) [
      | err e ↦ (err e, next)
      | ok last ↦ (ok last, last)
    ]

unfoldable pub write_pair :
    Tools → World → ResolvedManifestEntry → List ℕ → List ℕ → Outcome ErrorCategory World × World
unfolding write ciphertext_path
write_pair tools world resolved bytes plaintext =
    then_write tools resolved plaintext world
      (write tools world (ciphertext_path resolved.entry) bytes)

unfoldable pub record_merged :
    Tools → World → ResolvedManifestEntry → Merged → Outcome ErrorCategory World
unfolding capture from_envelope
record_merged tools world resolved result = elim world.baselines [
  | none ↦ ok world
  | some store ↦
      let baseline =
        capture tools.digests result.document (from_envelope result.envelope) tools.fresh_salt in
      (do
        done ← fail_with (tools.save_error resolved.entry.path baseline)
        ok (record world { baselines = some (update store resolved.entry.path baseline) }))
]

unfoldable pub outcome_of : ResolvedManifestEntry → Merged → ResolveOutcome
unfolding diff is_aligned
outcome_of resolved result =
    resolved_pair result.data_key_rotated
      (not (is_aligned (diff resolved.recipient_policy result.envelope.age_recipients)))

abbrev pub after_writes :
    Tools
    → ResolvedManifestEntry
    → Prepared
    → Outcome ErrorCategory World × World
    → Effect ResolveOutcome
after_writes tools resolved prepared (err e, world) = (err e, world)
after_writes tools resolved (conflicted node text) (ok next, world) =
    (ok (conflict_written node), next)
after_writes tools resolved (complete result) (ok next, world) =
    finish_with (outcome_of resolved result) next (record_merged tools next resolved result)

abbrev pub perform :
    Tools
    → World
    → ResolvedManifestEntry
    → List ℕ
    → Outcome ErrorCategory Prepared
    → Effect ResolveOutcome
perform tools world resolved ours (err e) = (err e, world)
perform tools world resolved ours (ok (complete result)) =
    after_writes tools resolved (complete result)
      (write_pair tools world resolved result.bytes result.plaintext)
perform tools world resolved ours (ok (conflicted node text)) =
    after_writes tools resolved (conflicted node text) (write_pair tools world resolved ours text)

unfoldable pub resolve_entry :
    Tools
    → TextDiff
    → World
    → ResolvedManifestEntry
    → Option (List ℕ)
    → List ℕ
    → List ℕ
    → Effect ResolveOutcome
unfolding prepare write_pair record_merged outcome_of
resolve_entry tools differ world resolved base ours theirs =
    perform tools world resolved ours (prepare tools differ resolved base ours theirs)
