-- ===== src/Status/Clean.antt =====
-- src/status.rs: when a pair is reported clean.
use gitveil.Base.{
  ℕ, Str, Bool, true, false, ◌&&◌, ◌||◌, ◌≡◌, refl, sym, ◌∙◌, List, [], ◌∷◌, arith, Option, none,
  some, if◌then◌else◌, Outcome, ok, err, inl, inr, Bool-cases, is_empty,
}
use gitveil.Recipient.{PolicyName, RecipientSetDiff, matches, diff, is_aligned}
use gitveil.Source.Document.{
  SourceDocument, SourceError, conflict_markers, non_utf8, parse_error, duplicate_key,
  unsupported_key, generate_error, layout_mismatch,
}
use gitveil.Source.Formats.{parse as parse_source}
use gitveil.Envelope.{EnvelopeError}
use gitveil.Envelope.Ciphertext.{CiphertextEnvelope, parse}
use gitveil.Baseline.Record.{
  BaselineRecord, BaselineDiff, CipherSummary, is_unchanged, from_envelope, diff_plain, diff_cipher,
}
use gitveil.Workflow.{Tools, ResolvedManifestEntry}
use gitveil.Seal.{ciphertext_has_conflict_markers}
use gitveil.Status.{
  clean, unknown, local_edits, behind, diverged, differs, aligned, drift, differing, is_clean,
  is_clean_data, is_aligned_status, baseline_status, keyless_status, recipient_status, local_status,
  plaintext_status, envelope_status, pair_status,
}

-- Both files are there and are read, there is a record without differences on either side, and the
-- recipients are those of the policy.
pub record IsSynchronised (tools : Tools) (resolved : ResolvedManifestEntry)
    (baseline : Option BaselineRecord) (plaintext : Option (List ℕ)) (bytes : List ℕ) : Type 0 where
  pub envelope : CiphertextEnvelope
  pub text : List ℕ
  pub local : SourceDocument
  pub recorded : BaselineRecord
  pub has_plaintext : plaintext ≡ some text
  pub has_baseline : baseline ≡ some recorded
  pub parses : parse tools.codecs bytes resolved.entry.format ≡ ok envelope
  pub is_read : parse_source tools.adapters resolved.entry.format text ≡ ok local
  pub same_local : is_unchanged (diff_plain tools.digests recorded local) ≡ true
  pub same_remote :
      is_unchanged (diff_cipher tools.digests recorded (from_envelope envelope)) ≡ true
  pub authorised : matches resolved.recipient_policy envelope.age_recipients ≡ true

clean-decided :
    (a b : Bool) (r l : BaselineDiff)
    → is_clean_data
        (if a then (if b then clean else behind r) else if b then local_edits l else diverged l r)
      ≡ (a && b)
clean-decided a b r l = ground arith

baseline_status-clean :
    (tools : Tools) (baseline : BaselineRecord) (local : SourceDocument) (summary : CipherSummary)
    → is_clean_data (baseline_status tools baseline local summary) ≡ (
        is_unchanged (diff_plain tools.digests baseline local)
        && is_unchanged (diff_cipher tools.digests baseline summary))
unfolding baseline_status
baseline_status-clean tools baseline local summary =
    clean-decided (is_unchanged (diff_plain tools.digests baseline local))
      (is_unchanged (diff_cipher tools.digests baseline summary))
      (diff_cipher tools.digests baseline summary) (diff_plain tools.digests baseline local)

clean-differing :
    (names : List Str) → is_clean_data (if is_empty names then unknown else differs names) ≡ false
clean-differing [] = refl
clean-differing (name ∷ names) = refl

keyless_status-clean :
    (local : SourceDocument) (summary : CipherSummary)
    → is_clean_data (keyless_status local summary) ≡ false
unfolding keyless_status
keyless_status-clean local summary = clean-differing (differing local summary)

aligned-found :
    (b : Bool) (name : PolicyName) (found : RecipientSetDiff)
    → is_aligned_status (if b then aligned else drift name found) ≡ b
aligned-found b name found = ground arith

recipient_status-aligned :
    (resolved : ResolvedManifestEntry) (envelope : CiphertextEnvelope)
    → is_aligned_status (recipient_status resolved envelope)
      ≡ matches resolved.recipient_policy envelope.age_recipients
unfolding recipient_status matches
recipient_status-aligned resolved envelope =
    aligned-found (is_aligned (diff resolved.recipient_policy envelope.age_recipients))
      resolved.recipient_policy.name (diff resolved.recipient_policy envelope.age_recipients)

and-true : (a b : Bool) → (a && b) ≡ true → (a ≡ true) × (b ≡ true)
and-true a b h = ground arith

local_status-unclean :
    (tools : Tools) (baseline : Option BaselineRecord) (envelope : CiphertextEnvelope)
    (e : SourceError)
    → is_clean_data (local_status tools baseline envelope (err e)) ≡ false
local_status-unclean tools baseline envelope (conflict_markers f) = refl
local_status-unclean tools baseline envelope (non_utf8 f) = refl
local_status-unclean tools baseline envelope (parse_error f) = refl
local_status-unclean tools baseline envelope (duplicate_key f p) = refl
local_status-unclean tools baseline envelope (unsupported_key f p) = refl
local_status-unclean tools baseline envelope (generate_error f) = refl
local_status-unclean tools baseline envelope (layout_mismatch p) = refl

local_status-IsSynchronised :
    (tools : Tools) (resolved : ResolvedManifestEntry) (baseline : Option BaselineRecord)
    (text bytes : List ℕ) (envelope : CiphertextEnvelope)
    (local : Outcome SourceError SourceDocument)
    → parse tools.codecs bytes resolved.entry.format ≡ ok envelope
    → parse_source tools.adapters resolved.entry.format text ≡ local
    → is_clean_data (local_status tools baseline envelope local) ≡ true
    → matches resolved.recipient_policy envelope.age_recipients ≡ true
    → IsSynchronised tools resolved baseline (some text) bytes
local_status-IsSynchronised tools resolved (some recorded) text bytes envelope (ok local) p r h m =
    let (same_local, same_remote) =
      and-true (is_unchanged (diff_plain tools.digests recorded local))
        (is_unchanged (diff_cipher tools.digests recorded (from_envelope envelope)))
        (sym (baseline_status-clean tools recorded local (from_envelope envelope)) ∙ h) in
    record {
      envelope = envelope;
      text = text;
      local = local;
      recorded = recorded;
      has_plaintext = refl;
      has_baseline = refl;
      parses = p;
      is_read = r;
      same_local = same_local;
      same_remote = same_remote;
      authorised = m;
    }
local_status-IsSynchronised tools resolved none text bytes envelope (ok local) p r h m =
    absurd (ground (arith, keyless_status-clean local (from_envelope envelope)))
local_status-IsSynchronised tools resolved baseline text bytes envelope (err e) p r h m =
    absurd (ground (arith, local_status-unclean tools baseline envelope e))

envelope_status-IsSynchronised :
    (tools : Tools) (resolved : ResolvedManifestEntry) (baseline : Option BaselineRecord)
    (plaintext : Option (List ℕ)) (bytes : List ℕ)
    (parsed : Outcome EnvelopeError CiphertextEnvelope)
    → parse tools.codecs bytes resolved.entry.format ≡ parsed
    → is_clean (envelope_status tools resolved baseline plaintext parsed) ≡ true
    → IsSynchronised tools resolved baseline plaintext bytes
envelope_status-IsSynchronised tools resolved baseline plaintext bytes (err e) p h = cc
envelope_status-IsSynchronised tools resolved baseline none bytes (ok envelope) p h = cc
envelope_status-IsSynchronised tools resolved baseline (some text) bytes (ok envelope) p h =
    let (state, allowed) =
      and-true (is_clean_data (plaintext_status tools resolved baseline envelope (some text)))
        (is_aligned_status (recipient_status resolved envelope)) h in
    local_status-IsSynchronised tools resolved baseline text bytes envelope
      (parse_source tools.adapters resolved.entry.format text) p refl state
      (sym (recipient_status-aligned resolved envelope) ∙ allowed)

-- A pair is reported clean only if both files are there and are read, no merge of them is pending,
-- the recipients of the ciphertext are those of the policy, and neither side has a difference
-- against the recorded baseline.
pub pair_status-IsSynchronised :
    (tools : Tools) (is_unmerged : Bool) (resolved : ResolvedManifestEntry)
    (baseline : Option BaselineRecord) (plaintext ciphertext : Option (List ℕ))
    → is_clean (pair_status tools is_unmerged resolved baseline plaintext ciphertext) ≡ true
    → (bytes : List ℕ) × (ciphertext ≡ some bytes)
      × (ciphertext_has_conflict_markers tools.codecs.from_utf8 bytes ≡ false)
      × (is_unmerged ≡ false)
      × IsSynchronised tools resolved baseline plaintext bytes
unfolding pair_status
pair_status-IsSynchronised tools is_unmerged resolved baseline none none h = cc
pair_status-IsSynchronised tools is_unmerged resolved baseline (some text) none h = cc
pair_status-IsSynchronised tools is_unmerged resolved baseline plaintext (some bytes) h =
    let marked = ciphertext_has_conflict_markers tools.codecs.from_utf8 bytes in
    elim (Bool-cases (marked || is_unmerged)) [
      | inl pending ↦ absurd (ground (arith, (rw (pair_status, pending) at h)))
      | inr settled ↦ (
        bytes,
        refl,
        ground arith,
        ground arith,
        envelope_status-IsSynchronised tools resolved baseline plaintext bytes
            (parse tools.codecs bytes resolved.entry.format) refl (rw (pair_status, settled) at h),
      )
    ]
