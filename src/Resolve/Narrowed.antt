-- ===== src/Resolve/Narrowed.antt =====
-- src/resolve.rs: the recipients of a merged ciphertext.
use gitveil.Base.{
  ℕ, not, ◌&&◌, ◌||◌, ◌≡◌, refl, sym, ap, ◌∙◌, subst, ◌==◌, List, [], ◌∷◌, arith, ok, fail_if,
  map_err, contains, contains-filter, is_empty, length, >>=-eq-ok, fail_if-not, map_err-ok, ok-eq,
  eq_iff, Bool-cases, inl, inr, str_lt, nat_eq, list_eq,
}
use gitveil.Recipient.{AgeRecipient}
use gitveil.Source.Document.{SourceDocument, semantic_eq}
use gitveil.Source.Formats.{generate}
use gitveil.Envelope.Ciphertext.{CiphertextEnvelope, parse}
use gitveil.Seal.{semantic_eq_iff}
use gitveil.Seal.Command.{desired_envelope, parse_ciphertext}
use gitveil.Workflow.{ErrorCategory, Tools, ResolvedManifestEntry, decrypt_source}
use gitveil.Resolve.Command.{
  target_of, insert_recipient, sort, verify_recipients_exact, encrypt_merged, Merged, seal_merged,
}

contains-insert_recipient :
    (r : AgeRecipient) (rs : List AgeRecipient) (k : AgeRecipient)
    → contains (insert_recipient r rs) k ≡ (r == k || contains rs k)
unfolding contains insert_recipient
contains-insert_recipient r [] k = refl
contains-insert_recipient r (s ∷ rest) k = elim (Bool-cases (str_lt s r)) [
  | inl before ↦ rw before (ground (arith, contains-insert_recipient r rest k))
  | inr after ↦ rw after refl
]

contains-sort : (rs : List AgeRecipient) (k : AgeRecipient) → contains (sort rs) k ≡ contains rs k
unfolding contains sort
contains-sort [] k = refl
contains-sort (r ∷ rest) k =
    contains-insert_recipient r (sort rest) k ∙ rw (contains-sort rest k) refl

-- Exactly the recipients that our side has and the policy still has; and the bytes decrypt to the
-- merged document.
pub record IsNarrowed (tools : Tools) (resolved : ResolvedManifestEntry) (ours : List ℕ)
    (document : SourceDocument) (result : Merged) : Type 0 where
  pub ours_envelope : CiphertextEnvelope
  pub ours_parses : parse tools.codecs ours resolved.entry.format ≡ ok ours_envelope
  pub parses : parse tools.codecs result.bytes resolved.entry.format ≡ ok result.envelope
  pub decrypts : decrypt_source tools result.bytes resolved ≡ ok document
  pub recipients :
      (r : AgeRecipient)
      → contains result.envelope.age_recipients r ≡ (
          contains ours_envelope.age_recipients r
          && contains resolved.recipient_policy.recipients r)

exact-recipients :
    (envelope : CiphertextEnvelope) (target : List AgeRecipient) {u : Unit {0}}
    → verify_recipients_exact envelope target ≡ ok u
    → (r : AgeRecipient) → contains envelope.age_recipients r ≡ contains target r
unfolding verify_recipients_exact
exact-recipients envelope target h r =
    let same : sort envelope.age_recipients ≡ sort target =
      (eq_iff (sort envelope.age_recipients) (sort target)).0
        (fail_if-not (sort envelope.age_recipients == sort target) ErrorCategory.integrity h) in
    sym (contains-sort envelope.age_recipients r)
    ∙ ap (λ rs. contains rs r) same
    ∙ contains-sort target r

-- A ciphertext of a completed merge, whatever SOPS answers, names exactly the recipients of our
-- side that the policy still has, and decrypts to the merged document.
pub seal_merged-IsNarrowed :
    (tools : Tools) (resolved : ResolvedManifestEntry) (ours : List ℕ) (document : SourceDocument)
    (result : Merged)
    → seal_merged tools resolved ours document ≡ ok result
    → IsNarrowed tools resolved ours document result
unfolding seal_merged target_of
seal_merged-IsNarrowed tools resolved ours document result h =
    let (desired, written, h1) = >>=-eq-ok (desired_envelope tools document) _ h in
    let (ours_envelope, ours_parsed, h2) =
      >>=-eq-ok (parse_ciphertext tools ours resolved.entry.format) _ h1 in
    let target = target_of ours_envelope resolved.recipient_policy in
    let rotated = not (length target == length ours_envelope.age_recipients) in
    let (_, remains, h3) = >>=-eq-ok (fail_if (is_empty target) ErrorCategory.configuration) _ h2 in
    let (bytes, encrypted, h4) =
      >>=-eq-ok (encrypt_merged tools resolved ours desired target rotated) _ h3 in
    let (envelope, parsed, h5) =
      >>=-eq-ok (parse_ciphertext tools bytes resolved.entry.format) _ h4 in
    let (_, exact, h6) = >>=-eq-ok (verify_recipients_exact envelope target) _ h5 in
    let (verified, decrypted, h7) = >>=-eq-ok (decrypt_source tools bytes resolved) _ h6 in
    let (_, same, h8) =
      >>=-eq-ok (fail_if (not (semantic_eq verified document)) ErrorCategory.integrity) _ h7 in
    let (text, generated, h9) =
      >>=-eq-ok (map_err (λ _. ErrorCategory.source) (generate tools.adapters document))
        (λ text. ok (record {
          document = document;
          bytes = bytes;
          envelope = envelope;
          plaintext = tools.codecs.as_bytes text;
          data_key_rotated = rotated;
        }))
        h8 in
    subst (IsNarrowed tools resolved ours document) (ok-eq _ result h9) (record {
      ours_envelope = ours_envelope;
      ours_parses =
          map_err-ok (λ _. ErrorCategory.ciphertext) (parse tools.codecs ours resolved.entry.format)
            ours_parsed;
      parses =
          map_err-ok (λ _. ErrorCategory.ciphertext)
            (parse tools.codecs bytes resolved.entry.format) parsed;
      decrypts =
          decrypted
          ∙ ap ok (
              (semantic_eq_iff verified document).0
                (fail_if-not (semantic_eq verified document) ErrorCategory.integrity same));
      recipients = λ r.
          exact-recipients envelope target exact r
          ∙ contains-filter (λ recipient. contains resolved.recipient_policy.recipients recipient)
              ours_envelope.age_recipients r;
    })
