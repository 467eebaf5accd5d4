-- ===== src/Seal/Verified.antt =====
-- src/seal.rs: what the sealing of an entry leaves behind.
use gitveil.Base.{
  ℕ, true, not, ◌≡◌, refl, sym, ap, ◌∙◌, subst, List, Option, Outcome, ok, err, ◌>>=◌, fail_if,
  ok_or, >>=-eq-ok, fail_if-not, map_err-ok, ok-eq, nat_eq, list_eq,
}
use gitveil.Recipient.{matches}
use gitveil.Manifest.{Manifest, ciphertext_path}
use gitveil.Source.Document.{SourceDocument}
use gitveil.Envelope.Ciphertext.{CiphertextEnvelope, parse}
use gitveil.Seal.{
  SealAction, preserve_baseline, encrypt_new, edit_existing, result_matches, semantic_eq_iff,
  plan_seal,
}
use gitveil.Workflow.{ErrorCategory, Tools, World, ResolvedManifestEntry, read, decrypt_source}
use gitveil.Seal.Command.{
  traverse, parse_ciphertext, has_markers, open_envelope, check_recipients, desired_envelope,
  verify_recipient_policy, verify_result, Prepared, preserve, replace, encrypt, read_desired,
  prepare,
}

-- A ciphertext that has been checked: it parses, its recipients are those of the policy, and it
-- decrypts to the document.
pub record IsVerified (tools : Tools) (resolved : ResolvedManifestEntry) (desired : SourceDocument)
    (bytes : List ℕ) : Type 0 where
  pub envelope : CiphertextEnvelope
  pub parses : parse tools.codecs bytes resolved.entry.format ≡ ok envelope
  pub authorised : matches resolved.recipient_policy envelope.age_recipients ≡ true
  pub decrypts : decrypt_source tools bytes resolved ≡ ok desired

result_matches-eq :
    (desired actual : SourceDocument) → result_matches desired actual ≡ true → actual ≡ desired
unfolding result_matches
result_matches-eq desired actual h = sym ((semantic_eq_iff desired actual).0 h)

verify_recipient_policy-ok :
    (envelope : CiphertextEnvelope) (resolved : ResolvedManifestEntry) {u : Unit {0}}
    → verify_recipient_policy envelope resolved ≡ ok u
    → matches resolved.recipient_policy envelope.age_recipients ≡ true
unfolding verify_recipient_policy
verify_recipient_policy-ok envelope resolved h =
    fail_if-not (matches resolved.recipient_policy envelope.age_recipients) ErrorCategory.integrity
      h

verify_result-IsVerified :
    (tools : Tools) (bytes : List ℕ) (desired : SourceDocument) (resolved : ResolvedManifestEntry)
    {u : Unit {0}}
    → verify_result tools bytes desired resolved ≡ ok u
    → IsVerified tools resolved desired bytes
unfolding verify_result
verify_result-IsVerified tools bytes desired resolved h =
    let (envelope, parsed, h1) =
      >>=-eq-ok (parse_ciphertext tools bytes resolved.entry.format) _ h in
    let (_, allowed, h2) = >>=-eq-ok (verify_recipient_policy envelope resolved) _ h1 in
    let (actual, decrypted, h3) =
      >>=-eq-ok (decrypt_source tools bytes resolved)
        (λ actual. fail_if (not (result_matches desired actual)) ErrorCategory.integrity) h2 in
    record {
      envelope = envelope;
      parses =
          map_err-ok (λ _. ErrorCategory.ciphertext)
            (parse tools.codecs bytes resolved.entry.format) parsed;
      authorised = verify_recipient_policy-ok envelope resolved allowed;
      decrypts =
          decrypted
          ∙ ap ok (
              result_matches-eq desired actual
                (fail_if-not (result_matches desired actual) ErrorCategory.integrity h3));
    }

-- What `prepare` returns has been checked against the document.
abbrev pub IsReady : Tools → ResolvedManifestEntry → SourceDocument → Prepared → Type 0
IsReady tools resolved desired (preserve d bytes) = Unit
IsReady tools resolved desired (replace d bytes) =
    (d ≡ desired) × IsVerified tools resolved desired bytes

verified-IsReady :
    (tools : Tools) (resolved : ResolvedManifestEntry) (desired : SourceDocument) (bytes : List ℕ)
    (prepared : Prepared) (checked : Outcome ErrorCategory (Unit {0}))
    → checked ≡ verify_result tools bytes desired resolved
    → (checked >>= λ _. ok (replace desired bytes)) ≡ ok prepared
    → IsReady tools resolved desired prepared
verified-IsReady tools resolved desired bytes prepared (err e) same h = cc
verified-IsReady tools resolved desired bytes prepared (ok u) same h =
    subst (IsReady tools resolved desired) (ok-eq (replace desired bytes) prepared h)
      (refl, verify_result-IsVerified tools bytes desired resolved (sym same))

encrypt-IsReady :
    (tools : Tools) (resolved : ResolvedManifestEntry) (desired : SourceDocument)
    (existing : Option (List ℕ)) (action : SealAction) (prepared : Prepared)
    → encrypt tools resolved desired existing action ≡ ok prepared
    → IsReady tools resolved desired prepared
unfolding encrypt
encrypt-IsReady tools resolved desired existing preserve_baseline prepared h =
    let (bytes, found, h1) =
      >>=-eq-ok (ok_or existing ErrorCategory.integrity) (λ bytes. ok (preserve desired bytes)) h in
    subst (IsReady tools resolved desired) (ok-eq (preserve desired bytes) prepared h1) tt
encrypt-IsReady tools resolved desired existing encrypt_new prepared h =
    let (envelope, written, h1) = >>=-eq-ok (desired_envelope tools desired) _ h in
    let (bytes, encrypted, h2) =
      >>=-eq-ok (tools.sops_encrypt_new envelope resolved.entry.path resolved.recipient_policy) _
        h1 in
    verified-IsReady tools resolved desired bytes prepared
      (verify_result tools bytes desired resolved) refl h2
encrypt-IsReady tools resolved desired existing edit_existing prepared h =
    let (baseline, found, h1) = >>=-eq-ok (ok_or existing ErrorCategory.integrity) _ h in
    let (envelope, written, h2) = >>=-eq-ok (desired_envelope tools desired) _ h1 in
    let (bytes, edited, h3) =
      >>=-eq-ok (tools.sops_edit baseline envelope resolved.entry.path) _ h2 in
    verified-IsReady tools resolved desired bytes prepared
      (verify_result tools bytes desired resolved) refl h3

pub prepare-IsReady :
    (tools : Tools) (world : World) (manifest : Manifest) (resolved : ResolvedManifestEntry)
    (prepared : Prepared)
    → prepare tools world manifest resolved ≡ ok prepared
    → (desired : SourceDocument) × (read_desired tools world resolved ≡ ok desired)
      × IsReady tools resolved desired prepared
unfolding prepare
prepare-IsReady tools world manifest resolved prepared h =
    let (desired, was_read, h1) = >>=-eq-ok (read_desired tools world resolved) _ h in
    let (existing, found, h2) =
      >>=-eq-ok (read tools world (ciphertext_path resolved.entry)) _ h1 in
    let (_, merged, h3) =
      >>=-eq-ok (fail_if (has_markers tools existing) ErrorCategory.conflict) _ h2 in
    let (envelope, parsed, h4) =
      >>=-eq-ok (traverse (open_envelope tools resolved.entry.format) existing) _ h3 in
    let (_, aligned, h5) =
      >>=-eq-ok (check_recipients tools world manifest resolved envelope) _ h4 in
    let (baseline, decrypted, h6) =
      >>=-eq-ok (traverse (λ bytes. decrypt_source tools bytes resolved) existing)
        (λ baseline. encrypt tools resolved desired existing (plan_seal desired baseline)) h5 in
    (
      desired,
      was_read,
      encrypt-IsReady tools resolved desired existing (plan_seal desired baseline) prepared h6,
    )
