-- ===== src/Recipients/Converged.antt =====
-- src/recipients.rs: what is checked of a ciphertext before it replaces another.
use gitveil.Base.{
  ℕ, true, not, List, Option, none, some, ◌≡◌, ap, ◌∙◌, subst, eq_iff, length, get, Str,
  same_map-length, same_map-get, ok, fail_if, >>=-eq-ok, fail_if-not, map_err-ok, ok-eq, nat_eq,
  list_eq, arith,
}
use gitveil.Recipient.{AgeRecipientPolicy, matches}
use gitveil.Authorization.{ConvergenceAction, already_aligned, rewrap, rotate}
use gitveil.Source.Document.{semantic_eq}
use gitveil.Seal.{semantic_eq_iff}
use gitveil.Seal.Command.{parse_ciphertext, desired_envelope}
use gitveil.Envelope.Ciphertext.{CiphertextEnvelope, parse}
use gitveil.Workflow.{ErrorCategory, Tools, decrypt_source}
use gitveil.Publishing.{Setting}
use gitveil.Recipients.{
  RecipientFileOutcome, rewrapped, data_key_rotated, no_change_needed, verify_target_recipients,
  same_ciphertexts, verify_rewrap, verify_rotation, Ready, converged,
}

-- What a new ciphertext keeps of the old one: after an addition each encrypted leaf and the
-- encrypted layout, byte for byte; after a removal the document that it decrypts to.
abbrev pub IsKept : Tools → Ready → List ℕ → CiphertextEnvelope → RecipientFileOutcome → Type 0
IsKept tools ready bytes envelope rewrapped =
    (before : CiphertextEnvelope) × (parse tools.codecs ready.ciphertext ready.resolved.entry.format
      ≡ ok before)
    × (length before.leaves ≡ length envelope.leaves)
    × ((leaf text : Str)
        → get leaf before.leaves ≡ some text
        → get leaf envelope.leaves ≡ some text)
    × (before.layout_ciphertext ≡ envelope.layout_ciphertext)
IsKept tools ready bytes envelope data_key_rotated =
    decrypt_source tools bytes ready.resolved ≡ ok ready.document
IsKept tools ready bytes envelope no_change_needed = ⊥

pub record IsConverged (tools : Tools) (ready : Ready) (target : AgeRecipientPolicy)
    (bytes : List ℕ) (outcome : RecipientFileOutcome) : Type 0 where
  pub envelope : CiphertextEnvelope
  pub parses : parse tools.codecs bytes ready.resolved.entry.format ≡ ok envelope
  pub authorised : matches target envelope.age_recipients ≡ true
  pub kept : IsKept tools ready bytes envelope outcome

parse_ciphertext-parse :
    (tools : Tools) (ready : Ready) (bytes : List ℕ) {envelope : CiphertextEnvelope}
    → parse_ciphertext tools bytes ready.resolved.entry.format ≡ ok envelope
    → parse tools.codecs bytes ready.resolved.entry.format ≡ ok envelope
parse_ciphertext-parse tools ready bytes h =
    map_err-ok (λ _. ErrorCategory.ciphertext)
      (parse tools.codecs bytes ready.resolved.entry.format) h

verify_target_recipients-matches :
    (envelope : CiphertextEnvelope) (target : AgeRecipientPolicy) {u : Unit {0}}
    → verify_target_recipients envelope target ≡ ok u
    → matches target envelope.age_recipients ≡ true
unfolding verify_target_recipients
verify_target_recipients-matches envelope target h =
    fail_if-not (matches target envelope.age_recipients) ErrorCategory.integrity h

verify_rewrap-IsConverged :
    (tools : Tools) (ready : Ready) (target : AgeRecipientPolicy) (bytes : List ℕ) {u : Unit {0}}
    → verify_rewrap tools ready.ciphertext bytes ready.resolved target ≡ ok u
    → IsConverged tools ready target bytes rewrapped
unfolding verify_rewrap
verify_rewrap-IsConverged tools ready target bytes h =
    let format = ready.resolved.entry.format in
    let (before, old, h1) = >>=-eq-ok (parse_ciphertext tools ready.ciphertext format) _ h in
    let (after, new, h2) = >>=-eq-ok (parse_ciphertext tools bytes format) _ h1 in
    let (_, allowed, h3) =
      >>=-eq-ok (verify_target_recipients after target)
        (λ _. fail_if (not (same_ciphertexts before after)) ErrorCategory.integrity) h2 in
    let same = fail_if-not (same_ciphertexts before after) ErrorCategory.integrity h3 in
    record {
      envelope = after;
      parses = parse_ciphertext-parse tools ready bytes new;
      authorised = verify_target_recipients-matches after target allowed;
      kept = (
        before,
        parse_ciphertext-parse tools ready ready.ciphertext old,
        same_map-length before.leaves after.leaves (ground arith),
        λ leaf text found. same_map-get before.leaves after.leaves leaf text (ground arith) found,
        ground (arith, eq_iff before.layout_ciphertext after.layout_ciphertext),
      );
    }

verify_rotation-IsConverged :
    (tools : Tools) (ready : Ready) (target : AgeRecipientPolicy) (bytes : List ℕ) {u : Unit {0}}
    → verify_rotation tools bytes ready.resolved target ready.document ≡ ok u
    → IsConverged tools ready target bytes data_key_rotated
unfolding verify_rotation
verify_rotation-IsConverged tools ready target bytes h =
    let (envelope, parsed, h1) =
      >>=-eq-ok (parse_ciphertext tools bytes ready.resolved.entry.format) _ h in
    let (_, allowed, h2) = >>=-eq-ok (verify_target_recipients envelope target) _ h1 in
    let (actual, decrypted, h3) =
      >>=-eq-ok (decrypt_source tools bytes ready.resolved)
        (λ actual. fail_if (not (semantic_eq actual ready.document)) ErrorCategory.integrity) h2 in
    record {
      envelope = envelope;
      parses = parse_ciphertext-parse tools ready bytes parsed;
      authorised = verify_target_recipients-matches envelope target allowed;
      kept =
          decrypted
          ∙ ap ok (
              (semantic_eq_iff actual ready.document).0
                (fail_if-not (semantic_eq actual ready.document) ErrorCategory.integrity h3));
    }

-- What `converged` returns has been checked, or nothing has to be written.
abbrev pub IsChecked :
    Tools → Ready → AgeRecipientPolicy → Option (List ℕ × RecipientFileOutcome) → Type 0
IsChecked tools ready target none = Unit
IsChecked tools ready target (some (bytes, outcome)) = IsConverged tools ready target bytes outcome

-- Whatever SOPS answers, a new ciphertext parses, is for exactly the recipients of the target, and
-- keeps what it has to keep: after a rewrap every encrypted leaf and the layout of the old
-- ciphertext, after a rotation the document.
pub converged-IsChecked :
    (setting : Setting) (ready : Ready) (target : AgeRecipientPolicy) (action : ConvergenceAction)
    (made : Option (List ℕ × RecipientFileOutcome))
    → converged setting ready target action ≡ ok made
    → IsChecked setting.tools ready target made
unfolding converged
converged-IsChecked setting ready target already_aligned made h =
    subst (IsChecked setting.tools ready target) (ok-eq _ made h) tt
converged-IsChecked setting ready target rewrap made h =
    let (bytes, wrapped, h1) = >>=-eq-ok (setting.sops_rewrap ready.ciphertext target) _ h in
    let (_, checked, h2) =
      >>=-eq-ok (verify_rewrap setting.tools ready.ciphertext bytes ready.resolved target)
        (λ _. ok (some (bytes, rewrapped))) h1 in
    subst (IsChecked setting.tools ready target) (ok-eq _ made h2)
      (verify_rewrap-IsConverged setting.tools ready target bytes checked)
converged-IsChecked setting ready target rotate made h =
    let (desired, written, h1) = >>=-eq-ok (desired_envelope setting.tools ready.document) _ h in
    let (bytes, encrypted, h2) =
      >>=-eq-ok (setting.tools.sops_encrypt_new desired ready.resolved.entry.path target) _ h1 in
    let (_, checked, h3) =
      >>=-eq-ok (verify_rotation setting.tools bytes ready.resolved target ready.document)
        (λ _. ok (some (bytes, data_key_rotated))) h2 in
    subst (IsChecked setting.tools ready target) (ok-eq _ made h3)
      (verify_rotation-IsConverged setting.tools ready target bytes checked)
