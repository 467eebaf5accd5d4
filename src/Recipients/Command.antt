-- ===== src/Recipients/Command.antt =====
-- src/recipients.rs: `authorize`.
use gitveil.Base
use gitveil.Base.{
  ℕ, Bool, true, false, not, List, [], ◌∷◌, ◌++◌, ◌==◌, Option, none, some, if◌then◌else◌, is_empty,
  find?, get, Str, Outcome, ok, err, ok_or, map_err, nat_eq, list_eq,
}
use gitveil.Recipient.{AgeRecipient, PolicyName, Bech32, new_recipient}
use gitveil.Authorization.{
  RecipientMutation, FileRecipientFacts, ConvergenceAction, already_aligned, rewrap, rotate,
  FilePlan, plan_authorization,
}
use gitveil.Manifest.{ManifestEntry, Manifest, ciphertext_path, set_policy_recipients}
use gitveil.Source.Document.{SourceDocument}
use gitveil.Envelope.Ciphertext.{CiphertextEnvelope}
use gitveil.Workflow.{ErrorCategory, Tools, ResolvedManifestEntry, decrypt_source}
use gitveil.Script.{Script, done, step, ask, pure, ◌>>=◌, ◌>>◌, read_file}
use gitveil.Publishing.{
  Setting, ManifestPreparation, load_manifest, serialize_manifest, publish_if_fresh,
  select_recipient_policy,
}
use gitveil.Seal.Command.{parse_ciphertext}
use gitveil.Recipients.{
  RecipientFileOutcome, no_change_needed, FileConvergence, RecipientFileReport, ManifestDisposition,
  unchanged, published, withheld, AuthorizationOutcome, Direction, adding, removing, AffectedFile,
  Ready, converge_file,
}

unfoldable pub parse_requested : Bech32 → List Str → Outcome ErrorCategory (List AgeRecipient)
unfolding new_recipient
parse_requested codec [] = ok []
parse_requested codec (value ∷ rest) =
    Base.◌>>=◌ (map_err (λ _. ErrorCategory.configuration) (new_recipient codec value))
      λ first. Base.◌>>=◌ (parse_requested codec rest) λ others. ok (first ∷ others)

-- The facts for the plan, the files that it may change, and the reports on ciphertexts that could
-- not be parsed.
pub record PolicyFiles : Type 0 where
  pub facts : List FileRecipientFacts
  pub affected : List AffectedFile
  pub broken : List RecipientFileReport

abbrev pub push_parsed :
    ManifestEntry → List ℕ → Outcome ErrorCategory CiphertextEnvelope → PolicyFiles → PolicyFiles
push_parsed entry bytes (ok envelope) files = record files {
  facts =
      record { path = entry.path; envelope_recipients = some envelope.age_recipients }
      ∷ files.facts;
  affected = record { entry = entry; ciphertext = bytes } ∷ files.affected;
}
push_parsed entry bytes (err e) files = record files {
  broken = record { path = entry.path; result = err e } ∷ files.broken;
}

abbrev pub push_file : Tools → ManifestEntry → Option (List ℕ) → PolicyFiles → PolicyFiles
push_file tools entry none files = record files {
  facts = record { path = entry.path; envelope_recipients = none } ∷ files.facts;
}
push_file tools entry (some bytes) files =
    push_parsed entry bytes (parse_ciphertext tools bytes entry.format) files

unfoldable pub collect_policy_files : Tools → PolicyName → List ManifestEntry → Script PolicyFiles
unfolding ciphertext_path
collect_policy_files tools name [] = pure (record { facts = []; affected = []; broken = [] })
collect_policy_files tools name (entry ∷ rest) =
    let later = collect_policy_files tools name rest in
    if not (entry.recipient_policy == name) then later else (do
      found ← ask (read_file (ciphertext_path entry))
      files ← later
      pure (push_file tools entry found files))

abbrev pub convergence : FilePlan → RecipientFileOutcome → FileConvergence
convergence plan outcome = record {
  outcome = outcome;
  pending_additions = plan.pending_additions;
  pending_removals = plan.pending_removals;
}

unfoldable pub find_affected : List AffectedFile → FilePlan → Outcome ErrorCategory AffectedFile
find_affected affected plan =
    ok_or (find? (λ (file : AffectedFile). file.entry.path == plan.path) affected)
      ErrorCategory.integrity

-- The loop over the plans: the reports on files that need no change, and the others.
abbrev pub Assigned : Type 0
Assigned = List RecipientFileReport × List (AffectedFile × FilePlan)

abbrev pub push_convergence :
    List AffectedFile → FilePlan → Assigned → Outcome ErrorCategory Assigned
push_convergence affected plan (reports, convergences) =
    Base.◌>>=◌ (find_affected affected plan) λ file. ok (reports, (file, plan) ∷ convergences)

abbrev pub push_plan :
    List AffectedFile → FilePlan → ConvergenceAction → Assigned → Outcome ErrorCategory Assigned
push_plan affected plan already_aligned (reports, convergences) = ok (
  record { path = plan.path; result = ok (convergence plan no_change_needed) } ∷ reports,
  convergences,
)
push_plan affected plan rewrap assigned = push_convergence affected plan assigned
push_plan affected plan rotate assigned = push_convergence affected plan assigned

unfoldable pub assign : List AffectedFile → List FilePlan → Outcome ErrorCategory Assigned
unfolding find_affected
assign affected [] = ok ([], [])
assign affected (plan ∷ rest) =
    Base.◌>>=◌ (assign affected rest) λ assigned. push_plan affected plan plan.action assigned

unfoldable pub resolve_entry : Manifest → ManifestEntry → Option ResolvedManifestEntry
resolve_entry manifest entry = elim (get entry.recipient_policy manifest.recipient_policies) [
  | none ↦ none
  | some policy ↦ some (record { entry = entry; recipient_policy = policy })
]

-- The preflight: the files that can be decrypted, and the reports on the others.
abbrev pub Preflight : Type 0
Preflight = List Ready × List RecipientFileReport

abbrev pub push_decrypted :
    AffectedFile
    → FilePlan
    → ResolvedManifestEntry
    → Outcome ErrorCategory SourceDocument
    → Preflight
    → Preflight
push_decrypted file plan resolved (ok document) (ready, failures) = (
  record { ciphertext = file.ciphertext; plan = plan; resolved = resolved; document = document }
      ∷ ready,
  failures,
)
push_decrypted file plan resolved (err e) (ready, failures) =
    (ready, record { path = file.entry.path; result = err e } ∷ failures)

unfoldable pub preflight :
    Tools → Manifest → List (AffectedFile × FilePlan) → Outcome ErrorCategory Preflight
unfolding resolve_entry decrypt_source
preflight tools manifest [] = ok ([], [])
preflight tools manifest ((file, plan) ∷ rest) =
    Base.◌>>=◌ (ok_or (resolve_entry manifest file.entry) ErrorCategory.integrity) λ resolved.
      Base.◌>>=◌ (preflight tools manifest rest) λ later.
        ok (push_decrypted file plan resolved (decrypt_source tools file.ciphertext resolved) later)

-- The error of a script as a value.
abbrev pub attempt : {A : Type 0} → Script A → Script (Outcome ErrorCategory A)
attempt (done outcome) = pure outcome
attempt (step q k) = step q (λ answer. attempt (k answer))

-- `result.map(..)` of one convergence
abbrev pub with_plan :
    FilePlan → Outcome ErrorCategory RecipientFileOutcome → Outcome ErrorCategory FileConvergence
with_plan plan (ok outcome) = ok (convergence plan outcome)
with_plan plan (err e) = err e

unfoldable pub converge_files :
    Setting → PolicyName → List Ready → Script (List RecipientFileReport)
unfolding converge_file
converge_files setting policy_name [] = pure []
converge_files setting policy_name (ready ∷ rest) = do
  result ← attempt (converge_file setting policy_name ready)
  reports ← converge_files setting policy_name rest
  pure (record { path = ready.resolved.entry.path; result = with_plan ready.plan result } ∷ reports)

abbrev pub disposition : Bool → ManifestDisposition
disposition true = published
disposition false = unchanged

-- `if manifest_changed { publish()? }`
abbrev pub publish_changed : Bool → ManifestPreparation → List ℕ → Script (Unit {0})
publish_changed true preparation candidate = publish_if_fresh preparation candidate
publish_changed false preparation candidate = pure tt

-- What follows the preflight.
unfoldable pub converge_ready :
    Setting
    → PolicyName
    → Bool
    → ManifestPreparation
    → List ℕ
    → Preflight
    → Script (ManifestDisposition × List RecipientFileReport)
unfolding publish_if_fresh converge_files
converge_ready setting policy_name changed preparation candidate ([], failures) =
    pure (withheld, failures)
converge_ready setting policy_name changed preparation candidate (first ∷ others, failures) = do
  publish_changed changed preparation candidate
  reports ← converge_files setting policy_name (first ∷ others)
  pure (disposition changed, reports ++ failures)

-- `ConvergenceEngine::run`
unfoldable pub run :
    Setting
    → Manifest
    → PolicyName
    → Bool
    → ManifestPreparation
    → List ℕ
    → List (AffectedFile × FilePlan)
    → Script (ManifestDisposition × List RecipientFileReport)
unfolding publish_if_fresh preflight converge_ready
run setting manifest policy_name changed preparation candidate [] = do
  publish_changed changed preparation candidate
  pure (disposition changed, [])
run setting manifest policy_name changed preparation candidate (first ∷ others) = do
  done setting.sops_client
  checked ← done (preflight setting.tools manifest (first ∷ others))
  converge_ready setting policy_name changed preparation candidate checked

abbrev pub mutation_of : Direction → List AgeRecipient → RecipientMutation
mutation_of adding recipients = RecipientMutation.add recipients
mutation_of removing recipients = RecipientMutation.remove recipients

unfoldable pub authorize : Setting → Option Str → List Str → Direction → Script AuthorizationOutcome
unfolding parse_requested load_manifest select_recipient_policy collect_policy_files
    plan_authorization set_policy_recipients serialize_manifest assign run
authorize setting requested_policy requested direction = do
  parsed ← done (parse_requested setting.codec requested)
  (preparation, manifest) ← load_manifest setting
  policy_name ← done (select_recipient_policy manifest requested_policy)
  policy ← done (ok_or (get policy_name manifest.recipient_policies) ErrorCategory.integrity)
  files ← collect_policy_files setting.tools policy_name manifest.entries
  plan ← done (
      map_err (λ _. ErrorCategory.configuration)
        (plan_authorization policy (mutation_of direction parsed) files.facts))
  candidate ← done (
      map_err (λ _. ErrorCategory.integrity)
        (set_policy_recipients manifest policy_name plan.desired_recipients))
  bytes ← done (serialize_manifest setting candidate)
  (aligned, convergences) ← done (assign files.affected plan.files)
  (outcome, reports) ←
      run setting manifest policy_name plan.manifest_changed preparation bytes convergences
  pure (record {
    policy = policy_name;
    deltas = plan.deltas;
    manifest = outcome;
    reports = files.broken ++ (aligned ++ reports);
  })
