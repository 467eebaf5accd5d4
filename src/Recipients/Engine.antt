-- ===== src/Recipients/Engine.antt =====
-- src/recipients.rs: every run of `ConvergenceEngine::run`.
use mathlib.Core.List.{Memᴰ}
use gitveil.Base.{
  ℕ, Bool, true, false, List, [], ◌∷◌, some, ◌≡◌, inl, inr, refl, ◌∙◌, subst, ◌==◌, eq_iff,
  Bool-cases, All, ends_with, starts_with, Outcome, ok, err, ok_or, >>=-eq-ok, ok_or-ok, ok-eq,
  nat_eq, list_eq, arith,
}
use gitveil.ManagedPath.Suffix.{suffix}
use gitveil.Recipient.{PolicyName}
use gitveil.Authorization.{FilePlan}
use gitveil.Manifest.{ManifestEntry, Manifest, ciphertext_path}
use gitveil.Manifest.Entries.{ends_with-suffix}
use gitveil.Source.Document.{SourceDocument}
use gitveil.Workflow.{ErrorCategory, Tools, ResolvedManifestEntry, decrypt_source}
use gitveil.Script.Monitor.{
  by_answer, Event, Runs, Follows, Follows-bind, Follows-done, Accepts, state_after, Runs-Accepts,
}
use gitveil.Publishing.{Setting, ManifestPreparation, manifest_path}
use gitveil.Recipients.{RecipientFileReport, ManifestDisposition, AffectedFile}
use gitveil.Recipients.Command.{
  resolve_entry, Preflight, push_decrypted, preflight, publish_changed, converge_ready, run,
}
use gitveil.Recipients.Order.{start, IsDecrypted, monitor, Ends}
use gitveil.Recipients.Kept.{
  Publishes, publish_changed-Publishes, Ends-disposition, converge_ready-Ends,
}

not_ciphertext : ends_with suffix manifest_path ≡ false
unfolding ends_with starts_with
not_ciphertext = refl

-- The path of the manifest is no ciphertext path.
apart_of_named :
    (preparation : ManifestPreparation)
    → preparation.path ≡ manifest_path
    → (entry : ManifestEntry) → (ciphertext_path entry == preparation.path) ≡ false
unfolding ciphertext_path
apart_of_named preparation named entry =
    elim (Bool-cases (ciphertext_path entry == preparation.path)) [
      | inr apart ↦ apart
      | inl same ↦
          let e = (eq_iff (ciphertext_path entry) preparation.path).0 same ∙ named in
          let h : ends_with suffix manifest_path ≡ true =
            subst (λ p. ends_with suffix p ≡ true) e (ends_with-suffix entry.path) in
          cc (h, not_ciphertext)
    ]

resolve_entry-entry :
    (manifest : Manifest) (entry : ManifestEntry) (resolved : ResolvedManifestEntry)
    → resolve_entry manifest entry ≡ some resolved
    → resolved.entry ≡ entry
unfolding resolve_entry
resolve_entry-entry manifest entry resolved h = ground arith

push_decrypted-IsDecrypted :
    (tools : Tools) (all : List (AffectedFile × FilePlan)) (file : AffectedFile) (plan : FilePlan)
    (resolved : ResolvedManifestEntry) (decrypted : Outcome ErrorCategory SourceDocument)
    (later : Preflight)
    → Memᴰ (file, plan) all
    → resolved.entry ≡ file.entry
    → decrypt_source tools file.ciphertext resolved ≡ decrypted
    → All (IsDecrypted tools all) later.0
    → All (IsDecrypted tools all) (push_decrypted file plan resolved decrypted later).0
push_decrypted-IsDecrypted tools all file plan resolved (ok document) later chosen same h rest = (
  record { file = file; chosen = chosen; same_entry = same; same_bytes = refl; decrypts = h },
  rest,
)
push_decrypted-IsDecrypted tools all file plan resolved (err e) later chosen same h rest = rest

preflight-IsDecrypted :
    (tools : Tools) (manifest : Manifest) (all rest : List (AffectedFile × FilePlan))
    (checked : Preflight)
    → ((c : AffectedFile × FilePlan) → Memᴰ c rest → Memᴰ c all)
    → preflight tools manifest rest ≡ ok checked
    → All (IsDecrypted tools all) checked.0
unfolding preflight
preflight-IsDecrypted tools manifest all [] checked within h =
    subst (λ (c : Preflight). All (IsDecrypted tools all) c.0) (ok-eq _ checked h) tt
preflight-IsDecrypted tools manifest all ((file, plan) ∷ rest) checked within h =
    let (resolved, found, h1) =
      >>=-eq-ok (ok_or (resolve_entry manifest file.entry) ErrorCategory.integrity) _ h in
    let (later, tested, h2) =
      >>=-eq-ok (preflight tools manifest rest)
        (λ later.
          ok (
            push_decrypted file plan resolved (decrypt_source tools file.ciphertext resolved)
              later))
        h1 in
    subst (λ (c : Preflight). All (IsDecrypted tools all) c.0) (ok-eq _ checked h2)
      (push_decrypted-IsDecrypted tools all file plan resolved _ later
        (within (file, plan) (Memᴰ.head refl))
        (resolve_entry-entry manifest file.entry resolved
          (ok_or-ok (resolve_entry manifest file.entry) ErrorCategory.integrity found))
        refl
        (preflight-IsDecrypted tools manifest all rest later (λ c m. within c (Memᴰ.tail m))
          tested))

module _ (setting : Setting) (manifest : Manifest) (policy_name : PolicyName) (changed : Bool)
    (preparation : ManifestPreparation) (candidate : List ℕ)
    (named : preparation.path ≡ manifest_path) where
  run-Ends :
      (convergences : List (AffectedFile × FilePlan))
      → Follows
          (monitor setting policy_name changed preparation candidate convergences)
          (Ends setting policy_name changed preparation candidate convergences)
          start
          (run setting manifest policy_name changed preparation candidate convergences)
  unfolding run
  run-Ends [] =
      Follows-bind (monitor setting policy_name changed preparation candidate [])
        (Publishes setting policy_name changed preparation candidate [])
        (Ends setting policy_name changed preparation candidate []) start
        (publish_changed changed preparation candidate) _
        (λ s.
          by_answer _
            (λ _ h.
              Ends-disposition setting policy_name changed preparation candidate [] s changed []
                refl h.0)
            (λ e h. h))
        (publish_changed-Publishes setting policy_name changed preparation candidate [] start
          changed (refl, refl) refl)
  run-Ends (first ∷ others) =
      let watch = monitor setting policy_name changed preparation candidate (first ∷ others) in
      let ends = Ends setting policy_name changed preparation candidate (first ∷ others) in
      Follows-done watch ends start setting.sops_client _
        (λ _ _.
          Follows-done watch ends start (preflight setting.tools manifest (first ∷ others))
            (converge_ready setting policy_name changed preparation candidate)
            (λ checked h.
              converge_ready-Ends setting policy_name changed preparation candidate (first ∷ others)
                (apart_of_named preparation named) start checked (refl, refl)
                (preflight-IsDecrypted setting.tools manifest (first ∷ others) (first ∷ others)
                  checked (λ c m. m) h))
            (λ e. refl))
        (λ e. refl)

  -- Where the loaded document is the manifest: every run of the engine, whatever it is answered and
  -- whatever other processes write in between, replaces nothing but the manifest and ciphertexts.
  -- The manifest is replaced at most once, before any ciphertext, only by the candidate, and only
  -- when it was last seen with the bytes that had been loaded. A ciphertext is replaced only by bytes
  -- that parse, that are for exactly the recipients of its plan, and that keep the encrypted values
  -- or the document, and only when the change of the manifest, if any, was made. An error, or a
  -- withheld manifest, leaves every ciphertext as it was.
  pub run-Accepts :
      (convergences : List (AffectedFile × FilePlan)) {log : List Event}
      {outcome : Outcome ErrorCategory (ManifestDisposition × List RecipientFileReport)}
      → Runs
          (run setting manifest policy_name changed preparation candidate convergences)
          log
          outcome
      → Accepts (monitor setting policy_name changed preparation candidate convergences) start log
        × Ends setting policy_name changed preparation candidate convergences
            (state_after
              (monitor setting policy_name changed preparation candidate convergences)
              start
              log)
            outcome
  run-Accepts convergences r =
      Runs-Accepts (monitor setting policy_name changed preparation candidate convergences)
        (Ends setting policy_name changed preparation candidate convergences) start
        (run setting manifest policy_name changed preparation candidate convergences)
        (run-Ends convergences) r
