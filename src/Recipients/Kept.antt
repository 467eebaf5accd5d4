-- ===== src/Recipients/Kept.antt =====
-- src/recipients.rs: the requests of the publication and of the convergence of the files.
use gitveil.Base.{
  ℕ, Bool, true, false, not, List, [], ◌∷◌, ◌++◌, Option, none, some, ◌≡◌, inl, inr, refl, sym, ap,
  ◌∙◌, ◌==◌, eq_iff, eq_refl, All, Outcome, ok, err, map_err, fail_if, map_err-ok, nat_eq, list_eq,
  option_eq,
}
use gitveil.Recipient.{AgeRecipientPolicy, PolicyName, new_policy}
use gitveil.Authorization.{FilePlan}
use gitveil.Manifest.{ManifestEntry, ciphertext_path}
use gitveil.Workflow.{ErrorCategory}
use gitveil.Script.{Script, done, step, ◌>>=◌, ◌>>◌}
use gitveil.Script.Monitor.{Monitor, by_answer, Follows, Follows-bind, Follows-done}
use gitveil.Publishing.{Setting, ManifestPreparation, is_fresh, write_atomic, publish_if_fresh}
use gitveil.Seal.Command.{parse_ciphertext}
use gitveil.Recipients.{
  RecipientFileOutcome, RecipientFileReport, AffectedFile, Ready, converged, write_ciphertext_file,
  commit, converge_file,
}
use gitveil.Recipients.Command.{
  Preflight, attempt, converge_files, disposition, publish_changed, converge_ready,
}
use gitveil.Recipients.Converged.{IsChecked, converged-IsChecked}
use gitveil.Recipients.Order.{Progress, IsDecrypted, monitor, Ends}

Follows-attempt :
    (M : Monitor) {A : Type 0} (P : M.State → Outcome ErrorCategory A → Type 0)
    (Q : M.State → Outcome ErrorCategory (Outcome ErrorCategory A) → Type 0)
    → ((s : M.State) (outcome : Outcome ErrorCategory A) → P s outcome → Q s (ok outcome))
    → (s : M.State) (m : Script A) → Follows M P s m
    → Follows M Q s (attempt m)
Follows-attempt M P Q keep s (done outcome) h = keep s outcome h
Follows-attempt M P Q keep s (step q k) h =
    (h.0, λ answer. Follows-attempt M P Q keep (M.after s q answer) (k answer) (h.1 answer))

module _ (setting : Setting) (policy_name : PolicyName) (changed : Bool)
    (preparation : ManifestPreparation) (candidate : List ℕ)
    (convergences : List (AffectedFile × FilePlan)) where
  -- After a publication, or an attempt at one.
  abbrev pub Publishes : Progress → Outcome ErrorCategory (Unit {0}) → Type 0
  Publishes s (ok u) = (s.replaced ≡ changed) × (s.written ≡ false)
  Publishes s (err e) = s.written ≡ false

  abbrev pub IsUntouched : Progress → Type 0
  IsUntouched s = (s.replaced ≡ false) × (s.written ≡ false)

  write_atomic-Publishes :
      (s : Progress)
      → IsUntouched s
      → changed ≡ true
      → s.seen ≡ some (ok (some preparation.original))
      → Follows
          (monitor setting policy_name changed preparation candidate convergences)
          Publishes
          s
          (write_atomic preparation.path candidate preparation.mode true)
  unfolding write_atomic
  write_atomic-Publishes s untouched needed fresh = (
    tt,
    by_answer _
        (λ _. (
          tt,
          by_answer _
              (λ _. (
                inl (refl, refl, refl, needed, fresh, untouched.0, untouched.1),
                by_answer _
                    (λ _. (
                      tt,
                      by_answer _ (λ _. rw (eq_refl preparation.path) ((sym needed, untouched.1)))
                          (λ e. rw (eq_refl preparation.path) (untouched.1)),
                    ))
                    (λ e. rw (eq_refl preparation.path) (untouched.1)),
              ))
              (λ e. untouched.1),
        ))
        (λ e. untouched.1),
  )

  -- The answer of the freshness check decides.
  publish_answer :
      (s : Progress) (fresh : Bool) (found : Option (List ℕ))
      → IsUntouched s
      → changed ≡ true
      → s.seen ≡ some (ok found)
      → (found == some preparation.original) ≡ fresh
      → Follows
          (monitor setting policy_name changed preparation candidate convergences)
          Publishes
          s
          (done (fail_if (not fresh) ErrorCategory.concurrency)
            >> write_atomic preparation.path candidate preparation.mode true)
  publish_answer s true found untouched needed seen fresh =
      write_atomic-Publishes s untouched needed
        (seen ∙ ap (λ f. some (ok f)) ((eq_iff found (some preparation.original)).0 fresh))
  publish_answer s false found untouched needed seen fresh = untouched.1

  publish_if_fresh-Publishes :
      (s : Progress)
      → IsUntouched s
      → changed ≡ true
      → Follows
          (monitor setting policy_name changed preparation candidate convergences)
          Publishes
          s
          (publish_if_fresh preparation candidate)
  unfolding publish_if_fresh is_fresh
  publish_if_fresh-Publishes s untouched needed = (
    tt,
    by_answer _
        (λ found. rw (eq_refl preparation.path) (
          publish_answer (record s { seen = some (ok found) }) (found == some preparation.original)
            found untouched needed refl refl))
        (λ e. rw (eq_refl preparation.path) (untouched.1)),
  )

  pub publish_changed-Publishes :
      (s : Progress) (needed : Bool)
      → IsUntouched s
      → changed ≡ needed
      → Follows
          (monitor setting policy_name changed preparation candidate convergences)
          Publishes
          s
          (publish_changed needed preparation candidate)
  publish_changed-Publishes s true untouched same = publish_if_fresh-Publishes s untouched same
  publish_changed-Publishes s false untouched same = (untouched.0 ∙ sym same, untouched.1)

  pub Ends-disposition :
      (s : Progress) (needed : Bool) (reports : List RecipientFileReport)
      → changed ≡ needed
      → s.replaced ≡ changed
      → (Ends setting policy_name changed preparation candidate convergences) s
          (ok (disposition needed, reports))
  Ends-disposition s true reports same h = (same, h ∙ same)
  Ends-disposition s false reports same h = (same, h ∙ same)

  -- The loop over the ciphertexts keeps what has become of the manifest.
  abbrev Keeps : {A : Type 0} → Progress → Outcome ErrorCategory A → Type 0
  Keeps s outcome = s.replaced ≡ changed

  -- So does the whole loop, which captures each error in a report.
  abbrev Completes : {A : Type 0} → Progress → Outcome ErrorCategory A → Type 0
  Completes s (ok a) = s.replaced ≡ changed
  Completes s (err e) = ⊥

  module _
      (apart : (entry : ManifestEntry) → (ciphertext_path entry == preparation.path) ≡ false) where
    commit-Keeps :
        (s : Progress) (ready : Ready) (target : AgeRecipientPolicy)
        (made : Option (List ℕ × RecipientFileOutcome))
        → s.replaced ≡ changed
        → IsDecrypted setting.tools convergences ready
        → new_policy policy_name ready.plan.target_recipients ≡ ok target
        → IsChecked setting.tools ready target made
        → Follows
            (monitor setting policy_name changed preparation candidate convergences)
            Keeps
            s
            (commit setting ready made)
    unfolding commit write_ciphertext_file
    commit-Keeps s ready target none kept decrypted planned checked = kept
    commit-Keeps s ready target (some (bytes, outcome)) kept decrypted planned checked = (
      tt,
      by_answer _
          (λ _. (
            tt,
            by_answer _
                (λ _. (
                  inr (
                    record {
                      ready = ready;
                      target = target;
                      outcome = outcome;
                      decrypted = decrypted;
                      planned = planned;
                      here = refl;
                      checked = checked;
                    },
                    refl,
                    kept,
                  ),
                  rw (apart ready.resolved.entry) (
                      by_answer _
                        (λ _.
                          Follows-done
                            (monitor setting policy_name changed preparation candidate convergences)
                            Keeps (record s { written = true })
                            (parse_ciphertext setting.tools bytes ready.resolved.entry.format) _
                            (λ envelope _. (tt, by_answer _ (λ _. kept) (λ e. kept))) (λ e. kept))
                        (λ e. kept)),
                ))
                (λ e. kept),
          ))
          (λ e. kept),
    )

    converge_file-Keeps :
        (s : Progress) (ready : Ready)
        → s.replaced ≡ changed
        → IsDecrypted setting.tools convergences ready
        → Follows
            (monitor setting policy_name changed preparation candidate convergences)
            Keeps
            s
            (converge_file setting policy_name ready)
    unfolding converge_file
    converge_file-Keeps s ready kept decrypted =
        Follows-done (monitor setting policy_name changed preparation candidate convergences) Keeps
          s
          (map_err (λ _. ErrorCategory.integrity)
            (new_policy policy_name ready.plan.target_recipients))
          (λ target. done (converged setting ready target ready.plan.action) >>= λ made.
            commit setting ready made)
          (λ target planned.
            Follows-done (monitor setting policy_name changed preparation candidate convergences)
              Keeps s (converged setting ready target ready.plan.action)
              (λ made. commit setting ready made)
              (λ made same.
                commit-Keeps s ready target made kept decrypted
                  (map_err-ok (λ _. ErrorCategory.integrity)
                    (new_policy policy_name ready.plan.target_recipients) planned)
                  (converged-IsChecked setting ready target ready.plan.action made same))
              (λ e. kept))
          (λ e. kept)

    converge_files-Completes :
        (s : Progress) (ready : List Ready)
        → s.replaced ≡ changed
        → All (IsDecrypted setting.tools convergences) ready
        → Follows
            (monitor setting policy_name changed preparation candidate convergences)
            Completes
            s
            (converge_files setting policy_name ready)
    unfolding converge_files
    converge_files-Completes s [] kept decrypted = kept
    converge_files-Completes s (ready ∷ rest) kept decrypted =
        Follows-bind (monitor setting policy_name changed preparation candidate convergences)
          Completes Completes s (attempt (converge_file setting policy_name ready)) _
          (λ s'.
            by_answer _
              (λ result h.
                Follows-bind
                  (monitor setting policy_name changed preparation candidate convergences) Completes
                  Completes s' (converge_files setting policy_name rest) _
                  (λ s''. by_answer _ (λ reports h'. h') (λ e h'. absurd h'))
                  (converge_files-Completes s' rest h decrypted.1))
              (λ e h. absurd h))
          (Follows-attempt (monitor setting policy_name changed preparation candidate convergences)
            Keeps Completes (λ s' outcome h. h) s (converge_file setting policy_name ready)
            (converge_file-Keeps s ready kept decrypted.0))

    pub converge_ready-Ends :
        (s : Progress) (checked : Preflight)
        → IsUntouched s
        → All (IsDecrypted setting.tools convergences) checked.0
        → Follows
            (monitor setting policy_name changed preparation candidate convergences)
            (Ends setting policy_name changed preparation candidate convergences)
            s
            (converge_ready setting policy_name changed preparation candidate checked)
    unfolding converge_ready
    converge_ready-Ends s ([], failures) untouched decrypted = untouched
    converge_ready-Ends s (first ∷ others, failures) untouched decrypted =
        Follows-bind (monitor setting policy_name changed preparation candidate convergences)
          Publishes (Ends setting policy_name changed preparation candidate convergences) s
          (publish_changed changed preparation candidate) _
          (λ s'.
            by_answer _
              (λ _ h.
                Follows-bind
                  (monitor setting policy_name changed preparation candidate convergences) Completes
                  (Ends setting policy_name changed preparation candidate convergences) s'
                  (converge_files setting policy_name (first ∷ others)) _
                  (λ s''.
                    by_answer _
                      (λ reports h'. Ends-disposition s'' changed (reports ++ failures) refl h')
                      (λ e h'. absurd h'))
                  (converge_files-Completes s' (first ∷ others) h.0 decrypted))
              (λ e h. h))
          (publish_changed-Publishes s changed untouched refl)
