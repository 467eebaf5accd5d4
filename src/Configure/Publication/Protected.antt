-- ===== src/Configure/Publication/Protected.antt =====
-- src/configure.rs: every run of `publish_registration`.
use gitveil.Base.{
  Bool, true, false, not, List, [], ◌∷◌, some, ◌≡◌, inl, refl, ap, ◌∙◌, ◌==◌, eq_refl, is_empty,
  IndexMap, Outcome, ok, map_err, map_err-ok, fail_if, all, nat_eq, list_eq, option_eq,
}
use gitveil.ManagedPath.{ManagedPath}
use gitveil.Git.{IgnoreMatch}
use gitveil.Configure.Visibility.{
  VisibilityViolation, visibility_violations, visibility_violations_iff,
}
use gitveil.Configure.Command.{ignore_states}
use gitveil.Workflow.{ErrorCategory}
use gitveil.Script.{fail, ◌>>=◌, ◌>>◌}
use gitveil.Script.Monitor.{
  by_answer, Follows, Follows-bind, Follows-done, Event, Runs, Accepts, state_after, Runs-Accepts,
}
use gitveil.Publishing.{Setting, is_fresh, write_atomic}
use gitveil.Configure.Publication.{
  RegistrationPublication, unless_changed, ensure_configuration_fresh,
  ensure_ignore_candidate_fresh, restore_if, when_changed, was_ignored, when_visible, judge,
  publish_registration,
}
use gitveil.Configure.Publication.Order.{
  Seen, nothing_seen, IsHidden, monitor, Ends, Waits, write_ignore-Waits, SeesIgnore,
  ensure_ignore_candidate_fresh-SeesIgnore, SeesManifest, is_fresh-SeesManifest,
}
use gitveil.Configure.Publication.Recovery.{Stops, restore_if-Stops}
use gitveil.Configure.Publication.Finished.{recover-Ends, finish-Ends}

module _ (setting : Setting) (publication : RegistrationPublication)
    (apart : (publication.ignore.path == publication.manifest.path) ≡ false) where
  when_visible-Ends :
      (s : Seen) (previous : IndexMap ManagedPath IgnoreMatch) (visible : Bool)
      → s.replaced ≡ false
      → (visible ≡ true → IsHidden setting publication s)
      → Follows
          (monitor setting publication)
          (Ends setting publication)
          s
          (when_visible setting publication previous visible)
  when_visible-Ends s previous true idle hidden =
      finish-Ends setting publication apart s idle (hidden refl)
  when_visible-Ends s previous false idle hidden =
      Follows-bind (monitor setting publication) Stops (Ends setting publication) s
        (restore_if (all (was_ignored previous) publication.existing_plaintext) publication.ignore)
        (λ _. fail ErrorCategory.configuration) (λ s'. by_answer _ (λ _ h. tt) (λ e h. tt))
        (restore_if-Stops setting publication apart s
          (all (was_ignored previous) publication.existing_plaintext) idle)

  no_violations_left :
      (violations : List VisibilityViolation) → is_empty violations ≡ true → violations ≡ []
  no_violations_left [] h = refl
  no_violations_left (v ∷ rest) h = cc

  judge-Ends :
      (s : Seen) (previous matches : IndexMap ManagedPath IgnoreMatch)
      → s.replaced ≡ false
      → s.matches ≡ some (ok matches)
      → Follows
          (monitor setting publication)
          (Ends setting publication)
          s
          (judge setting publication previous matches)
  judge-Ends s previous matches idle found =
      Follows-done (monitor setting publication) (Ends setting publication) s
        (map_err (λ _. ErrorCategory.integrity)
          (visibility_violations publication.plan.manifest (ignore_states matches)))
        (λ violations. when_visible setting publication previous (is_empty violations))
        (λ violations judged. when_visible-Ends s previous (is_empty violations) idle (λ none_left.
          (
            matches,
            found,
            (visibility_violations_iff publication.plan.manifest (ignore_states matches)).0 (
                map_err-ok (λ _. ErrorCategory.integrity)
                  (visibility_violations publication.plan.manifest (ignore_states matches)) judged
                ∙ ap ok (no_violations_left violations none_left)),
          )))
        (λ e. tt)

  -- What follows the second answer of Git.
  answered-Ends :
      (s : Seen) (previous matches : IndexMap ManagedPath IgnoreMatch)
      → s.replaced ≡ false
      → s.matches ≡ some (ok matches)
      → Follows (monitor setting publication) (Ends setting publication) s (
          ensure_ignore_candidate_fresh publication.ignore
          >> (is_fresh publication.manifest
              >>= when_changed setting publication (judge setting publication previous matches)))
  answered-Ends s previous matches idle found =
      Follows-bind (monitor setting publication) (SeesIgnore setting publication apart s)
        (Ends setting publication) s (ensure_ignore_candidate_fresh publication.ignore) _
        (λ s'.
          by_answer _
            (λ _ h.
              Follows-bind (monitor setting publication) (SeesManifest setting publication apart s')
                (Ends setting publication) s' (is_fresh publication.manifest) _
                (λ s''.
                  by_answer _
                    (fresh_answer s' s'' (ap (λ (x : Seen). x.replaced) h ∙ idle)
                      (ap (λ (x : Seen). x.matches) h ∙ found))
                    (λ e h'. tt))
                (is_fresh-SeesManifest setting publication apart s'))
            (λ e h. tt))
        (ensure_ignore_candidate_fresh-SeesIgnore setting publication apart s)
    where
      fresh_answer :
          (s' s'' : Seen)
          → s'.replaced ≡ false
          → s'.matches ≡ some (ok matches)
          → (fresh : Bool) → SeesManifest setting publication apart s' s'' (ok fresh)
          → Follows
              (monitor setting publication)
              (Ends setting publication)
              s''
              (when_changed setting publication (judge setting publication previous matches) fresh)
      fresh_answer s' s'' idle' found' false h =
          recover-Ends setting publication apart s'' (h ∙ idle')
      fresh_answer s' s'' idle' found' true h =
          judge-Ends s'' previous matches (ap (λ (x : Seen). x.replaced) h ∙ idle')
            (ap (λ (x : Seen). x.matches) h ∙ found')

  unless_changed-Waits :
      (s : Seen) (fresh : Bool)
      → s.replaced ≡ false
      → Follows (monitor setting publication) (Waits setting publication) s (unless_changed fresh)
  unless_changed-Waits s true idle = idle
  unless_changed-Waits s false idle = tt

  configuration_fresh-Waits :
      (s : Seen)
      → s.replaced ≡ false
      → Follows
          (monitor setting publication)
          (Waits setting publication)
          s
          (ensure_configuration_fresh publication.manifest publication.ignore)
  unfolding ensure_configuration_fresh
  configuration_fresh-Waits s idle = (
    tt,
    by_answer _
        (λ found. rw (eq_refl publication.manifest.path) (
          Follows-done (monitor setting publication) (Waits setting publication)
            (record s { manifest = some (ok found) })
            (fail_if (not (found == some publication.manifest.original)) ErrorCategory.concurrency)
            _
            (λ _ _. (
              tt,
              by_answer _
                  (λ again.
                    rw (apart, eq_refl publication.ignore.path)
                      (unless_changed-Waits
                        (record s { manifest = some (ok found); ignore = some (ok again) })
                        (again == publication.ignore.original) idle))
                  (λ e. tt),
            ))
            (λ e. tt)))
        (λ e. tt),
  )

  publish-Ends :
      Follows
        (monitor setting publication)
        (Ends setting publication)
        nothing_seen
        (publish_registration setting publication)
  unfolding publish_registration
  publish-Ends = (
    tt,
    by_answer _
        (λ previous.
          Follows-bind (monitor setting publication) (Waits setting publication)
            (Ends setting publication) _
            (ensure_configuration_fresh publication.manifest publication.ignore) _
            (λ s.
              by_answer _
                (λ _ idle.
                  Follows-bind (monitor setting publication) (Waits setting publication)
                    (Ends setting publication) s
                    (write_atomic publication.ignore.path publication.ignore.candidate
                      publication.ignore.mode true)
                    _
                    (λ s'.
                      by_answer _
                        (λ _ idle'. (
                          tt,
                          by_answer _
                              (λ matches.
                                answered-Ends (record s' { matches = some (ok matches) }) previous
                                  matches idle' refl)
                              (λ e. tt),
                        ))
                        (λ e h. tt))
                    (write_ignore-Waits setting publication apart s publication.ignore.candidate
                      publication.ignore.mode idle (inl refl)))
                (λ e h. tt))
            (configuration_fresh-Waits _ refl))
        (λ e. tt),
  )

-- Where `.gitignore` and the manifest have different paths: every run of the publication of a
-- registration, whatever it is answered and whatever other processes write in between, changes
-- nothing but these two documents and the modes of the plaintexts that exist. The manifest is
-- replaced at most once and last, only by the candidate and only when both documents were last seen
-- as expected, when Git had answered that it ignores every plaintext of the plan and sees every
-- ciphertext, and when all these plaintexts had been made owner-only. `.gitignore` is only given the
-- candidate, the text before it, or one with a block for the paths of the plan, and is only removed
-- where there was none. A success has replaced the manifest.
pub publish_registration-Accepts :
    (setting : Setting) (publication : RegistrationPublication)
    → (publication.ignore.path == publication.manifest.path) ≡ false
    → {log : List Event} {outcome : Outcome ErrorCategory (Unit {0})}
    → Runs (publish_registration setting publication) log outcome
    → Accepts (monitor setting publication) nothing_seen log
      × Ends setting publication
          (state_after (monitor setting publication) nothing_seen log)
          outcome
publish_registration-Accepts setting publication apart r =
    Runs-Accepts (monitor setting publication) (Ends setting publication) nothing_seen
      (publish_registration setting publication) (publish-Ends setting publication apart) r
