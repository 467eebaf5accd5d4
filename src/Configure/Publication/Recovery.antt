-- ===== src/Configure/Publication/Recovery.antt =====
-- src/configure.rs: the recovery after a change by another process, and the removal of the candidate.
use gitveil.Base.{
  ℕ, Bool, true, false, not, List, Option, none, some, ◌≡◌, inl, inr, refl, ap, ◌∙◌, ◌==◌,
  Bool-cases, Outcome, ok, map_err, map_err-ok, fail_if, nat_eq, list_eq, option_eq,
}
use gitveil.ManagedPath.{ManagedPath}
use gitveil.Configure.Ignore.{render_managed_ignore}
use gitveil.Configure.Visibility.{merge_protection_paths}
use gitveil.Configure.Command.{manifest_paths, or_empty}
use gitveil.Workflow.{ErrorCategory}
use gitveil.Script.{Script, ask, ◌>>=◌, ◌>>◌, read_file}
use gitveil.Script.Monitor.{by_answer, Follows, Follows-bind, Follows-done, Follows-weaken}
use gitveil.Publishing.{Setting, manifest_path, or_mode, write_atomic}
use gitveil.Configure.Publication.{
  RegistrationPublication, unless_changed, ensure_ignore_candidate_fresh, latest_paths,
  recover_ignore, recover_concurrent_manifest, sync_removed, restore_optional,
  restore_ignore_candidate, restore_if,
}
use gitveil.Configure.Publication.Order.{
  Seen, IsIgnoreText, after, monitor, Waits, write_ignore-Waits, SeesIgnore,
  ensure_ignore_candidate_fresh-SeesIgnore,
}

-- Nothing is claimed at the end.
abbrev pub Stops : {A : Type 0} → Seen → Outcome ErrorCategory A → Type 0
Stops s outcome = Unit {0}

module _ (setting : Setting) (publication : RegistrationPublication)
    (apart : (publication.ignore.path == publication.manifest.path) ≡ false) where
  write_ignore-Stops :
      (s : Seen) (bytes : List ℕ) (mode : ℕ)
      → s.replaced ≡ false
      → IsIgnoreText setting publication bytes
      → Follows
          (monitor setting publication)
          Stops
          s
          (write_atomic publication.ignore.path bytes mode true)
  write_ignore-Stops s bytes mode idle text =
      Follows-weaken (monitor setting publication) (Waits setting publication) Stops (λ s' o h. tt)
        s (write_atomic publication.ignore.path bytes mode true)
        (write_ignore-Waits setting publication apart s bytes mode idle text)

  read-idle :
      (s : Seen) (place : ManagedPath) (answer : Outcome ErrorCategory (Option (List ℕ)))
      → s.replaced ≡ false
      → (after setting publication s (read_file place) answer).replaced ≡ false
  read-idle s place answer idle = elim (Bool-cases (place == publication.manifest.path)) [
    | inl h ↦ rw h idle
    | inr h ↦ elim (Bool-cases (place == publication.ignore.path)) [
      | inl h' ↦ rw (h, h') idle
      | inr h' ↦ rw (h, h') idle
    ]
  ]

  -- A read before the publication, of any file.
  Follows-read :
      {A : Type 0} (s : Seen) (place : ManagedPath) (f : Option (List ℕ) → Script A)
      → s.replaced ≡ false
      → ((s' : Seen) (found : Option (List ℕ))
          → s'.replaced ≡ false
          → Follows (monitor setting publication) Stops s' (f found))
      → Follows (monitor setting publication) Stops s (ask (read_file place) >>= f)
  Follows-read s place f idle next =
      (tt, by_answer _ (λ found. next _ found (read-idle s place (ok found) idle)) (λ e. tt))

  recover_ignore-Stops :
      (s : Seen) (current recovered : List ℕ) (mode : ℕ) (same : Bool)
      → s.replaced ≡ false
      → IsIgnoreText setting publication recovered
      → Follows
          (monitor setting publication)
          Stops
          s
          (recover_ignore publication.ignore current recovered mode same)
  recover_ignore-Stops s current recovered mode true idle text = tt
  recover_ignore-Stops s current recovered mode false idle text =
      Follows-read s publication.ignore.path
        (λ again.
          unless_changed (again == some current)
          >> write_atomic publication.ignore.path recovered mode true)
        idle
        (λ s' again idle'.
          Follows-done (monitor setting publication) Stops s'
            (fail_if (not (again == some current)) ErrorCategory.concurrency)
            (λ _. write_atomic publication.ignore.path recovered mode true)
            (λ _ _. write_ignore-Stops s' recovered mode idle' text) (λ e. tt))

  pub recover-Stops :
      (s : Seen)
      → s.replaced ≡ false
      → Follows
          (monitor setting publication)
          Stops
          s
          (recover_concurrent_manifest setting publication.plan publication.ignore)
  unfolding recover_concurrent_manifest
  recover-Stops s idle = Follows-read s manifest_path _ idle (λ s' latest idle'.
      Follows-read s' publication.ignore.path _ idle' (λ s'' found idle''. (
        tt,
        by_answer _
            (λ mode.
              let protected =
                merge_protection_paths setting.tables (latest_paths setting latest)
                  (manifest_paths publication.plan.manifest) in
              Follows-done (monitor setting publication) Stops s''
                (map_err (λ _. ErrorCategory.configuration)
                  (render_managed_ignore (or_empty found) protected))
                _
                (λ recovered rendered.
                  recover_ignore-Stops s'' (or_empty found) recovered
                    (or_mode publication.ignore.mode mode) (or_empty found == recovered) idle''
                    (inr (
                      inr (
                        or_empty found,
                        latest_paths setting latest,
                        map_err-ok (λ _. ErrorCategory.configuration)
                            (render_managed_ignore (or_empty found) protected) rendered,
                      ))))
                (λ e. tt))
            (λ e. tt),
      )))

  sync_removed-Stops :
      (removed : Bool) (s : Seen)
      → Follows (monitor setting publication) Stops s (sync_removed publication.ignore.path removed)
  sync_removed-Stops true s = (tt, λ synced. tt)
  sync_removed-Stops false s = tt

  restore_optional-Stops :
      (s : Seen) (original : Option (List ℕ))
      → publication.ignore.original ≡ original
      → s.replaced ≡ false
      → s.ignore ≡ some (ok (some publication.ignore.candidate))
      → Follows
          (monitor setting publication)
          Stops
          s
          (restore_optional publication.ignore.path original publication.ignore.mode)
  unfolding restore_optional
  restore_optional-Stops s (some bytes) same idle seen =
      write_ignore-Stops s bytes publication.ignore.mode idle (inr (inl same))
  restore_optional-Stops s none same idle seen = (
    tt,
    by_answer _
        (λ _. (
          (refl, idle, same, seen),
          by_answer _ (λ removed. sync_removed-Stops removed _) (λ e. tt),
        ))
        (λ e. tt),
  )

  pub restore_if-Stops :
      (s : Seen) (quiet : Bool)
      → s.replaced ≡ false
      → Follows (monitor setting publication) Stops s (restore_if quiet publication.ignore)
  unfolding restore_ignore_candidate
  restore_if-Stops s false idle = tt
  restore_if-Stops s true idle =
      Follows-bind (monitor setting publication) (SeesIgnore setting publication apart s) Stops s
        (ensure_ignore_candidate_fresh publication.ignore)
        (λ _.
          restore_optional publication.ignore.path publication.ignore.original
            publication.ignore.mode)
        (λ s'.
          by_answer _
            (λ _ h.
              restore_optional-Stops s' publication.ignore.original refl
                (ap (λ (x : Seen). x.replaced) h ∙ idle) (ap (λ (x : Seen). x.ignore) h))
            (λ e h. tt))
        (ensure_ignore_candidate_fresh-SeesIgnore setting publication apart s)
