-- ===== src/Configure/Publication/Finished.antt =====
-- src/configure.rs: the last steps of a publication.
use gitveil.Base.{
  Bool, true, false, List, [], ◌∷◌, some, ◌≡◌, inl, refl, sym, ap, ◌∙◌, subst, ◌==◌, eq_refl, All,
  contains, ok, all, nat_eq, list_eq, option_eq, arith,
}
use gitveil.ManagedPath.{ManagedPath}
use gitveil.Configure.Command.{tighten_plaintext_permissions}
use gitveil.Workflow.{ErrorCategory}
use gitveil.Script.{fail, ◌>>=◌, ◌>>◌}
use gitveil.Script.Monitor.{by_answer, Follows, Follows-bind}
use gitveil.Publishing.{Setting, is_fresh, write_atomic}
use gitveil.Configure.Publication.{
  RegistrationPublication, ensure_ignore_candidate_fresh, recover_concurrent_manifest, when_changed,
  finish_registration_publication,
}
use gitveil.Configure.Publication.Order.{
  Seen, IsHidden, IsPublication, monitor, Ends, SeesIgnore,
  ensure_ignore_candidate_fresh-SeesIgnore, SeesManifest, is_fresh-SeesManifest, Tightens,
  tighten-Tightens,
}
use gitveil.Configure.Publication.Recovery.{Stops, recover-Stops}

-- Each member of a list is in a list that has them all.
All-contains :
    (all sub : List ManagedPath)
    → ((path : ManagedPath) → contains sub path ≡ true → contains all path ≡ true)
    → All (λ path. contains all path ≡ true) sub
unfolding contains
All-contains all [] within = tt
All-contains all (path ∷ rest) within =
    (within path (rw (eq_refl path) refl), All-contains all rest (λ p h. within p (ground arith)))

module _ (setting : Setting) (publication : RegistrationPublication)
    (apart : (publication.ignore.path == publication.manifest.path) ≡ false) where
  write_manifest-Ends :
      (s : Seen)
      → IsPublication setting publication s publication.manifest.path publication.manifest_candidate
          publication.manifest.mode
      → Follows (monitor setting publication) (Ends setting publication) s (
          write_atomic publication.manifest.path publication.manifest_candidate
            publication.manifest.mode true)
  unfolding write_atomic
  write_manifest-Ends s ready = (
    tt,
    by_answer _
        (λ _. (
          tt,
          by_answer _
              (λ _. (
                inl ready,
                rw (eq_refl publication.manifest.path)
                    (by_answer _ (λ _. (tt, by_answer _ (λ _. refl) (λ e. tt))) (λ e. tt)),
              ))
              (λ e. tt),
        ))
        (λ e. tt),
  )

  -- The command fails after the recovery.
  pub recover-Ends :
      (s : Seen)
      → s.replaced ≡ false
      → Follows (monitor setting publication) (Ends setting publication) s (
          recover_concurrent_manifest setting publication.plan publication.ignore
          >> fail ErrorCategory.concurrency)
  recover-Ends s idle =
      Follows-bind (monitor setting publication) Stops (Ends setting publication) s
        (recover_concurrent_manifest setting publication.plan publication.ignore)
        (λ _. fail ErrorCategory.concurrency) (λ s'. by_answer _ (λ _ h. tt) (λ e h. tt))
        (recover-Stops setting publication apart s idle)

  -- The last check, from the state before it.
  check-Ends :
      (s : Seen)
      → s.replaced ≡ false
      → s.ignore ≡ some (ok (some publication.ignore.candidate))
      → IsHidden setting publication s
      → All (λ path. contains s.tightened path ≡ true) publication.existing_plaintext
      → Follows (monitor setting publication) (Ends setting publication) s (
          is_fresh publication.manifest
          >>= when_changed setting publication (
              write_atomic publication.manifest.path publication.manifest_candidate
                publication.manifest.mode true))
  check-Ends s idle seen (matches, found, hidden) private =
      Follows-bind (monitor setting publication) (SeesManifest setting publication apart s)
        (Ends setting publication) s (is_fresh publication.manifest)
        (when_changed setting publication (
          write_atomic publication.manifest.path publication.manifest_candidate
            publication.manifest.mode true))
        (λ s'. by_answer _ (fresh_answer s') (λ e h. tt))
        (is_fresh-SeesManifest setting publication apart s)
    where
      fresh_answer :
          (s' : Seen) (fresh : Bool)
          → SeesManifest setting publication apart s s' (ok fresh)
          → Follows (monitor setting publication) (Ends setting publication) s' (
              when_changed setting publication
                (write_atomic publication.manifest.path publication.manifest_candidate
                  publication.manifest.mode true)
                fresh)
      fresh_answer s' false h = recover-Ends s' (h ∙ idle)
      fresh_answer s' true h = write_manifest-Ends s' (
        refl,
        refl,
        refl,
        ap (λ (x : Seen). x.replaced) h ∙ idle,
        ap (λ (x : Seen). x.manifest) h,
        ap (λ (x : Seen). x.ignore) h ∙ seen,
        (matches, ap (λ (x : Seen). x.matches) h ∙ found, hidden),
        subst
            (λ (x : Seen).
              All (λ path. contains x.tightened path ≡ true) publication.existing_plaintext)
            (sym h) private,
      )

  pub finish-Ends :
      (s : Seen)
      → s.replaced ≡ false
      → IsHidden setting publication s
      → Follows
          (monitor setting publication)
          (Ends setting publication)
          s
          (finish_registration_publication setting publication)
  unfolding finish_registration_publication
  finish-Ends s idle (matches, found, hidden) =
      Follows-bind (monitor setting publication)
        (Tightens setting publication apart publication.existing_plaintext s)
        (Ends setting publication) s (tighten_plaintext_permissions publication.existing_plaintext)
        _
        (λ s'.
          by_answer _
            (λ _ (list, same, private, kept).
              Follows-bind (monitor setting publication) (SeesIgnore setting publication apart s')
                (Ends setting publication) s' (ensure_ignore_candidate_fresh publication.ignore) _
                (λ s''.
                  by_answer _
                    (λ _ h.
                      check-Ends s'' (ap (λ (x : Seen). x.replaced) (h ∙ rest_of same) ∙ idle)
                        (ap (λ (x : Seen). x.ignore) h)
                        (matches, ap (λ (x : Seen). x.matches) (h ∙ rest_of same) ∙ found, hidden)
                        (subst
                          (λ (x : Seen).
                            All (λ path. contains x.tightened path ≡ true)
                              publication.existing_plaintext)
                          (sym (h ∙ rest_of same)) private))
                    (λ e h. tt))
                (ensure_ignore_candidate_fresh-SeesIgnore setting publication apart s'))
            (λ e h. tt))
        (tighten-Tightens setting publication apart s publication.existing_plaintext idle (
          All-contains publication.existing_plaintext publication.existing_plaintext (λ path h. h)))
    where
      rest_of :
          {x y : Seen}
          → x ≡ y
          → ◌≡◌ {A = Seen}
              (record x { ignore = some (ok (some publication.ignore.candidate)) })
              (record y { ignore = some (ok (some publication.ignore.candidate)) })
      rest_of e =
          ap (λ (x : Seen). record x { ignore = some (ok (some publication.ignore.candidate)) }) e
