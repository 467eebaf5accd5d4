-- ===== src/Configure/Publication/Order.antt =====
-- src/configure.rs: the order in which `publish_registration` changes files, whatever it is answered
-- and whatever other processes write in between.
use gitveil.Base.{
  ℕ, Bool, true, false, List, [], ◌∷◌, Option, none, some, ◌≡◌, ◌⊎◌, inr, refl, ap, ◌==◌, eq_iff,
  eq_refl, if◌then◌else◌, All, contains, IndexMap, Outcome, ok, err, nat_eq, list_eq, option_eq,
  arith,
}
use gitveil.ManagedPath.{ManagedPath}
use gitveil.Git.{IgnoreMatch}
use gitveil.Configure.Ignore.{render_managed_ignore}
use gitveil.Configure.Visibility.{merge_protection_paths, IsVisible}
use gitveil.Configure.Command.{
  manifest_paths, ignore_states, tighten, tighten_plaintext_permissions,
}
use gitveil.Workflow.{ErrorCategory}
use gitveil.Script.{
  Request, Result, done, ◌>>=◌, ◌>>◌, read_file, persist, persist_noclobber, remove_file,
  owner_only, ignore_matches, save,
}
use gitveil.Script.Monitor.{Monitor, by_answer, Follows, Follows-weaken}
use gitveil.Publishing.{Setting, is_fresh, write_atomic}
use gitveil.Configure.Publication.{
  RegistrationPublication, unless_changed, ensure_ignore_candidate_fresh,
}

-- The last answers about the two documents and about what Git ignores, the plaintexts that have been
-- made owner-only, and whether the manifest has been replaced.
pub record Seen : Type 0 where
  pub manifest : Option (Outcome ErrorCategory (Option (List ℕ)))
  pub ignore : Option (Outcome ErrorCategory (Option (List ℕ)))
  pub matches : Option (Outcome ErrorCategory (IndexMap ManagedPath IgnoreMatch))
  pub tightened : List ManagedPath
  pub replaced : Bool

abbrev pub nothing_seen : Seen
nothing_seen = record {
  manifest = none;
  ignore = none;
  matches = none;
  tightened = [];
  replaced = false;
}

module _ (setting : Setting) (publication : RegistrationPublication) where
  -- Git has answered that it ignores each plaintext of the plan, and sees each ciphertext.
  abbrev pub IsHidden : Seen → Type 0
  IsHidden s =
      (matches : IndexMap ManagedPath IgnoreMatch) × (s.matches ≡ some (ok matches))
      × All (IsVisible (ignore_states matches)) publication.plan.manifest.entries

  abbrev pub IsPublication : Seen → ManagedPath → List ℕ → ℕ → Type 0
  IsPublication s place bytes mode =
      (place ≡ publication.manifest.path)
      × (bytes ≡ publication.manifest_candidate)
      × (mode ≡ publication.manifest.mode)
      × (s.replaced ≡ false)
      × (s.manifest ≡ some (ok (some publication.manifest.original)))
      × (s.ignore ≡ some (ok (some publication.ignore.candidate)))
      × IsHidden s
      × All (λ path. contains s.tightened path ≡ true) publication.existing_plaintext

  -- The texts that `.gitignore` is given: the candidate, the one before it, or another text with a
  -- block for every path of the plan.
  abbrev pub IsIgnoreText : List ℕ → Type 0
  IsIgnoreText bytes =
      (bytes ≡ publication.ignore.candidate)
      ⊎ ((publication.ignore.original ≡ some bytes)
          ⊎ ((text : List ℕ) × (latest : List ManagedPath) × (render_managed_ignore text (
                  merge_protection_paths setting.tables latest
                    (manifest_paths publication.plan.manifest))
                ≡ ok bytes)))

  abbrev pub IsProtection : Seen → ManagedPath → List ℕ → Type 0
  IsProtection s place bytes =
      (place ≡ publication.ignore.path) × (s.replaced ≡ false) × IsIgnoreText bytes

  abbrev pub Allows : Seen → Request → Type 0
  Allows s (persist place bytes mode) =
      IsPublication s place bytes mode ⊎ IsProtection s place bytes
  Allows s (remove_file place) =
      (place ≡ publication.ignore.path)
      × (s.replaced ≡ false)
      × (publication.ignore.original ≡ none)
      × (s.ignore ≡ some (ok (some publication.ignore.candidate)))
  Allows s (owner_only place) =
      (contains publication.existing_plaintext place ≡ true) × (s.replaced ≡ false)
  Allows s (persist_noclobber place bytes mode) = ⊥
  Allows s (save place baseline) = ⊥
  Allows s _ = Unit

  abbrev pub tightened_by : Seen → ManagedPath → Outcome ErrorCategory Bool → Seen
  tightened_by s place (ok true) = record s { tightened = place ∷ s.tightened }
  tightened_by s place _ = s

  abbrev pub after : Seen → (q : Request) → Outcome ErrorCategory (Result q) → Seen
  after s (read_file place) answer =
      if place == publication.manifest.path
      then record s { manifest = some answer }
      else if place == publication.ignore.path
      then record s { ignore = some answer }
      else s
  after s (ignore_matches places) answer = record s { matches = some answer }
  after s (owner_only place) answer = tightened_by s place answer
  after s (persist place bytes mode) answer =
      if place == publication.manifest.path
      then record s { replaced = true }
      else record s { ignore = none; matches = none }
  after s (remove_file place) answer = record s { ignore = none; matches = none }
  after s _ answer = s

  abbrev pub monitor : Monitor
  monitor = record { State = Seen; Allows = Allows; after = after }

  -- A successful publication has replaced the manifest.
  abbrev pub Ends : Seen → Outcome ErrorCategory (Unit {0}) → Type 0
  Ends s (ok _) = s.replaced ≡ true
  Ends s (err e) = Unit

  -- The manifest is as it was, or the command has failed.
  abbrev pub Waits : {A : Type 0} → Seen → Outcome ErrorCategory A → Type 0
  Waits s (ok _) = s.replaced ≡ false
  Waits s (err e) = Unit

  module _ (apart : (publication.ignore.path == publication.manifest.path) ≡ false) where
    pub write_ignore-Waits :
        (s : Seen) (bytes : List ℕ) (mode : ℕ)
        → s.replaced ≡ false
        → IsIgnoreText bytes
        → Follows monitor Waits s (write_atomic publication.ignore.path bytes mode true)
    unfolding write_atomic
    write_ignore-Waits s bytes mode idle text = (
      tt,
      by_answer _
          (λ _. (
            tt,
            by_answer _
                (λ _. (
                  inr (refl, idle, text),
                  rw apart (by_answer _ (λ _. (tt, by_answer _ (λ _. idle) (λ e. tt))) (λ e. tt)),
                ))
                (λ e. tt),
          ))
          (λ e. tt),
    )

    -- After a check that `.gitignore` is the candidate.
    abbrev pub SeesIgnore : Seen → Seen → Outcome ErrorCategory (Unit {0}) → Type 0
    SeesIgnore before s (ok _) =
        s ≡ record before { ignore = some (ok (some publication.ignore.candidate)) }
    SeesIgnore before s (err e) = Unit

    sees_candidate :
        (s : Seen) (found : Option (List ℕ)) (fresh : Bool)
        → (found == some publication.ignore.candidate) ≡ fresh
        → Follows monitor
            (SeesIgnore s)
            (record s { ignore = some (ok found) })
            (unless_changed fresh)
    sees_candidate s found false h = tt
    sees_candidate s found true h =
        ap (λ f. record s { ignore = some (ok f) })
          ((eq_iff found (some publication.ignore.candidate)).0 h)

    pub ensure_ignore_candidate_fresh-SeesIgnore :
        (s : Seen)
        → Follows monitor (SeesIgnore s) s (ensure_ignore_candidate_fresh publication.ignore)
    unfolding ensure_ignore_candidate_fresh
    ensure_ignore_candidate_fresh-SeesIgnore s = (
      tt,
      by_answer _
          (λ found.
            rw (apart, eq_refl publication.ignore.path)
              (sees_candidate s found (found == some publication.ignore.candidate) refl))
          (λ e. tt),
    )

    -- After a check of the manifest.
    abbrev pub SeesManifest : Seen → Seen → Outcome ErrorCategory Bool → Type 0
    SeesManifest before s (ok true) =
        s ≡ record before { manifest = some (ok (some publication.manifest.original)) }
    SeesManifest before s (ok false) = s.replaced ≡ before.replaced
    SeesManifest before s (err e) = Unit

    sees_original :
        (s : Seen) (found : Option (List ℕ)) (fresh : Bool)
        → (found == some publication.manifest.original) ≡ fresh
        → SeesManifest s (record s { manifest = some (ok found) }) (ok fresh)
    sees_original s found false h = refl
    sees_original s found true h =
        ap (λ f. record s { manifest = some (ok f) })
          ((eq_iff found (some publication.manifest.original)).0 h)

    pub is_fresh-SeesManifest :
        (s : Seen) → Follows monitor (SeesManifest s) s (is_fresh publication.manifest)
    unfolding is_fresh
    is_fresh-SeesManifest s = (
      tt,
      by_answer _
          (λ found.
            rw (eq_refl publication.manifest.path)
              (sees_original s found (found == some publication.manifest.original) refl))
          (λ e. tt),
    )

    -- After the loop over the plaintexts.
    abbrev pub Tightens : List ManagedPath → Seen → Seen → Outcome ErrorCategory (Unit {0}) → Type 0
    Tightens paths before s (ok _) =
        (list : List ManagedPath) × (s ≡ record before { tightened = list })
        × All (λ path. contains list path ≡ true) paths
        × ((path : ManagedPath) → contains before.tightened path ≡ true → contains list path ≡ true)
    Tightens paths before s (err e) = Unit

    Tightens-next :
        (s : Seen) (path : ManagedPath) (rest : List ManagedPath) (s' : Seen)
        (outcome : Outcome ErrorCategory (Unit {0}))
        → Tightens rest (record s { tightened = path ∷ s.tightened }) s' outcome
        → Tightens (path ∷ rest) s s' outcome
    unfolding contains
    Tightens-next s path rest s' (err e) h = tt
    Tightens-next s path rest s' (ok _) (list, same, each, kept) =
        (list, same, (kept path (rw (eq_refl path) refl), each), λ p h. kept p (ground arith))

    tightened_answer :
        (s : Seen) (path : ManagedPath) (rest : List ManagedPath)
        → Follows monitor
            (Tightens rest (record s { tightened = path ∷ s.tightened }))
            (record s { tightened = path ∷ s.tightened })
            (tighten_plaintext_permissions rest)
        → (answer : Outcome ErrorCategory Bool)
        → Follows monitor
            (Tightens (path ∷ rest) s)
            (tightened_by s path answer)
            (done answer >>= λ found. done (tighten found) >> tighten_plaintext_permissions rest)
    tightened_answer s path rest later (ok true) =
        Follows-weaken monitor (Tightens rest (record s { tightened = path ∷ s.tightened }))
          (Tightens (path ∷ rest) s) (Tightens-next s path rest)
          (record s { tightened = path ∷ s.tightened }) (tighten_plaintext_permissions rest) later
    tightened_answer s path rest later (ok false) = tt
    tightened_answer s path rest later (err e) = tt

    pub tighten-Tightens :
        (s : Seen) (paths : List ManagedPath)
        → s.replaced ≡ false
        → All (λ path. contains publication.existing_plaintext path ≡ true) paths
        → Follows monitor (Tightens paths s) s (tighten_plaintext_permissions paths)
    unfolding tighten_plaintext_permissions
    tighten-Tightens s [] idle within = (s.tightened, refl, tt, λ path h. h)
    tighten-Tightens s (path ∷ rest) idle within = (
      (within.0, idle),
      tightened_answer s path rest
          (tighten-Tightens (record s { tightened = path ∷ s.tightened }) rest idle within.1),
    )
