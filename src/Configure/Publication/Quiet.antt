-- ===== src/Configure/Publication/Quiet.antt =====
-- src/configure.rs: a publication that no other process disturbs.
use gitveil.Base.{
  ℕ, true, false, List, [], ◌∷◌, some, ◌≡◌, refl, sym, ap, ◌∙◌, ◌==◌, ◌≢◌, ◌⊎◌, inl, inr, contains,
  eq_iff, Bool-cases, eq_refl, is_some, is_empty, All, IndexMap, ok, map_err, nat_eq, list_eq,
  option_eq, arith,
}
use gitveil.ManagedPath.{ManagedPath}
use gitveil.Git.{IgnoreMatch}
use gitveil.Configure.Visibility.{IsVisible, visibility_violations, visibility_violations_iff}
use gitveil.Configure.Command.{
  visibility_paths, ignore_states, tighten, tighten_plaintext_permissions,
}
use gitveil.Workflow.{ErrorCategory}
use gitveil.Script.{done, ask, ◌>>◌, owner_only}
use gitveil.Script.Disk.{Disk, Git, put, put-same, put-other, put_file, private_mode, run, run-then}
use gitveil.Publishing.{Setting, ManifestPreparation, is_fresh, write_atomic}
use gitveil.Configure.Publication.{
  RegistrationPublication, ensure_configuration_fresh, ensure_ignore_candidate_fresh, when_changed,
  finish_registration_publication, when_visible, judge, publish_registration,
}

-- The disk on which the files of a list are owner-only.
abbrev pub all_private : List ManagedPath → Disk → Disk
all_private [] disk = disk
all_private (path ∷ rest) disk =
    all_private rest (record disk { modes = put disk.modes path private_mode })

all_private-files :
    (paths : List ManagedPath) (disk : Disk) → (all_private paths disk).files ≡ disk.files
all_private-files [] disk = refl
all_private-files (path ∷ rest) disk =
    all_private-files rest (record disk { modes = put disk.modes path private_mode })

abbrev pub Exists : Disk → ManagedPath → Type 0
Exists disk path = is_some (disk.files path) ≡ true

module _ (git : Git) where
  run-owner_only :
      (disk : Disk) (path : ManagedPath)
      → Exists disk path
      → run git disk (ask (owner_only path))
        ≡ (ok true, record disk { modes = put disk.modes path private_mode })
  unfolding run
  run-owner_only disk path found = rw found refl

  run-tighten :
      (disk : Disk) (paths : List ManagedPath)
      → All (Exists disk) paths
      → run git disk (tighten_plaintext_permissions paths) ≡ (ok tt, all_private paths disk)
  unfolding run tighten_plaintext_permissions
  run-tighten disk [] each = refl
  run-tighten disk (path ∷ rest) each =
      run-then git disk (ask (owner_only path))
        (λ found. done (tighten found) >> tighten_plaintext_permissions rest) true
        (record disk { modes = put disk.modes path private_mode }) _
        (run-owner_only disk path each.0)
        (run-tighten (record disk { modes = put disk.modes path private_mode }) rest each.1)

  run-is_fresh :
      (disk : Disk) (preparation : ManifestPreparation)
      → disk.files preparation.path ≡ some preparation.original
      → run git disk (is_fresh preparation) ≡ (ok true, disk)
  unfolding run is_fresh
  run-is_fresh disk preparation same = rw (same, eq_refl preparation.original) refl

  run-write :
      (disk : Disk) (place : ManagedPath) (bytes : List ℕ) (mode : ℕ)
      → run git disk (write_atomic place bytes mode true) ≡ (ok tt, put_file disk place bytes mode)
  unfolding run write_atomic
  run-write disk place bytes mode = refl

module _ (git : Git) (setting : Setting) (publication : RegistrationPublication) where
  run-ignore_candidate :
      (disk : Disk)
      → disk.files publication.ignore.path ≡ some publication.ignore.candidate
      → run git disk (ensure_ignore_candidate_fresh publication.ignore) ≡ (ok tt, disk)
  unfolding run ensure_ignore_candidate_fresh
  run-ignore_candidate disk same = rw (same, eq_refl publication.ignore.candidate) refl

  run-configuration :
      (disk : Disk)
      → disk.files publication.manifest.path ≡ some publication.manifest.original
      → disk.files publication.ignore.path ≡ publication.ignore.original
      → run git disk (ensure_configuration_fresh publication.manifest publication.ignore)
        ≡ (ok tt, disk)
  unfolding run ensure_configuration_fresh is_fresh
  run-configuration disk same same' =
      rw (same, eq_refl publication.manifest.original, same', eq_refl publication.ignore.original)
        refl

  -- The disk at the end of a publication.
  abbrev pub finished : Disk → Disk
  finished disk =
      put_file (all_private publication.existing_plaintext disk) publication.manifest.path
        publication.manifest_candidate publication.manifest.mode

  run-finish :
      (disk : Disk)
      → All (Exists disk) publication.existing_plaintext
      → disk.files publication.ignore.path ≡ some publication.ignore.candidate
      → disk.files publication.manifest.path ≡ some publication.manifest.original
      → run git disk (finish_registration_publication setting publication) ≡ (ok tt, finished disk)
  unfolding finish_registration_publication
  run-finish disk each same same' =
      let private = all_private publication.existing_plaintext disk in
      let files = all_private-files publication.existing_plaintext disk in
      run-then git disk (tighten_plaintext_permissions publication.existing_plaintext) _ tt private
        _ (run-tighten git disk publication.existing_plaintext each)
        (run-then git private (ensure_ignore_candidate_fresh publication.ignore) _ tt private _
          (run-ignore_candidate private (ap (λ f. f publication.ignore.path) files ∙ same))
          (run-then git private (is_fresh publication.manifest) _ true private _
            (run-is_fresh git private publication.manifest
              (ap (λ f. f publication.manifest.path) files ∙ same'))
            (run-write git private publication.manifest.path publication.manifest_candidate
              publication.manifest.mode)))

  -- The disk when Git is asked the second time.
  abbrev pub protected : Disk → Disk
  protected disk =
      put_file disk publication.ignore.path publication.ignore.candidate publication.ignore.mode

  run-judge :
      (disk : Disk) (previous matches : IndexMap ManagedPath IgnoreMatch)
      → All (IsVisible (ignore_states matches)) publication.plan.manifest.entries
      → All (Exists disk) publication.existing_plaintext
      → disk.files publication.ignore.path ≡ some publication.ignore.candidate
      → disk.files publication.manifest.path ≡ some publication.manifest.original
      → run git disk (judge setting publication previous matches) ≡ (ok tt, finished disk)
  unfolding run
  run-judge disk previous matches hidden each same same' =
      run-then git disk
        (done (
          map_err (λ _. ErrorCategory.integrity)
            (visibility_violations publication.plan.manifest (ignore_states matches))))
        (λ violations. when_visible setting publication previous (is_empty violations)) [] disk _
        (rw ((visibility_violations_iff publication.plan.manifest (ignore_states matches)).1 hidden)
          refl)
        (run-finish disk each same same')

  publish_run :
      (disk : Disk)
      → (publication.manifest.path == publication.ignore.path) ≡ false
      → disk.files publication.manifest.path ≡ some publication.manifest.original
      → disk.files publication.ignore.path ≡ publication.ignore.original
      → All (Exists (protected disk)) publication.existing_plaintext
      → All
          (IsVisible (
            ignore_states
              (git.ignored (protected disk) (visibility_paths publication.plan.manifest.entries))))
          publication.plan.manifest.entries
      → run git disk (publish_registration setting publication) ≡ (ok tt, finished (protected disk))
  unfolding publish_registration run
  publish_run disk apart same same' each hidden =
      let previous = git.ignored disk publication.existing_plaintext in
      let matches =
        git.ignored (protected disk) (visibility_paths publication.plan.manifest.entries) in
      run-then git disk (ensure_configuration_fresh publication.manifest publication.ignore) _ tt
        disk _ (run-configuration disk same same')
        (run-then git (protected disk) (ensure_ignore_candidate_fresh publication.ignore) _ tt
          (protected disk) _
          (run-ignore_candidate (protected disk) (rw (eq_refl publication.ignore.path) refl))
          (run-then git (protected disk) (is_fresh publication.manifest)
            (when_changed setting publication (judge setting publication previous matches)) true
            (protected disk) _
            (run-is_fresh git (protected disk) publication.manifest (rw apart same))
            (run-judge (protected disk) previous matches hidden each
              (rw (eq_refl publication.ignore.path) refl) (rw apart same))))

-- Modes and files of the disk at the end.
all_private-modes :
    (paths : List ManagedPath) (disk : Disk) (path : ManagedPath)
    → (disk.modes path ≡ private_mode) ⊎ (contains paths path ≡ true)
    → (all_private paths disk).modes path ≡ private_mode
unfolding contains
all_private-modes [] disk path (inl h) = h
all_private-modes [] disk path (inr h) = cc
all_private-modes (first ∷ rest) disk path h =
    all_private-modes rest (record disk { modes = put disk.modes first private_mode }) path
      (elim (Bool-cases (path == first)) [
        | inl e ↦ inl (rw e refl)
        | inr ne ↦ elim h [
          | inl before ↦ inl (rw ne before)
          | inr within ↦ inr (ground (arith, eq_iff path first, eq_iff first path))
        ]
      ])

Exists-put_file :
    (disk : Disk) (place : ManagedPath) (bytes : List ℕ) (mode : ℕ) (paths : List ManagedPath)
    → All (Exists disk) paths
    → All (Exists (put_file disk place bytes mode)) paths
Exists-put_file disk place bytes mode [] each = tt
Exists-put_file disk place bytes mode (path ∷ rest) each = (
  elim (Bool-cases (path == place)) [ inl e ↦ rw e refl | inr ne ↦ rw ne each.0 ],
  Exists-put_file disk place bytes mode rest each.1,
)

-- Where no other process changes the disk, nothing fails, the documents are as they were loaded, the
-- plaintexts exist and Git hides them under the candidate of `.gitignore`: the publication succeeds.
-- Both documents then have their candidates, every other file is as it was, and each plaintext of the
-- request, other than the manifest, is owner-only.
pub publish_registration-succeeds :
    (git : Git) (setting : Setting) (publication : RegistrationPublication) (disk : Disk)
    → (publication.manifest.path == publication.ignore.path) ≡ false
    → disk.files publication.manifest.path ≡ some publication.manifest.original
    → disk.files publication.ignore.path ≡ publication.ignore.original
    → All (Exists disk) publication.existing_plaintext
    → All
        (IsVisible (
          ignore_states (
            git.ignored
              (protected git setting publication disk)
              (visibility_paths publication.plan.manifest.entries))))
        publication.plan.manifest.entries
    → (last : Disk) × (run git disk (publish_registration setting publication) ≡ (ok tt, last))
      × (last.files publication.manifest.path ≡ some publication.manifest_candidate)
      × (last.files publication.ignore.path ≡ some publication.ignore.candidate)
      × ((path : ManagedPath)
          → path ≢ publication.manifest.path
          → path ≢ publication.ignore.path
          → last.files path ≡ disk.files path)
      × ((path : ManagedPath)
          → path ≢ publication.manifest.path
          → contains publication.existing_plaintext path ≡ true
          → last.modes path ≡ private_mode)
publish_registration-succeeds git setting publication disk apart same same' each hidden =
    let before = protected git setting publication disk in
    let private = all_private publication.existing_plaintext before in
    let files = all_private-files publication.existing_plaintext before in
    let place = publication.manifest.path in
    let candidate = publication.manifest_candidate in
    (
      finished git setting publication before,
      publish_run git setting publication disk apart same same'
          (Exists-put_file disk publication.ignore.path publication.ignore.candidate
            publication.ignore.mode publication.existing_plaintext each)
          hidden,
      put-same private.files place (some candidate),
      put-other private.files place (some candidate) publication.ignore.path
            (λ e. cc (apart, (eq_iff place publication.ignore.path).1 (sym e)))
          ∙ ap (λ f. f publication.ignore.path) files
          ∙ put-same disk.files publication.ignore.path (some publication.ignore.candidate),
      λ path other other'.
          put-other private.files place (some candidate) path other
          ∙ ap (λ f. f path) files
          ∙ put-other disk.files publication.ignore.path (some publication.ignore.candidate) path
              other',
      λ path other within.
          put-other private.modes place publication.manifest.mode path other
          ∙ all_private-modes publication.existing_plaintext before path (inr within),
    )
