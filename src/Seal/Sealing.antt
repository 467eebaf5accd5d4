-- ===== src/Seal/Sealing.antt =====
-- src/seal.rs: the files after the sealing of one entry.
use gitveil.Base.{
  ℕ, ◌≡◌, ◌≢◌, refl, sym, ap, ◌∙◌, subst, ◌⊎◌, inl, inr, List, some, Outcome, ok, err, >>=-eq-ok,
  ok-eq, Option-cases, nat_eq, list_eq,
}
use gitveil.ManagedPath.{ManagedPath}
use gitveil.Manifest.{Manifest, ciphertext_path}
use gitveil.Source.Document.{SourceDocument}
use gitveil.Baseline.Record.{capture, from_envelope}
use gitveil.Workflow.{
  ErrorCategory, Tools, World, ResolvedManifestEntry, update, fail_with, write, Effect, finish_with,
}
use gitveil.Seal.Command.{
  SealOutcome, sealed, unchanged, parse_ciphertext, Prepared, preserve, replace, read_desired,
  prepare, update_baseline, after_write, perform, seal_entry,
}
use gitveil.Workflow.Files.{update-same, update-other, finish_with-files, write-files}
use gitveil.Seal.Verified.{IsVerified, prepare-IsReady}

update_baseline-files :
    (tools : Tools) (world next : World) (resolved : ResolvedManifestEntry)
    (desired : SourceDocument) (bytes : List ℕ)
    → update_baseline tools world resolved desired bytes ≡ ok next
    → next.files ≡ world.files
unfolding update_baseline
update_baseline-files tools world next resolved desired bytes h =
    elim (Option-cases world.baselines) [
      | inl absent ↦
          ap (λ (w : World). w.files) (sym (ok-eq world next (rw (update_baseline, absent) at h)))
      | inr (store, present) ↦
          let (envelope, parsed, h1) =
            >>=-eq-ok (parse_ciphertext tools bytes resolved.entry.format) _
              (rw (update_baseline, present) at h) in
          let (_, saved, h2) =
            >>=-eq-ok
              (fail_with (
                tools.save_error resolved.entry.path
                  (capture tools.digests desired (from_envelope envelope) tools.fresh_salt)))
              _ h1 in
          ap (λ (w : World). w.files) (sym (ok-eq _ next h2))
    ]

-- The file is a checked ciphertext of the document that the plaintext file held.
abbrev pub HasSealed : Tools → World → ResolvedManifestEntry → World → Type 0
HasSealed tools world resolved next =
    (desired : SourceDocument) × (bytes : List ℕ) × (next.files (ciphertext_path resolved.entry)
      ≡ some bytes)
    × (read_desired tools world resolved ≡ ok desired)
    × IsVerified tools resolved desired bytes

-- What sealing does to the files: those of other paths stay, and the ciphertext stays, without
-- the outcome `sealed`, or is a checked one.
abbrev pub Seals : Tools → World → ResolvedManifestEntry → Effect SealOutcome → Type 0
Seals tools world resolved effect =
    ((other : ManagedPath)
      → other ≢ ciphertext_path resolved.entry
      → effect.1.files other ≡ world.files other)
    × (((effect.1.files ≡ world.files) × (effect.0 ≢ ok sealed))
        ⊎ HasSealed tools world resolved effect.1)

finish_with-unchanged :
    (world : World) (o : Outcome ErrorCategory World)
    → (finish_with unchanged world o).0 ≢ ok sealed
finish_with-unchanged world (err e) = λ h. cc
finish_with-unchanged world (ok next) = λ h. cc

Seals-replace :
    (tools : Tools) (world : World) (resolved : ResolvedManifestEntry) (desired : SourceDocument)
    (bytes : List ℕ) (written : Outcome ErrorCategory World)
    → written ≡ write tools world (ciphertext_path resolved.entry) bytes
    → read_desired tools world resolved ≡ ok desired
    → IsVerified tools resolved desired bytes
    → Seals tools world resolved (after_write tools world resolved desired bytes written)
Seals-replace tools world resolved desired bytes (err e) same was_read verified =
    ((λ other h. refl), inl (refl, λ h. cc))
Seals-replace tools world resolved desired bytes (ok next) same was_read verified =
    let place = ciphertext_path resolved.entry in
    let files : (finish_with sealed next
          (update_baseline tools next resolved desired bytes)).1.files
        ≡ update world.files place bytes =
      finish_with-files sealed next (update_baseline tools next resolved desired bytes)
        (λ last h. update_baseline-files tools next last resolved desired bytes h)
      ∙ write-files tools world next place bytes (sym same) in
    (
      (λ other h. ap (λ f. f other) files ∙ update-other world.files place bytes other h),
      inr (
        desired,
        bytes,
        (ap (λ f. f place) files ∙ update-same world.files place bytes),
        was_read,
        verified,
      ),
    )

Seals-perform :
    (tools : Tools) (world : World) (manifest : Manifest) (resolved : ResolvedManifestEntry)
    (prepared : Outcome ErrorCategory Prepared)
    → prepared ≡ prepare tools world manifest resolved
    → Seals tools world resolved (perform tools world resolved prepared)
Seals-perform tools world manifest resolved (err e) same = ((λ other h. refl), inl (refl, λ h. cc))
Seals-perform tools world manifest resolved (ok (preserve desired bytes)) same =
    let files =
      finish_with-files unchanged world (update_baseline tools world resolved desired bytes)
        (λ next h. update_baseline-files tools world next resolved desired bytes h) in
    (
      (λ other h. ap (λ f. f other) files),
      inl (files, finish_with-unchanged world (update_baseline tools world resolved desired bytes)),
    )
Seals-perform tools world manifest resolved (ok (replace desired bytes)) same =
    let (wanted, was_read, (eq, verified)) =
      prepare-IsReady tools world manifest resolved (replace desired bytes) (sym same) in
    Seals-replace tools world resolved desired bytes
      (write tools world (ciphertext_path resolved.entry) bytes) refl (was_read ∙ ap ok (sym eq))
      (subst (λ d. IsVerified tools resolved d bytes) (sym eq) verified)

-- Whatever the tools answer, and also when the command fails half-way: sealing an entry changes no
-- file but its ciphertext, and leaves there what was there, or bytes that parse, whose recipients
-- are those of the policy, and that decrypt to the document of the plaintext file. The outcome
-- `sealed` is only given in the second case.
pub seal_entry-Seals :
    (tools : Tools) (world : World) (manifest : Manifest) (resolved : ResolvedManifestEntry)
    → Seals tools world resolved (seal_entry tools world manifest resolved)
unfolding seal_entry
seal_entry-Seals tools world manifest resolved =
    Seals-perform tools world manifest resolved (prepare tools world manifest resolved) refl
