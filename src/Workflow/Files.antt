-- ===== src/Workflow/Files.antt =====
-- The files after an effect.
use gitveil.Base.{
  ℕ, ◌≡◌, ◌≢◌, refl, sym, ap, inl, inr, ◌==◌, List, Option, some, Outcome, ok, err, >>=-eq-ok,
  ok-eq, eq_iff, eq_refl, Bool-cases, nat_eq, list_eq,
}
use gitveil.ManagedPath.{ManagedPath}
use gitveil.Workflow.{ErrorCategory, Tools, World, update, fail_with, write, finish_with}

pub update-same :
    (files : ManagedPath → Option (List ℕ)) (place : ManagedPath) (bytes : List ℕ)
    → update files place bytes place ≡ some bytes
update-same files place bytes = rw (eq_refl place) refl

pub update-other :
    (files : ManagedPath → Option (List ℕ)) (place : ManagedPath) (bytes : List ℕ)
    (other : ManagedPath)
    → other ≢ place
    → update files place bytes other ≡ files other
update-other files place bytes other h = elim (Bool-cases (other == place)) [
  | inl same ↦ absurd (h ((eq_iff other place).0 same))
  | inr apart ↦ rw apart refl
]

pub finish_with-files :
    {A : Type 0} (outcome : A) (world : World) (o : Outcome ErrorCategory World)
    → ((next : World) → o ≡ ok next → next.files ≡ world.files)
    → (finish_with outcome world o).1.files ≡ world.files
finish_with-files outcome world (err e) h = refl
finish_with-files outcome world (ok next) h = h next refl

pub write-files :
    (tools : Tools) (world next : World) (place : ManagedPath) (bytes : List ℕ)
    → write tools world place bytes ≡ ok next
    → next.files ≡ update world.files place bytes
unfolding write
write-files tools world next place bytes h =
    let (_, done, h1) =
      >>=-eq-ok (fail_with (tools.write_error place bytes))
        (λ _. ok (record world { files = update world.files place bytes })) h in
    ap (λ (w : World). w.files) (sym (ok-eq _ next h1))
