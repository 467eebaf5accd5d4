-- ===== src/Script/Disk.antt =====
-- A disk that only the script changes, and on which nothing fails.
use gitveil.Base.{
  ℕ, Bool, true, false, List, [], ◌∷◌, Option, none, some, ◌≡◌, ◌≢◌, inl, inr, refl, eq_iff,
  eq_refl, Bool-cases, ap, ◌∙◌, ◌==◌, if◌then◌else◌, is_some, IndexMap, Outcome, ok, err, nat_eq,
  list_eq,
}
use gitveil.ManagedPath.{ManagedPath}
use gitveil.Git.{IgnoreMatch}
use gitveil.Workflow.{ErrorCategory}
use gitveil.Script.{
  Request, Result, Script, done, step, ◌>>=◌, read_file, read_mode, validate, stage, persist,
  persist_noclobber, sync_parent, remove_file, owner_only, tracked_paths, ignore_matches, save,
}
use gitveil.Script.Monitor.{Event, asked, Runs, finished, answered}

pub record Disk : Type 0 where
  pub files : ManagedPath → Option (List ℕ)
  pub modes : ManagedPath → ℕ

-- Git: the tracked paths among some, and what the rules on the disk say of paths.
pub record Git : Type 0 where
  pub tracked : List ManagedPath → List ManagedPath
  pub ignored : Disk → List ManagedPath → IndexMap ManagedPath IgnoreMatch

abbrev pub put {ℓ} : {A : Type ℓ} → (ManagedPath → A) → ManagedPath → A → ManagedPath → A
put f place value other = if other == place then value else f other

abbrev pub put_file : Disk → ManagedPath → List ℕ → ℕ → Disk
put_file disk place bytes mode = record {
  files = put disk.files place (some bytes);
  modes = put disk.modes place mode;
}

pub put-same {ℓ} :
    {A : Type ℓ} (f : ManagedPath → A) (place : ManagedPath) (value : A)
    → put f place value place ≡ value
put-same f place value = rw (eq_refl place) refl

pub put-other {ℓ} :
    {A : Type ℓ} (f : ManagedPath → A) (place : ManagedPath) (value : A) (other : ManagedPath)
    → other ≢ place
    → put f place value other ≡ f other
put-other f place value other h = elim (Bool-cases (other == place)) [
  | inl same ↦ absurd (h ((eq_iff other place).0 same))
  | inr apart ↦ rw apart refl
]

-- 0o600
abbrev pub private_mode : ℕ
private_mode = 384

-- The mode of a file, where there is one.
abbrev pub mode_of : Option (List ℕ) → ℕ → Option ℕ
mode_of none mode = none
mode_of (some bytes) mode = some mode

abbrev pub create : Disk → ManagedPath → List ℕ → ℕ → Option (List ℕ) → Bool × Disk
create disk place bytes mode none = (true, put_file disk place bytes mode)
create disk place bytes mode (some other) = (false, disk)

-- The answer to a request, and the disk behind it.
abbrev pub reply : Git → Disk → (q : Request) → Result q × Disk
reply git disk (read_file place) = (disk.files place, disk)
reply git disk (read_mode place) = (mode_of (disk.files place) (disk.modes place), disk)
reply git disk (validate place) = (tt, disk)
reply git disk (stage place bytes mode) = (tt, disk)
reply git disk (persist place bytes mode) = (tt, put_file disk place bytes mode)
reply git disk (persist_noclobber place bytes mode) =
    create disk place bytes mode (disk.files place)
reply git disk (sync_parent place) = (tt, disk)
reply git disk (remove_file place) =
    (is_some (disk.files place), record disk { files = put disk.files place none })
reply git disk (owner_only place) = (
  is_some (disk.files place),
  record disk {
    modes = if is_some (disk.files place) then put disk.modes place private_mode else disk.modes;
  },
)
reply git disk (tracked_paths places) = (git.tracked places, disk)
reply git disk (ignore_matches places) = (git.ignored disk places, disk)
reply git disk (save place baseline) = (tt, disk)

unfoldable pub run : {A : Type 0} → Git → Disk → Script A → Outcome ErrorCategory A × Disk
run git disk (done outcome) = (outcome, disk)
run git disk (step q k) = let (answer, next) = reply git disk q in run git next (k (ok answer))

-- The run as a sequence of requests and answers.
unfoldable pub trace :
    {A : Type 0} (git : Git) (disk : Disk) (m : Script A)
    → (log : List Event) × (outcome : Outcome ErrorCategory A) × Runs m log outcome
trace git disk (done outcome) = ([], outcome, finished outcome)
trace git disk (step q k) =
    let (answer, next) = reply git disk q in
    let (log, outcome, r) = trace git next (k (ok answer)) in
    (asked q (ok answer) ∷ log, outcome, answered q k (ok answer) r)

-- The continuation after an outcome.
abbrev pub continue :
    {A B : Type 0}
    → Git
    → Outcome ErrorCategory A × Disk
    → (A → Script B)
    → Outcome ErrorCategory B × Disk
continue git (ok a, disk) f = run git disk (f a)
continue git (err e, disk) f = (err e, disk)

pub run->>= :
    {A B : Type 0} (git : Git) (disk : Disk) (m : Script A) (f : A → Script B)
    → run git disk (m >>= f) ≡ continue git (run git disk m) f
unfolding run
run->>= git disk (done (ok a)) f = refl
run->>= git disk (done (err e)) f = refl
run->>= git disk (step q k) f = run->>= git (reply git disk q).1 (k (ok (reply git disk q).0)) f

-- A first part with its run, and the run of the rest.
pub run-then :
    {A B : Type 0} (git : Git) (disk : Disk) (m : Script A) (f : A → Script B) (a : A) (next : Disk)
    (last : Outcome ErrorCategory B × Disk)
    → run git disk m ≡ (ok a, next)
    → run git next (f a) ≡ last
    → run git disk (m >>= f) ≡ last
run-then git disk m f a next last h h' = run->>= git disk m f ∙ ap (λ r. continue git r f) h ∙ h'
