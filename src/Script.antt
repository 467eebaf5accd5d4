-- ===== src/Script.antt =====
-- src/manifest_document.rs, src/configure.rs, src/recipients.rs: what the commands that change the
-- configuration ask of the file system, of Git and of the baseline store. A command is a tree: it
-- ends with an outcome, or asks and goes on with any answer. Nothing relates two answers, since
-- other processes may change the files between any two of them.
pub mod Monitor
pub mod Disk
use gitveil.Base.{ℕ, Bool, IndexMap, List, [], ◌∷◌, Option, Outcome, ok, err}
use gitveil.ManagedPath.{ManagedPath}
use gitveil.Baseline.Record.{BaselineRecord}
use gitveil.Git.{IgnoreMatch}
use gitveil.Workflow.{ErrorCategory}

-- `stage` creates a temporary file with the mode and the bytes beside the path, `persist` moves it
-- over the path, and `persist_noclobber` does so where there is no file yet.
pub data Request : Type 0 where
  read_file read_mode validate : ManagedPath → Request
  stage persist persist_noclobber : ManagedPath → List ℕ → ℕ → Request
  sync_parent remove_file owner_only : ManagedPath → Request
  tracked_paths ignore_matches : List ManagedPath → Request
  save : ManagedPath → BaselineRecord → Request

-- What an answer holds. `persist_noclobber` says whether the path was free; `remove_file` and
-- `owner_only` say whether there was a file.
abbrev pub Result : Request → Type 0
Result (read_file place) = Option (List ℕ)
Result (read_mode place) = Option ℕ
Result (persist_noclobber place bytes mode) = Bool
Result (remove_file place) = Bool
Result (owner_only place) = Bool
Result (tracked_paths places) = List ManagedPath
Result (ignore_matches places) = IndexMap ManagedPath IgnoreMatch
Result _ = Unit

pub data Script (A : Type 0) : Type 0 where
  done : Outcome ErrorCategory A → Script A
  step : (q : Request) → (Outcome ErrorCategory (Result q) → Script A) → Script A

infixl 5 ◌>>=◌ ◌>>◌
abbrev pub ◌>>=◌ : {A B : Type 0} → Script A → (A → Script B) → Script B
done (ok a) >>= f = f a
done (err e) >>= f = done (err e)
step q k >>= f = step q (λ answer. k answer >>= f)

abbrev pub ◌>>◌ : {B : Type 0} → Script (Unit {0}) → Script B → Script B
m >> k = m >>= λ _. k

abbrev pub ask : (q : Request) → Script (Result q)
ask q = step q done

abbrev pub pure : {A : Type 0} → A → Script A
pure a = done (ok a)

abbrev pub fail : {A : Type 0} → ErrorCategory → Script A
fail e = done (err e)

-- The loop that stops at the first error.
abbrev pub for_each : {A : Type 0} → (A → Script (Unit {0})) → List A → Script (Unit {0})
for_each f [] = pure tt
for_each f (x ∷ rest) = do f x; for_each f rest
