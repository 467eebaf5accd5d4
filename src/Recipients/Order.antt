-- ===== src/Recipients/Order.antt =====
-- src/recipients.rs: the order in which `ConvergenceEngine::run` changes files, whatever it is
-- answered and whatever other processes write in between.
use mathlib.Core.List.{Memᴰ}
use gitveil.Base.{
  ℕ, Bool, true, false, List, Option, none, some, ◌≡◌, ◌⊎◌, ◌==◌, if◌then◌else◌, Outcome, ok, err,
  nat_eq, list_eq, option_eq,
}
use gitveil.ManagedPath.{ManagedPath}
use gitveil.Recipient.{AgeRecipientPolicy, PolicyName, new_policy}
use gitveil.Authorization.{FilePlan}
use gitveil.Manifest.{ciphertext_path}
use gitveil.Workflow.{ErrorCategory, Tools, decrypt_source}
use gitveil.Script.{Request, Result, read_file, persist, persist_noclobber, remove_file, owner_only}
use gitveil.Script.Monitor.{Monitor}
use gitveil.Publishing.{Setting, ManifestPreparation, default_mode}
use gitveil.Recipients.{
  RecipientFileOutcome, RecipientFileReport, ManifestDisposition, unchanged, published, withheld,
  AffectedFile, Ready,
}
use gitveil.Recipients.Converged.{IsConverged}

-- What has been seen and done: the last answer about the manifest, whether the manifest has been
-- replaced, and whether a ciphertext has.
pub record Progress : Type 0 where
  pub seen : Option (Outcome ErrorCategory (Option (List ℕ)))
  pub replaced : Bool
  pub written : Bool

abbrev pub start : Progress
start = record { seen = none; replaced = false; written = false }

-- A file of the request that could be decrypted.
pub record IsDecrypted (tools : Tools) (convergences : List (AffectedFile × FilePlan))
    (ready : Ready) : Type 0 where
  pub file : AffectedFile
  pub chosen : Memᴰ (file, ready.plan) convergences
  pub same_entry : ready.resolved.entry ≡ file.entry
  pub same_bytes : ready.ciphertext ≡ file.ciphertext
  pub decrypts : decrypt_source tools ready.ciphertext ready.resolved ≡ ok ready.document

module _ (setting : Setting) (policy_name : PolicyName) (changed : Bool)
    (preparation : ManifestPreparation) (candidate : List ℕ)
    (convergences : List (AffectedFile × FilePlan)) where
  -- The replacement of a ciphertext by one that has been checked against the plan.
  pub record IsCommit (place : ManagedPath) (bytes : List ℕ) : Type 0 where
    pub ready : Ready
    pub target : AgeRecipientPolicy
    pub outcome : RecipientFileOutcome
    pub decrypted : IsDecrypted setting.tools convergences ready
    pub planned : new_policy policy_name ready.plan.target_recipients ≡ ok target
    pub here : place ≡ ciphertext_path ready.resolved.entry
    pub checked : IsConverged setting.tools ready target bytes outcome

  -- The one replacement of the manifest, when it was last seen as it had been loaded; before any
  -- ciphertext is replaced.
  abbrev pub IsPublication : Progress → ManagedPath → List ℕ → ℕ → Type 0
  IsPublication s place bytes mode =
      (place ≡ preparation.path)
      × (bytes ≡ candidate)
      × (mode ≡ preparation.mode)
      × (changed ≡ true)
      × (s.seen ≡ some (ok (some preparation.original)))
      × (s.replaced ≡ false)
      × (s.written ≡ false)

  abbrev pub Allows : Progress → Request → Type 0
  Allows s (persist place bytes mode) =
      IsPublication s place bytes mode
      ⊎ (IsCommit place bytes × (mode ≡ default_mode) × (s.replaced ≡ changed))
  Allows s (persist_noclobber place bytes mode) = ⊥
  Allows s (remove_file place) = ⊥
  Allows s (owner_only place) = ⊥
  Allows s _ = Unit

  abbrev pub record_persist : Progress → Bool → Progress
  record_persist s true = record s { replaced = true }
  record_persist s false = record s { written = true }

  abbrev pub after : Progress → (q : Request) → Outcome ErrorCategory (Result q) → Progress
  after s (read_file place) answer =
      if place == preparation.path then record s { seen = some answer } else s
  after s (persist place bytes mode) answer = record_persist s (place == preparation.path)
  after s _ answer = s

  abbrev pub monitor : Monitor
  monitor = record { State = Progress; Allows = Allows; after = after }

  -- How the command ends: an error, or a withheld manifest, leaves each ciphertext as it was.
  abbrev pub Ends :
      Progress → Outcome ErrorCategory (ManifestDisposition × List RecipientFileReport) → Type 0
  Ends s (err e) = s.written ≡ false
  Ends s (ok (published, reports)) = (changed ≡ true) × (s.replaced ≡ true)
  Ends s (ok (unchanged, reports)) = (changed ≡ false) × (s.replaced ≡ false)
  Ends s (ok (withheld, reports)) = (s.replaced ≡ false) × (s.written ≡ false)
