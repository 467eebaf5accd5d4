-- ===== src/Workflow.antt =====
-- src/workspace.rs, src/error.rs and the entry of src/manifest.rs that commands work on: the files and
-- baselines that commands change, and the effects that they call. A read or a write may fail; a
-- failed write changes nothing, because files are replaced atomically.
pub mod Files
use gitveil.Base.{
  ℕ, Bool, ◌==◌, List, Option, none, some, if◌then◌else◌, Str, Outcome, ok, err, ◌>>=◌, map_err,
  nat_eq, list_eq,
}
use gitveil.Config.{SourceFormat}
use gitveil.ManagedPath.{ManagedPath}
use gitveil.Recipient.{AgeRecipientPolicy}
use gitveil.Manifest.{ManifestEntry}
use gitveil.Source.Document.{SourceDocument}
use gitveil.Source.Formats.{Adapters}
use gitveil.Envelope.{Codecs}
use gitveil.Envelope.Decrypted.{from_yaml, into_source}
use gitveil.Baseline.{Digests}
use gitveil.Baseline.Record.{BaselineRecord}

pub data ErrorCategory : Type 0 where
  configuration dependency identity_unavailable integrity ciphertext source : ErrorCategory
  path concurrency process protocol conflict io : ErrorCategory

pub data SopsFailure : Type 0 where
  identity_unavailable integrity configuration execution : SopsFailure

-- The effects: the failures of reads, writes and saves, the fresh salt, and the SOPS client.
pub record Tools : Type 0 where
  pub codecs : Codecs
  pub adapters : Adapters
  pub digests : Digests
  pub read_error : ManagedPath → Option ErrorCategory
  pub write_error : ManagedPath → List ℕ → Option ErrorCategory
  pub save_error : ManagedPath → BaselineRecord → Option ErrorCategory
  pub fresh_salt : List ℕ
  pub sops_decrypt : List ℕ → ManagedPath → Outcome SopsFailure (List ℕ)
  pub sops_encrypt_new : List ℕ → ManagedPath → AgeRecipientPolicy → Outcome ErrorCategory (List ℕ)
  pub sops_edit : List ℕ → List ℕ → ManagedPath → Outcome ErrorCategory (List ℕ)

-- The files, and the baselines where there is a store.
pub record World : Type 0 where
  pub files : ManagedPath → Option (List ℕ)
  pub baselines : Option (ManagedPath → Option BaselineRecord)

pub record ResolvedManifestEntry : Type 0 where
  pub entry : ManifestEntry
  pub recipient_policy : AgeRecipientPolicy

-- A function with another value at one path.
abbrev pub update {ℓ} :
    {A : Type ℓ} → (ManagedPath → Option A) → ManagedPath → A → ManagedPath → Option A
update f place value other = if other == place then some value else f other

-- An effect that fails with an error, if there is one.
abbrev pub fail_with : Option ErrorCategory → Outcome ErrorCategory (Unit {0})
fail_with none = ok tt
fail_with (some e) = err e

-- `Workspace::read`
unfoldable pub read : Tools → World → ManagedPath → Outcome ErrorCategory (Option (List ℕ))
read tools world place = do done ← fail_with (tools.read_error place); ok (world.files place)

-- `Workspace::write_ciphertext` and `Workspace::write_plaintext`
unfoldable pub write : Tools → World → ManagedPath → List ℕ → Outcome ErrorCategory World
write tools world place bytes = do
  done ← fail_with (tools.write_error place bytes)
  ok (record world { files = update world.files place bytes })

abbrev pub decrypt_category : SopsFailure → ErrorCategory
decrypt_category SopsFailure.identity_unavailable = ErrorCategory.identity_unavailable
decrypt_category SopsFailure.integrity = ErrorCategory.integrity
decrypt_category SopsFailure.configuration = ErrorCategory.configuration
decrypt_category SopsFailure.execution = process

unfoldable pub decrypt_source :
    Tools → List ℕ → ResolvedManifestEntry → Outcome ErrorCategory SourceDocument
unfolding from_yaml
decrypt_source tools bytes resolved = do
  decrypted ← map_err decrypt_category (tools.sops_decrypt bytes resolved.entry.path)
  envelope ←
      map_err (λ _. ErrorCategory.ciphertext)
        (from_yaml tools.codecs decrypted resolved.entry.format)
  ok (into_source envelope)

-- An outcome with the world that it leaves.
abbrev pub Effect : Type 0 → Type 0
Effect A = Outcome ErrorCategory A × World

-- A last step that only changes the world.
abbrev pub finish_with : {A : Type 0} → A → World → Outcome ErrorCategory World → Effect A
finish_with outcome world (err e) = (err e, world)
finish_with outcome world (ok next) = (ok outcome, next)
