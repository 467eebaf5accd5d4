-- ===== src/Publishing.antt =====
-- src/manifest_document.rs: loading the manifest and publishing a changed one. The injection points
-- of `write_atomic_with_fault` are left out: outside the tests they always pass. The discovery of
-- the repository (`mutation_repository`) and the lock come before and change no document.
use gitveil.Base.{
  ℕ, Bool, true, false, not, List, ◌==◌, Option, none, some, Str, codes, contains_key, Outcome, ok,
  err, fail_if, ok_or, map_err, nat_eq, list_eq, option_eq,
}
use gitveil.Base
use gitveil.ManagedPath.{ManagedPath}
use gitveil.Recipient.{PolicyName, AgeRecipientPolicy, Bech32, new_policy_name}
use gitveil.Manifest.{UnicodeTables, Manifest, only_policy_name}
use gitveil.Manifest.Document.{Json, parse}
use gitveil.Manifest.Written.{to_json_bytes}
use gitveil.Workflow.{ErrorCategory, Tools}
use gitveil.Script.{
  Script, done, ask, pure, ◌>>=◌, ◌>>◌, read_file, read_mode, validate, stage, persist,
  persist_noclobber, sync_parent,
}

-- The crates and the client of src/sops that the configuration commands call. `sops_client` is the
-- construction of the client.
pub record Setting : Type 1 where
  pub tools : Tools
  pub serde : Json
  pub tables : UnicodeTables
  pub codec : Bech32
  pub sops_client : Outcome ErrorCategory (Unit {0})
  pub sops_rewrap : List ℕ → AgeRecipientPolicy → Outcome ErrorCategory (List ℕ)

-- `MANIFEST_FILE_NAME`, a managed path.
abbrev pub manifest_path : ManagedPath
manifest_path = codes ".gitveilrc.json"

-- 0o644
abbrev pub default_mode : ℕ
default_mode = 420

pub record ManifestPreparation : Type 0 where
  pub path : ManagedPath
  pub original : List ℕ
  pub mode : ℕ

unfoldable pub is_fresh : ManifestPreparation → Script Bool
is_fresh preparation = do
  found ← ask (read_file preparation.path)
  pure (found == some preparation.original)

abbrev pub or_mode : ℕ → Option ℕ → ℕ
or_mode mode none = mode
or_mode mode (some found) = found

unfoldable pub load_manifest : Setting → Script (ManifestPreparation × Manifest)
unfolding parse
load_manifest setting = do
  found ← ask (read_file manifest_path)
  bytes ← done (ok_or found ErrorCategory.configuration)
  manifest ← done (
      map_err (λ _. ErrorCategory.configuration)
        (parse setting.serde setting.tables setting.codec bytes))
  mode ← ask (read_mode manifest_path)
  pure (
    record { path = manifest_path; original = bytes; mode = or_mode default_mode mode },
    manifest,
  )

unfoldable pub serialize_manifest : Setting → Manifest → Outcome ErrorCategory (List ℕ)
unfolding to_json_bytes
serialize_manifest setting manifest =
    map_err (λ _. ErrorCategory.integrity)
      (to_json_bytes setting.serde setting.tables setting.codec manifest)

-- The move of the temporary file over the path, or to a path that is still free.
abbrev pub move_into_place : ManagedPath → List ℕ → ℕ → Bool → Script (Unit {0})
move_into_place place bytes mode true = ask (persist place bytes mode)
move_into_place place bytes mode false = do
  free ← ask (persist_noclobber place bytes mode)
  done (fail_if (not free) ErrorCategory.configuration)

unfoldable pub write_atomic : ManagedPath → List ℕ → ℕ → Bool → Script (Unit {0})
write_atomic place bytes mode replace = do
  ask (validate place)
  ask (stage place bytes mode)
  move_into_place place bytes mode replace
  ask (sync_parent place)

unfoldable pub publish_if_fresh : ManifestPreparation → List ℕ → Script (Unit {0})
unfolding is_fresh write_atomic
publish_if_fresh preparation candidate = do
  fresh ← is_fresh preparation
  done (fail_if (not fresh) ErrorCategory.concurrency)
  write_atomic preparation.path candidate preparation.mode true

abbrev declared : Manifest → PolicyName → Outcome ErrorCategory PolicyName
declared manifest name =
    Base.◌>>=◌
      (fail_if (not (contains_key name manifest.recipient_policies)) ErrorCategory.configuration)
      (λ _. ok name)

unfoldable pub select_recipient_policy : Manifest → Option Str → Outcome ErrorCategory PolicyName
unfolding only_policy_name new_policy_name
select_recipient_policy manifest (some requested) =
    Base.◌>>=◌ (map_err (λ _. ErrorCategory.configuration) (new_policy_name requested))
      (declared manifest)
select_recipient_policy manifest none =
    ok_or (only_policy_name manifest) ErrorCategory.configuration
