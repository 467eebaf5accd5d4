-- ===== src/Configure/Publication.antt =====
-- src/configure.rs: the publication of a registration: first `.gitignore`, then, when Git has
-- answered that it hides every plaintext, the manifest.
pub mod Order
pub mod Recovery
pub mod Finished
pub mod Protected
pub mod Quiet
use gitveil.Base
use gitveil.Base.{
  ℕ, Bool, true, false, not, List, [], ◌∷◌, ◌==◌, Option, none, some, all, is_empty, IndexMap, get,
  Str, Outcome, ok, err, fail_if, map_err, nat_eq, list_eq, option_eq,
}
use gitveil.ManagedPath.{ManagedPath}
use gitveil.Manifest.{Manifest}
use gitveil.Manifest.Document.{parse}
use gitveil.Git.{IgnoreMatch, is_ignored}
use gitveil.Configure.{RegistrationPlan}
use gitveil.Configure.Ignore.{render_managed_ignore}
use gitveil.Configure.Visibility.{visibility_violations, merge_protection_paths}
use gitveil.Configure.Command.{
  AddOutcome, IgnorePreparation, manifest_paths, or_empty, visibility_paths, ignore_states,
  tighten_plaintext_permissions, registration_plan, validate_requested_pairs, prepare_ignore,
  add_outcomes,
}
use gitveil.Workflow.{ErrorCategory}
use gitveil.Script.{
  Script, done, ask, pure, fail, ◌>>=◌, ◌>>◌, read_file, read_mode, validate, sync_parent,
  remove_file, ignore_matches,
}
use gitveil.Publishing.{
  Setting, manifest_path, or_mode, ManifestPreparation, is_fresh, load_manifest, serialize_manifest,
  write_atomic,
}

pub record RegistrationPublication : Type 0 where
  pub manifest : ManifestPreparation
  pub plan : RegistrationPlan
  pub existing_plaintext : List ManagedPath
  pub ignore : IgnorePreparation
  pub manifest_candidate : List ℕ

-- The failure when a document is not as it was, `manifest_changed_error` and its like.
abbrev pub unless_changed : Bool → Script (Unit {0})
unless_changed fresh = done (fail_if (not fresh) ErrorCategory.concurrency)

unfoldable pub ensure_configuration_fresh :
    ManifestPreparation → IgnorePreparation → Script (Unit {0})
unfolding is_fresh
ensure_configuration_fresh manifest ignore = do
  fresh ← is_fresh manifest
  unless_changed fresh
  found ← ask (read_file ignore.path)
  unless_changed (found == ignore.original)

unfoldable pub ensure_ignore_candidate_fresh : IgnorePreparation → Script (Unit {0})
ensure_ignore_candidate_fresh ignore = do
  found ← ask (read_file ignore.path)
  unless_changed (found == some ignore.candidate)

-- The paths of the manifest that another process has written, if it can be read.
abbrev pub readable_paths : Outcome ErrorCategory Manifest → List ManagedPath
readable_paths (err e) = []
readable_paths (ok manifest) = manifest_paths manifest

abbrev pub latest_paths : Setting → Option (List ℕ) → List ManagedPath
latest_paths setting none = []
latest_paths setting (some bytes) = readable_paths (
    map_err (λ _. ErrorCategory.configuration)
      (parse setting.serde setting.tables setting.codec bytes))

-- The write of the recovered text, if it differs.
abbrev pub recover_ignore : IgnorePreparation → List ℕ → List ℕ → ℕ → Bool → Script (Unit {0})
recover_ignore ignore current recovered mode true = pure tt
recover_ignore ignore current recovered mode false = do
  again ← ask (read_file ignore.path)
  unless_changed (again == some current)
  write_atomic ignore.path recovered mode true

unfoldable pub recover_concurrent_manifest :
    Setting → RegistrationPlan → IgnorePreparation → Script (Unit {0})
unfolding parse manifest_paths merge_protection_paths render_managed_ignore write_atomic
recover_concurrent_manifest setting plan ignore = do
  latest ← ask (read_file manifest_path)
  found ← ask (read_file ignore.path)
  mode ← ask (read_mode ignore.path)
  recovered ← done (
      map_err (λ _. ErrorCategory.configuration)
        (render_managed_ignore (or_empty found) (
          merge_protection_paths setting.tables (latest_paths setting latest)
            (manifest_paths plan.manifest))))
  recover_ignore ignore (or_empty found) recovered (or_mode ignore.mode mode)
      (or_empty found == recovered)

abbrev pub sync_removed : ManagedPath → Bool → Script (Unit {0})
sync_removed path true = ask (sync_parent path)
sync_removed path false = pure tt

unfoldable pub restore_optional : ManagedPath → Option (List ℕ) → ℕ → Script (Unit {0})
unfolding write_atomic
restore_optional path (some original) mode = write_atomic path original mode true
restore_optional path none mode = do
  ask (validate path)
  removed ← ask (remove_file path)
  sync_removed path removed

unfoldable pub restore_ignore_candidate : IgnorePreparation → Script (Unit {0})
unfolding ensure_ignore_candidate_fresh restore_optional
restore_ignore_candidate ignore = do
  ensure_ignore_candidate_fresh ignore
  restore_optional ignore.path ignore.original ignore.mode

-- The manifest has changed: `.gitignore` is made to protect both, and the command fails.
abbrev pub when_changed :
    Setting → RegistrationPublication → Script (Unit {0}) → Bool → Script (Unit {0})
when_changed setting publication next true = next
when_changed setting publication next false = do
  recover_concurrent_manifest setting publication.plan publication.ignore
  fail ErrorCategory.concurrency

unfoldable pub finish_registration_publication :
    Setting → RegistrationPublication → Script (Unit {0})
unfolding tighten_plaintext_permissions ensure_ignore_candidate_fresh is_fresh
    recover_concurrent_manifest write_atomic
finish_registration_publication setting publication = do
  tighten_plaintext_permissions publication.existing_plaintext
  ensure_ignore_candidate_fresh publication.ignore
  fresh ← is_fresh publication.manifest
  when_changed setting publication
      (write_atomic publication.manifest.path publication.manifest_candidate
        publication.manifest.mode true)
      fresh

-- `previous_matches.get(path).is_some_and(IgnoreMatch::is_ignored)`
abbrev pub was_ignored : IndexMap ManagedPath IgnoreMatch → ManagedPath → Bool
was_ignored matches path = elim (get path matches) [ none ↦ false | some m ↦ is_ignored m ]

abbrev pub restore_if : Bool → IgnorePreparation → Script (Unit {0})
restore_if true ignore = restore_ignore_candidate ignore
restore_if false ignore = pure tt

-- The arms of `if !violations.is_empty()`.
abbrev pub when_visible :
    Setting → RegistrationPublication → IndexMap ManagedPath IgnoreMatch → Bool → Script (Unit {0})
when_visible setting publication previous true = finish_registration_publication setting publication
when_visible setting publication previous false = do
  restore_if (all (was_ignored previous) publication.existing_plaintext) publication.ignore
  fail ErrorCategory.configuration

abbrev pub judge :
    Setting
    → RegistrationPublication
    → IndexMap ManagedPath IgnoreMatch
    → IndexMap ManagedPath IgnoreMatch
    → Script (Unit {0})
judge setting publication previous matches = do
  violations ← done (
      map_err (λ _. ErrorCategory.integrity)
        (visibility_violations publication.plan.manifest (ignore_states matches)))
  when_visible setting publication previous (is_empty violations)

unfoldable pub publish_registration : Setting → RegistrationPublication → Script (Unit {0})
unfolding ensure_configuration_fresh write_atomic visibility_paths ensure_ignore_candidate_fresh
    is_fresh recover_concurrent_manifest visibility_violations ignore_states
    restore_ignore_candidate finish_registration_publication
publish_registration setting publication = do
  previous ← ask (ignore_matches publication.existing_plaintext)
  ensure_configuration_fresh publication.manifest publication.ignore
  write_atomic publication.ignore.path publication.ignore.candidate publication.ignore.mode true
  matches ← ask (ignore_matches (visibility_paths publication.plan.manifest.entries))
  ensure_ignore_candidate_fresh publication.ignore
  fresh ← is_fresh publication.manifest
  when_changed setting publication (judge setting publication previous matches) fresh

-- `add`
unfoldable pub add : Setting → List Str → Str → Option Str → Option Str → Script (List AddOutcome)
unfolding load_manifest registration_plan serialize_manifest validate_requested_pairs prepare_ignore
    publish_registration add_outcomes
add setting paths format profile recipient_policy = do
  (preparation, manifest) ← load_manifest setting
  (source_format, managed, plan) ←
      done (registration_plan setting manifest paths format profile recipient_policy)
  candidate ← done (serialize_manifest setting plan.manifest)
  existing ← validate_requested_pairs setting source_format managed
  ignore ← prepare_ignore plan
  publish_registration setting (record {
    manifest = preparation;
    plan = plan;
    existing_plaintext = existing;
    ignore = ignore;
    manifest_candidate = candidate;
  })
  pure (add_outcomes existing plan.outcomes)
