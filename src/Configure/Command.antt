-- ===== src/Configure/Command.antt =====
-- src/configure.rs: `gitveil init`, and the parts of `gitveil add` before its publication. The set of
-- the plaintexts that exist is a list in the order of the request.
use gitveil.Base
use gitveil.Base.{
  ℕ, Bool, true, false, not, List, [], ◌∷◌, ◌++◌, map, ◌==◌, Option, none, some, if◌then◌else◌, any,
  length, is_some, contains, IndexMap, get, Str, codes, Outcome, ok, err, fail_if, map_err, nat_eq,
  list_eq, option_eq,
}
use gitveil.Config.{SourceFormat, from_str}
use gitveil.ManagedPath
use gitveil.ManagedPath.{ManagedPath}
use gitveil.ManagedPath.Suffix.{suffix}
use gitveil.Profile.{ProfileName, new_profile}
use gitveil.Recipient.{PolicyName, new_policy_name, new_policy}
use gitveil.Manifest.{ManifestEntry, Manifest, initial, ciphertext_path}
use gitveil.Source.Formats.{parse as parse_source}
use gitveil.Seal.Command.{parse_ciphertext}
use gitveil.Git.{IgnoreMatch, unmatched, rule}
use gitveil.Configure.{
  RegistrationRequest, RegistrationKind, added, already_managed, RegistrationPlan,
  plan_registration,
}
use gitveil.Configure.Visibility.{IgnoreState, matched, unmatched as state_unmatched, States}
use gitveil.Configure.Ignore.{render_managed_ignore}
use gitveil.Workflow.{ErrorCategory}
use gitveil.Script.{
  Script, done, ask, pure, ◌>>=◌, ◌>>◌, read_file, read_mode, owner_only, tracked_paths,
}
use gitveil.Publishing.{
  Setting, manifest_path, default_mode, or_mode, serialize_manifest, write_atomic,
  select_recipient_policy,
}
use gitveil.Recipients.Command.{parse_requested}

pub record InitOutcome : Type 0 where
  pub policy : PolicyName
  pub recipient_count : ℕ

pub data AddOutcomeKind : Type 0 where
  added_existing added_missing already_managed_file : AddOutcomeKind

pub record AddOutcome : Type 0 where
  pub path : ManagedPath
  pub kind : AddOutcomeKind
  pub plaintext_exists : Bool

-- `initialize`; `parse_requested` has the same loop over the recipients.
unfoldable pub initialize : Setting → Str → List Str → Script InitOutcome
unfolding new_policy_name parse_requested new_policy serialize_manifest initial write_atomic
initialize setting requested_policy requested = do
  found ← ask (read_file manifest_path)
  done (fail_if (is_some found) ErrorCategory.configuration)
  policy ← done (map_err (λ _. ErrorCategory.configuration) (new_policy_name requested_policy))
  recipients ← done (parse_requested setting.codec requested)
  recipient_policy ←
      done (map_err (λ _. ErrorCategory.configuration) (new_policy policy recipients))
  bytes ← done (serialize_manifest setting (initial recipient_policy))
  write_atomic manifest_path bytes default_mode false
  pure (record { policy = policy; recipient_count = length recipients })

abbrev pub requested_profile : Option Str → Outcome ErrorCategory ProfileName
requested_profile none = ok (codes "default")
requested_profile (some text) = map_err (λ _. ErrorCategory.configuration) (new_profile text)

unfoldable pub validate_registration_paths : List Str → Outcome ErrorCategory (List ManagedPath)
validate_registration_paths [] = ok []
validate_registration_paths (path ∷ rest) =
    Base.◌>>=◌ (map_err (λ _. ErrorCategory.path) (ManagedPath.new path))
      λ first. Base.◌>>=◌ (validate_registration_paths rest) λ others. ok (first ∷ others)

abbrev pub requests :
    SourceFormat → PolicyName → ProfileName → List ManagedPath → List RegistrationRequest
requests format policy profile =
    map (λ path. record {
      path = path;
      format = format;
      recipient_policy = policy;
      profile = profile;
    })

unfoldable pub registration_plan :
    Setting
    → Manifest
    → List Str
    → Str
    → Option Str
    → Option Str
    → Outcome ErrorCategory (SourceFormat × List ManagedPath × RegistrationPlan)
unfolding from_str select_recipient_policy validate_registration_paths plan_registration
registration_plan setting manifest paths format profile recipient_policy =
    Base.◌>>=◌ (map_err (λ _. ErrorCategory.configuration) (from_str format)) λ source_format.
      Base.◌>>=◌ (requested_profile profile) λ chosen.
        Base.◌>>=◌ (select_recipient_policy manifest recipient_policy) λ policy.
          Base.◌>>=◌ (validate_registration_paths paths) λ managed.
            Base.◌>>=◌
              (map_err (λ _. ErrorCategory.configuration)
                (plan_registration setting.tables manifest
                  (requests source_format policy chosen managed)))
              λ plan. ok (source_format, managed, plan)

-- A ciphertext or a plaintext that exists has to parse.
abbrev pub parsed_plaintext : Setting → SourceFormat → Option (List ℕ) → Outcome ErrorCategory Bool
parsed_plaintext setting format none = ok false
parsed_plaintext setting format (some bytes) =
    Base.◌>>=◌
      (map_err (λ _. ErrorCategory.source) (parse_source setting.tools.adapters format bytes))
      λ document. ok true

abbrev pub parsed_ciphertext :
    Setting → SourceFormat → Option (List ℕ) → Outcome ErrorCategory (Unit {0})
parsed_ciphertext setting format none = ok tt
parsed_ciphertext setting format (some bytes) =
    Base.◌>>=◌ (parse_ciphertext setting.tools bytes format) λ envelope. ok tt

unfoldable pub validate_existing_ciphertext :
    Setting → SourceFormat → ManagedPath → Script (Unit {0})
validate_existing_ciphertext setting format path = do
  ciphertext ← done (map_err (λ _. ErrorCategory.configuration) (ManagedPath.new (path ++ suffix)))
  found ← ask (read_file ciphertext)
  done (parsed_ciphertext setting format found)

-- The loop of `validate_requested_pairs`: the paths with a plaintext.
unfoldable pub validate_pairs :
    Setting → SourceFormat → List ManagedPath → Script (List ManagedPath)
unfolding validate_existing_ciphertext parse_source
validate_pairs setting format [] = pure []
validate_pairs setting format (path ∷ rest) = do
  found ← ask (read_file path)
  exists ← done (parsed_plaintext setting format found)
  validate_existing_ciphertext setting format path
  others ← validate_pairs setting format rest
  pure (if exists then path ∷ others else others)

unfoldable pub validate_requested_pairs :
    Setting → SourceFormat → List ManagedPath → Script (List ManagedPath)
unfolding validate_pairs
validate_requested_pairs setting format paths = do
  tracked ← ask (tracked_paths paths)
  done (fail_if (any (contains tracked) paths) ErrorCategory.configuration)
  validate_pairs setting format paths

-- `GITIGNORE_FILE_NAME`, a managed path.
abbrev pub ignore_path : ManagedPath
ignore_path = codes ".gitignore"

pub record IgnorePreparation : Type 0 where
  pub path : ManagedPath
  pub original : Option (List ℕ)
  pub candidate : List ℕ
  pub mode : ℕ

unfoldable pub manifest_paths : Manifest → List ManagedPath
manifest_paths manifest = map (λ (entry : ManifestEntry). entry.path) manifest.entries

abbrev pub or_empty : Option (List ℕ) → List ℕ
or_empty none = []
or_empty (some bytes) = bytes

unfoldable pub prepare_ignore : RegistrationPlan → Script IgnorePreparation
unfolding manifest_paths render_managed_ignore
prepare_ignore plan = do
  original ← ask (read_file ignore_path)
  mode ← ask (read_mode ignore_path)
  candidate ← done (
      map_err (λ _. ErrorCategory.configuration)
        (render_managed_ignore (or_empty original) (manifest_paths plan.manifest)))
  pure (record {
    path = ignore_path;
    original = original;
    candidate = candidate;
    mode = or_mode default_mode mode;
  })

abbrev pub push_pair : ManifestEntry → List ManagedPath → List ManagedPath
push_pair entry paths = entry.path ∷ ciphertext_path entry ∷ paths

unfoldable pub visibility_paths : List ManifestEntry → List ManagedPath
unfolding ciphertext_path
visibility_paths [] = []
visibility_paths (entry ∷ rest) = push_pair entry (visibility_paths rest)

abbrev pub state_of : IgnoreMatch → IgnoreState
state_of unmatched = state_unmatched
state_of (rule found) = matched (record {
  source = found.source;
  line = found.line;
  pattern = found.pattern;
  ignored = found.ignored;
})

-- `ignore_states`, as the lookup that the planner makes.
unfoldable pub ignore_states : IndexMap ManagedPath IgnoreMatch → States
unfolding get
ignore_states matches path = elim (get path matches) [ none ↦ none | some m ↦ some (state_of m) ]

abbrev pub tighten : Bool → Outcome ErrorCategory (Unit {0})
tighten found = fail_if (not found) ErrorCategory.concurrency

-- `tighten_plaintext_permissions`
unfoldable pub tighten_plaintext_permissions : List ManagedPath → Script (Unit {0})
tighten_plaintext_permissions [] = pure tt
tighten_plaintext_permissions (path ∷ rest) = do
  found ← ask (owner_only path)
  done (tighten found)
  tighten_plaintext_permissions rest

abbrev pub outcome_kind : RegistrationKind → Bool → AddOutcomeKind
outcome_kind already_managed exists = already_managed_file
outcome_kind added true = added_existing
outcome_kind added false = added_missing

unfoldable pub add_outcomes :
    List ManagedPath → List (ManagedPath × RegistrationKind) → List AddOutcome
unfolding contains
add_outcomes existing [] = []
add_outcomes existing ((path, kind) ∷ rest) =
    record {
      path = path;
      kind = outcome_kind kind (contains existing path);
      plaintext_exists = contains existing path;
    }
    ∷ add_outcomes existing rest
