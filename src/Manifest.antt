-- ===== src/Manifest.antt =====
-- src/manifest.rs: the manifest `.gitveilrc.json`, its mutations and selections. Reading and
-- writing its JSON stands in Manifest/Document.
pub mod Document
pub mod Invariant
pub mod Mutations
pub mod Entries
pub mod Select
pub mod Written
use mathlib.Core.Option
use gitveil.Base.{
  ℕ, Bool, true, false, not, ◌&&◌, ◌||◌, List, [], ◌∷◌, ◌++◌, ◌≡◌, ◌==◌, Option, none, some,
  if◌then◌else◌, any, filter, find?, is_empty, IndexMap, get, contains_key, insert, keys, Str,
  codes, ends_with, Outcome, ok, err, ◌>>=◌, ◌>>◌, fail_if, ok_or, map_err, nat_eq, list_eq,
}
use gitveil.Config.{SourceFormat, format_eq}
use gitveil.ManagedPath.{ManagedPath}
use gitveil.ManagedPath.Suffix.{suffix}
use gitveil.Profile.{ProfileName}
use gitveil.Recipient.{AgeRecipient, PolicyName, AgeRecipientPolicy, RecipientError, new_policy}

-- The `unicode_normalization` crate and the Unicode tables behind `str::to_lowercase`.
pub record UnicodeTables : Type 0 where
  pub nfc : Str → Str
  pub to_lowercase : Str → Str

-- `ManagedPath::case_collision_key`
unfoldable pub case_collision_key : UnicodeTables → ManagedPath → Str
case_collision_key tables path = tables.to_lowercase (tables.nfc path)

pub record ManifestEntry : Type 0 where
  pub path : ManagedPath
  pub format : SourceFormat
  pub recipient_policy : PolicyName
  pub profile : ProfileName

-- `ManifestEntry::ciphertext_path`; that the text is a managed path is proved in `Entries`.
unfoldable pub ciphertext_path : ManifestEntry → ManagedPath
ciphertext_path entry = entry.path ++ suffix

pub record Manifest : Type 0 where
  pub entries : List ManifestEntry
  pub recipient_policies : IndexMap PolicyName AgeRecipientPolicy

pub data ManifestEntryAddOutcome : Type 0 where
  added already_managed : ManifestEntryAddOutcome

pub data ManifestMutationError : Type 0 where
  ciphertext_suffix reserved_path conflicting_entry : ManagedPath → ManifestMutationError
  case_collision : ManagedPath → ManifestMutationError
  missing_policy : PolicyName → ManifestMutationError
  invalid_policy : PolicyName → RecipientError → ManifestMutationError

pub data ManifestSelectionError : Type 0 where
  undeclared_path : ManagedPath → ManifestSelectionError
  unknown_profile : ProfileName → ManifestSelectionError
  profile_mismatch : ManagedPath → ProfileName → ProfileName → ManifestSelectionError

-- `is_repository_configuration_path`
unfoldable pub is_repository_configuration_path : ManagedPath → Bool
is_repository_configuration_path path =
    path == codes ".gitveilrc.json" || path == codes ".gitignore"

-- `Manifest::initial`
unfoldable pub initial : AgeRecipientPolicy → Manifest
initial policy = record { entries = []; recipient_policies = insert policy.name policy [] }

-- `Manifest::find`
unfoldable pub find : Manifest → ManagedPath → Option ManifestEntry
find manifest path = find? (λ (entry : ManifestEntry). entry.path == path) manifest.entries

-- `Manifest::only_policy_name`
unfoldable pub only_policy_name : Manifest → Option PolicyName
only_policy_name manifest = elim manifest.recipient_policies [
  | (name, policy) ∷ [] ↦ some name
  | _ ↦ none
]

abbrev pub same_settings : ManifestEntry → ManifestEntry → Bool
same_settings a b =
    a.format == b.format && a.recipient_policy == b.recipient_policy && a.profile == b.profile

-- The last steps of `add_entry`, for a path that is not managed yet.
unfoldable pub add_new :
    UnicodeTables
    → Manifest
    → ManifestEntry
    → Outcome ManifestMutationError (Manifest × ManifestEntryAddOutcome)
unfolding case_collision_key
add_new tables manifest entry = do
  let folded = case_collision_key tables entry.path
  fail_if (any (λ (e : ManifestEntry). case_collision_key tables e.path == folded) manifest.entries)
      (case_collision entry.path)
  ok (record manifest { entries = manifest.entries ++ entry ∷ [] }, added)

-- `Manifest::add_entry`: the new manifest and what happened. On an error the manifest stays.
unfoldable pub add_entry :
    UnicodeTables
    → Manifest
    → ManifestEntry
    → Outcome ManifestMutationError (Manifest × ManifestEntryAddOutcome)
unfolding find is_repository_configuration_path add_new
add_entry tables manifest entry = do
  fail_if (ends_with suffix entry.path) (ciphertext_suffix entry.path)
  fail_if (is_repository_configuration_path entry.path) (reserved_path entry.path)
  fail_if (not (contains_key entry.recipient_policy manifest.recipient_policies))
      (missing_policy entry.recipient_policy)
  elim (find manifest entry.path) [
    | some existing ↦
        if same_settings existing entry
        then ok (manifest, already_managed)
        else err (conflicting_entry entry.path)
    | none ↦ add_new tables manifest entry
  ]

-- `Manifest::set_policy_recipients`
unfoldable pub set_policy_recipients :
    Manifest → PolicyName → List AgeRecipient → Outcome ManifestMutationError Manifest
set_policy_recipients manifest name recipients = do
  fail_if (not (contains_key name manifest.recipient_policies)) (missing_policy name)
  policy ← map_err (invalid_policy name) (new_policy name recipients)
  ok (record manifest { recipient_policies = insert name policy manifest.recipient_policies })

-- The requested paths, looked up in order.
unfoldable pub find_all :
    Manifest → List ManagedPath → Outcome ManifestSelectionError (List ManifestEntry)
unfolding find
find_all manifest [] = ok []
find_all manifest (path ∷ rest) = do
  entry ← ok_or (find manifest path) (undeclared_path path)
  entries ← find_all manifest rest
  ok (entry ∷ entries)

-- The loop that rejects an entry of another profile.
unfoldable pub check_profiles :
    ProfileName → List ManifestEntry → Outcome ManifestSelectionError (Unit {0})
check_profiles profile [] = ok tt
check_profiles profile (entry ∷ rest) = do
  fail_if (not (entry.profile == profile)) (profile_mismatch entry.path profile entry.profile)
  check_profiles profile rest

-- The entries before the profile is applied.
unfoldable pub selected_paths :
    Manifest → List ManagedPath → Outcome ManifestSelectionError (List ManifestEntry)
unfolding find_all
selected_paths manifest paths =
    if is_empty paths then ok manifest.entries else find_all manifest paths

abbrev pub in_profile : ProfileName → ManifestEntry → Bool
in_profile profile entry = entry.profile == profile

-- `Manifest::select`
unfoldable pub select :
    Manifest
    → List ManagedPath
    → Option ProfileName
    → Outcome ManifestSelectionError (List ManifestEntry)
unfolding selected_paths check_profiles
select manifest paths none = selected_paths manifest paths
select manifest paths (some profile) = do
  fail_if (not (any (in_profile profile) manifest.entries)) (unknown_profile profile)
  selected ← selected_paths manifest paths
  (if is_empty paths then ok tt else check_profiles profile selected)
  ok (filter (in_profile profile) selected)
