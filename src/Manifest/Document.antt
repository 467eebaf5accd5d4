-- ===== src/Manifest/Document.antt =====
-- src/manifest.rs: reading and writing `.gitveilrc.json`. The `serde_json` calls and the derived
-- serde implementations are the fields of `Json`; the rest of `Manifest::parse` and
-- `Manifest::to_json_bytes` is here.
pub mod Valid
use gitveil.Base.{
  ℕ, zero, suc, ◌+◌, Bool, true, false, not, ◌&&◌, ◌||◌, List, [], ◌∷◌, ◌++◌, map, ◌≡◌, ◌==◌, eqb,
  Option, none, some, if◌then◌else◌, contains, IndexMap, contains_key, insert, Str, codes,
  ends_with, Outcome, ok, err, ◌>>=◌, ◌>>◌, fail_if, map_err, nat_eq, list_eq,
}
use gitveil.Config.{SourceFormat, ConfigError, from_str, as_str}
use gitveil.ManagedPath
use gitveil.ManagedPath.{ManagedPath, PathError}
use gitveil.ManagedPath.Suffix.{suffix}
use gitveil.Profile.{ProfileName, ProfileError, new_profile}
use gitveil.Recipient.{
  AgeRecipient, PolicyName, AgeRecipientPolicy, RecipientError, Bech32, new_recipient,
  new_policy_name, new_policy,
}
use gitveil.Manifest.{
  UnicodeTables, case_collision_key, ManifestEntry, Manifest, is_repository_configuration_path,
}

pub record RawEntry : Type 0 where
  pub path : Str
  pub format : Str
  pub recipient_policy : Str
  pub profile : Str

-- A `RawPolicy` is its list `age`.
pub record RawManifest : Type 0 where
  pub version : ℕ
  pub recipient_policies : IndexMap Str (List Str)
  pub files : List RawEntry

pub data ManifestError : Type 0 where
  json : Str → ManifestError
  legacy_schema : ManifestError
  version : ℕ → ManifestError
  policy : Str → RecipientError → ManifestError
  recipient : Str → ℕ → RecipientError → ManifestError
  missing_policy : Str → Str → ManifestError
  profile : Str → Str → ProfileError → ManifestError
  path : Str → PathError → ManifestError
  ciphertext_suffix reserved_path format duplicate : Str → ManifestError

-- The crates and the derived implementations: JSON text and values, the typed reader with its
-- default profile, and the pretty printer of the serialized form.
pub record Json : Type 1 where
  pub Value : Type 0
  pub Object : Type 0
  pub from_slice : List ℕ → Outcome Str Value
  pub as_object : Value → Option Object
  pub has_key : Object → Str → Bool
  pub from_value : Value → Outcome Str RawManifest
  pub to_vec_pretty : RawManifest → Option (List ℕ)

-- The recipients of one policy, from an index.
unfoldable pub parse_recipients :
    Bech32 → Str → ℕ → List Str → Outcome ManifestError (List AgeRecipient)
parse_recipients codec name index [] = ok []
parse_recipients codec name index (value ∷ rest) = do
  first ← map_err (recipient name index) (new_recipient codec value)
  others ← parse_recipients codec name (index + 1) rest
  ok (first ∷ others)

-- One round of the loop over the policies.
unfoldable pub parse_policy :
    Bech32 → Str → List Str → Outcome ManifestError (PolicyName × AgeRecipientPolicy)
unfolding parse_recipients
parse_policy codec raw_name age = do
  name ← map_err (policy raw_name) (new_policy_name raw_name)
  recipients ← parse_recipients codec raw_name 0 age
  made ← map_err (policy raw_name) (new_policy name recipients)
  ok (name, made)

-- The loop over the policies, from the map so far.
unfoldable pub parse_policies :
    Bech32
    → IndexMap PolicyName AgeRecipientPolicy
    → IndexMap Str (List Str)
    → Outcome ManifestError (IndexMap PolicyName AgeRecipientPolicy)
unfolding parse_policy
parse_policies codec policies [] = ok policies
parse_policies codec policies ((raw_name, age) ∷ rest) = do
  (name, made) ← parse_policy codec raw_name age
  parse_policies codec (insert name made policies) rest

-- One round of the loop over the files, with the collision keys seen so far.
unfoldable pub parse_entry :
    UnicodeTables
    → IndexMap PolicyName AgeRecipientPolicy
    → List Str
    → RawEntry
    → Outcome ManifestError ManifestEntry
parse_entry tables policies seen raw = do
  managed ← map_err (path raw.path) (ManagedPath.new raw.path)
  fail_if (ends_with suffix managed) (ciphertext_suffix raw.path)
  fail_if (is_repository_configuration_path managed) (reserved_path raw.path)
  source_format ← map_err (λ (e : ConfigError). format raw.format) (from_str raw.format)
  fail_if (contains seen (case_collision_key tables managed)) (duplicate raw.path)
  name ← map_err (policy raw.recipient_policy) (new_policy_name raw.recipient_policy)
  fail_if (not (contains_key name policies)) (missing_policy raw.path raw.recipient_policy)
  chosen ← map_err (profile raw.path raw.profile) (new_profile raw.profile)
  ok (record { path = managed; format = source_format; recipient_policy = name; profile = chosen })

-- The loop over the files, from the entries and the keys so far.
unfoldable pub parse_entries :
    UnicodeTables
    → IndexMap PolicyName AgeRecipientPolicy
    → List Str
    → List ManifestEntry
    → List RawEntry
    → Outcome ManifestError (List ManifestEntry)
unfolding parse_entry
parse_entries tables policies seen entries [] = ok entries
parse_entries tables policies seen entries (raw ∷ rest) = do
  entry ← parse_entry tables policies seen raw
  parse_entries tables policies (case_collision_key tables entry.path ∷ seen)
      (entries ++ entry ∷ []) rest

-- What `Manifest::parse` does with the typed form.
unfoldable pub from_raw : UnicodeTables → Bech32 → RawManifest → Outcome ManifestError Manifest
unfolding parse_policies parse_entries
from_raw tables codec raw = do
  fail_if (not (raw.version == 1)) (version raw.version)
  policies ← parse_policies codec [] raw.recipient_policies
  entries ← parse_entries tables policies [] [] raw.files
  ok (record { entries = entries; recipient_policies = policies })

-- The first check of `Manifest::parse`.
unfoldable pub is_legacy : (serde : Json) → serde.Value → Bool
is_legacy serde value = elim (serde.as_object value) [
  | none ↦ false
  | some object ↦
      serde.has_key object (codes "files") && not (serde.has_key object (codes "version"))
]

-- `Manifest::parse`
unfoldable pub parse : Json → UnicodeTables → Bech32 → List ℕ → Outcome ManifestError Manifest
unfolding is_legacy from_raw
parse serde tables codec bytes = do
  value ← map_err json (serde.from_slice bytes)
  fail_if (is_legacy serde value) legacy_schema
  raw ← map_err json (serde.from_value value)
  from_raw tables codec raw

pub data ManifestWriteError : Type 0 where
  serialization invariant : ManifestWriteError

-- The typed form that `to_json_bytes` serializes.
unfoldable pub raw_policies : IndexMap PolicyName AgeRecipientPolicy → IndexMap Str (List Str)
raw_policies [] = []
raw_policies ((name, p) ∷ rest) = (name, p.recipients) ∷ raw_policies rest

abbrev pub raw_entry : ManifestEntry → RawEntry
raw_entry entry = record {
  path = entry.path;
  format = as_str entry.format;
  recipient_policy = entry.recipient_policy;
  profile = entry.profile;
}

unfoldable pub to_raw : Manifest → RawManifest
unfolding raw_policies as_str
to_raw manifest = record {
  version = 1;
  recipient_policies = raw_policies manifest.recipient_policies;
  files = map raw_entry manifest.entries;
}
