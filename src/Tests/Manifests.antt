-- ===== src/Tests/Manifests.antt =====
-- Reading, changing and selecting in a small manifest.
use gitveil.Base.{
  ℕ, true, List, [], ◌∷◌, ◌≡◌, ◌≢◌, refl, none, some, codes, ok, find?, contains, contains_key,
  contains_str, insert, any, All, all, filter, split, starts_with, ends_with, is_control, list_beq,
  nat_eq, list_eq,
}
use gitveil.Config.{dotenv, from_str}
use gitveil.ManagedPath
use gitveil.ManagedPath.{ManagedPath, IsManagedPath}
use gitveil.Profile.{new_profile}
use gitveil.Recipient.{Bech32, new_recipient, new_policy, new_policy_name}
use gitveil.Manifest.{
  UnicodeTables, case_collision_key, ManifestEntry, Manifest, added as entry_added, find,
  same_settings, add_entry, ciphertext_path, set_policy_recipients,
  is_repository_configuration_path, select,
}
use gitveil.Manifest.Document.{Json, RawManifest, parse}
use gitveil.Manifest.Written.{to_json_bytes, parse-to_json_bytes, IsSameManifest}
use gitveil.Manifest.Document.Valid.{parse-IsValid}
use gitveil.Manifest.Invariant.{IsValid}
use gitveil.Manifest.Mutations.{add_entry-IsValid, set_policy_recipients-IsValid}
use gitveil.Manifest.Entries.{find-ciphertext_path, add_entry-find}
use gitveil.Configure.{RegistrationRequest, RegistrationPlan, added, plan_registration}
use gitveil.Configure.Registration.{IsRegistered, plan_registration-IsValid}
use gitveil.Manifest.Select.{Selected, select-Selected}

-- Tables and a codec with the shape of the real ones; the codec knows one recipient.
abbrev pub tables : UnicodeTables
tables = record { nfc = λ s. s; to_lowercase = λ s. s }

abbrev pub payload : List ℕ
payload =
    0 ∷ 0 ∷ 0 ∷ 0 ∷ 0 ∷ 0 ∷ 0 ∷ 0 ∷ 0 ∷ 0 ∷ 0 ∷ 0 ∷ 0 ∷ 0 ∷ 0 ∷ 0 ∷ 0 ∷ 0 ∷ 0 ∷ 0 ∷ 0 ∷ 0 ∷ 0 ∷ 0
    ∷ 0 ∷ 0 ∷ 0 ∷ 0 ∷ 0 ∷ 0 ∷ 0 ∷ 0 ∷ []

abbrev pub codec : Bech32
codec = record {
  decode = λ s. some (codes "age", payload);
  encode = λ hrp data'. some (codes "age1zz");
}

abbrev pub raw : RawManifest
raw = record {
  version = 1;
  recipient_policies = (codes "team", codes "age1zz" ∷ []) ∷ [];
  files =
      record {
        path = codes "a/.env";
        format = codes "dotenv";
        recipient_policy = codes "team";
        profile = codes "dev";
      }
      ∷ [];
}

abbrev pub serde : Json
serde = record {
  Value = RawManifest;
  from_slice = λ bytes. ok raw;
  Object = Unit;
  as_object = λ value. some tt;
  has_key = λ object name. true;
  from_value = λ value. ok value;
  to_vec_pretty = λ value. some [];
}

abbrev pub entry : ManifestEntry
entry = record {
  path = codes "a/.env";
  format = dotenv;
  recipient_policy = codes "team";
  profile = codes "dev";
}

abbrev other : ManifestEntry
other = record {
  path = codes "b.env";
  format = dotenv;
  recipient_policy = codes "team";
  profile = codes "default";
}

abbrev pub small : Manifest
small = record {
  entries = entry ∷ [];
  recipient_policies =
      (codes "team", record { name = codes "team"; recipients = codes "age1zz" ∷ [] }) ∷ [];
}

abbrev larger : Manifest
larger = record small { entries = entry ∷ other ∷ [] }

parse_runs : parse serde tables codec [] ≡ ok small
unfolding parse ManagedPath.new new_recipient new_policy_name new_policy new_profile from_str
    case_collision_key is_repository_configuration_path contains contains_key contains_str insert
    any all split starts_with ends_with is_control list_beq
parse_runs = refl

add_runs : add_entry tables small other ≡ ok (larger, entry_added)
unfolding add_entry contains_key any starts_with ends_with list_beq find?
add_runs = refl

set_runs : set_policy_recipients small (codes "team") (codes "age1zz" ∷ []) ≡ ok small
unfolding set_policy_recipients new_policy contains contains_key insert list_beq
set_runs = refl

select_runs : select larger (codes "b.env" ∷ []) (some (codes "default")) ≡ ok (other ∷ [])
unfolding select any filter find? list_beq
select_runs = refl

path_valid : IsManagedPath other.path
unfolding ManagedPath.new contains_str any split starts_with ends_with is_control contains list_beq
path_valid = refl

profile_valid : new_profile other.profile ≡ ok other.profile
unfolding new_profile all
profile_valid = refl

recipient_valid : new_recipient codec (codes "age1zz") ≡ ok (codes "age1zz")
unfolding new_recipient list_beq
recipient_valid = refl

parse-IsValid_example : IsValid tables codec small
parse-IsValid_example = parse-IsValid serde tables codec [] parse_runs

small-IsValid : IsValid tables codec small
small-IsValid = parse-IsValid serde tables codec [] parse_runs

add_entry-IsValid_example : IsValid tables codec larger
add_entry-IsValid_example =
    add_entry-IsValid tables codec small other small-IsValid path_valid profile_valid add_runs

set_policy_recipients-IsValid_example : IsValid tables codec small
set_policy_recipients-IsValid_example =
    set_policy_recipients-IsValid tables codec small (codes "team") (codes "age1zz" ∷ [])
      small-IsValid (recipient_valid, tt) set_runs

add_entry-find_example :
    ((kept : ManifestEntry) × (find larger other.path ≡ some kept)
      × (same_settings kept other ≡ true))
    × ((path : ManagedPath) → path ≢ other.path → find larger path ≡ find small path)
add_entry-find_example = add_entry-find tables small other add_runs

find-ciphertext_path_example : find small (ciphertext_path other) ≡ none
find-ciphertext_path_example = find-ciphertext_path tables codec small other small-IsValid

select-Selected_example : Selected larger (codes "b.env" ∷ []) (some (codes "default")) (other ∷ [])
select-Selected_example =
    select-Selected larger (codes "b.env" ∷ []) (some (codes "default")) select_runs

abbrev request : RegistrationRequest
request = record {
  path = codes "b.env";
  format = dotenv;
  recipient_policy = codes "team";
  profile = codes "default";
}

abbrev registered : RegistrationPlan
registered = record { manifest = larger; outcomes = (codes "b.env", added) ∷ [] }

register_runs : plan_registration tables small (request ∷ []) ≡ ok registered
unfolding plan_registration add_entry contains contains_key any starts_with ends_with list_beq find?
register_runs = refl

plan_registration-IsValid_example :
    IsValid tables codec larger × All (IsRegistered tables larger) (request ∷ [])
plan_registration-IsValid_example =
    plan_registration-IsValid tables codec small (request ∷ []) registered small-IsValid
      ((path_valid, profile_valid), tt) register_runs

written : to_json_bytes serde tables codec small ≡ ok (b'\n' ∷ [])
unfolding to_json_bytes ManagedPath.new new_recipient new_policy_name new_policy new_profile
    from_str is_repository_configuration_path contains contains_key contains_str insert any all
    split starts_with ends_with is_control list_beq
written = refl

parse-to_json_bytes_example :
    (reparsed : Manifest) × (parse serde tables codec (b'\n' ∷ []) ≡ ok reparsed)
    × IsSameManifest reparsed small
parse-to_json_bytes_example = parse-to_json_bytes serde tables codec small (b'\n' ∷ []) written
