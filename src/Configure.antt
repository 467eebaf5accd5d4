-- ===== src/Configure.antt =====
-- src/configure/plan.rs: the registration of files in a manifest.
pub mod Registration
pub mod Ignore
pub mod Visibility
pub mod Command
pub mod Publication
use gitveil.Base.{
  Bool, true, false, List, [], ◌∷◌, ◌≡◌, if◌then◌else◌, Str, contains, Outcome, ok, err, ◌>>=◌,
  ◌>>◌, fail_if, map_err, nat_eq, list_eq,
}
use gitveil.Config.{SourceFormat}
use gitveil.ManagedPath.{ManagedPath}
use gitveil.Profile.{ProfileName}
use gitveil.Recipient.{PolicyName}
use gitveil.Manifest.{
  UnicodeTables, case_collision_key, ManifestEntry, Manifest, ManifestEntryAddOutcome,
  added as entry_added, already_managed as entry_already_managed, ManifestMutationError, add_entry,
}

pub record RegistrationRequest : Type 0 where
  pub path : ManagedPath
  pub format : SourceFormat
  pub recipient_policy : PolicyName
  pub profile : ProfileName

pub data RegistrationKind : Type 0 where
  added already_managed : RegistrationKind

pub record RegistrationPlan : Type 0 where
  pub manifest : Manifest
  pub outcomes : List (ManagedPath × RegistrationKind)

abbrev pub kind_of : ManifestEntryAddOutcome → RegistrationKind
kind_of entry_added = added
kind_of entry_already_managed = already_managed

-- `ManifestEntry::new` of a request
abbrev pub entry_of : RegistrationRequest → ManifestEntry
entry_of request = record {
  path = request.path;
  format = request.format;
  recipient_policy = request.recipient_policy;
  profile = request.profile;
}

pub data RegistrationPlanError : Type 0 where
  duplicate_request : ManagedPath → RegistrationPlanError
  manifest : ManifestMutationError → RegistrationPlanError

-- The loop over the requests: `requested` holds the collision keys seen.
unfoldable pub register_all :
    UnicodeTables
    → List Str
    → Manifest
    → List RegistrationRequest
    → Outcome RegistrationPlanError RegistrationPlan
unfolding contains case_collision_key add_entry
register_all tables requested current [] = ok (record { manifest = current; outcomes = [] })
register_all tables requested current (request ∷ rest) = do
  fail_if (contains requested (case_collision_key tables request.path))
      (duplicate_request request.path)
  (next, outcome) ← map_err manifest (add_entry tables current (entry_of request))
  plan ← register_all tables (case_collision_key tables request.path ∷ requested) next rest
  ok (record plan { outcomes = (request.path, kind_of outcome) ∷ plan.outcomes })

unfoldable pub plan_registration :
    UnicodeTables
    → Manifest
    → List RegistrationRequest
    → Outcome RegistrationPlanError RegistrationPlan
unfolding register_all
plan_registration tables current requests = register_all tables [] current requests
