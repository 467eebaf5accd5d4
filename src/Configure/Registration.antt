-- ===== src/Configure/Registration.antt =====
-- What a registration does to the manifest.
use gitveil.Base.{
  true, false, List, [], ◌∷◌, ◌≡◌, ◌≢◌, refl, sym, ap, ◌∙◌, arith, some, Str, contains, All, subst,
  ok, fail_if, map_err, >>=-eq-ok, nat_eq, list_eq, eq_refl,
}
use gitveil.ManagedPath.{ManagedPath, IsManagedPath}
use gitveil.Profile.{new_profile}
use gitveil.Recipient.{Bech32}
use gitveil.Manifest.{
  UnicodeTables, case_collision_key, ManifestEntry, Manifest, ManifestEntryAddOutcome, find,
  same_settings, add_entry,
}
use gitveil.Manifest.Invariant.{IsValid}
use gitveil.Manifest.Mutations.{add_entry-IsValid}
use gitveil.Manifest.Entries.{add_entry-find}
use gitveil.Configure.{
  RegistrationRequest, RegistrationPlan, duplicate_request, manifest, kind_of, entry_of,
  register_all, plan_registration,
}

-- The path and the profile of a request have been validated.
abbrev pub IsValidRequest : RegistrationRequest → Type 0
IsValidRequest request =
    IsManagedPath request.path × (new_profile request.profile ≡ ok request.profile)

abbrev none_registered : Manifest → RegistrationPlan
none_registered current = record { manifest = current; outcomes = [] }

module _ (tables : UnicodeTables) where
  -- A successful step of the loop.
  record Step (requested : List Str) (current : Manifest) (request : RegistrationRequest)
      (rest : List RegistrationRequest) (plan : RegistrationPlan) : Type 0 where
    result : Manifest × ManifestEntryAddOutcome
    later : RegistrationPlan
    is_new : contains requested (case_collision_key tables request.path) ≡ false
    entered : add_entry tables current (entry_of request) ≡ ok result
    continued :
        register_all tables (case_collision_key tables request.path ∷ requested) result.0 rest
        ≡ ok later
    same_manifest : later.manifest ≡ plan.manifest

  register_all-Step :
      (requested : List Str) (current : Manifest) (request : RegistrationRequest)
      (rest : List RegistrationRequest) (plan : RegistrationPlan)
      → register_all tables requested current (request ∷ rest) ≡ ok plan
      → Step requested current request rest plan
  unfolding register_all
  register_all-Step requested current request rest plan h =
      let (_, unseen, h1) =
        >>=-eq-ok
          (fail_if (contains requested (case_collision_key tables request.path))
            (duplicate_request request.path))
          _ h in
      let (result, entered, h2) =
        >>=-eq-ok (map_err manifest (add_entry tables current (entry_of request))) _ h1 in
      let (later, continued, h3) =
        >>=-eq-ok
          (register_all tables (case_collision_key tables request.path ∷ requested) result.0 rest)
          (λ p. ok (record p { outcomes = (request.path, kind_of result.1) ∷ p.outcomes })) h2 in
      let extended : RegistrationPlan = record later {
        outcomes = (request.path, kind_of result.1) ∷ later.outcomes;
      } in
      let built : extended ≡ plan = cc in
      record {
        result = result;
        later = later;
        is_new = ground arith;
        entered = ground arith;
        continued = continued;
        same_manifest = ap (λ (p : RegistrationPlan). p.manifest) built;
      }

  -- A path whose collision key was requested before stays as it is.
  register_all-find :
      (requested : List Str) (current : Manifest) (requests : List RegistrationRequest)
      (plan : RegistrationPlan) (path : ManagedPath)
      → register_all tables requested current requests ≡ ok plan
      → contains requested (case_collision_key tables path) ≡ true
      → find plan.manifest path ≡ find current path
  unfolding register_all contains
  register_all-find requested current [] plan path h seen =
      let built : none_registered current ≡ plan = cc in
      rw (ap (λ (p : RegistrationPlan). p.manifest) built) refl
  register_all-find requested current (request ∷ rest) plan path h seen =
      let s = register_all-Step requested current request rest plan h in
      let other : path ≢ request.path =
        λ e. cc (s.is_new, seen, ap (λ p. contains requested (case_collision_key tables p)) e) in
      let kept =
        register_all-find (case_collision_key tables request.path ∷ requested) s.result.0 rest
          s.later path s.continued (ground arith) in
      rw (sym s.same_manifest)
        (kept ∙ (add_entry-find tables current (entry_of request) s.entered).1 path other)

  -- The request is managed in the manifest with its settings.
  abbrev pub IsRegistered : Manifest → RegistrationRequest → Type 0
  IsRegistered result request =
      (kept : ManifestEntry) × (find result request.path ≡ some kept)
      × (same_settings kept (entry_of request) ≡ true)

  register_all-IsRegistered :
      (requested : List Str) (current : Manifest) (requests : List RegistrationRequest)
      (plan : RegistrationPlan)
      → register_all tables requested current requests ≡ ok plan
      → All (IsRegistered plan.manifest) requests
  unfolding contains
  register_all-IsRegistered requested current [] plan h = tt
  register_all-IsRegistered requested current (request ∷ rest) plan h =
      let s = register_all-Step requested current request rest plan h in
      let seen = case_collision_key tables request.path ∷ requested in
      let ((kept, found, same), _) = add_entry-find tables current (entry_of request) s.entered in
      let stays =
        register_all-find seen s.result.0 rest s.later request.path s.continued
          (ground (arith, eq_refl (case_collision_key tables request.path))) in
      subst (λ m. IsRegistered m request × All (IsRegistered m) rest) s.same_manifest
        (
          (kept, stays ∙ found, same),
          register_all-IsRegistered seen s.result.0 rest s.later s.continued,
        )

  register_all-IsValid :
      (codec : Bech32) (requested : List Str) (current : Manifest)
      (requests : List RegistrationRequest) (plan : RegistrationPlan)
      → IsValid tables codec current
      → All IsValidRequest requests
      → register_all tables requested current requests ≡ ok plan
      → IsValid tables codec plan.manifest
  unfolding register_all
  register_all-IsValid codec requested current [] plan valid each h =
      let built : none_registered current ≡ plan = cc in
      rw (sym (ap (λ (p : RegistrationPlan). p.manifest) built)) valid
  register_all-IsValid codec requested current (request ∷ rest) plan valid each h =
      let s = register_all-Step requested current request rest plan h in
      rw (sym s.same_manifest) (
        register_all-IsValid codec (case_collision_key tables request.path ∷ requested) s.result.0
          rest s.later
          (add_entry-IsValid tables codec current (entry_of request) valid each.0.0 each.0.1
            s.entered)
          each.1 s.continued)

-- A successful registration of requests whose paths and profiles have been validated keeps a valid
-- manifest valid, and afterwards every requested path is managed with the requested settings.
pub plan_registration-IsValid :
    (tables : UnicodeTables) (codec : Bech32) (current : Manifest)
    (requests : List RegistrationRequest) (plan : RegistrationPlan)
    → IsValid tables codec current
    → All IsValidRequest requests
    → plan_registration tables current requests ≡ ok plan
    → IsValid tables codec plan.manifest × All (IsRegistered tables plan.manifest) requests
unfolding plan_registration
plan_registration-IsValid tables codec current requests plan valid each h = (
  register_all-IsValid tables codec [] current requests plan valid each h,
  register_all-IsRegistered tables [] current requests plan h,
)
