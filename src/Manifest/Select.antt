-- ===== src/Manifest/Select.antt =====
-- What `Manifest::select` returns.
use gitveil.Base.{
  Bool, true, not, List, [], ◌∷◌, ◌≡◌, refl, arith, Option, none, some, any, all, filter,
  filter-eq_self, ok, fail_if, ok_or, >>=-eq-ok, nat_eq, list_eq,
}
use gitveil.ManagedPath.{ManagedPath}
use gitveil.Profile.{ProfileName}
use gitveil.Manifest.{
  ManifestEntry, Manifest, undeclared_path, unknown_profile, find, find_all, check_profiles,
  selected_paths, in_profile, select,
}

-- The filter by an optional profile.
abbrev pub wanted : Option ProfileName → ManifestEntry → Bool
wanted none entry = true
wanted (some profile) entry = in_profile profile entry

-- One entry for each requested path, in the order of the request.
pub data Resolves (manifest : Manifest) (profile : Option ProfileName)
    : List ManagedPath → List ManifestEntry → Type 0 where
  nil : Resolves manifest profile [] []
  cons :
      {path : ManagedPath} {entry : ManifestEntry} {paths : List ManagedPath}
      {entries : List ManifestEntry}
      → find manifest path ≡ some entry
      → wanted profile entry ≡ true
      → Resolves manifest profile paths entries
      → Resolves manifest profile (path ∷ paths) (entry ∷ entries)

-- With no path: the entries of the profile. With paths: each of them, and nothing else.
abbrev pub Selected : Manifest → List ManagedPath → Option ProfileName → List ManifestEntry → Type 0
Selected manifest [] profile entries = entries ≡ filter (wanted profile) manifest.entries
Selected manifest (path ∷ rest) profile entries = Resolves manifest profile (path ∷ rest) entries

find_all-Resolves :
    (manifest : Manifest) (profile : Option ProfileName) (paths : List ManagedPath)
    {entries : List ManifestEntry}
    → find_all manifest paths ≡ ok entries
    → all (wanted profile) entries ≡ true
    → Resolves manifest profile paths entries
unfolding find_all all
find_all-Resolves manifest profile [] {entries} h w =
    let e : ◌≡◌ {A = List ManifestEntry} entries [] = cc in rw e nil
find_all-Resolves manifest profile (path ∷ rest) {entries} h w =
    let (entry, found, h1) = >>=-eq-ok (ok_or (find manifest path) (undeclared_path path)) _ h in
    let (others, looked, h2) = >>=-eq-ok (find_all manifest rest) _ h1 in
    let e : ◌≡◌ {A = List ManifestEntry} entries (entry ∷ others) = cc in
    rw e (
      cons (ground arith) (ground arith)
        (find_all-Resolves manifest profile rest looked (ground arith)))

check_profiles-all :
    (profile : ProfileName) (entries : List ManifestEntry)
    → check_profiles profile entries ≡ ok tt
    → all (in_profile profile) entries ≡ true
unfolding check_profiles all
check_profiles-all profile [] h = refl
check_profiles-all profile (e ∷ rest) h = ground (arith, check_profiles-all profile rest)

all-wanted : (entries : List ManifestEntry) → all (wanted none) entries ≡ true
unfolding all
all-wanted [] = refl
all-wanted (e ∷ rest) = all-wanted rest

-- A successful selection is never silently broadened or narrowed: without paths it is all the
-- entries, or those of the profile; with paths it has exactly one entry for each, in order, found
-- at that path and in the requested profile.
pub select-Selected :
    (manifest : Manifest) (paths : List ManagedPath) (profile : Option ProfileName)
    {entries : List ManifestEntry}
    → select manifest paths profile ≡ ok entries
    → Selected manifest paths profile entries
unfolding select selected_paths
select-Selected manifest [] none {entries} h =
    ground (arith, filter-eq_self (wanted none) manifest.entries (all-wanted manifest.entries))
select-Selected manifest (p ∷ ps) none h = find_all-Resolves manifest none (p ∷ ps) h (all-wanted _)
select-Selected manifest [] (some profile) h = ground arith
select-Selected manifest (p ∷ ps) (some profile) {entries} h =
    let (_, known, h1) =
      >>=-eq-ok
        (fail_if (not (any (in_profile profile) manifest.entries)) (unknown_profile profile)) _ h in
    let (found, looked, h2) = >>=-eq-ok (find_all manifest (p ∷ ps)) _ h1 in
    let (_, checked, h3) = >>=-eq-ok (check_profiles profile found) _ h2 in
    let every = check_profiles-all profile found checked in
    let kept = filter-eq_self (in_profile profile) found every in
    let e : entries ≡ found = ground arith in
    rw e (find_all-Resolves manifest (some profile) (p ∷ ps) looked every)
