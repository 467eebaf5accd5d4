-- ===== src/Configure/Visibility.antt =====
-- src/configure/plan.rs: what Git must ignore and what it must see. The states of the paths are a
-- function, the lookup in the source's hash map.
use gitveil.Base.{
  ℕ, Bool, true, false, not, ◌&&◌, ◌≡◌, refl, ◌∙◌, ap, List, [], ◌∷◌, ◌++◌, arith, Option, none,
  some, if◌then◌else◌, Str, contains, map, All, IsUnique, ok-eq, eq_iff, eq_refl, Bool-cases,
  Outcome, ok, ◌>>=◌, ok_or, >>=-eq-ok, ok_or-ok, nat_eq, list_eq, inl, inr, ◌↔◌,
}
use gitveil.ManagedPath.{ManagedPath}
use gitveil.Manifest.{UnicodeTables, case_collision_key, ManifestEntry, Manifest, ciphertext_path}

pub record IgnoreRuleSnapshot : Type 0 where
  pub source : Str
  pub line : ℕ
  pub pattern : Str
  pub ignored : Bool

pub data IgnoreState : Type 0 where
  unmatched : IgnoreState
  matched : IgnoreRuleSnapshot → IgnoreState

abbrev pub is_ignored : IgnoreState → Bool
is_ignored unmatched = false
is_ignored (matched rule) = rule.ignored

abbrev pub evidence : IgnoreState → Option IgnoreRuleSnapshot
evidence unmatched = none
evidence (matched rule) = some rule

pub data VisibilityExpectation : Type 0 where
  plaintext_ignored ciphertext_visible : VisibilityExpectation

pub record VisibilityViolation : Type 0 where
  pub path : ManagedPath
  pub expectation : VisibilityExpectation
  pub found : Option IgnoreRuleSnapshot

pub data VisibilityPlanError : Type 0 where
  missing_evaluation : ManagedPath → VisibilityPlanError

abbrev pub States : Type 0
States = ManagedPath → Option IgnoreState

-- `if bad { violations.push(…) }`
abbrev pub violation :
    Bool → ManagedPath → VisibilityExpectation → IgnoreState → List VisibilityViolation
violation false path expectation state = []
violation true path expectation state =
    record { path = path; expectation = expectation; found = evidence state } ∷ []

-- The loop over the entries.
unfoldable pub entry_violations :
    States → List ManifestEntry → Outcome VisibilityPlanError (List VisibilityViolation)
unfolding ciphertext_path
entry_violations states [] = ok []
entry_violations states (entry ∷ rest) = do
  plaintext ← ok_or (states entry.path) (missing_evaluation entry.path)
  ciphertext ← ok_or (states (ciphertext_path entry)) (missing_evaluation (ciphertext_path entry))
  later ← entry_violations states rest
  ok (
      violation (not (is_ignored plaintext)) entry.path plaintext_ignored plaintext
      ++ (violation (is_ignored ciphertext) (ciphertext_path entry) ciphertext_visible ciphertext
          ++ later))

unfoldable pub visibility_violations :
    Manifest → States → Outcome VisibilityPlanError (List VisibilityViolation)
unfolding entry_violations
visibility_violations manifest states = entry_violations states manifest.entries

-- The filter: `seen` holds the collision keys so far.
unfoldable pub unseen : UnicodeTables → List Str → List ManagedPath → List ManagedPath
unfolding case_collision_key contains
unseen tables seen [] = []
unseen tables seen (path ∷ rest) =
    let key = case_collision_key tables path in
    let later = unseen tables (key ∷ seen) rest in
    let same = unseen tables seen rest in if contains seen key then same else path ∷ later

unfoldable pub merge_protection_paths :
    UnicodeTables → List ManagedPath → List ManagedPath → List ManagedPath
unfolding unseen
merge_protection_paths tables authoritative fail_safe =
    unseen tables [] (authoritative ++ fail_safe)

no_violations :
    (ignored seen : Bool) (path companion : ManagedPath) (p c : IgnoreState)
    (later : List VisibilityViolation)
    → violation (not ignored) path plaintext_ignored p
        ++ (violation seen companion ciphertext_visible c ++ later)
      ≡ []
    → (ignored ≡ true) × (seen ≡ false) × (later ≡ [])
no_violations true false path companion p c later h = (refl, refl, h)
no_violations true true path companion p c later h = cc
no_violations false seen path companion p c later h = cc

-- Git ignores the plaintext and sees the ciphertext of an entry.
abbrev pub IsVisible : States → ManifestEntry → Type 0
IsVisible states entry =
    ((plaintext : IgnoreState) × (states entry.path ≡ some plaintext)
      × (is_ignored plaintext ≡ true))
    × ((ciphertext : IgnoreState) × (states (ciphertext_path entry) ≡ some ciphertext)
        × (is_ignored ciphertext ≡ false))

entry_violations-IsVisible :
    (states : States) (entries : List ManifestEntry)
    → entry_violations states entries ≡ ok []
    → All (IsVisible states) entries
unfolding entry_violations
entry_violations-IsVisible states [] h = tt
entry_violations-IsVisible states (entry ∷ rest) h =
    let (plaintext, found, h1) =
      >>=-eq-ok (ok_or (states entry.path) (missing_evaluation entry.path)) _ h in
    let (ciphertext, found', h2) =
      >>=-eq-ok
        (ok_or (states (ciphertext_path entry)) (missing_evaluation (ciphertext_path entry))) _
        h1 in
    let (later, checked, h3) =
      >>=-eq-ok (entry_violations states rest)
        (λ later. ok (
          violation (not (is_ignored plaintext)) entry.path plaintext_ignored plaintext
          ++ (violation (is_ignored ciphertext) (ciphertext_path entry) ciphertext_visible
                ciphertext
              ++ later)))
        h2 in
    let (one, two, none_later) =
      no_violations (is_ignored plaintext) (is_ignored ciphertext) entry.path
        (ciphertext_path entry) plaintext ciphertext later (ok-eq _ [] h3) in
    (
      (
        (plaintext, ok_or-ok (states entry.path) (missing_evaluation entry.path) found, one),
        (
          ciphertext,
          ok_or-ok (states (ciphertext_path entry)) (missing_evaluation (ciphertext_path entry))
              found',
          two,
        ),
      ),
      entry_violations-IsVisible states rest (checked ∙ ap ok none_later),
    )

IsVisible-entry_violations :
    (states : States) (entries : List ManifestEntry)
    → All (IsVisible states) entries
    → entry_violations states entries ≡ ok []
unfolding entry_violations
IsVisible-entry_violations states [] h = refl
IsVisible-entry_violations states (entry ∷ rest) (((p, found, ignored), (c, found', seen)), h) =
    rw (entry_violations, found, found', IsVisible-entry_violations states rest h, ignored, seen)
      refl

-- There are no violations, and no error, exactly when every path has been evaluated, every managed
-- plaintext is ignored by Git, and no ciphertext is.
pub visibility_violations_iff :
    (manifest : Manifest) (states : States)
    → (visibility_violations manifest states ≡ ok []) ↔ All (IsVisible states) manifest.entries
unfolding visibility_violations
visibility_violations_iff manifest states = (
  entry_violations-IsVisible states manifest.entries,
  IsVisible-entry_violations states manifest.entries,
)

abbrev pub collision_keys : UnicodeTables → List ManagedPath → List Str
collision_keys tables = map (case_collision_key tables)

contains-unseen :
    (tables : UnicodeTables) (seen : List Str) (paths : List ManagedPath) (k : Str)
    → contains (collision_keys tables (unseen tables seen paths)) k
      ≡ (not (contains seen k) && contains (collision_keys tables paths) k)
unfolding unseen contains
contains-unseen tables seen [] k = ground arith
contains-unseen tables seen (path ∷ rest) k =
    let key = case_collision_key tables path in
    elim (Bool-cases (contains seen key)) [
      | inl known ↦ rw known (ground (arith, contains-unseen tables seen rest k, eq_iff key k))
      | inr new ↦ rw new (ground (arith, contains-unseen tables (key ∷ seen) rest k, eq_iff key k))
    ]

IsUnique-unseen :
    (tables : UnicodeTables) (seen : List Str) (paths : List ManagedPath)
    → IsUnique (collision_keys tables (unseen tables seen paths))
unfolding unseen contains
IsUnique-unseen tables seen [] = tt
IsUnique-unseen tables seen (path ∷ rest) =
    let key = case_collision_key tables path in
    elim (Bool-cases (contains seen key)) [
      | inl known ↦ rw known (IsUnique-unseen tables seen rest)
      | inr new ↦ rw new (
        ground (arith, contains-unseen tables (key ∷ seen) rest key, eq_refl key),
        IsUnique-unseen tables (key ∷ seen) rest,
      )
    ]

-- The merged paths have distinct collision keys, and exactly those of the two lists.
pub merge_protection_paths-IsUnique :
    (tables : UnicodeTables) (authoritative fail_safe : List ManagedPath)
    → IsUnique (collision_keys tables (merge_protection_paths tables authoritative fail_safe))
      × ((k : Str)
          → contains
              (collision_keys tables (merge_protection_paths tables authoritative fail_safe))
              k
            ≡ contains (collision_keys tables (authoritative ++ fail_safe)) k)
unfolding merge_protection_paths contains
merge_protection_paths-IsUnique tables authoritative fail_safe = (
  IsUnique-unseen tables [] (authoritative ++ fail_safe),
  λ k. contains-unseen tables [] (authoritative ++ fail_safe) k,
)
