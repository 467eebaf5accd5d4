-- ===== src/Manifest/Invariant.antt =====
-- src/manifest.rs: the invariant of a manifest.
use gitveil.Base.{
  true, false, List, [], ◌∷◌, ◌++◌, ◌≡◌, ◌⊎◌, refl, ◌==◌, arith, some, eq_iff, Bool-cases,
  Option-cases, inl, inr, IsUnique, All, get, contains_key, insert, keys, get-insert,
  contains_key-get, IndexMap, Str, ends_with, ok, err, nat_eq, list_eq,
}
use gitveil.ManagedPath.{IsManagedPath}
use gitveil.ManagedPath.Suffix.{suffix}
use gitveil.Profile.{new_profile}
use gitveil.Recipient.{
  AgeRecipient, Bech32, PolicyName, AgeRecipientPolicy, RecipientError, new_recipient,
  new_policy_name, empty_policy, duplicate_age_recipient, any_repeat, new_policy,
}
use gitveil.Manifest.{
  UnicodeTables, case_collision_key, ManifestEntry, Manifest, is_repository_configuration_path,
}

-- What the reader guarantees of one entry.
pub record IsValidEntry (manifest : Manifest) (entry : ManifestEntry) : Type 0 where
  pub path_valid : IsManagedPath entry.path
  pub not_ciphertext : ends_with suffix entry.path ≡ false
  pub not_reserved : is_repository_configuration_path entry.path ≡ false
  pub policy_declared : contains_key entry.recipient_policy manifest.recipient_policies ≡ true
  pub profile_valid : new_profile entry.profile ≡ ok entry.profile

-- The collision keys of the managed paths.
abbrev pub collision_keys : UnicodeTables → List ManifestEntry → List Str
collision_keys tables [] = []
collision_keys tables (e ∷ rest) = case_collision_key tables e.path ∷ collision_keys tables rest

-- A text that is an age recipient.
abbrev pub IsRecipient : Bech32 → Str → Type 0
IsRecipient codec r = new_recipient codec r ≡ ok r

-- A policy stands under its own valid name, holds recipients, and has passed
-- `AgeRecipientPolicy::new`.
pub record IsValidPolicy (codec : Bech32) (name : PolicyName) (policy : AgeRecipientPolicy)
    : Type 0 where
  pub name_eq : policy.name ≡ name
  pub name_valid : new_policy_name name ≡ ok name
  pub recipients_valid : All (IsRecipient codec) policy.recipients
  pub accepted : new_policy policy.name policy.recipients ≡ ok policy

pub record IsValid (tables : UnicodeTables) (codec : Bech32) (manifest : Manifest) : Type 0 where
  pub entries_valid : All (IsValidEntry manifest) manifest.entries
  pub keys_unique : IsUnique (collision_keys tables manifest.entries)
  pub policies_valid :
      (name : PolicyName) (policy : AgeRecipientPolicy)
      → get name manifest.recipient_policies ≡ some policy
      → IsValidPolicy codec name policy
  pub names_unique : IsUnique (keys manifest.recipient_policies)

-- One more element at the end.
pub All-extend {ℓ κ} :
    {A : Type ℓ} (P : A → Type κ) (last : A) (xs : List A)
    → P last
    → All P xs
    → All P (xs ++ last ∷ [])
All-extend P last [] holds held = (holds, tt)
All-extend P last (x ∷ xs) holds held = (held.0, All-extend P last xs holds held.1)

pub All-map {ℓ κ μ} :
    {A : Type ℓ} {P : A → Type κ} {Q : A → Type μ} (xs : List A)
    → ((a : A) → P a → Q a)
    → All P xs
    → All Q xs
All-map [] f h = tt
All-map (x ∷ xs) f h = (f x h.0, All-map xs f h.1)

pub collision_keys-append :
    (tables : UnicodeTables) (xs ys : List ManifestEntry)
    → collision_keys tables (xs ++ ys) ≡ collision_keys tables xs ++ collision_keys tables ys
collision_keys-append tables [] ys = refl
collision_keys-append tables (x ∷ xs) ys = cc (collision_keys-append tables xs ys)

-- `AgeRecipientPolicy::new` stores what it is given, or fails.
pub new_policy-cases :
    (name : PolicyName) (recipients : List AgeRecipient)
    → (new_policy name recipients ≡ ok (record { name = name; recipients = recipients }))
      ⊎ ((e : RecipientError) × (new_policy name recipients ≡ err e))
unfolding new_policy
new_policy-cases name [] = inr (empty_policy, refl)
new_policy-cases name (r ∷ rest) = elim (Bool-cases (any_repeat [] (r ∷ rest))) [
  | inl repeated ↦ inr (duplicate_age_recipient, ground arith)
  | inr fresh ↦ inl (ground arith)
]

-- A declared name is the name of a valid policy.
pub declared_name :
    {codec : Bech32} (name : PolicyName) (policies : IndexMap PolicyName AgeRecipientPolicy)
    → ((other : PolicyName) (found : AgeRecipientPolicy)
        → get other policies ≡ some found
        → IsValidPolicy codec other found)
    → contains_key name policies ≡ true
    → new_policy_name name ≡ ok name
declared_name name policies valid known = elim (Option-cases (get name policies)) [
  | inl missing ↦ absurd (ground (arith, contains_key-get name policies))
  | inr (policy, found) ↦ (valid name policy found).name_valid
]

pub insert-IsValidPolicy :
    {codec : Bech32} (name : PolicyName) (policy : AgeRecipientPolicy)
    (policies : IndexMap PolicyName AgeRecipientPolicy)
    → IsValidPolicy codec name policy
    → ((other : PolicyName) (found : AgeRecipientPolicy)
        → get other policies ≡ some found
        → IsValidPolicy codec other found)
    → (other : PolicyName) (found : AgeRecipientPolicy)
    → get other (insert name policy policies) ≡ some found
    → IsValidPolicy codec other found
insert-IsValidPolicy name policy policies new old other found h =
    elim (Bool-cases (name == other)) [
      | inl same ↦
          let e = (eq_iff name other).0 same in
          let p : policy ≡ found = ground (arith, get-insert name other policy policies) in
          rw (← e, ← p) new
      | inr differ ↦ old other found (ground (arith, get-insert name other policy policies))
    ]
