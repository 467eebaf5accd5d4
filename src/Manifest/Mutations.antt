-- ===== src/Manifest/Mutations.antt =====
-- src/manifest.rs: `add_entry` and `set_policy_recipients` keep the invariant.
use gitveil.Base.{
  true, false, List, [], ◌∷◌, ◌++◌, ◌≡◌, ◌⊎◌, refl, ◌==◌, arith, none, some, Option-cases, inl, inr,
  any, contains, IsUnique-concat, All, contains_key, insert, contains_key-insert, keys-insert, Str,
  ends_with, ok, nat_eq, list_eq,
}
use gitveil.ManagedPath.{IsManagedPath}
use gitveil.ManagedPath.Suffix.{suffix}
use gitveil.Profile.{new_profile}
use gitveil.Recipient.{AgeRecipient, Bech32, PolicyName, AgeRecipientPolicy, new_policy}
use gitveil.Manifest.{
  UnicodeTables, case_collision_key, ManifestEntry, Manifest, ManifestEntryAddOutcome, added,
  already_managed, is_repository_configuration_path, find, same_settings, add_entry,
  set_policy_recipients,
}
use gitveil.Manifest.Invariant.{
  IsValidEntry, collision_keys, collision_keys-append, IsRecipient, IsValid, new_policy-cases,
  declared_name, insert-IsValidPolicy, All-extend, All-map,
}

any-collision :
    (tables : UnicodeTables) (key : Str) (xs : List ManifestEntry)
    → any (λ (e : ManifestEntry). case_collision_key tables e.path == key) xs
      ≡ contains (collision_keys tables xs) key
unfolding any contains
any-collision tables key [] = refl
any-collision tables key (x ∷ xs) = ground (arith, any-collision tables key xs)

-- What a successful `add_entry` did.
pub record Added (tables : UnicodeTables) (manifest : Manifest) (entry : ManifestEntry)
    (result : Manifest × ManifestEntryAddOutcome) : Type 0 where
  pub not_ciphertext : ends_with suffix entry.path ≡ false
  pub not_reserved : is_repository_configuration_path entry.path ≡ false
  pub policy_declared : contains_key entry.recipient_policy manifest.recipient_policies ≡ true
  pub cases :
      ((existing : ManifestEntry) × (find manifest entry.path ≡ some existing)
        × (same_settings existing entry ≡ true)
        × (result ≡ (manifest, already_managed)))
      ⊎ ((find manifest entry.path ≡ none)
          × (contains
                (collision_keys tables manifest.entries)
                (case_collision_key tables entry.path)
              ≡ false)
          × (result ≡ (record manifest { entries = manifest.entries ++ entry ∷ [] }, added)))

module _ (tables : UnicodeTables) (manifest : Manifest) where
  pub add_entry-Added :
      (entry : ManifestEntry) {result : Manifest × ManifestEntryAddOutcome}
      → add_entry tables manifest entry ≡ ok result
      → Added tables manifest entry result
  unfolding add_entry
  add_entry-Added entry h = record {
    not_ciphertext = ground arith;
    not_reserved = ground arith;
    policy_declared = ground arith;
    cases = elim (Option-cases (find manifest entry.path)) [
      | inr (existing, found) ↦ inl (existing, found, ground arith, ground arith)
      | inl missing ↦
          let clash =
            any-collision tables (case_collision_key tables entry.path) manifest.entries in
          inr (missing, ground (arith, clash), ground (arith, clash))
    ];
  }

module _ (tables : UnicodeTables) (codec : Bech32) (manifest : Manifest) where
  append-IsValid :
      (entry : ManifestEntry)
      → IsValid tables codec manifest
      → IsValidEntry manifest entry
      → contains (collision_keys tables manifest.entries) (case_collision_key tables entry.path)
        ≡ false
      → IsValid tables codec (record manifest { entries = manifest.entries ++ entry ∷ [] })
  append-IsValid entry valid new fresh =
      let result : Manifest = record manifest { entries = manifest.entries ++ entry ∷ [] } in
      let keep = λ (e : ManifestEntry) (v : IsValidEntry manifest e).
        let w : IsValidEntry result e = record {
          path_valid = v.path_valid;
          not_ciphertext = v.not_ciphertext;
          not_reserved = v.not_reserved;
          policy_declared = v.policy_declared;
          profile_valid = v.profile_valid;
        } in
        w in
      record {
        entries_valid =
            All-extend (IsValidEntry result) entry manifest.entries (keep entry new)
              (All-map manifest.entries keep valid.entries_valid);
        keys_unique =
            rw (collision_keys-append tables manifest.entries (entry ∷ []))
              (IsUnique-concat _ _ valid.keys_unique fresh);
        policies_valid = valid.policies_valid;
        names_unique = valid.names_unique;
      }

  -- A successful `add_entry` of an entry whose path and profile have been validated keeps a valid
  -- manifest valid.
  pub add_entry-IsValid :
      (entry : ManifestEntry) {result : Manifest × ManifestEntryAddOutcome}
      → IsValid tables codec manifest
      → IsManagedPath entry.path
      → new_profile entry.profile ≡ ok entry.profile
      → add_entry tables manifest entry ≡ ok result
      → IsValid tables codec result.0
  add_entry-IsValid entry {result} valid path profile h =
      let a = add_entry-Added tables manifest entry h in
      elim a.cases [
        | inl (existing, found, same, e) ↦ rw e valid
        | inr (missing, fresh, e) ↦ rw e (
            append-IsValid entry valid
              (record {
                path_valid = path;
                not_ciphertext = a.not_ciphertext;
                not_reserved = a.not_reserved;
                policy_declared = a.policy_declared;
                profile_valid = profile;
              })
              fresh)
      ]

  -- A successful `set_policy_recipients` with recipients that `AgeRecipient::new` accepts as they
  -- are keeps a valid manifest valid.
  pub set_policy_recipients-IsValid :
      (name : PolicyName) (recipients : List AgeRecipient) {result : Manifest}
      → IsValid tables codec manifest
      → All (IsRecipient codec) recipients
      → set_policy_recipients manifest name recipients ≡ ok result
      → IsValid tables codec result
  unfolding set_policy_recipients
  set_policy_recipients-IsValid name recipients {result} valid genuine h =
      let policy : AgeRecipientPolicy = record { name = name; recipients = recipients } in
      let known : contains_key name manifest.recipient_policies ≡ true = ground arith in
      let made : new_policy name recipients ≡ ok policy =
        ground (arith, new_policy-cases name recipients) in
      let e : result ≡ record manifest {
        recipient_policies = insert name policy manifest.recipient_policies;
      } =
        ground (arith, new_policy-cases name recipients) in
      let declared = λ (entry : ManifestEntry) (v : IsValidEntry manifest entry).
        let w : IsValidEntry
            (record manifest {
              recipient_policies = insert name policy manifest.recipient_policies;
            })
            entry =
          record {
            path_valid = v.path_valid;
            not_ciphertext = v.not_ciphertext;
            not_reserved = v.not_reserved;
            policy_declared = ground (
              arith,
              v.policy_declared,
              contains_key-insert name entry.recipient_policy policy manifest.recipient_policies,
            );
            profile_valid = v.profile_valid;
          } in
        w in
      rw e (record {
        entries_valid = All-map manifest.entries declared valid.entries_valid;
        keys_unique = valid.keys_unique;
        policies_valid = λ other found h'.
            insert-IsValidPolicy name policy manifest.recipient_policies
              (record {
                name_eq = refl;
                name_valid =
                    declared_name name manifest.recipient_policies valid.policies_valid known;
                recipients_valid = genuine;
                accepted = made;
              })
              valid.policies_valid other found h';
        names_unique =
            rw (keys-insert name policy manifest.recipient_policies, known) valid.names_unique;
      })
