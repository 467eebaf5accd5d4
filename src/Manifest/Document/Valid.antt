-- ===== src/Manifest/Document/Valid.antt =====
-- What the reader accepts is a valid manifest.
use gitveil.Base.{
  ℕ, ◌+◌, false, not, List, [], ◌∷◌, ◌++◌, ◌≡◌, refl, ◌∙◌, ◌==◌, arith, some, eq_iff, Bool-cases,
  inl, inr, contains, contains-append, IsUnique, IsUnique-concat, All, IndexMap, get, contains_key,
  insert, keys, keys-insert, contains-keys, Str, Outcome, ok, err, fail_if, map_err, >>=-eq-ok,
  nat_eq, list_eq,
}
use gitveil.ManagedPath
use gitveil.ManagedPath.{ManagedPath, PathError, IsManagedPath}
use gitveil.Profile.{new_profile}
use gitveil.Recipient.{
  AgeRecipient, Bech32, PolicyName, AgeRecipientPolicy, new_recipient, new_policy_name, new_policy,
}
use gitveil.Manifest.{UnicodeTables, case_collision_key, ManifestEntry, Manifest}
use gitveil.Manifest.Invariant.{
  IsValidEntry, collision_keys, collision_keys-append, IsRecipient, IsValidPolicy, IsValid,
  new_policy-cases, insert-IsValidPolicy, All-extend,
}
use gitveil.Manifest.Document.{
  RawEntry, RawManifest, ManifestError, Json, parse_recipients, parse_policy, parse_policies,
  parse_entry, parse_entries, is_legacy, from_raw, parse,
}

map_err-eq-ok {ℓ κ μ} :
    {E : Type ℓ} {F : Type κ} {A : Type μ} (f : E → F) (o : Outcome E A) {a : A}
    → map_err f o ≡ ok a
    → o ≡ ok a
map_err-eq-ok f (ok b) h = cc
map_err-eq-ok f (err e) h = cc

-- Each validated text is the text that was given.
pub new_lem : (v p : Str) → ManagedPath.new v ≡ ok p → p ≡ v
unfolding ManagedPath.new
new_lem v p h = ground arith

pub new_policy_name_lem : (v p : Str) → new_policy_name v ≡ ok p → p ≡ v
unfolding new_policy_name
new_policy_name_lem v p h = ground arith

pub new_profile_lem : (v p : Str) → new_profile v ≡ ok p → p ≡ v
unfolding new_profile
new_profile_lem v p h = ground arith

pub new_recipient_lem : (codec : Bech32) (v r : Str) → new_recipient codec v ≡ ok r → r ≡ v
unfolding new_recipient
new_recipient_lem codec v r h = ground (arith, eq_iff r v)

parse_recipients-All :
    (codec : Bech32) (name : Str) (index : ℕ) (age : List Str) {rs : List AgeRecipient}
    → parse_recipients codec name index age ≡ ok rs
    → All (IsRecipient codec) rs
unfolding parse_recipients
parse_recipients-All codec name index [] {rs} h = let e : ◌≡◌ {A = List Str} rs [] = cc in rw e tt
parse_recipients-All codec name index (value ∷ rest) {rs} h =
    let (first, made, h') = >>=-eq-ok (map_err _ (new_recipient codec value)) _ h in
    let (others, parsed, h2) = >>=-eq-ok (parse_recipients codec name (index + 1) rest) _ h' in
    let e : ◌≡◌ {A = List Str} rs (first ∷ others) = cc in
    let accepted = map_err-eq-ok _ (new_recipient codec value) made in
    let same = new_recipient_lem codec value first accepted in
    rw e ((rw same (rw same at accepted)), parse_recipients-All codec name (index + 1) rest parsed)

parse_policy-IsValidPolicy :
    (codec : Bech32) (raw : Str) (age : List Str) (name : PolicyName) (made : AgeRecipientPolicy)
    → parse_policy codec raw age ≡ ok (name, made)
    → IsValidPolicy codec name made
unfolding parse_policy
parse_policy-IsValidPolicy codec raw age name made h =
    let (n, named, h1) = >>=-eq-ok (map_err _ (new_policy_name raw)) _ h in
    let (rs, parsed, h2) = >>=-eq-ok (parse_recipients codec raw 0 age) _ h1 in
    let (p, built, h3) = >>=-eq-ok (map_err _ (new_policy n rs)) _ h2 in
    let n_eq : n ≡ name = ground arith in
    let p_eq : p ≡ made = ground arith in
    let accepted = map_err-eq-ok _ (new_policy_name raw) named in
    let same = new_policy_name_lem raw n accepted in
    let stored : made ≡ record { name = name; recipients = rs } =
      ground (arith, new_policy-cases n rs, map_err-eq-ok _ (new_policy n rs) built) in
    let valid : IsValidPolicy codec name (record { name = name; recipients = rs }) = record {
      name_eq = refl;
      name_valid = ground arith;
      recipients_valid = parse_recipients-All codec raw 0 age parsed;
      accepted = ground (arith, new_policy-cases n rs, map_err-eq-ok _ (new_policy n rs) built);
    } in
    rw stored valid

-- The part of the invariant that speaks of the policies.
record PoliciesValid (codec : Bech32) (policies : IndexMap PolicyName AgeRecipientPolicy)
    : Type 0 where
  valid :
      (name : PolicyName) (policy : AgeRecipientPolicy)
      → get name policies ≡ some policy
      → IsValidPolicy codec name policy
  unique : IsUnique (keys policies)

insert-IsUnique :
    (name : PolicyName) (policy : AgeRecipientPolicy)
    (policies : IndexMap PolicyName AgeRecipientPolicy)
    → IsUnique (keys policies)
    → IsUnique (keys (insert name policy policies))
insert-IsUnique name policy policies h = elim (Bool-cases (contains_key name policies)) [
  | inl known ↦ rw (keys-insert name policy policies, known) h
  | inr fresh ↦
      rw (keys-insert name policy policies, fresh)
        (IsUnique-concat (keys policies) name h (contains-keys name policies ∙ fresh))
]

parse_policies-Valid :
    (codec : Bech32) (policies : IndexMap PolicyName AgeRecipientPolicy)
    (raw : IndexMap Str (List Str)) {result : IndexMap PolicyName AgeRecipientPolicy}
    → PoliciesValid codec policies
    → parse_policies codec policies raw ≡ ok result
    → PoliciesValid codec result
unfolding parse_policies
parse_policies-Valid codec policies [] {result} v h = let e : policies ≡ result = cc in rw (← e) v
parse_policies-Valid codec policies ((raw_name, age) ∷ rest) v h =
    let ((name, made), parsed, h') = >>=-eq-ok (parse_policy codec raw_name age) _ h in
    parse_policies-Valid codec (insert name made policies) rest
      (record {
        valid =
            insert-IsValidPolicy name made policies
              (parse_policy-IsValidPolicy codec raw_name age name made parsed) v.valid;
        unique = insert-IsUnique name made policies v.unique;
      })
      h'

-- The part of the invariant that speaks of the entries, relative to the policies of `m`.
record EntriesValid (tables : UnicodeTables) (m : Manifest) (seen : List Str)
    (entries : List ManifestEntry) : Type 0 where
  valid : All (IsValidEntry m) entries
  unique : IsUnique (collision_keys tables entries)
  recorded : (key : Str) → contains (collision_keys tables entries) key ≡ contains seen key

record_key :
    (tables : UnicodeTables) (seen : List Str) (entries : List ManifestEntry)
    (entry : ManifestEntry) (key : Str)
    → contains (collision_keys tables entries) key ≡ contains seen key
    → contains (collision_keys tables (entries ++ entry ∷ [])) key
      ≡ contains (case_collision_key tables entry.path ∷ seen) key
unfolding contains
record_key tables seen entries entry key h =
    let added : List Str = case_collision_key tables entry.path ∷ [] in
    rw (collision_keys-append tables entries (entry ∷ []))
      (ground (arith, contains-append (collision_keys tables entries) added key))

module _ (tables : UnicodeTables) (m : Manifest) where
  parse_entry-IsValidEntry :
      (seen : List Str) (raw : RawEntry) {entry : ManifestEntry}
      → parse_entry tables m.recipient_policies seen raw ≡ ok entry
      → IsValidEntry m entry × (contains seen (case_collision_key tables entry.path) ≡ false)
  unfolding parse_entry
  parse_entry-IsValidEntry seen raw {entry} h = (
    record {
      path_valid = ground (arith, new_lem raw.path entry.path);
      not_ciphertext = ground (arith, new_lem raw.path entry.path);
      not_reserved = ground (arith, new_lem raw.path entry.path);
      policy_declared = ground arith;
      profile_valid = ground (arith, new_profile_lem raw.profile entry.profile);
    },
    ground (arith, new_lem raw.path entry.path),
  )

  parse_entries-Valid :
      (seen : List Str) (entries : List ManifestEntry) (raw : List RawEntry)
      {result : List ManifestEntry}
      → EntriesValid tables m seen entries
      → parse_entries tables m.recipient_policies seen entries raw ≡ ok result
      → (seen' : List Str) × EntriesValid tables m seen' result
  unfolding parse_entries
  parse_entries-Valid seen entries [] {result} v h =
      let e : entries ≡ result = cc in (seen, rw (← e) v)
  parse_entries-Valid seen entries (raw ∷ rest) v h =
      let (entry, parsed, h') = >>=-eq-ok (parse_entry tables m.recipient_policies seen raw) _ h in
      let (valid, fresh) = parse_entry-IsValidEntry seen raw parsed in
      parse_entries-Valid (case_collision_key tables entry.path ∷ seen) (entries ++ entry ∷ []) rest
        (record {
          valid = All-extend (IsValidEntry m) entry entries valid v.valid;
          unique =
              rw (collision_keys-append tables entries (entry ∷ []))
                (IsUnique-concat _ _ v.unique (v.recorded _ ∙ fresh));
          recorded = λ key. record_key tables seen entries entry key (v.recorded key);
        })
        h'

get_nil : (name : PolicyName) (policy : AgeRecipientPolicy) → get name [] ≡ some policy → ⊥
unfolding get
get_nil name policy h = cc

pub from_raw-IsValid :
    (tables : UnicodeTables) (codec : Bech32) (raw : RawManifest) {m : Manifest}
    → from_raw tables codec raw ≡ ok m
    → IsValid tables codec m
unfolding from_raw keys
from_raw-IsValid tables codec raw {m} h =
    let (_, version_ok, h1) =
      >>=-eq-ok (fail_if (not (raw.version == 1)) (ManifestError.version raw.version)) _ h in
    let (policies, p, h2) = >>=-eq-ok (parse_policies codec [] raw.recipient_policies) _ h1 in
    let (entries, q, h3) = >>=-eq-ok (parse_entries tables policies [] [] raw.files) _ h2 in
    let made : Manifest = record { entries = entries; recipient_policies = policies } in
    let pv =
      parse_policies-Valid codec [] raw.recipient_policies
        (record {
          valid = λ name policy none_found. absurd (get_nil name policy none_found);
          unique = tt;
        })
        p in
    let (seen, ev) =
      parse_entries-Valid tables made [] [] raw.files
        (record { valid = tt; unique = tt; recorded = λ key. refl }) q in
    let e : m ≡ made = ground arith in
    let v : IsValid tables codec made = record {
      entries_valid = ev.valid;
      keys_unique = ev.unique;
      policies_valid = pv.valid;
      names_unique = pv.unique;
    } in
    rw e v

-- Whatever JSON the crates read, a manifest that `parse` returns is valid: its paths are managed
-- paths that are neither ciphertext names nor configuration files and have distinct collision
-- keys, its profiles are valid, every policy that it references is declared, and every policy is
-- a valid one under its own name with canonical recipients.
pub parse-IsValid :
    (serde : Json) (tables : UnicodeTables) (codec : Bech32) (bytes : List ℕ) {m : Manifest}
    → parse serde tables codec bytes ≡ ok m
    → IsValid tables codec m
unfolding parse
parse-IsValid serde tables codec bytes {m} h =
    let (value, read, h1) = >>=-eq-ok (map_err _ (serde.from_slice bytes)) _ h in
    let (_, current, h2) =
      >>=-eq-ok (fail_if (is_legacy serde value) ManifestError.legacy_schema) _ h1 in
    let (raw, typed, h3) = >>=-eq-ok (map_err _ (serde.from_value value)) _ h2 in
    from_raw-IsValid tables codec raw h3
