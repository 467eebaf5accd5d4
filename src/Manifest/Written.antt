-- ===== src/Manifest/Written.antt =====
-- src/manifest.rs: `to_json_bytes`, which reads back what it writes.
use gitveil.Base.{
  ℕ, Bool, true, not, ◌&&◌, List, [], ◌∷◌, ◌++◌, ◌≡◌, ◌↔◌, subst, some, ◌==◌, Eq, eq_iff, length,
  get, same_map, same_map-length, same_map-get, Outcome, ok, ◌>>=◌, ◌>>◌, fail_if, fail_if-not,
  ok_or, map_err, >>=-eq-ok, map_err-ok, ok-eq, nat_eq, list_eq, arith,
}
use gitveil.Config.{format_beq_iff, format_eq}
use gitveil.Recipient.{PolicyName, AgeRecipientPolicy, Bech32}
use gitveil.Manifest.{UnicodeTables, ManifestEntry, Manifest}
use gitveil.Manifest.Document.{Json, ManifestWriteError, serialization, invariant, to_raw, parse}

abbrev pub policy_beq : AgeRecipientPolicy → AgeRecipientPolicy → Bool
policy_beq a b = a.name == b.name && a.recipients == b.recipients

pub policy_beq_iff : (a b : AgeRecipientPolicy) → (policy_beq a b ≡ true) ↔ (a ≡ b)
policy_beq_iff a b = ground (arith, eq_iff a.name b.name, eq_iff a.recipients b.recipients)

instance abbrev pub policy_eq : Eq AgeRecipientPolicy
policy_eq = record { test = policy_beq; decides = policy_beq_iff }

abbrev pub entry_beq : ManifestEntry → ManifestEntry → Bool
entry_beq a b =
    a.path == b.path
    && a.format == b.format
    && a.recipient_policy == b.recipient_policy
    && a.profile == b.profile

pub entry_beq_iff : (a b : ManifestEntry) → (entry_beq a b ≡ true) ↔ (a ≡ b)
entry_beq_iff a b = ground (
  arith,
  eq_iff a.path b.path,
  format_beq_iff a.format b.format,
  eq_iff a.recipient_policy b.recipient_policy,
  eq_iff a.profile b.profile,
)

instance abbrev pub entry_eq : Eq ManifestEntry
entry_eq = record { test = entry_beq; decides = entry_beq_iff }

-- The derived `==` of `Manifest`; the order of the policies does not count.
unfoldable pub manifest_eq : Manifest → Manifest → Bool
unfolding same_map
manifest_eq a b = a.entries == b.entries && same_map a.recipient_policies b.recipient_policies

-- `Manifest::to_json_bytes`
unfoldable pub to_json_bytes :
    Json → UnicodeTables → Bech32 → Manifest → Outcome ManifestWriteError (List ℕ)
unfolding to_raw parse manifest_eq
to_json_bytes serde tables codec manifest = do
  text ← ok_or (serde.to_vec_pretty (to_raw manifest)) serialization
  let bytes = text ++ b'\n' ∷ []
  reparsed ← map_err (λ _. invariant) (parse serde tables codec bytes)
  fail_if (not (manifest_eq reparsed manifest)) invariant
  ok bytes

-- Two manifests with the same entries and, under each name of the first, the same policy.
pub record IsSameManifest (a b : Manifest) : Type 0 where
  pub entries : a.entries ≡ b.entries
  pub as_many : length a.recipient_policies ≡ length b.recipient_policies
  pub policies :
      (name : PolicyName) (policy : AgeRecipientPolicy)
      → get name a.recipient_policies ≡ some policy
      → get name b.recipient_policies ≡ some policy

manifest_eq-IsSameManifest : (a b : Manifest) → manifest_eq a b ≡ true → IsSameManifest a b
unfolding manifest_eq
manifest_eq-IsSameManifest a b h = record {
  entries = ground (arith, eq_iff a.entries b.entries);
  as_many = same_map-length a.recipient_policies b.recipient_policies (ground arith);
  policies = λ name policy found.
      same_map-get a.recipient_policies b.recipient_policies name policy (ground arith) found;
}

-- Whatever the JSON crate does: bytes that `to_json_bytes` returns are read back to a manifest with
-- the entries of the written one, in order, and as many policies, each of them one of its own.
pub parse-to_json_bytes :
    (serde : Json) (tables : UnicodeTables) (codec : Bech32) (manifest : Manifest) (bytes : List ℕ)
    → to_json_bytes serde tables codec manifest ≡ ok bytes
    → (reparsed : Manifest) × (parse serde tables codec bytes ≡ ok reparsed)
      × IsSameManifest reparsed manifest
unfolding to_json_bytes
parse-to_json_bytes serde tables codec manifest bytes h =
    let (text, written, h1) =
      >>=-eq-ok (ok_or (serde.to_vec_pretty (to_raw manifest)) serialization) _ h in
    let (reparsed, read, h2) =
      >>=-eq-ok (map_err (λ _. invariant) (parse serde tables codec (text ++ b'\n' ∷ []))) _ h1 in
    let (_, same, h3) =
      >>=-eq-ok (fail_if (not (manifest_eq reparsed manifest)) invariant)
        (λ _. ok (text ++ b'\n' ∷ [])) h2 in
    (
      reparsed,
      subst (λ written. parse serde tables codec written ≡ ok reparsed) (ok-eq _ bytes h3)
          (map_err-ok (λ _. invariant) (parse serde tables codec (text ++ b'\n' ∷ [])) read),
      manifest_eq-IsSameManifest reparsed manifest (fail_if-not _ invariant same),
    )
