-- ===== src/Manifest/Entries.antt =====
-- The entries of a manifest: ciphertext names, lookups, and what an addition changes.
use mathlib.Core.List.{reverse-append}
use gitveil.Base.{
  Bool, true, false, List, [], ◌∷◌, ◌++◌, ◌≡◌, ◌≢◌, refl, ◌==◌, arith, none, some, if◌then◌else◌,
  eq_iff, eq_refl, inl, inr, find?, All, Str, starts_with, ends_with, ok, nat_eq, list_eq,
}
use gitveil.Config.{format_eq}
use gitveil.ManagedPath.{ManagedPath, IsManagedPath}
use gitveil.ManagedPath.Suffix.{suffix, IsManagedPath-suffix}
use gitveil.Recipient.{Bech32}
use gitveil.Manifest.{
  UnicodeTables, ManifestEntry, ciphertext_path, Manifest, ManifestEntryAddOutcome, find,
  same_settings, add_entry,
}
use gitveil.Manifest.Invariant.{IsValidEntry, IsValid}
use gitveil.Manifest.Mutations.{add_entry-Added}

pub ends_with-suffix : (p : Str) → ends_with suffix (p ++ suffix) ≡ true
unfolding ends_with starts_with
ends_with-suffix p = rw (reverse-append p suffix) refl

-- For an entry whose path is a managed path, the name of the ciphertext is a managed path too, so
-- the `expect` of `ciphertext_path` never fires, and it carries the suffix.
pub ciphertext_path-IsManagedPath :
    (entry : ManifestEntry)
    → IsManagedPath entry.path
    → IsManagedPath (ciphertext_path entry) × (ends_with suffix (ciphertext_path entry) ≡ true)
unfolding ciphertext_path
ciphertext_path-IsManagedPath entry h =
    (IsManagedPath-suffix entry.path h, ends_with-suffix entry.path)

find?-none {ℓ} :
    {A : Type ℓ} (p : A → Bool) (P : A → Type 0) (xs : List A)
    → ((a : A) → P a → p a ≡ false)
    → All P xs
    → find? p xs ≡ none
unfolding find?
find?-none p P [] refuse h = refl
find?-none p P (x ∷ xs) refuse h = rw (refuse x h.0) (find?-none p P xs refuse h.1)

-- In a valid manifest no ciphertext name is a managed plaintext path, whichever entries they are of.
pub find-ciphertext_path :
    (tables : UnicodeTables) (codec : Bech32) (manifest : Manifest) (entry : ManifestEntry)
    → IsValid tables codec manifest
    → find manifest (ciphertext_path entry) ≡ none
unfolding find ciphertext_path
find-ciphertext_path tables codec manifest entry valid =
    find?-none (λ (e : ManifestEntry). e.path == entry.path ++ suffix) (IsValidEntry manifest)
      manifest.entries
      (λ e v. ground (
        arith,
        v.not_ciphertext,
        ends_with-suffix entry.path,
        eq_iff e.path (entry.path ++ suffix),
      ))
      valid.entries_valid

find?-append {ℓ} :
    {A : Type ℓ} (p : A → Bool) (xs : List A) (a : A)
    → find? p (xs ++ a ∷ [])
      ≡ elim (find? p xs) [ some x ↦ some x | none ↦ if p a then some a else none ]
unfolding find?
find?-append p [] a = refl
find?-append p (x ∷ xs) a = ground (arith, find?-append p xs a)

same_settings_refl : (e : ManifestEntry) → same_settings e e ≡ true
same_settings_refl e =
    ground (arith, eq_refl e.format, eq_refl e.recipient_policy, eq_refl e.profile)

-- After a successful `add_entry` the path is managed with the requested settings, and every other
-- path is managed as it was.
pub add_entry-find :
    (tables : UnicodeTables) (manifest : Manifest) (entry : ManifestEntry)
    {result : Manifest × ManifestEntryAddOutcome}
    → add_entry tables manifest entry ≡ ok result
    → ((kept : ManifestEntry) × (find result.0 entry.path ≡ some kept)
        × (same_settings kept entry ≡ true))
      × ((other : ManagedPath) → other ≢ entry.path → find result.0 other ≡ find manifest other)
unfolding find
add_entry-find tables manifest entry {result} h =
    let a = add_entry-Added tables manifest entry h in
    elim a.cases [
      | inl (existing, found, same, e) ↦ rw e ((existing, found, same), λ other ne. refl)
      | inr (missing, fresh, e) ↦ rw e (
        (
          entry,
          ground (
            arith,
            find?-append (λ (x : ManifestEntry). x.path == entry.path) manifest.entries entry,
            eq_refl entry.path,
          ),
          same_settings_refl entry,
        ),
        λ other ne. ground (
          arith,
          find?-append (λ (x : ManifestEntry). x.path == other) manifest.entries entry,
          eq_iff entry.path other,
        ),
      )
    ]
