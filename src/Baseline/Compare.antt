-- ===== src/Baseline/Compare.antt =====
-- src/baseline/record.rs: the differences against a record, key by key.
use gitveil.Base.{
  ℕ, Bool, true, false, not, ◌&&◌, ◌||◌, ◌≡◌, refl, ◌∙◌, List, [], ◌∷◌, ◌==◌, arith, Option, none,
  some, Str, is_some, contains, contains-keys, contains_key-get, is_empty, IsUnique, IndexMap, get,
  keys, list_eq, nat_eq, eq_iff, eq_refl, collect_sorted, collect_sorted-IsUnique,
}
use gitveil.Source.Document.{SourceDocument}
use gitveil.Baseline.{Digests, units_of}
use gitveil.Baseline.Record.{
  CipherSummary, BaselineRecord, BaselineDiff, is_unchanged, is_other, added_keys, changed_keys,
  removed_keys, diff_maps, capture, salt_bytes, diff_plain, diff_cipher, residual_layout_matches,
  unit_digests, cipher_digests, push_if, layout_digest, cipher_layout_digest,
}
use gitveil.Baseline.Trust.{Reliable, AreBytes, salt_bytes-capture}

contains-push_if :
    (b : Bool) (key name : Str) (found : List Str)
    → contains (push_if b name found) key ≡ ((name == key) && b || contains found key)
unfolding contains
contains-push_if b key name found = ground arith

contains-added_keys :
    (recorded current : IndexMap Str Str) (key : Str)
    → contains (added_keys recorded current) key
      ≡ (is_some (get key current) && not (is_some (get key recorded)))
unfolding added_keys get contains
contains-added_keys recorded [] key = refl
contains-added_keys recorded ((name, digest) ∷ current) key =
    ground (arith, contains-added_keys recorded current key, eq_iff name key)

contains-removed_keys :
    (names : List Str) (current : IndexMap Str Str) (key : Str)
    → contains (removed_keys names current) key
      ≡ (contains names key && not (is_some (get key current)))
unfolding removed_keys contains
contains-removed_keys [] current key = refl
contains-removed_keys (name ∷ names) current key =
    ground (
      arith,
      contains-removed_keys names current key,
      contains_key-get name current,
      eq_iff name key,
    )

-- Whether two digests are there and differ.
abbrev pub differ : Option Str → Option Str → Bool
differ (some recorded) (some digest) = not (recorded == digest)
differ _ _ = false

differ-is_other : (o : Option Str) (digest : Str) → differ o (some digest) ≡ is_other digest o
differ-is_other none digest = refl
differ-is_other (some recorded) digest = refl

contains-changed_keys :
    (recorded current : IndexMap Str Str) (key : Str)
    → IsUnique (keys current)
    → contains (changed_keys recorded current) key ≡ differ (get key recorded) (get key current)
unfolding changed_keys get contains keys
contains-changed_keys recorded [] key unique = ground arith
contains-changed_keys recorded ((name, digest) ∷ current) key unique = ground (
  arith,
  contains-changed_keys recorded current key,
  differ-is_other (get key recorded) digest,
  contains-keys name current,
  contains_key-get name current,
  eq_iff name key,
)

-- A difference says of each key what the two maps say: it is added where only the current map has
-- it, removed where only the recorded one has it, and changed where both have it with different
-- digests.
abbrev pub IsDifference : IndexMap Str Str → IndexMap Str Str → BaselineDiff → Type 0
IsDifference recorded current diff =
    (key : Str)
    → (contains diff.added key ≡ (is_some (get key current) && not (is_some (get key recorded))))
      × (contains diff.removed key
          ≡ (is_some (get key recorded) && not (is_some (get key current))))
      × (contains diff.changed key ≡ differ (get key recorded) (get key current))

diff_maps-IsDifference :
    (recorded current : IndexMap Str Str) (layout_changed : Bool)
    → IsUnique (keys current)
    → IsDifference recorded current (diff_maps recorded current layout_changed)
unfolding diff_maps
diff_maps-IsDifference recorded current layout_changed unique = λ key. (
  contains-added_keys recorded current key,
  ground (
    arith,
    contains-removed_keys (keys recorded) current key,
    contains-keys key recorded,
    contains_key-get key recorded,
  ),
  contains-changed_keys recorded current key unique,
)

is_empty-of :
    (names : List Str) → ((key : Str) → contains names key ≡ false) → is_empty names ≡ true
unfolding contains
is_empty-of [] h = refl
is_empty-of (name ∷ names) h = ground (arith, h name, eq_refl name)

differ_self : (o : Option Str) → differ o o ≡ false
differ_self none = refl
differ_self (some digest) = ground (arith, eq_refl digest)

layout_changed-diff_maps :
    (recorded current : IndexMap Str Str) (b : Bool)
    → (diff_maps recorded current b).layout_changed ≡ b
unfolding diff_maps
layout_changed-diff_maps recorded current b = refl

diff_maps_self :
    (m : IndexMap Str Str) (layout : Str)
    → IsUnique (keys m)
    → is_unchanged (diff_maps m m (not (layout == layout))) ≡ true
diff_maps_self m layout unique =
    let b = not (layout == layout) in
    let diff = diff_maps m m b in
    let law = diff_maps-IsDifference m m b unique in
    ground (
      arith,
      is_empty-of diff.added (λ key. ground (arith, (law key).0)),
      is_empty-of diff.removed (λ key. ground (arith, (law key).1)),
      is_empty-of diff.changed (λ key. (law key).2 ∙ differ_self (get key m)),
      layout_changed-diff_maps m m b,
      eq_refl layout,
    )

-- The differences of a document and of a ciphertext against a record are, key by key, those
-- between the recorded digests and the digests of the same salt.
pub diff-IsDifference :
    (crates : Digests) (baseline : BaselineRecord) (document : SourceDocument)
    (cipher : CipherSummary)
    → IsDifference baseline.keys
        (collect_sorted (unit_digests crates (salt_bytes crates baseline) (units_of document)))
        (diff_plain crates baseline document)
      × IsDifference baseline.cipher_units
          (collect_sorted (cipher_digests crates (salt_bytes crates baseline) cipher.units))
          (diff_cipher crates baseline cipher)
unfolding diff_plain diff_cipher
diff-IsDifference crates baseline document cipher = (
  diff_maps-IsDifference baseline.keys
      (collect_sorted (unit_digests crates (salt_bytes crates baseline) (units_of document)))
      (not (residual_layout_matches crates baseline document))
      (collect_sorted-IsUnique
        (unit_digests crates (salt_bytes crates baseline) (units_of document))),
  diff_maps-IsDifference baseline.cipher_units
      (collect_sorted (cipher_digests crates (salt_bytes crates baseline) cipher.units))
      (diff_cipher crates baseline cipher).layout_changed
      (collect_sorted-IsUnique (cipher_digests crates (salt_bytes crates baseline) cipher.units)),
)

-- With reliable crates and a salt of bytes, a pair has no differences against the record just
-- captured from it, on either side.
pub diff-capture :
    (crates : Digests)
    → Reliable crates
    → (document : SourceDocument) (cipher : CipherSummary) (salt : List ℕ) → AreBytes salt
    → (is_unchanged (diff_plain crates (capture crates document cipher salt) document) ≡ true)
      × (is_unchanged (diff_cipher crates (capture crates document cipher salt) cipher) ≡ true)
unfolding diff_plain diff_cipher residual_layout_matches capture
diff-capture crates reliable document cipher salt bytes =
    rw (salt_bytes-capture crates reliable document cipher salt bytes) (
      diff_maps_self (collect_sorted (unit_digests crates salt (units_of document)))
          (layout_digest crates salt document)
          (collect_sorted-IsUnique (unit_digests crates salt (units_of document))),
      diff_maps_self (collect_sorted (cipher_digests crates salt cipher.units))
          (cipher_layout_digest crates salt cipher)
          (collect_sorted-IsUnique (cipher_digests crates salt cipher.units)),
    )
