-- ===== src/Envelope/Ciphertext/Sealed.antt =====
-- What the reader of encrypted files guarantees.
use gitveil.Base.{
  ℕ, suc, true, false, not, List, [], ◌∷◌, ◌≡◌, ◌↔◌, refl, sym, arith, none, some, Str, codes, All,
  IsUnique, contains, ok, fail_if, ok_or, map_err, >>=-eq-ok, nat_eq, list_eq, eq_iff, eq_refl,
}
use gitveil.Recipient.{AgeRecipient, new_recipient}
use gitveil.Manifest.Document.Valid.{new_recipient_lem}
use gitveil.Source.NodePath.{NodePath, child_key, child_index}
use gitveil.Envelope.Yaml.{
  Value, null, bool, number, string, sequence, mapping, tagged, Values, nil, item, Mapping, end,
  pair, untag, as_str, as_mapping,
}
use gitveil.Envelope.{Codecs, is_encrypted_scalar, invalid_metadata, invalid_structure}
use gitveil.Envelope.Ciphertext.{
  Collected, push_key, push_leaf, validate_encrypted_tree, validate_mapping, validate_sequence,
  string_field, is_text, read_recipients,
}

-- A string, or one under tags.
abbrev pub IsText : Value → Type 0
IsText key = (s : Str) × (untag key ≡ string s)

-- Every scalar of a tree is a SOPS ciphertext and every key of a mapping is a string, under any
-- tags.
mutual
  pub AllEncrypted : Value → Type 0
  AllEncrypted (mapping m) = AllPairsEncrypted m
  AllEncrypted (sequence vs) = AllItemsEncrypted vs
  AllEncrypted (string s) = is_encrypted_scalar s ≡ true
  AllEncrypted (tagged t v) = AllEncrypted v
  AllEncrypted _ = ⊥

  pub AllPairsEncrypted : Mapping → Type 0
  AllPairsEncrypted end = Unit
  AllPairsEncrypted (pair key value rest) = IsText key × AllEncrypted value × AllPairsEncrypted rest

  pub AllItemsEncrypted : Values → Type 0
  AllItemsEncrypted nil = Unit
  AllItemsEncrypted (item value rest) = AllEncrypted value × AllItemsEncrypted rest

pub as_str-string : (v : Value) (s : Str) → as_str v ≡ some s → untag v ≡ string s
unfolding as_str
as_str-string v s h = text_of (untag v) s h
  where
    text_of :
        (w : Value) (s : Str) → elim w [ string r ↦ some r | _ ↦ none ] ≡ some s → w ≡ string s
    text_of w s h = ground arith

pub as_mapping-mapping : (v : Value) (m : Mapping) → as_mapping v ≡ some m → untag v ≡ mapping m
unfolding as_mapping
as_mapping-mapping v m h = mapping_of (untag v) m h
  where
    mapping_of :
        (w : Value) (m : Mapping)
        → elim w [ mapping n ↦ some n | _ ↦ none ] ≡ some m
        → w ≡ mapping m
    mapping_of w m h = ground arith

string-as_str : (v : Value) (s : Str) → untag v ≡ string s → as_str v ≡ some s
unfolding as_str
string-as_str v s h = rw (as_str, h) refl

mutual
  unfolding AllEncrypted validate_encrypted_tree

  pub tree_encrypted :
      (v : Value) (path : NodePath) (found : Collected) {next : Collected}
      → validate_encrypted_tree v path found ≡ ok next
      → AllEncrypted v
  tree_encrypted (mapping m) path found h = mapping_encrypted m path found h
  tree_encrypted (sequence vs) path found h = sequence_encrypted vs 0 path found h
  tree_encrypted (string s) path found h = ground arith
  tree_encrypted (tagged t v) path found h = tree_encrypted v path found h
  tree_encrypted null path found h = cc
  tree_encrypted (bool b) path found h = cc
  tree_encrypted (number n) path found h = cc

  mapping_encrypted :
      (m : Mapping) (path : NodePath) (found : Collected) {next : Collected}
      → validate_mapping m path found ≡ ok next
      → AllPairsEncrypted m
  mapping_encrypted end path found h = tt
  mapping_encrypted (pair key value rest) path found h =
      let (k, named, h1) = >>=-eq-ok (ok_or (as_str key) invalid_structure) _ h in
      let (next, tree, h2) =
        >>=-eq-ok
          (validate_encrypted_tree value (child_key path k) (push_key (child_key path k) found)) _
          h1 in
      (
        (k, as_str-string key k (ground arith)),
        tree_encrypted value (child_key path k) (push_key (child_key path k) found) tree,
        mapping_encrypted rest path next h2,
      )

  sequence_encrypted :
      (vs : Values) (i : ℕ) (path : NodePath) (found : Collected) {next : Collected}
      → validate_sequence vs i path found ≡ ok next
      → AllItemsEncrypted vs
  sequence_encrypted nil i path found h = tt
  sequence_encrypted (item value rest) i path found h =
      let (next, tree, h1) =
        >>=-eq-ok (validate_encrypted_tree value (child_index path i) found) _ h in
      (
        tree_encrypted value (child_index path i) found tree,
        sequence_encrypted rest (suc i) path next h1,
      )

-- A text that `AgeRecipient::new` accepts as it is.
abbrev pub IsRecipient : Codecs → Str → Type 0
IsRecipient codecs r = new_recipient codecs.bech32 r ≡ ok r

mutual
  unfolding AllEncrypted validate_encrypted_tree

  tree_accepted :
      (v : Value) (path : NodePath) (found : Collected)
      → AllEncrypted v
      → (next : Collected) × (validate_encrypted_tree v path found ≡ ok next)
  tree_accepted (mapping m) path found h = mapping_accepted m path found h
  tree_accepted (sequence vs) path found h = sequence_accepted vs 0 path found h
  tree_accepted (string s) path found h = (push_leaf path s found, rw h refl)
  tree_accepted (tagged t v) path found h = tree_accepted v path found h
  tree_accepted null path found h = absurd h
  tree_accepted (bool b) path found h = absurd h
  tree_accepted (number n) path found h = absurd h

  mapping_accepted :
      (m : Mapping) (path : NodePath) (found : Collected)
      → AllPairsEncrypted m
      → (next : Collected) × (validate_mapping m path found ≡ ok next)
  mapping_accepted end path found h = (found, refl)
  mapping_accepted (pair key value rest) path found h =
      let ((k, named), value_encrypted, rest_encrypted) = h in
      let (next, e) =
        tree_accepted value (child_key path k) (push_key (child_key path k) found)
          value_encrypted in
      let (last, e') = mapping_accepted rest path next rest_encrypted in
      (last, rw (string-as_str key k named, e, e') refl)

  sequence_accepted :
      (vs : Values) (i : ℕ) (path : NodePath) (found : Collected)
      → AllItemsEncrypted vs
      → (next : Collected) × (validate_sequence vs i path found ≡ ok next)
  sequence_accepted nil i path found h = (found, refl)
  sequence_accepted (item value rest) i path found h =
      let (next, e) = tree_accepted value (child_index path i) found h.0 in
      let (last, e') = sequence_accepted rest (suc i) path next h.1 in (last, rw (e, e') refl)

-- The reader of the data accepts exactly the trees in which every scalar is encrypted and every
-- key is a string, where tags may stand at any value and at any key.
pub validate_encrypted_tree_iff :
    (v : Value) (path : NodePath) (found : Collected)
    → ((next : Collected) × (validate_encrypted_tree v path found ≡ ok next)) ↔ AllEncrypted v
validate_encrypted_tree_iff v path found =
    (λ h. tree_encrypted v path found h.1, tree_accepted v path found)

new_recipient_same :
    (codecs : Codecs) (text r : Str)
    → map_err (λ _. invalid_metadata) (new_recipient codecs.bech32 text) ≡ ok r
    → IsRecipient codecs r
new_recipient_same codecs text r h =
    let accepted : new_recipient codecs.bech32 text ≡ ok r = ground arith in
    rw (sym (new_recipient_lem codecs.bech32 text r accepted)) at accepted

-- The recipients that are read are valid, distinct, and none of those seen before.
pub record AreRead (codecs : Codecs) (seen recipients : List AgeRecipient) : Type 0 where
  pub valid : All (IsRecipient codecs) recipients
  pub unique : IsUnique recipients
  pub unseen : (r : AgeRecipient) → contains recipients r ≡ true → contains seen r ≡ false

AreRead-cons :
    (codecs : Codecs) (seen : List AgeRecipient) (r : AgeRecipient) (others : List AgeRecipient)
    → IsRecipient codecs r
    → contains seen r ≡ false
    → AreRead codecs (r ∷ seen) others
    → AreRead codecs seen (r ∷ others)
unfolding contains
AreRead-cons codecs seen r others valid fresh later = record {
  valid = (valid, later.valid);
  unique = (ground (arith, later.unseen r, eq_refl r), later.unique);
  unseen = λ s m. ground (arith, later.unseen s, eq_iff r s);
}

pub read_recipients-AreRead :
    (codecs : Codecs) (seen : List AgeRecipient) (vs : Values) (recipients : List AgeRecipient)
    → read_recipients codecs seen vs ≡ ok recipients
    → AreRead codecs seen recipients
unfolding read_recipients contains
read_recipients-AreRead codecs seen nil recipients h =
    let e : [] ≡ recipients = cc in
    rw (sym e) (record { valid = tt; unique = tt; unseen = λ r m. cc })
read_recipients-AreRead codecs seen (item value rest) recipients h =
    let (entry, _, h1) = >>=-eq-ok (ok_or (as_mapping value) invalid_metadata) _ h in
    let (text, _, h2) =
      >>=-eq-ok (ok_or (string_field (codes "recipient") entry) invalid_metadata) _ h1 in
    let (_, _, h3) =
      >>=-eq-ok (fail_if (not (is_text (string_field (codes "enc") entry))) invalid_metadata) _
        h2 in
    let (r, made, h4) =
      >>=-eq-ok (map_err (λ _. invalid_metadata) (new_recipient codecs.bech32 text)) _ h3 in
    let (_, fresh, h5) = >>=-eq-ok (fail_if (contains seen r) invalid_metadata) _ h4 in
    let (others, read, h6) =
      >>=-eq-ok (read_recipients codecs (r ∷ seen) rest) (λ rs. ok (r ∷ rs)) h5 in
    let e : r ∷ others ≡ recipients = cc in
    rw (sym e) (
      AreRead-cons codecs seen r others (new_recipient_same codecs text r made) (ground arith)
        (read_recipients-AreRead codecs (r ∷ seen) rest others read))
