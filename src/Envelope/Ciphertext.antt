-- ===== src/Envelope/Ciphertext.antt =====
-- src/envelope.rs: `CiphertextEnvelope`, the reader of encrypted files.
pub mod Sealed
pub mod Parsed
use gitveil.Base.{
  ℕ, zero, suc, Bool, true, false, not, ◌&&◌, ◌||◌, List, [], ◌∷◌, ◌++◌, ◌==◌, Option, none, some,
  if◌then◌else◌, Str, codes, any, is_empty, contains, IndexMap, insert, split, starts_with, Outcome,
  ok, err, ◌>>=◌, ◌>>◌, fail_if, ok_or, map_err, nat_eq, list_eq, drop,
}
use gitveil.Config.{SourceFormat, dotenv, json, yaml, toml, format_eq}
use gitveil.Recipient.{AgeRecipient, new_recipient}
use gitveil.Source.NodePath.{NodePath, root, child_key, child_index, render}
use gitveil.Envelope.Yaml.{
  Value, null, bool, number, string, sequence, mapping, tagged, Values, nil, item, Mapping, end,
  pair, as_str, as_mapping, as_sequence, get_field, has_field, len, mapping_keys, and_then,
}
use gitveil.Envelope.{
  EnvelopeError, non_utf8, yaml as invalid_yaml, invalid_structure, format_mismatch,
  unsupported_version, missing_field, plaintext_leaf, invalid_metadata, selector_drift, Codecs,
  discriminator, is_encrypted_scalar,
}
use gitveil.Envelope.TypePath.{parse_type_paths}

pub record CiphertextEnvelope : Type 0 where
  pub format : SourceFormat
  pub key_paths : List Str
  pub leaves : IndexMap Str Str
  pub layout_ciphertext : Str
  pub age_recipients : List AgeRecipient

-- What `validate_encrypted_tree` collects: the key paths and the leaves.
pub record Collected : Type 0 where
  pub key_paths : List Str
  pub leaves : IndexMap Str Str

abbrev pub push_key : NodePath → Collected → Collected
push_key path found = record found { key_paths = found.key_paths ++ render path ∷ [] }

abbrev pub push_leaf : NodePath → Str → Collected → Collected
push_leaf path value found = record found { leaves = insert (render path) value found.leaves }

unfoldable mutual
  unfolding as_str render insert is_encrypted_scalar

  pub validate_encrypted_tree : Value → NodePath → Collected → Outcome EnvelopeError Collected
  validate_encrypted_tree (mapping m) path found = validate_mapping m path found
  validate_encrypted_tree (sequence vs) path found = validate_sequence vs 0 path found
  validate_encrypted_tree (string s) path found =
      if is_encrypted_scalar s then ok (push_leaf path s found) else err (plaintext_leaf path)
  validate_encrypted_tree (tagged t v) path found = validate_encrypted_tree v path found
  validate_encrypted_tree _ path found = err (plaintext_leaf path)

  -- The loop over a mapping.
  pub validate_mapping : Mapping → NodePath → Collected → Outcome EnvelopeError Collected
  validate_mapping end path found = ok found
  validate_mapping (pair key value rest) path found = do
    k ← ok_or (as_str key) invalid_structure
    next ← validate_encrypted_tree value (child_key path k) (push_key (child_key path k) found)
    validate_mapping rest path next

  -- The loop over a sequence, from the index `i` on.
  pub validate_sequence : Values → ℕ → NodePath → Collected → Outcome EnvelopeError Collected
  validate_sequence nil i path found = ok found
  validate_sequence (item value rest) i path found = do
    next ← validate_encrypted_tree value (child_index path i) found
    validate_sequence rest (suc i) path next

-- A required field with a string in it.
abbrev pub string_field : Str → Mapping → Option Str
string_field k m = and_then (get_field k m) as_str

abbrev pub is_text : Option Str → Bool
is_text none = false
is_text (some s) = not (is_empty s)

-- The loop over the age entries: `seen` holds the recipients so far.
unfoldable pub read_recipients :
    Codecs → List AgeRecipient → Values → Outcome EnvelopeError (List AgeRecipient)
unfolding as_str as_mapping get_field contains new_recipient
read_recipients codecs seen nil = ok []
read_recipients codecs seen (item value rest) = do
  entry ← ok_or (as_mapping value) invalid_metadata
  text ← ok_or (string_field (codes "recipient") entry) invalid_metadata
  fail_if (not (is_text (string_field (codes "enc") entry))) invalid_metadata
  recipient ← map_err (λ _. invalid_metadata) (new_recipient codecs.bech32 text)
  fail_if (contains seen recipient) invalid_metadata
  recipients ← read_recipients codecs (recipient ∷ seen) rest
  ok (recipient ∷ recipients)

-- The loop over the required fields.
unfoldable pub require_fields : List Str → Mapping → Outcome EnvelopeError (Unit {0})
unfolding has_field
require_fields [] metadata = ok tt
require_fields (name ∷ names) metadata = do
  fail_if (not (has_field name metadata)) (missing_field name)
  require_fields names metadata

abbrev pub required : List Str
required = codes "mac" ∷ codes "version" ∷ codes "lastmodified" ∷ codes "encrypted_regex" ∷ []

-- `FORBIDDEN_SELECTORS`
abbrev pub forbidden_selectors : List Str
forbidden_selectors =
    codes "unencrypted_suffix"
    ∷ codes "encrypted_suffix"
    ∷ codes "unencrypted_regex"
    ∷ codes "unencrypted_comment_regex"
    ∷ codes "encrypted_comment_regex"
    ∷ []

abbrev pub unsupported : List Str
unsupported =
    codes "pgp"
    ∷ codes "kms"
    ∷ codes "gcp_kms"
    ∷ codes "azure_kv"
    ∷ codes "hc_vault"
    ∷ codes "key_groups"
    ∷ []

abbrev pub is_nil : Values → Bool
is_nil nil = true
is_nil (item v vs) = false

unfoldable pub validate_metadata : Codecs → Mapping → Outcome EnvelopeError (List AgeRecipient)
unfolding require_fields as_str as_sequence get_field has_field is_encrypted_scalar any
    read_recipients
validate_metadata codecs metadata = do
  require_fields required metadata
  mac ← ok_or (string_field (codes "mac") metadata) (missing_field (codes "mac"))
  fail_if (not (is_encrypted_scalar mac)) invalid_metadata
  regex ←
      ok_or (string_field (codes "encrypted_regex") metadata)
        (missing_field (codes "encrypted_regex"))
  fail_if (not (regex == codes ".*")) selector_drift
  fail_if (any (λ selector. has_field selector metadata) forbidden_selectors) selector_drift
  fail_if (any (λ name. has_field name metadata) unsupported) invalid_metadata
  entries ← ok_or (and_then (get_field (codes "age") metadata) as_sequence) invalid_metadata
  fail_if (is_nil entries) invalid_metadata
  read_recipients codecs [] entries

-- The parsed root mapping of a document.
unfoldable pub read_root : Codecs → List ℕ → Outcome EnvelopeError Mapping
unfolding as_mapping
read_root codecs input = do
  text ← ok_or (codecs.from_utf8 input) non_utf8
  value ← ok_or (codecs.yaml_from_str text) invalid_yaml
  ok_or (as_mapping value) invalid_structure

-- The first of the formats whose discriminator the root has.
abbrev pub first_format : List SourceFormat → Mapping → Option SourceFormat
first_format [] document = none
first_format (format ∷ rest) document =
    if has_field (discriminator format) document then some format else first_format rest document

unfoldable pub detect_format : Codecs → List ℕ → Outcome EnvelopeError SourceFormat
unfolding read_root has_field discriminator
detect_format codecs input = do
  document ← read_root codecs input
  ok_or (first_format (dotenv ∷ json ∷ yaml ∷ toml ∷ []) document) format_mismatch

-- Whether every key is a string among `names`.
unfoldable pub check_keys : EnvelopeError → List Str → List Value → Outcome EnvelopeError (Unit {0})
unfolding as_str contains
check_keys unknown names [] = ok tt
check_keys unknown names (key ∷ keys) = do
  k ← ok_or (as_str key) invalid_structure
  fail_if (not (contains names k)) unknown
  check_keys unknown names keys

abbrev pub check_types : Option Value → Outcome EnvelopeError (Unit {0})
check_types none = ok tt
check_types (some types) = do paths ← parse_type_paths types; ok tt

abbrev pub built_envelope : SourceFormat → Collected → Str → List AgeRecipient → CiphertextEnvelope
built_envelope expected found layout recipients = record {
  format = expected;
  key_paths = found.key_paths;
  leaves = found.leaves;
  layout_ciphertext = layout;
  age_recipients = recipients;
}

unfoldable pub parse_root :
    Codecs → Mapping → SourceFormat → Outcome EnvelopeError CiphertextEnvelope
unfolding discriminator get_field as_mapping as_str len mapping_keys check_keys parse_type_paths
    is_encrypted_scalar validate_encrypted_tree validate_metadata
parse_root codecs document expected = do
  fail_if (not (len document == 2)) invalid_structure
  body ← ok_or (and_then (get_field (discriminator expected) document) as_mapping) format_mismatch
  fail_if (not (len body == 2 || len body == 3)) invalid_structure
  check_keys invalid_structure (codes "data" ∷ codes "layout" ∷ codes "types" ∷ [])
      (mapping_keys body)
  content ← ok_or (get_field (codes "data") body) (missing_field (codes "data"))
  layout ← ok_or (string_field (codes "layout") body) (missing_field (codes "layout"))
  fail_if (not (is_encrypted_scalar layout)) (plaintext_leaf (child_key root (codes "layout")))
  check_types (get_field (codes "types") body)
  found ← validate_encrypted_tree content root (record { key_paths = []; leaves = [] })
  metadata ←
      ok_or (and_then (get_field (codes "sops") document) as_mapping) (missing_field (codes "sops"))
  recipients ← validate_metadata codecs metadata
  check_keys unsupported_version (codes "sops" ∷ discriminator expected ∷ [])
      (mapping_keys document)
  ok (built_envelope expected found layout recipients)

unfoldable pub parse : Codecs → List ℕ → SourceFormat → Outcome EnvelopeError CiphertextEnvelope
unfolding read_root parse_root
parse codecs input expected = do
  document ← read_root codecs input
  parse_root codecs document expected
