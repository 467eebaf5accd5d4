-- ===== src/Envelope/Ciphertext/Parsed.antt =====
-- What `CiphertextEnvelope::parse` accepts.
use gitveil.Base.{
  ℕ, true, false, not, List, [], ◌∷◌, ◌≡◌, ◌≢◌, refl, sym, arith, Option, none, some, Str, codes,
  All, IsUnique, any, ◌||◌, ok, fail_if, ok_or, >>=-eq-ok, fail_if-ok, fail_if-not, ok_or-ok, ok-eq,
  nat_eq, list_eq, ◌==◌,
}
use gitveil.Config.{SourceFormat}
use gitveil.Recipient.{AgeRecipient}
use gitveil.Source.NodePath.{root, child_key}
use gitveil.Envelope.Yaml.{
  Value, string, mapping, Values, nil, item, Mapping, untag, as_str, as_mapping, as_sequence,
  get_field, has_field, len, mapping_keys, and_then,
}
use gitveil.Envelope.{
  Codecs, discriminator, is_encrypted_scalar, invalid_metadata, selector_drift, invalid_structure,
  format_mismatch, missing_field, plaintext_leaf, unsupported_version,
}
use gitveil.Envelope.Ciphertext.{
  CiphertextEnvelope, validate_encrypted_tree, string_field, is_nil, read_recipients,
  validate_metadata, read_root, check_keys, check_types, required, forbidden_selectors, unsupported,
  require_fields, built_envelope, parse_root, parse,
}
use gitveil.Envelope.Ciphertext.Sealed.{
  AllEncrypted, tree_encrypted, IsRecipient, read_recipients-AreRead, as_str-string,
  as_mapping-mapping,
}

-- The field is a mapping, or one under tags.
abbrev pub IsField : Str → Mapping → Mapping → Type 0
IsField name document body =
    (value : Value) × (get_field name document ≡ some value) × (untag value ≡ mapping body)

-- The field is a string, or one under tags.
abbrev pub IsTextField : Str → Mapping → Str → Type 0
IsTextField name document text =
    (value : Value) × (get_field name document ≡ some value) × (untag value ≡ string text)

-- A parsed envelope, and the document that it was read from.
pub record IsSealed (codecs : Codecs) (input : List ℕ) (expected : SourceFormat)
    (envelope : CiphertextEnvelope) : Type 0 where
  pub document : Mapping
  pub body : Mapping
  pub content : Value
  pub was_read : read_root codecs input ≡ ok document
  pub has_body : IsField (discriminator expected) document body
  pub has_content : get_field (codes "data") body ≡ some content
  pub has_layout : IsTextField (codes "layout") body envelope.layout_ciphertext
  pub data_encrypted : AllEncrypted content
  pub layout_encrypted : is_encrypted_scalar envelope.layout_ciphertext ≡ true
  pub same_format : envelope.format ≡ expected
  pub recipients_valid : All (IsRecipient codecs) envelope.age_recipients
  pub recipients_unique : IsUnique envelope.age_recipients
  pub has_recipients : envelope.age_recipients ≢ []

-- What `validate_metadata` returns.
record AreDeclared (codecs : Codecs) (recipients : List AgeRecipient) : Type 0 where
  all_valid : All (IsRecipient codecs) recipients
  all_distinct : IsUnique recipients
  some_declared : recipients ≢ []

read_recipients-ne-nil :
    (codecs : Codecs) (vs : Values) (recipients : List AgeRecipient)
    → is_nil vs ≡ false
    → read_recipients codecs [] vs ≡ ok recipients
    → recipients ≢ []
unfolding read_recipients
read_recipients-ne-nil codecs nil recipients h read = cc
read_recipients-ne-nil codecs (item v vs) recipients h read = ground arith

validate_metadata-AreDeclared :
    (codecs : Codecs) (metadata : Mapping) (recipients : List AgeRecipient)
    → validate_metadata codecs metadata ≡ ok recipients
    → AreDeclared codecs recipients
unfolding validate_metadata
validate_metadata-AreDeclared codecs metadata recipients h =
    let (_, _, h1) = >>=-eq-ok (require_fields required metadata) _ h in
    let (mac, _, h2) =
      >>=-eq-ok (ok_or (string_field (codes "mac") metadata) (missing_field (codes "mac"))) _ h1 in
    let (_, _, h3) = >>=-eq-ok (fail_if (not (is_encrypted_scalar mac)) invalid_metadata) _ h2 in
    let (regex, _, h4) =
      >>=-eq-ok
        (ok_or (string_field (codes "encrypted_regex") metadata)
          (missing_field (codes "encrypted_regex")))
        _ h3 in
    let (_, _, h5) = >>=-eq-ok (fail_if (not (regex == codes ".*")) selector_drift) _ h4 in
    let (_, _, h6) =
      >>=-eq-ok
        (fail_if (any (λ selector. has_field selector metadata) forbidden_selectors) selector_drift)
        _ h5 in
    let (_, _, h7) =
      >>=-eq-ok (fail_if (any (λ name. has_field name metadata) unsupported) invalid_metadata) _
        h6 in
    let (entries, _, h8) =
      >>=-eq-ok (ok_or (and_then (get_field (codes "age") metadata) as_sequence) invalid_metadata) _
        h7 in
    let (_, some_entry, read) = >>=-eq-ok (fail_if (is_nil entries) invalid_metadata) _ h8 in
    let a = read_recipients-AreRead codecs [] entries recipients read in
    record {
      all_valid = a.valid;
      all_distinct = a.unique;
      some_declared =
          read_recipients-ne-nil codecs entries recipients
            (fail_if-ok (is_nil entries) invalid_metadata some_entry) read;
    }

as_mapping-some :
    (o : Option Value) (m : Mapping)
    → and_then o as_mapping ≡ some m
    → (v : Value) × (o ≡ some v) × (untag v ≡ mapping m)
as_mapping-some none m h = cc
as_mapping-some (some v) m h = (v, refl, as_mapping-mapping v m h)

as_str-some :
    (o : Option Value) (s : Str)
    → and_then o as_str ≡ some s
    → (v : Value) × (o ≡ some v) × (untag v ≡ string s)
as_str-some none s h = cc
as_str-some (some v) s h = (v, refl, as_str-string v s h)

parse_root-IsSealed :
    (codecs : Codecs) (input : List ℕ) (document : Mapping) (expected : SourceFormat)
    (envelope : CiphertextEnvelope)
    → read_root codecs input ≡ ok document
    → parse_root codecs document expected ≡ ok envelope
    → IsSealed codecs input expected envelope
unfolding parse_root
parse_root-IsSealed codecs input document expected envelope was_read h =
    let (_, _, h1) = >>=-eq-ok (fail_if (not (len document == 2)) invalid_structure) _ h in
    let (body, has_body, h2) =
      >>=-eq-ok
        (ok_or (and_then (get_field (discriminator expected) document) as_mapping) format_mismatch)
        _ h1 in
    let (_, _, h3) =
      >>=-eq-ok (fail_if (not (len body == 2 || len body == 3)) invalid_structure) _ h2 in
    let (_, _, h4) =
      >>=-eq-ok
        (check_keys invalid_structure (codes "data" ∷ codes "layout" ∷ codes "types" ∷ [])
          (mapping_keys body))
        _ h3 in
    let (content, has_content, h5) =
      >>=-eq-ok (ok_or (get_field (codes "data") body) (missing_field (codes "data"))) _ h4 in
    let (layout, has_layout, h6) =
      >>=-eq-ok (ok_or (string_field (codes "layout") body) (missing_field (codes "layout"))) _
        h5 in
    let (_, encrypted, h7) =
      >>=-eq-ok
        (fail_if (not (is_encrypted_scalar layout))
          (plaintext_leaf (child_key root (codes "layout"))))
        _ h6 in
    let (_, _, h8) = >>=-eq-ok (check_types (get_field (codes "types") body)) _ h7 in
    let (found, tree, h9) =
      >>=-eq-ok (validate_encrypted_tree content root (record { key_paths = []; leaves = [] })) _
        h8 in
    let (metadata, _, h10) =
      >>=-eq-ok
        (ok_or (and_then (get_field (codes "sops") document) as_mapping)
          (missing_field (codes "sops")))
        _ h9 in
    let (recipients, declared, h11) = >>=-eq-ok (validate_metadata codecs metadata) _ h10 in
    let (_, _, h12) =
      >>=-eq-ok
        (check_keys unsupported_version (codes "sops" ∷ discriminator expected ∷ [])
          (mapping_keys document))
        (λ _. ok (built_envelope expected found layout recipients)) h11 in
    let a = validate_metadata-AreDeclared codecs metadata recipients declared in
    let built = ok-eq (built_envelope expected found layout recipients) envelope h12 in
    rw (sym built) (record {
      document = document;
      body = body;
      content = content;
      was_read = was_read;
      has_body =
          as_mapping-some (get_field (discriminator expected) document) body
            (ok_or-ok _ format_mismatch has_body);
      has_content = ok_or-ok _ (missing_field (codes "data")) has_content;
      has_layout =
          as_str-some (get_field (codes "layout") body) layout
            (ok_or-ok _ (missing_field (codes "layout")) has_layout);
      data_encrypted = tree_encrypted content root _ tree;
      layout_encrypted = fail_if-not (is_encrypted_scalar layout) _ encrypted;
      same_format = refl;
      recipients_valid = a.all_valid;
      recipients_unique = a.all_distinct;
      has_recipients = a.some_declared;
    })

-- A document that `parse` accepts is encrypted throughout: under the discriminator of the expected
-- format it has data in which every scalar is a SOPS ciphertext and every key a string, under any
-- tags, and an encrypted layout; and its age recipients are canonical, distinct, and at least one.
pub parse-IsSealed :
    (codecs : Codecs) (input : List ℕ) (expected : SourceFormat) (envelope : CiphertextEnvelope)
    → parse codecs input expected ≡ ok envelope
    → IsSealed codecs input expected envelope
unfolding parse
parse-IsSealed codecs input expected envelope h =
    let (document, was_read, h1) = >>=-eq-ok (read_root codecs input) _ h in
    parse_root-IsSealed codecs input document expected envelope was_read h1
