-- ===== src/Envelope.antt =====
-- src/envelope.rs: the SOPS documents that hold the data.
pub mod Yaml
pub mod Ciphertext
pub mod TypePath
pub mod Decrypted
use gitveil.Base.{
  ℕ, Bool, true, false, ◌&&◌, ◌||◌, List, [], ◌∷◌, ◌++◌, ◌==◌, Option, none, some, if◌then◌else◌,
  Str, codes, split, strip_prefix, is_empty, contains, nat_eq, list_eq,
}
use gitveil.Config.{SourceFormat, as_str}
use gitveil.Recipient.{Bech32}
use gitveil.Source.NodePath.{NodePath}
use gitveil.Source.Layout.{Layout}
use gitveil.Envelope.Yaml.{Value}

-- The errors, without their reasons, which are fixed messages.
pub data EnvelopeError : Type 0 where
  non_utf8 yaml layout : EnvelopeError
  invalid_structure format_mismatch unsupported_version : EnvelopeError
  missing_field : Str → EnvelopeError
  plaintext_leaf : NodePath → EnvelopeError
  invalid_metadata selector_drift : EnvelopeError
  unsupported_key duplicate_key : NodePath → EnvelopeError
  invalid_scalar : EnvelopeError

-- The crates: UTF-8 as the standard library reads and writes it, the text of YAML values and of
-- tags (`Tag::new` and its `Display`), the JSON of a layout, base64 and bech32.
pub record Codecs : Type 0 where
  pub as_bytes : Str → List ℕ
  pub from_utf8 : List ℕ → Option Str
  pub yaml_to_string : Value → Option Str
  pub yaml_from_str : Str → Option Value
  pub tag_text : Str → Str
  pub layout_to_string : Layout → Option Str
  pub layout_from_str : Str → Option Layout
  pub base64_encode : List ℕ → Str
  pub base64_decode : Str → Option (List ℕ)
  pub bech32 : Bech32

unfoldable pub discriminator : SourceFormat → Str
unfolding as_str
discriminator format = codes "gitveil_v1_" ++ as_str format

-- `s.strip_suffix(c)` for one character
unfoldable pub strip_last : ℕ → Str → Option Str
strip_last c [] = none
strip_last c (d ∷ []) = if d == c then some [] else none
strip_last c (d ∷ e ∷ s) = elim (strip_last c (e ∷ s)) [ none ↦ none | some t ↦ some (d ∷ t) ]

-- What follows the name of a field, if it is not empty.
abbrev pub has_content : Str → Str → Bool
has_content name field = elim (strip_prefix name field) [
  | none ↦ false
  | some value ↦ elim value [ [] ↦ false | c ∷ s ↦ true ]
]

abbrev pub is_known_type : Str → Bool
is_known_type field = elim (strip_prefix (codes "type:") field) [
  | none ↦ false
  | some value ↦
      contains
        (codes "str"
          ∷ codes "int"
          ∷ codes "float"
          ∷ codes "bool"
          ∷ codes "bytes"
          ∷ codes "comment"
          ∷ codes "null"
          ∷ [])
        value
]

-- The four fields between the brackets.
unfoldable pub has_encrypted_fields : List Str → Bool
unfolding strip_prefix contains
has_encrypted_fields (value ∷ iv ∷ tag ∷ kind ∷ []) =
    has_content (codes "data:") value
    && has_content (codes "iv:") iv
    && has_content (codes "tag:") tag
    && is_known_type kind
has_encrypted_fields _ = false

unfoldable pub is_encrypted_scalar : Str → Bool
unfolding strip_prefix strip_last split has_encrypted_fields
is_encrypted_scalar value = elim (strip_prefix (codes "ENC[AES256_GCM,") value) [
  | none ↦ false
  | some rest ↦ elim (strip_last 93 rest) [
    | none ↦ false
    | some inner ↦ has_encrypted_fields (split 44 inner)
  ]
]
