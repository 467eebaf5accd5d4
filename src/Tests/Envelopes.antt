-- ===== src/Tests/Envelopes.antt =====
-- A small encrypted document.
use gitveil.Base.{ℕ, true, List, [], ◌∷◌, ◌≡◌, ◌↔◌, refl, none, some, Str, codes, ok, err, list_beq}
use gitveil.Config.{dotenv}
use gitveil.Source.NodePath.{root}
use gitveil.Envelope.Yaml.{
  Value, string, tagged, mapping, sequence, bool, nil, item, Mapping, end, pair,
}
use gitveil.Envelope.{Codecs, plaintext_leaf}
use gitveil.Envelope.Ciphertext.{CiphertextEnvelope, Collected, validate_encrypted_tree, parse}
use gitveil.Envelope.Ciphertext.Sealed.{AllEncrypted, validate_encrypted_tree_iff}
use gitveil.Envelope.Ciphertext.Parsed.{IsSealed, parse-IsSealed}

abbrev pub secret : Str
secret = codes "ENC[AES256_GCM,data:x,iv:y,tag:z,type:str]"

abbrev pub named : Str → Value → Mapping → Mapping
named key value rest = pair (string key) value rest

abbrev content : Value
content = mapping (pair (tagged (codes "!k") (string (codes "A"))) (string secret) end)

abbrev pub metadata : Mapping
metadata = named (codes "mac") (string secret) (
    named (codes "version") (string (codes "3")) (
      named (codes "lastmodified") (string (codes "t")) (
        named (codes "encrypted_regex") (string (codes ".*")) (
          named (codes "age")
            (sequence (
              item
                (mapping (
                  named (codes "recipient") (string (codes "age1zz"))
                    (named (codes "enc") (string (codes "e")) end)))
                nil))
            end))))

abbrev pub sample : Value
sample = mapping (
    named (codes "gitveil_v1_dotenv")
      (mapping (named (codes "data") content (named (codes "layout") (string secret) end)))
      (named (codes "sops") (mapping metadata) end))

abbrev pub payload : List ℕ
payload =
    1 ∷ 1 ∷ 1 ∷ 1 ∷ 1 ∷ 1 ∷ 1 ∷ 1 ∷ 1 ∷ 1 ∷ 1 ∷ 1 ∷ 1 ∷ 1 ∷ 1 ∷ 1 ∷ 1 ∷ 1 ∷ 1 ∷ 1 ∷ 1 ∷ 1 ∷ 1 ∷ 1
    ∷ 1 ∷ 1 ∷ 1 ∷ 1 ∷ 1 ∷ 1 ∷ 1 ∷ 1 ∷ []

abbrev pub codecs : Codecs
codecs = record {
  as_bytes = λ s. s;
  from_utf8 = some;
  yaml_to_string = λ v. none;
  yaml_from_str = λ s. some sample;
  tag_text = λ s. s;
  layout_to_string = λ l. none;
  layout_from_str = λ s. none;
  base64_encode = λ bytes. bytes;
  base64_decode = some;
  bech32 = record {
    decode = λ s. some (codes "age", payload);
    encode = λ hrp bytes. some (codes "age1zz");
  };
}

abbrev pub envelope : CiphertextEnvelope
envelope = record {
  format = dotenv;
  key_paths = codes "A" ∷ [];
  leaves = (codes "A", secret) ∷ [];
  layout_ciphertext = secret;
  age_recipients = codes "age1zz" ∷ [];
}

parsed : parse codecs [] dotenv ≡ ok envelope
unfolding parse list_beq
parsed = refl

parse-IsSealed_example : IsSealed codecs [] dotenv envelope
parse-IsSealed_example = parse-IsSealed codecs [] dotenv envelope parsed

validate_encrypted_tree_iff_example :
    ((next : Collected) × (validate_encrypted_tree content root
          (record { key_paths = []; leaves = [] })
        ≡ ok next))
    ↔ AllEncrypted content
validate_encrypted_tree_iff_example =
    validate_encrypted_tree_iff content root (record { key_paths = []; leaves = [] })

plain_rejected :
    validate_encrypted_tree (bool true) root (record { key_paths = []; leaves = [] })
    ≡ err (plaintext_leaf root)
unfolding validate_encrypted_tree
plain_rejected = refl

-- Two leaves whose paths are written alike: the later one replaces the earlier.
alike :
    validate_encrypted_tree
      (mapping (
        named
          (codes "a")
          (mapping (named (codes "b") (string secret) end))
          (named (codes "a.b") (string (secret)) end)))
      root
      (record { key_paths = []; leaves = [] })
    ≡ ok (record {
      key_paths = codes "a" ∷ codes "a.b" ∷ codes "a.b" ∷ [];
      leaves = (codes "a.b", secret) ∷ [];
    })
unfolding validate_encrypted_tree list_beq
alike = refl
