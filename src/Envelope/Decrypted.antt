-- ===== src/Envelope/Decrypted.antt =====
-- src/envelope.rs: `DecryptedEnvelope`, the document that SOPS encrypts.
use gitveil.Base.{
  ℕ, suc, not, ◌||◌, List, [], ◌∷◌, ◌++◌, ◌==◌, Option, none, some, if◌then◌else◌, Str, codes,
  contains, strip_prefix, IndexMap, get, contains_key, insert, Outcome, ok, ◌>>=◌, ◌>>◌, fail_if,
  ok_or, nat_eq, list_eq,
}
use gitveil.Config.{SourceFormat}
use gitveil.Source.NodePath.{NodePath, root, child_key, child_index}
use gitveil.Source.Node.{Node, Fields, Items, Scalar, of_entries}
use gitveil.Source.Layout.{Layout}
use gitveil.Source.Document.{SourceDocument}
use gitveil.Envelope.Yaml.{Value, Values, Mapping, as_str, as_mapping, get_field, len, and_then}
use gitveil.Envelope.{
  EnvelopeError, non_utf8, yaml as invalid_yaml, layout as invalid_layout, invalid_structure,
  format_mismatch, missing_field, unsupported_key, duplicate_key, invalid_scalar, Codecs,
  discriminator,
}
use gitveil.Envelope.TypePath.{
  InternalScalarType, date_time, integer, float, null, type_name, encode_path, parse_type_paths,
}

pub record DecryptedEnvelope : Type 0 where
  pub format : SourceFormat
  pub content : Node
  pub layout : Layout

-- `DecryptedEnvelope::from_source`, which does not fail
abbrev pub from_source : SourceDocument → DecryptedEnvelope
from_source source = record {
  format = source.format;
  content = source.root;
  layout = source.layout;
}

-- `DecryptedEnvelope::into_source`, which does not fail
abbrev pub into_source : DecryptedEnvelope → SourceDocument
into_source envelope = record {
  format = envelope.format;
  root = envelope.content;
  layout = envelope.layout;
}

-- A scalar whose type YAML does not carry: its type's name and its text in base64.
abbrev pub encode_typed : Codecs → Str → Str → Value
encode_typed codecs prefix text =
    Value.string (prefix ++ codecs.base64_encode (codecs.as_bytes text))

abbrev pub scalar_to_yaml : Codecs → Scalar → Value
scalar_to_yaml codecs (Scalar.string s) = Value.string s
scalar_to_yaml codecs (Scalar.date_time s) = encode_typed codecs (codes "gitveil:datetime:") s
scalar_to_yaml codecs (Scalar.integer s) = encode_typed codecs (codes "gitveil:integer:") s
scalar_to_yaml codecs (Scalar.float s) = encode_typed codecs (codes "gitveil:float:") s
scalar_to_yaml codecs (Scalar.bool b) = Value.bool b
scalar_to_yaml codecs Scalar.null = Value.string (codes "gitveil:null")

-- No branch of `node_to_yaml` fails; the keys of a mapping are distinct, so that each insertion
-- appends.
unfoldable mutual
  pub node_to_yaml : Codecs → Node → Value
  node_to_yaml codecs (Node.mapping fs) = Value.mapping (fields_to_yaml codecs fs)
  node_to_yaml codecs (Node.sequence vs) = Value.sequence (items_to_yaml codecs vs)
  node_to_yaml codecs (Node.scalar s) = scalar_to_yaml codecs s
  node_to_yaml codecs (Node.tagged tag v) =
      Value.tagged (codecs.tag_text tag) (node_to_yaml codecs v)

  pub fields_to_yaml : Codecs → Fields → Mapping
  fields_to_yaml codecs Fields.end = Mapping.end
  fields_to_yaml codecs (Fields.field k v fs) =
      Mapping.pair (Value.string k) (node_to_yaml codecs v) (fields_to_yaml codecs fs)

  pub items_to_yaml : Codecs → Items → Values
  items_to_yaml codecs Items.nil = Values.nil
  items_to_yaml codecs (Items.item v vs) =
      Values.item (node_to_yaml codecs v) (items_to_yaml codecs vs)

abbrev pub scalar_type : Scalar → Option InternalScalarType
scalar_type (Scalar.date_time s) = some date_time
scalar_type (Scalar.integer s) = some integer
scalar_type (Scalar.float s) = some float
scalar_type Scalar.null = some null
scalar_type _ = none

-- `collect_type_paths` below a path; the list that the source pushes to is returned.
unfoldable mutual
  unfolding encode_path

  pub collect : Node → NodePath → IndexMap Str InternalScalarType
  collect (Node.mapping fs) path = collect_fields fs path
  collect (Node.sequence vs) path = collect_items vs 0 path
  collect (Node.scalar s) path = elim (scalar_type s) [
    | none ↦ []
    | some kind ↦ (encode_path path, kind) ∷ []
  ]
  collect (Node.tagged tag v) path = collect v path

  pub collect_fields : Fields → NodePath → IndexMap Str InternalScalarType
  collect_fields Fields.end path = []
  collect_fields (Fields.field k v fs) path = collect v (child_key path k) ++ collect_fields fs path

  pub collect_items : Items → ℕ → NodePath → IndexMap Str InternalScalarType
  collect_items Items.nil i path = []
  collect_items (Items.item v vs) i path =
      collect v (child_index path i) ++ collect_items vs (suc i) path

abbrev pub collect_type_paths : Node → IndexMap Str InternalScalarType
collect_type_paths node = collect node root

-- The types as a mapping from paths to markers.
unfoldable pub types_to_yaml : IndexMap Str InternalScalarType → Mapping
types_to_yaml [] = Mapping.end
types_to_yaml ((path, kind) ∷ rest) =
    Mapping.pair (Value.string path)
      (Value.mapping
        (Mapping.pair (Value.string (type_name kind)) (Value.mapping Mapping.end) Mapping.end))
      (types_to_yaml rest)

abbrev pub types_field : IndexMap Str InternalScalarType → Mapping
types_field [] = Mapping.end
types_field (entry ∷ rest) =
    Mapping.pair (Value.string (codes "types")) (Value.mapping (types_to_yaml (entry ∷ rest)))
      Mapping.end

-- The document of an envelope, with its layout in JSON.
unfoldable pub document_of : Codecs → DecryptedEnvelope → Str → Value
unfolding node_to_yaml collect types_to_yaml discriminator
document_of codecs envelope layout = Value.mapping (
    Mapping.pair (Value.string (discriminator envelope.format))
      (Value.mapping (
        Mapping.pair (Value.string (codes "data")) (node_to_yaml codecs envelope.content) (
          Mapping.pair (Value.string (codes "layout")) (Value.string layout)
            (types_field (collect_type_paths envelope.content)))))
      Mapping.end)

unfoldable pub to_yaml : Codecs → DecryptedEnvelope → Outcome EnvelopeError (List ℕ)
unfolding document_of
to_yaml codecs envelope = do
  layout ← ok_or (codecs.layout_to_string envelope.layout) invalid_layout
  text ← ok_or (codecs.yaml_to_string (document_of codecs envelope layout)) invalid_yaml
  ok (codecs.as_bytes text)

-- `decode_typed_number`, which `DateTime` repeats
unfoldable pub decode_typed : Codecs → Str → Str → Outcome EnvelopeError Str
unfolding strip_prefix
decode_typed codecs prefix value = do
  encoded ← ok_or (strip_prefix prefix value) invalid_scalar
  decoded ← ok_or (codecs.base64_decode encoded) invalid_scalar
  ok_or (codecs.from_utf8 decoded) invalid_scalar

-- A string, by the type of its path.
unfoldable pub string_from_yaml :
    Codecs → Option InternalScalarType → Str → Outcome EnvelopeError Node
unfolding decode_typed
string_from_yaml codecs (some date_time) s = do
  text ← decode_typed codecs (codes "gitveil:datetime:") s
  ok (Node.scalar (Scalar.date_time text))
string_from_yaml codecs (some null) s = do
  fail_if (not (s == codes "gitveil:null")) invalid_scalar
  ok (Node.scalar Scalar.null)
string_from_yaml codecs (some integer) s = do
  text ← decode_typed codecs (codes "gitveil:integer:") s
  ok (Node.scalar (Scalar.integer text))
string_from_yaml codecs (some float) s = do
  text ← decode_typed codecs (codes "gitveil:float:") s
  ok (Node.scalar (Scalar.float text))
string_from_yaml codecs none s = ok (Node.scalar (Scalar.string s))

abbrev pub number_node : Str → Node
number_node text =
    if contains text b'.' || contains text b'e' || contains text b'E'
    then Node.scalar (Scalar.float text)
    else Node.scalar (Scalar.integer text)

abbrev pub Types : Type 0
Types = IndexMap Str InternalScalarType

unfoldable mutual
  unfolding contains get encode_path string_from_yaml as_str contains_key insert of_entries

  pub node_from_yaml : Codecs → Types → Value → NodePath → Outcome EnvelopeError Node
  node_from_yaml codecs types (Value.mapping m) path = do
    values ← mapping_from_yaml codecs types [] m path
    ok (Node.mapping (of_entries values))
  node_from_yaml codecs types (Value.sequence vs) path = do
    items ← items_from_yaml codecs types vs 0 path
    ok (Node.sequence items)
  node_from_yaml codecs types (Value.string s) path =
      string_from_yaml codecs (get (encode_path path) types) s
  node_from_yaml codecs types (Value.number n) path = ok (number_node n)
  node_from_yaml codecs types (Value.bool b) path = ok (Node.scalar (Scalar.bool b))
  node_from_yaml codecs types Value.null path = ok (Node.scalar Scalar.null)
  node_from_yaml codecs types (Value.tagged tag v) path = do
    value ← node_from_yaml codecs types v path
    ok (Node.tagged tag value)

  -- The loop over a mapping: `values` holds the entries so far.
  pub mapping_from_yaml :
      Codecs
      → Types
      → IndexMap Str Node
      → Mapping
      → NodePath
      → Outcome EnvelopeError (IndexMap Str Node)
  mapping_from_yaml codecs types values Mapping.end path = ok values
  mapping_from_yaml codecs types values (Mapping.pair key v rest) path = do
    k ← ok_or (as_str key) (unsupported_key path)
    fail_if (contains_key k values) (duplicate_key (child_key path k))
    node ← node_from_yaml codecs types v (child_key path k)
    mapping_from_yaml codecs types (insert k node values) rest path

  pub items_from_yaml : Codecs → Types → Values → ℕ → NodePath → Outcome EnvelopeError Items
  items_from_yaml codecs types Values.nil i path = ok Items.nil
  items_from_yaml codecs types (Values.item v vs) i path = do
    node ← node_from_yaml codecs types v (child_index path i)
    items ← items_from_yaml codecs types vs (suc i) path
    ok (Items.item node items)

abbrev pub optional_types : Option Value → Outcome EnvelopeError Types
optional_types none = ok []
optional_types (some value) = parse_type_paths value

unfoldable pub read_document :
    Codecs → Value → SourceFormat → Outcome EnvelopeError DecryptedEnvelope
unfolding as_mapping as_str get_field len discriminator parse_type_paths node_from_yaml
read_document codecs value expected = do
  document ← ok_or (as_mapping value) invalid_structure
  fail_if (not (len document == 1)) invalid_structure
  body ← ok_or (and_then (get_field (discriminator expected) document) as_mapping) format_mismatch
  content ← ok_or (get_field (codes "data") body) (missing_field (codes "data"))
  text ← ok_or (and_then (get_field (codes "layout") body) as_str) (missing_field (codes "layout"))
  layout ← ok_or (codecs.layout_from_str text) invalid_layout
  types ← optional_types (get_field (codes "types") body)
  node ← node_from_yaml codecs types content root
  ok (record { format = expected; content = node; layout = layout })

unfoldable pub from_yaml : Codecs → List ℕ → SourceFormat → Outcome EnvelopeError DecryptedEnvelope
unfolding read_document
from_yaml codecs input expected = do
  text ← ok_or (codecs.from_utf8 input) non_utf8
  value ← ok_or (codecs.yaml_from_str text) invalid_yaml
  read_document codecs value expected
