-- ===== src/Envelope/TypePath.antt =====
-- src/envelope.rs: the paths of the scalars whose type YAML does not carry.
use gitveil.Base.{
  Bool, true, false, not, ◌&&◌, ◌||◌, ◌↔◌, ◌≡◌, [], ◌∷◌, ◌++◌, ◌==◌, Option, none, some,
  if◌then◌else◌, Str, codes, all, drop, starts_with, replace_char, split, decimal, IndexMap,
  contains_key, Outcome, ok, err, ◌>>=◌, ◌>>◌, fail_if, ok_or, nat_eq, list_eq, Eq, arith,
}
use gitveil.Source.NodePath.{NodePath, key, index}
use gitveil.Envelope.Yaml.{Value, Mapping, end, pair, as_str, as_mapping}
use gitveil.Envelope.{EnvelopeError, invalid_structure}

pub data InternalScalarType : Type 0 where
  date_time integer float null : InternalScalarType

abbrev pub type_beq : InternalScalarType → InternalScalarType → Bool
type_beq date_time date_time = true
type_beq integer integer = true
type_beq float float = true
type_beq null null = true
type_beq _ _ = false

pub type_beq_iff : (a b : InternalScalarType) → (type_beq a b ≡ true) ↔ (a ≡ b)
type_beq_iff a b = ground arith

instance abbrev pub type_eq : Eq InternalScalarType
type_eq = record { test = type_beq; decides = type_beq_iff }

abbrev pub type_name : InternalScalarType → Str
type_name date_time = codes "datetime"
type_name integer = codes "integer"
type_name float = codes "float"
type_name null = codes "null"

-- `key.replace('~', "~0").replace('/', "~1")`
unfoldable pub escape_key : Str → Str
unfolding replace_char
escape_key k = replace_char 47 (codes "~1") (replace_char 126 (codes "~0") k)

unfoldable pub encode_segments : NodePath → Str
unfolding escape_key decimal
encode_segments [] = []
encode_segments (key k ∷ path) = 47 ∷ codes "k:" ++ escape_key k ++ encode_segments path
encode_segments (index i ∷ path) = 47 ∷ codes "i:" ++ decimal i ++ encode_segments path

unfoldable pub encode_path : NodePath → Str
unfolding encode_segments
encode_path path = 36 ∷ encode_segments path

-- The type of a marker's name.
abbrev pub named_type : Str → Option InternalScalarType
named_type name =
    if name == codes "datetime"
    then some date_time
    else if name == codes "integer"
    then some integer
    else if name == codes "float"
    then some float
    else if name == codes "null"
    then some null
    else none

abbrev pub is_type_path : Str → Bool
is_type_path path =
    starts_with (36 ∷ []) path
    && all (λ s. starts_with (codes "k:") s || starts_with (codes "i:") s) (drop 1 (split 47 path))

abbrev pub is_empty_mapping : Value → Bool
is_empty_mapping value = elim (as_mapping value) [
  | none ↦ false
  | some m ↦ elim m [ end ↦ true | pair k v rest ↦ false ]
]

-- The one entry of a marker.
unfoldable pub parse_marker : Mapping → Outcome EnvelopeError InternalScalarType
unfolding as_str as_mapping
parse_marker (pair name value end) = elim (as_str name) [
  | none ↦ err invalid_structure
  | some text ↦ do
    kind ← ok_or (named_type text) invalid_structure
    fail_if (not (is_empty_mapping value)) invalid_structure
    ok kind
]
parse_marker _ = err invalid_structure

-- The loop over the types: `paths` holds the ones so far.
unfoldable pub parse_types :
    IndexMap Str InternalScalarType
    → Mapping
    → Outcome EnvelopeError (IndexMap Str InternalScalarType)
unfolding as_str as_mapping starts_with all drop split parse_marker contains_key
parse_types paths end = ok paths
parse_types paths (pair name marker rest) = do
  path ← ok_or (as_str name) invalid_structure
  fail_if (not (is_type_path path)) invalid_structure
  entry ← ok_or (as_mapping marker) invalid_structure
  kind ← parse_marker entry
  fail_if (contains_key path paths) invalid_structure
  parse_types (paths ++ (path, kind) ∷ []) rest

unfoldable pub parse_type_paths : Value → Outcome EnvelopeError (IndexMap Str InternalScalarType)
unfolding as_mapping parse_types
parse_type_paths value = do
  mapping ← ok_or (as_mapping value) invalid_structure
  parse_types [] mapping
