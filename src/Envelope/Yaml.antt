-- ===== src/Envelope/Yaml.antt =====
-- `yaml_serde::Value` and `Mapping`, as the crate documents them: a mapping keeps its entries in
-- order and finds an entry by its key. A number is its text. The `as_` methods see through tags;
-- the comparison of a key does not.
use gitveil.Base.{
  ℕ, suc, Bool, false, ◌||◌, List, [], ◌∷◌, ◌==◌, Option, none, some, if◌then◌else◌, Str, nat_eq,
  list_eq,
}

mutual
  pub data Value : Type 0 where
    null : Value
    bool : Bool → Value
    number : Str → Value
    string : Str → Value
    sequence : Values → Value
    mapping : Mapping → Value
    tagged : Str → Value → Value

  pub data Values : Type 0 where
    nil : Values
    item : Value → Values → Values

  pub data Mapping : Type 0 where
    end : Mapping
    pair : Value → Value → Mapping → Mapping

-- The value under the tags, the crate's `untag_ref`.
unfoldable pub untag : Value → Value
untag (tagged t value) = untag value
untag value = value

unfoldable pub as_str : Value → Option Str
unfolding untag
as_str value = elim (untag value) [ string s ↦ some s | _ ↦ none ]

unfoldable pub as_mapping : Value → Option Mapping
unfolding untag
as_mapping value = elim (untag value) [ mapping m ↦ some m | _ ↦ none ]

unfoldable pub as_sequence : Value → Option Values
unfolding untag
as_sequence value = elim (untag value) [ sequence vs ↦ some vs | _ ↦ none ]

-- Whether a key is the string `k`.
unfoldable pub is_key : Str → Value → Bool
is_key k (string s) = s == k
is_key k _ = false

-- `mapping.get(Value::String(k))`
unfoldable pub get_field : Str → Mapping → Option Value
unfolding is_key
get_field k end = none
get_field k (pair key value rest) = if is_key k key then some value else get_field k rest

-- `mapping.contains_key(Value::String(k))`
unfoldable pub has_field : Str → Mapping → Bool
unfolding is_key
has_field k end = false
has_field k (pair key value rest) = is_key k key || has_field k rest

unfoldable pub len : Mapping → ℕ
len end = 0
len (pair key value rest) = suc (len rest)

unfoldable pub mapping_keys : Mapping → List Value
mapping_keys end = []
mapping_keys (pair key value rest) = key ∷ mapping_keys rest

-- `o.and_then(f)`
abbrev pub and_then {ℓ κ} : {A : Type ℓ} {B : Type κ} → Option A → (A → Option B) → Option B
and_then none f = none
and_then (some a) f = f a
