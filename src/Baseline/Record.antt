-- ===== src/Baseline/Record.antt =====
-- src/baseline/record.rs: `CipherSummary`, `BaselineRecord` and the differences against a record.
use gitveil.Base.{
  ℕ, Bool, false, not, ◌&&◌, ◌||◌, List, [], ◌∷◌, ◌++◌, ◌==◌, Option, none, some, if◌then◌else◌,
  Str, length, is_empty, starts_with, IndexMap, get, keys, contains_key, insert_sorted,
  collect_sorted, Outcome, ok, ◌>>=◌, ◌>>◌, ok_or, fail_if, is_some, nat_eq, list_eq,
}
use gitveil.Source.Document.{SourceDocument}
use gitveil.Envelope.Ciphertext.{CiphertextEnvelope}
use gitveil.Baseline.{
  Digests, UnitView, root_unit, units_of, residual_layout, unit_bytes, digest, key_domain,
  layout_domain, cipher_domain, cipher_layout_domain,
}

pub record CipherSummary : Type 0 where
  pub units : IndexMap Str Str
  pub layout : Str

-- The text up to the first `.` or `[`.
unfoldable pub before_separator : Str → Str
before_separator [] = []
before_separator (c ∷ s) =
    let rest = before_separator s in if c == 46 || c == 91 then [] else c ∷ rest

unfoldable pub unit_of : Str → Str
unfolding starts_with before_separator
unit_of path =
    if starts_with (91 ∷ []) path || path == root_unit then root_unit else before_separator path

-- The text of an entry, empty where it is not there yet.
abbrev pub or_default : Option Str → Str
or_default none = []
or_default (some text) = text

-- The body of the loop over the leaves.
unfoldable pub push_leaf_line : Str → Str → IndexMap Str Str → IndexMap Str Str
unfolding unit_of get insert_sorted
push_leaf_line path leaf units =
    insert_sorted (unit_of path)
      (or_default (get (unit_of path) units) ++ path ++ 61 ∷ leaf ++ 10 ∷ []) units

unfoldable pub summarise : IndexMap Str Str → IndexMap Str Str → IndexMap Str Str
unfolding push_leaf_line
summarise [] units = units
summarise ((path, leaf) ∷ leaves) units = summarise leaves (push_leaf_line path leaf units)

unfoldable pub from_envelope : CiphertextEnvelope → CipherSummary
unfolding summarise
from_envelope envelope = record {
  units = summarise envelope.leaves [];
  layout = envelope.layout_ciphertext;
}

-- `unit_names`
abbrev pub unit_names : CipherSummary → List Str
unit_names cipher = keys cipher.units

pub record BaselineRecord : Type 0 where
  pub version : ℕ
  pub salt : Str
  pub keys : IndexMap Str Str
  pub layout : Str
  pub cipher_units : IndexMap Str Str
  pub cipher_layout : Str

pub record BaselineDiff : Type 0 where
  pub changed : List Str
  pub added : List Str
  pub removed : List Str
  pub layout_changed : Bool

-- `BaselineDiff::is_empty`
abbrev pub is_unchanged : BaselineDiff → Bool
is_unchanged diff =
    is_empty diff.changed && is_empty diff.added && is_empty diff.removed && not diff.layout_changed

-- The digests of the units of a document.
unfoldable pub unit_digests : Digests → List ℕ → List (Str × UnitView) → IndexMap Str Str
unfolding unit_bytes digest
unit_digests crates salt [] = []
unit_digests crates salt ((key, view) ∷ units) =
    (key, digest crates key_domain salt (crates.as_bytes key) (unit_bytes crates view))
    ∷ unit_digests crates salt units

-- The digests of the units of a ciphertext.
unfoldable pub cipher_digests : Digests → List ℕ → IndexMap Str Str → IndexMap Str Str
unfolding digest
cipher_digests crates salt [] = []
cipher_digests crates salt ((unit, body) ∷ units) =
    (unit, digest crates cipher_domain salt (crates.as_bytes unit) (crates.as_bytes body))
    ∷ cipher_digests crates salt units

abbrev pub layout_digest : Digests → List ℕ → SourceDocument → Str
layout_digest crates salt document =
    digest crates layout_domain salt [] (crates.layout_json (residual_layout document))

abbrev pub cipher_layout_digest : Digests → List ℕ → CipherSummary → Str
cipher_layout_digest crates salt cipher =
    digest crates cipher_layout_domain salt [] (crates.as_bytes cipher.layout)

abbrev pub current_version : ℕ
current_version = 1

abbrev pub salt_length : ℕ
salt_length = 32

-- The salt is `[u8; 32]`.
unfoldable pub capture : Digests → SourceDocument → CipherSummary → List ℕ → BaselineRecord
unfolding units_of unit_digests cipher_digests residual_layout digest collect_sorted
capture crates document cipher salt = record {
  version = current_version;
  salt = crates.hex_encode salt;
  keys = collect_sorted (unit_digests crates salt (units_of document));
  layout = layout_digest crates salt document;
  cipher_units = collect_sorted (cipher_digests crates salt cipher.units);
  cipher_layout = cipher_layout_digest crates salt cipher;
}

-- The panic on a salt that is not hexadecimal is written as no bytes; `capture` writes the salt in
-- hexadecimal, and `from_json` refuses another one.
unfoldable pub salt_bytes : Digests → BaselineRecord → List ℕ
salt_bytes crates baseline = elim (crates.hex_decode baseline.salt) [ none ↦ [] | some salt ↦ salt ]

unfoldable pub has_key : BaselineRecord → Str → Bool
unfolding contains_key
has_key baseline key = contains_key key baseline.keys

-- Whether a view has the recorded digest.
unfoldable pub has_digest : Digests → List ℕ → Str → Str → Option UnitView → Bool
unfolding digest unit_bytes
has_digest crates salt recorded key none = false
has_digest crates salt recorded key (some view) =
    digest crates key_domain salt (crates.as_bytes key) (unit_bytes crates view) == recorded

unfoldable pub unit_matches : Digests → BaselineRecord → Str → Option UnitView → Option Bool
unfolding get has_digest salt_bytes
unit_matches crates baseline key view = elim (get key baseline.keys) [
  | none ↦ none
  | some recorded ↦ some (has_digest crates (salt_bytes crates baseline) recorded key view)
]

unfoldable pub residual_layout_matches : Digests → BaselineRecord → SourceDocument → Bool
unfolding digest residual_layout salt_bytes
residual_layout_matches crates baseline document =
    layout_digest crates (salt_bytes crates baseline) document == baseline.layout

abbrev pub push_if : Bool → Str → List Str → List Str
push_if b key found = if b then key ∷ found else found

-- Whether the value of a key is another one than `digest`.
abbrev pub is_other : Str → Option Str → Bool
is_other digest none = false
is_other digest (some recorded) = not (recorded == digest)

-- The keys of the first loop that are added, and those that are changed.
unfoldable pub added_keys : IndexMap Str Str → IndexMap Str Str → List Str
unfolding get
added_keys recorded [] = []
added_keys recorded ((key, digest) ∷ current) =
    push_if (not (is_some (get key recorded))) key (added_keys recorded current)

unfoldable pub changed_keys : IndexMap Str Str → IndexMap Str Str → List Str
unfolding get
changed_keys recorded [] = []
changed_keys recorded ((key, digest) ∷ current) =
    push_if (is_other digest (get key recorded)) key (changed_keys recorded current)

-- The second loop.
unfoldable pub removed_keys : List Str → IndexMap Str Str → List Str
unfolding contains_key
removed_keys [] current = []
removed_keys (key ∷ recorded) current =
    push_if (not (contains_key key current)) key (removed_keys recorded current)

unfoldable pub diff_maps : IndexMap Str Str → IndexMap Str Str → Bool → BaselineDiff
unfolding added_keys changed_keys removed_keys keys
diff_maps recorded current layout_changed = record {
  changed = changed_keys recorded current;
  added = added_keys recorded current;
  removed = removed_keys (keys recorded) current;
  layout_changed = layout_changed;
}

unfoldable pub diff_plain : Digests → BaselineRecord → SourceDocument → BaselineDiff
unfolding collect_sorted unit_digests units_of diff_maps residual_layout_matches salt_bytes
diff_plain crates baseline document =
    diff_maps baseline.keys
      (collect_sorted (unit_digests crates (salt_bytes crates baseline) (units_of document)))
      (not (residual_layout_matches crates baseline document))

unfoldable pub diff_cipher : Digests → BaselineRecord → CipherSummary → BaselineDiff
unfolding collect_sorted cipher_digests diff_maps digest salt_bytes
diff_cipher crates baseline cipher =
    diff_maps baseline.cipher_units
      (collect_sorted (cipher_digests crates (salt_bytes crates baseline) cipher.units))
      (not
        (cipher_layout_digest crates (salt_bytes crates baseline) cipher == baseline.cipher_layout))

pub data BaselineError : Type 0 where
  serialize deserialize : BaselineError
  unsupported_version : ℕ → BaselineError

-- `serde_json::to_vec` of a record is the first argument.
unfoldable pub to_json :
    (BaselineRecord → Option (List ℕ)) → BaselineRecord → Outcome BaselineError (List ℕ)
to_json to_vec baseline = ok_or (to_vec baseline) serialize

-- Whether a salt is 32 hexadecimal bytes.
abbrev pub is_salt : Option (List ℕ) → Bool
is_salt none = false
is_salt (some salt) = length salt == salt_length

-- `serde_json::from_slice` of a record is the second argument.
unfoldable pub from_json :
    Digests → (List ℕ → Option BaselineRecord) → List ℕ → Outcome BaselineError BaselineRecord
from_json crates from_slice bytes = do
  baseline ← ok_or (from_slice bytes) deserialize
  fail_if (not (baseline.version == current_version)) (unsupported_version baseline.version)
  fail_if (not (is_salt (crates.hex_decode baseline.salt))) deserialize
  ok baseline
