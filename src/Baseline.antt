-- ===== src/Baseline.antt =====
-- src/baseline/record.rs: the units of a document and the digests that stand for them.
pub mod Framing
pub mod Record
pub mod Compare
pub mod Trust
use gitveil.Base.{
  ℕ, zero, suc, ◌+◌, ◌*◌, ◌/◌, ◌%◌, ◌^◌, Bool, true, false, ◌&&◌, ◌||◌, ◌↔◌, ◌≡◌, List, [], ◌∷◌,
  ◌++◌, ◌==◌, arith, Option, none, some, if◌then◌else◌, Str, codes, map, length, any, eqb, find?,
  starts_with, IndexMap, get, keys, nat_eq, list_eq, option_eq, option_beq_iff, Eq, ltb,
}
use gitveil.Config.{SourceFormat, dotenv, format_eq}
use gitveil.Source.Node.{Node, mapping, entries}
use gitveil.Source.Node.Equality.{node_eq, node_beq_iff}
use gitveil.Source.Layout.{DotenvLayout, Layout, dotenv_eq, layout_eq}
use gitveil.Source.Layout.Dotenv.{find_entry}
use gitveil.Source.Document.{SourceDocument}

-- The crates: the derived JSON writers (which do not fail on these types), UTF-8, SHA-256 and
-- hexadecimal.
pub record Digests : Type 0 where
  pub node_json : Node → List ℕ
  pub entry_json : DotenvLayout → List ℕ
  pub layout_json : Layout → List ℕ
  pub as_bytes : Str → List ℕ
  pub sha256 : List ℕ → List ℕ
  pub hex_encode : List ℕ → Str
  pub hex_decode : Str → Option (List ℕ)

-- `ROOT_UNIT`
abbrev pub root_unit : Str
root_unit = codes "$"

pub record UnitView : Type 0 where
  pub node : Node
  pub entry : Option DotenvLayout
  pub layout : Option Layout

abbrev pub view_beq : UnitView → UnitView → Bool
view_beq a b = a.node == b.node && a.entry == b.entry && a.layout == b.layout

pub view_beq_iff : (a b : UnitView) → (view_beq a b ≡ true) ↔ (a ≡ b)
view_beq_iff a b = ground (
  arith,
  node_beq_iff a.node b.node,
  option_beq_iff a.entry b.entry,
  option_beq_iff a.layout b.layout,
)

instance abbrev pub view_eq : Eq UnitView
view_eq = record { test = view_beq; decides = view_beq_iff }

abbrev pub key_view : SourceDocument → Str → Node → UnitView
key_view document key node = record {
  node = node;
  entry = find_entry key document.layout.dotenv;
  layout = none;
}

abbrev pub root_view : SourceDocument → UnitView
root_view document = record { node = document.root; entry = none; layout = some document.layout }

abbrev pub view_at : SourceDocument → Str → Option Node → Option UnitView
view_at document key none = none
view_at document key (some node) = some (key_view document key node)

unfoldable pub unit_view : SourceDocument → Str → Option UnitView
unfolding find_entry entries get
unit_view document key = elim document.root [
  | mapping fs ↦ view_at document key (get key (entries fs))
  | _ ↦ if key == root_unit then some (root_view document) else none
]

-- The view of a key before those of the other keys, where it has one.
abbrev pub push_view : Str → Option UnitView → List (Str × UnitView) → List (Str × UnitView)
push_view key none rest = rest
push_view key (some view) rest = (key, view) ∷ rest

-- The views of the keys.
unfoldable pub views_of : SourceDocument → List Str → List (Str × UnitView)
unfolding unit_view
views_of document [] = []
views_of document (key ∷ rest) = push_view key (unit_view document key) (views_of document rest)

-- The names of the units: the keys of a mapping, or the one of the whole document.
unfoldable pub unit_keys : SourceDocument → List Str
unfolding entries keys
unit_keys document = elim document.root [ mapping fs ↦ keys (entries fs) | _ ↦ root_unit ∷ [] ]

unfoldable pub units_of : SourceDocument → List (Str × UnitView)
unfolding views_of unit_keys
units_of document = views_of document (unit_keys document)

unfoldable pub residual_layout : SourceDocument → Layout
residual_layout document =
    if document.format == dotenv
    then (record document.layout { dotenv = []; template = none })
    else document.layout

-- The bytes of an optional part: nothing where it is absent.
abbrev pub part {ℓ} : {A : Type ℓ} → (A → List ℕ) → Option A → List ℕ
part write none = []
part write (some a) = write a

unfoldable pub unit_bytes : Digests → UnitView → List ℕ
unit_bytes crates view =
    crates.node_json view.node
    ++ (0 ∷ (part crates.entry_json view.entry ++ (0 ∷ part crates.layout_json view.layout)))

-- The last `n` bytes of a number, the most significant first.
unfoldable pub low_bytes : ℕ → ℕ → List ℕ
low_bytes zero n = []
low_bytes (suc k) n = low_bytes k (n / 256) ++ (n % 256) ∷ []

-- `(n as u64).to_be_bytes()`
unfoldable pub be_bytes : ℕ → List ℕ
unfolding low_bytes
be_bytes n = low_bytes 8 n

-- A field with its length in front.
unfoldable pub with_length : List ℕ → List ℕ
unfolding be_bytes
with_length field = be_bytes (length field) ++ field

-- What `digest` feeds to the hasher.
unfoldable pub frame : List ℕ → List ℕ → List ℕ → List ℕ → List ℕ
unfolding with_length
frame domain salt name body = domain ++ (with_length salt ++ (with_length name ++ with_length body))

unfoldable pub digest : Digests → List ℕ → List ℕ → List ℕ → List ℕ → Str
unfolding frame
digest crates domain salt name body =
    crates.hex_encode (crates.sha256 (frame domain salt name body))

abbrev pub key_domain : List ℕ
key_domain = codes "gitveil-baseline-key-v1"

abbrev pub layout_domain : List ℕ
layout_domain = codes "gitveil-baseline-layout-v1"

abbrev pub cipher_domain : List ℕ
cipher_domain = codes "gitveil-baseline-cipher-v1"

abbrev pub cipher_layout_domain : List ℕ
cipher_layout_domain = codes "gitveil-baseline-cipher-layout-v1"
