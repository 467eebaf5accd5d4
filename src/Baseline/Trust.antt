-- ===== src/Baseline/Trust.antt =====
-- src/baseline/record.rs: what a matching digest says about a unit.
use gitveil.Base.{
  ℕ, Bool, true, false, ◌≡◌, refl, sym, ◌∙◌, subst, List, [], ◌∷◌, ◌++◌, ◌==◌, arith, Option, none,
  some, if◌then◌else◌, Str, all, ltb, contains, IsUnique, get, keys, ◌⊎◌, inl, inr, list_eq, nat_eq,
  eq_iff, Bool-cases, Option-cases, get-collect_sorted,
}
use gitveil.Source.Node.{Node}
use gitveil.Source.Layout.{DotenvLayout}
use gitveil.Source.Document.{SourceDocument}
use gitveil.Baseline.{
  Digests, UnitView, part, unit_view, push_view, views_of, unit_keys, units_of, unit_bytes, digest,
  key_domain,
}
use gitveil.Baseline.Framing.{IsSized, Collision, digest_injective}
use gitveil.Baseline.Record.{
  CipherSummary, BaselineRecord, unit_digests, capture, salt_bytes, has_digest, unit_matches,
}

abbrev pub AreBytes : List ℕ → Type 0
AreBytes bytes = all (λ b. ltb b 256) bytes ≡ true

-- Of the crates: hexadecimal text is read back, a hash is bytes, and JSON has no byte zero.
pub record Reliable (crates : Digests) : Type 0 where
  pub hex_round_trip :
      (bytes : List ℕ) → AreBytes bytes → crates.hex_decode (crates.hex_encode bytes) ≡ some bytes
  pub hash_bytes : (input : List ℕ) → AreBytes (crates.sha256 input)
  pub node_nonzero : (node : Node) → contains (crates.node_json node) 0 ≡ false
  pub entry_nonzero : (entry : DotenvLayout) → contains (crates.entry_json entry) 0 ≡ false

-- Up to the first zero.
cancel_zero :
    (xs ys zs ws : List ℕ)
    → contains xs 0 ≡ false
    → contains ys 0 ≡ false
    → xs ++ (0 ∷ zs) ≡ ys ++ (0 ∷ ws)
    → (xs ≡ ys) × (zs ≡ ws)
unfolding contains
cancel_zero [] [] zs ws a b h = ground arith
cancel_zero (x ∷ xs) (y ∷ ys) zs ws a b h = ground (arith, cancel_zero xs ys zs ws)
cancel_zero [] (y ∷ ys) zs ws a b h = ground arith
cancel_zero (x ∷ xs) [] zs ws a b h = ground arith

-- Two views with the same JSON: of the node, of the dotenv entry and of the layout.
abbrev pub SameView : Digests → UnitView → UnitView → Type 0
SameView crates a b =
    (crates.node_json a.node ≡ crates.node_json b.node)
    × (part crates.entry_json a.entry ≡ part crates.entry_json b.entry)
    × (part crates.layout_json a.layout ≡ part crates.layout_json b.layout)

abbrev pub digest_view : Digests → List ℕ → Str → Option UnitView → Option Str
digest_view crates salt key none = none
digest_view crates salt key (some view) =
    some (digest crates key_domain salt (crates.as_bytes key) (unit_bytes crates view))

-- The first of two options.
abbrev or_else : Option Str → Option Str → Option Str
or_else none other = other
or_else (some text) other = some text

or_else-same : (o : Option Str) (b : Bool) → or_else o (if b then o else none) ≡ o
or_else-same none b = ground arith
or_else-same (some text) b = refl

get-push_view :
    (crates : Digests) (salt : List ℕ) (key name : Str) (view : Option UnitView)
    (rest : List (Str × UnitView))
    → get key (unit_digests crates salt (push_view name view rest)) ≡ (
        if name == key
        then or_else (digest_view crates salt name view) (get key (unit_digests crates salt rest))
        else get key (unit_digests crates salt rest))
unfolding get unit_digests
get-push_view crates salt key name none rest = ground arith
get-push_view crates salt key name (some view) rest = refl

get-unit_digests :
    (crates : Digests) (document : SourceDocument) (salt : List ℕ) (key : Str) (names : List Str)
    → get key (unit_digests crates salt (views_of document names))
      ≡ (if contains names key then digest_view crates salt key (unit_view document key) else none)
unfolding get unit_digests views_of contains
get-unit_digests crates document salt key [] = refl
get-unit_digests crates document salt key (name ∷ names) =
    get-push_view crates salt key name (unit_view document name) (views_of document names)
    ∙ rw (get-unit_digests crates document salt key names) (elim (Bool-cases (name == key)) [
      | inl same ↦
          let eq : name ≡ key = (eq_iff name key).0 same in
          rw (same, eq)
            (or_else-same (digest_view crates salt key (unit_view document key))
              (contains names key))
      | inr other ↦ rw other refl
    ])

contains-push_view :
    (crates : Digests) (salt : List ℕ) (key name : Str) (view : Option UnitView)
    (rest : List (Str × UnitView))
    → contains (keys (unit_digests crates salt (push_view name view rest))) key ≡ true
    → (name ≡ key) ⊎ (contains (keys (unit_digests crates salt rest)) key ≡ true)
unfolding keys unit_digests contains
contains-push_view crates salt key name none rest h = inr h
contains-push_view crates salt key name (some view) rest h = ground (arith, eq_iff name key)

contains-unit_digests :
    (crates : Digests) (document : SourceDocument) (salt : List ℕ) (key : Str) (names : List Str)
    → contains names key ≡ false
    → contains (keys (unit_digests crates salt (views_of document names))) key ≡ false
unfolding views_of contains keys unit_digests
contains-unit_digests crates document salt key [] h = refl
contains-unit_digests crates document salt key (name ∷ names) h = ground (
  arith,
  contains-push_view crates salt key name (unit_view document name) (views_of document names),
  contains-unit_digests crates document salt key names,
  eq_iff name key,
)

IsUnique-push_view :
    (crates : Digests) (salt : List ℕ) (name : Str) (view : Option UnitView)
    (rest : List (Str × UnitView))
    → contains (keys (unit_digests crates salt rest)) name ≡ false
    → IsUnique (keys (unit_digests crates salt rest))
    → IsUnique (keys (unit_digests crates salt (push_view name view rest)))
unfolding keys unit_digests
IsUnique-push_view crates salt name none rest fresh h = h
IsUnique-push_view crates salt name (some view) rest fresh h = (fresh, h)

IsUnique-unit_digests :
    (crates : Digests) (document : SourceDocument) (salt : List ℕ) (names : List Str)
    → IsUnique names
    → IsUnique (keys (unit_digests crates salt (views_of document names)))
unfolding views_of keys unit_digests
IsUnique-unit_digests crates document salt [] h = tt
IsUnique-unit_digests crates document salt (name ∷ names) (fresh, h) =
    IsUnique-push_view crates salt name (unit_view document name) (views_of document names)
      (contains-unit_digests crates document salt name names fresh)
      (IsUnique-unit_digests crates document salt names h)

module _ (crates : Digests) (reliable : Reliable crates) where
  part_nonzero : (entry : Option DotenvLayout) → contains (part crates.entry_json entry) 0 ≡ false
  unfolding contains
  part_nonzero none = refl
  part_nonzero (some entry) = reliable.entry_nonzero entry

  pub unit_bytes_injective :
      (a b : UnitView) → unit_bytes crates a ≡ unit_bytes crates b → SameView crates a b
  unfolding unit_bytes
  unit_bytes_injective a b h =
      let (nodes, rest) =
        cancel_zero (crates.node_json a.node) (crates.node_json b.node)
          (part crates.entry_json a.entry ++ (0 ∷ part crates.layout_json a.layout))
          (part crates.entry_json b.entry ++ (0 ∷ part crates.layout_json b.layout))
          (reliable.node_nonzero a.node) (reliable.node_nonzero b.node) h in
      let (parts, layouts) =
        cancel_zero (part crates.entry_json a.entry) (part crates.entry_json b.entry)
          (part crates.layout_json a.layout) (part crates.layout_json b.layout)
          (part_nonzero a.entry) (part_nonzero b.entry) rest in
      (nodes, parts, layouts)

  hash_injective :
      (xs ys : List ℕ)
      → crates.hex_encode (crates.sha256 xs) ≡ crates.hex_encode (crates.sha256 ys)
      → crates.sha256 xs ≡ crates.sha256 ys
  hash_injective xs ys h = ground (
    arith,
    h,
    reliable.hex_round_trip (crates.sha256 xs) (reliable.hash_bytes xs),
    reliable.hex_round_trip (crates.sha256 ys) (reliable.hash_bytes ys),
  )

-- The recorded digest of a key is the one of its view.
get-capture :
    (crates : Digests) (document : SourceDocument) (cipher : CipherSummary) (salt : List ℕ)
    (key : Str)
    → IsUnique (unit_keys document)
    → get key (capture crates document cipher salt).keys ≡ (
        if contains (unit_keys document) key
        then digest_view crates salt key (unit_view document key)
        else none)
unfolding capture units_of
get-capture crates document cipher salt key unique =
    get-collect_sorted key (unit_digests crates salt (views_of document (unit_keys document)))
      (IsUnique-unit_digests crates document salt (unit_keys document) unique)
    ∙ get-unit_digests crates document salt key (unit_keys document)

digest_view-some :
    (crates : Digests) (salt : List ℕ) (key recorded : Str) (b : Bool) (view : Option UnitView)
    → (if b then digest_view crates salt key view else none) ≡ some recorded
    → (original : UnitView) × (view ≡ some original)
      × (digest crates key_domain salt (crates.as_bytes key) (unit_bytes crates original)
          ≡ recorded)
digest_view-some crates salt key recorded true none h = cc
digest_view-some crates salt key recorded true (some view) h = (view, refl, cc)
digest_view-some crates salt key recorded false view h = cc

pub salt_bytes-capture :
    (crates : Digests)
    → Reliable crates
    → (document : SourceDocument) (cipher : CipherSummary) (salt : List ℕ) → AreBytes salt
    → salt_bytes crates (capture crates document cipher salt) ≡ salt
unfolding salt_bytes capture
salt_bytes-capture crates reliable document cipher salt bytes =
    rw (salt_bytes, reliable.hex_round_trip salt bytes) refl

has_digest-eq :
    (crates : Digests) (salt : List ℕ) (recorded key : Str) (view : UnitView)
    → has_digest crates salt recorded key (some view) ≡ true
    → digest crates key_domain salt (crates.as_bytes key) (unit_bytes crates view) ≡ recorded
unfolding has_digest
has_digest-eq crates salt recorded key view h =
    (eq_iff (digest crates key_domain salt (crates.as_bytes key) (unit_bytes crates view))
        recorded).0
      h

unit_matches-some :
    (crates : Digests) (baseline : BaselineRecord) (key : Str) (view : Option UnitView)
    → unit_matches crates baseline key view ≡ some true
    → (recorded : Str) × (get key baseline.keys ≡ some recorded)
      × (has_digest crates (salt_bytes crates baseline) recorded key view ≡ true)
unfolding unit_matches
unit_matches-some crates baseline key view h = elim (Option-cases (get key baseline.keys)) [
  | inl absent ↦ absurd (ground (arith, (rw (unit_matches, absent) at h)))
  | inr (recorded, present) ↦ (recorded, present, ground (arith, (rw (unit_matches, present) at h)))
]

-- What a document hashes for a key fits in memory.
abbrev pub FitsMemory : Digests → SourceDocument → Str → Type 0
FitsMemory crates document key =
    (view : UnitView) → unit_view document key ≡ some view → IsSized (unit_bytes crates view)

-- With reliable crates, a document whose unit names are distinct and a salt of bytes (all the
-- hashed fields shorter than 2 ^ 64), a unit that matches the record captured from the document
-- is the document's own: it has the JSON of the view of that key, or exhibits two inputs with the
-- same SHA-256.
pub unit_matches-capture :
    (crates : Digests)
    → Reliable crates
    → (document : SourceDocument) (cipher : CipherSummary) (salt : List ℕ) (key : Str)
      (view : UnitView)
    → IsUnique (unit_keys document)
    → AreBytes salt
    → IsSized salt
    → IsSized (crates.as_bytes key)
    → IsSized (unit_bytes crates view)
    → FitsMemory crates document key
    → unit_matches crates (capture crates document cipher salt) key (some view) ≡ some true
    → ((original : UnitView) × (unit_view document key ≡ some original)
        × SameView crates original view)
      ⊎ Collision crates
unit_matches-capture crates reliable document cipher salt key view unique bytes s k v fits h =
    let (recorded, present, matching) =
      unit_matches-some crates (capture crates document cipher salt) key (some view) h in
    let (original, found, digested) =
      digest_view-some crates salt key recorded (contains (unit_keys document) key)
        (unit_view document key)
        (sym (get-capture crates document cipher salt key unique) ∙ present) in
    let same_digest : digest crates key_domain salt (crates.as_bytes key)
          (unit_bytes crates original)
        ≡ digest crates key_domain salt (crates.as_bytes key) (unit_bytes crates view) =
      digested
      ∙ sym (
          has_digest-eq crates salt recorded key view (
            subst (λ bytes. has_digest crates bytes recorded key (some view) ≡ true)
              (salt_bytes-capture crates reliable document cipher salt bytes) matching)) in
    elim (digest_injective crates (hash_injective crates reliable) key_domain salt
      (crates.as_bytes key) (unit_bytes crates original) salt (crates.as_bytes key)
      (unit_bytes crates view) s s k k (fits original found) v same_digest) [
        | inl (_, _, same) ↦
            inl (original, found, unit_bytes_injective crates reliable original view same)
        | inr collision ↦ inr collision
      ]
