-- ===== src/Open/Units.antt =====
-- src/open/plan.rs: what the two loops of `merge_documents` make of one key.
use gitveil.Base.{
  ℕ, suc, Bool, true, false, not, ◌&&◌, ◌≡◌, refl, sym, ◌∙◌, inl, inr, List, [], ◌∷◌, ◌==◌, arith,
  Option, none, some, if◌then◌else◌, Str, contains, IsUnique, is_some, get, contains_key,
  get-insert, get-shift_insert, contains_key-get, contains-keys, nat_eq, list_eq, option_eq, eq_iff,
  eq_refl, Bool-cases,
}
use gitveil.Source.Node.{Node, mapping, Fields, entries}
use gitveil.Source.Document.{SourceDocument}
use gitveil.Baseline.{Digests, UnitView, view_eq, view_at, unit_view}
use gitveil.Baseline.Record.{BaselineRecord}
use gitveil.Open.{
  Side, local_side, remote_side, Arbitration, take_remote, keep_local, conflict, arbitrate, Merged,
  Progress, settle_both, settle_local, settle_remote, local_step, local_loop, find_anchor,
  put_after, remote_step, remote_loop, mapping_keys, start, merge_units,
}

-- The value of a unit, one arbitration at a time.
abbrev pub both_value : UnitView → UnitView → Arbitration → Node × Side
both_value l r take_remote = (r.node, remote_side)
both_value l r _ = (l.node, local_side)

abbrev pub local_value : UnitView → Arbitration → Option (Node × Side)
local_value l take_remote = none
local_value l _ = some (l.node, local_side)

abbrev pub remote_value : UnitView → Arbitration → Option (Node × Side)
remote_value r take_remote = some (r.node, remote_side)
remote_value r _ = none

-- What becomes of a unit, by the views of the two sides: equal views and those that only one side
-- has need no choice between two values.
unfoldable pub outcome :
    Digests → Option BaselineRecord → Str → Option UnitView → Option UnitView → Option (Node × Side)
unfolding arbitrate
outcome crates baseline key (some l) (some r) =
    if l == r
    then some (l.node, local_side)
    else some (both_value l r (arbitrate crates baseline key (some l) (some r)))
outcome crates baseline key (some l) none =
    local_value l (arbitrate crates baseline key (some l) none)
outcome crates baseline key none (some r) =
    remote_value r (arbitrate crates baseline key none (some r))
outcome crates baseline key none none = none

abbrev or_value : Option (Node × Side) → Option (Node × Side) → Option (Node × Side)
or_value none other = other
or_value (some v) other = some v

get-settle_both :
    (key j : Str) (l r : UnitView) (a : Arbitration) (p : Progress)
    → get j (settle_both key l r a p).merged
      ≡ (if key == j then some (both_value l r a) else get j p.merged)
get-settle_both key j l r take_remote p = get-insert key j (r.node, remote_side) p.merged
get-settle_both key j l r keep_local p = get-insert key j (l.node, local_side) p.merged
get-settle_both key j l r conflict p = get-insert key j (l.node, local_side) p.merged

get-settle_local :
    (key j : Str) (l : UnitView) (a : Arbitration) (p : Progress)
    → get j (settle_local key l a p).merged
      ≡ (if key == j then or_value (local_value l a) (get j p.merged) else get j p.merged)
get-settle_local key j l take_remote p = ground arith
get-settle_local key j l keep_local p = get-insert key j (l.node, local_side) p.merged
get-settle_local key j l conflict p = get-insert key j (l.node, local_side) p.merged

-- The outcome of a key that the local side has.
abbrev local_outcome :
    Digests → Option BaselineRecord → Str → Option UnitView → Option UnitView → Option (Node × Side)
local_outcome crates baseline key none r = none
local_outcome crates baseline key (some l) r = outcome crates baseline key (some l) r

get-local_step :
    (crates : Digests) (baseline : Option BaselineRecord) (key j : Str) (l r : Option UnitView)
    (p : Progress)
    → get j (local_step crates baseline key l r p).merged ≡ (
        if key == j
        then or_value (local_outcome crates baseline key l r) (get j p.merged)
        else get j p.merged)
unfolding local_step outcome
get-local_step crates baseline key j (some l) (some r) p = elim (Bool-cases (l == r)) [
  | inl same ↦ rw same (get-insert key j (l.node, local_side) p.merged)
  | inr other ↦
      rw other (get-settle_both key j l r (arbitrate crates baseline key (some l) (some r)) p)
]
get-local_step crates baseline key j (some l) none p =
    get-settle_local key j l (arbitrate crates baseline key (some l) none) p
get-local_step crates baseline key j none r p = ground arith

or_value-again :
    (o v : Option (Node × Side)) (b : Bool)
    → (if b then or_value o (or_value o v) else or_value o v) ≡ or_value o v
or_value-again none v b = ground arith
or_value-again (some w) v b = ground arith

get-local_loop :
    (crates : Digests) (baseline : Option BaselineRecord) (local remote : SourceDocument)
    (names : List Str) (j : Str) (p : Progress)
    → get j (local_loop crates baseline local remote names p).merged ≡ (
        if contains names j
        then or_value
            (local_outcome crates baseline j (unit_view local j) (unit_view remote j))
            (get j p.merged)
        else get j p.merged)
unfolding local_loop contains
get-local_loop crates baseline local remote [] j p = refl
get-local_loop crates baseline local remote (key ∷ names) j p =
    let next = local_step crates baseline key (unit_view local key) (unit_view remote key) p in
    get-local_loop crates baseline local remote names j next
    ∙ rw (get-local_step crates baseline key j (unit_view local key) (unit_view remote key) p)
        (elim (Bool-cases (key == j)) [
          | inl same ↦
              let eq : key ≡ j = (eq_iff key j).0 same in
              rw (same, eq)
                (or_value-again
                  (local_outcome crates baseline j (unit_view local j) (unit_view remote j))
                  (get j p.merged) (contains names j))
          | inr other ↦ rw other refl
        ])

get-put_after :
    (a : Option ℕ) (key j : Str) (v : Node × Side) (m : Merged)
    → contains_key key m ≡ false
    → get j (put_after a key v m) ≡ (if key == j then some v else get j m)
get-put_after none key j v m h = get-insert key j v m
get-put_after (some anchor) key j v m h = get-shift_insert (suc anchor) key j v m h

get-settle_remote :
    (earlier : List Str) (key j : Str) (r : UnitView) (a : Arbitration) (p : Progress)
    → get key p.merged ≡ none
    → get j (settle_remote earlier key r a p).merged
      ≡ (if key == j then remote_value r a else get j p.merged)
get-settle_remote earlier key j r take_remote p h =
    get-put_after (find_anchor earlier p.merged) key j (r.node, remote_side) p.merged
      (rw (contains_key-get key p.merged, h) refl)
get-settle_remote earlier key j r keep_local p h = ground (arith, eq_iff key j)
get-settle_remote earlier key j r conflict p h = ground (arith, eq_iff key j)

get-remote_step :
    (crates : Digests) (baseline : Option BaselineRecord) (earlier : List Str) (key j : Str)
    (r : Option UnitView) (p : Progress)
    → get key p.merged ≡ none
    → get j (remote_step crates baseline earlier key r p).merged
      ≡ (if key == j then outcome crates baseline key none r else get j p.merged)
unfolding remote_step outcome
get-remote_step crates baseline earlier key j none p h = ground (arith, eq_iff key j)
get-remote_step crates baseline earlier key j (some r) p h =
    get-settle_remote earlier key j r (arbitrate crates baseline key none (some r)) p h

-- The keys still to come that the local side lacks are not merged yet.
abbrev AreFresh : List Str → List Str → Progress → Type 0
AreFresh local_keys names p =
    (key : Str)
    → contains names key ≡ true
    → contains local_keys key ≡ false
    → get key p.merged ≡ none

get-remote_loop :
    (crates : Digests) (baseline : Option BaselineRecord) (local_keys : List Str)
    (remote : SourceDocument) (earlier names : List Str) (j : Str) (p : Progress)
    → IsUnique names
    → AreFresh local_keys names p
    → get j (remote_loop crates baseline local_keys remote earlier names p).merged ≡ (
        if contains names j && not (contains local_keys j)
        then outcome crates baseline j none (unit_view remote j)
        else get j p.merged)
unfolding remote_loop contains
get-remote_loop crates baseline local_keys remote earlier [] j p unique fresh = refl
get-remote_loop crates baseline local_keys remote earlier (key ∷ names) j p (new, unique) fresh =
    elim (Bool-cases (contains local_keys key)) [
      | inl known ↦
          rw (remote_loop, known)
            (get-remote_loop crates baseline local_keys remote (key ∷ earlier) names j p unique
                (λ k h. fresh k (ground arith))
              ∙ elim (Bool-cases (key == j)) [
                | inl same ↦ rw (same, sym ((eq_iff key j).0 same), known, new) refl
                | inr other ↦ rw other refl
              ])
      | inr unknown ↦
          let next = remote_step crates baseline earlier key (unit_view remote key) p in
          let free : get key p.merged ≡ none = fresh key (ground (arith, eq_refl key)) unknown in
          let step : (k : Str)
              → get k next.merged ≡ (
                  if key == k
                  then outcome crates baseline key none (unit_view remote key)
                  else get k p.merged) =
            λ k. get-remote_step crates baseline earlier key k (unit_view remote key) p free in
          rw (remote_loop, unknown)
            (get-remote_loop crates baseline local_keys remote (key ∷ earlier) names j next unique
                (λ k h g. ground (arith, step k, fresh k, eq_iff key k))
              ∙ rw (step j) (elim (Bool-cases (key == j)) [
                | inl same ↦ rw (same, sym ((eq_iff key j).0 same), unknown, new) refl
                | inr other ↦ rw other refl
              ]))
    ]

is_some-view_at :
    (document : SourceDocument) (key : Str) (node : Option Node)
    → is_some node ≡ is_some (view_at document key node)
is_some-view_at document key none = refl
is_some-view_at document key (some node) = refl

contains-mapping_keys :
    (document : SourceDocument) (fs : Fields) (key : Str)
    → document.root ≡ mapping fs
    → contains (mapping_keys document) key ≡ is_some (unit_view document key)
unfolding mapping_keys unit_view
contains-mapping_keys document fs key e =
    rw (mapping_keys, unit_view, e)
      (contains-keys key (entries fs)
        ∙ contains_key-get key (entries fs)
        ∙ is_some-view_at document key (get key (entries fs)))

or_value-none : (o : Option (Node × Side)) → or_value o none ≡ o
or_value-none none = refl
or_value-none (some v) = refl

outcome-none :
    (crates : Digests) (baseline : Option BaselineRecord) (key : Str)
    → outcome crates baseline key none none ≡ none
unfolding outcome
outcome-none crates baseline key = refl

outcome-of :
    (crates : Digests) (baseline : Option BaselineRecord) (key : Str) (l r : Option UnitView)
    (has_local has_remote : Bool) (value : Option (Node × Side))
    → has_local ≡ is_some l
    → has_remote ≡ is_some r
    → value ≡ (if has_local then or_value (local_outcome crates baseline key l r) none else none)
    → (if has_remote && not has_local then outcome crates baseline key none r else value)
      ≡ outcome crates baseline key l r
outcome-of crates baseline key (some l) r a b value h g v =
    ground (arith, or_value-none (outcome crates baseline key (some l) r))
outcome-of crates baseline key none (some r) a b value h g v = ground arith
outcome-of crates baseline key none none a b value h g v =
    ground (arith, outcome-none crates baseline key)

-- Where both roots are mappings and the remote keys are distinct, the merge has for each key the
-- outcome of its two units, whatever the order of the keys.
pub get-merge_units :
    (crates : Digests) (baseline : Option BaselineRecord) (local remote : SourceDocument)
    (fs gs : Fields) (key : Str)
    → local.root ≡ mapping fs
    → remote.root ≡ mapping gs
    → IsUnique (mapping_keys remote)
    → get key (merge_units crates local remote baseline).merged
      ≡ outcome crates baseline key (unit_view local key) (unit_view remote key)
unfolding merge_units
get-merge_units crates baseline local remote fs gs key e f unique =
    let names = mapping_keys local in
    let after = local_loop crates baseline local remote names start in
    let first = λ (k : Str). get-local_loop crates baseline local remote names k start in
    let has_local = contains-mapping_keys local fs key e in
    let has_remote = contains-mapping_keys remote gs key f in
    let rest =
      get-remote_loop crates baseline names remote [] (mapping_keys remote) key after unique
        (λ k h g. first k ∙ rw g refl) in
    rest
    ∙ outcome-of crates baseline key (unit_view local key) (unit_view remote key)
        (contains names key) (contains (mapping_keys remote) key) (get key after.merged) has_local
        has_remote (first key)
