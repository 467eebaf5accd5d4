-- ===== src/Base/Maps.antt =====
-- `indexmap::IndexMap` as an association list in insertion order: the operations that the source
-- calls, with the behaviour that their documentation states, and their laws.
use Prim.Native.Nat.{ℕ, zero, suc}
use mathlib.Core.Path.{◌≡◌, refl}
use mathlib.Core.Bool.{Bool, true, false, ◌&&◌, ◌||◌}
use mathlib.Core.Option.{Option, none, some}
use mathlib.Core.List.{List, [], ◌∷◌, ◌++◌}
use native.Mathlib.Omega.{arith}
use gitveil.Base.Tests.{if◌then◌else◌, is_some}
use gitveil.Base.Tests.{eqb_iff}
use gitveil.Base.Equality.{Eq, ◌==◌, option_eq, option_beq_iff, nat_eq}
use gitveil.Base.Lists.{contains, length}

abbrev pub IndexMap {ℓ κ} : Type ℓ → Type κ → Type (ℓ ⊔ κ)
IndexMap K V = List (K × V)

module _ {ℓ κ} {K : Type ℓ} {V : Type κ} where
  unfoldable pub keys : IndexMap K V → List K
  keys [] = []
  keys ((k, v) ∷ m) = k ∷ keys m

  -- An entry placed at a position; past the end it is appended.
  unfoldable pub insert_at : ℕ → K → V → IndexMap K V → IndexMap K V
  insert_at i k v [] = (k, v) ∷ []
  insert_at zero k v (e ∷ m) = (k, v) ∷ e ∷ m
  insert_at (suc i) k v (e ∷ m) = e ∷ insert_at i k v m

module _ {ℓ κ} {K : Type ℓ} {V : Type κ} ⦃e : Eq K⦄ where
  unfoldable pub get : K → IndexMap K V → Option V
  get k [] = none
  get k ((j, v) ∷ m) = if j == k then some v else get k m

  unfoldable pub contains_key : K → IndexMap K V → Bool
  contains_key k [] = false
  contains_key k ((j, v) ∷ m) = j == k || contains_key k m

  -- Replaces the value in place, or appends the entry.
  unfoldable pub insert : K → V → IndexMap K V → IndexMap K V
  insert k v [] = (k, v) ∷ []
  insert k v ((j, w) ∷ m) = if j == k then (j, v) ∷ m else (j, w) ∷ insert k v m

  -- Removes the entry and keeps the order of the others.
  unfoldable pub shift_remove : K → IndexMap K V → IndexMap K V
  shift_remove k [] = []
  shift_remove k ((j, w) ∷ m) = if j == k then m else (j, w) ∷ shift_remove k m

  unfoldable pub get_index_of : K → IndexMap K V → Option ℕ
  get_index_of k [] = none
  get_index_of k ((j, w) ∷ m) =
      if j == k then some 0 else (elim (get_index_of k m) [ none ↦ none | some i ↦ some (suc i) ])

  -- Moves or inserts the entry at a position, shifting the entries behind it.
  unfoldable pub shift_insert : ℕ → K → V → IndexMap K V → IndexMap K V
  unfolding insert_at
  shift_insert i k v m = insert_at i k v (shift_remove k m)

module _ {ℓ κ} {K : Type ℓ} {V : Type κ} ⦃e : Eq K⦄ where
  pub contains-keys : (k : K) (m : IndexMap K V) → contains (keys m) k ≡ contains_key k m
  unfolding contains keys contains_key
  contains-keys k [] = refl
  contains-keys k ((j, v) ∷ m) = ground (arith, contains-keys k m)

  pub contains_key-get : (k : K) (m : IndexMap K V) → contains_key k m ≡ is_some (get k m)
  unfolding contains_key get
  contains_key-get k [] = refl
  contains_key-get k ((j, v) ∷ m) = ground (arith, contains_key-get k m)

  pub get-insert :
      (k j : K) (v : V) (m : IndexMap K V)
      → get j (insert k v m) ≡ (if k == j then some v else get j m)
  unfolding get insert
  get-insert k j v [] = refl
  get-insert k j v ((i, w) ∷ m) =
      ground (arith, e.decides k j, e.decides i k, e.decides i j, get-insert k j v m)

  pub contains_key-insert :
      (k j : K) (v : V) (m : IndexMap K V)
      → contains_key j (insert k v m) ≡ (k == j || contains_key j m)
  unfolding contains_key insert
  contains_key-insert k j v [] = refl
  contains_key-insert k j v ((i, w) ∷ m) =
      ground (arith, e.decides k j, e.decides i k, e.decides i j, contains_key-insert k j v m)

  pub insert-append :
      (k : K) (v : V) (m : IndexMap K V)
      → contains_key k m ≡ false
      → insert k v m ≡ m ++ (k, v) ∷ []
  unfolding contains_key insert
  insert-append k v [] h = refl
  insert-append k v ((j, w) ∷ m) h = ground (arith, insert-append k v m)

  pub keys-insert :
      (k : K) (v : V) (m : IndexMap K V)
      → keys (insert k v m) ≡ (if contains_key k m then keys m else keys m ++ k ∷ [])
  unfolding keys insert contains_key
  keys-insert k v [] = refl
  keys-insert k v ((j, w) ∷ m) = ground (arith, keys-insert k v m)

  pub shift_remove-absent :
      (k : K) (m : IndexMap K V) → contains_key k m ≡ false → shift_remove k m ≡ m
  unfolding contains_key shift_remove
  shift_remove-absent k [] h = refl
  shift_remove-absent k ((j, w) ∷ m) h = ground (arith, shift_remove-absent k m)

  pub get-insert_at :
      (i : ℕ) (k j : K) (v : V) (m : IndexMap K V)
      → contains_key k m ≡ false
      → get j (insert_at i k v m) ≡ (if k == j then some v else get j m)
  unfolding get insert_at contains_key
  get-insert_at i k j v [] h = refl
  get-insert_at zero k j v (x ∷ m) h = refl
  get-insert_at (suc i) k j v ((l, w) ∷ m) h =
      ground (arith, e.decides k j, e.decides l k, e.decides l j, get-insert_at i k j v m)

  -- Placing a new key anywhere reads like an insertion.
  pub get-shift_insert :
      (i : ℕ) (k j : K) (v : V) (m : IndexMap K V)
      → contains_key k m ≡ false
      → get j (shift_insert i k v m) ≡ (if k == j then some v else get j m)
  unfolding shift_insert
  get-shift_insert i k j v m h = rw (shift_remove-absent k m h) (get-insert_at i k j v m h)

-- `==` of two maps: as many entries, and each entry of the first is in the second, in any order.
module _ {ℓ κ} {K : Type ℓ} {V : Type κ} ⦃e : Eq K⦄ ⦃d : Eq V⦄ where
  unfoldable pub has_entries : IndexMap K V → IndexMap K V → Bool
  has_entries other [] = true
  has_entries other ((k, v) ∷ m) = get k other == some v && has_entries other m

  unfoldable pub same_map : IndexMap K V → IndexMap K V → Bool
  unfolding has_entries get
  same_map m other = length m == length other && has_entries other m

  has_entries-get :
      (other m : IndexMap K V) (k : K) (v : V)
      → has_entries other m ≡ true
      → get k m ≡ some v
      → get k other ≡ some v
  unfolding has_entries get
  has_entries-get other [] k v h found = cc
  has_entries-get other ((j, w) ∷ m) k v h found =
      ground
        (arith, e.decides j k, option_beq_iff (get j other) (some w), has_entries-get other m k v)

  pub same_map-length : (m other : IndexMap K V) → same_map m other ≡ true → length m ≡ length other
  unfolding same_map
  same_map-length m other h = ground (arith, eqb_iff (length m) (length other))

  pub same_map-get :
      (m other : IndexMap K V) (k : K) (v : V)
      → same_map m other ≡ true
      → get k m ≡ some v
      → get k other ≡ some v
  unfolding same_map
  same_map-get m other k v h found = ground (arith, has_entries-get other m k v)
