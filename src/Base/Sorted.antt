-- ===== src/Base/Sorted.antt =====
-- `BTreeMap<String, V>`: an association list in the order of the keys. Code points have the order
-- of their UTF-8 bytes.
use mathlib.Core.Path.{◌≡◌, refl, subst}
use mathlib.Core.Logic.{inl, inr}
use mathlib.Core.Bool.{Bool, true, false, ◌&&◌, ◌||◌}
use mathlib.Core.Option.{none, some}
use mathlib.Core.List.{[], ◌∷◌}
use native.Mathlib.Omega.{arith}
use gitveil.Base.Tests.{if◌then◌else◌, ltb, eqb, Bool-cases}
use gitveil.Base.Equality.{◌==◌, nat_eq, list_eq, list_beq, eq_iff}
use gitveil.Base.Text.{Str}
use gitveil.Base.Maps.{IndexMap, get, keys, contains-keys, contains_key-get}
use gitveil.Base.Lists.{IsUnique, all, contains}

unfoldable pub str_lt : Str → Str → Bool
str_lt [] [] = false
str_lt [] (d ∷ t) = true
str_lt (c ∷ s) [] = false
str_lt (c ∷ s) (d ∷ t) = ltb c d || eqb c d && str_lt s t

module _ {ℓ} {V : Type ℓ} where
  -- `map.insert(k, v)`
  unfoldable pub insert_sorted : Str → V → IndexMap Str V → IndexMap Str V
  unfolding str_lt
  insert_sorted k v [] = (k, v) ∷ []
  insert_sorted k v ((j, w) ∷ m) =
      let rest = insert_sorted k v m in
      if j == k then (k, v) ∷ m else if str_lt k j then (k, v) ∷ (j, w) ∷ m else (j, w) ∷ rest

  pub get-insert_sorted :
      (k j : Str) (v : V) (m : IndexMap Str V)
      → get j (insert_sorted k v m) ≡ (if k == j then some v else get j m)
  unfolding insert_sorted get
  get-insert_sorted k j v [] = refl
  get-insert_sorted k j v ((i, w) ∷ m) =
      ground (arith, eq_iff k j, eq_iff i k, eq_iff i j, get-insert_sorted k j v m)

  -- The entries put into a map one by one.
  unfoldable pub collect_onto : IndexMap Str V → IndexMap Str V → IndexMap Str V
  unfolding insert_sorted
  collect_onto m [] = m
  collect_onto m ((k, v) ∷ rest) = collect_onto (insert_sorted k v m) rest

  -- `entries.collect::<BTreeMap<_, _>>()`
  unfoldable pub collect_sorted : IndexMap Str V → IndexMap Str V
  unfolding collect_onto
  collect_sorted entries = collect_onto [] entries

  -- In a list of distinct keys, the value of a key is its entry.
  get-collect_onto :
      (j : Str) (m rest : IndexMap Str V)
      → IsUnique (keys rest)
      → get j (collect_onto m rest) ≡ (elim (get j rest) [ none ↦ get j m | some v ↦ some v ])
  unfolding collect_onto get keys
  get-collect_onto j m [] u = refl
  get-collect_onto j m ((k, v) ∷ rest) u = ground (
    arith,
    get-collect_onto j (insert_sorted k v m) rest,
    get-insert_sorted k j v m,
    contains-keys k rest,
    contains_key-get k rest,
    eq_iff k j,
  )

  pub get-collect_sorted :
      (j : Str) (entries : IndexMap Str V)
      → IsUnique (keys entries)
      → get j (collect_sorted entries) ≡ get j entries
  unfolding collect_sorted get
  get-collect_sorted j entries u = ground (arith, get-collect_onto j [] entries)

str_lt_irrefl : (s : Str) → str_lt s s ≡ false
unfolding str_lt
str_lt_irrefl [] = refl
str_lt_irrefl (c ∷ s) = ground (arith, str_lt_irrefl s)

str_lt_trans : (s t u : Str) → str_lt s t ≡ true → str_lt t u ≡ true → str_lt s u ≡ true
unfolding str_lt
str_lt_trans [] (d ∷ t) (e ∷ u) h g = refl
str_lt_trans (c ∷ s) (d ∷ t) (e ∷ u) h g = ground (arith, str_lt_trans s t u)
str_lt_trans s t u h g = ground arith

str_lt_total : (s t : Str) → (s == t) ≡ false → str_lt t s ≡ false → str_lt s t ≡ true
unfolding str_lt list_beq
str_lt_total (c ∷ s) (d ∷ t) h g = ground (arith, str_lt_total s t)
str_lt_total s t h g = ground arith

module _ {ℓ} {V : Type ℓ} where
  -- All keys of `m` come after `k`.
  abbrev IsAbove : Str → IndexMap Str V → Type 0
  IsAbove k m = all (λ j. str_lt k j) (keys m) ≡ true

  abbrev IsSorted : IndexMap Str V → Type 0
  IsSorted [] = Unit
  IsSorted ((k, v) ∷ m) = IsAbove k m × IsSorted m

  IsAbove-trans : (i k : Str) (m : IndexMap Str V) → str_lt i k ≡ true → IsAbove k m → IsAbove i m
  unfolding all keys
  IsAbove-trans i k [] h g = refl
  IsAbove-trans i k ((j, w) ∷ m) h g = ground (arith, IsAbove-trans i k m, str_lt_trans i k j)

  IsAbove-insert_sorted :
      (i k : Str) (v : V) (m : IndexMap Str V)
      → str_lt i k ≡ true
      → IsAbove i m
      → IsAbove i (insert_sorted k v m)
  unfolding all keys insert_sorted
  IsAbove-insert_sorted i k v [] h g = ground arith
  IsAbove-insert_sorted i k v ((j, w) ∷ m) h g =
      ground (arith, IsAbove-insert_sorted i k v m, eq_iff j k)

  insert_sorted-IsSorted :
      (k : Str) (v : V) (m : IndexMap Str V) → IsSorted m → IsSorted (insert_sorted k v m)
  unfolding insert_sorted all keys
  insert_sorted-IsSorted k v [] h = (refl, tt)
  insert_sorted-IsSorted k v ((j, w) ∷ m) (above, h) = elim (Bool-cases (j == k)) [
    | inl same ↦ rw same (subst (λ i. IsAbove i m) ((eq_iff j k).0 same) above, h)
    | inr other ↦ elim (Bool-cases (str_lt k j)) [
      | inl before ↦ rw (other, before) (ground (arith, IsAbove-trans k j m), (above, h))
      | inr after ↦
          rw (other, after)
            (
              IsAbove-insert_sorted j k v m (str_lt_total j k other after) above,
              insert_sorted-IsSorted k v m h,
            )
    ]
  ]

  IsAbove-fresh : (k : Str) (m : IndexMap Str V) → IsAbove k m → contains (keys m) k ≡ false
  unfolding all keys contains
  IsAbove-fresh k [] h = refl
  IsAbove-fresh k ((j, w) ∷ m) h = ground (arith, IsAbove-fresh k m, str_lt_irrefl k, eq_iff j k)

  IsSorted-IsUnique : (m : IndexMap Str V) → IsSorted m → IsUnique (keys m)
  unfolding keys
  IsSorted-IsUnique [] h = tt
  IsSorted-IsUnique ((k, v) ∷ m) (above, h) = (IsAbove-fresh k m above, IsSorted-IsUnique m h)

  collect_onto-IsSorted : (m rest : IndexMap Str V) → IsSorted m → IsSorted (collect_onto m rest)
  unfolding collect_onto
  collect_onto-IsSorted m [] h = h
  collect_onto-IsSorted m ((k, v) ∷ rest) h =
      collect_onto-IsSorted (insert_sorted k v m) rest (insert_sorted-IsSorted k v m h)

  pub collect_sorted-IsUnique :
      (entries : IndexMap Str V) → IsUnique (keys (collect_sorted entries))
  unfolding collect_sorted
  collect_sorted-IsUnique entries =
      IsSorted-IsUnique (collect_onto [] entries) (collect_onto-IsSorted [] entries tt)
