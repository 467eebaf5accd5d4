-- ===== src/Base/Within.antt =====
-- Lists whose elements are all in another list.
use Prim.Native.Nat.{suc, ◌≤◌}
use mathlib.Core.Path.{◌≡◌}
use mathlib.Core.Logic.{inl, inr}
use mathlib.Core.Bool.{true, false}
use mathlib.Core.List.{List, [], ◌∷◌}
use native.Mathlib.Omega.{arith}
use gitveil.Base.Tests.{if◌then◌else◌, Bool-cases}
use gitveil.Base.Equality.{Eq, ◌==◌, eq_iff}
use gitveil.Base.Lists.{length, contains, IsUnique}

-- A list without the first occurrence of an element.
module _ {ℓ} {A : Type ℓ} ⦃e : Eq A⦄ where
  unfoldable pub erase : A → List A → List A
  erase a [] = []
  erase a (x ∷ xs) = if x == a then xs else x ∷ erase a xs

  length-erase :
      (a : A) (xs : List A) → contains xs a ≡ true → suc (length (erase a xs)) ≡ length xs
  unfolding erase contains
  length-erase a [] h = cc
  length-erase a (x ∷ xs) h = ground (arith, length-erase a xs)

  contains-erase :
      (a b : A) (xs : List A)
      → (a == b) ≡ false
      → contains xs b ≡ true
      → contains (erase a xs) b ≡ true
  unfolding erase contains
  contains-erase a b [] other h = cc
  contains-erase a b (x ∷ xs) other h =
      ground (arith, contains-erase a b xs other, e.decides x a, e.decides x b, e.decides a b)

  abbrev pub IsWithin : List A → List A → Type ℓ
  IsWithin xs ys = (a : A) → contains xs a ≡ true → contains ys a ≡ true

  -- Distinct elements of a list are at most as many as its elements.
  pub length-IsWithin : (xs ys : List A) → IsUnique xs → IsWithin xs ys → length xs ≤ length ys
  unfolding contains
  length-IsWithin [] ys unique within = omega arith
  length-IsWithin (x ∷ xs) ys unique within = omega (
    arith,
    length-erase x ys (within x (ground (arith, e.decides x x))),
    length-IsWithin xs (erase x ys) unique.1
        (λ a h. contains-erase x a ys (apart a h) (within a (ground arith))),
  )
    where
      apart : (a : A) → contains xs a ≡ true → (x == a) ≡ false
      apart a h = elim (Bool-cases (x == a)) [
        | inr no_match ↦ no_match
        | inl same ↦ absurd (ground (arith, unique.0, (eq_iff x a).0 same))
      ]

  -- As many distinct elements as a list has are all of its elements.
  pub IsWithin-length_eq :
      (xs ys : List A) → IsUnique xs → IsWithin xs ys → length xs ≡ length ys → IsWithin ys xs
  IsWithin-length_eq xs ys unique within same a h = elim (Bool-cases (contains xs a)) [
    | inl present ↦ present
    | inr absent ↦ absurd (
        omega (
          arith,
          length-erase a ys h,
          length-IsWithin xs (erase a ys) unique
              (λ b found. contains-erase a b ys (apart b found absent) (within b found)),
        ))
  ]
    where
      apart : (b : A) → contains xs b ≡ true → contains xs a ≡ false → (a == b) ≡ false
      apart b found absent = elim (Bool-cases (a == b)) [
        | inr no_match ↦ no_match
        | inl match ↦ absurd (ground (arith, found, absent, (eq_iff a b).0 match))
      ]
