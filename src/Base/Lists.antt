-- ===== src/Base/Lists.antt =====
-- Lists as the source uses `Vec`: searches by a Boolean test, membership, and their laws.
use Prim.Native.Nat.{ℕ, zero, suc, ◌+◌, ◌≤◌}
use mathlib.Core.Path.{◌≡◌, refl, ap}
use mathlib.Core.Logic.{◌≢◌}
use mathlib.Core.Bool.{Bool, true, false, ◌&&◌, ◌||◌}
use mathlib.Core.Option.{Option, none, some}
use mathlib.Core.List.{List, [], ◌∷◌, ◌++◌, map}
use native.Mathlib.Omega.{arith}
use gitveil.Base.Tests.{if◌then◌else◌}
use gitveil.Base.Equality.{Eq, ◌==◌, list_eq, list_beq_iff}

module _ {ℓ} {A : Type ℓ} where
  abbrev pub length : List A → ℕ
  length [] = 0
  length (x ∷ xs) = suc (length xs)

  abbrev pub is_empty : List A → Bool
  is_empty [] = true
  is_empty (x ∷ xs) = false

  unfoldable pub any : (A → Bool) → List A → Bool
  any p [] = false
  any p (x ∷ xs) = p x || any p xs

  unfoldable pub all : (A → Bool) → List A → Bool
  all p [] = true
  all p (x ∷ xs) = p x && all p xs

  unfoldable pub filter : (A → Bool) → List A → List A
  filter p [] = []
  filter p (x ∷ xs) = let rest = filter p xs in if p x then x ∷ rest else rest

  unfoldable pub find? : (A → Bool) → List A → Option A
  find? p [] = none
  find? p (x ∷ xs) = if p x then some x else find? p xs

  unfoldable pub take : ℕ → List A → List A
  take zero xs = []
  take (suc n) [] = []
  take (suc n) (x ∷ xs) = x ∷ take n xs

  unfoldable pub drop : ℕ → List A → List A
  drop zero xs = xs
  drop (suc n) [] = []
  drop (suc n) (x ∷ xs) = drop n xs

  -- `pieces.concat()`
  abbrev pub concat : List (List A) → List A
  concat [] = []
  concat (xs ∷ rest) = xs ++ concat rest

  -- Every element satisfies `P`.
  abbrev pub All {κ} : (A → Type κ) → List A → Type κ
  All P [] = Unit
  All P (x ∷ xs) = P x × All P xs

  pub length-filter-le : (p : A → Bool) (xs : List A) → length (filter p xs) ≤ length xs
  unfolding filter
  length-filter-le p [] = omega arith
  length-filter-le p (x ∷ xs) = ground (arith, length-filter-le p xs)

  pub filter-eq_self : (p : A → Bool) (xs : List A) → all p xs ≡ true → filter p xs ≡ xs
  unfolding filter all
  filter-eq_self p [] h = refl
  filter-eq_self p (x ∷ xs) h = ground (arith, filter-eq_self p xs)

  pub all-of-filter-length :
      (p : A → Bool) (xs : List A) → length (filter p xs) ≡ length xs → all p xs ≡ true
  unfolding filter all
  all-of-filter-length p [] h = refl
  all-of-filter-length p (x ∷ xs) h =
      ground (arith, all-of-filter-length p xs, length-filter-le p xs)

  pub all-append : (p : A → Bool) (xs ys : List A) → all p (xs ++ ys) ≡ (all p xs && all p ys)
  unfolding all
  all-append p [] ys = refl
  all-append p (x ∷ xs) ys = ground (arith, all-append p xs ys)

  pub any-append : (p : A → Bool) (xs ys : List A) → any p (xs ++ ys) ≡ (any p xs || any p ys)
  unfolding any
  any-append p [] ys = refl
  any-append p (x ∷ xs) ys = ground (arith, any-append p xs ys)

module _ {ℓ} {A : Type ℓ} where
  pub filter-append :
      (p : A → Bool) (xs ys : List A) → filter p (xs ++ ys) ≡ filter p xs ++ filter p ys
  unfolding filter
  filter-append p [] ys = refl
  filter-append p (x ∷ xs) ys = ground (arith, filter-append p xs ys)

  pub length-append : (xs ys : List A) → length (xs ++ ys) ≡ length xs + length ys
  length-append [] ys = omega arith
  length-append (x ∷ xs) ys = omega (arith, length-append xs ys)

module _ {ℓ} {A : Type ℓ} ⦃e : Eq A⦄ where
  -- `xs.contains(&a)`
  unfoldable pub contains : List A → A → Bool
  contains [] a = false
  contains (x ∷ xs) a = x == a || contains xs a

  -- No element occurs twice.
  abbrev pub IsUnique : List A → Type 0
  IsUnique [] = Unit
  IsUnique (x ∷ xs) = (contains xs x ≡ false) × IsUnique xs

module _ {ℓ} {A : Type ℓ} ⦃e : Eq A⦄ where
  pub contains-append :
      (xs ys : List A) (a : A) → contains (xs ++ ys) a ≡ (contains xs a || contains ys a)
  unfolding contains
  contains-append [] ys a = refl
  contains-append (x ∷ xs) ys a = ground (arith, contains-append xs ys a)

  pub contains-filter :
      (p : A → Bool) (xs : List A) (a : A) → contains (filter p xs) a ≡ (contains xs a && p a)
  unfolding contains filter
  contains-filter p [] a = refl
  contains-filter p (x ∷ xs) a = ground (arith, contains-filter p xs a, e.decides x a)

  pub IsUnique-filter : (p : A → Bool) (xs : List A) → IsUnique xs → IsUnique (filter p xs)
  unfolding filter
  IsUnique-filter p [] h = h
  IsUnique-filter p (x ∷ xs) h = ground (arith, IsUnique-filter p xs, contains-filter p xs x)

  pub IsUnique-concat :
      (xs : List A) (a : A) → IsUnique xs → contains xs a ≡ false → IsUnique (xs ++ a ∷ [])
  unfolding contains
  IsUnique-concat [] a h n = (refl, tt)
  IsUnique-concat (x ∷ xs) a h n =
      ground
        (arith, IsUnique-concat xs a, contains-append xs (a ∷ []) x, e.decides x a, e.decides a x)

  pub eq-false_of_length : (xs ys : List A) → length xs ≢ length ys → (xs == ys) ≡ false
  eq-false_of_length xs ys h = ground (arith, list_beq_iff xs ys, λ (p : xs ≡ ys). h (ap length p))

pub length-map {ℓ κ} :
    {A : Type ℓ} {B : Type κ} (f : A → B) (xs : List A) → length (map f xs) ≡ length xs
length-map f [] = refl
length-map f (x ∷ xs) = ap suc (length-map f xs)
