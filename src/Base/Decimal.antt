-- ===== src/Base/Decimal.antt =====
-- Numbers in decimal, as `to_string` writes them.
use Prim.Native.Nat.{ℕ, zero, suc, ◌+◌, ◌*◌, ◌/◌, ◌%◌, ◌-◌, ◌<◌}
use mathlib.Core.Path.{◌≡◌, refl, sym, ap, ◌∙◌}
use mathlib.Core.Bool.{false}
use mathlib.Core.List.{[], ◌∷◌, ◌++◌}
use mathlib.Core.Logic.{◌⊎◌, inl, inr}
use native.Mathlib.Omega.{arith}
use gitveil.Base.Tests.{if◌then◌else◌, ltb, eqb, Bool-cases}
use gitveil.Base.Lists.{any, any-append}
use gitveil.Base.Text.{Str}

-- The digits of `n`: each round takes the last one, so `n` rounds are enough.
unfoldable pub digits : ℕ → ℕ → Str
digits zero n = []
digits (suc fuel) n =
    let rest = digits fuel (n / 10) in
    if ltb n 10 then (48 + n) ∷ [] else rest ++ (48 + n % 10) ∷ []

unfoldable pub decimal : ℕ → Str
unfolding digits
decimal n = digits (suc n) n

-- The number that digits stand for, read after `acc`.
unfoldable pub read_digits : ℕ → Str → ℕ
read_digits acc [] = acc
read_digits acc (c ∷ s) = read_digits (acc * 10 + (c - 48)) s

read_digits-append :
    (acc : ℕ) (s t : Str) → read_digits acc (s ++ t) ≡ read_digits (read_digits acc s) t
unfolding read_digits
read_digits-append acc [] t = refl
read_digits-append acc (c ∷ s) t = read_digits-append (acc * 10 + (c - 48)) s t

read_digits-digits : (fuel n : ℕ) → n < fuel → read_digits 0 (digits fuel n) ≡ n
unfolding digits read_digits
read_digits-digits zero n h = absurd (omega (arith, h))
read_digits-digits (suc fuel) n h = elim (Bool-cases (ltb n 10)) [
  | inl small ↦ rw small (omega arith)
  | inr large ↦
      let ih : read_digits 0 (digits fuel (n / 10)) ≡ n / 10 =
        read_digits-digits fuel (n / 10) (ground arith) in
      rw (large, read_digits-append 0 (digits fuel (n / 10)) ((48 + n % 10) ∷ []), ih) (omega arith)
]

-- Different numbers have different digits.
pub decimal_injective : (m n : ℕ) → decimal m ≡ decimal n → m ≡ n
unfolding decimal
decimal_injective m n h =
    sym (read_digits-digits (suc m) m (omega arith))
    ∙ ap (read_digits 0) h
    ∙ read_digits-digits (suc n) n (omega arith)

free-digits : (c fuel n : ℕ) → (c < 48) ⊎ (57 < c) → any (eqb c) (digits fuel n) ≡ false
unfolding digits any
free-digits c zero n h = refl
free-digits c (suc fuel) n h = elim (Bool-cases (ltb n 10)) [
  | inl small ↦ rw small (ground arith)
  | inr large ↦
      rw (large, any-append (eqb c) (digits fuel (n / 10)) ((48 + n % 10) ∷ []))
        (rw (free-digits c fuel (n / 10) h) (ground arith))
]

-- A character that is no digit does not occur.
pub free-decimal : (c n : ℕ) → (c < 48) ⊎ (57 < c) → any (eqb c) (decimal n) ≡ false
unfolding decimal
free-decimal c n h = free-digits c (suc n) n h
