-- ===== src/Base/TextLaws.antt =====
-- Laws of the text operations under concatenation.
use Prim.Native.Nat.{ℕ}
use mathlib.Core.Path.{◌≡◌, refl}
use mathlib.Core.Logic.{◌≢◌}
use mathlib.Core.Bool.{false}
use mathlib.Core.List.{List, [], ◌∷◌, ◌++◌}
use native.Mathlib.Omega.{arith}
use gitveil.Base.Tests.{eqb}
use gitveil.Base.Lists.{any, is_empty}
use gitveil.Base.Text.{Str, starts_with, contains_str, split, push_first}

-- A one-character needle is found where some character is equal to it.
pub contains_str-one : (c : ℕ) (s : Str) → contains_str (c ∷ []) s ≡ any (eqb c) s
unfolding contains_str starts_with any
contains_str-one c [] = refl
contains_str-one c (d ∷ s) = ground (arith, contains_str-one c s)

pub starts_with-one :
    (c : ℕ) (s t : Str)
    → is_empty s ≡ false
    → starts_with (c ∷ []) (s ++ t) ≡ starts_with (c ∷ []) s
unfolding starts_with
starts_with-one c [] t h = cc
starts_with-one c (d ∷ s) t h = refl

-- A doubled separator cannot arise at the seam before a text that does not hold it.
pub contains_str-doubled :
    (c : ℕ) (s t : Str)
    → any (eqb c) t ≡ false
    → contains_str (c ∷ c ∷ []) (s ++ t) ≡ contains_str (c ∷ c ∷ []) s
unfolding contains_str starts_with any
contains_str-doubled c [] [] h = refl
contains_str-doubled c [] (d ∷ t) h = ground (arith, contains_str-doubled c [] t)
contains_str-doubled c (a ∷ []) [] h = ground arith
contains_str-doubled c (a ∷ []) (d ∷ t) h = ground (arith, contains_str-doubled c [] (d ∷ t))
contains_str-doubled c (a ∷ b ∷ s) t h = ground (arith, contains_str-doubled c (b ∷ s) t h)

-- Appends a text to the last piece.
abbrev pub append_last : List Str → Str → List Str
append_last [] t = []
append_last (piece ∷ []) t = (piece ++ t) ∷ []
append_last (piece ∷ next ∷ rest) t = piece ∷ append_last (next ∷ rest) t

append_last-push_first :
    (c : ℕ) (pieces : List Str) (t : Str)
    → pieces ≢ []
    → append_last (push_first c pieces) t ≡ push_first c (append_last pieces t)
append_last-push_first c [] t h = absurd (h refl)
append_last-push_first c (p ∷ []) t h = refl
append_last-push_first c (p ∷ q ∷ r) t h = refl

push_first-ne-nil : (c : ℕ) (pieces : List Str) → push_first c pieces ≢ []
push_first-ne-nil c [] e = cc
push_first-ne-nil c (p ∷ r) e = cc

pub split-ne-nil : (sep : ℕ) (s : Str) → split sep s ≢ []
unfolding split
split-ne-nil sep [] e = cc
split-ne-nil sep (c ∷ s) e = ground (arith, push_first-ne-nil c (split sep s))

append_last-cons :
    (p : Str) (pieces : List Str) (t : Str)
    → pieces ≢ []
    → append_last (p ∷ pieces) t ≡ p ∷ append_last pieces t
append_last-cons p [] t h = absurd (h refl)
append_last-cons p (q ∷ r) t h = refl

split-free : (sep : ℕ) (t : Str) → any (eqb sep) t ≡ false → split sep t ≡ t ∷ []
unfolding split any
split-free sep [] h = refl
split-free sep (c ∷ t) h = ground (arith, split-free sep t)

-- A text without separators goes to the last piece.
pub split-append :
    (sep : ℕ) (s t : Str)
    → any (eqb sep) t ≡ false
    → split sep (s ++ t) ≡ append_last (split sep s) t
unfolding split
split-append sep [] t h = split-free sep t h
split-append sep (c ∷ s) t h = ground (
  arith,
  split-append sep s t h,
  append_last-push_first c (split sep s) t (split-ne-nil sep s),
  append_last-cons [] (split sep s) t (split-ne-nil sep s),
)
