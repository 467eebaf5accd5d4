-- ===== src/Base/Results.antt =====
-- Rust's `Result` and the `?` operator.
use mathlib.Core.Path.{◌≡◌, refl}
use mathlib.Core.Logic.{◌⊎◌, inl, inr}
use mathlib.Core.Bool.{Bool, true, false, not}
use mathlib.Core.Option.{Option, none, some}

pub data Outcome {ℓ κ} (E : Type ℓ) (A : Type κ) : Type (ℓ ⊔ κ) where
  ok : A → Outcome E A
  err : E → Outcome E A

infixl 5 ◌>>=◌ ◌>>◌
abbrev pub ◌>>=◌ {ℓ κ μ} :
    {E : Type ℓ} {A : Type κ} {B : Type μ} → Outcome E A → (A → Outcome E B) → Outcome E B
ok a >>= f = f a
err e >>= f = err e

abbrev pub ◌>>◌ {ℓ κ} : {E : Type ℓ} {B : Type κ} → Outcome E (Unit {0}) → Outcome E B → Outcome E B
m >> k = m >>= λ _. k

-- `if bad { return Err(e) }`
abbrev pub fail_if {ℓ} : {E : Type ℓ} → Bool → E → Outcome E (Unit {0})
fail_if true e = err e
fail_if false e = ok tt

-- `o.ok_or(e)?`
abbrev pub ok_or {ℓ κ} : {E : Type ℓ} {A : Type κ} → Option A → E → Outcome E A
ok_or none e = err e
ok_or (some a) e = ok a

-- `r.map_err(f)`
abbrev pub map_err {ℓ κ μ} :
    {E : Type ℓ} {F : Type κ} {A : Type μ} → (E → F) → Outcome E A → Outcome F A
map_err f (ok a) = ok a
map_err f (err e) = err (f e)

abbrev pub is_ok {ℓ κ} : {E : Type ℓ} {A : Type κ} → Outcome E A → Bool
is_ok (ok a) = true
is_ok (err e) = false

pub >>=-eq-ok {ℓ κ μ} :
    {E : Type ℓ} {A : Type κ} {B : Type μ} {result : B} (m : Outcome E A) (rest : A → Outcome E B)
    → (m >>= rest) ≡ ok result
    → (value : A) × (m ≡ ok value) × (rest value ≡ ok result)
>>=-eq-ok (ok value) rest eq = (value, refl, eq)
>>=-eq-ok (err _) rest eq = cc

pub >>=-eq-err {ℓ κ μ} :
    {E : Type ℓ} {A : Type κ} {B : Type μ} (m : Outcome E A) (f : A → Outcome E B) {e : E}
    → (m >>= f) ≡ err e
    → (m ≡ err e) ⊎ ((a : A) × (m ≡ ok a) × (f a ≡ err e))
>>=-eq-err (ok a) f h = inr (a, refl, h)
>>=-eq-err (err _) f h = inl cc

pub fail_if-ok {ℓ} :
    {E : Type ℓ} (bad : Bool) (e : E) {u : Unit {0}} → fail_if bad e ≡ ok u → bad ≡ false
fail_if-ok true e h = cc
fail_if-ok false e h = refl

-- `if !good { return Err(e) }`
pub fail_if-not {ℓ} :
    {E : Type ℓ} (good : Bool) (e : E) {u : Unit {0}} → fail_if (not good) e ≡ ok u → good ≡ true
fail_if-not true e h = refl
fail_if-not false e h = cc

pub ok_or-ok {ℓ κ} :
    {E : Type ℓ} {A : Type κ} (o : Option A) (e : E) {a : A} → ok_or o e ≡ ok a → o ≡ some a
ok_or-ok none e h = cc
ok_or-ok (some b) e {a} h = cc

pub map_err-ok {ℓ κ μ} :
    {E : Type ℓ} {F : Type κ} {A : Type μ} (f : E → F) (m : Outcome E A) {a : A}
    → map_err f m ≡ ok a
    → m ≡ ok a
map_err-ok f (ok b) {a} h = cc
map_err-ok f (err e) h = cc

pub ok-eq {ℓ κ} : {E : Type ℓ} {A : Type κ} (a b : A) → ◌≡◌ {A = Outcome E A} (ok a) (ok b) → a ≡ b
ok-eq a b h = cc
