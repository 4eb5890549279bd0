-- ===== src/Common/Results.antt =====
-- Code that throws: a result with the error that it throws.
use mathlib.Core.Path.{◌≡◌, refl}
use mathlib.Core.Bool.{Bool, true, false}
use kratos_harness.Common.Texts.{Text}

pub data Result {ℓ} (E : Type 0) (A : Type ℓ) : Type ℓ where
  ok : A → Result E A
  err : E → Result E A

infixl 5 ◌>>=◌ ◌>>◌
abbrev pub ◌>>=◌ {ℓ κ} :
    {E : Type 0} {A : Type ℓ} {B : Type κ} → Result E A → (A → Result E B) → Result E B
ok a >>= f = f a
err e >>= f = err e

abbrev pub ◌>>◌ {ℓ κ} :
    {E : Type 0} {A : Type ℓ} {B : Type κ} → Result E A → Result E B → Result E B
ok _ >> k = k
err e >> k = err e

-- `if (!b) throw e`
abbrev pub require : {E : Type 0} → Bool → E → Result E (Unit {0})
require true e = ok tt
require false e = err e

-- A chain that returns has returned at each link.
pub >>=-eq-ok {ℓ κ} :
    {E : Type 0} {A : Type ℓ} {B : Type κ} (first : Result E A) (rest : A → Result E B) {y : B}
    → (first >>= rest) ≡ ok y
    → (x : A) × (first ≡ ok x) × (rest x ≡ ok y)
>>=-eq-ok (ok x) rest returned = (x, refl, returned)
>>=-eq-ok (err e) rest returned = cc

-- `throw new Error(message)`
pub data Thrown : Type 0 where
  error : Text → Thrown

-- Code that throws nothing returns.
pub returns {ℓ} :
    {E : Type 0} {A : Type ℓ} (m : Result E A) → ((e : E) → m ≡ err e → ⊥) → (a : A) × (m ≡ ok a)
returns (ok a) h = (a, refl)
returns (err e) h = absurd (h e refl)

pub ok-injective {ℓ} :
    {E : Type 0} {A : Type ℓ} {a b : A} → ◌≡◌ {A = Result E A} (ok a) (ok b) → a ≡ b
ok-injective h = cc

-- The value of a result, with a default in place of an error.
abbrev pub value_or {ℓ} : {E : Type 0} {A : Type ℓ} → A → Result E A → A
value_or d (ok a) = a
value_or d (err e) = d

-- A chain whose rest is itself a chain.
pub >>=-assoc {ℓ κ μ} :
    {E : Type 0} {A : Type ℓ} {B : Type κ} {C : Type μ} (m : Result E A) {f : A → Result E C}
    (g : A → Result E B) (k : B → Result E C)
    → ((a : A) → f a ≡ (g a >>= k))
    → (m >>= f) ≡ ((m >>= g) >>= k)
>>=-assoc (ok a) g k h = h a
>>=-assoc (err e) g k h = refl
