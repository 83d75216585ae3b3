-- ===== src/Base/Result.antt =====
-- A call that returns or raises: the error is the exception that the source names.
use mathlib.Core.Path.{◌≡◌, refl, ap}
use mathlib.Core.Logic.{◌⊎◌, inl, inr}
use mathlib.Core.Bool.{Bool, true, false}

pub data Result {ℓ κ} (E : Type κ) (A : Type ℓ) : Type (ℓ ⊔ κ) where
  ok : A → Result E A
  err : E → Result E A

infixl 5 ◌>>=◌ ◌>>◌
abbrev pub ◌>>=◌ {ℓ κ μ} :
    {E : Type μ} {A : Type ℓ} {B : Type κ} → Result E A → (A → Result E B) → Result E B
err e >>= next = err e
ok value >>= next = next value

abbrev pub ◌>>◌ {ℓ μ} : {E : Type μ} {B : Type ℓ} → Result E (Unit {0}) → Result E B → Result E B
m >> k = m >>= λ _. k

-- `if c: raise e`
abbrev pub raise_if {μ} : {E : Type μ} → Bool → E → Result E (Unit {0})
raise_if true e = err e
raise_if false e = ok tt

-- What a bind returns, its second step has returned for a value of the first.
pub >>=-returns {ℓ κ μ} :
    {E : Type μ} {A : Type ℓ} {B : Type κ} (first : Result E A) (next : A → Result E B) {out : B}
    → (first >>= next) ≡ ok out
    → (mid : A) × (first ≡ ok mid) × (next mid ≡ ok out)
>>=-returns (err _) next returned = cc
>>=-returns (ok mid) next returned = (mid, refl, returned)

-- To split on a computed result and keep the equation.
pub Result-cases {ℓ κ} :
    {E : Type κ} {A : Type ℓ} (m : Result E A) → ((a : A) × (m ≡ ok a)) ⊎ ((e : E) × (m ≡ err e))
Result-cases (ok a) = inl (a, refl)
Result-cases (err e) = inr (e, refl)

-- A test that raised nothing did not hold.
pub raise_if-passed {μ} :
    {E : Type μ} (c : Bool) (e : E) {u : Unit {0}} → raise_if c e ≡ ok u → c ≡ false
raise_if-passed true e h = cc
raise_if-passed false e h = refl

abbrev value_or {ℓ κ} : {E : Type κ} {A : Type ℓ} → A → Result E A → A
value_or a (ok b) = b
value_or a (err e) = a

-- Two returns that are equal return the same value.
pub same_value {ℓ κ} :
    {E : Type κ} {A : Type ℓ} {a b : A} → ◌≡◌ {A = Result E A} (ok a) (ok b) → a ≡ b
same_value {a = a} h = ap (value_or a) h

abbrev pub is_ok {ℓ κ} : {E : Type κ} {A : Type ℓ} → Result E A → Bool
is_ok (ok a) = true
is_ok (err e) = false

-- The value of a call that returns.
abbrev pub returned {ℓ κ} :
    {E : Type κ} {A : Type ℓ} (m : Result E A) → is_ok m ≡ true → (a : A) × (m ≡ ok a)
returned (ok a) h = (a, refl)
returned (err e) h = cc
