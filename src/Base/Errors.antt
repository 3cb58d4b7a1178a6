-- ===== src/Base/Errors.antt =====
-- Code that may call `frappe.throw`. A request is one database transaction, and an error rolls all
-- of it back, so an error carries no state.
use mathlib.Core.Logic.{◌⊎◌, inl, inr}
use mathlib.Core.Path.{◌≡◌, refl}
use mathlib.Core.Bool.{Bool, true, false}

-- What the code returns, or what it throws.
pub data Result {ℓ} (E : Type 0) (A : Type ℓ) : Type ℓ where
  err : E → Result E A
  ok : A → Result E A

-- A call and the code after it, which sees the call's result.
infixl 5 ◌>>=◌
abbrev pub ◌>>=◌ {ℓ κ} :
    {E : Type 0} {A : Type ℓ} {B : Type κ} (call : Result E A) (after : A → Result E B) → Result E B
err thrown >>= after = err thrown
ok value >>= after = after value

-- A check and the code after it.
infixl 5 ◌>>◌
abbrev pub ◌>>◌ {κ} :
    {E : Type 0} {B : Type κ} (check : Result E (Unit {0})) (after : Result E B) → Result E B
err thrown >> after = err thrown
ok passed >> after = after

-- `if test: frappe.throw(e)`
abbrev pub throw_if : {E : Type 0} → Bool → E → Result E (Unit {0})
throw_if true e = err e
throw_if false e = ok tt

-- A chain that goes through: its first call returned a value, and the code after it went through on
-- that value.
pub >>=-eq-ok {ℓ κ} :
    {E : Type 0} {A : Type ℓ} {B : Type κ} (call : Result E A) (after : A → Result E B) {b : B}
    → (call >>= after) ≡ ok b
    → (value : A) × (call ≡ ok value) × (after value ≡ ok b)
>>=-eq-ok (err thrown) after goes = cc
>>=-eq-ok (ok value) after goes = (value, refl, goes)

pub throw_if-eq-ok {ℓ} :
    {E : Type 0} {B : Type ℓ} (t : Bool) (e : E) (r : Result E B) {b : B}
    → (throw_if t e >> r) ≡ ok b
    → (t ≡ false) × (r ≡ ok b)
throw_if-eq-ok true e r h = cc
throw_if-eq-ok false e r h = (refl, h)

pub >>-eq-ok {ℓ} :
    {E : Type 0} {B : Type ℓ} (check : Result E (Unit {0})) (after : Result E B) {b : B}
    → (check >> after) ≡ ok b
    → (check ≡ ok tt) × (after ≡ ok b)
>>-eq-ok (err e) after h = cc h
>>-eq-ok (ok tt) after h = (refl, h)

pub Result-cases {ℓ} :
    {E : Type 0} {A : Type ℓ} (r : Result E A) → ((e : E) × (r ≡ err e)) ⊎ ((a : A) × (r ≡ ok a))
Result-cases (err e) = inl (e, refl)
Result-cases (ok a) = inr (a, refl)
