-- ===== src/Common/Result.antt =====
-- Rust's `Result`, with `?` as the bind of a do block.
use mathlib.Core.Path.{◌≡◌, refl}

pub data Result {ℓ κ} (A : Type ℓ) (E : Type κ) : Type (ℓ ⊔ κ) where
  ok : A → Result A E
  err : E → Result A E

infixl 1 ◌>>=◌
abbrev pub ◌>>=◌ {ℓ κ ε} :
    {A : Type ℓ} {B : Type κ} {E : Type ε} → Result A E → (A → Result B E) → Result B E
ok a >>= f = f a
err e >>= f = err e

-- The two steps of a chain that succeeded.
pub >>=-eq-ok {ℓ κ ε} :
    {A : Type ℓ} {B : Type κ} {E : Type ε} (first : Result A E) (then_do : A → Result B E)
    {given : B}
    → (first >>= then_do) ≡ ok given
    → (value : A) × (first ≡ ok value) × (then_do value ≡ ok given)
>>=-eq-ok (err e) then_do h = cc
>>=-eq-ok (ok value) then_do h = (value, refl, h)
