-- ===== src/Common/Dict.antt =====
-- A hash map as the function of its look-ups, over keys with an equality test.
use ailes.Common.Tests.{if◌then◌else◌, ◌==◌, ==_iff}
use Prim.Native.Nat.{ℕ}
use mathlib.Core.Path.{◌≡◌, refl}
use mathlib.Core.Logic.{◌↔◌}
use mathlib.Core.Bool.{Bool, true, false}
use mathlib.Core.Option.{Option, none, some}

pub record Key {ℓ} (K : Type ℓ) : Type ℓ where
  pub same : K → K → Bool
  pub same_iff : (a b : K) → (same a b ≡ true) ↔ (a ≡ b)

abbrev pub same {ℓ} : {K : Type ℓ} ⦃k : Key K⦄ → K → K → Bool
same ⦃k⦄ a b = k.same a b

instance abbrev pub ℕ_key : Key ℕ
ℕ_key = record { same = ◌==◌; same_iff = ==_iff }

abbrev pub Dict {ℓ κ} : Type ℓ → Type κ → Type (ℓ ⊔ κ)
Dict K V = K → Option V

abbrev pub keep {κ} : {V : Type κ} → (V → Bool) → Option V → Option V
keep p none = none
keep p (some v) = if p v then some v else none

module _ {ℓ κ} {K : Type ℓ} {V : Type κ} where
  abbrev pub empty : Dict K V
  empty key = none

  -- `retain` looks at the values alone here.
  abbrev pub retain : (V → Bool) → Dict K V → Dict K V
  retain p d key = keep p (d key)

  abbrev pub contains_key : Dict K V → K → Bool
  contains_key d key = elim (d key) [ none ↦ false | some v ↦ true ]

pub same_self {ℓ} : {K : Type ℓ} ⦃k : Key K⦄ (key : K) → same key key ≡ true
same_self ⦃k⦄ key = (k.same_iff key key).1 refl

module _ {ℓ κ} {K : Type ℓ} {V : Type κ} ⦃k : Key K⦄ where
  unfoldable pub put : K → Option V → Dict K V → Dict K V
  put key v d other = if same key other then v else d other

  abbrev pub insert : K → V → Dict K V → Dict K V
  insert key v d = put key (some v) d

  abbrev pub remove : K → Dict K V → Dict K V
  remove key d = put key none d

  pub put_at : (key : K) (v : Option V) (d : Dict K V) → put key v d key ≡ v
  unfolding put
  put_at key v d = rw (same_self key) refl

  pub put_off :
      (key other : K) (v : Option V) (d : Dict K V)
      → same key other ≡ false
      → put key v d other ≡ d other
  unfolding put
  put_off key other v d h = rw h refl
