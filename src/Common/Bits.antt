-- ===== src/Common/Bits.antt =====
-- Masks of a byte and shifts into a word, as arithmetic.
use ailes.Common.Tests.{◌==◌, if◌then◌else◌}
use Prim.Native.Nat.{
  ℕ, zero, suc, ◌+◌, ◌*◌, ◌/◌, ◌%◌, ◌^◌, ◌≤◌, ◌<◌, ◌-◌, min, max, bit_and, bit_or, digits,
  bit_or-bitwise, bit_and-bitwise,
}
use mathlib.Core.Path.{◌≡◌, refl, ◌∙◌, ap, ap₂}
use mathlib.Core.Bool.{Bool, true, false}
use native.Mathlib.Nat.{pow-suc, one-le-pow}
use native.Mathlib.Omega.{arith}

module _ (f g : ℕ → ℕ) where
  agree_below : ℕ → Bool
  agree_below zero = true
  agree_below (suc n) = let rest = agree_below n in if f n == g n then rest else false

  agree_below→eq : (n : ℕ) → agree_below n ≡ true → (i : ℕ) → i < n → f i ≡ g i
  unfolding agree_below
  agree_below→eq zero e i h = absurd (omega arith)
  agree_below→eq (suc n) e i h = ground (arith, agree_below→eq n (ground arith) i)

pub top_bit : (b : ℕ) → b < 256 → bit_and b 128 ≡ b / 128 * 128
unfolding agree_below
top_bit = agree_below→eq _ _ 256 refl

pub sign_bit : (b : ℕ) → b < 256 → bit_and b 64 ≡ b / 64 % 2 * 64
unfolding agree_below
sign_bit = agree_below→eq _ _ 256 refl

pub set_top_bit : (b : ℕ) → b < 128 → bit_or 128 b ≡ 128 + b
unfolding agree_below
set_top_bit = agree_below→eq _ _ 128 refl

pub set_sign_bit : (b : ℕ) → b < 64 → bit_or 64 b ≡ 64 + b
unfolding agree_below
set_sign_bit = agree_below→eq _ _ 64 refl

pub two-pow-suc : (s : ℕ) → 2 ^ suc s ≡ 2 * 2 ^ s
two-pow-suc s = omega (arith, pow-suc 2 s)

digits-shift :
    (n a c s : ℕ) → a ≤ n → a < 2 ^ s → digits (λ b. b) max n a (c * 2 ^ s) ≡ a + c * 2 ^ s
digits-shift zero zero c s h k = omega arith
digits-shift zero (suc a) c s h k = absurd (omega arith)
digits-shift (suc n) zero c s h k = omega arith
digits-shift (suc n) (suc a) c zero h k = absurd (omega arith)
digits-shift (suc n) (suc a) c (suc s) h k = omega (
  arith,
  two-pow-suc s,
  ap (λ (t : ℕ). c * t) (two-pow-suc s),
  half,
  even,
  ap (λ (t : ℕ). digits (λ b. b) max n (suc a / 2) t) half,
  digits-shift n (suc a / 2) c s (omega arith) (omega (arith, two-pow-suc s)),
)
  where
    half : c * 2 ^ suc s / 2 ≡ c * 2 ^ s
    half = omega (arith, ap (λ (t : ℕ). c * t) (two-pow-suc s))

    even : c * 2 ^ suc s % 2 ≡ 0
    even = omega (arith, ap (λ (t : ℕ). c * t) (two-pow-suc s))

pub zero-bit_or : (b : ℕ) → bit_or 0 b ≡ b
zero-bit_or b = bit_or-bitwise 0 b

-- Where the shifted bits lie above the others, `|` adds.
pub bit_or-shift : (a c s : ℕ) → a < 2 ^ s → bit_or a (c * 2 ^ s) ≡ a + c * 2 ^ s
bit_or-shift a c s h = bit_or-bitwise a (c * 2 ^ s) ∙ digits-shift a a c s (omega arith) h

-- The common bits of two numbers, on at most `n` bits.
abbrev common : ℕ → ℕ → ℕ → ℕ
common n a b = digits (λ _. 0) min n a b

common-left_zero : (n b : ℕ) → common n 0 b ≡ 0
common-left_zero zero b = refl
common-left_zero (suc n) b = refl

common-right_zero : (n a : ℕ) → common n a 0 ≡ 0
common-right_zero zero a = refl
common-right_zero (suc n) zero = refl
common-right_zero (suc n) (suc a) = omega (arith, common-right_zero n (suc a / 2))

-- The bits of `a` below `s`, and the number that is left above them.
common-mask :
    (n a s : ℕ)
    → a ≤ n
    → (q : ℕ) × (a ≡ q * 2 ^ s + common n a (2 ^ s - 1)) × (common n a (2 ^ s - 1) < 2 ^ s)
common-mask n zero s h =
    let e = common-left_zero n (2 ^ s - 1) in
    (0, omega (arith, e), omega (arith, e, one-le-pow s 2 (omega arith)))
common-mask zero (suc a) s h = absurd (omega arith)
common-mask (suc n) (suc a) zero h =
    let e = common-right_zero (suc n) (suc a) in (suc a, omega (arith, e), omega (arith, e))
common-mask (suc n) (suc a) (suc s) h =
    let (q, whole, below) = common-mask n (suc a / 2) s (omega arith) in
    (
      q,
      omega (arith, whole, step, twice, ap (λ (t : ℕ). q * t) twice),
      omega (arith, below, step, twice),
    )
  where
    twice : 2 ^ suc s ≡ 2 * 2 ^ s
    twice = two-pow-suc s

    half : (2 ^ suc s - 1) / 2 ≡ 2 ^ s - 1
    half = omega (arith, twice)

    step :
        common (suc n) (suc a) (2 ^ suc s - 1)
        ≡ common n (suc a / 2) (2 ^ s - 1) * 2 + min (suc a % 2) 1
    step =
        ap₂ (λ (t u : ℕ). common n (suc a / 2) t * 2 + min (suc a % 2) u) half
          (omega (arith, twice, one-le-pow s 2 (omega arith)))

mask :
    (a s : ℕ) → (q : ℕ) × (a ≡ q * 2 ^ s + bit_and a (2 ^ s - 1)) × (bit_and a (2 ^ s - 1) < 2 ^ s)
mask a s = rw bit_and-bitwise (common-mask a a s (omega arith))

pub low_seven : (a : ℕ) → bit_and a 127 ≡ a % 128
low_seven a = let (q, whole, below) = mask a 7 in omega (arith, whole, below)

pub low_six : (a : ℕ) → bit_and a 63 ≡ a % 64
low_six a = let (q, whole, below) = mask a 6 in omega (arith, whole, below)
