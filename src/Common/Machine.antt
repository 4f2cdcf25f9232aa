-- ===== src/Common/Machine.antt =====
-- Machine words, times and identifiers.
use Prim.Native.Nat.{ℕ}
use mathlib.Core.Option.{Option, none, some}

-- One more than the largest `usize` or `u64`.
abbrev pub word : ℕ
word = 18446744073709551616

-- A second in nanoseconds.
abbrev pub second : ℕ
second = 1000000000

-- The 128 bits of an identifier.
abbrev pub Uuid : Type 0
Uuid = ℕ

-- `or_default` of an entry, and `unwrap_or`.
abbrev pub or_default {ℓ} : {A : Type ℓ} → A → Option A → A
or_default d none = d
or_default d (some a) = a
