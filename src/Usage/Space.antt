-- ===== src/Usage/Space.antt =====
-- application/src/server/filesystem/usage.rs: `UsedSpace` and `SpaceDelta`. A `u64` is a number, and
-- its saturating operations are written out; an `i64` is an integer.
use ailes.Common.{ℕ, suc, ◌+◌, ◌-◌, ◌^◌, min, List, [], ◌∷◌}
use ailes.Common.Int.{ℤ, pos, negsuc}

abbrev pub u64_max : ℕ
u64_max = 2 ^ 64 - 1

abbrev pub saturating_add : ℕ → ℕ → ℕ
saturating_add a b = min (a + b) u64_max

-- `-` stops at 0.
abbrev pub saturating_sub : ℕ → ℕ → ℕ
saturating_sub a b = a - b

pub record UsedSpace : Type 0 where
  pub logical : ℕ
  pub physical : ℕ

-- `UsedSpace::default()`
abbrev pub no_space : UsedSpace
no_space = record { logical = 0; physical = 0 }

abbrev pub add_logical : ℕ → UsedSpace → UsedSpace
add_logical val s = record s { logical = saturating_add s.logical val }

abbrev pub sub_logical : ℕ → UsedSpace → UsedSpace
sub_logical val s = record s { logical = saturating_sub s.logical val }

abbrev pub add_physical : ℕ → UsedSpace → UsedSpace
add_physical val s = record s { physical = saturating_add s.physical val }

abbrev pub sub_physical : ℕ → UsedSpace → UsedSpace
sub_physical val s = record s { physical = saturating_sub s.physical val }

unfoldable pub apply_delta : UsedSpace → UsedSpace → UsedSpace → UsedSpace
apply_delta add sub s =
    sub_physical sub.physical
      (sub_logical sub.logical (add_physical add.physical (add_logical add.logical s)))

-- `impl Add for UsedSpace`
unfoldable pub add : UsedSpace → UsedSpace → UsedSpace
add a b = record {
  logical = saturating_add a.logical b.logical;
  physical = saturating_add a.physical b.physical;
}

-- `impl Sum for UsedSpace`
sum_from : UsedSpace → List UsedSpace → UsedSpace
sum_from acc [] = acc
sum_from acc (x ∷ xs) = sum_from (add acc x) xs

unfoldable pub sum : List UsedSpace → UsedSpace
unfolding sum_from add
sum = sum_from no_space

pub record SpaceDelta : Type 0 where
  pub logical : ℤ
  pub physical : ℤ

-- `impl From<i64> for SpaceDelta`
abbrev pub both : ℤ → SpaceDelta
both value = record { logical = value; physical = value }

abbrev pub only_logical : ℤ → SpaceDelta
only_logical value = record { logical = value; physical = pos 0 }

-- The two `if`s on the sign that each visited node runs.
abbrev pub change_logical : ℤ → UsedSpace → UsedSpace
change_logical (pos n) = add_logical n
change_logical (negsuc n) = sub_logical (suc n)

abbrev pub change_physical : ℤ → UsedSpace → UsedSpace
change_physical (pos n) = add_physical n
change_physical (negsuc n) = sub_physical (suc n)

unfoldable pub change : SpaceDelta → UsedSpace → UsedSpace
change delta s = change_physical delta.physical (change_logical delta.logical s)
