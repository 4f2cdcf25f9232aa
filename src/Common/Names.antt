-- ===== src/Common/Names.antt =====
-- Text as its bytes, compared as Rust's `str::cmp` does: byte by byte, a proper prefix first.
use Prim.Native.Nat.{ℕ, compare, Ordering, lt, eq, gt}
use mathlib.Core.Path.{◌≡◌, refl}
use mathlib.Core.List.{List, [], ◌∷◌}
use mathlib.Core.Logic.{◌⊎◌, inl, inr}
use native.Mathlib.Omega.{arith}

abbrev pub Name : Type 0
Name = List ℕ

unfoldable pub name_cmp : Name → Name → Ordering
name_cmp [] [] = eq
name_cmp [] (b ∷ bs) = lt
name_cmp (a ∷ as') [] = gt
name_cmp (a ∷ as') (b ∷ bs) =
    let rest = name_cmp as' bs in elim (compare a b) [ lt ↦ lt | eq ↦ rest | gt ↦ gt ]

pub Ordering-cases : (o : Ordering) → (o ≡ lt) ⊎ ((o ≡ eq) ⊎ (o ≡ gt))
Ordering-cases lt = inl refl
Ordering-cases eq = inr (inl refl)
Ordering-cases gt = inr (inr refl)

pub name_cmp_self : (a : Name) → name_cmp a a ≡ eq
unfolding name_cmp
name_cmp_self [] = refl
name_cmp_self (x ∷ a) = ground (arith, name_cmp_self a)

pub name_cmp-eq : (a b : Name) → name_cmp a b ≡ eq → a ≡ b
unfolding name_cmp
name_cmp-eq [] [] h = refl
name_cmp-eq [] (y ∷ b) h = cc
name_cmp-eq (x ∷ a) [] h = cc
name_cmp-eq (x ∷ a) (y ∷ b) h = ground (arith, name_cmp-eq a b)

-- The other order gives the opposite answer.
unfoldable pub flip : Ordering → Ordering
flip lt = gt
flip eq = eq
flip gt = lt

pub name_cmp-flip : (a b : Name) → name_cmp b a ≡ flip (name_cmp a b)
unfolding name_cmp flip
name_cmp-flip [] [] = refl
name_cmp-flip [] (y ∷ b) = refl
name_cmp-flip (x ∷ a) [] = refl
name_cmp-flip (x ∷ a) (y ∷ b) = ground (arith, name_cmp-flip a b)

pub name_cmp-gt_of_lt : (a b : Name) → name_cmp a b ≡ lt → name_cmp b a ≡ gt
unfolding flip
name_cmp-gt_of_lt a b h = ground (arith, name_cmp-flip a b)

pub name_cmp-lt_of_gt : (a b : Name) → name_cmp a b ≡ gt → name_cmp b a ≡ lt
unfolding flip
name_cmp-lt_of_gt a b h = ground (arith, name_cmp-flip a b)

pub name_cmp_trans : (a b c : Name) → name_cmp a b ≡ lt → name_cmp b c ≡ lt → name_cmp a c ≡ lt
unfolding name_cmp
name_cmp_trans [] [] c h k = cc
name_cmp_trans [] (y ∷ b) [] h k = cc
name_cmp_trans [] (y ∷ b) (z ∷ c) h k = refl
name_cmp_trans (x ∷ a) [] c h k = cc
name_cmp_trans (x ∷ a) (y ∷ b) [] h k = cc
name_cmp_trans (x ∷ a) (y ∷ b) (z ∷ c) h k = ground (arith, name_cmp_trans a b c)

pub name_cmp_trans_gt : (a b c : Name) → name_cmp a b ≡ gt → name_cmp b c ≡ gt → name_cmp a c ≡ gt
name_cmp_trans_gt a b c h k =
    name_cmp-gt_of_lt c a (name_cmp_trans c b a (name_cmp-lt_of_gt b c k) (name_cmp-lt_of_gt a b h))
