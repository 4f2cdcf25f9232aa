-- ===== src/Pbs/Catalog/Visited.antt =====
-- pbs-client/src/catalog.rs: the blocks that a walk has visited.
use ailes.Common.{ℕ, ◌≤◌, ◌<◌, ◌≡◌, ◌⊎◌, inl, inr, List, ◌∷◌, Bool, false, ◌==◌, arith}
use ailes.Common.Text.{any}

abbrev pub seen : ℕ → List ℕ → Bool
seen x visited = any (λ block. block == x) visited

-- No block from `lo` on and below `hi` was visited.
abbrev pub Fresh : ℕ → ℕ → List ℕ → Type 0
Fresh lo hi visited = (x : ℕ) → lo ≤ x → x < hi → seen x visited ≡ false

-- Blocks are visited only from `lo` on and below `hi`.
abbrev pub Within : ℕ → ℕ → List ℕ → List ℕ → Type 0
Within lo hi visited visited' =
    (x : ℕ) → (x < lo) ⊎ (hi ≤ x) → seen x visited ≡ false → seen x visited' ≡ false

-- A directory's own block, and those of the entries behind it, after those of its children.
pub Fresh-behind :
    {lo start next hi hi' : ℕ} (visited v1 : List ℕ)
    → lo ≤ start
    → start < next
    → hi' ≤ hi
    → Fresh lo hi visited
    → Within lo start (start ∷ visited) v1
    → Fresh next hi' v1
Fresh-behind visited v1 before own inside fresh within x from to =
    within x (inr (omega arith)) (ground (arith, fresh x))

pub Within-behind :
    {lo start next hi hi' : ℕ} (visited v1 v2 : List ℕ)
    → lo ≤ start
    → start < next
    → next ≤ hi'
    → hi' ≤ hi
    → Within lo start (start ∷ visited) v1
    → Within next hi' v1 v2
    → Within lo hi visited v2
Within-behind visited v1 v2 before own after inside within1 within2 x (inl o) h =
    within2 x (inl (omega arith)) (within1 x (inl o) (ground arith))
Within-behind visited v1 v2 before own after inside within1 within2 x (inr o) h =
    within2 x (inr (omega arith)) (within1 x (inr (omega arith)) (ground arith))
