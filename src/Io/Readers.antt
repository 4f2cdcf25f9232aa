-- ===== src/Io/Readers.antt =====
-- What the readers of application/src/io are built around: `Read` and `AsyncRead` as functions of the
-- reader and the buffer's length, and what it means that a reader gives a run of bytes.
use ailes.Common.{
  ℕ, ◌+◌, ◌≤◌, min, List, [], ◌∷◌, ◌++◌, length, take, drop, ap₂, ◌≡◌, refl, arith, ltb,
  if◌then◌else◌, length-drop, ap, ◌∙◌,
}
use ailes.Common.Slices.{take-add}

-- What a read writes into its buffer; only an asynchronous one is `pending`.
pub data Outcome : Type 0 where
  got : List ℕ → Outcome
  failed pending : Outcome

abbrev pub Read : Type 0 → Type 0
Read T = T → ℕ → T × Outcome

-- A read of at most `n` bytes from what was `before`: at least one byte if one is there and asked
-- for, and `after` is what is left.
abbrev pub Yields : List ℕ → ℕ → List ℕ → Outcome → Type 0
Yields before n after o =
    (k : ℕ) × (o ≡ got (take k before))
    × (after ≡ drop k before)
    × (k ≤ n)
    × (k ≤ length before)
    × (min 1 (min n (length before)) ≤ k)

-- A reader of a run of bytes.
pub record IsStream {T : Type 0} (read : Read T) : Type 0 where
  pub rest : T → List ℕ
  pub yields : (t : T) (n : ℕ) → Yields (rest t) n (rest (read t n).0) (read t n).1

abbrev pub bytes_of : Outcome → List ℕ
bytes_of (got bytes) = bytes
bytes_of failed = []
bytes_of pending = []

-- What reads with buffers of these lengths give, one after the other.
abbrev pub read_all {ℓ} : {T : Type ℓ} → (T → ℕ → T × Outcome) → T → List ℕ → List ℕ
read_all read t [] = []
read_all read t (n ∷ ns) = let (t', o) = read t n in bytes_of o ++ read_all read t' ns

abbrev pub positives : List ℕ → ℕ
positives [] = 0
positives (n ∷ ns) = (if ltb 0 n then 1 else 0) + positives ns

-- A reader whose reads all yield gives a beginning of its run: all of it after as many reads as it
-- has bytes, with buffers that are not empty.
pub read_all-takes :
    {T : Type 0} (read : Read T) (IsValid : T → Type 0) (rest : T → List ℕ)
    → ((t : T) (n : ℕ)
        → IsValid t
        → Yields (rest t) n (rest (read t n).0) (read t n).1 × IsValid (read t n).0)
    → (ns : List ℕ) (t : T) → IsValid t
    → (k : ℕ) × (read_all read t ns ≡ take k (rest t)) × (min (length (rest t)) (positives ns) ≤ k)
read_all-takes read IsValid rest y [] t v = (0, refl, omega arith)
read_all-takes read IsValid rest y (n ∷ ns) t v =
    let ((k, o, after, most, there, least), v') = y t n v in
    let (m, more, enough) = read_all-takes read IsValid rest y ns (read t n).0 v' in
    (
      k + m,
      ap₂ ◌++◌ (ap bytes_of o) more
          ∙ ap (λ r. take k (rest t) ++ take m r) after
          ∙ take-add k m (rest t),
      ground (arith, after, length-drop k (rest t), enough, least),
    )
