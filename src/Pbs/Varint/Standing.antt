-- ===== src/Pbs/Varint/Standing.antt =====
-- Cursors of pbs-client/src/catalog.rs that stand before known bytes, and reads that take a part of
-- them: the rules by which a chain of reads is followed.
use ailes.Common.{
  ℕ, ◌≤◌, ◌<◌, ◌≡◌, refl, sym, ap, ◌∙◌, List, [], ◌∷◌, ◌++◌, length, take, drop, length-append,
  length-drop, arith,
}
use ailes.Common.Int.{ℤ}
use ailes.Common.Machine.{word}
use ailes.Common.Result.{Result, ok, ◌>>=◌}
use ailes.Common.Slices.{drop-drop, drop-append, drop_all, take-append, take_all}
use ailes.Pbs.Varint.{
  encode_u64, encode_i64, DecodeError, Cursor, ahead, advance, byte, take_bytes, read_u64, read_i64,
}
use ailes.Pbs.Varint.Encoding.{IsI64}
use ailes.Pbs.Varint.RoundTrip.{read_u64-encode_u64, read_i64-encode_i64}

pub record At (bytes rest : List ℕ) (c : Cursor) : Type 0 where
  pub same : c.bytes ≡ bytes
  pub there : ahead c ≡ rest
  pub inside : c.position ≤ length bytes

-- A read that gives `a` and leaves the cursor before `rest`.
abbrev pub ReadsTo {ℓ} :
    {A : Type ℓ} → Result (A × Cursor) DecodeError → List ℕ → A → List ℕ → Type ℓ
ReadsTo r bytes a rest = (c : Cursor) × (r ≡ ok (a, c)) × At bytes rest c

pub advance-At :
    (bytes xs rest : List ℕ) (c : Cursor)
    → At bytes (xs ++ rest) c
    → At bytes rest (advance (length xs) c)
advance-At bytes xs rest c at = record {
  same = at.same;
  there =
      sym (drop-drop (length xs) c.position c.bytes)
      ∙ ap (drop (length xs)) at.there
      ∙ drop-append (length xs) xs rest (omega arith)
      ∙ ap (λ (ys : List ℕ). ys ++ rest) (drop_all (length xs) xs (omega arith));
  inside = omega (
    arith,
    at.inside,
    ap length at.same,
    ap length at.there,
    length-append xs rest,
    length-drop c.position c.bytes,
  );
}

pub byte-At :
    (bytes : List ℕ) (b : ℕ) (rest : List ℕ) (c : Cursor)
    → At bytes (b ∷ rest) c
    → ReadsTo (byte c) bytes b rest
unfolding byte
byte-At bytes b rest c at = (advance 1 c, rw at.there refl, advance-At bytes (b ∷ []) rest c at)

pub read_u64-At :
    (bytes : List ℕ) (v : ℕ) (rest : List ℕ) (c : Cursor)
    → v < word
    → At bytes (encode_u64 [] v ++ rest) c
    → ReadsTo (read_u64 c) bytes v rest
read_u64-At bytes v rest c h at =
    (_, read_u64-encode_u64 c v rest h at.there, advance-At bytes (encode_u64 [] v) rest c at)

pub read_i64-At :
    (bytes : List ℕ) (z : ℤ) (rest : List ℕ) (c : Cursor)
    → IsI64 z
    → At bytes (encode_i64 [] z ++ rest) c
    → ReadsTo (read_i64 c) bytes z rest
read_i64-At bytes z rest c h at =
    (_, read_i64-encode_i64 c z rest h at.there, advance-At bytes (encode_i64 [] z) rest c at)

pub take_bytes-At :
    (bytes xs rest : List ℕ) (c : Cursor)
    → length bytes < word
    → At bytes (xs ++ rest) c
    → ReadsTo (take_bytes c (length xs)) bytes xs rest
unfolding take_bytes
take_bytes-At bytes xs rest c h at =
    let next = advance-At bytes xs rest c at in
    (advance (length xs) c, ground (arith, taken, next.inside, ap length at.same), next)
  where
    taken : take (length xs) (ahead c) ≡ xs
    taken =
        ap (take (length xs)) at.there
        ∙ take-append (length xs) xs rest (omega arith)
        ∙ take_all (length xs) xs (omega arith)

pub >>=-ReadsTo {ℓ κ} :
    {A : Type ℓ} {B : Type κ} (m : Result (A × Cursor) DecodeError)
    (f : A × Cursor → Result (B × Cursor) DecodeError) (bytes : List ℕ) (a : A) (b : B)
    (rest rest' : List ℕ)
    → ReadsTo m bytes a rest
    → ((c : Cursor) → At bytes rest c → ReadsTo (f (a, c)) bytes b rest')
    → ReadsTo (m >>= f) bytes b rest'
>>=-ReadsTo m f bytes a b rest rest' (c, e, at) next = rw e (next c at)

pub At-rest :
    (bytes : List ℕ) {rest rest' : List ℕ} (c : Cursor)
    → rest ≡ rest'
    → At bytes rest c
    → At bytes rest' c
At-rest bytes c e at = record { same = at.same; there = at.there ∙ e; inside = at.inside }

-- What is ahead is no longer than all the bytes.
pub At-length : (bytes rest : List ℕ) (c : Cursor) → At bytes rest c → length rest ≤ length bytes
At-length bytes rest c at =
    omega (arith, ap length at.there, ap length at.same, length-drop c.position c.bytes)
