-- ===== src/Pbs/Varint/RoundTrip.antt =====
-- What `Cursor::u64` and `Cursor::i64` of pbs-client/src/catalog.rs read back.
use ailes.Common.{
  ℕ, zero, suc, ◌+◌, ◌*◌, ◌/◌, ◌%◌, ◌^◌, ◌≤◌, ◌<◌, ◌≡◌, ap, ◌∙◌, List, [], ◌∷◌, ◌++◌, length, Bool,
  true, false, arith,
}
use ailes.Common.Bits.{low_seven, low_six, top_bit, sign_bit, bit_or-shift}
use ailes.Common.Int.{ℤ, pos, negsuc}
use ailes.Common.Machine.{word}
use ailes.Common.Result.{ok}
use ailes.Pbs.Varint.{
  encode_u64, encode_i64, Cursor, ahead, advance, add_bits, u64_loop, read_u64, i64_loop, read_i64,
}
use ailes.Pbs.Varint.Encoding.{groups, encode_u64-groups, encode_i64-groups, sign_of, IsI64}
use Prim.Native.Nat.{bit_or}
use native.Mathlib.Nat.{div-add-mod}
use native.Mathlib.Numerals.{towards_suc}

pow-seven : (n : ℕ) → 2 ^ (n + 7) ≡ 128 * 2 ^ n
pow-seven n = simp towards_suc (omega arith)

-- Seven bits at `n` and the others at `n + 7` make up the number at `n`.
join_groups : (v n : ℕ) → v % 128 * 2 ^ n + v / 128 * 2 ^ (n + 7) ≡ v * 2 ^ n
join_groups v n =
    let up = ap (λ (k : ℕ). v / 128 * k) (pow-seven n) in
    let parts = ap (λ (k : ℕ). k * 2 ^ n) (div-add-mod v 128) in omega (arith, up, parts)

add_bits-add :
    (value bits s : ℕ)
    → value < 2 ^ s
    → value + bits * 2 ^ s < word
    → add_bits value bits s ≡ value + bits * 2 ^ s
add_bits-add value bits s below fits =
    ap (bit_or value) {x = bits * 2 ^ s % word} (omega arith) ∙ bit_or-shift value bits s below

-- The values that a round carries on stay below the next shift.
group_below : (value g s : ℕ) → value < 2 ^ s → g < 128 → value + g * 2 ^ s < 2 ^ (s + 7)
group_below value g s below h = grind (arith, pow-seven s)

u64_last :
    (v value s : ℕ) (rest : List ℕ) (c : Cursor)
    → v < 128
    → s ≤ 63
    → value < 2 ^ s
    → value + v * 2 ^ s < word
    → u64_loop (v ∷ rest) c value s ≡ ok (value + v * 2 ^ s, advance 1 c)
unfolding u64_loop
u64_last v value s rest c hv hs below fits =
    ground (arith, low_seven v, top_bit v, add_bits-add value v s)

u64_inner :
    (g value s : ℕ) (rest : List ℕ) (c : Cursor)
    → g < 128
    → s ≤ 63
    → value < 2 ^ s
    → value + g * 2 ^ s < word
    → u64_loop ((g + 128) ∷ rest) c value s
      ≡ u64_loop rest (advance 1 c) (value + g * 2 ^ s) (s + 7)
unfolding u64_loop
u64_inner g value s rest c hg hs below fits =
    ground (arith, low_seven (g + 128), top_bit (g + 128), add_bits-add value g s)

-- `w` is what is still to be read, and counts from bit `s` on; `k` groups follow this one at most.
u64_loop-groups :
    (k w value s : ℕ) (rest : List ℕ) (c : Cursor)
    → w < 128 ^ suc k
    → s + 7 * k ≤ 63
    → value < 2 ^ s
    → value + w * 2 ^ s < word
    → u64_loop (groups 128 0 k w ++ rest) c value s
      ≡ ok (value + w * 2 ^ s, advance (length (groups 128 0 k w)) c)
unfolding groups
u64_loop-groups zero w value s rest c hw hs below fits = ground (arith, u64_last w value s rest c)
u64_loop-groups (suc k) w value s rest c hw hs below fits = ground (
  arith,
  u64_last w value s rest c,
  join_groups w s,
  group_below value (w % 128) s,
  u64_inner (w % 128) value s (groups 128 0 k (w / 128) ++ rest) c,
  u64_loop-groups k (w / 128) (value + w % 128 * 2 ^ s) (s + 7) rest (advance 1 c) (omega arith),
)

-- The integer that a sign and a magnitude stand for.
signed : Bool → ℕ → ℤ
signed false n = pos n
signed true n = negsuc n

i64_last :
    (negative : Bool) (v value s : ℕ) (rest : List ℕ) (c : Cursor)
    → v < 64
    → s ≤ 63
    → value < 2 ^ s
    → value + v * 2 ^ s < 9223372036854775808
    → i64_loop ((sign_of negative + v) ∷ rest) c value s
      ≡ ok (signed negative (value + v * 2 ^ s), advance 1 c)
unfolding i64_loop signed
i64_last true v value s rest c hv hs below fits =
    ground (arith, low_six (64 + v), top_bit (64 + v), sign_bit (64 + v), add_bits-add value v s)
i64_last false v value s rest c hv hs below fits =
    ground (arith, low_six (0 + v), top_bit (0 + v), sign_bit (0 + v), add_bits-add value v s)

i64_inner :
    (g value s : ℕ) (rest : List ℕ) (c : Cursor)
    → g < 128
    → s ≤ 63
    → value < 2 ^ s
    → value + g * 2 ^ s < word
    → i64_loop ((g + 128) ∷ rest) c value s
      ≡ i64_loop rest (advance 1 c) (value + g * 2 ^ s) (s + 7)
unfolding i64_loop
i64_inner g value s rest c hg hs below fits =
    ground (arith, low_seven (g + 128), top_bit (g + 128), add_bits-add value g s)

i64_loop-groups :
    (negative : Bool) (k w value s : ℕ) (rest : List ℕ) (c : Cursor)
    → w < 64 * 128 ^ k
    → s + 7 * k ≤ 63
    → value < 2 ^ s
    → value + w * 2 ^ s < 9223372036854775808
    → i64_loop (groups 64 (sign_of negative) k w ++ rest) c value s
      ≡ ok (
        signed negative (value + w * 2 ^ s),
        advance (length (groups 64 (sign_of negative) k w)) c,
      )
unfolding groups
i64_loop-groups negative zero w value s rest c hw hs below fits =
    ground (arith, i64_last negative w value s rest c)
i64_loop-groups negative (suc k) w value s rest c hw hs below fits = ground (
  arith,
  i64_last negative w value s rest c,
  join_groups w s,
  group_below value (w % 128) s,
  i64_inner (w % 128) value s (groups 64 (sign_of negative) k (w / 128) ++ rest) c,
  i64_loop-groups negative k (w / 128) (value + w % 128 * 2 ^ s) (s + 7) rest (advance 1 c)
      (omega arith),
)

-- A cursor that stands before the bytes that `encode_u64` wrote for a number reads that number, and
-- stands behind them then, whatever follows.
pub read_u64-encode_u64 :
    (c : Cursor) (value : ℕ) (rest : List ℕ)
    → value < word
    → ahead c ≡ encode_u64 [] value ++ rest
    → read_u64 c ≡ ok (value, advance (length (encode_u64 [] value)) c)
unfolding read_u64
read_u64-encode_u64 c value rest h e =
    rw (e, encode_u64-groups [] value h)
      (ground (arith, u64_loop-groups 9 value 0 0 rest c (omega arith)))

-- The same of `encode_i64`, for every `i64`, negative or not.
pub read_i64-encode_i64 :
    (c : Cursor) (value : ℤ) (rest : List ℕ)
    → IsI64 value
    → ahead c ≡ encode_i64 [] value ++ rest
    → read_i64 c ≡ ok (value, advance (length (encode_i64 [] value)) c)
unfolding read_i64 signed
read_i64-encode_i64 c (pos n) rest h e =
    rw (e, encode_i64-groups [] (pos n) h)
      (ground (arith, i64_loop-groups false 9 n 0 0 rest c (omega arith)))
read_i64-encode_i64 c (negsuc n) rest h e =
    rw (e, encode_i64-groups [] (negsuc n) h)
      (ground (arith, i64_loop-groups true 9 n 0 0 rest c (omega arith)))
