-- ===== src/Pbs/Varint.antt =====
-- pbs-client/src/catalog.rs: the numbers of a catalogue, and the cursor that reads them. Bytes and
-- `u64`s are native numbers; an `i64` is an integer.
pub mod Encoding
pub mod RoundTrip
pub mod Standing
use ailes.Common.{
  ℕ, zero, suc, ◌+◌, ◌-◌, ◌*◌, ◌/◌, ◌%◌, ◌^◌, ◌<◌, List, [], ◌∷◌, ◌++◌, length, take, drop, Bool,
  true, false, ltb, leb, ◌==◌, if◌then◌else◌, arith,
}
use ailes.Common.Int.{ℤ, pos, negsuc}
use ailes.Common.Loops.{lt_wf}
use ailes.Common.Machine.{word}
use ailes.Common.Result.{Result, ok, err, ◌>>=◌}
use Prim.Native.Nat.{bit_and, bit_or}
use mathlib.Core.Logic.{dite}
use mathlib.Core.WellFounded.{Acc}
use native.Mathlib.Decide.{dec_lt}

pub shift_shrinks : (value : ℕ) {last : ℕ} → ¬ (value < suc last) → value / 128 < value
shift_shrinks value h = omega arith

-- `value >>= 7` is `value / 128`, and `as u8` is `% 256`.
unfoldable pub encode_u64_loop : List ℕ → (value : ℕ) → Acc ◌<◌ value → List ℕ
encode_u64_loop out value (Acc.intro _ smaller) =
    dite (dec_lt value 128) (λ last. out ++ (value % 256) ∷ [])
      (λ more.
        encode_u64_loop (out ++ bit_or 128 (bit_and value 127 % 256) ∷ []) (value / 128)
          (smaller _ (shift_shrinks value more)))

unfoldable pub encode_u64 : List ℕ → ℕ → List ℕ
encode_u64 out value = encode_u64_loop out value (lt_wf.apply value)

unfoldable pub encode_i64_loop : List ℕ → Bool → (magnitude : ℕ) → Acc ◌<◌ magnitude → List ℕ
encode_i64_loop out negative magnitude (Acc.intro _ smaller) =
    dite (dec_lt magnitude 64)
      (λ last. out ++ bit_or (if negative then 64 else 0) (magnitude % 256) ∷ [])
      (λ more.
        encode_i64_loop (out ++ bit_or 128 (bit_and magnitude 127 % 256) ∷ []) negative
          (magnitude / 128) (smaller _ (shift_shrinks magnitude more)))

unfoldable pub encode_i64 : List ℕ → ℤ → List ℕ
encode_i64 out (pos n) = encode_i64_loop out false n (lt_wf.apply n)
encode_i64 out (negsuc n) = encode_i64_loop out true n (lt_wf.apply n)

-- The messages of `decode_error`, and of the catalogue's reader.
pub data DecodeError : Type 0 where
  unexpected_end length_overflow out_of_range varint_too_long : DecodeError
  offset_underflow unknown_type too_deep revisited too_many : DecodeError
  invalid_magic missing_trailer : DecodeError

pub record Cursor : Type 0 where
  pub bytes : List ℕ
  pub position : ℕ

-- A read gives its value and the cursor behind it.
abbrev pub Reads : Type 0 → Type 0
Reads A = Result (A × Cursor) DecodeError

abbrev pub ahead : Cursor → List ℕ
ahead c = drop c.position c.bytes

abbrev pub advance : ℕ → Cursor → Cursor
advance n c = record c { position = c.position + n }

abbrev pub byte_of : List ℕ → Cursor → Reads ℕ
byte_of [] c = err unexpected_end
byte_of (b ∷ _) c = ok (b, advance 1 c)

unfoldable pub byte : Cursor → Reads ℕ
byte c = byte_of (ahead c) c

unfoldable pub take_bytes : Cursor → ℕ → Reads (List ℕ)
take_bytes c len =
    if leb word (c.position + len)
    then err length_overflow
    else if ltb (length c.bytes) (c.position + len)
    then err out_of_range
    else ok (take len (ahead c), advance len c)

-- `|=` of a byte's bits, shifted in a `u64`.
abbrev pub add_bits : ℕ → ℕ → ℕ → ℕ
add_bits value bits shift = bit_or value (bits * 2 ^ shift % word)

-- The loop of `Cursor::u64` over the bytes ahead of the cursor, each read by `byte`.
unfoldable pub u64_loop : List ℕ → Cursor → ℕ → ℕ → Reads ℕ
u64_loop [] c value shift = err unexpected_end
u64_loop (b ∷ rest) c value shift =
    let value' = add_bits value (bit_and b 127) shift in
    let more = u64_loop rest (advance 1 c) value' (shift + 7) in
    if leb 64 shift
    then err varint_too_long
    else if bit_and b 128 == 0
    then ok (value', advance 1 c)
    else more

unfoldable pub read_u64 : Cursor → Reads ℕ
read_u64 c = u64_loop (ahead c) c 0 0

-- `-(value as i64) - 1`, and `value as i64`, in two's complement.
abbrev pub as_i64 : ℕ → ℤ
as_i64 value = if ltb value 9223372036854775808 then pos value else negsuc (word - 1 - value)

abbrev pub complement : ℤ → ℤ
complement (pos n) = negsuc n
complement (negsuc n) = pos n

unfoldable pub i64_loop : List ℕ → Cursor → ℕ → ℕ → Reads ℤ
i64_loop [] c value shift = err unexpected_end
i64_loop (b ∷ rest) c value shift =
    let more = i64_loop rest (advance 1 c) (add_bits value (bit_and b 127) shift) (shift + 7) in
    let value' = add_bits value (bit_and b 63) shift in
    if leb 64 shift
    then err varint_too_long
    else if bit_and b 128 == 0
    then (if bit_and b 64 == 0
        then ok (as_i64 value', advance 1 c)
        else ok (complement (as_i64 value'), advance 1 c))
    else more

unfoldable pub read_i64 : Cursor → Reads ℤ
read_i64 c = i64_loop (ahead c) c 0 0
