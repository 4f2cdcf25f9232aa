-- ===== src/Pbs/Varint/Encoding.antt =====
-- What `encode_u64` and `encode_i64` of pbs-client/src/catalog.rs write, in plain arithmetic.
use ailes.Common.{
  ℕ, zero, suc, ◌+◌, ◌/◌, ◌%◌, ◌^◌, ◌≤◌, ◌<◌, ◌*◌, ◌≡◌, refl, sym, ap, ◌∙◌, List, [], ◌∷◌, ◌++◌,
  length, append_assoc, Bool, true, false, ltb, if◌then◌else◌, arith,
}
use ailes.Common.Bits.{low_seven, set_top_bit, set_sign_bit, zero-bit_or}
use Prim.Native.Nat.{bit_and, bit_or}
use ailes.Common.Int.{ℤ, pos, negsuc}
use ailes.Common.Machine.{word}
use ailes.Pbs.Varint.{encode_u64_loop, encode_u64, encode_i64_loop, encode_i64, shift_shrinks}
use mathlib.Core.WellFounded.{Acc}
use mathlib.Core.Logic.{dite}
use native.Mathlib.Decide.{dec_lt}

-- Groups of seven bits, the lowest first, the last below `limit` and marked by `sign`.
unfoldable pub groups : ℕ → ℕ → ℕ → ℕ → List ℕ
groups limit sign zero v = (sign + v) ∷ []
groups limit sign (suc k) v =
    let rest = groups limit sign k (v / 128) in
    if ltb v limit then (sign + v) ∷ [] else (v % 128 + 128) ∷ rest

inner_group : (v : ℕ) → bit_or 128 (bit_and v 127 % 256) ≡ v % 128 + 128
inner_group v = rw low_seven (omega (arith, set_top_bit (v % 128 % 256) (omega arith)))

encode_u64_loop-groups :
    (k : ℕ) (out : List ℕ) (v : ℕ) (w : Acc ◌<◌ v)
    → v < 128 ^ suc k
    → encode_u64_loop out v w ≡ out ++ groups 128 0 k v
unfolding encode_u64_loop groups
encode_u64_loop-groups zero out v (Acc.intro _ smaller) h = ground arith
encode_u64_loop-groups (suc k) out v (Acc.intro _ smaller) h =
    let head : List ℕ = (v % 128 + 128) ∷ [] in
    grind (
      arith,
      inner_group v,
      λ (w : Acc ◌<◌ (v / 128)). encode_u64_loop-groups k (out ++ head) (v / 128) w (omega arith),
      append_assoc out head (groups 128 0 k (v / 128)),
    )

pub encode_u64-groups :
    (out : List ℕ) (v : ℕ) → v < word → encode_u64 out v ≡ out ++ groups 128 0 9 v
unfolding encode_u64
encode_u64-groups out v h = encode_u64_loop-groups 9 out v _ (omega arith)

abbrev pub sign_of : Bool → ℕ
sign_of negative = if negative then 64 else 0

last_group : (negative : Bool) (v : ℕ) → v < 64 → bit_or (sign_of negative) v ≡ sign_of negative + v
last_group true v h = set_sign_bit v h
last_group false v h = omega (arith, zero-bit_or v)

encode_i64_loop-groups :
    (k : ℕ) (out : List ℕ) (negative : Bool) (v : ℕ) (w : Acc ◌<◌ v)
    → v < 64 * 128 ^ k
    → encode_i64_loop out negative v w ≡ out ++ groups 64 (sign_of negative) k v
unfolding encode_i64_loop groups
encode_i64_loop-groups zero out negative v (Acc.intro _ smaller) h =
    ground (arith, last_group negative v)
encode_i64_loop-groups (suc k) out negative v (Acc.intro _ smaller) h =
    let head : List ℕ = (v % 128 + 128) ∷ [] in
    grind (
      arith,
      inner_group v,
      last_group negative v,
      λ (w : Acc ◌<◌ (v / 128)).
          encode_i64_loop-groups k (out ++ head) negative (v / 128) w (omega arith),
      append_assoc out head (groups 64 (sign_of negative) k (v / 128)),
    )

-- The magnitude and the sign under which an integer is written.
abbrev pub magnitude : ℤ → ℕ
magnitude (pos n) = n
magnitude (negsuc n) = n

abbrev pub is_negative : ℤ → Bool
is_negative (pos n) = false
is_negative (negsuc n) = true

abbrev pub IsI64 : ℤ → Type 0
IsI64 z = magnitude z < 9223372036854775808

pub encode_i64-groups :
    (out : List ℕ) (z : ℤ)
    → IsI64 z
    → encode_i64 out z ≡ out ++ groups 64 (sign_of (is_negative z)) 9 (magnitude z)
unfolding encode_i64
encode_i64-groups out (pos n) h = encode_i64_loop-groups 9 out false n _ (omega arith)
encode_i64-groups out (negsuc n) h = encode_i64_loop-groups 9 out true n _ (omega arith)

-- The bytes are appended to what was there, whatever it is.
encode_u64_loop-append :
    (out : List ℕ) (v : ℕ) (w : Acc ◌<◌ v) → encode_u64_loop out v w ≡ out ++ encode_u64_loop [] v w
unfolding encode_u64_loop
encode_u64_loop-append out v (Acc.intro _ smaller) =
    let head : List ℕ = bit_or 128 (bit_and v 127 % 256) ∷ [] in
    elim (dec_lt v 128)
      as (λ d.
        dite d (λ _. out ++ v % 256 ∷ [])
          (λ more. encode_u64_loop (out ++ head) (v / 128) (smaller _ (shift_shrinks v more)))
        ≡ out
          ++ dite d (λ _. v % 256 ∷ [])
              (λ more. encode_u64_loop head (v / 128) (smaller _ (shift_shrinks v more)))) [
                | yes last ↦ refl
                | no more ↦
                    encode_u64_loop-append (out ++ head) (v / 128)
                      (smaller (v / 128) (shift_shrinks v more))
                    ∙ append_assoc out head
                        (encode_u64_loop [] (v / 128) (smaller (v / 128) (shift_shrinks v more)))
                    ∙ ap (◌++◌ out) (
                        sym (
                          encode_u64_loop-append head (v / 128)
                            (smaller (v / 128) (shift_shrinks v more))))
              ]

pub encode_u64-append : (out : List ℕ) (v : ℕ) → encode_u64 out v ≡ out ++ encode_u64 [] v
unfolding encode_u64
encode_u64-append out v = encode_u64_loop-append out v _

encode_u64_loop-length : (v : ℕ) (w : Acc ◌<◌ v) → 1 ≤ length (encode_u64_loop [] v w)
unfolding encode_u64_loop
encode_u64_loop-length v (Acc.intro _ smaller) =
    let head : List ℕ = bit_or 128 (bit_and v 127 % 256) ∷ [] in
    elim (dec_lt v 128)
      as (λ d.
        1
        ≤ length (
            dite d (λ _. v % 256 ∷ [])
              (λ more. encode_u64_loop head (v / 128) (smaller _ (shift_shrinks v more))))) [
                | yes last ↦ omega arith
                | no more ↦
                    let w = smaller (v / 128) (shift_shrinks v more) in
                    rw (encode_u64_loop-append head (v / 128) w) (omega arith)
              ]

-- No number is written with no byte.
pub length-encode_u64 : (v : ℕ) → 1 ≤ length (encode_u64 [] v)
unfolding encode_u64
length-encode_u64 v = encode_u64_loop-length v _

encode_i64_loop-append :
    (out : List ℕ) (negative : Bool) (v : ℕ) (w : Acc ◌<◌ v)
    → encode_i64_loop out negative v w ≡ out ++ encode_i64_loop [] negative v w
unfolding encode_i64_loop
encode_i64_loop-append out negative v (Acc.intro _ smaller) =
    let head : List ℕ = bit_or 128 (bit_and v 127 % 256) ∷ [] in
    let last : List ℕ = bit_or (sign_of negative) (v % 256) ∷ [] in
    elim (dec_lt v 64)
      as (λ d.
        dite d (λ _. out ++ last)
          (λ more.
            encode_i64_loop (out ++ head) negative (v / 128) (smaller _ (shift_shrinks v more)))
        ≡ out
          ++ dite d (λ _. last)
              (λ more.
                encode_i64_loop head negative (v / 128) (smaller _ (shift_shrinks v more)))) [
                  | yes last ↦ refl
                  | no more ↦
                      encode_i64_loop-append (out ++ head) negative (v / 128)
                        (smaller (v / 128) (shift_shrinks v more))
                      ∙ append_assoc out head (
                          encode_i64_loop [] negative (v / 128)
                            (smaller (v / 128) (shift_shrinks v more)))
                      ∙ ap (◌++◌ out) (
                          sym (
                            encode_i64_loop-append head negative (v / 128)
                              (smaller (v / 128) (shift_shrinks v more))))
                ]

pub encode_i64-append : (out : List ℕ) (z : ℤ) → encode_i64 out z ≡ out ++ encode_i64 [] z
unfolding encode_i64
encode_i64-append out (pos n) = encode_i64_loop-append out false n _
encode_i64-append out (negsuc n) = encode_i64_loop-append out true n _

pub length-groups :
    (limit sign k v : ℕ)
    → (1 ≤ length (groups limit sign k v)) × (length (groups limit sign k v) ≤ k + 1)
unfolding groups
length-groups limit sign zero v = omega arith
length-groups limit sign (suc k) v = ground (arith, length-groups limit sign k (v / 128))
