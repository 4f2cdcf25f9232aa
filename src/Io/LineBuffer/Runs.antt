-- ===== src/Io/LineBuffer/Runs.antt =====
-- Runs of the line buffer, after the tests of application/src/io/line_buffer.rs.
use ailes.Common.{ℕ, ◌≡◌, refl, some, List, [], ◌∷◌, ◌++◌}
use ailes.Io.LineBuffer.{
  LineBuffer, new, extend, get_from, get_range, trim_ascii, cut, next_line, compact, flush,
}
use ailes.Io.LineBuffer.Chunks.{
  Splits, emitted, emitted_lines, emitted-chunking, drain, on_chunk, on_chunks, last_line,
}
use mathlib.Core.List.{flatten}

-- "ab", then " \r\n c"
abbrev chunk_a : List ℕ
chunk_a = 97 ∷ 98 ∷ []

abbrev chunk_b : List ℕ
chunk_b = 32 ∷ 13 ∷ 10 ∷ 32 ∷ 99 ∷ []

two_chunks : emitted (chunk_a ∷ chunk_b ∷ []) ≡ some ((97 ∷ 98 ∷ []) ∷ (99 ∷ []) ∷ [])
unfolding emitted on_chunks on_chunk drain new extend next_line get_from get_range cut trim_ascii
    compact flush
two_chunks = refl

ab : LineBuffer
unfolding new extend
ab = extend new (chunk_a ++ chunk_b)

emitted_lines_example :
    (ls : List (List ℕ)) × (rest : List ℕ) × Splits (chunk_a ++ chunk_b) ls rest
    × (emitted (chunk_a ∷ chunk_b ∷ []) ≡ some (ls ++ last_line rest))
unfolding flatten
emitted_lines_example = emitted_lines (chunk_a ∷ chunk_b ∷ [])

emitted-chunking_example : emitted (chunk_a ∷ chunk_b ∷ []) ≡ emitted ((chunk_a ++ chunk_b) ∷ [])
unfolding flatten
emitted-chunking_example =
    emitted-chunking (chunk_a ∷ chunk_b ∷ []) ((chunk_a ++ chunk_b) ∷ []) refl
