-- ===== src/Io/LineBuffer/Chunks.antt =====
-- application/src/server/executor/docker/mod.rs: the task that reads a container's output in
-- chunks and emits its lines. `emit` is a list of what was emitted.
use ailes.Common.{
  ℕ, zero, suc, ◌<◌, ◌≡◌, refl, sym, ◌∙◌, ap, Option, none, some, List, [], inl, inr, ◌∷◌, ◌++◌,
  length, length-drop, append-nil, append_assoc, if◌then◌else◌, arith, Option-cases,
}
use ailes.Io.LineBuffer.{
  LineBuffer, is_empty, new, extend, trim_ascii, cut, next_line, compact, flush,
}
use ailes.Io.LineBuffer.Pending.{
  pending, split_line, split_line-append, IsValid, next_line-Takes, new-IsValid, extend-IsValid,
  pending-extend, compact-pending, flush-pending,
}
use mathlib.Core.List.{flatten}

-- `while let Some(line) = line_buffer.next_line() { emit(line) }`; `none` is no outcome of the code,
-- the rounds ran out.
unfoldable pub drain : ℕ → LineBuffer → List (List ℕ) → Option (LineBuffer × List (List ℕ))
drain zero lb out = none
drain (suc rounds) lb out =
    let (lb', answer) = next_line lb in
    elim answer [ none ↦ some (lb', out) | some line ↦ drain rounds lb' (out ++ (line ∷ [])) ]

unfoldable pub on_chunk : LineBuffer → List (List ℕ) → List ℕ → Option (LineBuffer × List (List ℕ))
on_chunk lb out bytes =
    let lb' = extend lb bytes in
    elim (drain (suc (length lb'.buffer)) lb' out) [
      | none ↦ none
      | some (drained, out') ↦ some (compact drained, out')
    ]

unfoldable pub on_chunks :
    LineBuffer → List (List ℕ) → List (List ℕ) → Option (LineBuffer × List (List ℕ))
on_chunks lb out [] = some (lb, out)
on_chunks lb out (bytes ∷ chunks) = elim (on_chunk lb out bytes) [
  | none ↦ none
  | some (lb', out') ↦ on_chunks lb' out' chunks
]

abbrev opt_list {ℓ} : {A : Type ℓ} → Option A → List A
opt_list none = []
opt_list (some a) = a ∷ []

-- The whole task: every chunk until the stream ends, then the flush.
unfoldable pub emitted : List (List ℕ) → Option (List (List ℕ))
emitted chunks = elim (on_chunks new [] chunks) [
  | none ↦ none
  | some (lb, out) ↦ some (out ++ opt_list (flush lb))
]

-- The lines of a run of bytes, taken one after the other, and the incomplete rest.
pub data Splits : List ℕ → List (List ℕ) → List ℕ → Type 0 where
  stop : {bytes : List ℕ} → split_line bytes ≡ none → Splits bytes [] bytes
  line :
      {bytes l rest : List ℕ} {ls : List (List ℕ)} {end : List ℕ}
      → split_line bytes ≡ some (l, rest)
      → Splits rest ls end
      → Splits bytes (l ∷ ls) end

Splits-append :
    {a r end : List ℕ} {ls ms : List (List ℕ)} (b : List ℕ)
    → Splits a ls r
    → Splits (r ++ b) ms end
    → Splits (a ++ b) (ls ++ ms) end
Splits-append b (stop e) t = t
Splits-append b (line {bytes = a} {l = l} {rest = rest} e s) t =
    line (split_line-append a b l rest e) (Splits-append b s t)

first_unique :
    {a a' l m r r' : List ℕ}
    → a ≡ a'
    → split_line a ≡ some (l, r)
    → split_line a' ≡ some (m, r')
    → (l ≡ m) × (r ≡ r')
first_unique p e f = ground (arith, ap split_line p)

-- The bytes determine their lines and the rest.
Splits-unique :
    {a a' r r' : List ℕ} {ls ms : List (List ℕ)}
    → a ≡ a'
    → Splits a ls r
    → Splits a' ms r'
    → (ls ≡ ms) × (r ≡ r')
Splits-unique p (stop e) (stop f) = (refl, p)
Splits-unique p (stop e) (line f t) = absurd (cc (ap split_line p))
Splits-unique p (line e s) (stop f) = absurd (cc (ap split_line p))
Splits-unique p (line {l = l} {rest = rest} e s) (line {l = m} {rest = rest'} f t) =
    let (same, rests) = first_unique p e f in
    let (ih, ends) = Splits-unique rests s t in (cc (same, ih), ends)

pending_fits : (lb : LineBuffer) → length (pending lb) < suc (length lb.buffer)
unfolding pending
pending_fits lb = omega (arith, length-drop lb.line_start lb.buffer)

-- Each round takes a byte at least, so more rounds than bytes are enough.
drain-Splits :
    (rounds : ℕ) (lb : LineBuffer) (out : List (List ℕ))
    → IsValid lb
    → length (pending lb) < rounds
    → (lb' : LineBuffer) × (ls : List (List ℕ)) × (drain rounds lb out ≡ some (lb', out ++ ls))
      × Splits (pending lb) ls (pending lb')
      × IsValid lb'
unfolding drain
drain-Splits zero lb out v h = absurd (omega arith)
drain-Splits (suc rounds) lb out v h = elim (Option-cases (split_line (pending lb))) [
  | inl n ↦
      let (same, quiet) = rw n at (next_line-Takes lb v) in
      (lb, [], rw (quiet, drain) (rw same (rw append-nil refl)), stop n, v)
  | inr ((l, rest), e) ↦
      let (found, left, v', less) = rw e at (next_line-Takes lb v) in
      let (lb', ls, run, s, w) =
        drain-Splits rounds (next_line lb).0 (out ++ (l ∷ [])) v' (rw left (omega arith)) in
      (lb', l ∷ ls, rw (found, drain) (run ∙ rw append_assoc refl), line e (rw left at s), w)
]

on_chunk-Splits :
    (lb : LineBuffer) (out : List (List ℕ)) (bytes : List ℕ)
    → IsValid lb
    → (lb' : LineBuffer) × (ls : List (List ℕ)) × (on_chunk lb out bytes ≡ some (lb', out ++ ls))
      × Splits (pending lb ++ bytes) ls (pending lb')
      × IsValid lb'
unfolding on_chunk
on_chunk-Splits lb out bytes v =
    let fed = extend lb bytes in
    let w : IsValid fed = extend-IsValid lb bytes v in
    let (drained, ls, run, s, w') =
      drain-Splits (suc (length fed.buffer)) fed out w (pending_fits fed) in
    let (kept, w'') = compact-pending drained w' in
    (
      compact drained,
      ls,
      rw (run, on_chunk) refl,
      rw kept (rw (pending-extend lb bytes v) at s),
      w'',
    )

Splits-end : {a r : List ℕ} {ls : List (List ℕ)} → Splits a ls r → split_line r ≡ none
Splits-end (stop e) = e
Splits-end (line e s) = Splits-end s

on_chunks-Splits :
    (lb : LineBuffer) (out chunks : List (List ℕ))
    → IsValid lb
    → split_line (pending lb) ≡ none
    → (lb' : LineBuffer) × (ls : List (List ℕ)) × (on_chunks lb out chunks ≡ some (lb', out ++ ls))
      × Splits (pending lb ++ flatten chunks) ls (pending lb')
      × IsValid lb'
unfolding on_chunks flatten
on_chunks-Splits lb out [] v q = (lb, [], rw append-nil refl, rw append-nil (stop q), v)
on_chunks-Splits lb out (bytes ∷ chunks) v q =
    let (lb', ls, run, s, w) = on_chunk-Splits lb out bytes v in
    let (lb'', ms, more, t, w') = on_chunks-Splits lb' (out ++ ls) chunks w (Splits-end s) in
    (
      lb'',
      ls ++ ms,
      rw (run, on_chunks) (more ∙ rw append_assoc refl),
      rw (← append_assoc (pending lb) bytes (flatten chunks)) (Splits-append (flatten chunks) s t),
      w',
    )

split_line-new : split_line (pending new) ≡ none
unfolding pending split_line new cut
split_line-new = refl

-- The rest of the stream, as `flush` emits it.
abbrev pub last_line : List ℕ → List (List ℕ)
last_line rest = if is_empty rest then [] else trim_ascii rest ∷ []

opt_list-flush : (lb : LineBuffer) → IsValid lb → opt_list (flush lb) ≡ last_line (pending lb)
opt_list-flush lb v = rw (flush-pending lb v) (ground arith)

-- The task ends on every stream. What it emits are the lines of the whole stream, in order, and
-- then the trimmed rest if a byte is left.
pub emitted_lines :
    (chunks : List (List ℕ))
    → (ls : List (List ℕ)) × (rest : List ℕ) × Splits (flatten chunks) ls rest
      × (emitted chunks ≡ some (ls ++ last_line rest))
unfolding emitted
emitted_lines chunks =
    let (lb, ls, run, s, v) = on_chunks-Splits new [] chunks new-IsValid split_line-new in
    (
      ls,
      pending lb,
      (unfold pending new in s),
      rw (run, emitted) (ap (λ l. some (ls ++ l)) (opt_list-flush lb v)),
    )

-- How a stream is cut into chunks makes no difference to what is emitted.
pub emitted-chunking :
    (chunks other : List (List ℕ)) → flatten chunks ≡ flatten other → emitted chunks ≡ emitted other
emitted-chunking chunks other p =
    let (ls, rest, s, e) = emitted_lines chunks in
    let (ms, rest', t, f) = emitted_lines other in
    let (same, ends) = Splits-unique p s t in e ∙ rw (same, ends) (sym f)
