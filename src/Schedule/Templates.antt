-- ===== src/Schedule/Templates.antt =====
-- application/src/server/schedule/actions.rs: the texts of `Format` as parts, and what they are rendered to.
use ailes.Common.{
  ℕ, Bool, true, false, not, ◌&&◌, ◌||◌, none, some, List, [], ◌∷◌, ◌++◌, ◌==◌, ◌≡◌, refl, ◌∙◌, ap,
  append-nil, append_assoc, if◌then◌else◌, arith,
}
use ailes.Common.Text.{Text, all}
use ailes.Schedule.{ScheduleExecutionContext, get_variable_by_str}
use ailes.Schedule.Actions.{substitute, render}

-- A character that stands for itself, and a name in braces.
pub data Part : Type 0 where
  literal : ℕ → Part
  hole : Text → Part

abbrev pub is_brace : ℕ → Bool
is_brace ch = (ch == b'{') || (ch == b'}')

-- Braces are doubled.
unfoldable pub print_parts : List Part → Text
print_parts [] = []
print_parts (literal ch ∷ parts) =
    let rest = print_parts parts in if is_brace ch then ch ∷ ch ∷ rest else ch ∷ rest
print_parts (hole name ∷ parts) = b'{' ∷ (name ++ b'}' ∷ print_parts parts)

-- No name holds a brace that closes, or begins with one that opens.
abbrev pub opens : Text → Bool
opens [] = false
opens (ch ∷ rest) = ch == b'{'

abbrev pub is_name : Text → Bool
is_name name = not (opens name) && all (λ ch. not (ch == b'}')) name

abbrev pub are_parts : List Part → Bool
are_parts [] = true
are_parts (literal ch ∷ parts) = are_parts parts
are_parts (hole name ∷ parts) = let rest = are_parts parts in is_name name && rest

unfoldable pub values : ScheduleExecutionContext → List Part → Text
values c [] = []
values c (literal ch ∷ parts) = ch ∷ values c parts
values c (hole name ∷ parts) = substitute (get_variable_by_str name c) name ++ values c parts

module _ (c : ScheduleExecutionContext) where
  render-literal :
      (ch : ℕ) (s : Text) → is_brace ch ≡ false → render c none (ch ∷ s) ≡ ch ∷ render c none s
  unfolding render
  render-literal ch [] h = refl
  render-literal ch (peek ∷ s) h = ground arith

  render-doubled :
      (ch : ℕ) (s : Text) → is_brace ch ≡ true → render c none (ch ∷ ch ∷ s) ≡ ch ∷ render c none s
  unfolding render
  render-doubled ch s h = ground arith

  render-one :
      (ch : ℕ) (s : Text) (b : Bool)
      → is_brace ch ≡ b
      → render c none (if b then ch ∷ ch ∷ s else ch ∷ s) ≡ ch ∷ render c none s
  render-one ch s true h = render-doubled ch s h
  render-one ch s false h = render-literal ch s h

  render-inside :
      (name seen s : Text)
      → all (λ ch. not (ch == b'}')) name ≡ true
      → render c (some seen) (name ++ b'}' ∷ s)
        ≡ substitute (get_variable_by_str (seen ++ name) c) (seen ++ name) ++ render c none s
  unfolding render
  render-inside [] seen s h = rw (append-nil seen) refl
  render-inside (ch ∷ name) seen s h =
      ground arith
      ∙ render-inside name (seen ++ ch ∷ []) s (ground arith)
      ∙ ap (λ n. substitute (get_variable_by_str n c) n ++ render c none s)
          (append_assoc seen (ch ∷ []) name)

  render-hole :
      (name s : Text)
      → is_name name ≡ true
      → render c none (b'{' ∷ (name ++ b'}' ∷ s))
        ≡ substitute (get_variable_by_str name c) name ++ render c none s
  unfolding render
  render-hole [] s h = render-inside [] [] s refl
  render-hole (ch ∷ name) s h = ground arith ∙ render-inside (ch ∷ name) [] s (ground arith)

  -- A text printed from its parts is rendered to their values: each name to the variable's value, or as it
  -- stands where there is none, and all other characters as they are.
  pub render-print_parts :
      (parts : List Part)
      → are_parts parts ≡ true
      → render c none (print_parts parts) ≡ values c parts
  unfolding print_parts values render
  render-print_parts [] h = refl
  render-print_parts (literal ch ∷ parts) h =
      render-one ch (print_parts parts) (is_brace ch) refl
      ∙ ap (λ s. ch ∷ s) (render-print_parts parts h)
  render-print_parts (hole name ∷ parts) h =
      render-hole name (print_parts parts) (ground arith)
      ∙ ap (λ s. substitute (get_variable_by_str name c) name ++ s)
          (render-print_parts parts (ground arith))
