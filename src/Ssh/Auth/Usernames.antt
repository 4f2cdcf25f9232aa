-- ===== src/Ssh/Auth/Usernames.antt =====
-- application/src/ssh/auth.rs: which user names `validate_username` takes.
use ailes.Common.{
  ℕ, suc, ◌+◌, ◌↔◌, Bool, true, false, List, [], ◌∷◌, ◌++◌, ◌&&◌, ◌==◌, ◌≡◌, refl, arith, length,
  inl, inr, Bool-cases, ap, ◌∙◌, ◌⊎◌, ==_iff, sym,
}
use ailes.Common.Text.{Text, split, all, byte_len}
use ailes.Ssh.Auth.{dot, is_ascii_hexdigit, scan_segments, validate_username}

abbrev Cut : Text → Type 0
Cut u =
    (front : Text) × (last : Text) × (s : Text) × (ss : List Text) × (u ≡ front ++ (dot ∷ last))
    × (split dot u ≡ s ∷ (ss ++ (last ∷ [])))

-- A text is one segment, or is cut before its last.
split_cases : (u : Text) → (split dot u ≡ u ∷ []) ⊎ Cut u
unfolding split
split_cases [] = inl refl
split_cases (c ∷ cs) = elim (Bool-cases (c == dot)) [
  | inl t ↦ elim (split_cases cs) [
    | inl e ↦ inr ([], cs, [], [], ground (arith, ==_iff c dot), ground arith)
    | inr (front, last, s, ss, e, f) ↦
        inr (dot ∷ front, last, [], s ∷ ss, ground (arith, ==_iff c dot), ground arith)
  ]
  | inr n ↦ elim (split_cases cs) [
    | inl e ↦ inl (ground arith)
    | inr (front, last, s, ss, e, f) ↦
        inr (c ∷ front, last, c ∷ s, ss, ap (λ r. c ∷ r) e, ground arith)
  ]
]

split-append :
    (front last : Text)
    → split dot last ≡ last ∷ []
    → (s : Text) × (ss : List Text) × (split dot (front ++ (dot ∷ last)) ≡ s ∷ (ss ++ (last ∷ [])))
unfolding split
split-append [] last e = ([], [], ground arith)
split-append (c ∷ front) last e =
    let (s, ss, f) = split-append front last e in
    elim (Bool-cases (c == dot)) [
      | inl t ↦ ([], s ∷ ss, ground arith)
      | inr n ↦ (c ∷ s, ss, ground arith)
    ]

split-hex : (h : Text) → all is_ascii_hexdigit h ≡ true → split dot h ≡ h ∷ []
unfolding split
split-hex [] p = refl
split-hex (c ∷ h) p = ground (arith, split-hex h (ground arith))

scan_segments-append :
    (l : Text) (n : ℕ) (ss : List Text) (last : Text)
    → scan_segments l n (ss ++ (last ∷ [])) ≡ (last, suc (n + length ss))
unfolding scan_segments
scan_segments-append l n [] last = ground arith
scan_segments-append l n (s ∷ ss) last = scan_segments-append s (suc n) ss last ∙ ground arith

byte_len-hex : (h : Text) → all is_ascii_hexdigit h ≡ true → byte_len h ≡ length h
byte_len-hex [] p = refl
byte_len-hex (c ∷ h) p = ground (arith, byte_len-hex h (ground arith))

abbrev pub IsHex8 : Text → Type 0
IsHex8 hex = (length hex ≡ 8) × (all is_ascii_hexdigit hex ≡ true)

abbrev is_hex8 : Text → Bool
is_hex8 hex = (byte_len hex == 8) && all is_ascii_hexdigit hex

is_hex8_iff : (hex : Text) → (is_hex8 hex ≡ true) ↔ IsHex8 hex
is_hex8_iff hex = elim (Bool-cases (all is_ascii_hexdigit hex)) [
  | inl t ↦ ground (arith, byte_len-hex hex t, ==_iff (byte_len hex) 8)
  | inr f ↦ ground (arith, f)
]

validate_username-cut :
    (u s : Text) (ss : List Text) (last : Text)
    → split dot u ≡ s ∷ (ss ++ (last ∷ []))
    → validate_username u ≡ is_hex8 last
unfolding validate_username scan_segments
validate_username-cut u s ss last e = ground (arith, e, scan_segments-append s 1 ss last)

validate_username-uncut : (u : Text) → split dot u ≡ u ∷ [] → validate_username u ≡ false
unfolding validate_username scan_segments
validate_username-uncut u e = ground (arith, e)

-- A user name is taken exactly when it is some text, a dot, and eight hexadecimal digits.
pub validate_username_iff :
    (username : Text)
    → (validate_username username ≡ true)
      ↔ ((front : Text) × (hex : Text) × (username ≡ front ++ (dot ∷ hex)) × IsHex8 hex)
validate_username_iff username = (
  (λ h. elim (split_cases username) [
    | inl e ↦ absurd (ground (arith, validate_username-uncut username e))
    | inr (front, last, s, ss, e, f) ↦ (
      front,
      last,
      e,
      (is_hex8_iff last).0 (sym (validate_username-cut username s ss last f) ∙ h),
    )
  ]),
  λ (front, hex, e, h).
      let (s, ss, f) = split-append front hex (split-hex hex h.1) in
      ap validate_username e
      ∙ validate_username-cut (front ++ (dot ∷ hex)) s ss hex f
      ∙ (is_hex8_iff hex).1 h,
)
