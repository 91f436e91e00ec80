-- ===== src/Hostname/Authority.antt =====
-- `split_authority`: what it takes apart, and what it refuses.
use sievetube.Prelude.{
  nat_eq, text_eq, ℕ, ◌<◌, ◌≡◌, refl, Text, ◌||◌, false, Option, none, some, [], ◌∷◌, ◌++◌, arith,
  Option-cases, Bool-cases, inl, inr, ok, ◌>>=◌, ◌+◌, ◌*◌, ◌-◌,
}
use sievetube.Strings.{rsplit_once, split_once, strip_prefix, has_char, digits_u16, parse_u16}
use sievetube.Strings.Laws.{
  strip_prefix-some, split_once-some, rsplit_once-some, rsplit_once-append, rsplit_once-none,
}
use sievetube.Hostname.{parse_port, port_after_bracket, split_authority}

digits_u16-lt : (acc : ℕ) (s : Text) (p : ℕ) → acc < 65536 → digits_u16 acc s ≡ some p → p < 65536
unfolding digits_u16
digits_u16-lt acc [] p a h = ground arith
digits_u16-lt acc (c ∷ s) p a h = ground (arith, digits_u16-lt (acc * 10 + (c - b'0')) s p)

parse_u16-lt : (s : Text) (p : ℕ) → parse_u16 s ≡ some p → p < 65536
unfolding parse_u16
parse_u16-lt [] p h = cc
parse_u16-lt (c ∷ s) p h = ground (arith, digits_u16-lt 0 s p, digits_u16-lt 0 (c ∷ s) p)

pub parse_port-lt : (s : Text) (p : ℕ) → parse_port s ≡ ok (some p) → p < 65536
unfolding parse_port
parse_port-lt s p h = elim (Option-cases (parse_u16 s)) [
  | inl bad ↦ absurd (ground arith)
  | inr (q, e) ↦ ground (arith, parse_u16-lt s q e)
]

-- What the result of taking an authority apart says of it.
pub data Splits (authority host : Text) (port : Option ℕ) : Type 0 where
  bare : authority ≡ host → has_char b':' host ≡ false → port ≡ none → Splits authority host port
  with_port :
      (digits : Text)
      → authority ≡ host ++ b':' ∷ digits
      → has_char b':' host ≡ false
      → parse_port digits ≡ ok port
      → Splits authority host port
  bracketed :
      (after : Text)
      → authority ≡ b'[' ∷ host ++ b']' ∷ after
      → has_char b']' host ≡ false
      → port_after_bracket after ≡ ok port
      → Splits authority host port

-- If an authority is taken apart, then it holds no user information, and it is a host without a
-- colon, such a host before a colon and a port, or a bracketed host before what may follow a bracket.
pub split_authority-Splits :
    (authority host : Text) (port : Option ℕ)
    → split_authority authority ≡ ok (host, port)
    → (has_char b'@' authority ≡ false) × Splits authority host port
unfolding split_authority
split_authority-Splits authority host port h = elim (Bool-cases (has_char b'@' authority)) [
  | inl user ↦ absurd (ground arith)
  | inr clean ↦ (
    clean,
    elim (Option-cases (strip_prefix (b'[' ∷ []) authority)) [
      | inr (rest, open_bracket) ↦ elim (Option-cases (split_once b']' rest)) [
        | inl unterminated ↦ absurd (ground arith)
        | inr ((inside, after), closed) ↦
            let (whole, label) = split_once-some b']' rest inside after closed in
            let front = strip_prefix-some (b'[' ∷ []) authority rest open_bracket in
            bracketed after (ground arith) (ground arith) (ground arith)
      ]
      | inl plain ↦ elim (Option-cases (rsplit_once b':' authority)) [
        | inl single ↦
            bare (ground arith) (ground (arith, rsplit_once-none b':' authority single))
              (ground arith)
        | inr ((front, digits), parts) ↦
            let (whole, label) = rsplit_once-some b':' authority front digits parts in
            with_port digits (ground arith) (ground arith) (ground arith)
      ]
    ],
  )
]

has_char-append : (c : ℕ) (s t : Text) → has_char c (s ++ t) ≡ (has_char c s || has_char c t)
unfolding has_char
has_char-append c [] t = refl
has_char-append c (x ∷ s) t = ground (arith, has_char-append c s t)

no_bracket :
    (host t : Text)
    → has_char b'[' host ≡ false
    → strip_prefix (b'[' ∷ []) (host ++ b':' ∷ t) ≡ none
unfolding has_char strip_prefix
no_bracket [] t h = ground arith
no_bracket (c ∷ host) t h = ground arith

-- A host without `@`, `:` and `[`, joined by a colon to a text without `@` and `:`, comes apart
-- again: the result is the host with what the text is as a port, an error where it is none.
pub split_authority-append :
    (host digits : Text)
    → has_char b'@' host ≡ false
    → has_char b':' host ≡ false
    → has_char b'[' host ≡ false
    → has_char b'@' digits ≡ false
    → has_char b':' digits ≡ false
    → split_authority (host ++ b':' ∷ digits) ≡ (do p ← parse_port digits; ok (host, p))
unfolding split_authority has_char
split_authority-append host digits a b c d e = ground (
  arith,
  has_char-append b'@' host (b':' ∷ digits),
  no_bracket host digits c,
  rsplit_once-append b':' host digits e,
)
