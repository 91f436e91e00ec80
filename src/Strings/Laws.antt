-- ===== src/Strings/Laws.antt =====
-- Laws of the text operations that the components share.

use sievetube.Prelude.{
  nat_eq, text_eq, ℕ, ◌≡◌, refl, ap, Text, ltb, not, Bool, true, false, none, some, [], ◌∷◌, ◌++◌,
  all, is_empty, arith, Option-cases, inl, inr, ◌≢◌, length, length-append,
}
use sievetube.Strings.{
  is_whitespace, trim_start, trim_before, trim_end, trim, utf8_len, len, is_ascii, to_lower,
  to_ascii_lowercase, split_once, rsplit_once, strip_prefix, strip_suffix, ends_with, has_char,
}

abbrev pub is_black : ℕ → Bool
is_black c = not (is_whitespace c)

pub trim_start_black : (s : Text) → all is_black s ≡ true → trim_start s ≡ s
unfolding trim_start
trim_start_black [] h = refl
trim_start_black (c ∷ s) h = ground arith

pub trim_end_black : (s : Text) → all is_black s ≡ true → trim_end s ≡ s
unfolding trim_end trim_before
trim_end_black [] h = refl
trim_end_black (c ∷ []) h = ground arith
trim_end_black (c ∷ d ∷ s) h = ground (arith, trim_end_black (d ∷ s))

pub trim_black : (s : Text) → all is_black s ≡ true → trim s ≡ s
unfolding trim
trim_black s h = rw (trim_start_black s h, trim_end_black s h)

pub to_lower_idem : (c : ℕ) → to_lower (to_lower c) ≡ to_lower c
unfolding to_lower
to_lower_idem c = ground arith

pub to_ascii_lowercase_idem :
    (s : Text) → to_ascii_lowercase (to_ascii_lowercase s) ≡ to_ascii_lowercase s
unfolding to_ascii_lowercase
to_ascii_lowercase_idem [] = refl
to_ascii_lowercase_idem (c ∷ s) = cc (to_lower_idem c, to_ascii_lowercase_idem s)

pub utf8_len-to_lower : (c : ℕ) → utf8_len (to_lower c) ≡ utf8_len c
unfolding utf8_len to_lower
utf8_len-to_lower c = ground arith

pub len-to_ascii_lowercase : (s : Text) → len (to_ascii_lowercase s) ≡ len s
unfolding len to_ascii_lowercase
len-to_ascii_lowercase [] = refl
len-to_ascii_lowercase (c ∷ s) = omega (arith, utf8_len-to_lower c, len-to_ascii_lowercase s)

ascii-to_lower : (c : ℕ) → ltb (to_lower c) 128 ≡ ltb c 128
unfolding to_lower
ascii-to_lower c = ground arith

pub is_ascii-to_ascii_lowercase : (s : Text) → is_ascii (to_ascii_lowercase s) ≡ is_ascii s
unfolding is_ascii to_ascii_lowercase
is_ascii-to_ascii_lowercase [] = refl
is_ascii-to_ascii_lowercase (c ∷ s) = cc (ascii-to_lower c, is_ascii-to_ascii_lowercase s)

pub is_empty-to_ascii_lowercase : (s : Text) → is_empty (to_ascii_lowercase s) ≡ is_empty s
unfolding to_ascii_lowercase
is_empty-to_ascii_lowercase [] = refl
is_empty-to_ascii_lowercase (c ∷ s) = refl

pub strip_prefix-append : (p s : Text) → strip_prefix p (p ++ s) ≡ some s
unfolding strip_prefix
strip_prefix-append [] s = refl
strip_prefix-append (c ∷ p) s = ground (arith, strip_prefix-append p s)

pub strip_prefix-some : (p s t : Text) → strip_prefix p s ≡ some t → s ≡ p ++ t
unfolding strip_prefix
strip_prefix-some [] s t h = ground arith
strip_prefix-some (c ∷ p) [] t h = cc
strip_prefix-some (c ∷ p) (d ∷ s) t h = ground (arith, strip_prefix-some p s t)

pub split_once-append :
    (c : ℕ) (s t : Text) → has_char c s ≡ false → split_once c (s ++ c ∷ t) ≡ some (s, t)
unfolding split_once has_char
split_once-append c [] t h = ground arith
split_once-append c (x ∷ s) t h = ground (arith, split_once-append c s t)

pub split_once-some :
    (c : ℕ) (s p q : Text)
    → split_once c s ≡ some (p, q)
    → (s ≡ p ++ c ∷ q) × (has_char c p ≡ false)
unfolding split_once has_char
split_once-some c [] p q h = cc
split_once-some c (x ∷ s) p q h = elim (Option-cases (split_once c s)) [
  | inl e ↦ ground arith
  | inr ((a, b), e) ↦ ground (arith, split_once-some c s a b e)
]

pub rsplit_once-none : (c : ℕ) (s : Text) → rsplit_once c s ≡ none → has_char c s ≡ false
unfolding rsplit_once has_char
rsplit_once-none c [] h = refl
rsplit_once-none c (x ∷ s) h = elim (Option-cases (rsplit_once c s)) [
  | inl e ↦ ground (arith, rsplit_once-none c s e)
  | inr (p, e) ↦ ground arith
]

pub rsplit_once-absent : (c : ℕ) (s : Text) → has_char c s ≡ false → rsplit_once c s ≡ none
unfolding rsplit_once has_char
rsplit_once-absent c [] h = refl
rsplit_once-absent c (x ∷ s) h = ground (arith, rsplit_once-absent c s)

pub rsplit_once-append :
    (c : ℕ) (s t : Text) → has_char c t ≡ false → rsplit_once c (s ++ c ∷ t) ≡ some (s, t)
unfolding rsplit_once
rsplit_once-append c [] t h = ground (arith, rsplit_once-absent c t h)
rsplit_once-append c (x ∷ s) t h = rw (rsplit_once-append c s t h, rsplit_once)

pub rsplit_once-some :
    (c : ℕ) (s p q : Text)
    → rsplit_once c s ≡ some (p, q)
    → (s ≡ p ++ c ∷ q) × (has_char c q ≡ false)
unfolding rsplit_once
rsplit_once-some c [] p q h = cc
rsplit_once-some c (x ∷ s) p q h = elim (Option-cases (rsplit_once c s)) [
  | inl e ↦ ground (arith, rsplit_once-none c s e)
  | inr ((a, b), e) ↦ ground (arith, rsplit_once-some c s a b e)
]

pub ends_with-append : (c : ℕ) (s : Text) → ends_with c (s ++ c ∷ []) ≡ true
unfolding ends_with
ends_with-append c [] = ground arith
ends_with-append c (x ∷ []) = ground arith
ends_with-append c (x ∷ y ∷ s) = ends_with-append c (y ∷ s)

pub ends_with-split : (c : ℕ) (s : Text) → ends_with c s ≡ true → (t : Text) × (s ≡ t ++ c ∷ [])
unfolding ends_with
ends_with-split c [] h = cc
ends_with-split c (x ∷ []) h = ([], ground arith)
ends_with-split c (x ∷ y ∷ s) h = let (t, e) = ends_with-split c (y ∷ s) h in (x ∷ t, ap (◌∷◌ x) e)

pub strip_suffix-some : (z s t : Text) → strip_suffix z s ≡ some t → s ≡ t ++ z
unfolding strip_suffix
strip_suffix-some [] [] t h = ground arith
strip_suffix-some (c ∷ z) [] t h = cc
strip_suffix-some z (c ∷ s) t h = elim (Option-cases (strip_suffix z s)) [
  | inl e ↦ ground arith
  | inr (a, e) ↦ ground (arith, strip_suffix-some z s a e)
]

longer : (x : ℕ) (t z : Text) → x ∷ (t ++ z) ≢ z
longer x t z e = omega (arith, ap (length {A = ℕ}) e, length-append {0} t z)

pub strip_suffix-append : (t z : Text) → strip_suffix z (t ++ z) ≡ some t
unfolding strip_suffix
strip_suffix-append [] [] = refl
strip_suffix-append [] (c ∷ z) = ground arith
strip_suffix-append (x ∷ t) z = ground (arith, strip_suffix-append t z, longer x t z)
