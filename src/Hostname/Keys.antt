-- ===== src/Hostname/Keys.antt =====
-- Hostnames as lookup keys: spellings that differ in case or in a final dot have one normal form.
use sievetube.Prelude.{
  nat_eq, text_eq, ℕ, ◌≤◌, ◌<◌, ◌≡◌, refl, ap, sym, ◌∙◌, Text, ◌==◌, ◌&&◌, ◌||◌, Bool, true, false,
  [], ◌∷◌, ◌++◌, all, is_empty, arith, ok,
}
use sievetube.Strings.{
  is_whitespace, trim_start, trim_before, trim_end, trim, len, to_lower, to_ascii_lowercase,
  is_ascii_lowercase, is_ascii_digit, is_ascii_alphanumeric, ends_with, utf8_len,
}
use sievetube.Strings.Laws.{
  to_ascii_lowercase_idem, len-to_ascii_lowercase, is_ascii-to_ascii_lowercase,
  is_empty-to_ascii_lowercase, trim_black,
}
use sievetube.Hostname.{label_byte, without_dot, normalize}
use sievetube.Hostname.Normal.{
  label_char, is_normal-chars, normalize-is_normal, is_normal-normalize, all_black,
}

whitespace-to_lower : (c : ℕ) → is_whitespace (to_lower c) ≡ is_whitespace c
unfolding is_whitespace to_lower
whitespace-to_lower c = ground arith

trim_start-lower :
    (s : Text) → trim_start (to_ascii_lowercase s) ≡ to_ascii_lowercase (trim_start s)
unfolding trim_start to_ascii_lowercase
trim_start-lower [] = refl
trim_start-lower (c ∷ s) = ground (arith, whitespace-to_lower c, trim_start-lower s)

trim_before-lower :
    (c : ℕ) (s : Text)
    → trim_before (to_lower c) (to_ascii_lowercase s) ≡ to_ascii_lowercase (trim_before c s)
unfolding trim_before to_ascii_lowercase
trim_before-lower c [] = ground (arith, whitespace-to_lower c)
trim_before-lower c (d ∷ s) = refl

trim_end-lower : (s : Text) → trim_end (to_ascii_lowercase s) ≡ to_ascii_lowercase (trim_end s)
unfolding trim_end to_ascii_lowercase
trim_end-lower [] = refl
trim_end-lower (c ∷ s) =
    ap (trim_before (to_lower c)) (trim_end-lower s) ∙ trim_before-lower c (trim_end s)

dot-to_lower : (c : ℕ) → (to_lower c == b'.') ≡ (c == b'.')
unfolding to_lower
dot-to_lower c = ground arith

without_dot-lower :
    (s : Text) → without_dot (to_ascii_lowercase s) ≡ to_ascii_lowercase (without_dot s)
unfolding without_dot to_ascii_lowercase
without_dot-lower [] = refl
without_dot-lower (c ∷ []) = ground (arith, dot-to_lower c)
without_dot-lower (c ∷ d ∷ s) = ap (◌∷◌ (to_lower c)) (without_dot-lower (d ∷ s))

name-lower :
    (s : Text)
    → without_dot (trim (to_ascii_lowercase s)) ≡ to_ascii_lowercase (without_dot (trim s))
unfolding trim
name-lower s = rw (trim_start-lower s, trim_end-lower (trim_start s)) (without_dot-lower _)

normalize-lower : (s : Text) (w u : Bool) → normalize (to_ascii_lowercase s) w u ≡ normalize s w u
unfolding normalize
normalize-lower s w u =
    let name = without_dot (trim s) in
    rw (
      name-lower s,
      to_ascii_lowercase_idem name,
      len-to_ascii_lowercase name,
      is_ascii-to_ascii_lowercase name,
      is_empty-to_ascii_lowercase name,
    )

-- Two spellings that differ only in the case of ASCII letters have one result: the same normal
-- form, or the same error.
pub normalize-case :
    (a b : Text) (w u : Bool)
    → to_ascii_lowercase a ≡ to_ascii_lowercase b
    → normalize a w u ≡ normalize b w u
normalize-case a b w u e =
    sym (normalize-lower a w u) ∙ ap (λ s. normalize s w u) e ∙ normalize-lower b w u

without_dot-append : (s : Text) → without_dot (s ++ b'.' ∷ []) ≡ s
unfolding without_dot
without_dot-append [] = ground arith
without_dot-append (c ∷ []) = ground arith
without_dot-append (c ∷ d ∷ s) = ap (◌∷◌ c) (without_dot-append (d ∷ s))

black-dot :
    (w u : Bool) (s : Text)
    → all (λ c. label_char w u c || c == b'.') s ≡ true
    → all (λ c. label_char w u c || c == b'.') (s ++ b'.' ∷ []) ≡ true
black-dot w u [] h = ground arith
black-dot w u (c ∷ s) h = ground (arith, black-dot w u s)

-- The absolute spelling of a normal hostname, with the final dot, has the same normal form.
pub normalize-dot :
    (input : Text) (w u : Bool) (n : Text)
    → normalize input w u ≡ ok n
    → normalize (n ++ b'.' ∷ []) w u ≡ ok n
normalize-dot input w u n h =
    let (normal, low) = normalize-is_normal input w u n h in
    let (cs, last) = is_normal-chars w u n normal in
    let same : without_dot (trim (n ++ b'.' ∷ [])) ≡ n =
      rw (trim_black (n ++ b'.' ∷ []) (all_black w u (n ++ b'.' ∷ []) (black-dot w u n cs)))
        (without_dot-append n) in
    is_normal-normalize (n ++ b'.' ∷ []) w u n same normal low

-- What a normal character is, for each kind of name.
abbrev pub name_char : Bool → Bool → ℕ → Bool
name_char w u c =
    is_ascii_lowercase c
    || is_ascii_digit c
    || c == b'-'
    || c == b'.'
    || (u && c == b'_')
    || (w && c == b'*')

lower_char :
    (w u : Bool) (c : ℕ)
    → (label_char w u c || c == b'.') ≡ true
    → to_lower c ≡ c
    → name_char w u c ≡ true
unfolding label_byte to_lower is_ascii_alphanumeric is_ascii_lowercase is_ascii_digit
lower_char true true c h low = ground arith
lower_char true false c h low = ground arith
lower_char false true c h low = ground arith
lower_char false false c h low = ground arith

lower_chars :
    (w u : Bool) (s : Text)
    → all (λ c. label_char w u c || c == b'.') s ≡ true
    → to_ascii_lowercase s ≡ s
    → all (name_char w u) s ≡ true
unfolding to_ascii_lowercase
lower_chars w u [] h low = refl
lower_chars w u (c ∷ s) h low = ground (arith, lower_char w u c, lower_chars w u s)

len_pos : (s : Text) → is_empty s ≡ false → 0 < len s
unfolding len utf8_len
len_pos [] h = cc
len_pos (c ∷ s) h = ground arith

-- A normal form has 1 to 253 bytes, only characters that a name may have, and no dot at its end.
pub normalize_shape :
    (input : Text) (w u : Bool) (n : Text)
    → normalize input w u ≡ ok n
    → (0 < len n) × (len n ≤ 253) × (all (name_char w u) n ≡ true) × (ends_with b'.' n ≡ false)
normalize_shape input w u n h =
    let (normal, low) = normalize-is_normal input w u n h in
    let (cs, last) = is_normal-chars w u n normal in
    (len_pos n (ground arith), ground arith, lower_chars w u n cs low, last)
