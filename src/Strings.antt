-- ===== src/Strings.antt =====
-- What the source uses of `str`: a text is the list of its Unicode scalar values.
pub mod Laws
use sievetube.Prelude.{
  nat_eq, text_eq, ℕ, zero, suc, ◌+◌, ◌-◌, ◌*◌, Text, ◌==◌, leb, ltb, ◌&&◌, ◌||◌, not, Bool, true,
  false, Option, none, some, List, [], ◌∷◌, if◌then◌else◌, all, is_empty,
}
use mathlib.Core.Option

-- `char::is_whitespace`: the code points with the property White_Space.
unfoldable pub is_whitespace : ℕ → Bool
is_whitespace c =
    (leb 9 c && leb c 13)
    || c == 32
    || c == 0x85
    || c == 0xa0
    || c == 0x1680
    || (leb 0x2000 c && leb c 0x200a)
    || c == 0x2028
    || c == 0x2029
    || c == 0x202f
    || c == 0x205f
    || c == 0x3000

unfoldable pub trim_start : Text → Text
trim_start [] = []
trim_start (c ∷ s) = if is_whitespace c then trim_start s else c ∷ s

-- Puts a character before a trimmed rest.
unfoldable pub trim_before : ℕ → Text → Text
trim_before c [] = if is_whitespace c then [] else c ∷ []
trim_before c (d ∷ s) = c ∷ d ∷ s

unfoldable pub trim_end : Text → Text
trim_end [] = []
trim_end (c ∷ s) = trim_before c (trim_end s)

unfoldable pub trim : Text → Text
trim s = trim_end (trim_start s)

-- `len_utf8`, and `len` of a `str` in bytes.
unfoldable pub utf8_len : ℕ → ℕ
utf8_len c = if ltb c 0x80 then 1 else if ltb c 0x800 then 2 else if ltb c 0x10000 then 3 else 4

unfoldable pub len : Text → ℕ
len [] = 0
len (c ∷ s) = utf8_len c + len s

unfoldable pub is_ascii : Text → Bool
is_ascii = all (λ c. ltb c 128)

unfoldable pub to_lower : ℕ → ℕ
to_lower c = if leb b'A' c && leb c b'Z' then c + 32 else c

unfoldable pub to_ascii_lowercase : Text → Text
to_ascii_lowercase [] = []
to_ascii_lowercase (c ∷ s) = to_lower c ∷ to_ascii_lowercase s

unfoldable pub is_ascii_digit : ℕ → Bool
is_ascii_digit c = leb b'0' c && leb c b'9'

unfoldable pub is_ascii_lowercase : ℕ → Bool
is_ascii_lowercase c = leb b'a' c && leb c b'z'

unfoldable pub is_ascii_alphanumeric : ℕ → Bool
is_ascii_alphanumeric c =
    (leb b'0' c && leb c b'9') || (leb b'A' c && leb c b'Z') || (leb b'a' c && leb c b'z')

-- Puts a character at the front of the first piece.
unfoldable pub onto_first : ℕ → List Text → List Text
onto_first c [] = (c ∷ []) ∷ []
onto_first c (l ∷ ls) = (c ∷ l) ∷ ls

-- `split(c)`
unfoldable pub split : ℕ → Text → List Text
split c [] = [] ∷ []
split c (x ∷ s) = let rest = split c s in if x == c then [] ∷ rest else onto_first x rest

-- `split_once(c)`
unfoldable pub split_once : ℕ → Text → Option (Text × Text)
split_once c [] = none
split_once c (x ∷ s) =
    let rest = split_once c s in
    if x == c then some ([], s) else Option.map (λ p. (x ∷ p.0, p.1)) rest

-- `rsplit_once(c)`
unfoldable pub rsplit_once : ℕ → Text → Option (Text × Text)
rsplit_once c [] = none
rsplit_once c (x ∷ s) = elim (rsplit_once c s) [
  | some p ↦ some (x ∷ p.0, p.1)
  | none ↦ if x == c then some ([], s) else none
]

unfoldable pub strip_prefix : Text → Text → Option Text
strip_prefix [] s = some s
strip_prefix (p ∷ ps) [] = none
strip_prefix (p ∷ ps) (c ∷ s) = if p == c then strip_prefix ps s else none

-- `strip_suffix(zone)`: what stands before the suffix.
unfoldable pub strip_suffix : Text → Text → Option Text
strip_suffix z [] = if is_empty z then some [] else none
strip_suffix z (c ∷ s) =
    let rest = strip_suffix z s in
    if ◌==◌ {A = Text} (c ∷ s) z then some [] else Option.map (λ p. c ∷ p) rest

unfoldable pub starts_with : ℕ → Text → Bool
starts_with c [] = false
starts_with c (x ∷ s) = x == c

unfoldable pub ends_with : ℕ → Text → Bool
ends_with c [] = false
ends_with c (x ∷ []) = x == c
ends_with c (x ∷ y ∷ s) = ends_with c (y ∷ s)

-- `contains(c)`
unfoldable pub has_char : ℕ → Text → Bool
has_char c [] = false
has_char c (x ∷ s) = x == c || has_char c s

-- The digits of `parse::<u16>()`: `none` on another character or an overflow.
unfoldable pub digits_u16 : ℕ → Text → Option ℕ
digits_u16 acc [] = some acc
digits_u16 acc (c ∷ s) =
    let next = acc * 10 + (c - b'0') in
    let rest = digits_u16 next s in if is_ascii_digit c && ltb next 65536 then rest else none

unfoldable pub parse_u16 : Text → Option ℕ
parse_u16 [] = none
parse_u16 (c ∷ s) =
    if c == b'+' then (if is_empty s then none else digits_u16 0 s) else digits_u16 0 (c ∷ s)
