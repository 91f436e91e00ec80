-- ===== src/Dns/Quoting.antt =====
-- sievetube-edge/src/dns/mod.rs: TXT values as quoted character strings.
pub mod RoundTrip
mod Tests
use sievetube.Config.{text}
use sievetube.Prelude.{
  text_eq, nat_eq, ℕ, ◌+◌, Text, ◌==◌, ltb, ◌||◌, not, Bool, true, false, List, [], ◌∷◌, ◌++◌,
  if◌then◌else◌, is_empty, map,
}
use sievetube.Strings.{utf8_len, len, trim, starts_with}

abbrev pub quote : ℕ
quote = 34

abbrev pub backslash : ℕ
backslash = 92

-- Where the two loops of `unquote_txt` stand: between strings, in one, or behind its backslash.
pub data Place : Type 0 where
  between inside escaped : Place

-- Where a character inside a string leads.
unfoldable pub after_inside : ℕ → Place
after_inside c = if c == backslash then escaped else if c == quote then between else inside

unfoldable pub decode_strings : Place → Text → Text
decode_strings place [] = []
decode_strings between (c ∷ s) = decode_strings (if c == quote then inside else between) s
decode_strings inside (c ∷ s) =
    let rest = decode_strings (after_inside c) s in
    if c == backslash || c == quote then rest else c ∷ rest
decode_strings escaped (c ∷ s) = c ∷ decode_strings inside s

unfoldable pub unquote_txt : Text → Text
unquote_txt raw =
    let trimmed = trim raw in
    if not (starts_with quote trimmed) then trimmed else decode_strings between trimmed

-- The loop of `quote_txt`, from where `current` is the chunk begun.
unfoldable pub chunks_from : Text → Text → List Text
chunks_from current [] = if is_empty current then [] else current ∷ []
chunks_from current (c ∷ s) =
    let over = ltb 255 (len current + utf8_len c) in
    let rest = chunks_from (if over then c ∷ [] else current ++ c ∷ []) s in
    if over then current ∷ rest else rest

unfoldable pub chunks : Text → List Text
chunks value = let found = chunks_from [] value in if is_empty found then [] ∷ [] else found

-- `replace(c, by)`
unfoldable pub replace_char : ℕ → Text → Text → Text
replace_char c by [] = []
replace_char c by (x ∷ s) =
    let rest = replace_char c by s in if x == c then by ++ rest else x ∷ rest

unfoldable pub escape : Text → Text
escape chunk =
    replace_char quote (backslash ∷ quote ∷ [])
      (replace_char backslash (backslash ∷ backslash ∷ []) chunk)

unfoldable pub quoted : Text → Text
quoted chunk = quote ∷ escape chunk ++ quote ∷ []

-- `join(" ")`
unfoldable pub join_strings : List Text → Text
join_strings [] = []
join_strings (s ∷ []) = s
join_strings (s ∷ t ∷ ts) = s ++ 32 ∷ join_strings (t ∷ ts)

unfoldable pub quote_txt : Text → Text
quote_txt value = join_strings (map quoted (chunks value))
