-- ===== src/Dns/Quoting/RoundTrip.antt =====
-- A quoted TXT value reads back as itself, and its strings are short enough for DNS.
use sievetube.Prelude.{
  text_eq, nat_eq, ℕ_discrete, ℕ, ◌+◌, ◌≤◌, ◌≡◌, ◌∙◌, refl, sym, ap, subst, Text, ltb, leb, Bool,
  true, List, [], ◌∷◌, ◌++◌, if◌then◌else◌, is_empty, map, all, arith, Bool-cases, inl, inr,
}
use sievetube.Strings.{
  utf8_len, len, trim, trim_start, trim_end, trim_before, is_whitespace, starts_with,
}
use sievetube.Dns.Quoting.{
  quote, between, inside, after_inside, decode_strings, unquote_txt, chunks_from, chunks,
  replace_char, escape, quoted, join_strings, quote_txt,
}

-- The text of a list of chunks.
abbrev pub concat : List Text → Text
concat [] = []
concat (s ∷ ss) = s ++ concat ss

append_assoc : (a b c : Text) → (a ++ b) ++ c ≡ a ++ (b ++ c)
append_assoc [] b c = refl
append_assoc (x ∷ a) b c = ap (λ t. x ∷ t) (append_assoc a b c)

append_nil : (a : Text) → a ++ [] ≡ a
append_nil [] = refl
append_nil (x ∷ a) = ap (λ t. x ∷ t) (append_nil a)

decode_strings-escape :
    (chunk rest : Text)
    → decode_strings inside (escape chunk ++ quote ∷ rest) ≡ chunk ++ decode_strings between rest
unfolding decode_strings after_inside escape replace_char
decode_strings-escape [] rest = ground arith
decode_strings-escape (c ∷ s) rest = ground (arith, decode_strings-escape s rest)

len-append : (a b : Text) → len (a ++ b) ≡ len a + len b
unfolding len
len-append [] b = ground arith
len-append (x ∷ a) b = ground (arith, len-append a b)

concat-chunks_from : (current s : Text) → concat (chunks_from current s) ≡ current ++ s
unfolding chunks_from
concat-chunks_from [] [] = refl
concat-chunks_from (x ∷ a) [] = refl
concat-chunks_from current (c ∷ s) = elim (Bool-cases (ltb 255 (len current + utf8_len c))) [
  | inl over ↦ rw over (ap (λ t. current ++ t) (concat-chunks_from (c ∷ []) s))
  | inr fits ↦ rw fits (concat-chunks_from (current ++ c ∷ []) s ∙ append_assoc current (c ∷ []) s)
]

decode_strings-quoted :
    (chunk rest : Text)
    → decode_strings between (quoted chunk ++ rest) ≡ chunk ++ decode_strings between rest
unfolding quoted decode_strings ℕ_discrete
decode_strings-quoted chunk rest =
    ap (λ t. decode_strings inside t) (append_assoc (escape chunk) (quote ∷ []) rest)
    ∙ decode_strings-escape chunk rest

decode_strings-join :
    (cs : List Text) → decode_strings between (join_strings (map quoted cs)) ≡ concat cs
unfolding join_strings decode_strings ℕ_discrete
decode_strings-join [] = refl
decode_strings-join (c ∷ []) =
    ap (λ t. decode_strings between t) (sym (append_nil (quoted c))) ∙ decode_strings-quoted c []
decode_strings-join (c ∷ d ∷ ds) =
    decode_strings-quoted c (32 ∷ join_strings (map quoted (d ∷ ds)))
    ∙ ap (λ t. c ++ t) (decode_strings-join (d ∷ ds))

-- Quoted strings stand between quotes.
record Enclosed (s : Text) : Type 0 where
  body : Text
  form : s ≡ quote ∷ body ++ quote ∷ []

join_strings-Enclosed : (c : Text) (cs : List Text) → Enclosed (join_strings (map quoted (c ∷ cs)))
unfolding join_strings quoted
join_strings-Enclosed c [] = record { body = escape c; form = refl }
join_strings-Enclosed c (d ∷ ds) =
    let rest = join_strings-Enclosed d ds in
    record {
      body = (escape c ++ quote ∷ []) ++ 32 ∷ quote ∷ rest.body;
      form =
          ap (λ t. quote ∷ (escape c ++ quote ∷ []) ++ 32 ∷ t) rest.form
          ∙ ap (λ t. quote ∷ t)
              (sym (append_assoc (escape c ++ quote ∷ []) (32 ∷ quote ∷ rest.body) (quote ∷ [])));
    }

trim_before-cons : (c x : ℕ) (s : Text) → trim_before c (x ∷ s) ≡ c ∷ x ∷ s
unfolding trim_before
trim_before-cons c x s = refl

trim_end-quote : (s : Text) → trim_end (s ++ quote ∷ []) ≡ s ++ quote ∷ []
unfolding trim_end trim_before is_whitespace ℕ_discrete
trim_end-quote [] = refl
trim_end-quote (x ∷ []) = refl
trim_end-quote (x ∷ y ∷ s) = rw (trim_end-quote (y ∷ s)) refl

trim-Enclosed : (s : Text) → Enclosed s → (trim s ≡ s) × (starts_with quote s ≡ true)
unfolding trim trim_start is_whitespace starts_with ℕ_discrete
trim-Enclosed s e = (rw e.form (trim_end-quote (quote ∷ e.body)), rw e.form refl)

is_empty→≡ : (cs : List Text) → is_empty cs ≡ true → cs ≡ []
is_empty→≡ [] h = refl
is_empty→≡ (c ∷ cs) h = absurd (ground arith)

cons-of :
    (found : List Text)
    → (c : Text) × (cs : List Text) × ((if is_empty found then [] ∷ [] else found) ≡ c ∷ cs)
cons-of [] = ([], [], refl)
cons-of (c ∷ cs) = (c, cs, refl)

concat-chunks : (value : Text) → concat (chunks value) ≡ value
unfolding chunks
concat-chunks value = elim (Bool-cases (is_empty (chunks_from [] value))) [
  | inr more ↦ rw more (concat-chunks_from [] value)
  | inl none_found ↦
      rw none_found (
        sym (ap concat (is_empty→≡ (chunks_from [] value) none_found))
        ∙ concat-chunks_from [] value)
]

chunks-cons : (value : Text) → (c : Text) × (cs : List Text) × (chunks value ≡ c ∷ cs)
unfolding chunks
chunks-cons value = cons-of (chunks_from [] value)

-- A value that was encoded as quoted strings decodes to itself, whatever it is: quotes,
-- backslashes, white space at its ends, and a length of more than one string included.
pub unquote_txt-quote_txt : (value : Text) → unquote_txt (quote_txt value) ≡ value
unfolding unquote_txt quote_txt
unquote_txt-quote_txt value =
    let (c, cs, form) = chunks-cons value in
    let e : Enclosed (quote_txt value) =
      unfold quote_txt in
      subst (λ l. Enclosed (join_strings (map quoted l))) (sym form) (join_strings-Enclosed c cs) in
    let (trimmed, starts) = trim-Enclosed (quote_txt value) e in
    ground (arith, trimmed, starts, decode_strings-join (chunks value), concat-chunks value)

-- Fits in a character string of DNS.
abbrev pub is_short : Text → Bool
is_short c = leb (len c) 255

utf8_len-le : (c : ℕ) → utf8_len c ≤ 4
unfolding utf8_len
utf8_len-le c = ground arith

chunks_from-short :
    (current s : Text) → is_short current ≡ true → all is_short (chunks_from current s) ≡ true
unfolding chunks_from len
chunks_from-short [] [] h = refl
chunks_from-short (x ∷ a) [] h = ground (arith, h)
chunks_from-short current (c ∷ s) h = elim (Bool-cases (ltb 255 (len current + utf8_len c))) [
  | inl over ↦
      let rest = chunks_from-short (c ∷ []) s (ground (arith, utf8_len-le c)) in
      ground (arith, h, rest)
  | inr fits ↦
      let rest =
        chunks_from-short (current ++ c ∷ []) s
          (ground (arith, len-append current (c ∷ []), fits)) in
      ground (arith, rest)
]

-- A value is split so that each string is at most 255 bytes long, and the strings are the value.
pub chunks-short :
    (value : Text) → (all is_short (chunks value) ≡ true) × (concat (chunks value) ≡ value)
unfolding chunks len
chunks-short value = (ground (arith, chunks_from-short [] value refl), concat-chunks value)
