-- ===== src/Dns/Quoting/Tests.antt =====
-- Quoting a value with a quote, a backslash and a space at its end.
use sievetube.Prelude.{text_eq, nat_eq, ℕ_discrete, ◌≡◌, refl, Text, [], ◌∷◌}
use sievetube.Strings.{utf8_len, len}
use sievetube.Dns.Quoting.{
  quote, backslash, unquote_txt, chunks_from, chunks, replace_char, escape, quoted, join_strings,
  quote_txt,
}
use sievetube.Dns.Quoting.RoundTrip.{unquote_txt-quote_txt}

abbrev value : Text
value = b'a' ∷ quote ∷ backslash ∷ 32 ∷ []

encoded :
    quote_txt value ≡ quote ∷ b'a' ∷ backslash ∷ quote ∷ backslash ∷ backslash ∷ 32 ∷ quote ∷ []
unfolding utf8_len len chunks_from chunks replace_char escape quoted join_strings quote_txt
    ℕ_discrete
encoded = refl

unquote_txt-quote_txt_example : unquote_txt (quote_txt value) ≡ value
unquote_txt-quote_txt_example = unquote_txt-quote_txt value
