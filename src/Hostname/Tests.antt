-- ===== src/Hostname/Tests.antt =====
-- Tests after those of hostname.rs, and the theorems at concrete inputs.
use sievetube.Prelude.{
  ◌≡◌, ◌⊎◌, refl, Text, Text-discrete, text_eq, ℕ_discrete, true, false, none, some, [], ◌∷◌, ◌++◌,
  ok, err, ◌>>=◌, ◌↔◌,
}
use sievetube.Config.{text}
use sievetube.Strings.{
  is_whitespace, trim_start, trim_before, trim_end, trim, utf8_len, len, is_ascii, to_lower,
  to_ascii_lowercase, is_ascii_digit, is_ascii_lowercase, is_ascii_alphanumeric, onto_first, split,
  split_once, rsplit_once, strip_prefix, strip_suffix, starts_with, ends_with, has_char, digits_u16,
  parse_u16,
}
use sievetube.Hostname.{
  wildcard_not_allowed, not_ascii, unbracketed_ipv6, userinfo_not_allowed, label_byte, check_label,
  check_labels, without_dot, normalize, normalize_hostname, normalize_hostname_pattern,
  normalize_dns_name, parse_port, port_after_bracket, split_authority, star_dot, matches_pattern,
  wildcard_for, zone_name, is_within_zone,
}
use sievetube.Hostname.Normal.{normalize_idem}
use sievetube.Hostname.Keys.{normalize-dot}
use sievetube.Hostname.Matching.{
  Covers, matches_pattern_iff, wildcard_for-matches, is_within_zone_iff, is_within_zone_trans,
}
use sievetube.Hostname.Authority.{Splits, split_authority-Splits, split_authority-append}

program : Unit {0}
unfolding is_whitespace trim_start trim_before trim_end trim utf8_len len is_ascii to_lower
    to_ascii_lowercase is_ascii_digit is_ascii_lowercase is_ascii_alphanumeric onto_first split
    split_once rsplit_once strip_prefix strip_suffix starts_with ends_with has_char digits_u16
    parse_u16 label_byte check_label check_labels without_dot normalize normalize_hostname
    normalize_hostname_pattern normalize_dns_name parse_port port_after_bracket split_authority
    matches_pattern wildcard_for zone_name is_within_zone Text-discrete ℕ_discrete
program = tt

abbrev web : Text
web = text "web.example.com"

normalizes_names :
    (normalize_hostname (text " Web.Example.COM. ") ≡ ok web)
    × (normalize_hostname (text "*.example.com") ≡ err wildcard_not_allowed)
    × (normalize_hostname_pattern (text "*.Example.com") ≡ ok (text "*.example.com"))
    × (normalize_dns_name (text "_acme-challenge.a.test") ≡ ok (text "_acme-challenge.a.test"))
    × (normalize_hostname (text "例え.jp") ≡ err not_ascii)
unfolding program
normalizes_names = (refl, refl, refl, refl, refl)

splits_authorities :
    (split_authority (text "a.test:8080") ≡ ok (text "a.test", some 8080))
    × (split_authority (text "[::1]:443") ≡ ok (text "::1", some 443))
    × (split_authority (text "[::1]") ≡ ok (text "::1", none))
    × (split_authority (text "::1") ≡ err unbracketed_ipv6)
    × (split_authority (text "user@a.test") ≡ err userinfo_not_allowed)
unfolding program
splits_authorities = (refl, refl, refl, refl, refl)

zones :
    (is_within_zone (text "*.a.example.com") (text "example.com") ≡ true)
    × (is_within_zone (text "badexample.com") (text "example.com") ≡ false)
unfolding program
zones = (refl, refl)

abbrev spelled : Text
spelled = text " Web.Example.COM. "

spelled-web : normalize spelled false false ≡ ok web
unfolding program
spelled-web = refl

same_case : to_ascii_lowercase (text "A.test") ≡ to_ascii_lowercase (text "a.Test")
unfolding program
same_case = refl

normalize_idem_example : normalize web false false ≡ ok web
normalize_idem_example = normalize_idem spelled false false web spelled-web

normalize-dot_example : normalize (web ++ b'.' ∷ []) false false ≡ ok web
normalize-dot_example = normalize-dot spelled false false web spelled-web

matches_pattern_iff_example :
    (matches_pattern (text "*.example.com") web ≡ true)
    ↔ ((text "*.example.com" ≡ web) ⊎ Covers (text "*.example.com") web)
matches_pattern_iff_example = matches_pattern_iff (text "*.example.com") web

wildcard_web : wildcard_for web ≡ some (text "*.example.com")
unfolding program
wildcard_web = refl

web_starts : (starts_with b'.' web ≡ false) × (starts_with b'*' web ≡ false)
unfolding program
web_starts = (refl, refl)

wildcard_for-matches_example : matches_pattern (text "*.example.com") web ≡ true
wildcard_for-matches_example =
    wildcard_for-matches web (text "*.example.com") wildcard_web web_starts.0 web_starts.1

web_matches : matches_pattern (text "*.example.com") web ≡ true
web_matches = wildcard_for-matches web (text "*.example.com") wildcard_web web_starts.0 web_starts.1

is_within_zone_iff_example : (is_within_zone web (text "example.com") ≡ true) ↔ (
    (zone_name web ≡ text "example.com")
    ⊎ ((t : Text) × (zone_name web ≡ t ++ b'.' ∷ text "example.com")))
is_within_zone_iff_example = is_within_zone_iff web (text "example.com")

web_zones :
    (is_within_zone web (text "example.com") ≡ true)
    × (is_within_zone (text "example.com") (text "com") ≡ true)
    × (strip_prefix star_dot (text "example.com") ≡ none)
unfolding program
web_zones = (refl, refl, refl)

is_within_zone_trans_example : is_within_zone web (text "com") ≡ true
is_within_zone_trans_example =
    is_within_zone_trans web (text "example.com") (text "com") web_zones.0 web_zones.1 web_zones.2

with_port_8080 : split_authority (text "a.test:8080") ≡ ok (text "a.test", some 8080)
with_port_8080 = splits_authorities.0

split_authority-Splits_example :
    (has_char b'@' (text "a.test:8080") ≡ false)
    × Splits (text "a.test:8080") (text "a.test") (some 8080)
split_authority-Splits_example =
    split_authority-Splits (text "a.test:8080") (text "a.test") (some 8080) with_port_8080

plain_parts :
    (has_char b'@' (text "a.test") ≡ false)
    × (has_char b':' (text "a.test") ≡ false)
    × (has_char b'[' (text "a.test") ≡ false)
    × (has_char b'@' (text "70000") ≡ false)
    × (has_char b':' (text "70000") ≡ false)
unfolding program
plain_parts = (refl, refl, refl, refl, refl)

split_authority-append_example :
    split_authority (text "a.test" ++ b':' ∷ text "70000")
    ≡ (do p ← parse_port (text "70000"); ok (text "a.test", p))
split_authority-append_example =
    split_authority-append (text "a.test") (text "70000") plain_parts.0 plain_parts.1 plain_parts.2
      plain_parts.3 plain_parts.4
