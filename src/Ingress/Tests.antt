-- ===== src/Ingress/Tests.antt =====
-- The ingress theorems at concrete inputs.
use sievetube.Prelude.{
  any, ◌&&◌, text_eq, nat_eq, ◌≡◌, ◌↔◌, refl, ℕ, Text, Text-discrete, ℕ_discrete, Option, none,
  some, List, [], ◌∷◌, ok, contains,
}
use sievetube.Prelude.Maps.{get, insert, erase}
use sievetube.Config.{Protocol, Protocol-discrete, protocol_eq, text}
use sievetube.Strings.{
  strip_prefix, parse_u16, digits_u16, is_ascii_digit, to_ascii_lowercase, to_lower, len, is_ascii,
  is_ascii_lowercase, is_ascii_alphanumeric, split, onto_first, trim, trim_end, trim_start,
  trim_before, is_whitespace, starts_with, ends_with, has_char, strip_suffix, utf8_len,
}
use sievetube.Hostname.{
  normalize_hostname, normalize, check_label, check_labels, without_dot, label_byte,
}
use sievetube.Wire.{ServiceAdvertisement}
use sievetube.Ingress.{
  address, http_status, IngressRule, parse_target, rule_matches, match_request, can_serve, services,
  push_new, protocols_of, add_service, add_services, services_for, claim_hostnames,
  normalize_claimed_hostnames,
}
use sievetube.Ingress.Matching.{IsFirst, match_request-ok_iff}
use sievetube.Ingress.Services.{spells, services_for-services}

program : Unit {0}
unfolding get insert erase trim trim_end trim_start trim_before is_whitespace strip_prefix parse_u16
    digits_u16 is_ascii_digit to_ascii_lowercase to_lower len is_ascii is_ascii_lowercase
    is_ascii_alphanumeric split onto_first starts_with ends_with has_char strip_suffix utf8_len
    normalize_hostname normalize check_label check_labels without_dot label_byte parse_target
    rule_matches match_request can_serve services push_new protocols_of add_service add_services
    services_for claim_hostnames normalize_claimed_hostnames Text-discrete Protocol-discrete
    ℕ_discrete
program = tt

abbrev rules : List IngressRule
rules =
    record {
      hostname = some (text "A.test");
      protocol = some Protocol.tcp;
      target = text "10.0.0.9:22";
    }
    ∷ record { hostname = none; protocol = none; target = text "http_status:404" }
    ∷ []

abbrev parse_addr : Text → Option ℕ
parse_addr t = some 22

matched : match_request parse_addr rules (text "a.test") Protocol.tcp ≡ ok (address 22)
unfolding program
matched = refl

answered : match_request parse_addr rules (text "a.test") Protocol.http ≡ ok (http_status 404)
unfolding program
answered = refl

match_request-ok_iff_example :
    (match_request parse_addr rules (text "a.test") Protocol.http ≡ ok (http_status 404))
    ↔ IsFirst parse_addr rules (text "a.test") Protocol.http (http_status 404)
match_request-ok_iff_example =
    match_request-ok_iff parse_addr rules (text "a.test") Protocol.http (http_status 404)

-- The advertisements of the Edge's own test.
abbrev advertised : List ServiceAdvertisement
advertised =
    record { hostname = text "A.test"; protocols = Protocol.http ∷ Protocol.http ∷ [] }
    ∷ record { hostname = text "evil.test"; protocols = Protocol.tcp ∷ [] }
    ∷ []

kept : services_for (text "a.test" ∷ []) advertised ≡ (text "a.test", Protocol.http ∷ []) ∷ []
unfolding program
kept = refl

claimed :
    normalize_claimed_hostnames (text "A.test" ∷ text "a.test." ∷ []) ≡ ok (text "a.test" ∷ [])
unfolding program
claimed = refl

abbrev raw : List Text
raw = text "A.test" ∷ text "a.test." ∷ []

services_for-services_example :
    contains
      (protocols_of
        (text "a.test")
        (services_for (text "a.test" ∷ []) (services parse_addr rules raw)))
      Protocol.http
    ≡ any (λ k. spells (text "a.test") k && can_serve parse_addr rules k Protocol.http) raw
services_for-services_example =
    services_for-services parse_addr rules raw (text "a.test" ∷ []) (text "a.test") Protocol.http
      claimed
