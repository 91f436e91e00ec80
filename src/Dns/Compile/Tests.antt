-- ===== src/Dns/Compile/Tests.antt =====
-- A configuration with one zone, one provider and one record.
use sievetube.Prelude.{
  text_eq, nat_eq, ℕ_discrete, Text-discrete, ◌≡◌, refl, true, false, none, some, [], ◌∷◌, ok,
}
use sievetube.Prelude.Predicates.{All}
use sievetube.Config.{text}
use sievetube.Strings.{
  is_whitespace, trim_start, trim_before, trim_end, trim, utf8_len, len, is_ascii, to_lower,
  to_ascii_lowercase, is_ascii_digit, is_ascii_lowercase, is_ascii_alphanumeric, onto_first, split,
  split_once, rsplit_once, strip_prefix, strip_suffix, starts_with, ends_with, has_char, digits_u16,
  parse_u16,
}
use sievetube.Hostname.{
  label_byte, check_label, check_labels, without_dot, normalize, normalize_hostname,
  normalize_hostname_pattern, normalize_dns_name, parse_port, port_after_bracket, split_authority,
  matches_pattern, wildcard_for, zone_name, is_within_zone,
}
use sievetube.Dns.{RecordType, RecordType-discrete, set_insert}
use sievetube.Dns.Compile.{
  DnsConfig, DnsProviderConfig, DnsRecordConfig, route53, CompiledDns, Parsers, normalize_value,
  normalize_values, normalize_zones, field_set, given, both_or_neither, name_ok, url_ok,
  check_settings, allowed_in, has_name, compile_provider, compile_providers,
}
use sievetube.Dns.Compile.Records.{
  find_spec, is_reserved, ttl_allowed, is_cname, is_txt, is_route53, check_proxied, check_name,
  check_record, same_key, desired_of, compile_named, compile_record, compile_records, shares_name,
  is_mixed, compile,
}
use sievetube.Dns.Compile.Placed.{MayTouch, Apart, compile-MayTouch}

program : Unit {0}
unfolding is_whitespace trim_start trim_before trim_end trim utf8_len len is_ascii to_lower
    to_ascii_lowercase is_ascii_digit is_ascii_lowercase is_ascii_alphanumeric onto_first split
    split_once rsplit_once strip_prefix strip_suffix starts_with ends_with has_char digits_u16
    parse_u16 label_byte check_label check_labels without_dot normalize normalize_hostname
    normalize_hostname_pattern normalize_dns_name parse_port port_after_bracket split_authority
    matches_pattern wildcard_for zone_name is_within_zone Text-discrete ℕ_discrete normalize_value
    normalize_values normalize_zones field_set given both_or_neither name_ok url_ok check_settings
    allowed_in has_name compile_provider compile_providers find_spec is_reserved ttl_allowed
    is_cname is_txt is_route53 check_proxied check_name check_record same_key desired_of
    compile_named compile_record compile_records shares_name is_mixed compile set_insert
    RecordType-discrete
program = tt

abbrev parsers : Parsers
parsers = record { ipv4 = λ v. some v; ipv6 = λ v. none; base_url_ok = λ v. true }

abbrev provider : DnsProviderConfig
provider = record {
  name = text "p";
  kind = route53;
  zone = text "a.b";
  zone_id = none;
  api_token_env = none;
  api_token_file = none;
  api_base_url = none;
  hosted_zone_id = some (text "z");
  endpoint_url = none;
  region = none;
  request_timeout_secs = 15;
}

abbrev wanted : DnsRecordConfig
wanted = record {
  provider = text "p";
  name = text "w.a.b";
  record_type = RecordType.a;
  values = text "1" ∷ [];
  ttl = 300;
  proxied = none;
  takes_over = false;
  absent = false;
}

abbrev config : DnsConfig
config = record { allowed_zones = text "b" ∷ []; providers = provider ∷ []; records = wanted ∷ [] }

abbrev compiled : CompiledDns
compiled = record {
  allowed_zones = text "b" ∷ [];
  providers = record { name = text "p"; kind = route53; zone = text "a.b"; config = provider } ∷ [];
  records =
      record {
        provider = text "p";
        set = record {
          name = text "w.a.b";
          record_type = RecordType.a;
          ttl = 300;
          values = text "1" ∷ [];
          proxied = none;
        };
        takes_over = false;
        absent = false;
      }
      ∷ [];
}

compiles : compile parsers config ≡ ok compiled
unfolding program
compiles = refl

compile-MayTouch_example :
    All (MayTouch compiled.allowed_zones compiled.providers) compiled.records
    × Apart compiled.records
compile-MayTouch_example = compile-MayTouch parsers config compiled compiles
