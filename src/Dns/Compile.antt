-- ===== src/Dns/Compile.antt =====
-- sievetube-edge/src/dns/plan.rs: what the DNS section of the configuration asks for. Parsing an address
-- into its canonical text, and whether Cloudflare's base URL is acceptable, are parameters. The sets
-- `keys` and `present_types` are read off the records so far.
pub mod Records
pub mod Placed
mod Tests
use sievetube.Config.{text}
use sievetube.Prelude.{
  text_eq, nat_eq, ℕ, ◌≤◌, Text, Eq, ◌==◌, ltb, leb, ◌&&◌, ◌||◌, not, any, all, length, Bool, true,
  false, Option, none, some, List, [], ◌∷◌, ◌++◌, Result, ok, err, ◌>>=◌, ◌>>◌, fail_if, ok_or,
  if◌then◌else◌, select, is_empty, contains,
}
use sievetube.Strings.{trim, len, split, is_ascii_lowercase, is_ascii_digit}
use sievetube.Hostname.{normalize_hostname, normalize_dns_name, is_within_zone}
use sievetube.Dns.{RecordType, record_type_eq, RecordSet, set_insert}
use sievetube.Dns.Plan.{DesiredRecord}
use sievetube.Dns.Quoting.{unquote_txt}

pub data DnsProviderType : Type 0 where
  cloudflare route53 : DnsProviderType

pub record DnsProviderConfig : Type 0 where
  pub name : Text
  pub kind : DnsProviderType
  pub zone : Text
  pub zone_id : Option Text
  pub api_token_env : Option Text
  pub api_token_file : Option Text
  pub api_base_url : Option Text
  pub hosted_zone_id : Option Text
  pub endpoint_url : Option Text
  pub region : Option Text
  pub request_timeout_secs : ℕ

pub record DnsRecordConfig : Type 0 where
  pub provider : Text
  pub name : Text
  pub record_type : RecordType
  pub values : List Text
  pub ttl : ℕ
  pub proxied : Option Bool
  pub takes_over : Bool
  pub absent : Bool

pub record DnsConfig : Type 0 where
  pub allowed_zones : List Text
  pub providers : List DnsProviderConfig
  pub records : List DnsRecordConfig

pub record ProviderSpec : Type 0 where
  pub name : Text
  pub kind : DnsProviderType
  pub zone : Text
  pub config : DnsProviderConfig

pub record CompiledDns : Type 0 where
  pub allowed_zones : List Text
  pub providers : List ProviderSpec
  pub records : List DesiredRecord

-- The refusals, one for each message.
pub data CompileError : Type 0 where
  invalid_allowed_zone no_allowed_zone bad_provider_name duplicate_provider invalid_zone :
      CompileError
  zone_not_allowed zone_id_required one_token_required bad_base_url not_cloudflare : CompileError
  hosted_zone_required not_route53 zero_timeout unknown_provider invalid_name : CompileError
  outside_zone reserved_label invalid_value value_required one_cname_value apex_cname : CompileError
  bad_ttl proxied_elsewhere proxied_txt proxied_ttl duplicate_record cname_and_others : CompileError

abbrev pub acme_challenge_label : Text
acme_challenge_label = text "_acme-challenge"

-- `Ipv4Addr` and `Ipv6Addr`, from text to text, and `validate_api_base_url`.
pub record Parsers : Type 0 where
  pub ipv4 : Text → Option Text
  pub ipv6 : Text → Option Text
  pub base_url_ok : Text → Bool

-- `char::is_control`: the category Cc.
unfoldable pub is_control : ℕ → Bool
is_control c = ltb c 32 || (leb 127 c && ltb c 160)

unfoldable pub normalize_value : Parsers → RecordType → Text → Result CompileError Text
normalize_value parsers RecordType.a value = ok_or (parsers.ipv4 (trim value)) invalid_value
normalize_value parsers RecordType.aaaa value = ok_or (parsers.ipv6 (trim value)) invalid_value
normalize_value parsers RecordType.cname value = elim (normalize_dns_name (trim value)) [
  | ok name ↦ ok name
  | err e ↦ err invalid_value
]
normalize_value parsers RecordType.txt value =
    let content = unquote_txt (trim value) in
    if ltb 4000 (len content) || any is_control content then err invalid_value else ok content

unfoldable pub normalize_values : Parsers → RecordType → List Text → Result CompileError (List Text)
normalize_values parsers t [] = ok []
normalize_values parsers t (v ∷ vs) = do
  value ← normalize_value parsers t v
  rest ← normalize_values parsers t vs
  ok (set_insert value rest)

unfoldable pub normalize_zones : List Text → Result CompileError (List Text)
normalize_zones [] = ok []
normalize_zones (z ∷ zs) = elim (normalize_hostname z) [
  | err e ↦ err invalid_allowed_zone
  | ok zone ↦ do rest ← normalize_zones zs; ok (zone ∷ rest)
]

-- `field_set`
unfoldable pub field_set : Option Text → Bool
field_set none = false
field_set (some v) = not (is_empty (trim v))

unfoldable pub given : Option Text → Bool
given none = false
given (some v) = true

unfoldable pub both_or_neither : Bool → Bool → Bool
both_or_neither true b = b
both_or_neither false b = not b

unfoldable pub name_ok : Text → Bool
name_ok name =
    not (is_empty name)
    && all (λ b. is_ascii_lowercase b || is_ascii_digit b || b == b'-' || b == b'_') name

unfoldable pub url_ok : Parsers → Option Text → Bool
url_ok parsers none = true
url_ok parsers (some url) = parsers.base_url_ok url

-- The match on the kind of a provider.
unfoldable pub check_settings :
    Parsers → DnsProviderConfig → DnsProviderType → Result CompileError (Unit {0})
check_settings parsers p cloudflare = do
  fail_if (not (field_set p.zone_id)) zone_id_required
  fail_if (both_or_neither (field_set p.api_token_env) (field_set p.api_token_file))
      one_token_required
  fail_if (not (url_ok parsers p.api_base_url)) bad_base_url
  fail_if (given p.hosted_zone_id || given p.endpoint_url || given p.region) not_cloudflare
check_settings parsers p route53 = do
  fail_if (not (field_set p.hosted_zone_id)) hosted_zone_required
  fail_if
      (given p.zone_id || given p.api_token_env || given p.api_token_file || given p.api_base_url)
      not_route53

unfoldable pub allowed_in : List Text → Text → Bool
allowed_in allowed_zones zone = any (λ a. is_within_zone zone a) allowed_zones

unfoldable pub has_name : Text → ProviderSpec → Bool
has_name name p = p.name == name

-- One round of the loop over the providers; `before` are those of the rounds before.
unfoldable pub compile_provider :
    Parsers → List Text → List ProviderSpec → DnsProviderConfig → Result CompileError ProviderSpec
compile_provider parsers allowed_zones before p = elim (normalize_hostname p.zone) [
  | err e ↦ do
    fail_if (not (name_ok (trim p.name))) bad_provider_name
    fail_if (any (has_name (trim p.name)) before) duplicate_provider
    err invalid_zone
  | ok zone ↦ do
    fail_if (not (name_ok (trim p.name))) bad_provider_name
    fail_if (any (has_name (trim p.name)) before) duplicate_provider
    fail_if (not (allowed_in allowed_zones zone)) zone_not_allowed
    check_settings parsers p p.kind
    fail_if (p.request_timeout_secs == 0) zero_timeout
    ok (record { name = trim p.name; kind = p.kind; zone = zone; config = p })
]

unfoldable pub compile_providers :
    Parsers
    → List Text
    → List ProviderSpec
    → List DnsProviderConfig
    → Result CompileError (List ProviderSpec)
compile_providers parsers allowed_zones before [] = ok before
compile_providers parsers allowed_zones before (p ∷ ps) = do
  spec ← compile_provider parsers allowed_zones before p
  compile_providers parsers allowed_zones (before ++ spec ∷ []) ps
