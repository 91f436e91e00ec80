-- ===== src/Dns/Compile/Records.antt =====
-- sievetube-edge/src/dns/plan.rs: the part of `compile` for the records, and `compile`.
use sievetube.Prelude.{
  text_eq, nat_eq, ℕ, Text, ◌==◌, ltb, leb, ◌&&◌, ◌||◌, not, any, length, Bool, true, false, Option,
  none, some, List, [], ◌∷◌, ◌++◌, Result, ok, err, ◌>>=◌, ◌>>◌, fail_if, if◌then◌else◌, select,
  is_empty,
}
use sievetube.Strings.{split}
use sievetube.Hostname.{normalize_dns_name, is_within_zone}
use sievetube.Dns.{RecordType, record_type_eq}
use sievetube.Dns.Plan.{DesiredRecord}
use sievetube.Dns.Compile.{
  no_allowed_zone, DnsProviderType, DnsRecordConfig, DnsConfig, ProviderSpec, CompiledDns,
  CompileError, acme_challenge_label, Parsers, normalize_values, normalize_zones, compile_providers,
  cloudflare, route53, unknown_provider, invalid_name, outside_zone, reserved_label, value_required,
  one_cname_value, apex_cname, bad_ttl, proxied_elsewhere, proxied_txt, proxied_ttl,
  duplicate_record, cname_and_others, cloudflare, route53,
}

unfoldable pub find_spec : Text → List ProviderSpec → Option ProviderSpec
find_spec name [] = none
find_spec name (p ∷ ps) = if p.name == name then some p else find_spec name ps

-- `name.split('.').next() == Some(ACME_CHALLENGE_LABEL)`
unfoldable pub is_reserved : Text → Bool
is_reserved name = elim (split b'.' name) [
  | [] ↦ false
  | label ∷ labels ↦ label == acme_challenge_label
]

unfoldable pub ttl_allowed : DnsProviderType → ℕ → Bool
ttl_allowed cloudflare ttl = ttl == 1 || (leb 60 ttl && leb ttl 86400)
ttl_allowed route53 ttl = leb 1 ttl && leb ttl 604800

unfoldable pub is_cname : RecordType → Bool
is_cname RecordType.cname = true
is_cname _ = false

unfoldable pub is_txt : RecordType → Bool
is_txt RecordType.txt = true
is_txt _ = false

unfoldable pub is_route53 : DnsProviderType → Bool
is_route53 route53 = true
is_route53 cloudflare = false

unfoldable pub check_proxied : DnsProviderType → DnsRecordConfig → Result CompileError (Unit {0})
check_proxied kind r = elim r.proxied [
  | none ↦ ok tt
  | some proxied ↦ do
    fail_if (is_route53 kind) proxied_elsewhere
    fail_if (proxied && is_txt r.record_type) proxied_txt
    fail_if (proxied && not (r.ttl == 1)) proxied_ttl
]

-- The checks of one record, from where its name is normalized to its values.
unfoldable pub check_name : ProviderSpec → Text → Result CompileError (Unit {0})
check_name spec name = do
  fail_if (not (is_within_zone name spec.zone)) outside_zone
  fail_if (is_reserved name) reserved_label

unfoldable pub check_record :
    ProviderSpec → Text → DnsRecordConfig → List Text → Result CompileError (Unit {0})
check_record spec name r values = do
  fail_if (not r.absent && is_empty values) value_required
  fail_if (is_cname r.record_type && ltb 1 (length values)) one_cname_value
  fail_if (is_cname r.record_type && (name == spec.zone && is_route53 spec.kind)) apex_cname
  fail_if (not (ttl_allowed spec.kind r.ttl)) bad_ttl
  check_proxied spec.kind r

-- Two entries of `keys` are equal.
unfoldable pub same_key : DesiredRecord → DesiredRecord → Bool
same_key d e =
    d.provider == e.provider && (d.set.name == e.set.name && d.set.record_type == e.set.record_type)

unfoldable pub desired_of : ProviderSpec → Text → DnsRecordConfig → List Text → DesiredRecord
desired_of spec name r values = record {
  provider = spec.name;
  set = record {
    name = name;
    record_type = r.record_type;
    ttl = r.ttl;
    values = values;
    proxied = r.proxied;
  };
  takes_over = r.takes_over;
  absent = r.absent;
}

-- The name in its zone, with the values.
unfoldable pub compile_named :
    Parsers → ProviderSpec → Text → DnsRecordConfig → Result CompileError DesiredRecord
compile_named parsers spec name r = do
  check_name spec name
  values ← normalize_values parsers r.record_type r.values
  check_record spec name r values
  ok (desired_of spec name r values)

-- One round of the loop over the records.
unfoldable pub compile_record :
    Parsers
    → List ProviderSpec
    → List DesiredRecord
    → DnsRecordConfig
    → Result CompileError DesiredRecord
compile_record parsers providers before r = elim (find_spec r.provider providers) [
  | none ↦ err unknown_provider
  | some spec ↦ elim (normalize_dns_name r.name) [
    | err e ↦ err invalid_name
    | ok name ↦ do
      d ← compile_named parsers spec name r
      fail_if (any (same_key d) before) duplicate_record
      ok d
  ]
]

unfoldable pub compile_records :
    Parsers
    → List ProviderSpec
    → List DesiredRecord
    → List DnsRecordConfig
    → Result CompileError (List DesiredRecord)
compile_records parsers providers before [] = ok before
compile_records parsers providers before (r ∷ rs) = do
  d ← compile_record parsers providers before r
  compile_records parsers providers (before ++ d ∷ []) rs

-- The records that are in the same entry of `present_types`.
unfoldable pub shares_name : DesiredRecord → DesiredRecord → Bool
shares_name d e = not e.absent && (d.provider == e.provider && d.set.name == e.set.name)

unfoldable pub is_mixed : List DesiredRecord → DesiredRecord → Bool
is_mixed records d =
    not d.absent && is_cname d.set.record_type && ltb 1 (length (select (shares_name d) records))

unfoldable pub compile : Parsers → DnsConfig → Result CompileError CompiledDns
compile parsers cfg = do
  allowed_zones ← normalize_zones cfg.allowed_zones
  fail_if (is_empty allowed_zones) no_allowed_zone
  providers ← compile_providers parsers allowed_zones [] cfg.providers
  records ← compile_records parsers providers [] cfg.records
  fail_if (any (is_mixed records) records) cname_and_others
  ok (record { allowed_zones = allowed_zones; providers = providers; records = records })
