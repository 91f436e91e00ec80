-- ===== src/HttpProxy/Tests.antt =====
-- A request to a routed host, and the theorems at it.
use sievetube.Prelude.{
  text_eq, nat_eq, ℕ_discrete, Text-discrete, ℕ, ◌≡◌, refl, Text, true, false, Option, none, some,
  List, [], ◌∷◌, ok,
}
use sievetube.Prelude.Maps.{get}
use sievetube.Config.{text}
use sievetube.Strings.{
  is_whitespace, trim_start, trim_before, trim_end, trim, utf8_len, len, is_ascii, to_lower,
  to_ascii_lowercase, is_ascii_digit, is_ascii_lowercase, is_ascii_alphanumeric, onto_first, split,
  split_once, rsplit_once, strip_prefix, strip_suffix, starts_with, ends_with, has_char, digits_u16,
  parse_u16,
}
use sievetube.Hostname.{
  label_byte, check_label, check_labels, without_dot, normalize, normalize_hostname,
  normalize_hostname_pattern, normalize_dns_name, parse_port, port_after_bracket, split_authority,
  matches_pattern, wildcard_for, zone_name, is_within_zone,
}
use sievetube.Policy.{Verdict, allow, rejects}
use sievetube.Registry as Registry
use sievetube.Registry.{ConnectorHandle, ConnectorRegistry, get_by_hostname, supports}
use sievetube.Router.{Router, local, route, tenant_id}
use sievetube.HttpProxy.{
  http, Forwarded, Http, Request, scheme_name, get_all, remove, insert_header, remove_all,
  keep_some, split_all, join_with, header_tokens, listed, strip_hop_by_hop, join_cookie_fields,
  chain, apply_forwarded_headers, same_ignoring_case, chosen_authority, request_authority,
  request_hostname, first, upgrade_protocol, with_upgrade, with_forwarded, target_of,
  backend_headers, build_backend_request,
}
use sievetube.HttpProxy.Backend.{IsClean, build_backend_request-IsClean}
use sievetube.HttpProxy.Gate.{
  Incoming, admitted, sni_matches, starts_challenge, gate_route, gate_named, gate, IsAdmitted,
  gate-admitted,
}

program : Unit {0}
unfolding is_whitespace trim_start trim_before trim_end trim utf8_len len is_ascii to_lower
    to_ascii_lowercase is_ascii_digit is_ascii_lowercase is_ascii_alphanumeric onto_first split
    split_once rsplit_once strip_prefix strip_suffix starts_with ends_with has_char digits_u16
    parse_u16 label_byte check_label check_labels without_dot normalize normalize_hostname
    normalize_hostname_pattern normalize_dns_name parse_port port_after_bracket split_authority
    matches_pattern wildcard_for zone_name is_within_zone Text-discrete ℕ_discrete scheme_name
    get_all remove insert_header remove_all keep_some split_all join_with header_tokens listed
    strip_hop_by_hop join_cookie_fields chain apply_forwarded_headers same_ignoring_case
    chosen_authority request_authority request_hostname first upgrade_protocol with_upgrade
    with_forwarded target_of backend_headers build_backend_request get get_by_hostname supports
    route tenant_id Registry.new rejects sni_matches starts_challenge gate_route gate_named gate
program = tt

abbrev crates : Http
crates = record {
  to_str = λ v. some v;
  header_name = λ v. some v;
  value_ok = λ v. true;
  target_ok = λ v. true;
  ip = λ v. some v;
}

-- The client lists `x-own` and claims to be forwarded.
abbrev request : Request
request = record {
  authority = none;
  path_and_query = none;
  is_http11 = true;
  headers =
      (text "host", text "a.b")
      ∷ (text "connection", text "x-own")
      ∷ (text "x-own", text "1")
      ∷ (text "x-forwarded-for", text "9")
      ∷ [];
}

abbrev sent : Request
sent = record {
  authority = none;
  path_and_query = some (text "/");
  is_http11 = true;
  headers =
      (text "x-forwarded-proto", text "http")
      ∷ (text "x-forwarded-for", text "7")
      ∷ (text "host", text "a.b")
      ∷ [];
}

abbrev direct : Option Forwarded
direct = some (record { peer_ip = text "7"; trusted_peer = false })

built : build_backend_request crates request (text "a.b") http none direct ≡ ok sent
unfolding program
built = refl

build_backend_request-IsClean_example : IsClean crates request (text "a.b") http none direct sent
build_backend_request-IsClean_example =
    build_backend_request-IsClean crates request (text "a.b") http none direct sent built

abbrev handle : ConnectorHandle ℕ ℕ
handle = record {
  tenant_id = text "t1";
  hostnames = text "a.b" ∷ [];
  services = none;
  connection = 6;
  connected_at = 1;
  udp_reply_map = 3;
  generation = 4;
}

abbrev router : Router ℕ ℕ ℕ
router = record {
  registry = record Registry.new { by_hostname = (text "a.b", handle) ∷ [] };
  mesh = none;
}

abbrev incoming : Incoming
incoming = record {
  request = request;
  is_connect = false;
  reads = true;
  path = text "/";
  scheme = http;
  sni = none;
}

abbrev allow_all : Text → Text → Incoming → ℕ → ℕ × Verdict
allow_all tenant hostname i w = (w, record { decision = allow; enforced = true })

abbrev bytes : Text → List ℕ
bytes t = t

passes :
    (gate crates bytes 5 allow_all router none incoming 0).1
    ≡ admitted (text "t1") (text "a.b") (text "a.b") (local handle)
unfolding program
passes = refl

gate-admitted_example :
    IsAdmitted crates bytes 5 allow_all router incoming
      (text "t1")
      (text "a.b")
      (text "a.b")
      (local handle)
      0
gate-admitted_example =
    gate-admitted crates bytes 5 allow_all router none incoming 0 (text "t1") (text "a.b")
      (text "a.b") (local handle) passes
