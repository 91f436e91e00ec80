-- ===== src/Policy/Tests.antt =====
-- The policy over a concrete world: whole numbers for `f64`, numbers for addresses.
mod Admission
use mathlib.Core.Option
use sievetube.Prelude.{
  nat_eq, text_eq, ℕ_discrete, Text-discrete, ℕ, ◌+◌, ◌-◌, ◌*◌, ◌/◌, ◌≤◌, ◌<◌, ◌≡◌, ◌≢◌, ◌↔◌, ◌⊎◌,
  refl, Text, Bool, true, false, Option, none, some, List, [], ◌∷◌, ◌++◌, ◌==◌, leb, ltb, not, any,
  arith, Result, ok, err, max, min, length,
}
use sievetube.Prelude.Maps.{Map, get, erase, insert, Distinct, keep_unless}
use sievetube.Strings.{
  is_whitespace, trim_start, trim_before, trim_end, trim, onto_first, split, split_once,
  rsplit_once, strip_prefix, is_ascii_digit, digits_u16, parse_u16, has_char,
}
use sievetube.Hostname.{wildcard_for}
use sievetube.Config.{text}
use sievetube.Policy.{
  World, Reason, blocked_cidr, rate_limit, Decision, allow, deny, rate_limited, is_allow, Verdict,
  allowed, rejects, PolicyMode, enforce, monitor, RateLimit, client_ip, tenant_hostname_ip,
  contains,
}
use sievetube.Policy.Bucket.{
  Bucket, BucketTable, TakeError, limited, capacity, u64_max, take_tokens, new_table,
  claim_full_sweep, is_live, retain, sweep, take_at, make_room, fresh, take,
}
use sievetube.Policy.Bucket.Capacity.{length-take, take-capacity_iff}
use sievetube.Policy.Bucket.Sweep.{get-sweep, claim_full_sweep_interval, get-take_ne}
use sievetube.Policy.Slots.{acquire, release, taken}
use sievetube.Policy.Client.{parse_forwarded_ip, hops, walk, resolve_client_ip}
use sievetube.Policy.Client.Spoofing.{
  ends_walk, resolve_client_ip-spoofed, resolve_client_ip-untrusted_hop,
}
use sievetube.Policy.Compile.{CompiledPolicy, domain}
use sievetube.Policy.Admit.{
  plugin_allow, plugin_deny, Policy, RequestContext, TcpPermit, limited_decision, taken_decision,
  take_from, request_key, is_blocked, request_limit, decide_http, decide_plugins, mode_for,
  evaluate_http, drop_permit, acquire_listener, acquire_ip, acquire_tcp, decide_tcp, with_slot,
  admit_tcp, take_bytes, take_packet, decide_udp, admit_udp,
}
use sievetube.Policy.Admit.Http.{evaluate_http-allow, evaluate_http-rejects, admit_udp-refused}
use sievetube.Policy.Admit.Permits.{Counts, Run, start, admit, close, Run-Counts, held_after}

-- The decimal number of a text, for an address.
unfoldable pub digits : ℕ → Text → Option ℕ
digits acc [] = some acc
digits acc (c ∷ s) =
    let rest = digits (acc * 10 + (c - b'0')) s in
    elim (leb b'0' c) [ false ↦ none | true ↦ elim (leb c b'9') [ false ↦ none | true ↦ rest ] ]

unfoldable pub parse : Text → Option ℕ
parse [] = none
parse (c ∷ s) = digits 0 (c ∷ s)

abbrev pub world : World
world = record {
  F = ℕ;
  f_add = λ a b. a + b;
  f_sub = λ a b. a - b;
  f_mul = λ a b. a * b;
  f_div = λ a b. a / b;
  f_min = λ a b. min a b;
  f_max = λ a b. max a b;
  f_ceil = λ a. a;
  f_ge = λ a b. leb b a;
  f_lt = λ a b. ltb a b;
  f_of_nat = λ n. n;
  is_finite = λ a. true;
  to_u64 = λ n. n;
  to_u32 = λ n. n;
  as_secs = λ n. n / 1000000000;
  from_secs = λ n. some (n * 1000000000);
  IpAddr = ℕ;
  IpNet = ℕ;
  to_canonical = λ ip. ip;
  net_contains = λ net ip. net == ip / 10;
  net_of_ip = λ ip. ip / 10;
  trunc = λ net. net;
  parse_ip = parse;
  parse_net = parse;
  hash_request = λ tenant host ip. ip;
  hash_ip = λ ip. ip;
  hash_tcp = λ listener ip. ip;
  hash_packet = λ listener ip. ip;
  hash_byte = λ listener ip. ip;
  hash_slot = λ listener ip. ip;
  hash_listener = λ listener. 7;
}

unfoldable pub program : Unit {0}
unfolding get erase insert contains take_tokens new_table claim_full_sweep is_live retain sweep
    take_at make_room fresh take acquire release parse_forwarded_ip hops walk resolve_client_ip
    domain ends_walk limited_decision taken_decision take_from request_key is_blocked request_limit
    decide_http decide_plugins mode_for evaluate_http drop_permit acquire_listener acquire_ip
    acquire_tcp decide_tcp with_slot admit_tcp take_bytes take_packet decide_udp admit_udp allowed
    rejects digits parse is_whitespace trim_start trim_before trim_end trim onto_first split
    split_once rsplit_once strip_prefix is_ascii_digit digits_u16 parse_u16 wildcard_for has_char
    Text-discrete ℕ_discrete
program = tt

abbrev pub second : ℕ
second = 1000000000

abbrev pub one_per_second : RateLimit world
one_per_second = record { per_second = 1; burst = 1 }

abbrev pub none_yet : BucketTable world
none_yet = record { name = text "http"; buckets = []; next_full_sweep_ms = 0 }

abbrev used : BucketTable world
used = record none_yet {
  buckets = (4, record { tokens = 0; updated = second; full_after = second }) ∷ [];
}

first_take : take world none_yet 4 one_per_second 1 second 1 second ≡ some (used, ok tt)
unfolding program
first_take = refl

abbrev swept : BucketTable world
swept = record used { next_full_sweep_ms = 2000 }

full_take : take world used 5 one_per_second 1 second 1 second ≡ some (swept, err capacity)
unfolding program
full_take = refl

length-take_example : Distinct swept.buckets × (length swept.buckets ≤ max (length used.buckets) 1)
unfolding get
length-take_example =
    length-take world used swept 5 one_per_second 1 second 1 second (err capacity) full_take
      (refl, tt)

abbrev swept_later : BucketTable world
swept_later = record used { next_full_sweep_ms = 4500 }

claims :
    (claim_full_sweep world used second ≡ (swept, true))
    × (claim_full_sweep world swept (3500 * 1000000) ≡ (swept_later, true))
unfolding program
claims = (refl, refl)

-- Addresses 10 to 19 are trusted proxies.
abbrev trusted : List ℕ
trusted = 1 ∷ []

abbrev header : List Text
header = text "1, 25 , 12" ∷ []

header_hops : hops world header ≡ (text "1" ∷ []) ++ text "25" ∷ (text "12" ∷ [])
unfolding program
header_hops = refl

spoofed_hops : hops world (text "99,25,12" ∷ []) ≡ (text "99" ∷ []) ++ text "25" ∷ text "12" ∷ []
unfolding program
spoofed_hops = refl

hop_facts :
    (any (ends_walk world trusted) (text "25" ∷ text "12" ∷ []) ≡ true)
    × (any (ends_walk world trusted) (text "12" ∷ []) ≡ false)
    × (parse_forwarded_ip world (text "25") ≡ some 25)
    × (contains world trusted 25 ≡ false)
    × (contains world trusted 11 ≡ true)
unfolding program
hop_facts = (refl, refl, refl, refl, refl)

resolve_client_ip-spoofed_example :
    resolve_client_ip world 11 header trusted
    ≡ resolve_client_ip world 11 (text "99,25,12" ∷ []) trusted
resolve_client_ip-spoofed_example =
    resolve_client_ip-spoofed world trusted 11 header (text "99,25,12" ∷ []) (text "1" ∷ [])
      (text "99" ∷ []) (text "25" ∷ text "12" ∷ []) header_hops spoofed_hops hop_facts.0
