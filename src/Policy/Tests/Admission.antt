-- ===== src/Policy/Tests/Admission.antt =====
-- Decisions of the policy in the world of the tests, and its theorems at them.
use sievetube.Prelude.{nat_eq, ◌≡◌, refl, true, false, none, some, [], ◌∷◌}
use sievetube.Config.{text}
use sievetube.Policy.{
  concurrency_limit, rate_limit, deny, rate_limited, Verdict, enforce, client_ip, allow,
}
use sievetube.Policy.Bucket.{BucketTable}
use sievetube.Policy.Compile.{CompiledPolicy}
use sievetube.Policy.Admit.{
  plugin_allow, Policy, RequestContext, TcpPermit, is_blocked, evaluate_http, drop_permit,
  admit_tcp, take_packet, admit_udp,
}
use sievetube.Policy.Compile.{domain}
use sievetube.Policy.Admit.Http.{evaluate_http-allow}
use sievetube.Policy.Admit.Permits.{Counts, Run, start, admit, Run-Counts}
use sievetube.Policy.Tests.{world, program, second, one_per_second, none_yet}

abbrev policy : CompiledPolicy world
policy = record {
  enabled = true;
  mode = enforce;
  trusted_proxies = 1 ∷ [];
  blocked = 9 ∷ [];
  http_rate = some one_per_second;
  key = client_ip;
  domains = [];
  max_entries = 10;
  idle_ttl = second;
  tcp = record {
    connection_rate = none;
    max_concurrent_per_ip = some 1;
    max_concurrent_per_listener = some 2;
  };
  udp = record { packet_rate = some one_per_second; byte_rate = none };
}

abbrev fresh_policy : Policy world
fresh_policy = record {
  compiled = policy;
  http_buckets = none_yet;
  tcp_buckets = none_yet;
  udp_packet_buckets = none_yet;
  udp_byte_buckets = none_yet;
  tcp_ip_active = [];
  tcp_listener_active = [];
}

abbrev charged : BucketTable world
charged = record none_yet {
  buckets = (25, record { tokens = 0; updated = second; full_after = second }) ∷ [];
}

abbrev blocked_request : RequestContext world
blocked_request = record { tenant_id = text "t"; hostname = text "a.test"; ip = 95 }

abbrev request : RequestContext world
request = record { tenant_id = text "t"; hostname = text "a.test"; ip = 25 }

abbrev allowing : Verdict
allowing = record { decision = allow; enforced = true }

abbrev limiting : Verdict
limiting = record { decision = rate_limited rate_limit 1; enforced = true }

request_facts :
    (is_blocked world policy (domain world policy (text "a.test")) 95 ≡ true)
    × (evaluate_http world fresh_policy plugin_allow request second
        ≡ some (record fresh_policy { http_buckets = charged }, allowing))
    × (evaluate_http world
          (record fresh_policy { http_buckets = charged })
          plugin_allow
          request
          second
        ≡ some (record fresh_policy { http_buckets = charged }, limiting))
unfolding program
request_facts = (refl, refl, refl)

evaluate_http-allow_example :
    (is_blocked world policy (domain world policy (text "a.test")) 25 ≡ false)
    × (plugin_allow ≡ plugin_allow)
evaluate_http-allow_example =
    evaluate_http-allow world fresh_policy (record fresh_policy { http_buckets = charged })
      plugin_allow request second allowing request_facts.1 refl refl

abbrev packets : Policy world
packets = record fresh_policy { udp_packet_buckets = charged }

packet_facts :
    (admit_udp world packets (text "dns") 25 80 second ≡ some (packets, limiting))
    × (take_packet world packets (text "dns") 25 second ≡ some (packets, rate_limited rate_limit 1))
unfolding program
packet_facts = (refl, refl)

abbrev permit : TcpPermit world
permit = record { ip_key = some 25; listener_key = some 7 }

abbrev one_open : Policy world
one_open = record fresh_policy { tcp_ip_active = (25, 1) ∷ []; tcp_listener_active = (7, 1) ∷ [] }

-- The refused second connection of an address gives its listener slot back.
abbrev still_open : Policy world
still_open = record fresh_policy { tcp_ip_active = (25, 1) ∷ []; tcp_listener_active = (7, 1) ∷ [] }

abbrev refusing : Verdict
refusing = record { decision = deny concurrency_limit; enforced = true }

connections :
    (admit_tcp world fresh_policy (text "ssh") 25 0 ≡ some (one_open, allowing, some permit))
    × (admit_tcp world one_open (text "ssh") 25 0 ≡ some (still_open, refusing, none))
    × (drop_permit world still_open permit ≡ fresh_policy)
unfolding program
connections = (refl, refl, refl)

run : Run world fresh_policy still_open (permit ∷ [])
run =
    admit (text "ssh") 25 0 refusing none
      (admit (text "ssh") 25 0 allowing (some permit) start connections.0) connections.1

Run-Counts_example : Counts world still_open (permit ∷ [])
Run-Counts_example = Run-Counts world run refl refl
