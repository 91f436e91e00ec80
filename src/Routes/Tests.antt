-- ===== src/Routes/Tests.antt =====
-- The routes' theorems at concrete inputs.
use sievetube.Prelude.{
  text_eq, nat_eq, ℕ, ◌≡◌, refl, Text, Text-discrete, true, false, Option, none, some, List, [],
  ◌∷◌, any, arith, ok, ℕ_discrete, ltb,
}
use sievetube.Prelude.Maps.{Map, get, insert, erase, remove_if}
use sievetube.Config.{Protocol, Protocol-discrete, text}
use sievetube.Registry.{
  ConnectorHandle, ConnectorRegistry, Registration, Registered, pos, inc, supports, foreign,
  drop_hostnames, add_hostnames, handle_of, install, register, snapshot, get_by_hostname,
}
use sievetube.Registry as Registry
use sievetube.Registry.Invariant.{IsValid, new-IsValid}
use sievetube.Registry.Register.{register-IsValid}
use sievetube.Routes.{
  RouteAd, EdgeInfo, RemoteRoute, RouteKey-discrete, ads_of_host, ads_for, ads_of_handles,
  local_ads, fnv, rank, text_le, before, insert_sorted, sort_routes,
}
use sievetube.Routes.Ads.{is_ad, any-ads_for, any-local_ads}
use sievetube.Routes.Table.{
  RouteTable, RouteSync, protocols_at, fill, replace, candidates, is_peer, peers_of, addr_of,
  route_of, usable, routes_at, collect_routes, sync,
}
use sievetube.Prelude.Predicates.{All}
use sievetube.Routes.Peers.{IsOffered, candidates-sync}
use sievetube.Routes.Advertiser.{
  Valkey, RouteAdvertiser, request, advertise, withdraw, stop, Step, Steps, stopped-Steps,
}
use sievetube.Routes.Advertiser as Advertiser

program : Unit {0}
unfolding get insert erase remove_if supports Registry.new foreign drop_hostnames add_hostnames
    handle_of install register snapshot get_by_hostname inc ads_of_host ads_for ads_of_handles
    local_ads fnv rank text_le before insert_sorted sort_routes protocols_at fill replace candidates
    is_peer peers_of addr_of route_of usable routes_at collect_routes sync Advertiser.new request
    advertise withdraw stop Text-discrete Protocol-discrete ℕ_discrete RouteKey-discrete
program = tt

abbrev registration : Registration ℕ ℕ
registration = record {
  tenant_id = text "t1";
  hostnames = text "a.test" ∷ text "b.test" ∷ [];
  services = some ((text "a.test", Protocol.http ∷ Protocol.udp ∷ []) ∷ []);
  connection = 11;
  udp_reply_map = 0;
}

abbrev handle : ConnectorHandle ℕ ℕ
handle = record {
  tenant_id = text "t1";
  hostnames = text "a.test" ∷ text "b.test" ∷ [];
  services = some ((text "a.test", Protocol.http ∷ Protocol.udp ∷ []) ∷ []);
  connection = 11;
  connected_at = 5;
  udp_reply_map = 0;
  generation = 1;
}

abbrev registry : ConnectorRegistry ℕ ℕ
registry = record {
  by_hostname = (text "b.test", handle) ∷ (text "a.test", handle) ∷ [];
  by_tenant = (text "t1", handle) ∷ [];
  next_generation = 1;
  active_quic_connections = pos 1;
}

registered :
    register 5 registration Registry.new
    ≡ ok (registry, record { handle = handle; replaced = none })
unfolding program
registered = refl

registry-IsValid : IsValid registry
unfolding Registry.new
registry-IsValid =
    register-IsValid 5 registration Registry.new registry _ registered new-IsValid (omega arith)

any-ads_for_example :
    any
      (is_ad (text "a.test") Protocol.udp)
      (ads_for handle.hostnames (supports handle) (text "t1") (text "e1") 1)
    ≡ true
unfolding program
any-ads_for_example =
    any-ads_for handle.hostnames (supports handle) (text "t1") (text "e1") 1 (text "a.test")
      Protocol.udp

any-local_ads_example :
    any (is_ad (text "a.test") Protocol.udp) (local_ads registry (text "e1")) ≡ true
unfolding program
any-local_ads_example =
    any-local_ads registry (text "e1") (text "a.test") Protocol.udp registry-IsValid

-- Edge e1 allows e2 and e3; e3 is not live.
abbrev setup : RouteSync ℕ
setup = record {
  edge_id = text "e1";
  allowed_peers = text "e2" ∷ text "e3" ∷ [];
  static_addrs = [];
}

abbrev ad_of : Text → RouteAd
ad_of edge = record {
  hostname = text "a.test";
  protocol = Protocol.udp;
  tenant_id = text "t1";
  edge_id = edge;
  generation = 4;
}

abbrev ads : List (RouteAd × ℕ)
ads = (ad_of (text "e1"), 9000) ∷ (ad_of (text "e2"), 9000) ∷ (ad_of (text "e3"), 9000) ∷ []

abbrev infos : Map Text EdgeInfo
infos = (text "e2", record { advertise = text "10.0.0.2:4433"; udp = true }) ∷ []

abbrev parse_addr : Text → Option ℕ
parse_addr t = some 42

abbrev ascii : Text → List ℕ
ascii t = t

abbrev live : List Text
live = text "e1" ∷ text "e2" ∷ []

abbrev remote : RemoteRoute ℕ
remote = record {
  edge_id = text "e2";
  tenant_id = text "t1";
  generation = 4;
  addr = 42;
  expires_at = 4500;
}

sync_offers :
    candidates ascii
      (sync parse_addr ascii setup (some ads) (some live) (λ p. some infos) 500 5000 []).0
      (text "a.test")
      Protocol.udp
      600
    ≡ remote ∷ []
unfolding program
sync_offers = refl

abbrev no_table : RouteTable ℕ
no_table = []

candidates-sync_example :
    All
      (λ r.
        IsOffered parse_addr setup live infos (text "a.test") Protocol.udp r
        × (ltb 600 r.expires_at ≡ true))
      (candidates ascii
        (sync parse_addr ascii setup (some ads) (some live) (λ p. some infos) 500 5000 no_table).0
        (text "a.test")
        Protocol.udp
        600)
candidates-sync_example =
    candidates-sync ascii parse_addr setup ads live (λ p. some infos) infos 500 5000 no_table
      (text "a.test") Protocol.udp 600 refl

-- A control plane that counts the routes that it holds.
abbrev counting : Valkey ℕ
counting = record {
  publish_edge_info = λ i t v. (v, true);
  publish_routes = λ ads t v. (2, true);
  withdraw_routes = λ ads v. (0, true);
  remove_edge_info = λ v. (v, true);
}

abbrev running : RouteAdvertiser ℕ
running = record {
  edge_id = text "e1";
  info = record { advertise = text "10.0.0.1:4433"; udp = true };
  ttl = 30;
  publish_lock = record { covered = 0; stopped = false };
  advertise_requests = 1;
  valkey = 2;
}

abbrev stopped_now : RouteAdvertiser ℕ
stopped_now = stop counting registry running

late : Steps ℕ ℕ counting stopped_now (advertise counting registry 1 stopped_now)
late = Steps.then_step (Steps.done stopped_now) (Step.advertised stopped_now registry 1)

withdrawn : stopped_now.valkey ≡ 0
unfolding program
withdrawn = refl

stopped-Steps_example :
    ((advertise counting registry 1 stopped_now).publish_lock.stopped ≡ true)
    × ((advertise counting registry 1 stopped_now).valkey ≡ 0)
stopped-Steps_example =
    stopped-Steps ℕ ℕ counting (λ v. v ≡ 0) (λ ads v e. refl) (λ v e. e) running registry late
      withdrawn
