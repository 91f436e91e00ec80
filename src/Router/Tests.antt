-- ===== src/Router/Tests.antt =====
-- The router's theorems at concrete inputs.
use sievetube.Prelude.{
  text_eq, nat_eq, ℕ, ◌+◌, ◌≡◌, ◌↔◌, ◌==◌, refl, Text, Text-discrete, true, false, some, List, [],
  ◌∷◌, if◌then◌else◌, Result, ok, err, ℕ_discrete,
}
use sievetube.Prelude.Maps.{get}
use sievetube.Config.{Protocol, Protocol-discrete, text}
use sievetube.Registry.{supports, get_by_hostname}
use sievetube.Registry as Registry
use sievetube.Routes.{RemoteRoute}
use sievetube.Routes.Table.{candidates}
use sievetube.Router.{
  remote, OpenError, ForwardError, failed, Mesh, Router, cooling_down, route_remote, route,
  tenant_id, is_available, try_routes, open_local, open_stream,
}
use sievetube.Router.Decisions.{is_some, tenant_id-route}
use sievetube.Router.Attempts.{Opens, try_routes-ok_iff}

program : Unit {0}
unfolding get supports get_by_hostname Registry.new candidates failed cooling_down route_remote
    route tenant_id is_available try_routes open_local open_stream Text-discrete Protocol-discrete
    ℕ_discrete
program = tt

abbrev route_to : Text → ℕ → RemoteRoute ℕ
route_to edge addr = record {
  edge_id = edge;
  tenant_id = text "t1";
  generation = 4;
  addr = addr;
  expires_at = 4500;
}

abbrev ascii : Text → List ℕ
ascii t = t

-- Peer e2 is cooling down until 1000.
abbrev mesh : Mesh ℕ
mesh = record {
  routes =
      (text "a.test", (Protocol.http, route_to (text "e2") 2 ∷ route_to (text "e3") 3 ∷ []) ∷ [])
      ∷ [];
  cooldown = (text "e2", 1000) ∷ [];
}

abbrev router : Router ℕ ℕ ℕ
router = record { registry = Registry.new; mesh = some mesh }

routed : route ascii router (text "a.test") Protocol.http 600 ≡ remote (route_to (text "e3") 3 ∷ [])
unfolding program
routed = refl

tenant_id-route_example :
    is_some (tenant_id (route ascii router (text "a.test") Protocol.http 600)) ≡ true
unfolding program
tenant_id-route_example = tenant_id-route ascii router (text "a.test") Protocol.http 600

-- The world counts the streams that were accepted; the peer at address 2 rejects before accepting.
abbrev attempt : RemoteRoute ℕ → ℕ → ℕ × Result ForwardError ℕ
attempt r w =
    if r.addr == 2
    then (w, err (record { message = []; retryable = true; timed_out = false }))
    else (w + 1, ok r.addr)

abbrev both : List (RemoteRoute ℕ)
both = route_to (text "e2") 2 ∷ route_to (text "e3") 3 ∷ []

abbrev start : OpenError
start = record { message = []; timed_out = false }

try_routes-ok_iff_example : (try_routes attempt both start 0 ≡ (1, ok 3)) ↔ Opens attempt both 0 1 3
try_routes-ok_iff_example = try_routes-ok_iff attempt both start 0 1 3
