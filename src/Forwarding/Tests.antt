-- ===== src/Forwarding/Tests.antt =====
-- A request through a peer and at a peer, and datagrams, on concrete states. Connections, addresses and
-- sockets are numbers, and a text is its own bytes.
use sievetube.Prelude.{
  text_eq, nat_eq, ℕ_discrete, Text-discrete, ℕ, ◌≡◌, ◌≤◌, ◌↔◌, refl, Text, ◌==◌, false, true, none,
  some, List, [], ◌∷◌, ok, err, if◌then◌else◌,
}
use sievetube.Prelude.Maps.{get, insert, erase}
use sievetube.Bytes.{Bytes}
use sievetube.Config.{Protocol, text}
use sievetube.Wire.{Codec}
use sievetube.MeshWire.{ForwardRequest, accept, MeshDatagramHeader, MeshDatagramKind}
use sievetube.MeshWire as MeshWire
use sievetube.Registry as Registry
use sievetube.Registry.{ConnectorHandle, ConnectorRegistry}
use sievetube.Routes.{RemoteRoute}
use sievetube.UdpReplies.{new_table}
use sievetube.Pool as Pool
use sievetube.Pool.{PeerPool, Peers}
use sievetube.Pool.Safety.{IsAuthentic, Waits}
use sievetube.Forwarding.Serving.{
  forwarded_to, Prepared, ready, handle_forward, MayReach, handle_forward-reaches_iff,
}
use sievetube.Router.{OpenError, try_routes}
use sievetube.Forwarding.Opening.{
  Streams, done, went_silent, forward_request, stream_failed, unanswered, await_response, exchange,
  open_on, open_remote_stream, Accepted, open_remote_stream-Accepted,
}
use sievetube.Forwarding.Datagrams.{Network, MeshUdp, forward_udp, handle_datagram}
use sievetube.Forwarding.Events.{Event, note_forward, note_sent, forwards, deliveries}
use sievetube.Forwarding.Replies.{Run, start, forwarding, handling, deliveries-le-forwards}

program : Unit {0}
unfolding went_silent forward_request stream_failed unanswered await_response exchange open_on
    open_remote_stream try_routes Pool.is_allowed Pool.is_cooling Pool.usable Pool.connect
    Pool.connect_or_cool Pool.connection_locked Pool.connection get insert erase ℕ_discrete
    Text-discrete accept
program = tt

abbrev edge : Text
edge = text "e2"

abbrev host : Text
host = text "a.test"

abbrev peers : Peers ℕ ℕ
peers = record {
  stable_id = λ c. c;
  peer_edge_id = λ c. if c == 2 then some edge else none;
  is_open = λ w c. true;
  now = λ w. w;
  wait_lock = λ e s. s;
  dial = λ e s. (s, some s.1);
}

abbrev pool : PeerPool ℕ
pool = record { allowed = edge ∷ []; connections = []; cooldown = []; cooldown_period = 10 }

-- The peer accepts every request on stream 4.
abbrev streams : Streams ℕ ℕ ℕ ℕ ℕ
streams = record {
  describe_pool = λ e. [];
  permits = λ tenant e s. (s, ok 1);
  open_bi = λ c s. (s, done 4);
  time_left = λ w. 500;
  write_request = λ stream request s. (s, done tt);
  read_response = λ stream s. (s, done accept);
  rtt = λ w c. 0;
  datagrams = λ w c. 0;
}

abbrev route : RemoteRoute ℕ
route = record {
  edge_id = edge;
  tenant_id = text "t1";
  generation = 4;
  addr = 2;
  expires_at = 4500;
}

opened :
    (open_remote_stream peers streams (text "e1") 7 route host Protocol.http 9 (pool, 2)).1 ≡ ok 1
unfolding program
opened = refl

waits : Waits peers (edge ∷ [])
waits = record { lock = λ e s v. v; dial = λ e s v. v }

pool-IsAuthentic : IsAuthentic peers (edge ∷ []) pool
unfolding IsAuthentic
pool-IsAuthentic = (refl, tt)

open_remote_stream-Accepted_example :
    Accepted peers streams (edge ∷ []) (text "e1") 7 route host Protocol.http 9
open_remote_stream-Accepted_example =
    open_remote_stream-Accepted peers streams (edge ∷ []) (text "e1") 7 route host Protocol.http 9
      (pool, 2) 1 waits pool-IsAuthentic opened

-- The first candidate is no allowed peer, and the second accepts.
abbrev candidates : List (RemoteRoute ℕ)
candidates = record route { edge_id = text "e3" } ∷ route ∷ []

abbrev last : OpenError
last = record { message = []; timed_out = false }

abbrev connector : ConnectorHandle ℕ ℕ
connector = record {
  tenant_id = text "t1";
  hostnames = host ∷ [];
  services = none;
  connection = 6;
  connected_at = 1;
  udp_reply_map = 3;
  generation = 4;
}

abbrev registry : ConnectorRegistry ℕ ℕ
registry = record Registry.new { by_hostname = (host, connector) ∷ [] }

abbrev request : ForwardRequest ℕ
request = record {
  version = 1;
  ingress_edge_id = edge;
  tenant_id = text "t1";
  hostname = host;
  protocol = Protocol.http;
  client_addr = 9;
  request_id = 7;
  hops_remaining = 1;
  connection_generation = 4;
  response_budget_ms = none;
}

abbrev always_ready : ConnectorHandle ℕ ℕ → ForwardRequest ℕ → Prepared
always_ready c r = ready

handle_forward-reaches_iff_example :
    (handle_forward registry edge (some request) always_ready true ≡ forwarded_to connector) ↔ (
      MayReach registry edge request connector
      × (always_ready connector request ≡ ready)
      × (true ≡ true))
handle_forward-reaches_iff_example =
    handle_forward-reaches_iff registry edge request always_ready true connector

abbrev codec : Codec
codec = record {
  SocketAddr = ℕ;
  utf8 = λ s. s;
  from_utf8 = λ b. some b;
  from_utf8-utf8 = λ s. refl;
  json_auth_request = λ m. [];
  json_auth_response = λ m. [];
  json_connect_request = λ m. [];
  read_auth_request = λ b. none;
  read_auth_response = λ b. none;
  read_connect_request = λ b. none;
}

abbrev network : Network ℕ
network = record { max_datagram_size = λ c. none; send_datagram = λ c b. true }

abbrev state : MeshUdp ℕ ℕ ℕ
state = record {
  edge_id = text "e1";
  registry = registry;
  reply_maps = [];
  udp_replies = new_table 8 100;
  request_counter = 7;
}

abbrev forwarded_udp : MeshUdp ℕ ℕ ℕ
forwarded_udp = (forward_udp codec network 10 route (some 2) host (1 ∷ []) 9 5 state).0

abbrev reply : Bytes
reply =
    elim (MeshWire.encode codec
      (record {
        kind = MeshDatagramKind.reply;
        request_id = 7;
        connection_generation = 4;
        ingress_edge_id = text "e1";
        tenant_id = text "t1";
        hostname = host;
      })
      (8 ∷ [])) [ err e ↦ [] | ok bytes ↦ bytes ]

abbrev events : List (Event ℕ)
events =
    note_forward route 9 (forward_udp codec network 10 route (some 2) host (1 ∷ []) 9 5 state).1 []

abbrev later_events : List (Event ℕ)
later_events = note_sent edge (handle_datagram codec network 20 reply edge 2 forwarded_udp).1 events

starts_empty : state.udp_replies.entries ≡ []
unfolding new_table
starts_empty = refl

run : Run codec network later_events (handle_datagram codec network 20 reply edge 2 forwarded_udp).0
run =
    handling (forwarding (start state starts_empty) 10 route (some 2) host (1 ∷ []) 9 5) 20 reply
      edge 2

deliveries-le-forwards_example : deliveries 7 edge 9 later_events ≤ forwards 7 edge 9 later_events
deliveries-le-forwards_example = deliveries-le-forwards codec network run 7 edge 9
