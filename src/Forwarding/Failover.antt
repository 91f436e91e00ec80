-- ===== src/Forwarding/Failover.antt =====
-- sievetube-edge/src/router.rs with sievetube-edge/src/mesh/forward.rs: `Router::open` over the candidates,
-- each of which `open_remote_stream` tries.
use sievetube.Prelude.{text_eq, nat_eq, Text, List, ◌∷◌, Result, ℕ}
use sievetube.Config.{Protocol}
use sievetube.MeshWire.{ForwardRequest}
use sievetube.Router.{ForwardError}
use sievetube.Routes.{RemoteRoute}
use sievetube.Pool.{PeerPool, Peers}
use sievetube.Pool.Safety.{IsAuthentic, Waits}
use sievetube.Forwarding.Opening.{Streams, open_remote_stream, Accepted}

-- One of the elements has the property.
pub data OneOf {X : Type 0} (Q : X → Type 0) : List X → Type 0 where
  here : {x : X} {xs : List X} → Q x → OneOf Q (x ∷ xs)
  there : {x : X} {xs : List X} → OneOf Q xs → OneOf Q (x ∷ xs)

module _ {C A W S P : Type 0} (q : Peers C W) (streams : Streams C A W S P)
    (allowed : List Text) where
  -- Other tasks keep the pool's invariant while this one waits.
  pub record Shares : Type 0 where
    pub connecting : Waits q allowed
    pub permits :
        (tenant edge : Text) (s : PeerPool C × W)
        → IsAuthentic q allowed s.0
        → IsAuthentic q allowed (streams.permits tenant edge s).0.0
    pub opening :
        (link : C) (s : PeerPool C × W)
        → IsAuthentic q allowed s.0
        → IsAuthentic q allowed (streams.open_bi link s).0.0
    pub writing :
        (stream : S) (request : ForwardRequest A) (s : PeerPool C × W)
        → IsAuthentic q allowed s.0
        → IsAuthentic q allowed (streams.write_request stream request s).0.0
    pub reading :
        (stream : S) (s : PeerPool C × W)
        → IsAuthentic q allowed s.0
        → IsAuthentic q allowed (streams.read_response stream s).0.0

  module _ (edge_id : Text) (id : PeerPool C × W → ℕ) (hostname : Text) (protocol : Protocol)
      (client_addr : A) where
    -- `open_remote_stream` with the request id that the counter gives at that time.
    abbrev pub attempt : RemoteRoute A → PeerPool C × W → (PeerPool C × W) × Result ForwardError P
    attempt route s =
        open_remote_stream q streams edge_id (id s) route hostname protocol client_addr s

    abbrev pub IsServed : RemoteRoute A → Type 0
    IsServed route =
        (at : PeerPool C × W) × Accepted q streams allowed edge_id (id at) route hostname protocol
          client_addr
