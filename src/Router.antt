-- ===== src/Router.antt =====
-- sievetube-edge/src/router.rs: where the traffic for a hostname goes, and opening a stream for it. Of
-- the mesh it uses the route table and the cooldown of the pool (mesh/transport.rs). `W` is the state of
-- the world that opening a stream changes, `S` stands for `TunnelStream`, and the two operations that
-- open one stream are parameters.
pub mod Decisions
pub mod Attempts
mod Tests
use sievetube.Prelude.{
  text_eq, nat_eq, ℕ, Text, ltb, not, Bool, true, false, Option, none, some, List, [], ◌∷◌, Result,
  ok, err, if◌then◌else◌, is_empty, select,
}
use sievetube.Prelude.Maps.{Map, get}
use sievetube.Config.{Protocol, text}
use sievetube.Registry.{ConnectorHandle, ConnectorRegistry, supports, get_by_hostname}
use sievetube.Routes.{RemoteRoute}
use sievetube.Routes.Table.{RouteTable, candidates}

pub data RouteDecision (C U A : Type 0) : Type 0 where
  local : ConnectorHandle C U → RouteDecision C U A
  remote : List (RemoteRoute A) → RouteDecision C U A
  unavailable : RouteDecision C U A

pub record OpenError : Type 0 where
  pub message : Text
  pub timed_out : Bool

-- `ForwardError` of mesh/forward.rs.
pub record ForwardError : Type 0 where
  pub message : Text
  pub retryable : Bool
  pub timed_out : Bool

unfoldable pub failed : Text → OpenError
failed message = record { message = message; timed_out = false }

-- What the router reads of `MeshService`: its route table and when each peer's cooldown ends.
pub record Mesh (A : Type 0) : Type 0 where
  pub routes : RouteTable A
  pub cooldown : Map Text ℕ

pub record Router (C U A : Type 0) : Type 0 where
  pub registry : ConnectorRegistry C U
  pub mesh : Option (Mesh A)

module _ {A : Type 0} where
  -- `PeerPool::cooling_down` at the time `now`.
  unfoldable pub cooling_down : Mesh A → ℕ → Text → Bool
  cooling_down mesh now edge_id = elim (get edge_id mesh.cooldown) [
    | none ↦ false
    | some until ↦ ltb now until
  ]

module _ {C U A : Type 0} (utf8 : Text → List ℕ) where
  -- The part of `route` that follows the local lookup.
  unfoldable pub route_remote : Option (Mesh A) → Text → Protocol → ℕ → RouteDecision C U A
  route_remote none hostname protocol now = unavailable
  route_remote (some mesh) hostname protocol now =
      let usable =
        select (λ r. not (cooling_down mesh now r.edge_id))
          (candidates utf8 mesh.routes hostname protocol now) in
      if is_empty usable then unavailable else remote usable

  unfoldable pub route : Router C U A → Text → Protocol → ℕ → RouteDecision C U A
  route r hostname protocol now = elim (get_by_hostname hostname r.registry) [
    | none ↦ route_remote r.mesh hostname protocol now
    | some handle ↦
        if supports handle hostname protocol
        then local handle
        else route_remote r.mesh hostname protocol now
  ]

module _ {C U A : Type 0} where
  unfoldable pub tenant_id : RouteDecision C U A → Option Text
  tenant_id (local handle) = some handle.tenant_id
  tenant_id (remote []) = none
  tenant_id (remote (r ∷ rs)) = some r.tenant_id
  tenant_id unavailable = none

  unfoldable pub is_available : RouteDecision C U A → Bool
  is_available (local handle) = true
  is_available (remote routes) = true
  is_available unavailable = false

module _ {A W S : Type 0} (open_remote_stream : RemoteRoute A → W → W × Result ForwardError S) where
  -- The loop of `open` over the candidates; `last` is the error so far.
  unfoldable pub try_routes : List (RemoteRoute A) → OpenError → W → W × Result OpenError S
  try_routes [] last w = (w, err last)
  try_routes (r ∷ rs) last w =
      let attempt = open_remote_stream r w in
      elim attempt.1 [
        | ok stream ↦ (attempt.0, ok stream)
        | err e ↦
            let error : OpenError = record { message = e.message; timed_out = e.timed_out } in
            let rest = try_routes rs error attempt.0 in
            if e.retryable then rest else (attempt.0, err error)
      ]

-- What opening a stream to a Connector of this Edge gives: `none` is the timeout.
module _ {C U A W S : Type 0}
    (open_local_stream : ConnectorHandle C U → W → W × Option (Result Text S))
    (open_remote_stream : RemoteRoute A → W → W × Result ForwardError S) where
  unfoldable pub open_local : ConnectorHandle C U → W → W × Result OpenError S
  open_local handle w =
      let attempt = open_local_stream handle w in
      elim attempt.1 [
        | none ↦ (
          attempt.0,
          err (record { message = text "opening the tunnel stream timed out"; timed_out = true }),
        )
        | some result ↦ elim result [
          | ok stream ↦ (attempt.0, ok stream)
          | err e ↦ (attempt.0, err (failed e))
        ]
      ]

  -- `Router::open`, where `mesh` says whether the router has a mesh.
  unfoldable pub open_stream : Bool → RouteDecision C U A → W → W × Result OpenError S
  open_stream mesh (local handle) w = open_local handle w
  open_stream false (remote routes) w = (w, err (failed (text "mesh forwarding is not enabled")))
  open_stream true (remote routes) w =
      try_routes open_remote_stream routes (failed (text "no mesh candidate accepted the request"))
        w
  open_stream mesh unavailable w = (w, err (failed (text "no route for hostname")))
