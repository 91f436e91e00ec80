-- ===== src/Forwarding/Serving.antt =====
-- sievetube-edge/src/mesh/forward.rs: how the receiving Edge answers a forwarded request. What it reads
-- from the stream, whether it has permits, and how opening the local stream ends, are arguments.
use sievetube.Prelude.{
  text_eq, nat_eq, ℕ, ◌+◌, ◌-◌, ◌*◌, ◌≡◌, ◌↔◌, Text, ◌==◌, not, min, Bool, true, false, Option,
  none, some, Result, ok, err, if◌then◌else◌, arith, Option-cases, Result-cases, inl, inr,
}
use sievetube.MeshWire.{
  ForwardRequest, RejectReason, not_authorized, no_route, overloaded, invalid, validate,
}
use sievetube.Registry.{ConnectorHandle, ConnectorRegistry, supports, get_by_hostname}

-- The end of `tunnel::open_local_stream` under the deadline.
pub data LocalOpen : Type 0 where
  opened failed timed_out : LocalOpen

-- The end of `prepare`, or that the ingress Edge gave the stream up before.
pub data Prepared : Type 0 where
  ready abandoned : Prepared
  refused : RejectReason → Prepared

-- How the request ended: with no answer, a rejection, or a stream to the Connector.
pub data Served (C U : Type 0) : Type 0 where
  unanswered : Served C U
  rejected : RejectReason → Served C U
  forwarded_to : ConnectorHandle C U → Served C U

unfoldable pub prepare : Bool → LocalOpen → Prepared
prepare false outcome = refused overloaded
prepare true LocalOpen.opened = ready
prepare true LocalOpen.failed = refused no_route
prepare true LocalOpen.timed_out = refused overloaded

-- `answer_deadline`, in nanoseconds; the margin is `ANSWER_MARGIN`.
unfoldable pub answer_deadline : ℕ → ℕ → ℕ → Option ℕ → ℕ → ℕ
answer_deadline accept_timeout answer_margin accepted_at budget_ms rtt =
    let budget : ℕ = elim budget_ms [ none ↦ accept_timeout | some ms ↦ ms * 1000000 ] in
    accepted_at + (min budget accept_timeout - (rtt + answer_margin))

module _ {C U A : Type 0} where
  -- The checks of `handle_forward`, before it takes permits.
  unfoldable pub connector_for :
      ConnectorRegistry C U → Text → ForwardRequest A → Result RejectReason (ConnectorHandle C U)
  connector_for registry peer_id request = elim (validate request) [
    | err reason ↦ err reason
    | ok checked ↦
        if not (request.ingress_edge_id == peer_id)
        then err not_authorized
        else elim (get_by_hostname request.hostname registry) [
          | none ↦ err no_route
          | some connector ↦
              if not (connector.tenant_id == request.tenant_id)
              then err not_authorized
              else if not (supports connector request.hostname request.protocol)
              then err no_route
              else ok connector
        ]
  ]

  -- `none` is a request that cannot be read; `written` says whether the acceptance is written.
  unfoldable pub handle_forward :
      ConnectorRegistry C U
      → Text
      → Option (ForwardRequest A)
      → (ConnectorHandle C U → ForwardRequest A → Prepared)
      → Bool
      → Served C U
  handle_forward registry peer_id none prepared written = rejected invalid
  handle_forward registry peer_id (some request) prepared written =
      elim (connector_for registry peer_id request) [
        | err reason ↦ rejected reason
        | ok connector ↦ elim (prepared connector request) [
          | abandoned ↦ unanswered
          | refused reason ↦ rejected reason
          | ready ↦ if written then forwarded_to connector else unanswered
        ]
      ]

  -- What a peer needs for a stream to a Connector of this Edge.
  pub record MayReach (registry : ConnectorRegistry C U) (peer_id : Text)
      (request : ForwardRequest A) (connector : ConnectorHandle C U) : Type 0 where
    pub well_formed : validate request ≡ ok tt
    pub from_peer : request.ingress_edge_id ≡ peer_id
    pub registered : get_by_hostname request.hostname registry ≡ some connector
    pub same_tenant : connector.tenant_id ≡ request.tenant_id
    pub supported : supports connector request.hostname request.protocol ≡ true

  connector_for-ok :
      (registry : ConnectorRegistry C U) (peer_id : Text) (request : ForwardRequest A)
      (x : ConnectorHandle C U)
      → connector_for registry peer_id request ≡ ok x
      → MayReach registry peer_id request x
  unfolding connector_for
  connector_for-ok registry peer_id request x h = elim (Result-cases (validate request)) [
    | inr (reason, bad) ↦ ground arith
    | inl (checked, good) ↦ elim (Option-cases (get_by_hostname request.hostname registry)) [
      | inl missing ↦ ground arith
      | inr (y, found) ↦ record {
        well_formed = good;
        from_peer = ground arith;
        registered = ground arith;
        same_tenant = ground arith;
        supported = ground arith;
      }
    ]
  ]

  MayReach-connector_for :
      (registry : ConnectorRegistry C U) (peer_id : Text) (request : ForwardRequest A)
      (x : ConnectorHandle C U)
      → MayReach registry peer_id request x
      → connector_for registry peer_id request ≡ ok x
  unfolding connector_for
  MayReach-connector_for registry peer_id request x m =
      ground (arith, m.well_formed, m.from_peer, m.registered, m.same_tenant, m.supported)

  -- A peer gets a stream to a Connector exactly if its request can be read and passes the
  -- structural checks, names the authenticated peer as the ingress Edge, and the Connector is the
  -- one registered for the hostname, is of the tenant that the request names and supports hostname
  -- and protocol; and if permits and the local stream are had in time and the acceptance is
  -- written.
  pub handle_forward-reaches_iff :
      (registry : ConnectorRegistry C U) (peer_id : Text) (request : ForwardRequest A)
      (prepared : ConnectorHandle C U → ForwardRequest A → Prepared) (written : Bool)
      (x : ConnectorHandle C U)
      → (handle_forward registry peer_id (some request) prepared written ≡ forwarded_to x)
        ↔ (MayReach registry peer_id request x × (prepared x request ≡ ready) × (written ≡ true))
  unfolding handle_forward
  handle_forward-reaches_iff registry peer_id request prepared written x = (
    λ h. elim (Result-cases (connector_for registry peer_id request)) [
      | inr (reason, bad) ↦ ground arith
      | inl (y, good) ↦
          let same : connector_for registry peer_id request ≡ ok x = ground arith in
          (connector_for-ok registry peer_id request x same, ground arith, ground arith)
    ],
    λ m. ground (arith, MayReach-connector_for registry peer_id request x m.0),
  )
