-- ===== src/Forwarding/Opening.antt =====
-- sievetube-edge/src/mesh/forward.rs: how the ingress Edge opens a stream through a peer. `St` is the pool
-- and the world; each wait of the exchange changes it and may run into the deadline.
use sievetube.Prelude.{
  text_eq, nat_eq, ◌≡◌, ◌⊎◌, refl, subst, Text, ◌==◌, not, leb, ◌&&◌, ◌-◌, ◌*◌, max, Bool, true,
  Option, none, some, List, ◌++◌, Result, ok, err, ℕ, if◌then◌else◌, arith, Result-cases, inl, inr,
}
use sievetube.Config.{Protocol, text}
use sievetube.MeshWire.{ForwardRequest, ForwardResponse, mesh_version}
use sievetube.Router.{ForwardError}
use sievetube.Routes.{RemoteRoute}
use sievetube.Pool.{
  PeerPool, PoolError, Peers, connection_failed, connection_unresponsive, connection,
}
use sievetube.Pool.Safety.{IsAuthentic, Owns, Waits, Gives, connection-IsAuthentic}
use sievetube.Forwarding.{retryable_error, timeout_error, rejected_error}

-- How a wait of the exchange ends: with a value, an error of the stream, or the deadline.
pub data Io (X : Type 0) : Type 0 where
  done : X → Io X
  broken : Text → Io X
  expired : Io X

pub Io-cases :
    {X : Type 0} (x : Io X)
    → ((v : X) × (x ≡ done v)) ⊎ (((e : Text) × (x ≡ broken e)) ⊎ (x ≡ expired))
Io-cases (done v) = inl (v, refl)
Io-cases (broken e) = inr (inl (e, refl))
Io-cases expired = inr (inr refl)

-- Permits and streams, as the pool and the world go along. `time_left` is in milliseconds.
pub record Streams (C A W S P : Type 0) : Type 0 where
  pub describe_pool : PoolError → Text
  pub permits : Text → Text → PeerPool C × W → (PeerPool C × W) × Result Text P
  pub open_bi : C → PeerPool C × W → (PeerPool C × W) × Io S
  pub time_left : W → ℕ
  pub write_request : S → ForwardRequest A → PeerPool C × W → (PeerPool C × W) × Io Unit
  pub read_response : S → PeerPool C × W → (PeerPool C × W) × Io ForwardResponse
  pub rtt : W → C → ℕ
  pub datagrams : W → C → ℕ

abbrev pub min_silence : ℕ
min_silence = 1000000000

module _ {C A W S P : Type 0} (q : Peers C W) (streams : Streams C A W S P) where
  -- `sent` is the time when the request went out and the datagrams that had arrived by then.
  unfoldable pub went_silent : W → C → ℕ × ℕ → Bool
  went_silent w link (sent_at, received) =
      leb (max (streams.rtt w link * 4) min_silence) (q.now w - sent_at)
      && streams.datagrams w link == received

  unfoldable pub forward_request : Text → ℕ → RemoteRoute A → Text → Protocol → A → ForwardRequest A
  forward_request edge_id id route hostname protocol client_addr = record {
    version = mesh_version;
    ingress_edge_id = edge_id;
    tenant_id = route.tenant_id;
    hostname = hostname;
    protocol = protocol;
    client_addr = client_addr;
    request_id = id;
    hops_remaining = 1;
    connection_generation = route.generation;
    response_budget_ms = none;
  }

  -- `failed` of `open_remote_stream`.
  unfoldable pub stream_failed :
      Text → C → Text → PeerPool C × W → (PeerPool C × W) × Result ForwardError P
  stream_failed edge_id link message (pool, w) = (
    (connection_failed q (not (q.is_open w link)) (q.now w) edge_id link pool, w),
    err (retryable_error message),
  )

  -- The deadline passed; `sent` is `none` before the request went out.
  unfoldable pub unanswered :
      Text → C → Option (ℕ × ℕ) → PeerPool C × W → (PeerPool C × W) × Result ForwardError P
  unanswered edge_id link sent (pool, w) = (
    (
      elim sent [
        | none ↦ pool
        | some at ↦
            if went_silent w link at
            then connection_unresponsive q (q.now w) edge_id link pool
            else pool
      ],
      w,
    ),
    err (timeout_error (text "peer did not answer the forward request")),
  )

  unfoldable pub await_response :
      Text → C → P → S → PeerPool C × W → (PeerPool C × W) × Result ForwardError P
  await_response edge_id link permits stream s =
      let sent : ℕ × ℕ = (q.now s.1, streams.datagrams s.1 link) in
      let read = streams.read_response stream s in
      elim read.1 [
        | expired ↦ unanswered edge_id link (some sent) read.0
        | broken e ↦ stream_failed edge_id link (text "invalid forward response: " ++ e) read.0
        | done response ↦
            if response.accepted
            then (read.0, ok permits)
            else (read.0, err (rejected_error response.reject))
      ]

  unfoldable pub exchange :
      Text → C → P → ForwardRequest A → PeerPool C × W → (PeerPool C × W) × Result ForwardError P
  exchange edge_id link permits request s =
      let opened = streams.open_bi link s in
      elim opened.1 [
        | expired ↦ unanswered edge_id link none opened.0
        | broken e ↦ stream_failed edge_id link (text "cannot open mesh stream: " ++ e) opened.0
        | done stream ↦
            let limited = record request {
              response_budget_ms = some (streams.time_left opened.0.1);
            } in
            let written = streams.write_request stream limited opened.0 in
            elim written.1 [
              | expired ↦ unanswered edge_id link none written.0
              | broken e ↦
                  stream_failed edge_id link (text "cannot send forward request: " ++ e) written.0
              | done u ↦ await_response edge_id link permits stream written.0
            ]
      ]

  -- The part of `open_remote_stream` that follows the connection. `P` is the permits that the stream
  -- of the result keeps.
  unfoldable pub open_on :
      Text
      → ℕ
      → RemoteRoute A
      → Text
      → Protocol
      → A
      → C
      → PeerPool C × W
      → (PeerPool C × W) × Result ForwardError P
  open_on edge_id id route hostname protocol client_addr link s =
      let granted = streams.permits route.tenant_id route.edge_id s in
      elim granted.1 [
        | err message ↦ (
          granted.0,
          err (timeout_error (message ++ text " (edge " ++ route.edge_id ++ text ")")),
        )
        | ok permits ↦
            exchange route.edge_id link permits
              (forward_request edge_id id route hostname protocol client_addr) granted.0
      ]

  unfoldable pub open_remote_stream :
      Text
      → ℕ
      → RemoteRoute A
      → Text
      → Protocol
      → A
      → PeerPool C × W
      → (PeerPool C × W) × Result ForwardError P
  open_remote_stream edge_id id route hostname protocol client_addr s =
      let found = connection q route.edge_id s in
      elim found.1 [
        | err e ↦ (found.0, err (retryable_error (streams.describe_pool e)))
        | ok link ↦ open_on edge_id id route hostname protocol client_addr link found.0
      ]

  -- What a stream through a peer stands for: on a stream that was opened on a connection that
  -- authenticated as the peer of the route, which is allowed, a request of this Edge with one hop left
  -- was written, and the response that was then read from this stream accepts it.
  pub record Accepted (allowed : List Text) (edge_id : Text) (id : ℕ) (route : RemoteRoute A)
      (hostname : Text) (protocol : Protocol) (client_addr : A) : Type 0 where
    pub link : C
    pub stream : S
    pub budget : ℕ
    pub before_open : PeerPool C × W
    pub before_write : PeerPool C × W
    pub before_read : PeerPool C × W
    pub response : ForwardResponse
    pub authentic : Owns q allowed route.edge_id link
    pub opened : streams.open_bi link before_open ≡ (before_write, done stream)
    pub written :
        streams.write_request stream
          (record (forward_request edge_id id route hostname protocol client_addr) {
            response_budget_ms = some budget;
          })
          before_write
        ≡ (before_read, done tt)
    pub answered : (streams.read_response stream before_read).1 ≡ done response
    pub accepted : response.accepted ≡ true

  await_response-ok :
      (edge_id : Text) (link : C) (permits : P) (stream : S) (s : PeerPool C × W) (p : P)
      → (await_response edge_id link permits stream s).1 ≡ ok p
      → (response : ForwardResponse) × ((streams.read_response stream s).1 ≡ done response)
        × (response.accepted ≡ true)
  unfolding await_response unanswered stream_failed
  await_response-ok edge_id link permits stream s p h =
      elim (Io-cases (streams.read_response stream s).1) [
        | inl (response, read) ↦ (response, read, ground arith)
        | inr (inl (e, read)) ↦ absurd (ground arith)
        | inr (inr read) ↦ absurd (ground arith)
      ]

  exchange-ok :
      (allowed : List Text) (edge_id : Text) (id : ℕ) (route : RemoteRoute A) (hostname : Text)
      (protocol : Protocol) (client_addr : A) (link : C) (permits : P) (s : PeerPool C × W) (p : P)
      → Owns q allowed route.edge_id link
      → (exchange route.edge_id link permits
          (forward_request edge_id id route hostname protocol client_addr)
          s).1
        ≡ ok p
      → Accepted allowed edge_id id route hostname protocol client_addr
  unfolding exchange unanswered stream_failed
  exchange-ok allowed edge_id id route hostname protocol client_addr link permits s p own h =
      let opened = streams.open_bi link s in
      elim (Io-cases opened.1) [
        | inr (inl (e, broke)) ↦ absurd (ground arith)
        | inr (inr late) ↦ absurd (ground arith)
        | inl (stream, open_at) ↦
            let limited : ForwardRequest A =
              record (forward_request edge_id id route hostname protocol client_addr) {
                response_budget_ms = some (streams.time_left opened.0.1);
              } in
            let wrote = streams.write_request stream limited opened.0 in
            elim (Io-cases wrote.1) [
              | inr (inl (e, broke)) ↦ absurd (ground arith)
              | inr (inr late) ↦ absurd (ground arith)
              | inl (u, sent) ↦
                  let (response, read, yes_said) =
                    await_response-ok route.edge_id link permits stream wrote.0 p (ground arith) in
                  record {
                    link = link;
                    stream = stream;
                    budget = streams.time_left opened.0.1;
                    before_open = s;
                    before_write = opened.0;
                    before_read = wrote.0;
                    response = response;
                    authentic = own;
                    opened = ground (arith, open_at);
                    written = ground (arith, sent);
                    answered = read;
                    accepted = yes_said;
                  }
            ]
      ]

  -- If other tasks keep the pool's invariant while this one waits for a connection, a stream
  -- through a peer is only opened where a request of this Edge for the hostname, with one hop left
  -- and the tenant and generation of the route, was written to a stream that was opened on a
  -- connection that authenticated as the route's peer, which is allowed, and the response that was
  -- then read from this stream accepts it.
  pub open_remote_stream-Accepted :
      (allowed : List Text) (edge_id : Text) (id : ℕ) (route : RemoteRoute A) (hostname : Text)
      (protocol : Protocol) (client_addr : A) (s : PeerPool C × W) (p : P)
      → Waits q allowed
      → IsAuthentic q allowed s.0
      → (open_remote_stream edge_id id route hostname protocol client_addr s).1 ≡ ok p
      → Accepted allowed edge_id id route hostname protocol client_addr
  unfolding open_remote_stream open_on
  open_remote_stream-Accepted allowed edge_id id route hostname protocol client_addr s p waits v h =
      let found = connection q route.edge_id s in
      elim (Result-cases found.1) [
        | inr (e, failed) ↦ absurd (ground arith)
        | inl (link, got) ↦
            let own : Owns q allowed route.edge_id link =
              subst (Gives q allowed route.edge_id) got
                (connection-IsAuthentic q allowed route.edge_id s waits v).1 in
            let granted = streams.permits route.tenant_id route.edge_id found.0 in
            elim (Result-cases granted.1) [
              | inr (message, refused) ↦ absurd (ground arith)
              | inl (permits, had) ↦
                  exchange-ok allowed edge_id id route hostname protocol client_addr link permits
                    granted.0 p own (ground arith)
            ]
      ]
