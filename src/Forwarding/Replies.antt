-- ===== src/Forwarding/Replies.antt =====
-- A reply reaches a client only from the peer that the client's request went to, and once.
use sievetube.Prelude.{
  text_eq, nat_eq, ℕ, ◌+◌, ◌≤◌, ◌≡◌, refl, sym, subst, Text, Eq, Option, none, some, List, [],
  Result, err, arith, Option-cases, Result-cases, inl, inr,
}
use sievetube.Prelude.Maps.{get, Distinct, get-erase, get-retain, retain-Distinct, erase-Distinct}
use sievetube.Bytes.{Bytes}
use sievetube.Wire.{Codec}
use sievetube.MeshWire as MeshWire
use sievetube.MeshWire.{MeshDatagramKind, MeshDatagramHeader}
use sievetube.Registry.{ConnectorHandle}
use sievetube.Routes.{RemoteRoute}
use sievetube.UdpReplies.{
  UdpReplyEntry, UdpReplyTable, is_fresh, insert_reply, unexpired, take_if, remove_reply,
  purge_expired,
}
use sievetube.Forwarding.Datagrams.{
  UdpReplyDestination, Network, MeshUdp, Sent, UdpError, encode_failed, client_via_peer,
  next_request_id, authorized, peer_entry, send_local, send_forward, forward_udp, purge_udp,
  handle_request, expects, deliver, handle_reply, handle_datagram,
}
use sievetube.Forwarding.Events.{
  Event, note_forward, forwards, deliveries, deliveries-note_forward, kind-cases, awaited,
  note_sent, insert_reply-awaited, insert_reply-Distinct, remove_reply-awaited,
}

module _ {C A K : Type 0} ⦃e : Eq A⦄ where
  module _ (c : Codec) (net : Network C) where
    send_forward-awaited :
        (now id : ℕ) (connection : C) (datagram : Bytes) (route : RemoteRoute A) (addr : A)
        (socket : K) (s : MeshUdp C A K) (es : List (Event A)) (j : ℕ) (p : Text) (a : A)
        → Distinct s.udp_replies.entries
        → let out =
            send_forward c net now id connection datagram
              (client_via_peer now addr socket route.edge_id)
              s in
          awaited j p a out.0.udp_replies + forwards j p a es
          ≤ awaited j p a s.udp_replies + forwards j p a (note_forward route addr out.1 es)
    unfolding send_forward client_via_peer
    send_forward-awaited now id connection datagram route addr socket s es j p a d =
        let entry : UdpReplyEntry (UdpReplyDestination C A K) =
          client_via_peer now addr socket route.edge_id in
        ground (
          arith,
          insert_reply-awaited now id entry s.udp_replies j p a d,
          remove_reply-awaited id (insert_reply now id entry s.udp_replies).0 j p a,
        )

    send_forward-Distinct :
        (now id : ℕ) (connection : C) (datagram : Bytes)
        (entry : UdpReplyEntry (UdpReplyDestination C A K)) (s : MeshUdp C A K)
        → Distinct s.udp_replies.entries
        → Distinct (send_forward c net now id connection datagram entry s).0.udp_replies.entries
    unfolding send_forward remove_reply
    send_forward-Distinct now id connection datagram entry s d =
        let noted = insert_reply-Distinct now id entry s.udp_replies d in
        ground (
          arith,
          noted,
          erase-Distinct id (insert_reply now id entry s.udp_replies).0.entries noted,
        )

    -- Between two steps: no id twice, and every request that awaits a reply, and every reply that was
    -- delivered, has a forwarding of its own.
    pub record Accounts (es : List (Event A)) (s : MeshUdp C A K) : Type 0 where
      pub distinct : Distinct s.udp_replies.entries
      pub balance :
          (id : ℕ) (p : Text) (a : A)
          → deliveries id p a es + awaited id p a s.udp_replies ≤ forwards id p a es

    same-Accounts :
        (es fs : List (Event A)) (s t : MeshUdp C A K)
        → fs ≡ es
        → t.udp_replies ≡ s.udp_replies
        → Accounts es s
        → Accounts fs t
    same-Accounts es fs s t events replies v = record {
      distinct = rw replies v.distinct;
      balance = λ id p a. rw (events, replies) (v.balance id p a);
    }

    send_forward-Accounts :
        (now id : ℕ) (connection : C) (datagram : Bytes) (route : RemoteRoute A) (addr : A)
        (socket : K) (s : MeshUdp C A K) (es : List (Event A))
        → Accounts es s
        → let out =
            send_forward c net now id connection datagram
              (client_via_peer now addr socket route.edge_id)
              s in
          Accounts (note_forward route addr out.1 es) out.0
    send_forward-Accounts now id connection datagram route addr socket s es v =
        let entry : UdpReplyEntry (UdpReplyDestination C A K) =
          client_via_peer now addr socket route.edge_id in
        let out = send_forward c net now id connection datagram entry s in
        record {
          distinct = send_forward-Distinct now id connection datagram entry s v.distinct;
          balance = λ j p a. omega (
            arith,
            v.balance j p a,
            deliveries-note_forward route addr out.1 es j p a,
            send_forward-awaited now id connection datagram route addr socket s es j p a v.distinct,
          );
        }

    forward_udp-Accounts :
        (now : ℕ) (route : RemoteRoute A) (connected : Option C) (host : Text) (payload : Bytes)
        (addr : A) (socket : K) (s : MeshUdp C A K) (es : List (Event A))
        → Accounts es s
        → let out = forward_udp c net now route connected host payload addr socket s in
          Accounts (note_forward route addr out.1 es) out.0
    unfolding forward_udp next_request_id
    forward_udp-Accounts now route none host payload addr socket s es v = v
    forward_udp-Accounts now route (some connection) host payload addr socket s es v =
        let header : MeshDatagramHeader = record {
          kind = MeshDatagramKind.request;
          request_id = s.request_counter;
          connection_generation = route.generation;
          ingress_edge_id = s.edge_id;
          tenant_id = route.tenant_id;
          hostname = host;
        } in
        let drawn = (next_request_id s).0 in
        let counted = same-Accounts es es s drawn refl refl v in
        let Good : MeshUdp C A K × Result UdpError ℕ → Type 0 =
          λ out. Accounts (note_forward route addr out.1 es) out.0 in
        let out = forward_udp c net now route (some connection) host payload addr socket s in
        elim (Result-cases (MeshWire.encode c header payload)) [
          | inr (x, refused) ↦
              let same : out ≡ (drawn, err (encode_failed x)) = ground arith in
              subst Good (sym same) counted
          | inl (datagram, encoded) ↦
              let entry : UdpReplyEntry (UdpReplyDestination C A K) =
                client_via_peer now addr socket route.edge_id in
              let same : out
                  ≡ send_forward c net now s.request_counter connection datagram entry drawn =
                ground arith in
              subst Good (sym same) (
                send_forward-Accounts now s.request_counter connection datagram route addr socket
                  drawn es counted)
        ]

    handle_reply-Accounts :
        (now : ℕ) (h : MeshDatagramHeader) (payload : Bytes) (q : Text) (s : MeshUdp C A K)
        (es : List (Event A))
        → Accounts es s
        → let out = handle_reply c net now h payload q s in Accounts (note_sent q out.1 es) out.0
    unfolding handle_reply take_if expects deliver unexpired
    handle_reply-Accounts now h payload q s es v = record {
      distinct = ground (arith, erase-Distinct h.request_id s.udp_replies.entries v.distinct);
      balance = λ id p a.
          ground (arith, v.balance id p a, get-erase h.request_id id s.udp_replies.entries);
    }

    send_local-quiet :
        (id : ℕ) (x : ConnectorHandle C ℕ) (h : MeshDatagramHeader) (payload : Bytes)
        (t : UdpReplyTable (UdpReplyDestination C A K)) (q : Text) (es : List (Event A))
        → note_sent q (send_local c net id x h payload t).1 es ≡ es
    unfolding send_local
    send_local-quiet id x h payload t q es = ground arith

    -- A request changes nothing of what this Edge awaits, and sends nothing to a client.
    handle_request-quiet :
        (now : ℕ) (h : MeshDatagramHeader) (payload : Bytes) (q : Text) (connection : C)
        (s : MeshUdp C A K) (es : List (Event A))
        → let out = handle_request c net now h payload q connection s in
          (note_sent q out.1 es ≡ es) × (out.0.udp_replies ≡ s.udp_replies)
    unfolding handle_request next_request_id
    handle_request-quiet now h payload q connection s es =
        elim (Option-cases (authorized c net s q h)) [
          | inl refused ↦ ground arith
          | inr (x, asked) ↦ elim (Option-cases (get x.udp_reply_map s.reply_maps)) [
            | inl dangling ↦ ground arith
            | inr (replies, found) ↦
                let e : UdpReplyEntry (UdpReplyDestination C A K) =
                  peer_entry now connection h.ingress_edge_id h.request_id h.hostname in
                let noted = insert_reply now s.request_counter e replies in
                ground (arith, send_local-quiet s.request_counter x h payload noted.0 q es)
          ]
        ]

    handle_request-Accounts :
        (now : ℕ) (h : MeshDatagramHeader) (payload : Bytes) (q : Text) (connection : C)
        (s : MeshUdp C A K) (es : List (Event A))
        → Accounts es s
        → let out = handle_request c net now h payload q connection s in
          Accounts (note_sent q out.1 es) out.0
    handle_request-Accounts now h payload q connection s es v =
        let out = handle_request c net now h payload q connection s in
        let (events, replies) = handle_request-quiet now h payload q connection s es in
        same-Accounts es (note_sent q out.1 es) s out.0 events replies v

    purge_udp-Accounts :
        (now : ℕ) (s : MeshUdp C A K) (es : List (Event A))
        → Accounts es s
        → Accounts es (purge_udp c net now s).0
    unfolding purge_udp purge_expired
    purge_udp-Accounts now s es v = record {
      distinct = retain-Distinct (is_fresh now s.udp_replies.ttl) s.udp_replies.entries v.distinct;
      balance = λ id p a. ground (
        arith,
        v.balance id p a,
        get-retain (is_fresh now s.udp_replies.ttl) id s.udp_replies.entries v.distinct,
      );
    }

    handle_datagram-Accounts :
        (now : ℕ) (datagram : Bytes) (q : Text) (connection : C) (s : MeshUdp C A K)
        (es : List (Event A))
        → Accounts es s
        → let out = handle_datagram c net now datagram q connection s in
          Accounts (note_sent q out.1 es) out.0
    unfolding handle_datagram
    handle_datagram-Accounts now datagram q connection s es v =
        let Good : MeshUdp C A K × Option (Sent C A K) → Type 0 =
          λ out. Accounts (note_sent q out.1 es) out.0 in
        let out = handle_datagram c net now datagram q connection s in
        elim (Result-cases (MeshWire.decode c datagram)) [
          | inr (x, malformed) ↦
              let same : out ≡ (s, none) = ground arith in subst Good (sym same) v
          | inl ((h, payload), decoded) ↦ elim (kind-cases h.kind) [
            | inl is_request ↦
                let same : out ≡ handle_request c net now h payload q connection s = ground arith in
                subst Good (sym same) (handle_request-Accounts now h payload q connection s es v)
            | inr is_reply ↦
                let same : out ≡ handle_reply c net now h payload q s = ground arith in
                subst Good (sym same) (handle_reply-Accounts now h payload q s es v)
          ]
        ]

    -- The calls on the state, one at a time, and what they did.
    pub data Run : List (Event A) → MeshUdp C A K → Type 0 where
      start : (s : MeshUdp C A K) → s.udp_replies.entries ≡ [] → Run [] s
      forwarding :
          {es : List (Event A)} {s : MeshUdp C A K}
          → Run es s
          → (now : ℕ) (route : RemoteRoute A) (connected : Option C) (host : Text) (payload : Bytes)
            (addr : A) (socket : K)
          → Run
              (note_forward route addr
                (forward_udp c net now route connected host payload addr socket s).1
                es)
              (forward_udp c net now route connected host payload addr socket s).0
      handling :
          {es : List (Event A)} {s : MeshUdp C A K}
          → Run es s
          → (now : ℕ) (datagram : Bytes) (peer_id : Text) (connection : C)
          → Run
              (note_sent peer_id (handle_datagram c net now datagram peer_id connection s).1 es)
              (handle_datagram c net now datagram peer_id connection s).0
      purging :
          {es : List (Event A)} {s : MeshUdp C A K}
          → Run es s
          → (now : ℕ) → Run es (purge_udp c net now s).0

    start-Accounts : (s : MeshUdp C A K) → s.udp_replies.entries ≡ [] → Accounts [] s
    unfolding get
    start-Accounts s empty = record {
      distinct = rw empty tt;
      balance = λ id p a. rw empty (omega arith);
    }

    Run-Accounts : {es : List (Event A)} {s : MeshUdp C A K} → Run es s → Accounts es s
    Run-Accounts (start s empty) = start-Accounts s empty
    Run-Accounts (forwarding {es} {s} run now route connected host payload addr socket) =
        forward_udp-Accounts now route connected host payload addr socket s es (Run-Accounts run)
    Run-Accounts (handling {es} {s} run now datagram q connection) =
        handle_datagram-Accounts now datagram q connection s es (Run-Accounts run)
    Run-Accounts (purging {es} {s} run now) = purge_udp-Accounts now s es (Run-Accounts run)

    -- However datagrams are forwarded, handled and purged, from an empty table: the replies under a
    -- request id that were delivered to a client from a peer are at most as many as the requests
    -- that were forwarded under this id, for this client, to this very peer.
    pub deliveries-le-forwards :
        {es : List (Event A)} {s : MeshUdp C A K}
        → Run es s
        → (id : ℕ) (p : Text) (a : A) → deliveries id p a es ≤ forwards id p a es
    deliveries-le-forwards run id p a = omega (arith, (Run-Accounts run).balance id p a)
