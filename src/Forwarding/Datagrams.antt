-- ===== src/Forwarding/Datagrams.antt =====
-- sievetube-edge/src/mesh/forward.rs: UDP datagrams that Edges forward to each other. A reply map is
-- shared by the handles of the registry, so a handle holds the number of its table in `reply_maps`.
use sievetube.Prelude.{
  text_eq, nat_eq, ℕ, ◌+◌, ◌%◌, ◌^◌, Text, ◌==◌, ltb, ◌||◌, not, Bool, false, Option, none, some,
  Result, ok, err, if◌then◌else◌, length,
}
use sievetube.Prelude.Maps.{Map, get, insert}
use sievetube.Bytes.{Bytes}
use sievetube.Config.{Protocol}
use sievetube.Wire.{Codec}
use sievetube.Wire as Wire
use sievetube.MeshWire as MeshWire
use sievetube.MeshWire.{MeshError, MeshDatagramKind, MeshDatagramHeader}
use sievetube.Registry.{ConnectorHandle, ConnectorRegistry, supports, get_by_hostname}
use sievetube.Routes.{RemoteRoute}
use sievetube.UdpReplies.{
  UdpReplyEntry, UdpReplyTable, insert_reply, take_if, remove_reply, purge_expired,
}

-- Where a reply goes.
pub data UdpReplyDestination (C A K : Type 0) : Type 0 where
  client : A → K → UdpReplyDestination C A K
  peer : C → Text → ℕ → Text → UdpReplyDestination C A K

-- What QUIC says of a connection: the largest datagram, and whether one is sent.
pub record Network (C : Type 0) : Type 0 where
  pub max_datagram_size : C → Option ℕ
  pub send_datagram : C → Bytes → Bool

-- The state that datagrams change; `request_counter` is the counter of the process.
pub record MeshUdp (C A K : Type 0) : Type 0 where
  pub edge_id : Text
  pub registry : ConnectorRegistry C ℕ
  pub reply_maps : Map ℕ (UdpReplyTable (UdpReplyDestination C A K))
  pub udp_replies : UdpReplyTable (UdpReplyDestination C A K)
  pub request_counter : ℕ

-- Why a datagram is not forwarded.
pub data UdpError : Type 0 where
  no_connection oversize reply_table_full send_failed : UdpError
  encode_failed : MeshError → UdpError

-- What handling a datagram sends.
pub data Sent (C A K : Type 0) : Type 0 where
  to_connector : C → Bytes → Sent C A K
  to_client : ℕ → A → K → Bytes → Sent C A K

module _ {C A K : Type 0} where
  unfoldable pub client_via_peer : ℕ → A → K → Text → UdpReplyEntry (UdpReplyDestination C A K)
  client_via_peer now addr socket peer_id = record {
    destination = client addr socket;
    expect_peer = some peer_id;
    created = now;
  }

  unfoldable pub peer_entry : ℕ → C → Text → ℕ → Text → UdpReplyEntry (UdpReplyDestination C A K)
  peer_entry now connection ingress_edge_id request_id hostname = record {
    destination = peer connection ingress_edge_id request_id hostname;
    expect_peer = none;
    created = now;
  }

  -- `fetch_add`, which wraps.
  unfoldable pub next_request_id : MeshUdp C A K → MeshUdp C A K × ℕ
  next_request_id s =
      (record s { request_counter = (s.request_counter + 1) % 2 ^ 64 }, s.request_counter)

module _ {C : Type 0} (net : Network C) where
  unfoldable pub too_large : C → Bytes → Bool
  too_large connection datagram = elim (net.max_datagram_size connection) [
    | none ↦ false
    | some limit ↦ ltb limit (length datagram)
  ]

module _ {C A K : Type 0} (c : Codec) (net : Network C) where
  -- The part of `forward_udp` that follows the encoding.
  unfoldable pub send_forward :
      ℕ
      → ℕ
      → C
      → Bytes
      → UdpReplyEntry (UdpReplyDestination C A K)
      → MeshUdp C A K
      → MeshUdp C A K × Result UdpError ℕ
  send_forward now request_id connection datagram e s =
      let noted = insert_reply now request_id e s.udp_replies in
      if too_large net connection datagram
      then (s, err oversize)
      else if not noted.1
      then (record s { udp_replies = noted.0 }, err reply_table_full)
      else if not (net.send_datagram connection datagram)
      then (record s { udp_replies = remove_reply request_id noted.0 }, err send_failed)
      else (record s { udp_replies = noted.0 }, ok request_id)

  -- `forward_udp`; `connected` is what the pool gives, and the result is the id of the request.
  unfoldable pub forward_udp :
      ℕ
      → RemoteRoute A
      → Option C
      → Text
      → Bytes
      → A
      → K
      → MeshUdp C A K
      → MeshUdp C A K × Result UdpError ℕ
  forward_udp now route none hostname payload client_addr socket s = (s, err no_connection)
  forward_udp now route (some connection) hostname payload client_addr socket s =
      let (drawn, request_id) = next_request_id s in
      let header : MeshDatagramHeader = record {
        kind = MeshDatagramKind.request;
        request_id = request_id;
        connection_generation = route.generation;
        ingress_edge_id = s.edge_id;
        tenant_id = route.tenant_id;
        hostname = hostname;
      } in
      elim (MeshWire.encode c header payload) [
        | err e ↦ (drawn, err (encode_failed e))
        | ok datagram ↦
            send_forward now request_id connection datagram
              (client_via_peer now client_addr socket route.edge_id) drawn
      ]

  unfoldable pub purge_udp : ℕ → MeshUdp C A K → MeshUdp C A K × ℕ
  purge_udp now s =
      let (kept, expired) = purge_expired now s.udp_replies in
      (record s { udp_replies = kept }, expired)

  -- The connector for a forwarded request, if the peer may ask for it.
  unfoldable pub authorized :
      MeshUdp C A K → Text → MeshDatagramHeader → Option (ConnectorHandle C ℕ)
  authorized s peer_id header =
      if not (header.ingress_edge_id == peer_id)
      then none
      else elim (get_by_hostname header.hostname s.registry) [
        | none ↦ none
        | some connector ↦
            if not (connector.tenant_id == header.tenant_id)
              || not (supports connector header.hostname Protocol.udp)
            then none
            else some connector
      ]

  -- The request to a connector, once its entry is in the connector's table `noted`.
  unfoldable pub send_local :
      ℕ
      → ConnectorHandle C ℕ
      → MeshDatagramHeader
      → Bytes
      → UdpReplyTable (UdpReplyDestination C A K)
      → UdpReplyTable (UdpReplyDestination C A K) × Option (Sent C A K)
  send_local local_id connector header payload noted =
      let datagram =
        Wire.encode c (record { request_id = local_id; hostname = header.hostname }) payload in
      if too_large net connector.connection datagram
      then (remove_reply local_id noted, none)
      else if not (net.send_datagram connector.connection datagram)
      then (remove_reply local_id noted, none)
      else (noted, some (to_connector connector.connection datagram))

  -- The branch of `handle_datagram` for requests.
  unfoldable pub handle_request :
      ℕ
      → MeshDatagramHeader
      → Bytes
      → Text
      → C
      → MeshUdp C A K
      → MeshUdp C A K × Option (Sent C A K)
  handle_request now header payload peer_id connection s = elim (authorized s peer_id header) [
    | none ↦ (s, none)
    | some connector ↦ elim (get connector.udp_reply_map s.reply_maps) [
      | none ↦ (s, none)
      | some replies ↦
          let (drawn, local_id) = next_request_id s in
          let e =
            peer_entry now connection header.ingress_edge_id header.request_id header.hostname in
          let (noted, fits) = insert_reply now local_id e replies in
          let (left, sent) = send_local local_id connector header payload noted in
          if fits
          then (
            record drawn { reply_maps = insert connector.udp_reply_map left drawn.reply_maps },
            sent,
          )
          else (
            record drawn { reply_maps = insert connector.udp_reply_map noted drawn.reply_maps },
            none,
          )
    ]
  ]

  -- `entry.expect_peer.as_deref() == Some(peer_id)`
  unfoldable pub expects : Text → UdpReplyEntry (UdpReplyDestination C A K) → Bool
  expects peer_id e = elim e.expect_peer [ none ↦ false | some p ↦ p == peer_id ]

  unfoldable pub deliver :
      ℕ → Bytes → UdpReplyEntry (UdpReplyDestination C A K) → Option (Sent C A K)
  deliver request_id payload e = elim e.destination [
    | client addr socket ↦ some (to_client request_id addr socket payload)
    | peer connection edge id host ↦ none
  ]

  -- The branch of `handle_datagram` for replies.
  unfoldable pub handle_reply :
      ℕ → MeshDatagramHeader → Bytes → Text → MeshUdp C A K → MeshUdp C A K × Option (Sent C A K)
  handle_reply now header payload peer_id s =
      if not (header.ingress_edge_id == s.edge_id)
      then (s, none)
      else (let claimed = take_if now header.request_id (expects peer_id) s.udp_replies in
          (
            record s { udp_replies = claimed.0 },
            elim claimed.1 [ none ↦ none | some e ↦ deliver header.request_id payload e ],
          ))

  unfoldable pub handle_datagram :
      ℕ → Bytes → Text → C → MeshUdp C A K → MeshUdp C A K × Option (Sent C A K)
  handle_datagram now datagram peer_id connection s = elim (MeshWire.decode c datagram) [
    | err e ↦ (s, none)
    | ok (header, payload) ↦ elim header.kind [
      | MeshDatagramKind.request ↦ handle_request now header payload peer_id connection s
      | MeshDatagramKind.reply ↦ handle_reply now header payload peer_id s
    ]
  ]
