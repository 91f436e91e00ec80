-- ===== src/Routes/Table.antt =====
-- sievetube-edge/src/mesh/routes.rs: the table of remote routes and the sync that fills it. `A` stands
-- for `SocketAddr`, `utf8` for the bytes of a text and `parse_addr` for the parser of addresses.
use sievetube.Prelude.{
  text_eq, nat_eq, ℕ, ◌+◌, ◌-◌, Text, ◌==◌, ltb, ◌&&◌, not, Bool, true, false, Option, none, some,
  List, [], ◌∷◌, ◌++◌, if◌then◌else◌, contains, select, map,
}
use sievetube.Prelude.Maps.{Map, get, insert}
use sievetube.Config.{Protocol, protocol_eq}
use sievetube.Routes.{RouteAd, EdgeInfo, RemoteRoute, RouteKey, route_key_eq, sort_routes}

-- hostname → protocol → routes
abbrev pub RouteTable : Type 0 → Type 0
RouteTable A = Map Text (Map Protocol (List (RemoteRoute A)))

module _ {A : Type 0} (utf8 : Text → List ℕ) where
  unfoldable pub protocols_at : Text → RouteTable A → Map Protocol (List (RemoteRoute A))
  protocols_at hostname table = elim (get hostname table) [ none ↦ [] | some m ↦ m ]

  -- The loop of `replace`.
  unfoldable pub fill : Map RouteKey (List (RemoteRoute A)) → RouteTable A → RouteTable A
  fill [] table = table
  fill (((hostname, protocol), candidates) ∷ routes) table = fill routes (
      insert hostname
        (insert protocol (sort_routes utf8 hostname candidates) (protocols_at hostname table))
        table)

  -- `RouteTable::replace`: the table is rebuilt, whatever it was.
  unfoldable pub replace : Map RouteKey (List (RemoteRoute A)) → RouteTable A
  replace routes = fill routes []

  unfoldable pub candidates : RouteTable A → Text → Protocol → ℕ → List (RemoteRoute A)
  candidates table hostname protocol now = elim (get hostname table) [
    | none ↦ []
    | some protocols ↦ elim (get protocol protocols) [
      | none ↦ []
      | some routes ↦ select (λ r. ltb now r.expires_at) routes
    ]
  ]

-- `RouteSync`, what it is built with.
pub record RouteSync (A : Type 0) : Type 0 where
  pub edge_id : Text
  pub allowed_peers : List Text
  pub static_addrs : Map Text A

module _ {A : Type 0} (parse_addr : Text → Option A) where
  -- The filter of the peers.
  unfoldable pub is_peer : RouteSync A → List Text → Text → Bool
  is_peer s live edge =
      not (edge == s.edge_id) && (contains s.allowed_peers edge && contains live edge)

  unfoldable pub peers_of : RouteSync A → List Text → List (RouteAd × ℕ) → List Text
  peers_of s live ads = select (is_peer s live) (map (λ e. e.0.edge_id) ads)

  unfoldable pub addr_of : RouteSync A → Text → EdgeInfo → Option A
  addr_of s edge_id info = elim (get edge_id s.static_addrs) [
    | some addr ↦ some addr
    | none ↦ parse_addr info.advertise
  ]

  unfoldable pub route_of : RouteAd → A → ℕ → RemoteRoute A
  route_of ad addr expires_at = record {
    edge_id = ad.edge_id;
    tenant_id = ad.tenant_id;
    generation = ad.generation;
    addr = addr;
    expires_at = expires_at;
  }

  -- One turn of the loop of `sync`: the route that an advertisement gives, none where it is skipped.
  unfoldable pub usable :
      RouteSync A → List Text → Map Text EdgeInfo → ℕ → ℕ → RouteAd → ℕ → Option (RemoteRoute A)
  usable s peers infos now now_ms ad expiry_ms =
      if not (contains peers ad.edge_id) then none else elim (get ad.edge_id infos) [
        | none ↦ none
        | some info ↦
            if ad.protocol == Protocol.udp && not info.udp
            then none
            else elim (addr_of s ad.edge_id info) [
              | none ↦ none
              | some addr ↦ some (route_of ad addr (now + (expiry_ms - now_ms)))
            ]
      ]

  unfoldable pub routes_at : RouteKey → Map RouteKey (List (RemoteRoute A)) → List (RemoteRoute A)
  routes_at key routes = elim (get key routes) [ none ↦ [] | some rs ↦ rs ]

  -- The loop of `sync`.
  unfoldable pub collect_routes :
      RouteSync A
      → List Text
      → Map Text EdgeInfo
      → ℕ
      → ℕ
      → List (RouteAd × ℕ)
      → Map RouteKey (List (RemoteRoute A))
      → Map RouteKey (List (RemoteRoute A))
  collect_routes s peers infos now now_ms [] routes = routes
  collect_routes s peers infos now now_ms ((ad, expiry_ms) ∷ ads) routes =
      collect_routes s peers infos now now_ms ads
        (elim (usable s peers infos now now_ms ad expiry_ms) [
          | none ↦ routes
          | some r ↦
              insert (ad.hostname, ad.protocol)
                (routes_at (ad.hostname, ad.protocol) routes ++ (r ∷ [])) routes
        ])

  -- `sync` with what the control plane answers; where a read fails, the table stays as it is.
  unfoldable pub sync :
      (Text → List ℕ)
      → RouteSync A
      → Option (List (RouteAd × ℕ))
      → Option (List Text)
      → (List Text → Option (Map Text EdgeInfo))
      → ℕ
      → ℕ
      → RouteTable A
      → RouteTable A × Bool
  sync utf8 s none live infos now now_ms table = (table, false)
  sync utf8 s (some ads) none infos now now_ms table = (table, false)
  sync utf8 s (some ads) (some live) fetch now now_ms table =
      let peers = peers_of s live ads in
      elim (fetch peers) [
        | none ↦ (table, false)
        | some infos ↦ (replace utf8 (collect_routes s peers infos now now_ms ads []), true)
      ]
