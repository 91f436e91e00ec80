-- ===== src/Routes/Peers.antt =====
-- Which routes the table offers: only those of live peers that the configuration allows.
use sievetube.Prelude.{
  subst, sym, map, text_eq, nat_eq, ℕ, ◌+◌, ◌-◌, ◌≡◌, refl, Text, ◌==◌, ltb, ◌&&◌, Bool, true,
  false, Option, some, List, [], ◌∷◌, ◌++◌, contains, select, arith, Option-cases, Bool-cases, inl,
  inr,
}
use sievetube.Prelude.Maps.{Map, get, insert}
use sievetube.Prelude.Predicates.{All, All-append, All-select, Entries, insert-Entries, get-Entries}
use sievetube.Config.{Protocol, protocol_eq}
use sievetube.Routes.{
  RouteAd, EdgeInfo, RemoteRoute, RouteKey, route_key_eq, insert_sorted, sort_routes, before,
}
use sievetube.Routes.Table.{
  RouteTable, RouteSync, protocols_at, fill, replace, candidates, is_peer, peers_of, addr_of,
  route_of, usable, routes_at, collect_routes, sync,
}

module _ {A : Type 0} (utf8 : Text → List ℕ) where
  All-insert_sorted :
      (P : RemoteRoute A → Type 0) (h : Text) (r : RemoteRoute A) (rs : List (RemoteRoute A))
      → P r
      → All P rs
      → All P (insert_sorted utf8 h r rs)
  unfolding insert_sorted
  All-insert_sorted P h r [] p q = (p, tt)
  All-insert_sorted P h r (s ∷ ss) p q = elim (Bool-cases (before utf8 h r s)) [
    | inl first ↦ rw first (p, q)
    | inr later ↦ rw later (q.0, All-insert_sorted P h r ss p q.1)
  ]

  All-sort_routes :
      (P : RemoteRoute A → Type 0) (h : Text) (rs : List (RemoteRoute A))
      → All P rs
      → All P (sort_routes utf8 h rs)
  unfolding sort_routes
  All-sort_routes P h [] q = tt
  All-sort_routes P h (r ∷ rs) q =
      All-insert_sorted P h r (sort_routes utf8 h rs) q.0 (All-sort_routes P h rs q.1)

module _ {A : Type 0} (utf8 : Text → List ℕ) (P : Text → Protocol → RemoteRoute A → Type 0) where
  Routes : Map RouteKey (List (RemoteRoute A)) → Type 0
  Routes m = Entries (λ k. All (P k.0 k.1)) m

  Table : RouteTable A → Type 0
  Table t = Entries (λ h. Entries (λ p. All (P h p))) t

  protocols_at-Entries :
      (h : Text) (t : RouteTable A) → Table t → Entries (λ p. All (P h p)) (protocols_at utf8 h t)
  unfolding Table protocols_at
  protocols_at-Entries h t v = elim (Option-cases (get h t)) [
    | inl absent ↦
        let same : protocols_at utf8 h t ≡ [] = ground arith in
        subst (Entries (λ p. All (P h p))) (sym same) tt
    | inr (m, found) ↦
        let same : protocols_at utf8 h t ≡ m = ground arith in
        subst (Entries (λ p. All (P h p))) (sym same)
          (get-Entries (λ h. Entries (λ p. All (P h p))) h t m v found)
  ]

  fill-Table :
      (m : Map RouteKey (List (RemoteRoute A))) (t : RouteTable A)
      → Routes m
      → Table t
      → Table (fill utf8 m t)
  unfolding Table Routes fill
  fill-Table [] t r v = v
  fill-Table (((h, p), rs) ∷ m) t r v =
      let ranked = All-sort_routes utf8 (P h p) h rs r.0 in
      let inner =
        insert-Entries (λ p. All (P h p)) p (sort_routes utf8 h rs) (protocols_at utf8 h t) ranked
          (protocols_at-Entries h t v) in
      fill-Table m (insert h (insert p (sort_routes utf8 h rs) (protocols_at utf8 h t)) t) r.1 (
        insert-Entries (λ h. Entries (λ p. All (P h p))) h
          (insert p (sort_routes utf8 h rs) (protocols_at utf8 h t)) t inner v)

  candidates-All :
      (t : RouteTable A) (h : Text) (p : Protocol) (now : ℕ)
      → Table t
      → All (λ r. P h p r × (ltb now r.expires_at ≡ true)) (candidates utf8 t h p now)
  unfolding Table candidates
  candidates-All t h p now v =
      let Good = All (λ r. P h p r × (ltb now r.expires_at ≡ true)) in
      elim (Option-cases (get h t)) [
        | inl absent ↦
            let same : candidates utf8 t h p now ≡ [] = ground arith in subst Good (sym same) tt
        | inr (m, found) ↦ elim (Option-cases (get p m)) [
          | inl missing ↦
              let same : candidates utf8 t h p now ≡ [] = ground arith in subst Good (sym same) tt
          | inr (rs, present) ↦
              let same : candidates utf8 t h p now ≡ select (λ r. ltb now r.expires_at) rs =
                ground arith in
              let inner = get-Entries (λ h. Entries (λ p. All (P h p))) h t m v found in
              subst Good (sym same) (
                All-select (P h p) (λ r. ltb now r.expires_at) rs
                  (get-Entries (λ p. All (P h p)) p m rs inner present))
        ]
      ]

-- What the Edge may rely on in a route: it is what a live peer advertised that the configuration
-- allows and that is not this Edge, and for UDP the peer says that it forwards datagrams.
pub record IsOffered {A : Type 0} (parse_addr : Text → Option A) (s : RouteSync A)
    (live : List Text) (infos : Map Text EdgeInfo) (hostname : Text) (protocol : Protocol)
    (r : RemoteRoute A) : Type 0 where
  pub info : EdgeInfo
  pub other : (r.edge_id == s.edge_id) ≡ false
  pub allowed : contains s.allowed_peers r.edge_id ≡ true
  pub alive : contains live r.edge_id ≡ true
  pub known : get r.edge_id infos ≡ some info
  pub forwards : protocol ≡ Protocol.udp → info.udp ≡ true
  pub reached : addr_of parse_addr s r.edge_id info ≡ some r.addr

contains-select :
    (keep : Text → Bool) (xs : List Text) (x : Text)
    → contains (select keep xs) x ≡ (contains xs x && keep x)
contains-select keep [] x = refl
contains-select keep (y ∷ ys) x = ground (arith, contains-select keep ys x)

module _ {A : Type 0} (parse_addr : Text → Option A) (s : RouteSync A) (live : List Text)
    (infos : Map Text EdgeInfo) (all_ads : List (RouteAd × ℕ)) (now now_ms : ℕ) where
  usable-IsOffered :
      (ad : RouteAd) (expiry : ℕ) (r : RemoteRoute A)
      → usable parse_addr s (peers_of parse_addr s live all_ads) infos now now_ms ad expiry ≡ some r
      → IsOffered parse_addr s live infos ad.hostname ad.protocol r
  unfolding usable peers_of is_peer route_of
  usable-IsOffered ad expiry r h = elim (Option-cases (get ad.edge_id infos)) [
    | inl absent ↦ ground arith
    | inr (info, known) ↦ elim (Option-cases (addr_of parse_addr s ad.edge_id info)) [
      | inl unusable ↦ ground arith
      | inr (addr, reached) ↦
          let route = route_of parse_addr ad addr (now + (expiry - now_ms)) in
          let listed : contains (peers_of parse_addr s live all_ads) ad.edge_id ≡ true =
            ground arith in
          let peer : is_peer parse_addr s live ad.edge_id ≡ true = ground (
            arith,
            contains-select (is_peer parse_addr s live) (map (λ e. e.0.edge_id) all_ads) ad.edge_id,
          ) in
          let result : route ≡ r = ground arith in
          subst (IsOffered parse_addr s live infos ad.hostname ad.protocol) result (record {
            info = info;
            other = ground arith;
            allowed = ground arith;
            alive = ground arith;
            known = known;
            forwards = λ is_udp. ground arith;
            reached = reached;
          })
    ]
  ]

  routes_at-All :
      (utf8 : Text → List ℕ) (key : RouteKey) (m : Map RouteKey (List (RemoteRoute A)))
      → Routes utf8 (IsOffered parse_addr s live infos) m
      → All (IsOffered parse_addr s live infos key.0 key.1) (routes_at parse_addr key m)
  unfolding Routes routes_at
  routes_at-All utf8 key m v =
      let P = IsOffered parse_addr s live infos in
      elim (Option-cases (get key m)) [
        | inl absent ↦
            let same : routes_at parse_addr key m ≡ [] = ground arith in
            subst (All (P key.0 key.1)) (sym same) tt
        | inr (rs, found) ↦
            let same : routes_at parse_addr key m ≡ rs = ground arith in
            subst (All (P key.0 key.1)) (sym same)
              (get-Entries (λ k. All (P k.0 k.1)) key m rs v found)
      ]

  collect_routes-Routes :
      (utf8 : Text → List ℕ) (ads : List (RouteAd × ℕ)) (m : Map RouteKey (List (RemoteRoute A)))
      → Routes utf8 (IsOffered parse_addr s live infos) m
      → Routes utf8
          (IsOffered parse_addr s live infos)
          (collect_routes parse_addr s (peers_of parse_addr s live all_ads) infos now now_ms ads m)
  unfolding Routes collect_routes routes_at
  collect_routes-Routes utf8 [] m v = v
  collect_routes-Routes utf8 ((ad, expiry) ∷ ads) m v =
      let P = IsOffered parse_addr s live infos in
      let peers = peers_of parse_addr s live all_ads in
      let key : RouteKey = (ad.hostname, ad.protocol) in
      elim (Option-cases (usable parse_addr s peers infos now now_ms ad expiry)) [
        | inl skipped ↦
            let same : collect_routes parse_addr s peers infos now now_ms ((ad, expiry) ∷ ads) m
                ≡ collect_routes parse_addr s peers infos now now_ms ads m =
              ground arith in
            subst (Routes utf8 P) (sym same) (collect_routes-Routes utf8 ads m v)
        | inr (r, used) ↦
            let grown = routes_at parse_addr key m ++ (r ∷ []) in
            let same : collect_routes parse_addr s peers infos now now_ms ((ad, expiry) ∷ ads) m
                ≡ collect_routes parse_addr s peers infos now now_ms ads (insert key grown m) =
              ground arith in
            let good =
              All-append (P ad.hostname ad.protocol) (routes_at parse_addr key m) (r ∷ [])
                (routes_at-All utf8 key m v) (usable-IsOffered ad expiry r used, tt) in
            subst (Routes utf8 P) (sym same) (
              collect_routes-Routes utf8 ads (insert key grown m)
                (insert-Entries (λ k. All (P k.0 k.1)) key grown m good v))
      ]

-- After a sync for which the control plane answered every read, every candidate for a hostname and
-- a protocol is unexpired, and is the route to a live peer that the configuration allows, that is
-- not this Edge, that has published what it is, whose address is the configured or the published
-- one, and that forwards datagrams if the protocol is UDP.
pub candidates-sync :
    {A : Type 0}
    → (utf8 : Text → List ℕ) (parse_addr : Text → Option A) (s : RouteSync A)
      (ads : List (RouteAd × ℕ)) (live : List Text) (fetch : List Text → Option (Map Text EdgeInfo))
      (infos : Map Text EdgeInfo) (synced now_ms : ℕ) (t : RouteTable A) (hostname : Text)
      (protocol : Protocol) (now : ℕ)
    → fetch (peers_of parse_addr s live ads) ≡ some infos
    → All
        (λ r. IsOffered parse_addr s live infos hostname protocol r × (ltb now r.expires_at ≡ true))
        (candidates utf8
          (sync parse_addr utf8 s (some ads) (some live) fetch synced now_ms t).0
          hostname
          protocol
          now)
unfolding sync replace Routes Table
candidates-sync utf8 parse_addr s ads live fetch infos synced now_ms t hostname protocol now got =
    let P = IsOffered parse_addr s live infos in
    let routes =
      collect_routes parse_addr s (peers_of parse_addr s live ads) infos synced now_ms ads [] in
    let same : (sync parse_addr utf8 s (some ads) (some live) fetch synced now_ms t).0
        ≡ replace utf8 routes =
      ground arith in
    rw same (
      candidates-All utf8 P (replace utf8 routes) hostname protocol now (
        fill-Table utf8 P routes []
          (collect_routes-Routes parse_addr s live infos ads synced now_ms utf8 ads [] tt) tt))
