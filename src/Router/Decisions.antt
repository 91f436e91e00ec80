-- ===== src/Router/Decisions.antt =====
-- Where the traffic for a hostname goes.
use sievetube.Prelude.{
  text_eq, nat_eq, ℕ, ◌≡◌, refl, Text, not, Bool, true, false, Option, none, some, List, any,
  is_empty, select, arith, Option-cases, inl, inr,
}
use sievetube.Config.{Protocol}
use sievetube.Registry.{get_by_hostname}
use sievetube.Registry.Invariant.{IsValid}
use sievetube.Routes.{RemoteRoute, local_ads}
use sievetube.Routes.Ads.{is_ad, serves_locally, any-local_ads}
use sievetube.Routes.Table.{candidates}
use sievetube.Router.{
  RouteDecision, local, remote, unavailable, Mesh, Router, cooling_down, route_remote, route,
  tenant_id, is_available,
}

abbrev pub is_some : {X : Type 0} → Option X → Bool
is_some none = false
is_some (some x) = true

module _ {C U A : Type 0} where
  abbrev pub is_local : RouteDecision C U A → Bool
  is_local (local handle) = true
  is_local (remote routes) = false
  is_local unavailable = false

remote_cases :
    (C U : Type 0) {A : Type 0} (utf8 : Text → List ℕ) (m : Option (Mesh A)) (h : Text)
    (p : Protocol) (now : ℕ)
    → is_local (route_remote {C = C} {U = U} utf8 m h p now) ≡ false
unfolding route_remote
remote_cases C U utf8 none h p now = refl
remote_cases C U utf8 (some m) h p now = ground arith

module _ {C U A : Type 0} (utf8 : Text → List ℕ) where
  -- In a registry that satisfies the invariant, traffic goes to a Connector of this Edge exactly if
  -- the Edge advertises the hostname and the protocol.
  pub route-advertised :
      (r : Router C U A) (e h : Text) (p : Protocol) (now : ℕ)
      → IsValid r.registry
      → is_local (route utf8 r h p now) ≡ any (is_ad h p) (local_ads r.registry e)
  unfolding route get_by_hostname
  route-advertised r e h p now valid =
      ground (arith, any-local_ads r.registry e h p valid, remote_cases C U utf8 r.mesh h p now)

  -- If the decision is to go to peers, there is a mesh, no Connector of this Edge supports both the
  -- hostname and the protocol, and the candidates, of which there is one at least, are those of the
  -- route table that are not cooling down.
  pub route-remote :
      (r : Router C U A) (h : Text) (p : Protocol) (now : ℕ) (rs : List (RemoteRoute A))
      → route utf8 r h p now ≡ remote rs
      → (m : Mesh A) × (r.mesh ≡ some m)
        × (serves_locally r.registry h p ≡ false)
        × (is_empty rs ≡ false)
        × (rs ≡ select (λ x. not (cooling_down m now x.edge_id)) (candidates utf8 m.routes h p now))
  unfolding route route_remote get_by_hostname
  route-remote r h p now rs e = elim (Option-cases r.mesh) [
    | inl alone ↦ ground arith
    | inr (m, meshed) ↦ (m, meshed, ground arith, ground arith, ground arith)
  ]

  -- The tenant is known exactly if traffic can be routed.
  pub tenant_id-route :
      (r : Router C U A) (h : Text) (p : Protocol) (now : ℕ)
      → is_some (tenant_id (route utf8 r h p now)) ≡ is_available (route utf8 r h p now)
  unfolding route route_remote tenant_id is_available get_by_hostname
  tenant_id-route r h p now = ground arith
