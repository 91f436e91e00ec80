-- ===== src/Routes.antt =====
-- sievetube-edge/src/mesh/routes.rs: what an Edge advertises, how it reads the routes of its peers, and
-- which candidates it offers. Instants are numbers of milliseconds on one clock; the control plane
-- (Valkey) is the data that it returns.
pub mod Ads
pub mod Table
pub mod Peers
pub mod Advertiser
mod Tests
use sievetube.Prelude.{
  text_eq, nat_eq, ℕ_discrete, ℕ, ◌+◌, ◌-◌, ◌*◌, ◌%◌, ◌^◌, Text, ◌==◌, ltb, ◌&&◌, ◌||◌, not, Bool,
  true, false, Option, none, some, List, [], ◌∷◌, ◌++◌, if◌then◌else◌, contains, select, Eq,
}
use Prim.Native.Nat.{bit_xor, compare, Ordering}
use sievetube.Prelude.Maps.{Map, get, insert}
use sievetube.Config.{Protocol, Protocol-discrete, protocol_eq}
use sievetube.Registry.{ConnectorHandle, ConnectorRegistry, supports, snapshot}

pub record RouteAd : Type 0 where
  pub hostname : Text
  pub protocol : Protocol
  pub tenant_id : Text
  pub edge_id : Text
  pub generation : ℕ

pub record EdgeInfo : Type 0 where
  pub advertise : Text
  pub udp : Bool

pub record RemoteRoute (A : Type 0) : Type 0 where
  pub edge_id : Text
  pub tenant_id : Text
  pub generation : ℕ
  pub addr : A
  pub expires_at : ℕ

abbrev pub all_protocols : List Protocol
all_protocols = Protocol.http ∷ Protocol.tcp ∷ Protocol.udp ∷ []

-- The inner loop of `ads_for`.
unfoldable pub ads_of_host :
    (Text → Protocol → Bool) → Text → Text → ℕ → Text → List Protocol → List RouteAd
ads_of_host serves tenant_id edge_id generation hostname [] = []
ads_of_host serves tenant_id edge_id generation hostname (p ∷ ps) =
    let rest = ads_of_host serves tenant_id edge_id generation hostname ps in
    if serves hostname p
    then record {
      hostname = hostname;
      protocol = p;
      tenant_id = tenant_id;
      edge_id = edge_id;
      generation = generation;
    }
      ∷ rest
    else rest

unfoldable pub ads_for : List Text → (Text → Protocol → Bool) → Text → Text → ℕ → List RouteAd
ads_for [] serves tenant_id edge_id generation = []
ads_for (h ∷ hs) serves tenant_id edge_id generation =
    ads_of_host serves tenant_id edge_id generation h all_protocols
    ++ ads_for hs serves tenant_id edge_id generation

module _ {C U : Type 0} where
  -- The loop of `local_ads` over the handles.
  unfoldable pub ads_of_handles : List (ConnectorHandle C U) → Text → List RouteAd
  ads_of_handles [] edge_id = []
  ads_of_handles (h ∷ hs) edge_id =
      ads_for h.hostnames (supports h) h.tenant_id edge_id h.generation ++ ads_of_handles hs edge_id

  unfoldable pub local_ads : ConnectorRegistry C U → Text → List RouteAd
  local_ads registry edge_id = ads_of_handles (snapshot registry) edge_id

abbrev pub fnv_offset : ℕ
fnv_offset = 0xcbf2_9ce4_8422_2325

abbrev pub fnv_prime : ℕ
fnv_prime = 0x0000_0100_0000_01b3

-- The loop of `rank` over the bytes.
unfoldable pub fnv : ℕ → List ℕ → ℕ
fnv hash [] = hash
fnv hash (b ∷ bs) = fnv ((bit_xor hash b * fnv_prime) % 2 ^ 64) bs

-- `rank`, on the bytes of the texts.
unfoldable pub rank : List ℕ → List ℕ → ℕ
rank hostname edge_id = fnv fnv_offset (hostname ++ (b'|' ∷ edge_id))

-- The order of texts.
unfoldable pub text_le : Text → Text → Bool
text_le [] t = true
text_le (x ∷ s) [] = false
text_le (x ∷ s) (y ∷ t) =
    let rest = text_le s t in
    elim (compare x y) [ Ordering.lt ↦ true | Ordering.eq ↦ rest | Ordering.gt ↦ false ]

module _ {A : Type 0} (utf8 : Text → List ℕ) where
  -- The sort key of a route, compared: its rank, then its Edge.
  unfoldable pub before : Text → RemoteRoute A → RemoteRoute A → Bool
  before hostname r s =
      elim (compare (rank (utf8 hostname) (utf8 r.edge_id))
        (rank (utf8 hostname) (utf8 s.edge_id))) [
          | Ordering.lt ↦ true
          | Ordering.eq ↦ text_le r.edge_id s.edge_id
          | Ordering.gt ↦ false
        ]

  unfoldable pub insert_sorted : Text → RemoteRoute A → List (RemoteRoute A) → List (RemoteRoute A)
  insert_sorted hostname r [] = r ∷ []
  insert_sorted hostname r (s ∷ ss) =
      let rest = insert_sorted hostname r ss in if before hostname r s then r ∷ s ∷ ss else s ∷ rest

  -- `sort_by_cached_key`, which is stable.
  unfoldable pub sort_routes : Text → List (RemoteRoute A) → List (RemoteRoute A)
  sort_routes hostname [] = []
  sort_routes hostname (r ∷ rs) = insert_sorted hostname r (sort_routes hostname rs)

-- The keys of the map that `sync` builds.
abbrev pub RouteKey : Type 0
RouteKey = Text × Protocol

unfoldable pub RouteKey-discrete : Discrete RouteKey
RouteKey-discrete = hlevel (ℕ_discrete, Protocol-discrete)

instance abbrev pub route_key_eq : Eq RouteKey
route_key_eq = record { dec_eq = RouteKey-discrete }
