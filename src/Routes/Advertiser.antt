-- ===== src/Routes/Advertiser.antt =====
-- sievetube-edge/src/mesh/routes.rs: publishing and withdrawing the routes of this Edge. The publish
-- lock is held over a whole call, so each call is one step; an `advertise_now` that waits for the lock
-- is the step `request` followed later by the step `advertise`. The control plane is `V` with what
-- its calls do to it; `true` is `Ok`.
use sievetube.Prelude.{
  nat_eq, text_eq, ℕ, ◌+◌, ◌%◌, ◌^◌, ◌≡◌, refl, Text, leb, Bool, true, false, ◌||◌, not, List,
  if◌then◌else◌, arith,
}
use sievetube.Registry.{ConnectorHandle, ConnectorRegistry, supports}
use sievetube.Routes.{RouteAd, EdgeInfo, ads_for, local_ads}

-- The calls of `ValkeyHandle` that the advertiser makes, on the state of the control plane.
pub record Valkey (V : Type 0) : Type 0 where
  pub publish_edge_info : EdgeInfo → ℕ → V → V × Bool
  pub publish_routes : List RouteAd → ℕ → V → V × Bool
  pub withdraw_routes : List RouteAd → V → V × Bool
  pub remove_edge_info : V → V × Bool

pub record PublishState : Type 0 where
  pub covered : ℕ
  pub stopped : Bool

-- `RouteAdvertiser` with the state that its calls change.
pub record RouteAdvertiser (V : Type 0) : Type 0 where
  pub edge_id : Text
  pub info : EdgeInfo
  pub ttl : ℕ
  pub publish_lock : PublishState
  pub advertise_requests : ℕ
  pub valkey : V

unfoldable pub new : {V : Type 0} → Text → EdgeInfo → ℕ → V → RouteAdvertiser V
new edge_id info ttl v = record {
  edge_id = edge_id;
  info = info;
  ttl = ttl;
  publish_lock = record { covered = 0; stopped = false };
  advertise_requests = 0;
  valkey = v;
}

-- The first line of `advertise_now`: the number of the request.
unfoldable pub request : {V : Type 0} → RouteAdvertiser V → RouteAdvertiser V × ℕ
request a =
    let next = (a.advertise_requests + 1) % 2 ^ 64 in (record a { advertise_requests = next }, next)

unfoldable pub withdraw :
    {V : Type 0} → Valkey V → List RouteAd → RouteAdvertiser V → RouteAdvertiser V
withdraw ops ads a = record a { valkey = (ops.withdraw_routes ads a.valkey).0 }

module _ {V C U : Type 0} (ops : Valkey V) where
  -- `advertise_now` from where it holds the lock.
  unfoldable pub advertise : ConnectorRegistry C U → ℕ → RouteAdvertiser V → RouteAdvertiser V
  advertise registry number a =
      let published = ops.publish_edge_info a.info a.ttl a.valkey in
      let written = ops.publish_routes (local_ads registry a.edge_id) a.ttl published.0 in
      if a.publish_lock.stopped || leb number a.publish_lock.covered
      then a
      else if not published.1
      then record a { valkey = published.0 }
      else if not written.1
      then record a { valkey = written.0 }
      else record a {
        valkey = written.0;
        publish_lock = record { covered = a.advertise_requests; stopped = a.publish_lock.stopped };
      }

  unfoldable pub withdraw_registration : ConnectorHandle C U → RouteAdvertiser V → RouteAdvertiser V
  withdraw_registration handle a =
      withdraw ops
        (ads_for handle.hostnames (supports handle) handle.tenant_id a.edge_id handle.generation) a

  unfoldable pub stop : ConnectorRegistry C U → RouteAdvertiser V → RouteAdvertiser V
  stop registry a =
      let v = (ops.withdraw_routes (local_ads registry a.edge_id) a.valkey).0 in
      record a {
        publish_lock = record { covered = a.publish_lock.covered; stopped = true };
        valkey = (ops.remove_edge_info v).0;
      }

module _ (C U : Type 0) {V : Type 0} (ops : Valkey V) where
  -- The steps that calls of the advertiser make, one at a time, with whatever the registry then holds.
  pub data Step : RouteAdvertiser V → RouteAdvertiser V → Type 0 where
    requested : (a : RouteAdvertiser V) → Step a (request a).0
    advertised :
        (a : RouteAdvertiser V) (registry : ConnectorRegistry C U) (number : ℕ)
        → Step a (advertise ops registry number a)
    withdrew : (a : RouteAdvertiser V) (ads : List RouteAd) → Step a (withdraw ops ads a)
    shut_down :
        (a : RouteAdvertiser V) (registry : ConnectorRegistry C U) → Step a (stop ops registry a)

  pub data Steps : RouteAdvertiser V → RouteAdvertiser V → Type 0 where
    done : (a : RouteAdvertiser V) → Steps a a
    then_step : {a b c : RouteAdvertiser V} → Steps a b → Step b c → Steps a c

  stopped-Step :
      (P : V → Type 0)
      → ((ads : List RouteAd) (v : V) → P v → P (ops.withdraw_routes ads v).0)
      → ((v : V) → P v → P (ops.remove_edge_info v).0)
      → {a b : RouteAdvertiser V} → Step a b
      → a.publish_lock.stopped ≡ true
      → P a.valkey
      → (b.publish_lock.stopped ≡ true) × P b.valkey
  unfolding request advertise withdraw stop
  stopped-Step P quiet gone (requested a) halted p = (halted, p)
  stopped-Step P quiet gone (advertised a registry number) halted p =
      let same : advertise ops registry number a ≡ a = ground arith in rw same (halted, p)
  stopped-Step P quiet gone (withdrew a ads) halted p = (halted, quiet ads a.valkey p)
  stopped-Step P quiet gone (shut_down a registry) halted p =
      (refl, gone _ (quiet (local_ads registry a.edge_id) a.valkey p))

  halted-Steps :
      (P : V → Type 0)
      → ((ads : List RouteAd) (v : V) → P v → P (ops.withdraw_routes ads v).0)
      → ((v : V) → P v → P (ops.remove_edge_info v).0)
      → {a b : RouteAdvertiser V} → Steps a b
      → a.publish_lock.stopped ≡ true
      → P a.valkey
      → (b.publish_lock.stopped ≡ true) × P b.valkey
  halted-Steps P quiet gone (done a) halted p = (halted, p)
  halted-Steps P quiet gone (then_step run step) halted p =
      let (still, kept) = halted-Steps P quiet gone run halted p in
      stopped-Step P quiet gone step still kept

  -- After `stop`, the advertiser stays stopped and publishes nothing more, whatever is called in
  -- whatever order: what holds of the control plane when `stop` returns, and what withdrawing
  -- routes and removing the Edge's own entry keep, holds after every later step.
  pub stopped-Steps :
      (P : V → Type 0)
      → ((ads : List RouteAd) (v : V) → P v → P (ops.withdraw_routes ads v).0)
      → ((v : V) → P v → P (ops.remove_edge_info v).0)
      → (a : RouteAdvertiser V) (registry : ConnectorRegistry C U) {b : RouteAdvertiser V}
      → Steps (stop ops registry a) b
      → P (stop ops registry a).valkey
      → (b.publish_lock.stopped ≡ true) × P b.valkey
  unfolding stop
  stopped-Steps P quiet gone a registry run p = halted-Steps P quiet gone run refl p
