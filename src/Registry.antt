-- ===== src/Registry.antt =====
-- sievetube-edge/src/connector_registry.rs: the registry of authenticated Connector connections.
-- `C` stands for `quinn::Connection` and `U` for the UDP reply map, which the registry only stores.
-- Registration and removal run under the write lock, so each is one function on the state.
pub mod Invariant
pub mod Register
pub mod Remove
mod Tests
use sievetube.Prelude.{
  text_eq, nat_eq, ℕ, ◌+◌, ◌%◌, ◌^◌, zero, suc, Text, ◌==◌, not, ◌&&◌, Bool, true, false, Option,
  none, some, List, [], ◌∷◌, map, Result, ok, err, if◌then◌else◌, length, contains,
}
use sievetube.Prelude.Maps.{Map, get, insert, remove_if}
use sievetube.Config.{Protocol, protocol_eq}

pub record ConnectorHandle (C U : Type 0) : Type 0 where
  pub tenant_id : Text
  pub hostnames : List Text
  pub services : Option (Map Text (List Protocol))
  pub connection : C
  pub connected_at : ℕ
  pub udp_reply_map : U
  pub generation : ℕ

pub record Registration (C U : Type 0) : Type 0 where
  pub tenant_id : Text
  pub hostnames : List Text
  pub services : Option (Map Text (List Protocol))
  pub connection : C
  pub udp_reply_map : U

-- The gauge `active_quic_connections`; `negsuc n` is -(n + 1).
pub data ℤ : Type 0 where
  pos : ℕ → ℤ
  negsuc : ℕ → ℤ

unfoldable pub inc : ℤ → ℤ
inc (pos n) = pos (suc n)
inc (negsuc zero) = pos 0
inc (negsuc (suc n)) = negsuc n

unfoldable pub dec : ℤ → ℤ
dec (pos zero) = negsuc 0
dec (pos (suc n)) = pos n
dec (negsuc n) = negsuc (suc n)

pub record ConnectorRegistry (C U : Type 0) : Type 0 where
  pub by_hostname : Map Text (ConnectorHandle C U)
  pub by_tenant : Map Text (ConnectorHandle C U)
  pub next_generation : ℕ
  pub active_quic_connections : ℤ

pub record Registered (C U : Type 0) : Type 0 where
  pub handle : ConnectorHandle C U
  pub replaced : Option (ConnectorHandle C U)

-- "hostname … is already served by another tenant on this edge"
pub data RegisterError : Type 0 where
  served_by_another_tenant : Text → RegisterError

abbrev pub u64 : ℕ → ℕ
u64 n = n % 2 ^ 64

module _ {C U : Type 0} where
  unfoldable pub supports : ConnectorHandle C U → Text → Protocol → Bool
  supports h hostname protocol = elim h.services [
    | none ↦ contains h.hostnames hostname
    | some services ↦ elim (get hostname services) [
      | none ↦ false
      | some protocols ↦ contains protocols protocol
    ]
  ]

  unfoldable pub new : ConnectorRegistry C U
  new = record {
    by_hostname = [];
    by_tenant = [];
    next_generation = 0;
    active_quic_connections = pos 0;
  }

  -- The loop that looks for a hostname of another tenant.
  unfoldable pub foreign : Text → List Text → Map Text (ConnectorHandle C U) → Option Text
  foreign tenant [] hosts = none
  foreign tenant (hostname ∷ rest) hosts = elim (get hostname hosts) [
    | none ↦ foreign tenant rest hosts
    | some existing ↦
        if not (existing.tenant_id == tenant) then some hostname else foreign tenant rest hosts
  ]

  -- The loop that drops the hostnames of one generation.
  unfoldable pub drop_hostnames :
      ℕ → List Text → Map Text (ConnectorHandle C U) → Map Text (ConnectorHandle C U)
  drop_hostnames gen [] hosts = hosts
  drop_hostnames gen (hostname ∷ rest) hosts =
      drop_hostnames gen rest (remove_if hostname (λ h. h.generation == gen) hosts)

  -- The loop that points the hostnames at a handle.
  unfoldable pub add_hostnames :
      ConnectorHandle C U
      → List Text
      → Map Text (ConnectorHandle C U)
      → Map Text (ConnectorHandle C U)
  add_hostnames handle [] hosts = hosts
  add_hostnames handle (hostname ∷ rest) hosts =
      add_hostnames handle rest (insert hostname handle hosts)

  -- The handle that a registration becomes; `now` is `Instant::now()`.
  unfoldable pub handle_of : ℕ → ℕ → Registration C U → ConnectorHandle C U
  handle_of now gen r = record {
    tenant_id = r.tenant_id;
    hostnames = r.hostnames;
    services = r.services;
    connection = r.connection;
    connected_at = now;
    udp_reply_map = r.udp_reply_map;
    generation = gen;
  }

  -- What follows the check: the tenant's entry is replaced, then the hostnames.
  unfoldable pub install :
      ConnectorHandle C U → ConnectorRegistry C U → ConnectorRegistry C U × Registered C U
  install handle s =
      let replaced = get handle.tenant_id s.by_tenant in
      let tenants = insert handle.tenant_id handle s.by_tenant in
      let next = u64 (s.next_generation + 1) in
      elim replaced [
        | some previous ↦ (
          record {
            by_hostname =
                add_hostnames handle handle.hostnames
                  (drop_hostnames previous.generation previous.hostnames s.by_hostname);
            by_tenant = tenants;
            next_generation = next;
            active_quic_connections = s.active_quic_connections;
          },
          record { handle = handle; replaced = some previous },
        )
        | none ↦ (
          record {
            by_hostname = add_hostnames handle handle.hostnames s.by_hostname;
            by_tenant = tenants;
            next_generation = next;
            active_quic_connections = inc s.active_quic_connections;
          },
          record { handle = handle; replaced = none },
        )
      ]

  -- An error leaves the registry as it was.
  unfoldable pub register :
      ℕ
      → Registration C U
      → ConnectorRegistry C U
      → Result RegisterError (ConnectorRegistry C U × Registered C U)
  register now r s = elim (foreign r.tenant_id r.hostnames s.by_hostname) [
    | some hostname ↦ err (served_by_another_tenant hostname)
    | none ↦ ok (install (handle_of now (u64 (s.next_generation + 1)) r) s)
  ]

  unfoldable pub remove : Text → ℕ → ConnectorRegistry C U → ConnectorRegistry C U × Bool
  remove tenant gen s = elim (get tenant s.by_tenant) [
    | none ↦ (s, false)
    | some handle ↦
        if handle.generation == gen
        then (
          record s {
            by_hostname = drop_hostnames gen handle.hostnames s.by_hostname;
            by_tenant = remove_if tenant (λ h. h.generation == gen) s.by_tenant;
            active_quic_connections = dec s.active_quic_connections;
          },
          true,
        )
        else (s, false)
  ]

  unfoldable pub get_by_hostname : Text → ConnectorRegistry C U → Option (ConnectorHandle C U)
  get_by_hostname hostname s = get hostname s.by_hostname

  unfoldable pub len : ConnectorRegistry C U → ℕ
  len s = length s.by_tenant

  unfoldable pub snapshot : ConnectorRegistry C U → List (ConnectorHandle C U)
  snapshot s = map (λ e. e.1) s.by_tenant
