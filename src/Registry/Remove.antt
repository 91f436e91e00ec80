-- ===== src/Registry/Remove.antt =====
-- `ConnectorRegistry::remove`: only the named generation goes, and with it what led to it.
use sievetube.Prelude.{
  text_eq, nat_eq, ℕ_discrete, ◌↔◌, ℕ, ◌+◌, ◌≤◌, ◌<◌, ◌^◌, ◌≡◌, ◌≢◌, Text, ◌==◌, true, false, none,
  some, arith, if◌then◌else◌, Option-cases, inl, inr, ok,
}
use sievetube.Prelude.Maps.{
  get, remove_if, keep_unless, get-remove_if, remove_if-Distinct, length-erase_present,
}
use sievetube.Registry.{
  ConnectorHandle, ConnectorRegistry, Registration, Registered, dec, drop_hostnames, register,
  remove, get_by_hostname,
}
use sievetube.Registry.Invariant.{IsValid}
use sievetube.Registry.Register.{drop-keep_unless, register-Registered}

module _ {C U : Type 0} where
  -- The state that `remove` leaves when it succeeds.
  abbrev removed : Text → ConnectorHandle C U → ConnectorRegistry C U → ConnectorRegistry C U
  removed t x s = record s {
    by_hostname = drop_hostnames x.generation x.hostnames s.by_hostname;
    by_tenant = remove_if t (λ h. h.generation == x.generation) s.by_tenant;
    active_quic_connections = dec s.active_quic_connections;
  }

  remove_hit :
      (t : Text) (x : ConnectorHandle C U) (s : ConnectorRegistry C U)
      → get t s.by_tenant ≡ some x
      → remove t x.generation s ≡ (removed t x s, true)
  unfolding remove
  remove_hit t x s e = ground arith

  remove_miss :
      (t : Text) (gen : ℕ) (x : ConnectorHandle C U) (s : ConnectorRegistry C U)
      → get t s.by_tenant ≡ some x
      → x.generation ≢ gen
      → remove t gen s ≡ (s, false)
  unfolding remove
  remove_miss t gen x s e ne = ground arith

  remove_absent :
      (t : Text) (gen : ℕ) (s : ConnectorRegistry C U)
      → get t s.by_tenant ≡ none
      → remove t gen s ≡ (s, false)
  unfolding remove
  remove_absent t gen s e = ground arith

  removed-IsValid :
      (t : Text) (x : ConnectorHandle C U) (s : ConnectorRegistry C U)
      → IsValid s
      → get t s.by_tenant ≡ some x
      → x.tenant_id ≡ t
      → IsValid (removed t x s)
  unfolding dec remove_if
  removed-IsValid t x s v current own = record {
    distinct = remove_if-Distinct t (λ h. h.generation == x.generation) s.by_tenant v.distinct;
    sound = λ h z e. ground (
      arith,
      drop-keep_unless s x h v,
      get-remove_if t z.tenant_id (λ h. h.generation == x.generation) s.by_tenant,
      v.sound h z,
    );
    complete = λ u h z e c. ground (
      arith,
      drop-keep_unless s x h v,
      get-remove_if t u (λ h. h.generation == x.generation) s.by_tenant,
      v.complete u h z,
      v.tenants u z,
    );
    tenants = λ u z e.
        ground
          (arith, get-remove_if t u (λ h. h.generation == x.generation) s.by_tenant, v.tenants u z);
    gauge = ground (arith, v.gauge, length-erase_present t x s.by_tenant v.distinct);
  }

  -- A removal from a registry that satisfies the invariant, whether it finds its generation or not,
  -- leaves one that satisfies it.
  pub remove-IsValid :
      (t : Text) (gen : ℕ) (s : ConnectorRegistry C U) → IsValid s → IsValid (remove t gen s).0
  remove-IsValid t gen s v = elim (Option-cases (get t s.by_tenant)) [
    | inl absent ↦ rw (remove_absent t gen s absent) v
    | inr (x, current) ↦ elim (ℕ_discrete x.generation gen) [
      | yes same ↦
          rw (← same, remove_hit t x s current)
            (removed-IsValid t x s v current (v.tenants t x current).0)
      | no other ↦ rw (remove_miss t gen x s current other) v
    ]
  ]

  -- In a registry that satisfies the invariant, after a removal that reports success no hostname
  -- leads to the tenant and the others lead where they led; one that does not leaves every lookup
  -- as it was.
  pub lookup-remove :
      (t : Text) (gen : ℕ) (s : ConnectorRegistry C U) (j : Text)
      → IsValid s
      → get_by_hostname j (remove t gen s).0 ≡ (
          if (remove t gen s).1
          then keep_unless (λ y. y.tenant_id == t) (get_by_hostname j s)
          else get_by_hostname j s)
  unfolding get_by_hostname remove
  lookup-remove t gen s j v = elim (Option-cases (get t s.by_tenant)) [
    | inl absent ↦ ground arith
    | inr (x, current) ↦ ground (arith, drop-keep_unless s x j v, v.tenants t x current)
  ]

  -- `remove` reports that it removed a registration exactly if the tenant's current registration has the
  -- given generation.
  pub remove-true_iff :
      (t : Text) (gen : ℕ) (s : ConnectorRegistry C U)
      → ((remove t gen s).1 ≡ true)
        ↔ ((x : ConnectorHandle C U) × (get t s.by_tenant ≡ some x) × (x.generation ≡ gen))
  unfolding remove
  remove-true_iff t gen s = (
    λ e. elim (Option-cases (get t s.by_tenant)) [
      | inl absent ↦ absurd (ground arith)
      | inr (x, current) ↦ (x, current, ground arith)
    ],
    λ (x, current, same). ground arith,
  )

  -- After a registration that succeeds, where the generation counter does not wrap, the removal of
  -- any generation of that tenant up to the counter before it changes nothing and reports that.
  pub remove-register_stale :
      (now gen : ℕ) (r : Registration C U) (s t : ConnectorRegistry C U) (out : Registered C U)
      → register now r s ≡ ok (t, out)
      → s.next_generation + 1 < 2 ^ 64
      → gen ≤ s.next_generation
      → remove r.tenant_id gen t ≡ (t, false)
  remove-register_stale now gen r s t out e fits old =
      let (fresh, own, before, current, next) = register-Registered now r s t out e fits in
      remove_miss r.tenant_id gen out.handle t current (λ same. omega arith)
