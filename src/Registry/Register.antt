-- ===== src/Registry/Register.antt =====
-- `ConnectorRegistry::register`: what it changes, what it keeps, and when it refuses.
use native.Mathlib.Nat.{mod-eq_of_lt}
use sievetube.Prelude.{
  text_eq, nat_eq, ℕ, ◌+◌, ◌<◌, ◌^◌, ◌≡◌, ◌↔◌, Text, ◌==◌, true, none, some, length, contains,
  arith, if◌then◌else◌, Option-cases, inl, inr, ok, subst,
}
use sievetube.Prelude.Maps.{
  get, insert, keep_unless, get-insert, insert-Distinct, length-erase_present, erase_absent,
}
use sievetube.Registry.{
  ConnectorHandle, ConnectorRegistry, Registration, Registered, inc, pos, u64, drop_hostnames,
  foreign, handle_of, install, register, get_by_hostname,
}
use sievetube.Registry.Invariant.{
  IsValid, get-add_hostnames, get-drop_hostnames, foreign-none, foreign-some,
}

module _ {C U : Type 0} where
  -- Dropping what the tenant's current registration claims drops what leads to the tenant.
  pub drop-keep_unless :
      (s : ConnectorRegistry C U) (p : ConnectorHandle C U) (j : Text)
      → IsValid s
      → get p.tenant_id s.by_tenant ≡ some p
      → get j (drop_hostnames p.generation p.hostnames s.by_hostname)
        ≡ keep_unless (λ y. y.tenant_id == p.tenant_id) (get j s.by_hostname)
  drop-keep_unless s p j v current = elim (Option-cases (get j s.by_hostname)) [
    | inl free ↦ ground (arith, get-drop_hostnames p.generation p.hostnames j s.by_hostname)
    | inr (y, taken) ↦ ground (
      arith,
      get-drop_hostnames p.generation p.hostnames j s.by_hostname,
      v.sound j y taken,
      v.complete p.tenant_id j p current,
    )
  ]

  no_owner :
      (s : ConnectorRegistry C U) (t j : Text)
      → IsValid s
      → get t s.by_tenant ≡ none
      → get j s.by_hostname ≡ keep_unless (λ y. y.tenant_id == t) (get j s.by_hostname)
  no_owner s t j v absent = elim (Option-cases (get j s.by_hostname)) [
    | inl free ↦ ground arith
    | inr (y, taken) ↦ ground (arith, v.sound j y taken)
  ]

  lookup-install :
      (s : ConnectorRegistry C U) (x : ConnectorHandle C U) (j : Text)
      → IsValid s
      → get j (install x s).0.by_hostname ≡ (
          if contains x.hostnames j
          then some x
          else keep_unless (λ y. y.tenant_id == x.tenant_id) (get j s.by_hostname))
  unfolding install
  lookup-install s x j v = elim (Option-cases (get x.tenant_id s.by_tenant)) [
    | inl absent ↦
        ground (
          arith,
          get-add_hostnames x x.hostnames j s.by_hostname,
          no_owner s x.tenant_id j v absent,
        )
    | inr (p, current) ↦ ground (
      arith,
      get-add_hostnames x x.hostnames j (drop_hostnames p.generation p.hostnames s.by_hostname),
      drop-keep_unless s p j v,
      v.tenants x.tenant_id p current,
    )
  ]

  tenants-install :
      (s : ConnectorRegistry C U) (x : ConnectorHandle C U)
      → (install x s).0.by_tenant ≡ insert x.tenant_id x s.by_tenant
  unfolding install
  tenants-install s x = ground arith

  next-install :
      (s : ConnectorRegistry C U) (x : ConnectorHandle C U)
      → (install x s).0.next_generation ≡ u64 (s.next_generation + 1)
  unfolding install
  next-install s x = ground arith

  gauge-install :
      (s : ConnectorRegistry C U) (x : ConnectorHandle C U)
      → IsValid s
      → (install x s).0.active_quic_connections ≡ pos (length (install x s).0.by_tenant)
  unfolding install insert inc
  gauge-install s x v = elim (Option-cases (get x.tenant_id s.by_tenant)) [
    | inl absent ↦ ground (arith, erase_absent x.tenant_id s.by_tenant)
    | inr (p, current) ↦ ground (arith, length-erase_present x.tenant_id p s.by_tenant v.distinct)
  ]

  install-IsValid :
      (s : ConnectorRegistry C U) (x : ConnectorHandle C U)
      → IsValid s
      → foreign x.tenant_id x.hostnames s.by_hostname ≡ none
      → x.generation ≡ s.next_generation + 1
      → s.next_generation + 1 < 2 ^ 64
      → IsValid (install x s).0
  install-IsValid s x v free gen fits = record {
    distinct = rw (tenants-install s x) (insert-Distinct x.tenant_id x s.by_tenant v.distinct);
    sound = λ h z e. ground (
      arith,
      lookup-install s x h v,
      tenants-install s x,
      get-insert x.tenant_id z.tenant_id x s.by_tenant,
      v.sound h z,
    );
    complete = λ t h z e c. ground (
      arith,
      lookup-install s x h v,
      tenants-install s x,
      get-insert x.tenant_id t x s.by_tenant,
      v.complete t h z,
      v.tenants t z,
      foreign-none x.tenant_id x.hostnames s.by_hostname h z free,
    );
    tenants = λ t z e. ground (
      arith,
      tenants-install s x,
      next-install s x,
      mod-eq_of_lt fits,
      get-insert x.tenant_id t x s.by_tenant,
      v.tenants t z,
    );
    gauge = gauge-install s x v;
  }

  register_split :
      (now : ℕ) (r : Registration C U) (s t : ConnectorRegistry C U) (out : Registered C U)
      → register now r s ≡ ok (t, out)
      → (foreign r.tenant_id r.hostnames s.by_hostname ≡ none)
        × (install (handle_of now (u64 (s.next_generation + 1)) r) s ≡ (t, out))
  unfolding register
  register_split now r s t out e = ground arith

  -- A registration succeeds exactly when none of its hostnames leads to a registration of another
  -- tenant.
  pub register-ok_iff :
      (now : ℕ) (r : Registration C U) (s : ConnectorRegistry C U)
      → ((out : ConnectorRegistry C U × Registered C U) × (register now r s ≡ ok out)) ↔ (
          (j : Text) (x : ConnectorHandle C U)
          → contains r.hostnames j ≡ true
          → get_by_hostname j s ≡ some x
          → x.tenant_id ≡ r.tenant_id)
  unfolding register get_by_hostname
  register-ok_iff now r s = (
    λ (out, e) j x c g.
        foreign-none r.tenant_id r.hostnames s.by_hostname j x
          (ground (arith, Option-cases (foreign r.tenant_id r.hostnames s.by_hostname))) c g,
    λ own. elim (Option-cases (foreign r.tenant_id r.hostnames s.by_hostname)) [
      | inl free ↦ (install (handle_of now (u64 (s.next_generation + 1)) r) s, rw (free, register))
      | inr (j, taken) ↦
          let (x, found, listed, other) =
            foreign-some r.tenant_id r.hostnames s.by_hostname j taken in
          absurd (ground (arith, own j x listed found))
    ],
  )

  -- A registration that succeeds in a registry that satisfies the invariant leaves one that
  -- satisfies it, as long as the generation counter does not wrap.
  pub register-IsValid :
      (now : ℕ) (r : Registration C U) (s t : ConnectorRegistry C U) (out : Registered C U)
      → register now r s ≡ ok (t, out)
      → IsValid s
      → s.next_generation + 1 < 2 ^ 64
      → IsValid t
  unfolding handle_of
  register-IsValid now r s t out e v fits =
      let (free, done) = register_split now r s t out e in
      subst (λ (p : ConnectorRegistry C U × Registered C U). IsValid p.0) done
        (install-IsValid s (handle_of now (u64 (s.next_generation + 1)) r) v free
          (mod-eq_of_lt fits) fits)

  -- After a registration that succeeds in a registry that satisfies the invariant, each of its
  -- hostnames leads to the new handle, every other hostname of the same tenant leads nowhere, and
  -- the hostnames of the other tenants are as before.
  pub lookup-register :
      (now : ℕ) (r : Registration C U) (s t : ConnectorRegistry C U) (out : Registered C U)
      (j : Text)
      → register now r s ≡ ok (t, out)
      → IsValid s
      → get_by_hostname j t ≡ (
          if contains r.hostnames j
          then some out.handle
          else keep_unless (λ y. y.tenant_id == r.tenant_id) (get_by_hostname j s))
  unfolding handle_of get_by_hostname install
  lookup-register now r s t out j e v =
      let x = handle_of now (u64 (s.next_generation + 1)) r in
      let (free, done) = register_split now r s t out e in ground (arith, lookup-install s x j v)

  -- A registration that succeeds, where the generation counter does not wrap, gives a handle of its
  -- tenant with the next generation, hands back the registration that the tenant had, and leaves
  -- the handle as the tenant's and its generation as the counter.
  pub register-Registered :
      (now : ℕ) (r : Registration C U) (s t : ConnectorRegistry C U) (out : Registered C U)
      → register now r s ≡ ok (t, out)
      → s.next_generation + 1 < 2 ^ 64
      → (out.handle.generation ≡ s.next_generation + 1)
        × (out.handle.tenant_id ≡ r.tenant_id)
        × (out.replaced ≡ get r.tenant_id s.by_tenant)
        × (get r.tenant_id t.by_tenant ≡ some out.handle)
        × (t.next_generation ≡ out.handle.generation)
  unfolding handle_of install
  register-Registered now r s t out e fits =
      let x = handle_of now (u64 (s.next_generation + 1)) r in
      let (free, done) = register_split now r s t out e in
      ground (
        arith,
        mod-eq_of_lt fits,
        get-insert r.tenant_id r.tenant_id x s.by_tenant,
        Option-cases (get r.tenant_id s.by_tenant),
      )
