-- ===== src/Registry/Invariant.antt =====
-- What holds of the registry between two calls: the hostname index and the tenant index agree.
use sievetube.Prelude.{
  text_eq, nat_eq, ℕ, ◌≤◌, ◌≡◌, refl, Text, ◌==◌, true, false, Option, none, some, List, [], ◌∷◌,
  length, contains, arith, if◌then◌else◌, Option-cases, Bool-cases, inl, inr,
}
use sievetube.Prelude.Maps.{Map, get, insert, remove_if, Distinct, get-insert, get-remove_if}
use sievetube.Registry.{
  ConnectorHandle, ConnectorRegistry, pos, add_hostnames, drop_hostnames, foreign, new,
}

module _ {C U : Type 0} where
  pub record IsValid (s : ConnectorRegistry C U) : Type 0 where
    pub distinct : Distinct s.by_tenant
    -- an indexed hostname leads to a current registration that claims it
    pub sound :
        (h : Text) (x : ConnectorHandle C U)
        → get h s.by_hostname ≡ some x
        → (get x.tenant_id s.by_tenant ≡ some x) × (contains x.hostnames h ≡ true)
    -- every hostname of a current registration is indexed, and leads to it
    pub complete :
        (t h : Text) (x : ConnectorHandle C U)
        → get t s.by_tenant ≡ some x
        → contains x.hostnames h ≡ true
        → get h s.by_hostname ≡ some x
    pub tenants :
        (t : Text) (x : ConnectorHandle C U)
        → get t s.by_tenant ≡ some x
        → (x.tenant_id ≡ t) × (x.generation ≤ s.next_generation)
    pub gauge : s.active_quic_connections ≡ pos (length s.by_tenant)

  pub get-add_hostnames :
      (x : ConnectorHandle C U) (hs : List Text) (j : Text) (m : Map Text (ConnectorHandle C U))
      → get j (add_hostnames x hs m) ≡ (if contains hs j then some x else get j m)
  unfolding add_hostnames
  get-add_hostnames x [] j m = refl
  get-add_hostnames x (h ∷ hs) j m =
      ground (arith, get-add_hostnames x hs j (insert h x m), get-insert h j x m)

  abbrev pub dropped : ℕ → Option (ConnectorHandle C U) → Option (ConnectorHandle C U)
  dropped gen none = none
  dropped gen (some x) = if x.generation == gen then none else some x

  pub get-drop_hostnames :
      (gen : ℕ) (hs : List Text) (j : Text) (m : Map Text (ConnectorHandle C U))
      → get j (drop_hostnames gen hs m) ≡ (if contains hs j then dropped gen (get j m) else get j m)
  unfolding drop_hostnames
  get-drop_hostnames gen [] j m = refl
  get-drop_hostnames gen (h ∷ hs) j m = ground (
    arith,
    get-drop_hostnames gen hs j (remove_if h (λ x. x.generation == gen) m),
    get-remove_if h j (λ x. x.generation == gen) m,
  )

  -- The check passes exactly where no claimed hostname leads to another tenant.
  pub foreign-none :
      (t : Text) (hs : List Text) (m : Map Text (ConnectorHandle C U)) (j : Text)
      (x : ConnectorHandle C U)
      → foreign t hs m ≡ none
      → contains hs j ≡ true
      → get j m ≡ some x
      → x.tenant_id ≡ t
  unfolding foreign
  foreign-none t [] m j x f c g = cc
  foreign-none t (h ∷ hs) m j x f c g = ground (arith, foreign-none t hs m j x)

  pub foreign-some :
      (t : Text) (hs : List Text) (m : Map Text (ConnectorHandle C U)) (j : Text)
      → foreign t hs m ≡ some j
      → (x : ConnectorHandle C U) × (get j m ≡ some x)
        × (contains hs j ≡ true)
        × ((x.tenant_id == t) ≡ false)
  unfolding foreign
  foreign-some t [] m j f = cc
  foreign-some t (h ∷ hs) m j f = elim (Option-cases (get h m)) [
    | inl free ↦
        let (x, found, listed, other) = foreign-some t hs m j (rw (free, foreign) at f) in
        (x, found, ground arith, other)
    | inr (x, taken) ↦ elim (Bool-cases (x.tenant_id == t)) [
      | inl same ↦
          let (y, found, listed, other) = foreign-some t hs m j (ground arith) in
          (y, found, ground arith, other)
      | inr other ↦ (x, ground arith, ground arith, other)
    ]
  ]

  pub new-IsValid : IsValid (new {C = C} {U = U})
  unfolding new get
  new-IsValid = record {
    distinct = tt;
    sound = λ h x e. cc;
    complete = λ t h x e c. cc;
    tenants = λ t x e. cc;
    gauge = refl;
  }
