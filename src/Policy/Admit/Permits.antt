-- ===== src/Policy/Admit/Permits.antt =====
-- The concurrency limits on TCP connections, over any order of admissions and closings.
use mathlib.Core.Option
use sievetube.Prelude.{
  nat_eq, ℕ, ◌+◌, ◌-◌, ◌≤◌, ◌≡◌, Text, none, some, List, [], ◌∷◌, ◌++◌, ◌==◌, if◌then◌else◌, arith,
  Option-cases, inl, inr, subst,
}
use sievetube.Prelude.Maps.{get}
use sievetube.Policy.{World, Verdict, Decision}
use sievetube.Policy.Slots.{taken, taken-acquire, taken-release}
use sievetube.Policy.Compile.{CompiledTcp}
use sievetube.Policy.Admit.{
  Policy, TcpPermit, drop_permit, acquire_listener, acquire_ip, acquire_tcp, decide_tcp, with_slot,
  admit_tcp,
}

-- 1 where the key is the permit's, and 0 elsewhere.
abbrev pub holds : Option.Option ℕ → ℕ → ℕ
holds none k = 0
holds (some j) k = if j == k then 1 else 0

module _ (w : World) where
  -- The number of permits that hold a slot of a key.
  abbrev pub ip_slots : List (TcpPermit w) → ℕ → ℕ
  ip_slots [] k = 0
  ip_slots (p ∷ ps) k = holds p.ip_key k + ip_slots ps k

  abbrev pub listener_slots : List (TcpPermit w) → ℕ → ℕ
  listener_slots [] k = 0
  listener_slots (p ∷ ps) k = holds p.listener_key k + listener_slots ps k

  -- The counters are the numbers of outstanding permits.
  pub record Counts (p : Policy w) (held : List (TcpPermit w)) : Type 0 where
    pub by_ip : (k : ℕ) → taken p.tcp_ip_active k ≡ ip_slots held k
    pub by_listener : (k : ℕ) → taken p.tcp_listener_active k ≡ listener_slots held k

  abbrev pub held_after : Option.Option (TcpPermit w) → List (TcpPermit w) → List (TcpPermit w)
  held_after none held = held
  held_after (some permit) held = permit ∷ held

  acquire_listener-counts :
      (p : Policy w) (limits : CompiledTcp w) (listener : Text) (k : ℕ)
      → (taken (acquire_listener w p limits listener).0.tcp_listener_active k
          ≡ taken p.tcp_listener_active k
            + listener_slots (held_after (acquire_listener w p limits listener).1 []) k)
        × ((acquire_listener w p limits listener).0.tcp_ip_active ≡ p.tcp_ip_active)
        × (ip_slots (held_after (acquire_listener w p limits listener).1 []) k ≡ 0)
  unfolding acquire_listener
  acquire_listener-counts p limits listener k =
      elim (Option-cases limits.max_concurrent_per_listener) [
        | inl unlimited ↦ ground arith
        | inr (limit, limited) ↦
            ground (arith, taken-acquire p.tcp_listener_active (w.hash_listener listener) limit k)
      ]

  first_permit :
      (p : Policy w) (limits : CompiledTcp w) (listener : Text) (permit : TcpPermit w)
      → (acquire_listener w p limits listener).1 ≡ some permit
      → permit.ip_key ≡ none
  unfolding acquire_listener
  first_permit p limits listener permit h = elim (Option-cases limits.max_concurrent_per_listener) [
    | inl unlimited ↦ ground arith
    | inr (limit, limited) ↦ ground arith
  ]

  acquire_ip-counts :
      (p : Policy w) (limits : CompiledTcp w) (listener : Text) (ip : w.IpAddr)
      (permit : TcpPermit w) (k : ℕ)
      → permit.ip_key ≡ none
      → holds permit.listener_key k ≤ taken p.tcp_listener_active k
      → (taken (acquire_ip w p limits listener ip permit).0.tcp_ip_active k
          ≡ taken p.tcp_ip_active k
            + ip_slots (held_after (acquire_ip w p limits listener ip permit).1 []) k)
        × (taken (acquire_ip w p limits listener ip permit).0.tcp_listener_active k
            ≡ taken p.tcp_listener_active k
              - holds permit.listener_key k
              + listener_slots (held_after (acquire_ip w p limits listener ip permit).1 []) k)
  unfolding acquire_ip drop_permit
  acquire_ip-counts p limits listener ip permit k own enough =
      elim (Option-cases limits.max_concurrent_per_ip) [
        | inl unlimited ↦ ground arith
        | inr (limit, limited) ↦
            let key = w.hash_slot listener ip in
            let (test, counts) = taken-acquire p.tcp_ip_active key limit k in
            elim (Option-cases permit.listener_key) [
              | inl unlisted ↦ ground arith
              | inr (listed, keyed) ↦ ground (arith, taken-release p.tcp_listener_active listed k)
            ]
      ]

  acquire_tcp-counts :
      (p : Policy w) (limits : CompiledTcp w) (listener : Text) (ip : w.IpAddr) (k : ℕ)
      → (taken (acquire_tcp w p limits listener ip).0.tcp_ip_active k
          ≡ taken p.tcp_ip_active k
            + ip_slots (held_after (acquire_tcp w p limits listener ip).1 []) k)
        × (taken (acquire_tcp w p limits listener ip).0.tcp_listener_active k
            ≡ taken p.tcp_listener_active k
              + listener_slots (held_after (acquire_tcp w p limits listener ip).1 []) k)
  unfolding acquire_tcp
  acquire_tcp-counts p limits listener ip k =
      let (active, same, slots) = acquire_listener-counts p limits listener k in
      elim (Option-cases (acquire_listener w p limits listener).1) [
        | inl full ↦ ground arith
        | inr (permit, first) ↦ ground (
          arith,
          acquire_ip-counts (acquire_listener w p limits listener).0 limits listener ip permit k
              (first_permit p limits listener permit first),
        )
      ]

  decide_tcp-active :
      (p q : Policy w) (listener : Text) (ip : w.IpAddr) (now : ℕ) (c : Decision)
      → decide_tcp w p listener ip now ≡ some (q, c)
      → (q.tcp_ip_active ≡ p.tcp_ip_active) × (q.tcp_listener_active ≡ p.tcp_listener_active)
  unfolding decide_tcp
  decide_tcp-active p q listener ip now c h = ground arith

  with_slot-counts :
      (p : Policy w) (listener : Text) (ip : w.IpAddr) (c : Decision) (k : ℕ)
      → (taken (with_slot w p listener ip c).0.tcp_ip_active k
          ≡ taken p.tcp_ip_active k + ip_slots (held_after (with_slot w p listener ip c).2 []) k)
        × (taken (with_slot w p listener ip c).0.tcp_listener_active k
            ≡ taken p.tcp_listener_active k
              + listener_slots (held_after (with_slot w p listener ip c).2 []) k)
  unfolding with_slot
  with_slot-counts p listener ip c k =
      elim (Option-cases (acquire_tcp w p p.compiled.tcp listener ip).1) [
        | inl full ↦ ground (arith, acquire_tcp-counts p p.compiled.tcp listener ip k)
        | inr (permit, got) ↦ ground (arith, acquire_tcp-counts p p.compiled.tcp listener ip k)
      ]

  admit_tcp-counts :
      (p q : Policy w) (listener : Text) (ip : w.IpAddr) (now : ℕ) (v : Verdict)
      (permit : Option.Option (TcpPermit w)) (k : ℕ)
      → admit_tcp w p listener ip now ≡ some (q, v, permit)
      → (taken q.tcp_ip_active k ≡ taken p.tcp_ip_active k + ip_slots (held_after permit []) k)
        × (taken q.tcp_listener_active k
            ≡ taken p.tcp_listener_active k + listener_slots (held_after permit []) k)
  unfolding admit_tcp
  admit_tcp-counts p q listener ip now v permit k h =
      elim (Option-cases (decide_tcp w p listener (w.to_canonical ip) now)) [
        | inl panics ↦ ground arith
        | inr ((r, c), decided) ↦ ground (
          arith,
          with_slot-counts r listener (w.to_canonical ip) c k,
          decide_tcp-active p r listener (w.to_canonical ip) now c decided,
        )
      ]

  -- An admission counts the slots of the permit that it returns, and nothing else: one that returns
  -- no permit leaves the counters as they were, also where it had taken a listener's slot.
  pub admit_tcp-Counts :
      (p q : Policy w) (listener : Text) (ip : w.IpAddr) (now : ℕ) (v : Verdict)
      (permit : Option.Option (TcpPermit w)) (held : List (TcpPermit w))
      → admit_tcp w p listener ip now ≡ some (q, v, permit)
      → Counts p held
      → Counts q (held_after permit held)
  admit_tcp-Counts p q listener ip now v permit held h c = record {
    by_ip = λ k. ground (arith, admit_tcp-counts p q listener ip now v permit k h, c.by_ip k);
    by_listener =
        λ k. ground (arith, admit_tcp-counts p q listener ip now v permit k h, c.by_listener k);
  }

  ip_slots-append :
      (xs ys : List (TcpPermit w)) (k : ℕ) → ip_slots (xs ++ ys) k ≡ ip_slots xs k + ip_slots ys k
  ip_slots-append [] ys k = omega arith
  ip_slots-append (x ∷ xs) ys k = omega (arith, ip_slots-append xs ys k)

  listener_slots-append :
      (xs ys : List (TcpPermit w)) (k : ℕ)
      → listener_slots (xs ++ ys) k ≡ listener_slots xs k + listener_slots ys k
  listener_slots-append [] ys k = omega arith
  listener_slots-append (x ∷ xs) ys k = omega (arith, listener_slots-append xs ys k)

  drop_permit-taken :
      (p : Policy w) (permit : TcpPermit w) (k : ℕ)
      → (taken (drop_permit w p permit).tcp_ip_active k
          ≡ taken p.tcp_ip_active k - holds permit.ip_key k)
        × (taken (drop_permit w p permit).tcp_listener_active k
            ≡ taken p.tcp_listener_active k - holds permit.listener_key k)
  unfolding drop_permit
  drop_permit-taken p permit k = (
    elim (Option-cases permit.ip_key) [
      | inl unkeyed ↦ ground arith
      | inr (j, keyed) ↦ ground (arith, taken-release p.tcp_ip_active j k)
    ],
    elim (Option-cases permit.listener_key) [
      | inl unkeyed ↦ ground arith
      | inr (j, keyed) ↦ ground (arith, taken-release p.tcp_listener_active j k)
    ],
  )

  -- Closing a connection, whichever of the open ones it is, gives back exactly its slots.
  pub drop_permit-Counts :
      (p : Policy w) (permit : TcpPermit w) (before after : List (TcpPermit w))
      → Counts p (before ++ permit ∷ after)
      → Counts (drop_permit w p permit) (before ++ after)
  drop_permit-Counts p permit before after c = record {
    by_ip = λ k. omega (
      arith,
      (drop_permit-taken p permit k).0,
      c.by_ip k,
      ip_slots-append before (permit ∷ after) k,
      ip_slots-append before after k,
    );
    by_listener = λ k. omega (
      arith,
      (drop_permit-taken p permit k).1,
      c.by_listener k,
      listener_slots-append before (permit ∷ after) k,
      listener_slots-append before after k,
    );
  }

  -- The runs of a policy: connections are admitted at any time and closed in any order.
  pub data Run (p : Policy w) : Policy w → List (TcpPermit w) → Type 0 where
    start : Run p p []
    admit :
        {q r : Policy w} {held : List (TcpPermit w)} (listener : Text) (ip : w.IpAddr) (now : ℕ)
        (v : Verdict) (permit : Option.Option (TcpPermit w))
        → Run p q held
        → admit_tcp w q listener ip now ≡ some (r, v, permit)
        → Run p r (held_after permit held)
    close :
        {q : Policy w} {held : List (TcpPermit w)} (permit : TcpPermit w)
        (before after : List (TcpPermit w))
        → Run p q held
        → held ≡ before ++ permit ∷ after
        → Run p (drop_permit w q permit) (before ++ after)

  -- From a policy whose two tables of active connections are empty, over every run, each counter is
  -- the number of open connections that hold a slot of its key.
  pub Run-Counts :
      {p q : Policy w} {held : List (TcpPermit w)}
      → Run p q held
      → p.tcp_ip_active ≡ []
      → p.tcp_listener_active ≡ []
      → Counts q held
  unfolding get
  Run-Counts start a b = record { by_ip = λ k. ground arith; by_listener = λ k. ground arith }
  Run-Counts (admit {q} {r} {held} listener ip now v permit run h) a b =
      admit_tcp-Counts q r listener ip now v permit held h (Run-Counts run a b)
  Run-Counts (close {q} {held} permit before after run e) a b =
      drop_permit-Counts q permit before after
        (subst (λ (l : List (TcpPermit w)). Counts q l) e (Run-Counts run a b))
