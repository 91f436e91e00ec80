-- ===== src/Pool/Safety.antt =====
-- Only allowed peers that proved their identity are in the pool, and one that failed is left alone.
use sievetube.Prelude.{
  text_eq, nat_eq, ℕ, ◌≡◌, sym, subst, Text, ◌==◌, Bool, true, none, some, List, Result, ok, err,
  if◌then◌else◌, contains, arith, Option-cases, Bool-cases, Result-cases, inl, inr,
}
use sievetube.Prelude.Maps.{get, insert, erase, get-erase}
use sievetube.Prelude.Predicates.{Entries, insert-Entries, get-Entries}
use sievetube.Pool.{
  PeerPool, PoolError, failed_recently, not_allowed, connect_failed, wrong_identity, Peers,
  is_allowed, is_cooling, start_cooldown, connection_failed, usable, connect, connect_or_cool,
  connection_locked, connection,
}

module _ {C W : Type 0} (q : Peers C W) (allowed : List Text) where
  -- Every pooled connection authenticated as the peer that it is kept for, and the peer is allowed.
  unfoldable pub IsAuthentic : PeerPool C → Type 0
  IsAuthentic p =
      (p.allowed ≡ allowed)
      × Entries (λ edge c. (q.peer_edge_id c ≡ some edge) × (contains allowed edge ≡ true))
          p.connections

  pub record Waits : Type 0 where
    pub lock :
        (edge : Text) (s : PeerPool C × W) → IsAuthentic s.0 → IsAuthentic (q.wait_lock edge s).0
    pub dial :
        (edge : Text) (s : PeerPool C × W) → IsAuthentic s.0 → IsAuthentic (q.dial edge s).0.0

  abbrev pub Owns : Text → C → Type 0
  Owns edge c = (q.peer_edge_id c ≡ some edge) × (contains allowed edge ≡ true)

  abbrev pub Gives : Text → Result PoolError C → Type 0
  Gives edge (ok c) = Owns edge c
  Gives edge (err e) = Unit

  -- What a call may leave and give.
  IsGood : Text → (PeerPool C × W) × Result PoolError C → Type 0
  IsGood edge out = IsAuthentic out.0.0 × Gives edge out.1

  usable-IsGood :
      (edge : Text) (s : PeerPool C × W) (c : C)
      → IsAuthentic s.0
      → usable q s edge ≡ some c
      → IsGood edge (s, ok c)
  unfolding IsGood IsAuthentic usable
  usable-IsGood edge s c v h = (v, get-Entries Owns edge s.0.connections c v.1 (ground arith))

  connect-IsGood :
      (edge : Text) (s : PeerPool C × W)
      → Waits
      → contains allowed edge ≡ true
      → IsAuthentic s.0
      → IsGood edge (connect q edge s)
  unfolding IsGood IsAuthentic connect
  connect-IsGood edge s waits may v =
      let dialed = q.dial edge s in
      let kept = waits.dial edge s v in
      elim (Option-cases dialed.1) [
        | inl failed ↦
            let same : connect q edge s ≡ (dialed.0, err connect_failed) = ground arith in
            subst (IsGood edge) (sym same) (kept, tt)
        | inr (c, got) ↦ elim (Option-cases (q.peer_edge_id c)) [
          | inl nameless ↦
              let same : connect q edge s ≡ (dialed.0, err wrong_identity) = ground arith in
              subst (IsGood edge) (sym same) (kept, tt)
          | inr (identity, named) ↦ elim (Bool-cases (identity == edge)) [
            | inr other ↦
                let same : connect q edge s ≡ (dialed.0, err wrong_identity) = ground arith in
                subst (IsGood edge) (sym same) (kept, tt)
            | inl proved ↦
                let owner : Owns edge c = (ground arith, may) in
                let pooled = record dialed.0.0 {
                  cooldown = erase edge dialed.0.0.cooldown;
                  connections = insert edge c dialed.0.0.connections;
                } in
                let same : connect q edge s ≡ ((pooled, dialed.0.1), ok c) = ground arith in
                subst (IsGood edge) (sym same)
                  ((kept.0, insert-Entries Owns edge c dialed.0.0.connections owner kept.1), owner)
          ]
        ]
      ]

  connect_or_cool-IsGood :
      (edge : Text) (s : PeerPool C × W)
      → Waits
      → contains allowed edge ≡ true
      → IsAuthentic s.0
      → IsGood edge (connect_or_cool q edge s)
  unfolding IsGood IsAuthentic connect_or_cool start_cooldown
  connect_or_cool-IsGood edge s waits may v =
      let good = connect-IsGood edge s waits may v in
      elim (Result-cases (connect q edge s).1) [
        | inl (c, done) ↦
            let same : connect_or_cool q edge s ≡ connect q edge s = ground arith in
            subst (IsGood edge) (sym same) good
        | inr (e, failed) ↦
            let done = connect q edge s in
            let same : connect_or_cool q edge s
                ≡ ((start_cooldown (q.now done.0.1) edge done.0.0, done.0.1), err e) =
              ground arith in
            subst (IsGood edge) (sym same) (good.0, tt)
      ]

  connection_locked-IsGood :
      (edge : Text) (s : PeerPool C × W)
      → Waits
      → contains allowed edge ≡ true
      → IsAuthentic s.0
      → IsGood edge (connection_locked q edge s)
  unfolding connection_locked IsGood
  connection_locked-IsGood edge s waits may v = elim (Option-cases (usable q s edge)) [
    | inr (c, there) ↦
        let same : connection_locked q edge s ≡ (s, ok c) = ground arith in
        subst (IsGood edge) (sym same) (usable-IsGood edge s c v there)
    | inl missing ↦ elim (Bool-cases (is_cooling s.0 (q.now s.1) edge)) [
      | inl cooling ↦
          let same : connection_locked q edge s ≡ (s, err failed_recently) = ground arith in
          subst (IsGood edge) (sym same) (v, tt)
      | inr ready ↦
          let same : connection_locked q edge s ≡ connect_or_cool q edge s = ground arith in
          subst (IsGood edge) (sym same) (connect_or_cool-IsGood edge s waits may v)
    ]
  ]

  connection-IsGood :
      (edge : Text) (s : PeerPool C × W)
      → Waits
      → IsAuthentic s.0
      → IsGood edge (connection q edge s)
  unfolding connection IsGood IsAuthentic is_allowed
  connection-IsGood edge s waits v = elim (Bool-cases (contains s.0.allowed edge)) [
    | inr refused ↦
        let same : connection q edge s ≡ (s, err not_allowed) = ground arith in
        subst (IsGood edge) (sym same) (v, tt)
    | inl may ↦ elim (Option-cases (usable q s edge)) [
      | inr (c, there) ↦
          let same : connection q edge s ≡ (s, ok c) = ground arith in
          subst (IsGood edge) (sym same) (usable-IsGood edge s c v there)
      | inl missing ↦ elim (Bool-cases (is_cooling s.0 (q.now s.1) edge)) [
        | inl cooling ↦
            let same : connection q edge s ≡ (s, err failed_recently) = ground arith in
            subst (IsGood edge) (sym same) (v, tt)
        | inr ready ↦
            let later = q.wait_lock edge s in
            let same : connection q edge s ≡ connection_locked q edge later = ground arith in
            let known : contains allowed edge ≡ true = rw (sym v.0) may in
            subst (IsGood edge) (sym same)
              (connection_locked-IsGood edge later waits known (waits.lock edge s v))
      ]
    ]
  ]

  -- If other tasks keep the invariant while this one waits, a connection to a peer that is given
  -- out, an old one or a new one, is one that authenticated as this peer, the peer is allowed, and
  -- the invariant holds of the pool that is left.
  pub connection-IsAuthentic :
      (edge : Text) (s : PeerPool C × W)
      → Waits
      → IsAuthentic s.0
      → IsAuthentic (connection q edge s).0.0 × Gives edge (connection q edge s).1
  connection-IsAuthentic edge s waits v = unfold IsGood in connection-IsGood edge s waits v

  -- A closed connection is taken from the pool if it is the pooled one; a newer connection stays, and so
  -- does everything if the connection is open.
  pub get-connection_failed :
      (closed : Bool) (now : ℕ) (edge : Text) (c : C) (p : PeerPool C)
      → (get edge (connection_failed q closed now edge c p).connections
          ≡ (elim (get edge p.connections) [
            | none ↦ none
            | some d ↦
                if closed then (if q.stable_id d == q.stable_id c then none else some d) else some d
          ]))
  unfolding connection_failed start_cooldown
  get-connection_failed closed now edge c p = ground (arith, get-erase edge edge p.connections)
