-- ===== src/Pool.antt =====
-- sievetube-edge/src/mesh/transport.rs: the outgoing connections to the peers. `C` stands for
-- `quinn::Connection`; what is known of one connection, and how connecting ends, are arguments. The
-- second look at the pool, behind the connect lock, is a second step with the time and state of then.
pub mod Safety
mod Tests
use sievetube.Prelude.{
  text_eq, nat_eq, ℕ, ◌+◌, Text, ◌==◌, ltb, ◌&&◌, ◌||◌, not, Bool, true, false, Option, none, some,
  List, [], ◌∷◌, Result, ok, err, if◌then◌else◌, contains,
}
use sievetube.Prelude.Maps.{Map, get, insert, erase}

pub record PeerPool (C : Type 0) : Type 0 where
  pub allowed : List Text
  pub connections : Map Text C
  pub cooldown : Map Text ℕ
  pub cooldown_period : ℕ

-- Why there is no connection.
pub data PoolError : Type 0 where
  not_allowed failed_recently connect_failed wrong_identity : PoolError

-- QUIC and the other tasks. `wait_lock` and `dial` are waits, in which others may change the pool;
-- `dial` gives the connection if the handshake succeeds in time.
pub record Peers (C W : Type 0) : Type 0 where
  pub stable_id : C → ℕ
  pub peer_edge_id : C → Option Text
  pub is_open : W → C → Bool
  pub now : W → ℕ
  pub wait_lock : Text → PeerPool C × W → PeerPool C × W
  pub dial : Text → PeerPool C × W → (PeerPool C × W) × Option C

module _ {C : Type 0} where
  unfoldable pub is_allowed : PeerPool C → Text → Bool
  is_allowed p edge_id = contains p.allowed edge_id

  unfoldable pub is_cooling : PeerPool C → ℕ → Text → Bool
  is_cooling p now edge_id = elim (get edge_id p.cooldown) [
    | none ↦ false
    | some until ↦ ltb now until
  ]

  unfoldable pub start_cooldown : ℕ → Text → PeerPool C → PeerPool C
  start_cooldown now edge_id p = record p {
    cooldown = insert edge_id (now + p.cooldown_period) p.cooldown;
  }

  unfoldable pub close_all : PeerPool C → PeerPool C
  close_all p = record p { connections = [] }

module _ {C W : Type 0} (q : Peers C W) where
  -- `connection_failed`, where `closed` says whether the connection is closed.
  unfoldable pub connection_failed : Bool → ℕ → Text → C → PeerPool C → PeerPool C
  connection_failed closed now edge_id connection p =
      if not closed then p else elim (get edge_id p.connections) [
        | none ↦ start_cooldown now edge_id p
        | some pooled ↦
            if q.stable_id pooled == q.stable_id connection
            then start_cooldown now edge_id (record p { connections = erase edge_id p.connections })
            else p
      ]

  unfoldable pub connection_unresponsive : ℕ → Text → C → PeerPool C → PeerPool C
  connection_unresponsive now edge_id connection p = connection_failed true now edge_id connection p

  unfoldable pub usable : PeerPool C × W → Text → Option C
  usable (p, w) edge_id = elim (get edge_id p.connections) [
    | none ↦ none
    | some connection ↦ if q.is_open w connection then some connection else none
  ]

  -- `connect`
  unfoldable pub connect : Text → PeerPool C × W → (PeerPool C × W) × Result PoolError C
  connect edge_id s =
      let dialed = q.dial edge_id s in
      elim dialed.1 [
        | none ↦ (dialed.0, err connect_failed)
        | some connection ↦ elim (q.peer_edge_id connection) [
          | none ↦ (dialed.0, err wrong_identity)
          | some identity ↦
              if identity == edge_id
              then (
                (
                  record dialed.0.0 {
                    cooldown = erase edge_id dialed.0.0.cooldown;
                    connections = insert edge_id connection dialed.0.0.connections;
                  },
                  dialed.0.1,
                ),
                ok connection,
              )
              else (dialed.0, err wrong_identity)
        ]
      ]

  -- `connect(…).inspect_err(…)`
  unfoldable pub connect_or_cool : Text → PeerPool C × W → (PeerPool C × W) × Result PoolError C
  connect_or_cool edge_id s =
      let done = connect edge_id s in
      elim done.1 [
        | ok connection ↦ done
        | err e ↦ ((start_cooldown (q.now done.0.1) edge_id done.0.0, done.0.1), err e)
      ]

  -- The part of `connection` behind the connect lock.
  unfoldable pub connection_locked : Text → PeerPool C × W → (PeerPool C × W) × Result PoolError C
  connection_locked edge_id s = elim (usable s edge_id) [
    | some existing ↦ (s, ok existing)
    | none ↦
        if is_cooling s.0 (q.now s.1) edge_id
        then (s, err failed_recently)
        else connect_or_cool edge_id s
  ]

  unfoldable pub connection : Text → PeerPool C × W → (PeerPool C × W) × Result PoolError C
  connection edge_id s =
      if not (is_allowed s.0 edge_id) then (s, err not_allowed) else elim (usable s edge_id) [
        | some existing ↦ (s, ok existing)
        | none ↦
            if is_cooling s.0 (q.now s.1) edge_id
            then (s, err failed_recently)
            else connection_locked edge_id (q.wait_lock edge_id s)
      ]
