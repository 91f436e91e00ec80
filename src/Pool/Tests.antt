-- ===== src/Pool/Tests.antt =====
-- A pool that may connect to one peer. A connection is the number of the peer that it authenticated as.
use sievetube.Prelude.{
  text_eq, nat_eq, ℕ_discrete, Text-discrete, ℕ, ◌≡◌, refl, Text, ◌==◌, true, none, some, [], ◌∷◌,
  ok, err, if◌then◌else◌,
}
use sievetube.Prelude.Maps.{get, insert, erase}
use sievetube.Config.{text}
use sievetube.Pool.{
  PeerPool, wrong_identity, Peers, is_allowed, is_cooling, start_cooldown, connection_failed,
  usable, connect, connect_or_cool, connection_locked, connection,
}
use sievetube.Pool.Safety.{IsAuthentic, Waits, Gives, connection-IsAuthentic}

program : Unit {0}
unfolding is_allowed is_cooling start_cooldown connection_failed usable connect connect_or_cool
    connection_locked connection get insert erase ℕ_discrete Text-discrete
program = tt

abbrev edge : Text
edge = text "e2"

-- Dialing ends in the connection that is the state of the world.
abbrev peers : Peers ℕ ℕ
peers = record {
  stable_id = λ c. c;
  peer_edge_id = λ c. if c == 2 then some edge else none;
  is_open = λ w c. true;
  now = λ w. w;
  wait_lock = λ e s. s;
  dial = λ e s. (s, some s.1);
}

abbrev pool : PeerPool ℕ
pool = record { allowed = edge ∷ []; connections = []; cooldown = []; cooldown_period = 10 }

abbrev pooled : PeerPool ℕ
pooled = record pool { connections = (edge, 2) ∷ [] }

connected : connection peers edge (pool, 2) ≡ ((pooled, 2), ok 2)
unfolding program
connected = refl

-- An Edge that proves another identity cools the peer down.
mistaken :
    connection peers edge (pool, 3)
    ≡ ((record pool { cooldown = (edge, 13) ∷ [] }, 3), err wrong_identity)
unfolding program
mistaken = refl

waits : Waits peers (edge ∷ [])
waits = record { lock = λ e s v. v; dial = λ e s v. v }

pool-IsAuthentic : IsAuthentic peers (edge ∷ []) pool
unfolding IsAuthentic
pool-IsAuthentic = (refl, tt)

connection-IsAuthentic_example :
    IsAuthentic peers (edge ∷ []) (connection peers edge (pool, 2)).0.0
    × Gives peers (edge ∷ []) edge (connection peers edge (pool, 2)).1
connection-IsAuthentic_example =
    connection-IsAuthentic peers (edge ∷ []) edge (pool, 2) waits pool-IsAuthentic
