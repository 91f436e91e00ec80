-- ===== src/UdpReplies.antt =====
-- sievetube-edge/src/tunnel.rs: the UDP requests that await a reply. `D` stands for the destinations;
-- `now` is the time of a call in nanoseconds, and `e.created.elapsed()` is its distance from `created`.
-- Each method holds the lock, so it is one function on the table.
pub mod Bounds
mod Tests
use sievetube.Prelude.{
  nat_eq, ℕ, ◌-◌, Text, ltb, leb, Bool, true, false, Option, none, some, if◌then◌else◌, length, ◌∷◌,
  [],
}
use sievetube.Prelude.Maps.{Map, get, insert, erase, retain}

pub record UdpReplyEntry (D : Type 0) : Type 0 where
  pub destination : D
  pub expect_peer : Option Text
  pub created : ℕ

pub record UdpReplyTable (D : Type 0) : Type 0 where
  pub entries : Map ℕ (UdpReplyEntry D)
  pub max_entries : ℕ
  pub ttl : ℕ

unfoldable pub new_table : {D : Type 0} → ℕ → ℕ → UdpReplyTable D
new_table max_entries ttl = record { entries = []; max_entries = max_entries; ttl = ttl }

module _ {D : Type 0} where
  unfoldable pub is_fresh : ℕ → ℕ → UdpReplyEntry D → Bool
  is_fresh now ttl e = ltb (now - e.created) ttl

  -- The branch of `insert` for a full table.
  unfoldable pub make_room : ℕ → UdpReplyTable D → UdpReplyTable D
  make_room now t =
      if leb t.max_entries (length t.entries)
      then record t { entries = retain (is_fresh now t.ttl) t.entries }
      else t

  unfoldable pub insert_reply : ℕ → ℕ → UdpReplyEntry D → UdpReplyTable D → UdpReplyTable D × Bool
  insert_reply now request_id e t =
      let room = make_room now t in
      if leb t.max_entries (length room.entries)
      then (room, false)
      else (record room { entries = insert request_id e room.entries }, true)

  unfoldable pub unexpired : ℕ → ℕ → Option (UdpReplyEntry D) → Option (UdpReplyEntry D)
  unexpired now ttl none = none
  unexpired now ttl (some e) = if is_fresh now ttl e then some e else none

  unfoldable pub take_reply : ℕ → ℕ → UdpReplyTable D → UdpReplyTable D × Option (UdpReplyEntry D)
  take_reply now request_id t = (
    record t { entries = erase request_id t.entries },
    unexpired now t.ttl (get request_id t.entries),
  )

  unfoldable pub take_if :
      ℕ
      → ℕ
      → (UdpReplyEntry D → Bool)
      → UdpReplyTable D
      → UdpReplyTable D × Option (UdpReplyEntry D)
  take_if now request_id accept t = elim (get request_id t.entries) [
    | none ↦ (t, none)
    | some e ↦
        if accept e
        then (record t { entries = erase request_id t.entries }, unexpired now t.ttl (some e))
        else (t, none)
  ]

  unfoldable pub remove_reply : ℕ → UdpReplyTable D → UdpReplyTable D
  remove_reply request_id t = record t { entries = erase request_id t.entries }

  unfoldable pub contains_reply : ℕ → UdpReplyTable D → Bool
  contains_reply request_id t = elim (get request_id t.entries) [ none ↦ false | some e ↦ true ]

  unfoldable pub purge_expired : ℕ → UdpReplyTable D → UdpReplyTable D × ℕ
  purge_expired now t =
      let kept = retain (is_fresh now t.ttl) t.entries in
      (record t { entries = kept }, length t.entries - length kept)

  unfoldable pub pending : UdpReplyTable D → ℕ
  pending t = length t.entries
