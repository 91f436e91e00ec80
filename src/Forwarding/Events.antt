-- ===== src/Forwarding/Events.antt =====
-- What happens to forwarded datagrams in a run, and how many replies the table still awaits. `A` has an
-- equality, so that the requests and replies of a run can be counted.
use sievetube.Prelude.{
  text_eq, nat_eq, ℕ, ◌+◌, ◌≤◌, ◌≡◌, ◌⊎◌, refl, Text, Eq, ◌==◌, ◌&&◌, Bool, true, false, Option,
  none, some, List, [], ◌∷◌, Result, ok, err, if◌then◌else◌, arith, inl, inr,
}
use sievetube.Prelude.Maps.{
  get, retain, Distinct, get-insert, get-erase, get-retain, retain-Distinct, insert-Distinct,
}
use sievetube.MeshWire.{MeshDatagramKind}
use sievetube.Routes.{RemoteRoute}
use sievetube.UdpReplies.{
  UdpReplyEntry, UdpReplyTable, is_fresh, make_room, insert_reply, remove_reply,
}
use sievetube.Forwarding.Datagrams.{
  UdpReplyDestination, client, peer, Sent, to_connector, to_client, UdpError,
}

-- What a run did: a request of a client went to a peer, or a reply of a peer went to a client.
pub data Event (A : Type 0) : Type 0 where
  forwarded : ℕ → Text → A → Event A
  delivered : ℕ → Text → A → Event A

abbrev pub one_if : Bool → ℕ
one_if true = 1
one_if false = 0

-- The events of a forwarding, before those of the run.
abbrev pub note_forward :
    {A : Type 0} → RemoteRoute A → A → Result UdpError ℕ → List (Event A) → List (Event A)
note_forward route a (ok id) es = forwarded id route.edge_id a ∷ es
note_forward route a (err e) es = es

module _ {A : Type 0} ⦃e : Eq A⦄ where
  abbrev pub is_for : ℕ → Text → A → ℕ → Text → A → Bool
  is_for id p a id' p' a' = id == id' && (p == p' && a == a')

  abbrev pub forwards : ℕ → Text → A → List (Event A) → ℕ
  forwards id p a [] = 0
  forwards id p a (forwarded i q b ∷ es) = one_if (is_for id p a i q b) + forwards id p a es
  forwards id p a (delivered i q b ∷ es) = forwards id p a es

  abbrev pub deliveries : ℕ → Text → A → List (Event A) → ℕ
  deliveries id p a [] = 0
  deliveries id p a (forwarded i q b ∷ es) = deliveries id p a es
  deliveries id p a (delivered i q b ∷ es) = one_if (is_for id p a i q b) + deliveries id p a es

pub deliveries-note_forward :
    {A : Type 0} ⦃e : Eq A⦄
    → (route : RemoteRoute A) (addr : A) (r : Result UdpError ℕ) (es : List (Event A)) (id : ℕ)
      (p : Text) (a : A)
    → deliveries id p a (note_forward route addr r es) ≡ deliveries id p a es
deliveries-note_forward route addr (ok i) es id p a = refl
deliveries-note_forward route addr (err x) es id p a = refl

pub kind-cases :
    (k : MeshDatagramKind) → (k ≡ MeshDatagramKind.request) ⊎ (k ≡ MeshDatagramKind.reply)
kind-cases MeshDatagramKind.request = inl refl
kind-cases MeshDatagramKind.reply = inr refl

module _ {C A K : Type 0} ⦃e : Eq A⦄ where
  -- Whether an entry awaits the peer's reply for the client.
  abbrev pub awaits : Text → A → UdpReplyEntry (UdpReplyDestination C A K) → Bool
  awaits p a entry = elim entry.destination [
    | client b socket ↦ elim entry.expect_peer [ none ↦ false | some q ↦ p == q && a == b ]
    | peer connection edge id host ↦ false
  ]

  abbrev pub awaited : ℕ → Text → A → UdpReplyTable (UdpReplyDestination C A K) → ℕ
  awaited id p a t = elim (get id t.entries) [ none ↦ 0 | some entry ↦ one_if (awaits p a entry) ]

  -- The events of handling a datagram.
  abbrev pub note_sent : Text → Option (Sent C A K) → List (Event A) → List (Event A)
  note_sent p none es = es
  note_sent p (some (to_connector connection bytes)) es = es
  note_sent p (some (to_client id a socket payload)) es = delivered id p a ∷ es

  pub insert_reply-awaited :
      (now id : ℕ) (entry : UdpReplyEntry (UdpReplyDestination C A K))
      (t : UdpReplyTable (UdpReplyDestination C A K)) (j : ℕ) (p : Text) (a : A)
      → Distinct t.entries
      → awaited j p a (insert_reply now id entry t).0
        ≤ awaited j p a t
          + (if (insert_reply now id entry t).1
              then (if id == j then one_if (awaits p a entry) else 0)
              else 0)
  unfolding insert_reply make_room
  insert_reply-awaited now id entry t j p a d = ground (
    arith,
    get-insert id j entry t.entries,
    get-insert id j entry (retain (is_fresh now t.ttl) t.entries),
    get-retain (is_fresh now t.ttl) j t.entries d,
  )

  pub insert_reply-Distinct :
      (now id : ℕ) (entry : UdpReplyEntry (UdpReplyDestination C A K))
      (t : UdpReplyTable (UdpReplyDestination C A K))
      → Distinct t.entries
      → Distinct (insert_reply now id entry t).0.entries
  unfolding insert_reply make_room
  insert_reply-Distinct now id entry t d = ground (
    arith,
    insert-Distinct id entry t.entries d,
    retain-Distinct (is_fresh now t.ttl) t.entries d,
    insert-Distinct id entry (retain (is_fresh now t.ttl) t.entries),
  )

  pub remove_reply-awaited :
      (id : ℕ) (t : UdpReplyTable (UdpReplyDestination C A K)) (j : ℕ) (p : Text) (a : A)
      → awaited j p a (remove_reply id t) ≡ (if id == j then 0 else awaited j p a t)
  unfolding remove_reply
  remove_reply-awaited id t j p a = ground (arith, get-erase id j t.entries)
