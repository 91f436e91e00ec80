-- ===== src/Policy/Client/Spoofing.antt =====
-- A client cannot choose the address that limits are applied to.
use mathlib.Core.List.{reverse-append, append_assoc}
use sievetube.Prelude.{
  nat_eq, ◌≡◌, refl, ap, ◌∙◌, Text, Bool, true, false, not, ◌||◌, none, some, List, [], ◌∷◌, ◌++◌,
  reverse, any, arith, Option-cases, inl, inr,
}
use sievetube.Policy.{World, contains}
use sievetube.Policy.Client.{parse_forwarded_ip, hops, walk, resolve_client_ip}

module _ (w : World) (trusted : List w.IpNet) where
  -- A hop that ends the walk: it is no address, or the address of no trusted proxy.
  unfoldable pub ends_walk : Text → Bool
  ends_walk hop = elim (parse_forwarded_ip w hop) [
    | none ↦ true
    | some ip ↦ not (contains w trusted ip)
  ]

  walk-append :
      (client : w.IpAddr) (xs ys zs : List Text)
      → any ends_walk xs ≡ true
      → walk w trusted client (xs ++ ys) ≡ walk w trusted client (xs ++ zs)
  unfolding walk ends_walk
  walk-append client [] ys zs h = cc
  walk-append client (x ∷ xs) ys zs h = elim (Option-cases (parse_forwarded_ip w x)) [
    | inl bad ↦ ground arith
    | inr (ip, good) ↦ ground (arith, walk-append ip xs ys zs)
  ]

  any-append : (p : Text → Bool) (xs ys : List Text) → any p (xs ++ ys) ≡ (any p xs || any p ys)
  any-append p [] ys = refl
  any-append p (x ∷ xs) ys = ground (arith, any-append p xs ys)

  any-reverse : (p : Text → Bool) (xs : List Text) → any p (reverse xs) ≡ any p xs
  any-reverse p [] = refl
  any-reverse p (x ∷ xs) =
      ap (any p) (reverse-append (x ∷ []) xs)
      ∙ ground (arith, any-append p (reverse xs) (x ∷ []), any-reverse p xs)

  -- If the hops of two forwarding headers end in the same entries, and one of these ends the walk,
  -- then both headers give the same client address: what stands to the left does not matter.
  pub resolve_client_ip-spoofed :
      (peer : w.IpAddr) (values others : List Text) (left other honest : List Text)
      → hops w values ≡ left ++ honest
      → hops w others ≡ other ++ honest
      → any ends_walk honest ≡ true
      → resolve_client_ip w peer values trusted ≡ resolve_client_ip w peer others trusted
  unfolding resolve_client_ip
  resolve_client_ip-spoofed peer values others left other honest p q stop =
      let canonical = w.to_canonical peer in
      let same : walk w trusted canonical (reverse (hops w values))
          ≡ walk w trusted canonical (reverse (hops w others)) =
        rw (p, q, reverse-append left honest, reverse-append other honest)
          (walk-append canonical (reverse honest) (reverse left) (reverse other)
            (any-reverse ends_walk honest ∙ stop)) in
      ground arith

  walk-untrusted_hop :
      (client ip : w.IpAddr) (hop : Text) (xs ys : List Text)
      → any ends_walk xs ≡ false
      → parse_forwarded_ip w hop ≡ some ip
      → contains w trusted ip ≡ false
      → walk w trusted client (xs ++ hop ∷ ys) ≡ ip
  unfolding walk ends_walk
  walk-untrusted_hop client ip hop [] ys h e u = ground arith
  walk-untrusted_hop client ip hop (x ∷ xs) ys h e u =
      elim (Option-cases (parse_forwarded_ip w x)) [
        | inl bad ↦ ground arith
        | inr (next, good) ↦ ground (arith, walk-untrusted_hop next ip hop xs ys)
      ]

  reverse-middle :
      (left : List Text) (hop : Text) (right : List Text)
      → reverse (left ++ hop ∷ right) ≡ reverse right ++ hop ∷ reverse left
  reverse-middle left hop right =
      reverse-append left (hop ∷ right)
      ∙ ap (λ (r : List Text). r ++ reverse left) (reverse-append (hop ∷ []) right)
      ∙ append_assoc (reverse right) (hop ∷ []) (reverse left)

  -- Behind a trusted peer, a hop that is the address of no trusted proxy is the client address, if
  -- no hop to the right of it ends the walk.
  pub resolve_client_ip-untrusted_hop :
      (peer ip : w.IpAddr) (values left : List Text) (hop : Text) (right : List Text)
      → contains w trusted (w.to_canonical peer) ≡ true
      → hops w values ≡ left ++ hop ∷ right
      → any ends_walk right ≡ false
      → parse_forwarded_ip w hop ≡ some ip
      → contains w trusted ip ≡ false
      → resolve_client_ip w peer values trusted ≡ ip
  unfolding resolve_client_ip
  resolve_client_ip-untrusted_hop peer ip values left hop right t e r p u =
      rw (t, e, reverse-middle left hop right)
        (walk-untrusted_hop (w.to_canonical peer) ip hop (reverse right) (reverse left)
          (any-reverse ends_walk right ∙ r) p u)
