-- ===== src/Policy/Client.antt =====
-- `resolve_client_ip`: the client address behind trusted proxies.
pub mod Spoofing
use mathlib.Core.Option
use sievetube.Prelude.{
  nat_eq, ℕ, ◌≡◌, ◌≢◌, refl, ap, ◌∙◌, Text, Bool, true, false, none, some, List, [], ◌∷◌, ◌++◌, map,
  reverse, if◌then◌else◌, arith, Option-cases, Bool-cases, inl, inr,
}
use sievetube.Strings.{trim, split, split_once, rsplit_once, strip_prefix, parse_u16}
use sievetube.Policy.{World, contains}

module _ (w : World) where
  unfoldable pub parse_forwarded_ip : Text → Option.Option w.IpAddr
  parse_forwarded_ip value = elim (w.parse_ip value) [
    | some ip ↦ some (w.to_canonical ip)
    | none ↦ elim (strip_prefix (b'[' ∷ []) value) [
      | some rest ↦ elim (split_once b']' rest) [
        | none ↦ none
        | some (host, after) ↦ Option.map w.to_canonical (w.parse_ip host)
      ]
      | none ↦ elim (rsplit_once b':' value) [
        | none ↦ none
        | some (host, port) ↦ elim (parse_u16 port) [
          | none ↦ none
          | some p ↦ Option.map w.to_canonical (w.parse_ip host)
        ]
      ]
    ]
  ]

  -- `flat_map(split(',')).map(trim)` over the header values
  unfoldable pub hops : List Text → List Text
  hops [] = []
  hops (v ∷ vs) = map trim (split b',' v) ++ hops vs

  -- The loop over the hops from the right; `client` is the address found so far.
  unfoldable pub walk : List w.IpNet → w.IpAddr → List Text → w.IpAddr
  walk trusted client [] = client
  walk trusted client (hop ∷ rest) = elim (parse_forwarded_ip hop) [
    | none ↦ client
    | some ip ↦ let further = walk trusted ip rest in if contains w trusted ip then further else ip
  ]

  unfoldable pub resolve_client_ip : w.IpAddr → List Text → List w.IpNet → w.IpAddr
  resolve_client_ip peer forwarded_for trusted =
      let canonical = w.to_canonical peer in
      if contains w trusted canonical
      then walk trusted canonical (reverse (hops forwarded_for))
      else canonical

  unfoldable pub is_trusted_proxy : List w.IpNet → w.IpAddr → Bool
  is_trusted_proxy trusted ip = contains w trusted (w.to_canonical ip)
