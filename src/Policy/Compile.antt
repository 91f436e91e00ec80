-- ===== src/Policy/Compile.antt =====
-- The validated policy configuration (`CompiledPolicy` and its parts) and `domain`.
use sievetube.Prelude.{text_eq, ℕ, Text, Bool, Option, none, some, List}
use sievetube.Prelude.Maps.{Map, get}
use sievetube.Hostname.{wildcard_for}
use sievetube.Policy.{World, PolicyMode, RateLimitKey, RateLimit}

module _ (w : World) where
  pub record CompiledDomain : Type 0 where
    pub mode : Option PolicyMode
    pub blocked : List w.IpNet
    pub http_rate : Option (RateLimit w)

  pub record CompiledTcp : Type 0 where
    pub connection_rate : Option (RateLimit w)
    pub max_concurrent_per_ip : Option ℕ
    pub max_concurrent_per_listener : Option ℕ

  pub record CompiledUdp : Type 0 where
    pub packet_rate : Option (RateLimit w)
    pub byte_rate : Option (RateLimit w)

  pub record CompiledPolicy : Type 0 where
    pub enabled : Bool
    pub mode : PolicyMode
    pub trusted_proxies : List w.IpNet
    pub blocked : List w.IpNet
    pub http_rate : Option (RateLimit w)
    pub key : RateLimitKey
    pub domains : Map Text CompiledDomain
    pub max_entries : ℕ
    pub idle_ttl : ℕ
    pub tcp : CompiledTcp
    pub udp : CompiledUdp

  -- `CompiledPolicy::domain`: the hostname's own entry, or its wildcard's.
  unfoldable pub domain : CompiledPolicy → Text → Option CompiledDomain
  domain policy hostname = elim (get hostname policy.domains) [
    | some d ↦ some d
    | none ↦ elim (wildcard_for hostname) [
      | none ↦ none
      | some pattern_text ↦ get pattern_text policy.domains
    ]
  ]
