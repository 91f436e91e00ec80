-- ===== src/Policy.antt =====
-- sievetube-edge/src/policy.rs: the vocabulary of the traffic policy, and what it takes from
-- outside. Floating point (`f64`), addresses and networks (`IpAddr`, the crate `ipnet`) and keyed
-- hashes are fields of `World`; a `Duration` is its number of nanoseconds.
pub mod Bucket
pub mod Client
pub mod Slots
pub mod Compile
pub mod Admit
mod Tests
use sievetube.Prelude.{
  ℕ, ℕ_discrete, Text, Bool, true, false, Option, none, some, List, not, ◌&&◌, any,
}

pub record World : Type 1 where
  -- `f64`
  pub F : Type 0
  pub f_add : F → F → F
  pub f_sub : F → F → F
  pub f_mul : F → F → F
  pub f_div : F → F → F
  pub f_min : F → F → F
  pub f_max : F → F → F
  pub f_ceil : F → F
  pub f_ge : F → F → Bool
  pub f_lt : F → F → Bool
  pub f_of_nat : ℕ → F
  pub is_finite : F → Bool
  -- `as u64` and `as u32`, which saturate
  pub to_u64 : F → ℕ
  pub to_u32 : F → ℕ
  -- `Duration::as_secs_f64`, and `Duration::from_secs_f64`, which panics out of range
  pub as_secs : ℕ → F
  pub from_secs : F → Option ℕ
  -- `IpAddr` and `IpNet`
  pub IpAddr : Type 0
  pub IpNet : Type 0
  pub to_canonical : IpAddr → IpAddr
  pub net_contains : IpNet → IpAddr → Bool
  pub net_of_ip : IpAddr → IpNet
  pub trunc : IpNet → IpNet
  pub parse_ip : Text → Option IpAddr
  pub parse_net : Text → Option IpNet
  -- `RandomState::hash_one`, of each hasher that the policy holds
  pub hash_request : Text → Text → IpAddr → ℕ
  pub hash_ip : IpAddr → ℕ
  pub hash_tcp : Text → IpAddr → ℕ
  pub hash_packet : Text → IpAddr → ℕ
  pub hash_byte : Text → IpAddr → ℕ
  pub hash_slot : Text → IpAddr → ℕ
  pub hash_listener : Text → ℕ

pub data Reason : Type 0 where
  blocked_cidr rate_limit capacity concurrency_limit plugin plugin_failure : Reason

pub data Decision : Type 0 where
  allow : Decision
  deny : Reason → Decision
  rate_limited : Reason → ℕ → Decision
  unavailable : Reason → Decision

pub Decision-discrete : Discrete Decision
unfolding ℕ_discrete
Decision-discrete = hlevel ℕ_discrete

abbrev pub is_allow : Decision → Bool
is_allow allow = true
is_allow _ = false

pub record Verdict : Type 0 where
  pub decision : Decision
  pub enforced : Bool

unfoldable pub allowed : Verdict
allowed = record { decision = allow; enforced = true }

unfoldable pub rejects : Verdict → Bool
rejects v = v.enforced && not (is_allow v.decision)

pub data PolicyMode : Type 0 where
  enforce monitor : PolicyMode

abbrev pub is_enforce : PolicyMode → Bool
is_enforce enforce = true
is_enforce monitor = false

pub data RateLimitKey : Type 0 where
  tenant_hostname_ip client_ip : RateLimitKey

module _ (w : World) where
  pub record RateLimit : Type 0 where
    pub per_second : w.F
    pub burst : w.F

  unfoldable pub contains : List w.IpNet → w.IpAddr → Bool
  contains networks ip = any (λ net. w.net_contains net ip) networks
