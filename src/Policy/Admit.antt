-- ===== src/Policy/Admit.antt =====
-- `Policy`: the decisions on HTTP requests, TCP connections and UDP datagrams. Metrics and logs are
-- left out. The clock's reading `now` is an argument; `none` is a panic in a bucket.
pub mod Http
pub mod Permits
use mathlib.Core.Option
use sievetube.Prelude.{
  text_eq, ℕ, Text, Bool, true, false, none, some, ◌&&◌, ◌||◌, not, if◌then◌else◌, Result, ok, err,
}
use sievetube.Prelude.Maps.{Map}
use sievetube.Policy.{
  World, Reason, blocked_cidr, rate_limit, concurrency_limit, plugin, plugin_failure, Decision,
  allow, deny, rate_limited, unavailable, is_allow, Verdict, allowed, PolicyMode, is_enforce,
  RateLimit, RateLimitKey, tenant_hostname_ip, client_ip, contains,
}
use sievetube.Policy.Bucket.{BucketTable, TakeError, limited, ◌>>=◌, take, sweep}
use sievetube.Policy.Slots.{acquire, release}
use sievetube.Policy.Compile.{CompiledDomain, CompiledTcp, CompiledPolicy, domain}

-- What the plugins answered: `allow`, `deny`, or a failure; `unfinished` is a failed blocking task.
pub data PluginOutcome : Type 0 where
  plugin_allow plugin_deny plugin_failed unfinished : PluginOutcome

module _ (w : World) where
  -- What a decision reads of a request.
  pub record RequestContext : Type 0 where
    pub tenant_id : Text
    pub hostname : Text
    pub ip : w.IpAddr

  pub record TcpPermit : Type 0 where
    pub ip_key : Option.Option ℕ
    pub listener_key : Option.Option ℕ

  pub record Policy : Type 0 where
    pub compiled : CompiledPolicy w
    pub http_buckets : BucketTable w
    pub tcp_buckets : BucketTable w
    pub udp_packet_buckets : BucketTable w
    pub udp_byte_buckets : BucketTable w
    pub tcp_ip_active : Map ℕ ℕ
    pub tcp_listener_active : Map ℕ ℕ

  -- The free function `limited`
  unfoldable pub limited_decision : TakeError w → Decision
  limited_decision (limited wait) =
      rate_limited rate_limit (w.to_u64 (w.f_max (w.f_ceil wait) (w.f_of_nat 1)))
  limited_decision TakeError.capacity = rate_limited Reason.capacity 1

  unfoldable pub taken_decision : Result (TakeError w) (Unit {0}) → Decision
  taken_decision (ok _) = allow
  taken_decision (err e) = limited_decision e

  -- A `take` from one table under the limits of the policy.
  unfoldable pub take_from :
      CompiledPolicy w
      → BucketTable w
      → ℕ
      → RateLimit w
      → w.F
      → ℕ
      → Option.Option (BucketTable w × Result (TakeError w) (Unit {0}))
  take_from policy table key limit amount now =
      take w table key limit amount now policy.max_entries policy.idle_ttl

  unfoldable pub request_key : CompiledPolicy w → RequestContext → ℕ
  request_key policy ctx = elim policy.key [
    | tenant_hostname_ip ↦ w.hash_request ctx.tenant_id ctx.hostname ctx.ip
    | client_ip ↦ w.hash_ip ctx.ip
  ]

  unfoldable pub is_blocked : CompiledPolicy w → Option.Option (CompiledDomain w) → w.IpAddr → Bool
  is_blocked policy none ip = contains w policy.blocked ip
  is_blocked policy (some d) ip = contains w policy.blocked ip || contains w d.blocked ip

  -- `domain.and_then(|d| d.http_rate).or(policy.http_rate)`
  unfoldable pub request_limit :
      CompiledPolicy w → Option.Option (CompiledDomain w) → Option.Option (RateLimit w)
  request_limit policy none = policy.http_rate
  request_limit policy (some d) = elim d.http_rate [ some l ↦ some l | none ↦ policy.http_rate ]

  unfoldable pub decide_http :
      Policy
      → CompiledPolicy w
      → Option.Option (CompiledDomain w)
      → RequestContext
      → ℕ
      → Option.Option (Policy × Decision)
  decide_http p policy d ctx now =
      if is_blocked policy d ctx.ip
      then some (p, deny blocked_cidr)
      else elim (request_limit policy d) [
        | none ↦ some (p, allow)
        | some limit ↦
            take_from policy p.http_buckets (request_key policy ctx) limit (w.f_of_nat 1) now
            >>= λ q. some (record p { http_buckets = q.0 }, taken_decision q.1)
      ]

  unfoldable pub decide_plugins : PluginOutcome → Decision
  decide_plugins plugin_allow = allow
  decide_plugins plugin_deny = deny plugin
  decide_plugins plugin_failed = unavailable plugin_failure
  decide_plugins unfinished = unavailable plugin_failure

  -- `domain.and_then(|d| d.mode).unwrap_or(policy.mode)`
  unfoldable pub mode_for : CompiledPolicy w → Option.Option (CompiledDomain w) → PolicyMode
  mode_for policy none = policy.mode
  mode_for policy (some d) = Option.get_or d.mode policy.mode

  -- `plugins` is what the plugins of the request would answer; they are asked only if the built-in
  -- rules allow the request.
  unfoldable pub evaluate_http :
      Policy → PluginOutcome → RequestContext → ℕ → Option.Option (Policy × Verdict)
  evaluate_http p plugins ctx now =
      let policy = p.compiled in
      let d = domain w policy ctx.hostname in
      if not policy.enabled
      then some (p, allowed)
      else decide_http p policy d ctx now >>= λ q. some (
        q.0,
        record {
          decision = if is_allow q.1 then decide_plugins plugins else q.1;
          enforced = is_enforce (mode_for policy d);
        },
      )

  -- `TcpPermit::drop`
  unfoldable pub drop_permit : Policy → TcpPermit → Policy
  drop_permit p permit = record p {
    tcp_ip_active = elim permit.ip_key [
      | none ↦ p.tcp_ip_active
      | some key ↦ release p.tcp_ip_active key
    ];
    tcp_listener_active = elim permit.listener_key [
      | none ↦ p.tcp_listener_active
      | some key ↦ release p.tcp_listener_active key
    ];
  }

  -- The first half of `acquire_tcp`: `none` where the listener is full.
  unfoldable pub acquire_listener : Policy → CompiledTcp w → Text → Policy × Option.Option TcpPermit
  acquire_listener p limits listener = elim limits.max_concurrent_per_listener [
    | none ↦ (p, some (record { ip_key = none; listener_key = none }))
    | some limit ↦
        let key = w.hash_listener listener in
        let (active, granted) = acquire p.tcp_listener_active key limit in
        (
          record p { tcp_listener_active = active },
          if granted then some (record { ip_key = none; listener_key = some key }) else none,
        )
  ]

  -- The second half: a refusal drops the permit of the first.
  unfoldable pub acquire_ip :
      Policy → CompiledTcp w → Text → w.IpAddr → TcpPermit → Policy × Option.Option TcpPermit
  acquire_ip p limits listener ip permit = elim limits.max_concurrent_per_ip [
    | none ↦ (p, some permit)
    | some limit ↦
        let key = w.hash_slot listener ip in
        let (active, granted) = acquire p.tcp_ip_active key limit in
        let q = record p { tcp_ip_active = active } in
        if granted
        then (q, some (record permit { ip_key = some key }))
        else (drop_permit q permit, none)
  ]

  unfoldable pub acquire_tcp :
      Policy → CompiledTcp w → Text → w.IpAddr → Policy × Option.Option TcpPermit
  acquire_tcp p limits listener ip =
      let (q, first) = acquire_listener p limits listener in
      elim first [ none ↦ (q, none) | some permit ↦ acquire_ip q limits listener ip permit ]

  -- The decision of `admit_tcp` before the concurrency limits.
  unfoldable pub decide_tcp : Policy → Text → w.IpAddr → ℕ → Option.Option (Policy × Decision)
  decide_tcp p listener ip now =
      let policy = p.compiled in
      if contains w policy.blocked ip
      then some (p, deny blocked_cidr)
      else elim policy.tcp.connection_rate [
        | none ↦ some (p, allow)
        | some limit ↦
            take_from policy p.tcp_buckets (w.hash_tcp listener ip) limit (w.f_of_nat 1) now
            >>= λ q. some (record p { tcp_buckets = q.0 }, taken_decision q.1)
      ]

  unfoldable pub with_slot :
      Policy → Text → w.IpAddr → Decision → Policy × Decision × Option.Option TcpPermit
  with_slot p listener ip decision =
      if is_allow decision
      then (let (q, permit) = acquire_tcp p p.compiled.tcp listener ip in
          elim permit [
            | none ↦ (q, deny concurrency_limit, none)
            | some got ↦ (q, decision, some got)
          ])
      else (p, decision, none)

  unfoldable pub admit_tcp :
      Policy → Text → w.IpAddr → ℕ → Option.Option (Policy × Verdict × Option.Option TcpPermit)
  admit_tcp p listener ip now =
      if not p.compiled.enabled
      then some (p, allowed, none)
      else (let canonical = w.to_canonical ip in
          decide_tcp p listener canonical now >>= λ d.
          (let r = with_slot d.0 listener canonical d.1 in
            some (r.0, record { decision = r.1; enforced = is_enforce p.compiled.mode }, r.2)))

  -- The byte limit of `admit_udp`, which a refused packet does not reach.
  unfoldable pub take_bytes : Policy → Text → w.IpAddr → ℕ → ℕ → Option.Option (Policy × Decision)
  take_bytes p listener ip size now = elim p.compiled.udp.byte_rate [
    | none ↦ some (p, allow)
    | some limit ↦
        take_from p.compiled p.udp_byte_buckets (w.hash_byte listener ip) limit (w.f_of_nat size)
          now
        >>= λ q. some (record p { udp_byte_buckets = q.0 }, taken_decision q.1)
  ]

  unfoldable pub take_packet : Policy → Text → w.IpAddr → ℕ → Option.Option (Policy × Decision)
  take_packet p listener ip now = elim p.compiled.udp.packet_rate [
    | none ↦ some (p, allow)
    | some limit ↦
        take_from p.compiled p.udp_packet_buckets (w.hash_packet listener ip) limit (w.f_of_nat 1)
          now
        >>= λ q. some (record p { udp_packet_buckets = q.0 }, taken_decision q.1)
  ]

  unfoldable pub decide_udp : Policy → Text → w.IpAddr → ℕ → ℕ → Option.Option (Policy × Decision)
  decide_udp p listener ip size now =
      if contains w p.compiled.blocked ip
      then some (p, deny blocked_cidr)
      else take_packet p listener ip now >>= λ q.
          (if is_allow q.1 then take_bytes q.0 listener ip size now else some q)

  unfoldable pub admit_udp : Policy → Text → w.IpAddr → ℕ → ℕ → Option.Option (Policy × Verdict)
  admit_udp p listener ip size now =
      if not p.compiled.enabled
      then some (p, allowed)
      else decide_udp p listener (w.to_canonical ip) size now >>= λ q.
          some (q.0, record { decision = q.1; enforced = is_enforce p.compiled.mode })

  -- `Policy::sweep`
  unfoldable pub sweep_all : Policy → ℕ → Policy
  sweep_all p now =
      let ttl = p.compiled.idle_ttl in
      record p {
        http_buckets = sweep w p.http_buckets now ttl;
        tcp_buckets = sweep w p.tcp_buckets now ttl;
        udp_packet_buckets = sweep w p.udp_packet_buckets now ttl;
        udp_byte_buckets = sweep w p.udp_byte_buckets now ttl;
      }
