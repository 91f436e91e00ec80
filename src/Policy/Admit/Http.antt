-- ===== src/Policy/Admit/Http.antt =====
-- Which rule decides on a request or a datagram, and what it leaves alone.
use mathlib.Core.Option
use sievetube.Prelude.{ℕ, ◌≡◌, Text, true, false, some, arith, Option-cases, Bool-cases, inl, inr}
use sievetube.Policy.{
  World, blocked_cidr, Decision, deny, is_allow, Verdict, allowed, rejects, enforce, is_enforce,
  contains,
}
use sievetube.Policy.Compile.{CompiledDomain, domain}
use sievetube.Policy.Admit.{
  PluginOutcome, plugin_allow, Policy, RequestContext, is_blocked, decide_http, decide_plugins,
  mode_for, evaluate_http, take_packet, decide_udp, admit_udp,
}

module _ (w : World) where
  -- Under an enabled policy a request from a blocked address is denied whatever the buckets and the
  -- plugins would say; the policy is left as it was, and the denial is enforced as the mode for the
  -- hostname says.
  evaluate_http-blocked :
      (p : Policy w) (plugins : PluginOutcome) (ctx : RequestContext w) (now : ℕ)
      → p.compiled.enabled ≡ true
      → is_blocked w p.compiled (domain w p.compiled ctx.hostname) ctx.ip ≡ true
      → evaluate_http w p plugins ctx now
        ≡ some (
          p,
          record {
            decision = deny blocked_cidr;
            enforced = is_enforce (mode_for w p.compiled (domain w p.compiled ctx.hostname));
          },
        )
  unfolding evaluate_http decide_http
  evaluate_http-blocked p plugins ctx now on blocked = ground arith

  decide_http-allow :
      (p q : Policy w) (d : Option.Option (CompiledDomain w)) (ctx : RequestContext w) (now : ℕ)
      (c : Decision)
      → decide_http w p p.compiled d ctx now ≡ some (q, c)
      → is_allow c ≡ true
      → is_blocked w p.compiled d ctx.ip ≡ false
  unfolding decide_http
  decide_http-allow p q d ctx now c h a = elim (Bool-cases (is_blocked w p.compiled d ctx.ip)) [
    | inl blocked ↦ absurd (ground arith)
    | inr free ↦ free
  ]

  plugins_allow : (o : PluginOutcome) → is_allow (decide_plugins w o) ≡ true → o ≡ plugin_allow
  unfolding decide_plugins
  plugins_allow o h = ground arith

  -- Under an enabled policy a request passes only if its address is not blocked and every plugin
  -- allowed it: a plugin that fails, or does not finish, refuses it.
  pub evaluate_http-allow :
      (p q : Policy w) (plugins : PluginOutcome) (ctx : RequestContext w) (now : ℕ) (v : Verdict)
      → evaluate_http w p plugins ctx now ≡ some (q, v)
      → p.compiled.enabled ≡ true
      → is_allow v.decision ≡ true
      → (is_blocked w p.compiled (domain w p.compiled ctx.hostname) ctx.ip ≡ false)
        × (plugins ≡ plugin_allow)
  unfolding evaluate_http
  evaluate_http-allow p q plugins ctx now v h on a =
      let d = domain w p.compiled ctx.hostname in
      elim (Option-cases (decide_http w p p.compiled d ctx now)) [
        | inl panics ↦ absurd (ground arith)
        | inr ((r, c), decided) ↦ elim (Bool-cases (is_allow c)) [
          | inl yes_built_in ↦ (
            decide_http-allow p r d ctx now c decided yes_built_in,
            plugins_allow plugins (ground arith),
          )
          | inr no_built_in ↦ absurd (ground arith)
        ]
      ]

  -- If the verdict on a request rejects it, the policy is enabled, the mode for the hostname is to
  -- enforce, and the decision is not to allow.
  pub evaluate_http-rejects :
      (p q : Policy w) (plugins : PluginOutcome) (ctx : RequestContext w) (now : ℕ) (v : Verdict)
      → evaluate_http w p plugins ctx now ≡ some (q, v)
      → rejects v ≡ true
      → (p.compiled.enabled ≡ true)
        × (mode_for w p.compiled (domain w p.compiled ctx.hostname) ≡ enforce)
        × (is_allow v.decision ≡ false)
  unfolding evaluate_http rejects allowed
  evaluate_http-rejects p q plugins ctx now v h r =
      let d = domain w p.compiled ctx.hostname in
      elim (Option-cases (decide_http w p p.compiled d ctx now)) [
        | inl panics ↦ ground arith
        | inr ((s, c), decided) ↦ ground arith
      ]

  -- Under an enabled policy, for an address that is not blocked, a datagram that the packet limit
  -- refuses is refused with the decision of the packet limit, which alone changes the policy, and
  -- is not charged to the byte limit.
  pub admit_udp-refused :
      (p q r : Policy w) (listener : Text) (ip : w.IpAddr) (size now : ℕ) (v : Verdict)
      (c : Decision)
      → admit_udp w p listener ip size now ≡ some (q, v)
      → p.compiled.enabled ≡ true
      → contains w p.compiled.blocked (w.to_canonical ip) ≡ false
      → take_packet w p listener (w.to_canonical ip) now ≡ some (r, c)
      → is_allow c ≡ false
      → (q ≡ r) × (v.decision ≡ c) × (q.udp_byte_buckets ≡ p.udp_byte_buckets)
  unfolding admit_udp decide_udp take_packet
  admit_udp-refused p q r listener ip size now v c h on free packet refused = ground arith
