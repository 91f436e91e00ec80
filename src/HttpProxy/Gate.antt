-- ===== src/HttpProxy/Gate.antt =====
-- sievetube-edge/src/http_proxy.rs: `proxy_request` up to where the tunnel is opened. The policy is the
-- function `evaluate` from tenant, hostname and the state to a verdict (Policy.antt has the built-in one).
use sievetube.Config.{Protocol}
use sievetube.Prelude.{
  text_eq, nat_eq, ℕ, ◌≡◌, ◌∙◌, ap, subst, Text, ◌==◌, ◌&&◌, not, Bool, true, false, Option, none,
  some, List, ok, err, if◌then◌else◌, arith, Option-cases, Result-cases, Bool-cases, inl, inr,
}
use sievetube.Strings.{strip_prefix}
use sievetube.Policy.{Decision, Verdict, rejects}
use sievetube.Router.{Router, RouteDecision, route, tenant_id}
use sievetube.HttpProxy.{
  Scheme, http, https, Http, Request, Rejection, request_authority, request_hostname,
}
use sievetube.HttpProxy.Http01.{
  Http01Challenges, challenge_path_prefix, serves, ChallengeAnswer, challenge_response,
}

-- What `proxy_request` sees of a request besides its fields.
pub record Incoming : Type 0 where
  pub request : Request
  pub is_connect : Bool
  pub reads : Bool
  pub path : Text
  pub scheme : Scheme
  pub sni : Option Text

-- Where a request goes: it is refused, answered by the Edge, or for a tenant's service.
pub data Gate (C U A : Type 0) : Type 0 where
  connect_refused misdirected no_route : Gate C U A
  bad_request : Rejection → Gate C U A
  challenge : ChallengeAnswer → Gate C U A
  blocked : Decision → Gate C U A
  admitted : Text → Text → Text → RouteDecision C U A → Gate C U A

unfoldable pub sni_matches : Scheme → Option Text → Text → Bool
sni_matches http sni hostname = true
sni_matches https none hostname = false
sni_matches https (some name) hostname = name == hostname

unfoldable pub starts_challenge : Scheme → Text → Bool
starts_challenge https path = false
starts_challenge http path = elim (strip_prefix challenge_path_prefix path) [
  | none ↦ false
  | some token ↦ true
]

module _ {C U A W : Type 0} (h : Http) (utf8 : Text → List ℕ) (now : ℕ)
    (evaluate : Text → Text → Incoming → W → W × Verdict) where
  -- From the route on.
  unfoldable pub gate_route : Router C U A → Text → Text → Incoming → W → W × Gate C U A
  gate_route router authority hostname i w =
      let decision = route utf8 router hostname Protocol.http now in
      elim (tenant_id decision) [
        | none ↦ (w, no_route)
        | some tenant ↦
            let judged = evaluate tenant hostname i w in
            (
              judged.0,
              if rejects judged.1
                  then blocked judged.1.decision
                  else admitted tenant authority hostname decision,
            )
      ]

  -- From the server name on; the challenges are `none` without ACME over HTTP-01.
  unfoldable pub gate_named :
      Router C U A
      → Option Http01Challenges
      → Text
      → Text
      → Incoming
      → W
      → (W × Option Http01Challenges) × Gate C U A
  gate_named router none authority hostname i w =
      let out = gate_route router authority hostname i w in ((out.0, none), out.1)
  gate_named router (some c) authority hostname i w =
      if starts_challenge i.scheme i.path && serves c hostname
      then (let answered = challenge_response c hostname i.reads i.path in
          ((w, some answered.0), challenge answered.1))
      else (let out = gate_route router authority hostname i w in ((out.0, some c), out.1))

  unfoldable pub gate :
      Router C U A
      → Option Http01Challenges
      → Incoming
      → W
      → (W × Option Http01Challenges) × Gate C U A
  gate router challenges i w =
      if i.is_connect
      then ((w, challenges), connect_refused)
      else elim (request_authority h i.request) [
        | err e ↦ ((w, challenges), bad_request e)
        | ok authority ↦ elim (request_hostname h authority) [
          | err e ↦ ((w, challenges), bad_request e)
          | ok hostname ↦
              if not (sni_matches i.scheme i.sni hostname)
              then ((w, challenges), misdirected)
              else gate_named router challenges authority hostname i w
        ]
      ]

  -- What stands behind a request that is for a service.
  pub record IsAdmitted (router : Router C U A) (i : Incoming) (tenant authority hostname : Text)
      (decision : RouteDecision C U A) (w : W) : Type 0 where
    pub addressed : request_authority h i.request ≡ ok authority
    pub named : request_hostname h authority ≡ ok hostname
    pub matched : sni_matches i.scheme i.sni hostname ≡ true
    pub routed : route utf8 router hostname Protocol.http now ≡ decision
    pub owned : tenant_id decision ≡ some tenant
    pub judged : rejects (evaluate tenant hostname i w).1 ≡ false

  gate_route-admitted :
      (router : Router C U A) (a n : Text) (i : Incoming) (w : W) (tenant authority hostname : Text)
      (decision : RouteDecision C U A)
      → (gate_route router a n i w).1 ≡ admitted tenant authority hostname decision
      → (route utf8 router n Protocol.http now ≡ decision)
        × (tenant_id decision ≡ some tenant)
        × (rejects (evaluate tenant n i w).1 ≡ false)
        × (a ≡ authority)
        × (n ≡ hostname)
  unfolding gate_route
  gate_route-admitted router a n i w tenant authority hostname decision g =
      let d = route utf8 router n Protocol.http now in
      elim (Option-cases (tenant_id d)) [
        | inl nobody ↦ absurd (ground arith)
        | inr (t, owner) ↦ elim (Bool-cases (rejects (evaluate t n i w).1)) [
          | inl refused ↦ absurd (ground arith)
          | inr fine ↦
              let same_tenant : t ≡ tenant = ground arith in
              let same_route : d ≡ decision = ground arith in
              (
                same_route,
                subst (λ z. tenant_id z ≡ some tenant) same_route
                    (owner ∙ ap (λ z. some z) same_tenant),
                subst (λ z. rejects (evaluate z n i w).1 ≡ false) same_tenant fine,
                ground arith,
                ground arith,
              )
        ]
      ]

  gate_named-admitted :
      (router : Router C U A) (challenges : Option Http01Challenges) (a n : Text) (i : Incoming)
      (w : W) (tenant authority hostname : Text) (decision : RouteDecision C U A)
      → (gate_named router challenges a n i w).1 ≡ admitted tenant authority hostname decision
      → (gate_route router a n i w).1 ≡ admitted tenant authority hostname decision
  unfolding gate_named
  gate_named-admitted router none a n i w tenant authority hostname decision g = g
  gate_named-admitted router (some c) a n i w tenant authority hostname decision g = ground arith

  -- A request only goes to a service if it has one authority, which names a host; if over TLS that
  -- host is the server name of the connection; if the host has a route, whose tenant the policy is
  -- asked about, with the host; and if the policy does not reject it.
  pub gate-admitted :
      (router : Router C U A) (challenges : Option Http01Challenges) (i : Incoming) (w : W)
      (tenant authority hostname : Text) (decision : RouteDecision C U A)
      → (gate router challenges i w).1 ≡ admitted tenant authority hostname decision
      → IsAdmitted router i tenant authority hostname decision w
  unfolding gate
  gate-admitted router challenges i w tenant authority hostname decision g =
      elim (Result-cases (request_authority h i.request)) [
        | inr (e, bad) ↦ absurd (ground arith)
        | inl (a, addressed) ↦ elim (Result-cases (request_hostname h a)) [
          | inr (e, bad) ↦ absurd (ground arith)
          | inl (n, named) ↦
              let through : (gate_named router challenges a n i w).1
                  ≡ admitted tenant authority hostname decision =
                ground arith in
              let matched : sni_matches i.scheme i.sni n ≡ true = ground arith in
              let (routed, owned, judged, same_a, same_n) =
                gate_route-admitted router a n i w tenant authority hostname decision (
                  gate_named-admitted router challenges a n i w tenant authority hostname decision
                    through) in
              record {
                addressed = addressed ∙ ap (λ z. ok z) same_a;
                named =
                    subst (λ z. request_hostname h z ≡ ok hostname) same_a
                      (named ∙ ap (λ z. ok z) same_n);
                matched = subst (λ z. sni_matches i.scheme i.sni z ≡ true) same_n matched;
                routed =
                    subst (λ z. route utf8 router z Protocol.http now ≡ decision) same_n routed;
                owned = owned;
                judged = subst (λ z. rejects (evaluate tenant z i w).1 ≡ false) same_n judged;
              }
        ]
      ]
