-- ===== src/Routes/Ads.antt =====
-- The Edge advertises exactly what it serves.
use sievetube.Prelude.{
  text_eq, nat_eq, ℕ, ◌≡◌, refl, Text, ◌==◌, ◌&&◌, ◌||◌, Bool, true, false, none, some, List, [],
  ◌∷◌, ◌++◌, contains, any, arith, Option-cases, Bool-cases, inl, inr, map,
}
use sievetube.Prelude.Maps.{Map, get, Distinct}
use sievetube.Config.{Protocol, protocol_eq}
use sievetube.Registry.{ConnectorHandle, ConnectorRegistry, supports, snapshot, get_by_hostname}
use sievetube.Registry.Invariant.{IsValid}
use sievetube.Routes.{RouteAd, ads_of_host, all_protocols, ads_for, ads_of_handles, local_ads}

abbrev pub is_ad : Text → Protocol → RouteAd → Bool
is_ad hostname protocol ad = ad.hostname == hostname && ad.protocol == protocol

any-append :
    {A : Type 0} → (p : A → Bool) (xs ys : List A) → any p (xs ++ ys) ≡ (any p xs || any p ys)
any-append p [] ys = refl
any-append p (x ∷ xs) ys = ground (arith, any-append p xs ys)

any-ads_of_host :
    (serves : Text → Protocol → Bool) (t e : Text) (g : ℕ) (h j : Text) (p : Protocol)
    (ps : List Protocol)
    → any (is_ad j p) (ads_of_host serves t e g h ps) ≡ (h == j && (contains ps p && serves j p))
unfolding ads_of_host
any-ads_of_host serves t e g h j p [] = ground arith
any-ads_of_host serves t e g h j p (q ∷ qs) = ground (arith, any-ads_of_host serves t e g h j p qs)

every_protocol : (p : Protocol) → contains all_protocols p ≡ true
unfolding sievetube.Config.Protocol-discrete
every_protocol Protocol.http = refl
every_protocol Protocol.tcp = refl
every_protocol Protocol.udp = refl

-- `ads_for` advertises a hostname and a protocol exactly if the hostname is one of the given ones and
-- the test passes on both.
pub any-ads_for :
    (hs : List Text) (serves : Text → Protocol → Bool) (t e : Text) (g : ℕ) (j : Text)
    (p : Protocol)
    → any (is_ad j p) (ads_for hs serves t e g) ≡ (contains hs j && serves j p)
unfolding ads_for
any-ads_for [] serves t e g j p = refl
any-ads_for (h ∷ hs) serves t e g j p = ground (
  arith,
  any-append (is_ad j p) (ads_of_host serves t e g h all_protocols) (ads_for hs serves t e g),
  any-ads_of_host serves t e g h j p all_protocols,
  any-ads_for hs serves t e g j p,
  every_protocol p,
)

module _ {C U : Type 0} where
  -- What a connected handle serves.
  abbrev pub serves_both : Text → Protocol → ConnectorHandle C U → Bool
  serves_both h p x = contains x.hostnames h && supports x h p

  any-ads_of_handles :
      (xs : List (ConnectorHandle C U)) (e : Text) (h : Text) (p : Protocol)
      → any (is_ad h p) (ads_of_handles xs e) ≡ any (serves_both h p) xs
  unfolding ads_of_handles
  any-ads_of_handles [] e h p = refl
  any-ads_of_handles (x ∷ xs) e h p = ground (
    arith,
    any-append (is_ad h p) (ads_for x.hostnames (supports x) x.tenant_id e x.generation)
        (ads_of_handles xs e),
    any-ads_for x.hostnames (supports x) x.tenant_id e x.generation h p,
    any-ads_of_handles xs e h p,
  )

  any-present :
      (q : ConnectorHandle C U → Bool) (t : Text) (x : ConnectorHandle C U)
      (m : Map Text (ConnectorHandle C U))
      → get t m ≡ some x
      → q x ≡ true
      → any q (map (λ e. e.1) m) ≡ true
  unfolding get
  any-present q t x [] g h = cc
  any-present q t x ((u, y) ∷ m) g h = ground (arith, any-present q t x m)

  present-any :
      (q : ConnectorHandle C U → Bool) (m : Map Text (ConnectorHandle C U))
      → Distinct m
      → any q (map (λ e. e.1) m) ≡ true
      → (t : Text) × (x : ConnectorHandle C U) × (get t m ≡ some x) × (q x ≡ true)
  unfolding get
  present-any q [] d h = cc
  present-any q ((u, y) ∷ m) d h = elim (Bool-cases (q y)) [
    | inl good ↦ (u, y, ground arith, good)
    | inr refused ↦
        let (t, x, found, good) = present-any q m d.1 (ground arith) in
        (t, x, ground (arith, d.0), good)
  ]

  -- What the router of this Edge serves locally.
  abbrev pub serves_locally : ConnectorRegistry C U → Text → Protocol → Bool
  serves_locally s h p = elim (get_by_hostname h s) [ none ↦ false | some x ↦ supports x h p ]

  -- In a registry that satisfies the invariant, the Edge advertises a hostname and a protocol
  -- exactly if the lookup of the hostname finds a Connector that supports both.
  pub any-local_ads :
      (s : ConnectorRegistry C U) (e h : Text) (p : Protocol)
      → IsValid s
      → any (is_ad h p) (local_ads s e) ≡ serves_locally s h p
  unfolding local_ads snapshot get_by_hostname
  any-local_ads s e h p valid =
      let handles = map (λ e. e.1) s.by_tenant in
      let same = any-ads_of_handles handles e h p in
      elim (Bool-cases (any (serves_both h p) handles)) [
        | inl advertised ↦
            let (t, x, found, good) =
              present-any (serves_both h p) s.by_tenant valid.distinct advertised in
            let indexed = valid.complete t h x found (ground arith) in ground arith
        | inr silent ↦ elim (Option-cases (get h s.by_hostname)) [
          | inl absent ↦ ground arith
          | inr (x, found) ↦ elim (Bool-cases (supports x h p)) [
            | inr refused ↦ ground arith
            | inl served ↦
                let (current, listed) = valid.sound h x found in
                let present =
                  any-present (serves_both h p) x.tenant_id x s.by_tenant current (ground arith) in
                cc
          ]
        ]
      ]
