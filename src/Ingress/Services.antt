-- ===== src/Ingress/Services.antt =====
-- What the Edge keeps of a Connector's services.
use sievetube.Prelude.{
  text_eq, ◌≡◌, refl, Text, ◌==◌, ◌&&◌, ◌||◌, Bool, false, Option, List, [], ◌∷◌, ◌++◌, ok, err,
  any, contains, select, arith, Bool-cases, Result-cases, inl, inr,
}
use sievetube.Prelude.Maps.{Map, get, get-insert}
use sievetube.Config.{Protocol, Protocol-discrete, protocol_eq}
use sievetube.Hostname.{normalize_hostname}
use sievetube.Wire.{ServiceAdvertisement}
use sievetube.Ingress.{
  IngressRule, can_serve, services, push_new, protocols_of, add_service, add_services, services_for,
  claim_hostnames, normalize_claimed_hostnames,
}

-- An advertisement for a hostname, however it spells it.
abbrev pub names : Text → ServiceAdvertisement → Bool
names hostname ad = elim (normalize_hostname ad.hostname) [ err e ↦ false | ok n ↦ n == hostname ]

abbrev pub advertises : Text → Protocol → ServiceAdvertisement → Bool
advertises hostname protocol ad = names hostname ad && contains ad.protocols protocol

contains-append :
    (xs ys : List Protocol) (p : Protocol)
    → contains (xs ++ ys) p ≡ (contains xs p || contains ys p)
contains-append [] ys p = refl
contains-append (x ∷ xs) ys p = ground (arith, contains-append xs ys p)

contains-push_new :
    (qs ps : List Protocol) (p : Protocol)
    → contains (push_new qs ps) p ≡ (contains qs p || contains ps p)
unfolding push_new
contains-push_new qs [] p = ground arith
contains-push_new qs (x ∷ xs) p = elim (Bool-cases (contains qs x)) [
  | inl there ↦ ground (arith, contains-push_new qs xs p)
  | inr fresh ↦
      ground (arith, contains-push_new (qs ++ (x ∷ [])) xs p, contains-append qs (x ∷ []) p)
]

contains-add_service :
    (hs : List Text) (ad : ServiceAdvertisement) (m : Map Text (List Protocol)) (h : Text)
    (p : Protocol)
    → contains (protocols_of h (add_service hs ad m)) p
      ≡ (contains (protocols_of h m) p || contains hs h && advertises h p ad)
unfolding add_service protocols_of
contains-add_service hs ad m h p = elim (Result-cases (normalize_hostname ad.hostname)) [
  | inr (e, invalid) ↦ ground arith
  | inl (n, normal) ↦ ground (
    arith,
    get-insert n h (push_new (protocols_of n m) ad.protocols) m,
    contains-push_new (protocols_of n m) ad.protocols p,
  )
]

contains-add_services :
    (hs : List Text) (ads : List ServiceAdvertisement) (m : Map Text (List Protocol)) (h : Text)
    (p : Protocol)
    → contains (protocols_of h (add_services hs ads m)) p
      ≡ (contains (protocols_of h m) p || contains hs h && any (advertises h p) ads)
unfolding add_services
contains-add_services hs [] m h p = ground arith
contains-add_services hs (ad ∷ ads) m h p = ground (
  arith,
  contains-add_services hs ads (add_service hs ad m) h p,
  contains-add_service hs ad m h p,
)

-- The Edge records a hostname and a protocol as served exactly if the hostname is one of those that
-- the token claims and the Connector advertises the protocol under a spelling of it.
pub contains-services_for :
    (hs : List Text) (ads : List ServiceAdvertisement) (h : Text) (p : Protocol)
    → contains (protocols_of h (services_for hs ads)) p
      ≡ (contains hs h && any (advertises h p) ads)
unfolding services_for protocols_of get
contains-services_for hs ads h p = contains-add_services hs ads [] h p

-- A hostname whose normal form this is.
abbrev pub spells : Text → Text → Bool
spells hostname raw = elim (normalize_hostname raw) [ err e ↦ false | ok n ↦ n == hostname ]

contains-append_name :
    (xs : List Text) (n h : Text) → contains (xs ++ (n ∷ [])) h ≡ (contains xs h || n == h)
contains-append_name [] n h = ground arith
contains-append_name (x ∷ xs) n h = ground (arith, contains-append_name xs n h)

contains-claim_hostnames :
    (hs raw out : List Text) (h : Text)
    → claim_hostnames hs raw ≡ ok out
    → contains out h ≡ (contains hs h || any (spells h) raw)
unfolding claim_hostnames
contains-claim_hostnames hs [] out h e = ground arith
contains-claim_hostnames hs (k ∷ raw) out h e = elim (Result-cases (normalize_hostname k)) [
  | inr (x, invalid) ↦ ground arith
  | inl (n, normal) ↦ elim (Bool-cases (contains hs n)) [
    | inl there ↦ elim (Bool-cases (n == h)) [
      | inl same ↦
          let rest = contains-claim_hostnames hs raw out h (ground arith) in ground (arith, rest)
      | inr other ↦
          let rest = contains-claim_hostnames hs raw out h (ground arith) in ground (arith, rest)
    ]
    | inr fresh ↦
        let rest = contains-claim_hostnames (hs ++ (n ∷ [])) raw out h (ground arith) in
        ground (arith, rest, contains-append_name hs n h)
  ]
]

any-weaken :
    (f g : Text → Bool) (raw : List Text)
    → (any f raw && any (λ k. f k && g k) raw) ≡ any (λ k. f k && g k) raw
any-weaken f g [] = refl
any-weaken f g (k ∷ raw) = ground (arith, any-weaken f g raw)

module _ {A : Type 0} (parse_addr : Text → Option A) where
  select-contains :
      (rules : List IngressRule) (h : Text) (p : Protocol)
      → contains
          (select (can_serve parse_addr rules h) (Protocol.http ∷ Protocol.tcp ∷ Protocol.udp ∷ []))
          p
        ≡ can_serve parse_addr rules h p
  unfolding Protocol-discrete
  select-contains rules h Protocol.http = ground arith
  select-contains rules h Protocol.tcp = ground arith
  select-contains rules h Protocol.udp = ground arith

  any-services :
      (rules : List IngressRule) (raw : List Text) (h : Text) (p : Protocol)
      → any (advertises h p) (services parse_addr rules raw)
        ≡ any (λ k. spells h k && can_serve parse_addr rules k p) raw
  unfolding services
  any-services rules [] h p = refl
  any-services rules (k ∷ raw) h p =
      ground (arith, any-services rules raw h p, select-contains rules k p)

  -- For a Connector that advertises the services of the hostnames that its token claims, as the
  -- token spells them, where the Edge can normalize these: the Edge records a hostname and a
  -- protocol as served exactly if the token claims a spelling of the hostname for which, as it is
  -- spelled there, the Connector's rules can serve the protocol.
  pub services_for-services :
      (rules : List IngressRule) (raw hs : List Text) (h : Text) (p : Protocol)
      → normalize_claimed_hostnames raw ≡ ok hs
      → contains (protocols_of h (services_for hs (services parse_addr rules raw))) p
        ≡ any (λ k. spells h k && can_serve parse_addr rules k p) raw
  unfolding normalize_claimed_hostnames
  services_for-services rules raw hs h p claimed = ground (
    arith,
    contains-services_for hs (services parse_addr rules raw) h p,
    any-services rules raw h p,
    contains-claim_hostnames [] raw hs h claimed,
    any-weaken (spells h) (λ k. can_serve parse_addr rules k p) raw,
  )
