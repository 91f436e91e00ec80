-- ===== src/Ingress.antt =====
-- sievetube-connector/src/ingress.rs with the targets of sievetube-common/src/config.rs, and what the
-- Edge keeps of the services that a Connector advertises (sievetube-edge/src/quic_server.rs). `A` stands
-- for `SocketAddr` and `parse_addr` for its parser.
pub mod Matching
pub mod Services
mod Tests
use sievetube.Prelude.{
  text_eq, ℕ, ◌>>=◌, Text, ◌==◌, ◌&&◌, not, Bool, true, false, Option, none, some, List, [], ◌∷◌,
  ◌++◌, Result, ok, err, if◌then◌else◌, contains, select,
}
use sievetube.Prelude.Maps.{Map, get, insert}
use sievetube.Config.{Protocol, protocol_eq, text}
use sievetube.Strings.{strip_prefix, parse_u16, to_ascii_lowercase}
use sievetube.Hostname.{HostnameError, normalize_hostname}
use sievetube.Wire.{ServiceAdvertisement}

pub data Target (A : Type 0) : Type 0 where
  address : A → Target A
  http_status : ℕ → Target A

pub record IngressRule : Type 0 where
  pub hostname : Option Text
  pub protocol : Option Protocol
  pub target : Text

-- The messages of `Target::parse`.
pub data ConfigError : Type 0 where
  invalid_status invalid_address : Text → ConfigError

-- The cases of `SieveTubeError` that `match_request` gives.
pub data MatchError : Type 0 where
  config : ConfigError → MatchError
  no_ingress_match : Text → Protocol → MatchError

module _ {A : Type 0} (parse_addr : Text → Option A) where
  unfoldable pub parse_target : Text → Result ConfigError (Target A)
  parse_target s = elim (strip_prefix (text "http_status:") s) [
    | some code ↦ elim (parse_u16 code) [
      | none ↦ err (invalid_status code)
      | some n ↦ ok (http_status n)
    ]
    | none ↦ elim (parse_addr s) [ none ↦ err (invalid_address s) | some a ↦ ok (address a) ]
  ]

-- The two tests of the loop of `match_request`.
unfoldable pub rule_matches : Text → Protocol → IngressRule → Bool
rule_matches hostname protocol rule =
    (elim rule.hostname [
      | none ↦ true
      | some h ↦ to_ascii_lowercase h == to_ascii_lowercase hostname
    ])
    && (elim rule.protocol [ none ↦ true | some p ↦ p == protocol ])

module _ {A : Type 0} (parse_addr : Text → Option A) where
  unfoldable pub match_request : List IngressRule → Text → Protocol → Result MatchError (Target A)
  match_request [] hostname protocol = err (no_ingress_match hostname protocol)
  match_request (rule ∷ rules) hostname protocol =
      let rest = match_request rules hostname protocol in
      if rule_matches hostname protocol rule
      then elim (parse_target parse_addr rule.target) [ ok t ↦ ok t | err e ↦ err (config e) ]
      else rest

  -- The filter of `services`.
  unfoldable pub can_serve : List IngressRule → Text → Protocol → Bool
  can_serve rules hostname protocol = elim (match_request rules hostname protocol) [
    | ok target ↦ elim target [ address a ↦ true | http_status n ↦ protocol == Protocol.http ]
    | err e ↦ false
  ]

  unfoldable pub services : List IngressRule → List Text → List ServiceAdvertisement
  services rules [] = []
  services rules (hostname ∷ hostnames) =
      record {
        hostname = hostname;
        protocols =
            select (can_serve rules hostname) (Protocol.http ∷ Protocol.tcp ∷ Protocol.udp ∷ []);
      }
      ∷ services rules hostnames

-- The inner loop of `services_for`.
unfoldable pub push_new : List Protocol → List Protocol → List Protocol
push_new protocols [] = protocols
push_new protocols (p ∷ ps) =
    push_new (if contains protocols p then protocols else protocols ++ (p ∷ [])) ps

unfoldable pub protocols_of : Text → Map Text (List Protocol) → List Protocol
protocols_of hostname services = elim (get hostname services) [ none ↦ [] | some ps ↦ ps ]

-- One turn of the outer loop.
unfoldable pub add_service :
    List Text → ServiceAdvertisement → Map Text (List Protocol) → Map Text (List Protocol)
add_service hostnames ad services = elim (normalize_hostname ad.hostname) [
  | err e ↦ services
  | ok hostname ↦
      if contains hostnames hostname
      then insert hostname (push_new (protocols_of hostname services) ad.protocols) services
      else services
]

unfoldable pub add_services :
    List Text → List ServiceAdvertisement → Map Text (List Protocol) → Map Text (List Protocol)
add_services hostnames [] services = services
add_services hostnames (ad ∷ ads) services =
    add_services hostnames ads (add_service hostnames ad services)

unfoldable pub services_for : List Text → List ServiceAdvertisement → Map Text (List Protocol)
services_for hostnames advertised = add_services hostnames advertised []

-- The loop of `normalize_claimed_hostnames`; `hostnames` is what it has so far.
unfoldable pub claim_hostnames : List Text → List Text → Result HostnameError (List Text)
claim_hostnames hostnames [] = ok hostnames
claim_hostnames hostnames (h ∷ raw) = normalize_hostname h >>= λ n.
    claim_hostnames (if contains hostnames n then hostnames else hostnames ++ (n ∷ [])) raw

unfoldable pub normalize_claimed_hostnames : List Text → Result HostnameError (List Text)
normalize_claimed_hostnames raw = claim_hostnames [] raw
