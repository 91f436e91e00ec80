-- ===== src/Dns/Challenges.antt =====
-- sievetube-edge/src/dns/txt.rs: TXT values for ACME DNS-01, and the journal of what was published. `W` is
-- the world: the providers, the journal file and the clock (nanoseconds); each operation on it is a
-- parameter, and so is what DNS answers. `V` stands for `Provider`. A wait that polls is on fuel.
pub mod Waiting
pub mod Solving
pub mod Journal
pub mod Taking
pub mod Removal
mod Tests
use sievetube.Config.{text}
use sievetube.Prelude.{
  text_eq, nat_eq, ℕ_discrete, ℕ, ◌+◌, ◌*◌, min, Text, ◌==◌, ◌&&◌, ltb, leb, any, Bool, true, false,
  Option, none, some, List, [], ◌∷◌, ◌++◌, Result, ok, err, if◌then◌else◌, select, not, is_empty,
  contains, Eq,
}
use sievetube.Strings.{strip_prefix}
use sievetube.Hostname.{normalize_dns_name, is_within_zone}
use sievetube.Dns.{RecordType, RecordSet, Observed, ChangeTicket, DnsError, set_insert, set_remove}

abbrev pub max_attempts : ℕ
max_attempts = 6

pub record TxtHandle : Type 0 where
  pub zone : Text
  pub name : Text
  pub value : Text
  pub domain : Text

unfoldable pub TxtHandle-discrete : Discrete TxtHandle
TxtHandle-discrete = hlevel ℕ_discrete

instance abbrev pub txt_handle_eq : Eq TxtHandle
txt_handle_eq = record { dec_eq = TxtHandle-discrete }

abbrev pub challenge_prefix : Text
challenge_prefix = text "_acme-challenge."

-- `TxtHandle::domain`
unfoldable pub authorized_domain : TxtHandle → Option Text
authorized_domain handle =
    if not (is_empty handle.domain)
    then some handle.domain
    else strip_prefix challenge_prefix handle.name

-- `unfinished` is that the fuel ran out.
pub data TxtError : Type 0 where
  bad_target outside_zones no_provider unmanageable journal_failed : Text → TxtError
  provider_failed : DnsError → TxtError
  not_applied too_many_changes not_visible unfinished : TxtError

pub record TxtWorld (V W : Type 0) : Type 0 where
  pub now : W → ℕ
  pub sleep : ℕ → W → W
  pub get : V → Text → RecordType → W → W × Result DnsError (Option Observed)
  pub replace :
      V
      → Text
      → RecordType
      → Option RecordSet
      → Option RecordSet
      → W
      → W × Result DnsError ChangeTicket
  pub change_synced : V → ChangeTicket → W → W × Result DnsError Bool
  -- the targets of the CNAME records of a name; `none` if the lookup fails
  pub lookup_cname : Text → W → W × Option (List Text)
  -- whether one of the TXT records of a name is this value
  pub lookup_txt : Text → Text → W → W × Bool
  -- the journal is locked from here to the write
  pub lock_journal : W → W × Result Text (Unit {0})
  pub read_journal : W → Result Text (List TxtHandle)
  pub write_journal : List TxtHandle → W → W × Result Text (Unit {0})

-- The providers with their zones, most specific zone first.
pub record TxtChallengeSolver (V : Type 0) : Type 0 where
  pub providers : List (Text × V)
  pub allowed_zones : List Text
  pub ttl : ℕ
  pub propagation_timeout : ℕ
  pub poll_interval : ℕ

unfoldable pub find_zone : {V : Type 0} → (Text → Bool) → List (Text × V) → Option (Text × V)
find_zone p [] = none
find_zone p ((zone, provider) ∷ rest) = if p zone then some (zone, provider) else find_zone p rest

unfoldable pub provider_for : {V : Type 0} → TxtChallengeSolver V → Text → Option (Text × V)
provider_for solver name = find_zone (is_within_zone name) solver.providers

unfoldable pub zone_provider : {V : Type 0} → TxtChallengeSolver V → Text → Option (Text × V)
zone_provider solver zone = find_zone (λ z. z == zone) solver.providers

unfoldable pub delegation_allowed : Text → List Text → Bool
delegation_allowed target allowed_zones = any (is_within_zone target) allowed_zones

-- The first CNAME target, if there is one.
unfoldable pub delegated : List Text → Text → Option (List Text) → Result TxtError Text
delegated allowed_zones name none = ok name
delegated allowed_zones name (some []) = ok name
delegated allowed_zones name (some (t ∷ ts)) = elim (normalize_dns_name t) [
  | err e ↦ err (bad_target name)
  | ok target ↦
      if delegation_allowed target allowed_zones then ok target else err (outside_zones target)
]

-- The set with the value, which a missing set begins.
unfoldable pub with_value : Text → ℕ → Text → Option RecordSet → RecordSet
with_value name ttl value none = record {
  name = name;
  record_type = RecordType.txt;
  ttl = ttl;
  values = set_insert value [];
  proxied = none;
}
with_value name ttl value (some current) = record current {
  values = set_insert value current.values;
}

-- `none` deletes the set.
unfoldable pub without_value : Text → RecordSet → Option RecordSet
without_value value current =
    let remaining = set_remove value current.values in
    if is_empty remaining then none else some (record current { values = remaining })

unfoldable pub has_value : Text → Option RecordSet → Bool
has_value value none = false
has_value value (some current) = contains current.values value

-- What `retry_or_fail` waits for; `none` is that it fails.
unfoldable pub retry_delay : DnsError → ℕ → Option ℕ
retry_delay (DnsError.conflict reason) attempt = some (100000000 * attempt)
retry_delay (DnsError.rate_limited none) attempt = some 2000000000
retry_delay (DnsError.rate_limited (some after)) attempt = some (min after 30000000000)
retry_delay _ attempt = none
