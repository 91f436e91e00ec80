-- ===== src/Dns.antt =====
-- sievetube-edge/src/dns/mod.rs: record sets and what a provider reports. A `BTreeSet` of values is a
-- list without an order; the tests on it are those of sets.
pub mod Plan
pub mod Reconcile
pub mod Quoting
pub mod Compile
pub mod Challenges
use sievetube.Config.{text}
use sievetube.Prelude.{
  text_eq, nat_eq, ℕ, ℕ_discrete, Text, Eq, ◌==◌, ◌&&◌, Bool, true, false, Option, none, some, List,
  [], ◌∷◌, ◌++◌, all, contains, select, not, if◌then◌else◌,
}

pub data RecordType : Type 0 where
  a aaaa cname txt : RecordType

unfoldable pub RecordType-discrete : Discrete RecordType
RecordType-discrete = hlevel

instance abbrev pub record_type_eq : Eq RecordType
record_type_eq = record { dec_eq = RecordType-discrete }

unfoldable pub as_str : RecordType → Text
as_str RecordType.a = text "A"
as_str RecordType.aaaa = text "AAAA"
as_str RecordType.cname = text "CNAME"
as_str RecordType.txt = text "TXT"

unfoldable pub record_key : Text → RecordType → Text
record_key name record_type = name ++ text "/" ++ as_str record_type

-- `BTreeSet` equality, and `insert`.
unfoldable pub subset : List Text → List Text → Bool
subset xs ys = all (λ x. contains ys x) xs

unfoldable pub set_eq : List Text → List Text → Bool
unfolding subset
set_eq xs ys = subset xs ys && subset ys xs

unfoldable pub set_insert : Text → List Text → List Text
set_insert x xs = if contains xs x then xs else x ∷ xs

unfoldable pub set_remove : Text → List Text → List Text
set_remove x xs = select (λ y. not (y == x)) xs

pub record RecordSet : Type 0 where
  pub name : Text
  pub record_type : RecordType
  pub ttl : ℕ
  pub values : List Text
  pub proxied : Option Bool

-- The proxy flag is compared only where both sides give it.
unfoldable pub same_proxied : Option Bool → Option Bool → Bool
same_proxied (some true) (some false) = false
same_proxied (some false) (some true) = false
same_proxied _ _ = true

unfoldable pub same_data : RecordSet → RecordSet → Bool
same_data x y =
    x.name == y.name
    && x.record_type == y.record_type
    && x.ttl == y.ttl
    && set_eq x.values y.values
    && same_proxied x.proxied y.proxied

unfoldable pub same_optional : Option RecordSet → Option RecordSet → Bool
same_optional none none = true
same_optional (some x) (some y) = same_data x y
same_optional _ _ = false

pub record Observed : Type 0 where
  pub set : RecordSet
  pub unsupported : Option Text

pub data ChangeTicket : Type 0 where
  immediate : ChangeTicket
  route53 : Text → ChangeTicket

-- A `Duration` is a number of nanoseconds.
pub data DnsError : Type 0 where
  conflict : Text → DnsError
  rate_limited : Option ℕ → DnsError
  auth : Text → DnsError
  timeout : DnsError
  unsupported : Text → DnsError
  provider : Text → DnsError
