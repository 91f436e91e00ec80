-- ===== src/Dns/Plan.antt =====
-- sievetube-edge/src/dns/plan.rs: the decision for one desired record. Times are Unix seconds, and
-- `now - t < settle_secs` is written as `now < t + settle_secs`.
pub mod Safety
pub mod Converge
mod Tests
use mathlib.Core.Option
use sievetube.Prelude.{
  text_eq, nat_eq, ℕ, ◌+◌, Text, ◌==◌, ◌&&◌, ◌||◌, not, ltb, Bool, true, false, none, some, List,
  [], ◌∷◌, ◌++◌, all, contains, if◌then◌else◌,
}
use sievetube.Prelude.Maps.{Map}
use sievetube.Dns.{
  RecordType, record_key, RecordSet, Observed, ChangeTicket, same_data, same_optional,
}

pub record DesiredRecord : Type 0 where
  pub provider : Text
  pub set : RecordSet
  pub takes_over : Bool
  pub absent : Bool

pub record PendingChange : Type 0 where
  pub expected : Option.Option RecordSet
  pub desired : Option.Option RecordSet
  pub ticket : Option.Option ChangeTicket
  pub started_at : ℕ

pub record ManagedRecord : Type 0 where
  pub name : Text
  pub record_type : RecordType
  pub applied : Option.Option RecordSet
  pub previous : Option.Option RecordSet
  pub generation : ℕ
  pub pending : Option.Option PendingChange
  pub updated_at : ℕ

-- The management state of one provider.
pub record ProviderState : Type 0 where
  pub writer_generation : ℕ
  pub records : Map Text ManagedRecord

unfoldable pub key : DesiredRecord → Text
key desired = record_key desired.set.name desired.set.record_type

-- The reasons of `Wait` and `Conflict`, one for each message; the last five are of reconciler.rs.
pub data Reason : Type 0 where
  not_reflected : Reason
  cannot_be_managed : Text → Reason
  changed_during_change changed_outside unmanaged_delete unmanaged_exists : Reason
  change_still_pending status_unread read_failed provider_unavailable : Reason
  rejected : Text → Reason

pub data Action : Type 0 where
  no_change : Action
  apply : Option.Option RecordSet → Option.Option RecordSet → Action
  adopt : RecordSet → Action
  forget : Action
  wait : Reason → Action
  conflict : Reason → Action

unfoldable pub with_current_proxied : RecordSet → Option.Option RecordSet → RecordSet
with_current_proxied desired current = elim desired.proxied [
  | some p ↦ desired
  | none ↦ elim current [
    | none ↦ record desired { proxied = none }
    | some c ↦ record desired { proxied = c.proxied }
  ]
]

unfoldable pub values_of : Option.Option RecordSet → List Text
values_of none = []
values_of (some s) = s.values

unfoldable pub ttl_is : ℕ → Option.Option RecordSet → Bool
ttl_is ttl none = false
ttl_is ttl (some s) = s.ttl == ttl

-- `actual.is_none_or(…)`
unfoldable pub ttl_ok :
    Option.Option RecordSet → Option.Option RecordSet → Option.Option RecordSet → Bool
ttl_ok none before after = true
ttl_ok (some s) before after = ttl_is s.ttl before || ttl_is s.ttl after

unfoldable pub is_between :
    Option.Option RecordSet → Option.Option RecordSet → Option.Option RecordSet → Bool
is_between actual before after =
    let vs = values_of actual in
    let from_values = values_of before in
    let to_values = values_of after in
    all (λ v. contains from_values v || contains to_values v) vs
    && all (λ v. not (contains to_values v) || contains vs v) from_values
    && ttl_ok actual before after

unfoldable pub actual_of : Option.Option Observed → Option.Option RecordSet
actual_of none = none
actual_of (some o) = some o.set

-- Whether the provider already has what the configuration asks for.
unfoldable pub reached : DesiredRecord → Option.Option RecordSet → Bool
reached desired none = desired.absent
reached desired (some s) =
    if desired.absent then false else same_data s (with_current_proxied desired.set (some s))

-- `Wait` until the time to settle has passed, and `Conflict` from then on.
unfoldable pub unsettled : ℕ → ℕ → ℕ → Reason → Action
unsettled now since settle_secs reason =
    if ltb now (since + settle_secs) then wait not_reflected else conflict reason

-- The early return of the match on the managed record.
unfoldable pub foreign_change :
    ManagedRecord → Option.Option RecordSet → ℕ → ℕ → Option.Option Action
foreign_change record_state actual now settle_secs = elim record_state.pending [
  | some p ↦
      if is_between actual p.expected p.desired
      then none
      else some (unsettled now p.started_at settle_secs changed_during_change)
  | none ↦
      if same_optional actual record_state.applied
      then none
      else some (unsettled now record_state.updated_at settle_secs changed_outside)
]

-- The early return for a record that is not managed.
unfoldable pub take_over : DesiredRecord → RecordSet → Action
take_over desired current =
    if desired.absent
    then conflict unmanaged_delete
    else if not desired.takes_over
    then conflict unmanaged_exists
    else (let target = with_current_proxied desired.set (some current) in
        if same_data current target then adopt current else apply (some current) (some target))

-- The match at the end of `decide`.
unfoldable pub plan_change :
    DesiredRecord → Option.Option RecordSet → Option.Option ManagedRecord → Action
plan_change desired none managed =
    if desired.absent
    then elim managed [ some m ↦ forget | none ↦ no_change ]
    else apply none (some desired.set)
plan_change desired (some current) managed =
    if desired.absent
    then apply (some current) none
    else (let target = with_current_proxied desired.set (some current) in
        if same_data current target then no_change else apply (some current) (some target))

-- `decide` for an observation that can be managed.
unfoldable pub decide_actual :
    DesiredRecord → Option.Option RecordSet → Option.Option ManagedRecord → ℕ → ℕ → Action
decide_actual desired actual managed now settle_secs = elim managed [
  | some m ↦
      if reached desired actual
      then plan_change desired actual (some m)
      else elim (foreign_change m actual now settle_secs) [
        | some action ↦ action
        | none ↦ plan_change desired actual (some m)
      ]
  | none ↦ elim actual [
    | some current ↦ take_over desired current
    | none ↦ plan_change desired none none
  ]
]

unfoldable pub unsupported_of : Option.Option Observed → Option.Option Text
unsupported_of none = none
unsupported_of (some o) = o.unsupported

unfoldable pub decide :
    DesiredRecord → Option.Option Observed → Option.Option ManagedRecord → ℕ → ℕ → Action
decide desired observed managed now settle_secs = elim (unsupported_of observed) [
  | some reason ↦ conflict (cannot_be_managed reason)
  | none ↦ decide_actual desired (actual_of observed) managed now settle_secs
]
