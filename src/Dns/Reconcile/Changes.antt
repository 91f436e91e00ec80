-- ===== src/Dns/Reconcile/Changes.antt =====
-- sievetube-edge/src/dns/reconciler.rs: how the steps of `reconcile_record` change the state.
use sievetube.Prelude.{
  text_eq, nat_eq, ℕ, Text, ◌||◌, Bool, true, false, Option, none, some, Result, ok, err,
  if◌then◌else◌, not,
}
use sievetube.Prelude.Maps.{get, insert, erase}
use sievetube.Dns.{RecordSet, Observed, ChangeTicket, DnsError, same_optional}
use sievetube.Dns.Plan.{
  DesiredRecord, ManagedRecord, PendingChange, ProviderState, Action, Reason, key, actual_of,
}
use sievetube.Dns.Reconcile.{
  Problem, complete_change, finish_pending, pending_of, stop_provider, failed,
}

-- What an outcome says of one record.
abbrev pub Verdict : Type 0
Verdict = Action × Option Problem

-- The ticket that `change_synced` is asked about.
unfoldable pub tracked : Option PendingChange → Option ChangeTicket
tracked none = none
tracked (some p) = elim p.ticket [
  | none ↦ none
  | some t ↦ elim t [
    | ChangeTicket.immediate ↦ none
    | ChangeTicket.route53 id ↦ some (ChangeTicket.route53 id)
  ]
]

-- `pending.ticket.is_none() && same_optional(observed, pending.desired)`
unfoldable pub completed : Option PendingChange → Option Observed → Bool
completed none observed = false
completed (some p) observed = elim p.ticket [
  | some t ↦ false
  | none ↦ same_optional (actual_of observed) p.desired
]

unfoldable pub finish_interrupted : Text → Option Observed → ℕ → ℕ → ProviderState → ProviderState
finish_interrupted k observed generation now state =
    if completed (pending_of k state) observed then finish_pending k generation now state else state

unfoldable pub has_pending : ManagedRecord → Bool
has_pending entry = elim entry.pending [ none ↦ false | some p ↦ true ]

-- The branch of `Action::NoChange`.
unfoldable pub note_in_sync : Text → Option RecordSet → ℕ → ProviderState → ProviderState
note_in_sync k observed now state = elim (get k state.records) [
  | none ↦ state
  | some entry ↦
      if has_pending entry || not (same_optional observed entry.applied)
      then record state {
        records =
            insert k (record entry { applied = observed; pending = none; updated_at = now })
              state.records;
      }
      else state
]

unfoldable pub new_entry : DesiredRecord → Option RecordSet → ℕ → ℕ → ManagedRecord
new_entry desired applied generation now = record {
  name = desired.set.name;
  record_type = desired.set.record_type;
  applied = applied;
  previous = none;
  generation = generation;
  pending = none;
  updated_at = now;
}

-- `entry(key).or_insert_with(…)`, with the intent as its pending change.
unfoldable pub note_intent :
    DesiredRecord → Option RecordSet → Option RecordSet → ℕ → ℕ → ProviderState → ProviderState
note_intent desired expected target generation now state =
    let entry : ManagedRecord = elim (get (key desired) state.records) [
      | none ↦ new_entry desired none generation now
      | some e ↦ e
    ] in
    let intent : PendingChange = record {
      expected = expected;
      desired = target;
      ticket = none;
      started_at = now;
    } in
    record state {
      records = insert (key desired) (record entry { pending = some intent }) state.records;
    }

unfoldable pub note_ticket : Text → ChangeTicket → ProviderState → ProviderState
note_ticket k t state = elim (get k state.records) [
  | none ↦ state
  | some entry ↦ elim entry.pending [
    | none ↦ state
    | some p ↦ record state {
      records =
          insert k (record entry { pending = some (record p { ticket = some t }) }) state.records;
    }
  ]
]

unfoldable pub never_applied : ManagedRecord → Bool
never_applied entry = elim entry.applied [
  | some s ↦ false
  | none ↦ elim entry.previous [ some s ↦ false | none ↦ true ]
]

-- The branch of `DnsError::Conflict`: nothing was modified.
unfoldable pub withdraw : Text → ProviderState → ProviderState
withdraw k state = elim (get k state.records) [
  | none ↦ state
  | some entry ↦
      if never_applied entry
      then record state { records = erase k state.records }
      else record state { records = insert k (record entry { pending = none }) state.records }
]

-- Whether the provider's error ends the run.
unfoldable pub ends_run : DnsError → Bool
ends_run (DnsError.rate_limited after) = true
ends_run (DnsError.auth e) = true
ends_run _ = false

-- The match on what the provider answered.
unfoldable pub conclude :
    (DnsError → Text)
    → Text
    → Option RecordSet
    → Option RecordSet
    → ℕ
    → ℕ
    → Result DnsError ChangeTicket
    → ProviderState
    → ProviderState × Verdict
conclude describe k expected target generation now (ok ChangeTicket.immediate) state =
    (complete_change k expected target generation now state, (Action.apply expected target, none))
conclude describe k expected target generation now (ok (ChangeTicket.route53 id)) state =
    (note_ticket k (ChangeTicket.route53 id) state, (Action.apply expected target, none))
conclude describe k expected target generation now (err (DnsError.conflict reason)) state =
    (withdraw k state, (Action.conflict (Reason.rejected reason), none))
conclude describe k expected target generation now (err e) state = (
  state,
  (
    Action.apply expected target,
    some (if ends_run e then stop_provider (describe e) else failed (describe e)),
  ),
)
