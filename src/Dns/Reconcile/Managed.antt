-- ===== src/Dns/Reconcile/Managed.antt =====
-- A record that was changed has an entry in the state.
use sievetube.Prelude.{
  text_eq, nat_eq, ℕ, ◌≡◌, ◌≢◌, sym, subst, Text, Option, none, some, Result, ok, err, arith,
  Option-cases, Bool-cases, inl, inr,
}
use sievetube.Prelude.Maps.{get, insert, get-insert_same}
use sievetube.Dns.{RecordSet, Observed, ChangeTicket, DnsError}
use sievetube.Dns.Plan.{DesiredRecord, ManagedRecord, PendingChange, ProviderState, Action, key}
use sievetube.Dns.Reconcile.{pending_of, complete_change, finish_pending}
use sievetube.Dns.Reconcile.Changes.{
  completed, new_entry, note_intent, note_ticket, conclude, finish_interrupted,
}

-- The record has an entry in the state.
pub record IsManaged (k : Text) (state : ProviderState) : Type 0 where
  pub entry : ManagedRecord
  pub present : get k state.records ≡ some entry

pub put-IsManaged :
    (k : Text) (entry : ManagedRecord) (state : ProviderState)
    → IsManaged k (record state { records = insert k entry state.records })
put-IsManaged k entry state = record {
  entry = entry;
  present = get-insert_same k entry state.records;
}

pub complete_change-IsManaged :
    (k : Text) (e t : Option RecordSet) (generation now : ℕ) (state : ProviderState)
    → IsManaged k state
    → IsManaged k (complete_change k e t generation now state)
unfolding complete_change
complete_change-IsManaged k e t generation now state m =
    let done : ManagedRecord = record m.entry {
      previous = e;
      applied = t;
      pending = none;
      generation = generation;
      updated_at = now;
    } in
    let same : complete_change k e t generation now state
        ≡ record state { records = insert k done state.records } =
      ground (arith, m.present) in
    subst (IsManaged k) (sym same) (put-IsManaged k done state)

pub finish_interrupted-IsManaged :
    (k : Text) (observed : Option Observed) (generation now : ℕ) (state : ProviderState)
    → IsManaged k state
    → IsManaged k (finish_interrupted k observed generation now state)
unfolding finish_interrupted finish_pending
finish_interrupted-IsManaged k observed generation now state m =
    elim (Bool-cases (completed (pending_of k state) observed)) [
      | inr differs ↦ ground (arith, m)
      | inl there ↦ elim (Option-cases (pending_of k state)) [
        | inl idle ↦ ground (arith, m)
        | inr (p, pending) ↦
            let same : finish_interrupted k observed generation now state
                ≡ complete_change k p.expected p.desired generation now state =
              ground arith in
            subst (IsManaged k) (sym same)
              (complete_change-IsManaged k p.expected p.desired generation now state m)
      ]
    ]

pub note_ticket-IsManaged :
    (k : Text) (ticket : ChangeTicket) (state : ProviderState)
    → IsManaged k state
    → IsManaged k (note_ticket k ticket state)
unfolding note_ticket
note_ticket-IsManaged k ticket state m = elim (Option-cases m.entry.pending) [
  | inl idle ↦
      let same : note_ticket k ticket state ≡ state = ground (arith, m.present) in
      subst (IsManaged k) (sym same) m
  | inr (p, pending) ↦
      let marked : ManagedRecord = record m.entry {
        pending = some (record p { ticket = some ticket });
      } in
      let same : note_ticket k ticket state
          ≡ record state { records = insert k marked state.records } =
        ground (arith, m.present) in
      subst (IsManaged k) (sym same) (put-IsManaged k marked state)
]

pub conclude-err :
    (describe : DnsError → Text) (k : Text) (e t : Option RecordSet) (generation now : ℕ)
    (error : DnsError) (state : ProviderState) (x y : Option RecordSet)
    → (conclude describe k e t generation now (err error) state).1 ≢ (Action.apply x y, none)
unfolding conclude
conclude-err describe k e t generation now (DnsError.conflict reason) state x y h = ground arith
conclude-err describe k e t generation now (DnsError.rate_limited after) state x y h = ground arith
conclude-err describe k e t generation now (DnsError.auth a) state x y h = ground arith
conclude-err describe k e t generation now DnsError.timeout state x y h = ground arith
conclude-err describe k e t generation now (DnsError.unsupported a) state x y h = ground arith
conclude-err describe k e t generation now (DnsError.provider a) state x y h = ground arith

pub conclude-IsManaged :
    (describe : DnsError → Text) (k : Text) (e t : Option RecordSet) (generation now : ℕ)
    (result : Result DnsError ChangeTicket) (state : ProviderState) (x y : Option RecordSet)
    → (conclude describe k e t generation now result state).1 ≡ (Action.apply x y, none)
    → IsManaged k state
    → IsManaged k (conclude describe k e t generation now result state).0
unfolding conclude
conclude-IsManaged describe k e t generation now (ok ChangeTicket.immediate) state x y h m =
    complete_change-IsManaged k e t generation now state m
conclude-IsManaged describe k e t generation now (ok (ChangeTicket.route53 id)) state x y h m =
    note_ticket-IsManaged k (ChangeTicket.route53 id) state m
conclude-IsManaged describe k e t generation now (err error) state x y h m =
    absurd (conclude-err describe k e t generation now error state x y h)

pub conclude-same :
    (describe : DnsError → Text) (k : Text) (e t : Option RecordSet) (generation now : ℕ)
    (result : Result DnsError ChangeTicket) (state : ProviderState) (x y : Option RecordSet)
    → (conclude describe k e t generation now result state).1 ≡ (Action.apply x y, none)
    → (e ≡ x) × (t ≡ y)
unfolding conclude
conclude-same describe k e t generation now (ok ChangeTicket.immediate) state x y h = ground arith
conclude-same describe k e t generation now (ok (ChangeTicket.route53 id)) state x y h =
    ground arith
conclude-same describe k e t generation now (err e2) state x y h =
    absurd (conclude-err describe k e t generation now e2 state x y h)

pub note_intent-IsManaged :
    (d : DesiredRecord) (e t : Option RecordSet) (generation now : ℕ) (state : ProviderState)
    → IsManaged (key d) (note_intent d e t generation now state)
unfolding note_intent
note_intent-IsManaged d e t generation now state =
    let before : ManagedRecord = elim (get (key d) state.records) [
      | none ↦ new_entry d none generation now
      | some m ↦ m
    ] in
    let intent : PendingChange = record {
      expected = e;
      desired = t;
      ticket = none;
      started_at = now;
    } in
    put-IsManaged (key d) (record before { pending = some intent }) state
