-- ===== src/Dns/Reconcile/Frame.antt =====
-- Reconciling one record leaves what is stored of the others.
use sievetube.Prelude.{
  text_eq, nat_eq, ℕ, ◌≡◌, refl, Text, ◌==◌, false, Option, none, some, Result, ok, err, arith,
  Option-cases, Result-cases, inl, inr,
}
use sievetube.Prelude.Maps.{get, insert, erase, get-insert, get-erase}
use sievetube.Dns.{RecordSet, Observed, ChangeTicket, DnsError}
use sievetube.Dns.Plan.{
  DesiredRecord, ManagedRecord, PendingChange, ProviderState, Action, key, decide, actual_of,
}
use sievetube.Dns.Reconcile.{
  World, WriterMode, pending_of, complete_change, finish_pending, renew_writer,
  replace_while_writer,
}
use sievetube.Dns.Reconcile.Changes.{
  new_entry, note_intent, note_ticket, note_in_sync, withdraw, conclude, finish_interrupted,
}
use sievetube.Dns.Reconcile.Records.{
  settle_tracked, apply_saved, perform_apply, perform, reconcile_read, reconcile_record,
}

module _ (k j : Text) (other : (k == j) ≡ false) where
  -- What is stored under `j`.
  abbrev at_j : ProviderState → Option ManagedRecord
  at_j state = get j state.records

  put-other :
      (entry : ManagedRecord) (state : ProviderState)
      → at_j (record state { records = insert k entry state.records }) ≡ at_j state
  put-other entry state = ground (arith, get-insert k j entry state.records)

  drop-other :
      (state : ProviderState) → at_j (record state { records = erase k state.records }) ≡ at_j state
  drop-other state = ground (arith, get-erase k j state.records)

  complete_change-other :
      (e t : Option RecordSet) (generation now : ℕ) (state : ProviderState)
      → at_j (complete_change k e t generation now state) ≡ at_j state
  unfolding complete_change
  complete_change-other e t generation now state = elim (Option-cases (get k state.records)) [
    | inl unmanaged ↦ ground arith
    | inr (entry, found) ↦
        let done : ManagedRecord = record entry {
          previous = e;
          applied = t;
          pending = none;
          generation = generation;
          updated_at = now;
        } in
        ground (arith, put-other done state)
  ]

  finish_pending-other :
      (generation now : ℕ) (state : ProviderState)
      → at_j (finish_pending k generation now state) ≡ at_j state
  unfolding finish_pending
  finish_pending-other generation now state = elim (Option-cases (pending_of k state)) [
    | inl idle ↦ ground arith
    | inr (p, pending) ↦
        ground (arith, complete_change-other p.expected p.desired generation now state)
  ]

  note_in_sync-other :
      (observed : Option RecordSet) (now : ℕ) (state : ProviderState)
      → at_j (note_in_sync k observed now state) ≡ at_j state
  unfolding note_in_sync
  note_in_sync-other observed now state = elim (Option-cases (get k state.records)) [
    | inl unmanaged ↦ ground arith
    | inr (entry, found) ↦
        let done : ManagedRecord = record entry {
          applied = observed;
          pending = none;
          updated_at = now;
        } in
        ground (arith, put-other done state)
  ]

  note_ticket-other :
      (ticket : ChangeTicket) (state : ProviderState)
      → at_j (note_ticket k ticket state) ≡ at_j state
  unfolding note_ticket
  note_ticket-other ticket state = elim (Option-cases (get k state.records)) [
    | inl unmanaged ↦ ground arith
    | inr (entry, found) ↦ elim (Option-cases entry.pending) [
      | inl idle ↦ ground arith
      | inr (p, pending) ↦
          let marked : ManagedRecord = record entry {
            pending = some (record p { ticket = some ticket });
          } in
          ground (arith, put-other marked state)
    ]
  ]

  withdraw-other : (state : ProviderState) → at_j (withdraw k state) ≡ at_j state
  unfolding withdraw
  withdraw-other state = elim (Option-cases (get k state.records)) [
    | inl unmanaged ↦ ground arith
    | inr (entry, found) ↦
        ground (arith, put-other (record entry { pending = none }) state, drop-other state)
  ]

  conclude-other :
      (describe : DnsError → Text) (e t : Option RecordSet) (generation now : ℕ)
      (result : Result DnsError ChangeTicket) (state : ProviderState)
      → at_j (conclude describe k e t generation now result state).0 ≡ at_j state
  unfolding conclude
  conclude-other describe e t generation now (ok ChangeTicket.immediate) state =
      complete_change-other e t generation now state
  conclude-other describe e t generation now (ok (ChangeTicket.route53 id)) state =
      note_ticket-other (ChangeTicket.route53 id) state
  conclude-other describe e t generation now (err (DnsError.conflict reason)) state =
      withdraw-other state
  conclude-other describe e t generation now (err (DnsError.rate_limited after)) state = refl
  conclude-other describe e t generation now (err (DnsError.auth a)) state = refl
  conclude-other describe e t generation now (err DnsError.timeout) state = refl
  conclude-other describe e t generation now (err (DnsError.unsupported a)) state = refl
  conclude-other describe e t generation now (err (DnsError.provider a)) state = refl

  module _ {V W : Type 0} (world : World V W) (mode : WriterMode) (provider : V)
      (generation : ℕ) where
    settle_tracked-other :
        (now : ℕ) (s : ProviderState × W)
        → at_j (settle_tracked world mode provider k generation now s).0.0 ≡ at_j s.0
    unfolding settle_tracked
    settle_tracked-other now (state, w) = ground (arith, finish_pending-other generation now state)

    finish_interrupted-other :
        (observed : Option Observed) (now : ℕ) (state : ProviderState)
        → at_j (finish_interrupted k observed generation now state) ≡ at_j state
    unfolding finish_interrupted
    finish_interrupted-other observed now state =
        ground (arith, finish_pending-other generation now state)

module _ {V W : Type 0} (world : World V W) (mode : WriterMode) (provider : V)
    (provider_name : Text) (generation : ℕ) (d : DesiredRecord) (j : Text)
    (other : (key d == j) ≡ false) where
  note_intent-other :
      (e t : Option RecordSet) (now : ℕ) (state : ProviderState)
      → get j (note_intent d e t generation now state).records ≡ get j state.records
  unfolding note_intent
  note_intent-other e t now state =
      let before : ManagedRecord = elim (get (key d) state.records) [
        | none ↦ new_entry d none generation now
        | some m ↦ m
      ] in
      let intent : PendingChange = record {
        expected = e;
        desired = t;
        ticket = none;
        started_at = now;
      } in
      put-other (key d) j other (record before { pending = some intent }) state

  perform_apply-other :
      (e t : Option RecordSet) (now : ℕ) (s : ProviderState × W)
      → get j (perform_apply world mode provider provider_name d e t generation now s).0.0.records
        ≡ get j s.0.records
  unfolding perform_apply apply_saved
  perform_apply-other e t now (state, w) =
      let renewed = renew_writer world mode provider_name generation w in
      let noted = note_intent d e t generation now state in
      let same = note_intent-other e t now state in
      let saved = world.save_state provider_name noted renewed.0 in
      let replaced =
        replace_while_writer world mode provider provider_name generation d e t saved.0 in
      elim (Option-cases replaced.1) [
        | inl lost ↦ ground (arith, same)
        | inr (result, landed) ↦ ground (
          arith,
          same,
          conclude-other (key d) j other world.describe e t generation now result noted,
        )
      ]

  perform-other :
      (observed : Option Observed) (action : Action) (now : ℕ) (s : ProviderState × W)
      → get j
          (perform world mode provider provider_name d observed action generation now s).0.0.records
        ≡ get j s.0.records
  unfolding perform
  perform-other observed Action.no_change now (state, w) =
      note_in_sync-other (key d) j other (actual_of observed) now state
  perform-other observed (Action.wait r) now s = refl
  perform-other observed (Action.conflict r) now s = refl
  perform-other observed (Action.adopt current) now (state, w) =
      put-other (key d) j other (new_entry d (some current) generation now) state
  perform-other observed Action.forget now (state, w) = drop-other (key d) j other state
  perform-other observed (Action.apply e t) now s = perform_apply-other e t now s

  -- Whatever happens in it, a run over one record changes nothing of what is stored of a record with
  -- another key.
  pub reconcile_record-other :
      (settle_secs : ℕ) (s : ProviderState × W)
      → get j
          (reconcile_record world mode settle_secs provider provider_name d generation
            s).0.0.records
        ≡ get j s.0.records
  unfolding reconcile_record reconcile_read
  reconcile_record-other settle_secs (state, w) =
      let now = world.now w in
      let settled = settle_tracked world mode provider (key d) generation now (state, w) in
      let same =
        settle_tracked-other (key d) j other world mode provider generation now (state, w) in
      let read = world.get provider d.set.name d.set.record_type settled.0.1 in
      elim (Result-cases read.1) [
        | inr (e, unread) ↦ ground (arith, same)
        | inl (observed, found) ↦
            let finished = finish_interrupted (key d) observed generation now settled.0.0 in
            let action = decide d observed (get (key d) finished.records) now settle_secs in
            ground (
              arith,
              same,
              finish_interrupted-other (key d) j other world mode provider generation observed now
                  settled.0.0,
              perform-other observed action now (finished, read.0),
            )
      ]
