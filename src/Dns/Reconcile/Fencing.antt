-- ===== src/Dns/Reconcile/Fencing.antt =====
-- Nothing is written without the writer lease, and no record is changed without its intent on file.
use sievetube.Prelude.{
  text_eq, nat_eq, ℕ, ◌≡◌, refl, sym, ap, subst, Text, ltb, Bool, true, false, Option, none, some,
  List, [], ◌∷◌, ok, arith, Option-cases, Bool-cases, Result-cases, inl, inr,
}
use sievetube.Prelude.Maps.{get, insert, get-insert_same}
use sievetube.Dns.{RecordType, RecordSet, Observed, ChangeTicket}
use sievetube.Dns.Plan.{
  DesiredRecord, ManagedRecord, PendingChange, ProviderState, Action, key, decide,
}
use sievetube.Dns.Reconcile.{
  Flight, ends, goes_on, World, WriterMode, pending_of, renew_writer, fly, replace_while_writer,
  stops,
}
use sievetube.Dns.Reconcile.Changes.{tracked, new_entry, note_intent, finish_interrupted}
use sievetube.Dns.Reconcile.Records.{
  settle_tracked, apply_saved, perform_apply, perform, reconcile_read, reconcile_record,
  reconcile_records, persist, reconcile_held,
}

module _ {W : Type 0} (Good Held : W → Type 0) where
  -- Every step of a running change keeps the property where the lease is held at that step.
  unfoldable pub Calm : Flight W → Type 0
  Calm (ends f) = (w : W) → Held w → Good w → Good (f w).0
  Calm (goes_on f next) =
      ((w : W) → Held w → Good w → Good (f w)) × ((w : W) → Held w → Calm (next w))

-- The state has this change as the pending intent of the record.
pub record Intends (state : ProviderState) (k : Text) (expected target : Option RecordSet)
    : Type 0 where
  pub intent : PendingChange
  pub is_pending : pending_of k state ≡ some intent
  pub from_expected : intent.expected ≡ expected
  pub to_target : intent.desired ≡ target

pub pending_of-put :
    (k : Text) (entry : ManagedRecord) (state : ProviderState)
    → pending_of k (record state { records = insert k entry state.records }) ≡ entry.pending
unfolding pending_of
pending_of-put k entry state =
    let pending : Option ManagedRecord → Option PendingChange =
      λ x. elim x [ none ↦ none | some e ↦ e.pending ] in
    ap pending (get-insert_same k entry state.records)

note_intent-Intends :
    (d : DesiredRecord) (expected target : Option RecordSet) (generation now : ℕ)
    (state : ProviderState)
    → Intends (note_intent d expected target generation now state) (key d) expected target
unfolding note_intent
note_intent-Intends d expected target generation now state =
    let intent : PendingChange = record {
      expected = expected;
      desired = target;
      ticket = none;
      started_at = now;
    } in
    let entry : ManagedRecord = elim (get (key d) state.records) [
      | none ↦ new_entry d none generation now
      | some e ↦ e
    ] in
    record {
      intent = intent;
      is_pending = pending_of-put (key d) (record entry { pending = some intent }) state;
      from_expected = refl;
      to_target = refl;
    }

module _ {V W : Type 0} (world : World V W) (mode : WriterMode) (provider_name : Text)
    (generation : ℕ) where
  -- What makes `Good` a property that the writer keeps: `Held` is that the lease is held with this
  -- generation, `OnFile` that a state is the one in the provider's file. Writing the file asks for the
  -- lease, and changing a record asks for the intent on file, and for the lease at every step.
  pub record Rules (Good Held : W → Type 0) (OnFile : ProviderState → W → Type 0) : Type 0 where
    pub renewing : (w : W) → Good w → Good (renew_writer world mode provider_name generation w).0
    pub holding :
        (w : W)
        → Good w
        → (renew_writer world mode provider_name generation w).1 ≡ true
        → Held (renew_writer world mode provider_name generation w).0
    pub renewing_file :
        (s : ProviderState) (w : W)
        → OnFile s w
        → OnFile s (renew_writer world mode provider_name generation w).0
    pub reading :
        (provider : V) (name : Text) (t : RecordType) (w : W)
        → Good w
        → Good (world.get provider name t w).0
    pub asking :
        (provider : V) (t : ChangeTicket) (w : W)
        → Good w
        → Good (world.change_synced provider t w).0
    pub saving :
        (s : ProviderState) (w : W) → Held w → Good w → Good (world.save_state provider_name s w).0
    pub filing :
        (s : ProviderState) (w : W)
        → (world.save_state provider_name s w).1 ≡ ok tt
        → OnFile s (world.save_state provider_name s w).0
    pub changing :
        (provider : V) (d : DesiredRecord) (expected target : Option RecordSet) (s : ProviderState)
        (w : W)
        → Held w
        → OnFile s w
        → Intends s (key d) expected target
        → Calm Good Held (world.replace provider d.set.name d.set.record_type expected target w)

  module _ {Good Held : W → Type 0} {OnFile : ProviderState → W → Type 0}
      (rules : Rules Good Held OnFile) where
    fly-Good :
        (f : Flight W) (w : W)
        → Calm Good Held f
        → Held w
        → Good w
        → Good (fly world mode provider_name generation f w).0
    unfolding fly Calm
    fly-Good (ends f) w calm held g = rules.renewing (f w).0 (calm w held g)
    fly-Good (goes_on f next) w calm held g =
        let renewed = renew_writer world mode provider_name generation (f w) in
        let good = calm.0 w held g in
        let kept = rules.renewing (f w) good in
        elim (Bool-cases renewed.1) [
          | inr lost ↦ ground (arith, kept)
          | inl again ↦
              let still = rules.holding (f w) good again in
              let flown = fly-Good (next renewed.0) renewed.0 (calm.1 renewed.0 still) still kept in
              ground (arith, flown)
        ]

    replace_while_writer-Good :
        (provider : V) (d : DesiredRecord) (expected target : Option RecordSet) (s : ProviderState)
        (w : W)
        → OnFile s w
        → Intends s (key d) expected target
        → Good w
        → Good
            (replace_while_writer world mode provider provider_name generation d expected target
              w).0
    unfolding replace_while_writer
    replace_while_writer-Good provider d expected target s w filed intends g =
        let renewed = renew_writer world mode provider_name generation w in
        let kept = rules.renewing w g in
        elim (Bool-cases renewed.1) [
          | inr lost ↦ ground (arith, kept)
          | inl held ↦
              let start =
                world.replace provider d.set.name d.set.record_type expected target renewed.0 in
              let same : replace_while_writer world mode provider provider_name generation d
                    expected target w
                  ≡ fly world mode provider_name generation start renewed.0 =
                ground arith in
              subst (λ out. Good out.0) (sym same)
                (fly-Good start renewed.0
                  (rules.changing provider d expected target s renewed.0 (rules.holding w g held)
                    (rules.renewing_file s w filed) intends)
                  (rules.holding w g held) kept)
        ]

    perform_apply-Good :
        (provider : V) (d : DesiredRecord) (expected target : Option RecordSet) (now : ℕ)
        (s : ProviderState × W)
        → Good s.1
        → Good
            (perform_apply world mode provider provider_name d expected target generation now s).0.1
    unfolding perform_apply apply_saved
    perform_apply-Good provider d expected target now (state, w) g =
        let renewed = renew_writer world mode provider_name generation w in
        let kept = rules.renewing w g in
        let noted = note_intent d expected target generation now state in
        let saved = world.save_state provider_name noted renewed.0 in
        elim (Bool-cases renewed.1) [
          | inr lost ↦ ground (arith, kept)
          | inl held ↦
              let good = rules.saving noted renewed.0 (rules.holding w g held) kept in
              elim (Result-cases saved.1) [
                | inr (e, unsaved) ↦ ground (arith, good)
                | inl (u, written) ↦
                    let replaced =
                      replace_while_writer-Good provider d expected target noted saved.0
                        (rules.filing noted renewed.0 written)
                        (note_intent-Intends d expected target generation now state) good in
                    ground (arith, replaced)
              ]
        ]

    perform-Good :
        (provider : V) (d : DesiredRecord) (observed : Option Observed) (action : Action) (now : ℕ)
        (s : ProviderState × W)
        → Good s.1
        → Good (perform world mode provider provider_name d observed action generation now s).0.1
    unfolding perform
    perform-Good provider d observed Action.no_change now (state, w) g = g
    perform-Good provider d observed (Action.wait r) now s g = g
    perform-Good provider d observed (Action.conflict r) now s g = g
    perform-Good provider d observed (Action.adopt current) now (state, w) g = g
    perform-Good provider d observed Action.forget now (state, w) g = g
    perform-Good provider d observed (Action.apply expected target) now s g =
        perform_apply-Good provider d expected target now s g

    settle_tracked-Good :
        (provider : V) (k : Text) (now : ℕ) (s : ProviderState × W)
        → Good s.1
        → Good (settle_tracked world mode provider k generation now s).0.1
    unfolding settle_tracked
    settle_tracked-Good provider k now (state, w) g =
        elim (Option-cases (tracked (pending_of k state))) [
          | inl untracked ↦ ground (arith, g)
          | inr (t, pending) ↦ let kept = rules.asking provider t w g in ground (arith, kept)
        ]

    reconcile_record-Good :
        (settle_secs : ℕ) (provider : V) (d : DesiredRecord) (s : ProviderState × W)
        → Good s.1
        → Good (reconcile_record world mode settle_secs provider provider_name d generation s).0.1
    unfolding reconcile_record reconcile_read
    reconcile_record-Good settle_secs provider d (state, w) g =
        let settled =
          settle_tracked world mode provider (key d) generation (world.now w) (state, w) in
        let kept = settle_tracked-Good provider (key d) (world.now w) (state, w) g in
        elim (Option-cases settled.1) [
          | inr (early, returned) ↦ ground (arith, kept)
          | inl onward ↦
              let read = world.get provider d.set.name d.set.record_type settled.0.1 in
              let seen = rules.reading provider d.set.name d.set.record_type settled.0.1 kept in
              elim (Result-cases read.1) [
                | inr (e, unread) ↦ ground (arith, seen)
                | inl (observed, found) ↦
                    let finished =
                      finish_interrupted (key d) observed generation (world.now w) settled.0.0 in
                    let action =
                      decide d observed (get (key d) finished.records) (world.now w) settle_secs in
                    let done =
                      perform-Good provider d observed action (world.now w) (finished, read.0)
                        seen in
                    ground (arith, done)
              ]
        ]

    reconcile_records-Good :
        (settle_secs : ℕ) (provider : V) (ds : List DesiredRecord) (s : ProviderState × W)
        → Good s.1
        → Good (reconcile_records world mode settle_secs provider provider_name ds generation s).0.1
    unfolding reconcile_records
    reconcile_records-Good settle_secs provider [] s g = g
    reconcile_records-Good settle_secs provider (d ∷ ds) s g =
        let done = reconcile_record world mode settle_secs provider provider_name d generation s in
        let kept = reconcile_record-Good settle_secs provider d s g in
        let rest = reconcile_records-Good settle_secs provider ds done.0 kept in
        elim (Option-cases done.1.1) [
          | inl fine ↦ ground (arith, rest)
          | inr (problem, found) ↦ elim (Bool-cases (stops problem)) [
            | inl ended ↦ ground (arith, kept)
            | inr onward ↦ ground (arith, rest)
          ]
        ]

    persist-Good :
        (lost : Bool) (s : ProviderState × W)
        → Good s.1
        → Good (persist world mode provider_name generation lost s).0
    unfolding persist
    persist-Good true (state, w) g = g
    persist-Good false (state, w) g =
        let renewed = renew_writer world mode provider_name generation w in
        let kept = rules.renewing w g in
        elim (Bool-cases renewed.1) [
          | inr lost ↦ ground (arith, kept)
          | inl held ↦
              let saved = rules.saving state renewed.0 (rules.holding w g held) kept in
              ground (arith, saved)
        ]

    -- Whatever property of the world the rules keep, under which the state file is only written
    -- with the lease held, and a record only changed with the change filed as an intent of that
    -- record and with the lease held at each step of the change, renewed since the step before: a
    -- run over the records of a provider keeps it, however its steps end.
    pub reconcile_held-Good :
        (settle_secs : ℕ) (provider : V) (ds : List DesiredRecord) (state : ProviderState) (w : W)
        → Good w
        → Good
            (reconcile_held world mode settle_secs provider provider_name ds generation state w).0
    unfolding reconcile_held
    reconcile_held-Good settle_secs provider ds state w g =
        let begun : ProviderState × W = (record state { writer_generation = generation }, w) in
        let done =
          reconcile_records world mode settle_secs provider provider_name ds generation begun in
        let kept =
          persist-Good done.1.1 done.0 (reconcile_records-Good settle_secs provider ds begun g) in
        elim (Bool-cases (ltb generation state.writer_generation)) [
          | inl older ↦ ground (arith, g)
          | inr current ↦ ground (arith, kept)
        ]
