-- ===== src/Dns/Reconcile/DryRun.antt =====
-- sievetube-edge/src/dns/reconciler.rs: `plan`, the actions of the next run without any change.
use sievetube.Prelude.{
  text_eq, nat_eq, ℕ, ◌≡◌, refl, Result-cases, Text, ◌==◌, Bool, true, false, none, some, List, [],
  ◌∷◌, ◌++◌, ok, err, select, arith, inl, inr,
}
use sievetube.Prelude.Maps.{get}
use sievetube.Dns.Plan.{DesiredRecord, ProviderState, Action, Reason, key, decide}
use sievetube.Dns.Reconcile.{
  RecordOutcome, World, WriterMode, DnsReconciler, pending_of, provider_error, load_state, failed,
  no_state, finish_pending,
}
use sievetube.Dns.Reconcile.Changes.{tracked, completed, finish_interrupted}
use sievetube.Dns.Reconcile.Records.{settle_tracked, perform, reconcile_read, reconcile_record}

unfoldable pub records_for : {V : Type 0} → DnsReconciler V → Text → List DesiredRecord
records_for r provider = select (λ d. d.provider == provider) r.records

module _ {V W : Type 0} (world : World V W) where
  unfoldable pub plan_record :
      ℕ → V → Text → DesiredRecord → ℕ → ProviderState → W → W × RecordOutcome
  plan_record settle_secs provider provider_name desired now state w =
      let read = world.get provider desired.set.name desired.set.record_type w in
      elim read.1 [
        | ok observed ↦ (
          read.0,
          record {
            provider = provider_name;
            key = key desired;
            action = decide desired observed (get (key desired) state.records) now settle_secs;
            error = none;
          },
        )
        | err e ↦ (
          read.0,
          record {
            provider = provider_name;
            key = key desired;
            action = Action.wait Reason.read_failed;
            error = some (failed (world.describe e));
          },
        )
      ]

  unfoldable pub plan_records :
      ℕ → V → Text → List DesiredRecord → ℕ → ProviderState → W → W × List RecordOutcome
  plan_records settle_secs provider provider_name [] now state w = (w, [])
  plan_records settle_secs provider provider_name (d ∷ ds) now state w =
      let done = plan_record settle_secs provider provider_name d now state w in
      let rest = plan_records settle_secs provider provider_name ds now state done.0 in
      (rest.0, done.1 ∷ rest.1)

  unfoldable pub plan_provider : DnsReconciler V → ℕ → Text → W → W × List RecordOutcome
  plan_provider r now name w = elim (get name r.providers) [
    | none ↦ (w, [])
    | some provider ↦ elim (load_state (world.read_state name w)) [
      | err e ↦ (w, provider_error name (no_state e) ∷ [])
      | ok state ↦ plan_records r.settle_secs provider name (records_for r name) now state w
    ]
  ]

  unfoldable pub plan_providers : DnsReconciler V → ℕ → List Text → W → W × List RecordOutcome
  plan_providers r now [] w = (w, [])
  plan_providers r now (p ∷ ps) w =
      let done = plan_provider r now p w in
      let rest = plan_providers r now ps done.0 in (rest.0, done.1 ++ rest.1)

  unfoldable pub plan : DnsReconciler V → W → W × List RecordOutcome
  plan r w = plan_providers r (world.now w) r.provider_names w

unfoldable pub is_change : Action → Bool
is_change (Action.apply e t) = true
is_change _ = false

idle-completed :
    (k : Text) (observed : _) (generation now : ℕ) (state : ProviderState)
    → pending_of k state ≡ none
    → finish_interrupted k observed generation now state ≡ state
unfolding finish_interrupted completed finish_pending
idle-completed k observed generation now state idle = ground (arith, idle)

-- What is done about an action that is no change of the provider: it is reported as it is.
perform-is_change :
    {V W : Type 0} (world : World V W) (mode : WriterMode) (provider : V) (name : Text)
    (d : DesiredRecord) (observed : _) (action : Action) (generation now : ℕ)
    (s : ProviderState × W)
    → is_change action ≡ false
    → ((perform world mode provider name d observed action generation now s).1 ≡ (action, none))
      × ((perform world mode provider name d observed action generation now s).0.1 ≡ s.1)
unfolding perform is_change
perform-is_change world mode provider name d observed Action.no_change generation now s calm =
    (refl, refl)
perform-is_change world mode provider name d observed (Action.wait r) generation now s calm =
    (refl, refl)
perform-is_change world mode provider name d observed (Action.conflict r) generation now s calm =
    (refl, refl)
perform-is_change world mode provider name d observed (Action.adopt c) generation now s calm =
    (refl, refl)
perform-is_change world mode provider name d observed Action.forget generation now s calm =
    (refl, refl)
perform-is_change world mode provider name d observed (Action.apply e t) generation now s calm =
    absurd (ground arith)

settle_tracked-idle :
    {V W : Type 0} (world : World V W) (mode : WriterMode) (provider : V) (k : Text)
    (generation now : ℕ) (state : ProviderState) (w : W)
    → pending_of k state ≡ none
    → settle_tracked world mode provider k generation now (state, w) ≡ ((state, w), none)
unfolding settle_tracked tracked
settle_tracked-idle world mode provider k generation now state w idle = ground (arith, idle)

reconcile_read-plan_record :
    {V W : Type 0} (world : World V W) (mode : WriterMode) (settle_secs : ℕ) (provider : V)
    (name : Text) (d : DesiredRecord) (generation now : ℕ) (state : ProviderState) (w : W)
    → pending_of (key d) state ≡ none
    → is_change (plan_record world settle_secs provider name d now state w).1.action ≡ false
    → ((reconcile_read world mode settle_secs provider name d generation now (state, w)).1 ≡ (
      (plan_record world settle_secs provider name d now state w).1.action,
      (plan_record world settle_secs provider name d now state w).1.error,
    ))
      × ((reconcile_read world mode settle_secs provider name d generation now (state, w)).0.1
          ≡ (plan_record world settle_secs provider name d now state w).0)
unfolding reconcile_read plan_record
reconcile_read-plan_record world mode settle_secs provider name d generation now state w idle calm =
    let read = world.get provider d.set.name d.set.record_type w in
    elim (Result-cases read.1) [
      | inr (e, failing) ↦ ground (arith, failing)
      | inl (observed, got) ↦
          let action = decide d observed (get (key d) state.records) now settle_secs in
          let quiet : is_change action ≡ false = ground (arith, calm, got) in
          let same = idle-completed (key d) observed generation now state idle in
          let reported =
            perform-is_change world mode provider name d observed action generation now
              (state, read.0) quiet in
          ground (arith, got, same, reported.0, reported.1)
    ]

-- For a record with no change under way, and where the dry run reports no change of the provider, a run
-- from the same state at the same time reports the same action and error, and has only read the record.
pub reconcile_record-plan_record :
    {V W : Type 0} (world : World V W) (mode : WriterMode) (settle_secs : ℕ) (provider : V)
    (name : Text) (d : DesiredRecord) (generation : ℕ) (state : ProviderState) (w : W)
    → pending_of (key d) state ≡ none
    → is_change (plan_record world settle_secs provider name d (world.now w) state w).1.action
      ≡ false
    → ((reconcile_record world mode settle_secs provider name d generation (state, w)).1 ≡ (
      (plan_record world settle_secs provider name d (world.now w) state w).1.action,
      (plan_record world settle_secs provider name d (world.now w) state w).1.error,
    ))
      × ((reconcile_record world mode settle_secs provider name d generation (state, w)).0.1
          ≡ (plan_record world settle_secs provider name d (world.now w) state w).0)
unfolding reconcile_record
reconcile_record-plan_record world mode settle_secs provider name d generation state w idle calm =
    let settled =
      settle_tracked-idle world mode provider (key d) generation (world.now w) state w idle in
    let (reported, only_read) =
      reconcile_read-plan_record world mode settle_secs provider name d generation (world.now w)
        state w idle calm in
    ground (arith, settled, reported, only_read)
