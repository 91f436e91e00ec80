-- ===== src/Dns/Reconcile/Records.antt =====
-- sievetube-edge/src/dns/reconciler.rs: `reconcile_record` and `reconcile_provider`, in the order of their
-- steps. A step that may return early gives the action and error of that outcome.
use sievetube.Prelude.{
  text_eq, nat_eq, ℕ, Text, ◌==◌, ltb, Bool, true, false, Option, none, some, List, [], ◌∷◌, ◌++◌,
  ok, err, if◌then◌else◌, select, not,
}
use sievetube.Prelude.Maps.{Map, get, insert, erase}
use sievetube.Dns.{RecordSet, Observed}
use sievetube.Dns.Plan.{DesiredRecord, ProviderState, Action, Reason, key, decide, actual_of}
use sievetube.Dns.Reconcile.{
  stops, is_lost_lease, RecordOutcome, World, WriterMode, DnsReconciler, finish_pending, pending_of,
  provider_error, load_state, renew_writer, acquire_writer, replace_while_writer, stop_lost_lease,
  stop_lost_before_saving, newer_writer, stop_not_saved, not_saved, failed, no_state,
  no_control_plane,
}
use sievetube.Dns.Reconcile.Changes.{
  Verdict, tracked, finish_interrupted, note_in_sync, new_entry, note_intent, conclude,
}

module _ {V W : Type 0} (world : World V W) (mode : WriterMode) where
  -- The first step: finish a tracked change.
  unfoldable pub settle_tracked :
      V → Text → ℕ → ℕ → ProviderState × W → (ProviderState × W) × Option Verdict
  settle_tracked provider k generation now (state, w) = elim (tracked (pending_of k state)) [
    | none ↦ ((state, w), none)
    | some t ↦
        let asked = world.change_synced provider t w in
        elim asked.1 [
          | err e ↦ (
            (state, asked.0),
            some (Action.wait Reason.status_unread, some (failed (world.describe e))),
          )
          | ok synced ↦
              if synced
              then ((finish_pending k generation now state, asked.0), none)
              else ((state, asked.0), some (Action.wait Reason.change_still_pending, none))
        ]
  ]

  -- The branch of `Action::Apply` from where the intent is persisted.
  unfoldable pub apply_saved :
      V
      → Text
      → DesiredRecord
      → Option RecordSet
      → Option RecordSet
      → ℕ
      → ℕ
      → ProviderState
      → W
      → (ProviderState × W) × Verdict
  apply_saved provider provider_name desired expected target generation now state w =
      let replaced =
        replace_while_writer world mode provider provider_name generation desired expected target
          w in
      elim replaced.1 [
        | none ↦ ((state, replaced.0), (Action.apply expected target, some stop_lost_lease))
        | some result ↦
            let done =
              conclude world.describe (key desired) expected target generation now result state in
            ((done.0, replaced.0), done.1)
      ]

  unfoldable pub perform_apply :
      V
      → Text
      → DesiredRecord
      → Option RecordSet
      → Option RecordSet
      → ℕ
      → ℕ
      → ProviderState × W
      → (ProviderState × W) × Verdict
  perform_apply provider provider_name desired expected target generation now (state, w) =
      let renewed = renew_writer world mode provider_name generation w in
      if not renewed.1
      then ((state, renewed.0), (Action.apply expected target, some stop_lost_lease))
      else let noted = note_intent desired expected target generation now state in
        let saved = world.save_state provider_name noted renewed.0 in
        elim saved.1 [
          | err e ↦ ((noted, saved.0), (Action.apply expected target, some (stop_not_saved e)))
          | ok u ↦
              apply_saved provider provider_name desired expected target generation now noted
                saved.0
        ]

  -- The match on the action.
  unfoldable pub perform :
      V
      → Text
      → DesiredRecord
      → Option Observed
      → Action
      → ℕ
      → ℕ
      → ProviderState × W
      → (ProviderState × W) × Verdict
  perform provider provider_name desired observed Action.no_change generation now (state, w) =
      ((note_in_sync (key desired) (actual_of observed) now state, w), (Action.no_change, none))
  perform provider provider_name desired observed (Action.wait r) generation now s =
      (s, (Action.wait r, none))
  perform provider provider_name desired observed (Action.conflict r) generation now s =
      (s, (Action.conflict r, none))
  perform provider provider_name desired observed (Action.adopt current) generation now (state, w) =
      (
        (
          record state {
            records =
                insert (key desired) (new_entry desired (some current) generation now)
                  state.records;
          },
          w,
        ),
        (Action.adopt current, none),
      )
  perform provider provider_name desired observed Action.forget generation now (state, w) =
      ((record state { records = erase (key desired) state.records }, w), (Action.forget, none))
  perform provider provider_name desired observed (Action.apply expected target) generation now s =
      perform_apply provider provider_name desired expected target generation now s

  -- From the reading of the provider on.
  unfoldable pub reconcile_read :
      ℕ → V → Text → DesiredRecord → ℕ → ℕ → ProviderState × W → (ProviderState × W) × Verdict
  reconcile_read settle_secs provider provider_name desired generation now (state, w) =
      let read = world.get provider desired.set.name desired.set.record_type w in
      elim read.1 [
        | err e ↦
            ((state, read.0), (Action.wait Reason.read_failed, some (failed (world.describe e))))
        | ok observed ↦
            let finished = finish_interrupted (key desired) observed generation now state in
            let action =
              decide desired observed (get (key desired) finished.records) now settle_secs in
            perform provider provider_name desired observed action generation now (finished, read.0)
      ]

  unfoldable pub reconcile_record :
      ℕ → V → Text → DesiredRecord → ℕ → ProviderState × W → (ProviderState × W) × Verdict
  reconcile_record settle_secs provider provider_name desired generation (state, w) =
      let now = world.now w in
      let settled = settle_tracked provider (key desired) generation now (state, w) in
      elim settled.1 [
        | some early ↦ (settled.0, early)
        | none ↦ reconcile_read settle_secs provider provider_name desired generation now settled.0
      ]

  unfoldable pub outcome_of : Text → DesiredRecord → Verdict → RecordOutcome
  outcome_of provider_name desired (action, error) = record {
    provider = provider_name;
    key = key desired;
    action = action;
    error = error;
  }

  -- The loop over the records; the Boolean is `lost_writer`.
  unfoldable pub reconcile_records :
      ℕ
      → V
      → Text
      → List DesiredRecord
      → ℕ
      → ProviderState × W
      → (ProviderState × W) × (List RecordOutcome × Bool)
  reconcile_records settle_secs provider provider_name [] generation s = (s, ([], false))
  reconcile_records settle_secs provider provider_name (d ∷ ds) generation s =
      let done = reconcile_record settle_secs provider provider_name d generation s in
      let rest = reconcile_records settle_secs provider provider_name ds generation done.0 in
      let outcome = outcome_of provider_name d done.1 in
      elim done.1.1 [
        | none ↦ (rest.0, (outcome ∷ rest.1.0, rest.1.1))
        | some problem ↦
            if stops problem
            then (done.0, (outcome ∷ [], is_lost_lease problem))
            else (rest.0, (outcome ∷ rest.1.0, rest.1.1))
      ]

  -- The end of `reconcile_provider`.
  unfoldable pub persist : Text → ℕ → Bool → ProviderState × W → W × List RecordOutcome
  persist provider_name generation true (state, w) = (w, [])
  persist provider_name generation false (state, w) =
      let renewed = renew_writer world mode provider_name generation w in
      if not renewed.1
      then (renewed.0, provider_error provider_name stop_lost_before_saving ∷ [])
      else let saved = world.save_state provider_name state renewed.0 in
        elim saved.1 [
          | ok u ↦ (saved.0, [])
          | err e ↦ (saved.0, provider_error provider_name (not_saved e) ∷ [])
        ]

  -- `reconcile_provider` with the lease.
  unfoldable pub reconcile_held :
      ℕ → V → Text → List DesiredRecord → ℕ → ProviderState → W → W × List RecordOutcome
  reconcile_held settle_secs provider provider_name desired generation state w =
      if ltb generation state.writer_generation
      then (w, provider_error provider_name newer_writer ∷ [])
      else let done =
          reconcile_records settle_secs provider provider_name desired generation
            (record state { writer_generation = generation }, w) in
        let kept = persist provider_name generation done.1.1 done.0 in (kept.0, done.1.0 ++ kept.1)

-- `reconcile_provider`, with the `single_writer_generations` before and after.
unfoldable pub reconcile_provider :
    {V W : Type 0}
    → World V W
    → DnsReconciler V
    → Text
    → Map Text ℕ × W
    → (Map Text ℕ × W) × List RecordOutcome
reconcile_provider world r provider_name (generations, w) = elim (get provider_name r.providers) [
  | none ↦ ((generations, w), [])
  | some provider ↦ elim (load_state (world.read_state provider_name w)) [
    | err e ↦ ((generations, w), provider_error provider_name (no_state e) ∷ [])
    | ok state ↦
        let got = acquire_writer world r.writer provider_name state generations w in
        elim got.1 [
          | err e ↦ (got.0, provider_error provider_name (no_control_plane e) ∷ [])
          | ok held ↦ elim held [
            | none ↦ (got.0, [])
            | some generation ↦
                let done =
                  reconcile_held world r.writer r.settle_secs provider provider_name
                    (select (λ d. d.provider == provider_name) r.records) generation state
                    got.0.1 in
                ((got.0.0, done.0), done.1)
          ]
        ]
  ]
]

-- `reconcile_once`
unfoldable pub reconcile_all :
    {V W : Type 0}
    → World V W
    → DnsReconciler V
    → List Text
    → Map Text ℕ × W
    → (Map Text ℕ × W) × List RecordOutcome
reconcile_all world r [] s = (s, [])
reconcile_all world r (p ∷ ps) s =
    let done = reconcile_provider world r p s in
    let rest = reconcile_all world r ps done.0 in (rest.0, done.1 ++ rest.1)

unfoldable pub reconcile_once :
    {V W : Type 0}
    → World V W
    → DnsReconciler V
    → Map Text ℕ × W
    → (Map Text ℕ × W) × List RecordOutcome
unfolding reconcile_all
reconcile_once world r s = reconcile_all world r r.provider_names s
