-- ===== src/Dns/Reconcile.antt =====
-- sievetube-edge/src/dns/reconciler.rs: making the records of a provider what the configuration asks for.
-- `W` is the world: the state files, the control plane, the providers and the clock; `V` stands for
-- `Provider`. Each operation on it is a parameter. Times are Unix seconds.
pub mod Changes
pub mod Records
pub mod Managed
pub mod Fencing
pub mod Converge
pub mod Frame
pub mod DryRun
mod Tests
use sievetube.Config.{text}
use sievetube.Prelude.{
  text_eq, nat_eq, ℕ, ◌+◌, Text, ◌==◌, ltb, Bool, true, false, Option, none, some, List, [], ◌∷◌,
  ◌++◌, Result, ok, err, if◌then◌else◌, select, not,
}
use sievetube.Prelude.Maps.{Map, get, insert, erase}
use sievetube.Dns.{RecordType, RecordSet, Observed, ChangeTicket, DnsError}
use sievetube.Dns.Plan.{
  DesiredRecord, ManagedRecord, PendingChange, ProviderState, Action, Reason, key,
}

-- The reading of a state file.
pub data Stored : Type 0 where
  missing : Stored
  unreadable : Text → Stored
  stored : ProviderState → Stored

-- A running `replace`, as `replace_while_writer` sees it: it ends, or the interval to renew passes first.
-- It is finite, since the requests to a provider have a time limit.
pub data Flight (W : Type 0) : Type 0 where
  ends : (W → W × Result DnsError ChangeTicket) → Flight W
  goes_on : (W → W) → (W → Flight W) → Flight W

-- The errors of an outcome, one for each message; `starts_with("stop:")` is `stops`.
pub data Problem : Type 0 where
  stop_lost_lease stop_lost_before_saving newer_writer : Problem
  stop_not_saved stop_provider not_saved failed no_state no_control_plane : Text → Problem

unfoldable pub stops : Problem → Bool
stops stop_lost_lease = true
stops stop_lost_before_saving = true
stops (stop_not_saved e) = true
stops (stop_provider e) = true
stops _ = false

unfoldable pub is_lost_lease : Problem → Bool
is_lost_lease stop_lost_lease = true
is_lost_lease _ = false

pub record RecordOutcome : Type 0 where
  pub provider : Text
  pub key : Text
  pub action : Action
  pub error : Option Problem

pub record World (V W : Type 0) : Type 0 where
  pub now : W → ℕ
  pub read_state : Text → W → Stored
  pub save_state : Text → ProviderState → W → W × Result Text (Unit {0})
  pub describe : DnsError → Text
  pub get : V → Text → RecordType → W → W × Result DnsError (Option Observed)
  pub change_synced : V → ChangeTicket → W → W × Result DnsError Bool
  pub replace : V → Text → RecordType → Option RecordSet → Option RecordSet → W → Flight W
  pub acquire_lease : Text → ℕ → W → W × Result Text (Option ℕ)
  -- under the timeout of half the time to live
  pub acquire_lease_in_time : Text → ℕ → W → W × Option (Result Text (Option ℕ))

pub data WriterMode : Type 0 where
  single_writer valkey : WriterMode

pub record DnsReconciler (V : Type 0) : Type 0 where
  pub settle_secs : ℕ
  pub provider_names : List Text
  pub records : List DesiredRecord
  pub providers : Map Text V
  pub writer : WriterMode

unfoldable pub lease_resource : Text → Text
lease_resource provider = text "dns:" ++ provider

unfoldable pub provider_error : Text → Problem → RecordOutcome
provider_error provider error = record {
  provider = provider;
  key = text "*";
  action = Action.wait Reason.provider_unavailable;
  error = some error;
}

unfoldable pub load_state : Stored → Result Text ProviderState
load_state missing = ok (record { writer_generation = 0; records = [] })
load_state (unreadable e) = err e
load_state (stored state) = ok state

unfoldable pub complete_change :
    Text → Option RecordSet → Option RecordSet → ℕ → ℕ → ProviderState → ProviderState
complete_change k expected desired generation now state = elim (get k state.records) [
  | none ↦ state
  | some entry ↦ record state {
    records =
        insert k
          (record entry {
            previous = expected;
            applied = desired;
            pending = none;
            generation = generation;
            updated_at = now;
          })
          state.records;
  }
]

-- `state.records.get(key).and_then(|m| m.pending.clone())`
unfoldable pub pending_of : Text → ProviderState → Option PendingChange
pending_of k state = elim (get k state.records) [ none ↦ none | some entry ↦ entry.pending ]

unfoldable pub finish_pending : Text → ℕ → ℕ → ProviderState → ProviderState
finish_pending k generation now state = elim (pending_of k state) [
  | none ↦ state
  | some p ↦ complete_change k p.expected p.desired generation now state
]

module _ {V W : Type 0} (world : World V W) where
  unfoldable pub renew_writer : WriterMode → Text → ℕ → W → W × Bool
  renew_writer single_writer provider generation w = (w, true)
  renew_writer valkey provider generation w =
      let renewed = world.acquire_lease_in_time (lease_resource provider) generation w in
      (
        renewed.0,
        elim renewed.1 [
          | none ↦ false
          | some result ↦ elim result [
            | err e ↦ false
            | ok held ↦ elim held [ none ↦ false | some g ↦ g == generation ]
          ]
        ],
      )

  -- `generations` are the `single_writer_generations`.
  unfoldable pub acquire_writer :
      WriterMode → Text → ProviderState → Map Text ℕ → W → (Map Text ℕ × W) × Result Text (Option ℕ)
  acquire_writer single_writer provider state generations w = elim (get provider generations) [
    | some g ↦ ((generations, w), ok (some g))
    | none ↦ (
      (insert provider (state.writer_generation + 1) generations, w),
      ok (some (state.writer_generation + 1)),
    )
  ]
  acquire_writer valkey provider state generations w =
      let got = world.acquire_lease (lease_resource provider) (state.writer_generation + 1) w in
      ((generations, got.0), got.1)

  -- The loop of `replace_while_writer`; `none` is that the lease was lost.
  unfoldable pub fly :
      WriterMode → Text → ℕ → Flight W → W → W × Option (Result DnsError ChangeTicket)
  fly mode provider generation (ends f) w =
      let landed = f w in
      let renewed = renew_writer mode provider generation landed.0 in
      (renewed.0, if renewed.1 then some landed.1 else none)
  fly mode provider generation (goes_on f next) w =
      let renewed = renew_writer mode provider generation (f w) in
      let rest = fly mode provider generation (next renewed.0) renewed.0 in
      if renewed.1 then rest else (renewed.0, none)

  unfoldable pub replace_while_writer :
      WriterMode
      → V
      → Text
      → ℕ
      → DesiredRecord
      → Option RecordSet
      → Option RecordSet
      → W
      → W × Option (Result DnsError ChangeTicket)
  replace_while_writer mode provider provider_name generation desired expected target w =
      let renewed = renew_writer mode provider_name generation w in
      if renewed.1
      then fly mode provider_name generation
          (world.replace provider desired.set.name desired.set.record_type expected target
            renewed.0)
          renewed.0
      else (renewed.0, none)
