-- ===== src/Dns/Reconcile/Tests.antt =====
-- A zone with one record, a writer that holds its lease, and the theorems at them. The world counts what
-- is written without the lease, or changed without an intent on file.

use sievetube.Prelude.{
  text_eq, nat_eq, ℕ_discrete, Text-discrete, ℕ, ◌+◌, ◌≡◌, refl, Text, ◌&&◌, ◌==◌, ◌-◌, Bool, true,
  false, Option, none, some, [], ◌∷◌, ok, if◌then◌else◌, arith,
}
use sievetube.Prelude.Maps.{get, insert, erase}
use sievetube.Config.{text}
use sievetube.Dns.{
  RecordType, RecordType-discrete, RecordSet, ChangeTicket, record_key, as_str, subset, set_eq,
  same_proxied, same_data, same_optional,
}
use sievetube.Dns.Plan.{
  DesiredRecord, ProviderState, Action, key, with_current_proxied, actual_of, reached, unsettled,
  foreign_change, take_over, plan_change, decide_actual, unsupported_of, decide,
}
use sievetube.Dns.Plan.Converge.{observe}
use sievetube.Dns.Reconcile.{
  ends, goes_on, World, stored, valkey, pending_of, complete_change, finish_pending, renew_writer,
  fly, replace_while_writer,
}
use sievetube.Dns.Reconcile.Changes.{
  tracked, completed, finish_interrupted, new_entry, note_intent, conclude, has_pending,
  note_in_sync,
}
use sievetube.Dns.Reconcile.Records.{
  settle_tracked, apply_saved, perform_apply, perform, reconcile_read, reconcile_record,
  reconcile_held,
}
use sievetube.Dns.Reconcile.DryRun.{plan_record, is_change, reconcile_record-plan_record}
use sievetube.Dns.Reconcile.Fencing.{Calm, Intends, Rules, reconcile_held-Good}

program : Unit {0}
unfolding record_key as_str subset set_eq same_proxied same_data same_optional key
    with_current_proxied actual_of reached unsettled foreign_change take_over plan_change
    decide_actual unsupported_of decide pending_of complete_change finish_pending renew_writer fly
    replace_while_writer tracked completed finish_interrupted new_entry note_intent conclude
    settle_tracked apply_saved perform_apply perform reconcile_read reconcile_record has_pending
    note_in_sync plan_record is_change get insert erase Text-discrete RecordType-discrete ℕ_discrete
program = tt

record Zone : Type 0 where
  current : Option RecordSet
  file : ProviderState
  renewals : ℕ
  leased : Bool
  stray : ℕ

abbrev is_pending : Text → Zone → Bool
is_pending k w = elim (pending_of k w.file) [ none ↦ false | some p ↦ true ]

abbrev world : World ℕ Zone
world = record {
  now = λ w. 100;
  read_state = λ name w. stored w.file;
  save_state =
      λ name s w. (record w { file = s; stray = if w.leased then w.stray else w.stray + 1 }, ok tt);
  describe = λ e. [];
  get = λ v name t w. (w, ok (observe w.current));
  change_synced = λ v t w. (w, ok true);
  replace = λ v name t expected target w.
      let filed = is_pending (record_key name t) w in
      let count : Zone → Zone =
        λ u. record u { stray = if u.leased && filed then u.stray else u.stray + 1 } in
      goes_on count
        (λ v. ends (λ u. (record (count u) { current = target }, ok ChangeTicket.immediate)));
  acquire_lease = λ name g w. (record w { leased = true }, ok (some g));
  acquire_lease_in_time = λ name g w.
      if w.renewals == 0
      then (record w { leased = false }, some (ok none))
      else (record w { renewals = w.renewals - 1; leased = true }, some (ok (some g)));
}

abbrev address : RecordSet
address = record {
  name = text "a";
  record_type = RecordType.a;
  ttl = 300;
  values = text "x" ∷ [];
  proxied = none;
}

abbrev wanted : DesiredRecord
wanted = record { provider = text "p"; set = address; takes_over = false; absent = false }

abbrev no_records : ProviderState
no_records = record { writer_generation = 0; records = [] }

abbrev empty : Zone
empty = record { current = none; file = no_records; leased = false; renewals = 100; stray = 0 }

abbrev Good : Zone → Type 0
Good w = w.stray ≡ 0

abbrev Held : Zone → Type 0
Held w = w.leased ≡ true

abbrev OnFile : ProviderState → Zone → Type 0
OnFile s w = w.file ≡ s

holds : (w : Zone) → Good w → Good (renew_writer world valkey (text "p") 1 w).0
unfolding renew_writer
holds w g = ground (arith, g)

leases :
    (w : Zone)
    → (renew_writer world valkey (text "p") 1 w).1 ≡ true
    → Held (renew_writer world valkey (text "p") 1 w).0
unfolding renew_writer
leases w renewed = ground arith

files :
    (s : ProviderState) (w : Zone)
    → OnFile s w
    → OnFile s (renew_writer world valkey (text "p") 1 w).0
unfolding renew_writer
files s w filed = ground (arith, filed)

legal_change :
    (v : ℕ) (d : DesiredRecord) (expected target : Option RecordSet) (s : ProviderState) (w : Zone)
    → Held w
    → OnFile s w
    → Intends s (key d) expected target
    → Calm Good Held (world.replace v d.set.name d.set.record_type expected target w)
unfolding Calm key
legal_change v d expected target s w held filed intends =
    let k = record_key d.set.name d.set.record_type in
    let there : pending_of k w.file ≡ some intends.intent = rw filed intends.is_pending in
    (
      λ u leased g. ground (arith, leased, there, g),
      λ z renewed u leased g. ground (arith, leased, there, g),
    )

rules : Rules world valkey (text "p") 1 Good Held OnFile
rules = record {
  renewing = holds;
  holding = λ w g h. leases w h;
  renewing_file = files;
  reading = λ v name t w g. g;
  asking = λ v t w g. g;
  saving = λ s w held g. ground (arith, held, g);
  filing = λ s w h. refl;
  changing = legal_change;
}

-- The lease can be renewed before the change, and no more while it runs.
abbrev lapsing : Zone
lapsing = record empty { renewals = 2 }

lapses :
    (reconcile_record world valkey 60 7 (text "p") wanted 1 (no_records, lapsing)).0.1.leased
    ≡ false
unfolding program
lapses = refl

reconcile_held-Good_example :
    Good (reconcile_held world valkey 60 7 (text "p") (wanted ∷ []) 1 no_records lapsing).0
reconcile_held-Good_example =
    reconcile_held-Good world valkey (text "p") 1 rules 60 7 (wanted ∷ []) no_records lapsing refl

abbrev after_change : ProviderState
after_change = (reconcile_record world valkey 60 7 (text "p") wanted 1 (no_records, empty)).0.0

abbrev later : Zone
later = record empty { current = some address }

idle_after : pending_of (key wanted) after_change ≡ none
unfolding program
idle_after = refl

planned :
    (plan_record world 60 7 (text "p") wanted 100 after_change later).1.action ≡ Action.no_change
unfolding program
planned = refl

as_planned :
    (reconcile_record world valkey 60 7
      (text "p")
      wanted
      1
      (after_change, record empty { current = some address })).1
    ≡ (Action.no_change, none)
unfolding program
as_planned =
    (reconcile_record-plan_record world valkey 60 7 (text "p") wanted 1 after_change later
      idle_after refl).0
