-- ===== src/Dns/Plan/Safety.antt =====
-- What `decide` never does to records that it does not own.
use mathlib.Core.Option
use sievetube.Prelude.{
  text_eq, nat_eq, ℕ, ◌+◌, ◌≡◌, ◌≢◌, true, false, none, some, ltb, arith, if◌then◌else◌,
  Option-cases, Bool-cases, inl, inr,
}
use sievetube.Dns.{RecordSet, Observed, same_optional}
use sievetube.Dns.Plan.{
  DesiredRecord, ManagedRecord, apply, wait, conflict, actual_of, reached, unsettled,
  foreign_change, take_over, not_reflected, changed_outside, plan_change, decide_actual,
  unsupported_of, decide,
}

pub decide_split :
    (d : DesiredRecord) (o : Option.Option Observed) (m : Option.Option ManagedRecord)
    (now settle : ℕ) (e t : Option.Option RecordSet)
    → decide d o m now settle ≡ apply e t
    → (unsupported_of o ≡ none) × (decide_actual d (actual_of o) m now settle ≡ apply e t)
unfolding decide
decide_split d o m now settle e t h = elim (Option-cases (unsupported_of o)) [
  | inl fine ↦ (fine, ground arith)
  | inr (reason, bad) ↦ absurd (ground arith)
]

pub plan_change-expected :
    (d : DesiredRecord) (actual : Option.Option RecordSet) (m : Option.Option ManagedRecord)
    (e t : Option.Option RecordSet)
    → plan_change d actual m ≡ apply e t
    → (e ≡ actual) × (reached d actual ≡ false)
unfolding plan_change reached
plan_change-expected d none m e t h = ground arith
plan_change-expected d (some s) m e t h = ground arith

pub foreign_change-ne-apply :
    (m : ManagedRecord) (actual : Option.Option RecordSet) (now settle : ℕ)
    (e t : Option.Option RecordSet)
    → foreign_change m actual now settle ≢ some (apply e t)
unfolding foreign_change unsettled
foreign_change-ne-apply m actual now settle e t h = ground arith

pub take_over-apply :
    (d : DesiredRecord) (current : RecordSet) (e t : Option.Option RecordSet)
    → take_over d current ≡ apply e t
    → (e ≡ some current)
      × (d.takes_over ≡ true)
      × (d.absent ≡ false)
      × (reached d (some current) ≡ false)
unfolding take_over reached
take_over-apply d current e t h = ground arith

decide_actual-expected :
    (d : DesiredRecord) (actual : Option.Option RecordSet) (m : Option.Option ManagedRecord)
    (now settle : ℕ) (e t : Option.Option RecordSet)
    → decide_actual d actual m now settle ≡ apply e t
    → (e ≡ actual) × (reached d actual ≡ false)
unfolding decide_actual
decide_actual-expected d none none now settle e t h = plan_change-expected d none none e t h
decide_actual-expected d (some s) none now settle e t h =
    let (same, _, _, differs) = take_over-apply d s e t h in (same, differs)
decide_actual-expected d actual (some m) now settle e t h = elim (Bool-cases (reached d actual)) [
  | inl there ↦ plan_change-expected d actual (some m) e t (ground arith)
  | inr differs ↦ elim (Option-cases (foreign_change m actual now settle)) [
    | inl own ↦ plan_change-expected d actual (some m) e t (ground arith)
    | inr (early, found) ↦ absurd (foreign_change-ne-apply m actual now settle e t (ground arith))
  ]
]

-- Every change is conditional on what was observed, and is planned only where the provider reports
-- nothing that cannot be handled and does not have what is asked for.
pub decide-expected :
    (d : DesiredRecord) (o : Option.Option Observed) (m : Option.Option ManagedRecord)
    (now settle : ℕ) (e t : Option.Option RecordSet)
    → decide d o m now settle ≡ apply e t
    → (e ≡ actual_of o) × (unsupported_of o ≡ none) × (reached d (actual_of o) ≡ false)
decide-expected d o m now settle e t h =
    let (fine, planned) = decide_split d o m now settle e t h in
    let (same, differs) = decide_actual-expected d (actual_of o) m now settle e t planned in
    (same, fine, differs)

-- A decision that changes a record that exists and is not managed: the configuration asks to take
-- it over, does not ask for its absence, the change is conditional on the observed record set, and
-- it is no deletion.
pub decide-unmanaged :
    (d : DesiredRecord) (o : Observed) (now settle : ℕ) (e t : Option.Option RecordSet)
    → decide d (some o) none now settle ≡ apply e t
    → (d.takes_over ≡ true) × (d.absent ≡ false) × (e ≡ some o.set) × (t ≢ none)
unfolding actual_of decide_actual
decide-unmanaged d o now settle e t h =
    let (fine, planned) = decide_split d (some o) none now settle e t h in
    let (same, asked, wanted, differs) = take_over-apply d o.set e t planned in
    (asked, wanted, same, unfold take_over in λ gone. ground arith)

-- A managed record that can be handled, is not as asked for, differs from what was applied, and has
-- no change under way is left alone: the decision is to wait until the time to settle has passed,
-- and a conflict from then on.
pub decide-foreign :
    (d : DesiredRecord) (o : Option.Option Observed) (m : ManagedRecord) (now settle : ℕ)
    → unsupported_of o ≡ none
    → reached d (actual_of o) ≡ false
    → m.pending ≡ none
    → same_optional (actual_of o) m.applied ≡ false
    → decide d o (some m) now settle
      ≡ (if ltb now (m.updated_at + settle) then wait not_reflected else conflict changed_outside)
unfolding decide decide_actual foreign_change unsettled
decide-foreign d o m now settle fine differs idle foreign = ground arith
