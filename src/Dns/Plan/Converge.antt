-- ===== src/Dns/Plan/Converge.antt =====
-- Reconciliation ends: what `decide` applies is what it is content with, and an interrupted change is
-- taken up again.
use mathlib.Core.Option
use sievetube.Prelude.{
  text_eq, nat_eq, ℕ, ◌≡◌, refl, Text, Bool, true, false, none, some, List, [], ◌∷◌, all, contains,
  arith, if◌then◌else◌, Option-cases, Bool-cases, inl, inr,
}
use sievetube.Dns.{record_type_eq, RecordSet, Observed, set_eq, same_proxied, same_data}
use sievetube.Dns.Plan.{
  DesiredRecord, PendingChange, ManagedRecord, no_change, apply, forget, with_current_proxied,
  is_between, actual_of, reached, foreign_change, take_over, plan_change, decide_actual,
  unsupported_of, decide,
}
use sievetube.Dns.Plan.Safety.{decide_split, plan_change-expected, foreign_change-ne-apply}

-- What a provider reports once a change has been made.
abbrev pub observe : Option.Option RecordSet → Option.Option Observed
observe none = none
observe (some s) = some (record { set = s; unsupported = none })

all-imp :
    (p q : Text → Bool) (xs : List Text)
    → ((x : Text) → p x ≡ true → q x ≡ true)
    → all p xs ≡ true
    → all q xs ≡ true
all-imp p q [] f h = refl
all-imp p q (x ∷ xs) f h = ground (arith, f x, all-imp p q xs f)

all_self : (xs : List Text) → all (λ x. contains xs x) xs ≡ true
all_self [] = refl
all_self (x ∷ xs) = ground (
  arith,
  all-imp (λ y. contains xs y) (λ y. contains (x ∷ xs) y) xs (λ y h. ground arith) (all_self xs),
)

set_eq_refl : (xs : List Text) → set_eq xs xs ≡ true
unfolding set_eq
set_eq_refl xs = rw (all_self xs) refl

same_proxied_refl : (p : Option.Option Bool) → same_proxied p p ≡ true
unfolding same_proxied
same_proxied_refl none = refl
same_proxied_refl (some true) = refl
same_proxied_refl (some false) = refl

-- A target that took over a proxy flag keeps it when it is compared with itself.
target_reached :
    (d : RecordSet) (c : Option.Option RecordSet)
    → let target = with_current_proxied d c in
      same_data target (with_current_proxied d (some target)) ≡ true
unfolding with_current_proxied same_data
target_reached d c = ground (
  arith,
  set_eq_refl d.values,
  Option-cases d.proxied,
  Option-cases c,
  same_proxied_refl d.proxied,
  same_proxied_refl (with_current_proxied d c).proxied,
)

self_reached : (d : RecordSet) → same_data d (with_current_proxied d (some d)) ≡ true
unfolding with_current_proxied same_data
self_reached d =
    ground (arith, set_eq_refl d.values, Option-cases d.proxied, same_proxied_refl d.proxied)

-- Planning a change from a state that is not there yet plans one that is.
plan_change-reached :
    (d : DesiredRecord) (actual : Option.Option RecordSet) (m : Option.Option ManagedRecord)
    → reached d actual ≡ false
    → (t : Option.Option RecordSet) × (plan_change d actual m ≡ apply actual t)
      × (reached d t ≡ true)
unfolding plan_change reached
plan_change-reached d none m h = (some d.set, ground arith, ground (arith, self_reached d.set))
plan_change-reached d (some s) m h = elim (Bool-cases d.absent) [
  | inl gone ↦ (none, ground arith, gone)
  | inr kept ↦ (
    some (with_current_proxied d.set (some s)),
    ground arith,
    ground (arith, target_reached d.set (some s)),
  )
]

planned-reached :
    (d : DesiredRecord) (actual : Option.Option RecordSet) (m : Option.Option ManagedRecord)
    (e t : Option.Option RecordSet)
    → plan_change d actual m ≡ apply e t
    → reached d t ≡ true
planned-reached d actual m e t h =
    let (same, differs) = plan_change-expected d actual m e t h in
    let (u, planned, done) = plan_change-reached d actual m differs in
    let targets : t ≡ u = cc in rw targets done

take_over-reached :
    (d : DesiredRecord) (current : RecordSet) (e t : Option.Option RecordSet)
    → take_over d current ≡ apply e t
    → reached d t ≡ true
unfolding take_over reached
take_over-reached d current e t h = ground (arith, target_reached d.set (some current))

decide_actual-reached :
    (d : DesiredRecord) (actual : Option.Option RecordSet) (m : Option.Option ManagedRecord)
    (now settle : ℕ) (e t : Option.Option RecordSet)
    → decide_actual d actual m now settle ≡ apply e t
    → reached d t ≡ true
unfolding decide_actual
decide_actual-reached d none none now settle e t h = planned-reached d none none e t h
decide_actual-reached d (some s) none now settle e t h = take_over-reached d s e t h
decide_actual-reached d actual (some m) now settle e t h = elim (Bool-cases (reached d actual)) [
  | inl there ↦ planned-reached d actual (some m) e t (ground arith)
  | inr differs ↦ elim (Option-cases (foreign_change m actual now settle)) [
    | inl own ↦ planned-reached d actual (some m) e t (ground arith)
    | inr (early, found) ↦ absurd (foreign_change-ne-apply m actual now settle e t (ground arith))
  ]
]

content :
    (d : DesiredRecord) (t : Option.Option RecordSet) (m : ManagedRecord) (now settle : ℕ)
    → reached d t ≡ true
    → decide d (observe t) (some m) now settle ≡ (if d.absent then forget else no_change)
unfolding decide unsupported_of actual_of decide_actual plan_change reached
content d none m now settle h = ground arith
content d (some s) m now settle h = ground arith

-- Once the provider reports what a decision applied, the next decision on the record changes
-- nothing: it forgets a record that is to be absent, and is in sync with any other, whatever is
-- stored of the change.
pub decide_converges :
    (d : DesiredRecord) (o : Option.Option Observed) (m : Option.Option ManagedRecord)
    (now settle later : ℕ) (e t : Option.Option RecordSet) (stored : ManagedRecord)
    → decide d o m now settle ≡ apply e t
    → decide d (observe t) (some stored) later settle ≡ (if d.absent then forget else no_change)
decide_converges d o m now settle later e t stored h =
    let (fine, planned) = decide_split d o m now settle e t h in
    content d t stored later settle (decide_actual-reached d (actual_of o) m now settle e t planned)

-- Where what the provider reports can be handled, is not what is asked for, and lies between the
-- state before and the state after a change that was started, the decision is to apply a state,
-- conditional on what was observed, and that state is what is asked for.
pub decide_resumes :
    (d : DesiredRecord) (o : Option.Option Observed) (m : ManagedRecord) (p : PendingChange)
    (now settle : ℕ)
    → unsupported_of o ≡ none
    → reached d (actual_of o) ≡ false
    → m.pending ≡ some p
    → is_between (actual_of o) p.expected p.desired ≡ true
    → (t : Option.Option RecordSet) × (decide d o (some m) now settle ≡ apply (actual_of o) t)
      × (reached d t ≡ true)
unfolding decide decide_actual foreign_change
decide_resumes d o m p now settle fine differs started between =
    let (t, planned, done) = plan_change-reached d (actual_of o) (some m) differs in
    (t, ground arith, done)
