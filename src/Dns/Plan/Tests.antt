-- ===== src/Dns/Plan/Tests.antt =====
-- Decisions on concrete records, and the theorems at them.
use mathlib.Core.Option
use sievetube.Prelude.{
  text_eq, nat_eq, ◌≡◌, ◌≢◌, refl, Text-discrete, ℕ_discrete, true, false, none, some, [], ◌∷◌,
}
use sievetube.Config.{text}
use sievetube.Dns.{
  RecordType, RecordType-discrete, RecordSet, Observed, subset, set_eq, same_proxied, same_data,
  same_optional, immediate,
}
use sievetube.Dns.Plan.{
  DesiredRecord, PendingChange, ManagedRecord, apply, with_current_proxied, values_of, ttl_is,
  ttl_ok, is_between, actual_of, reached, unsettled, foreign_change, take_over, plan_change,
  decide_actual, unsupported_of, decide,
}
use sievetube.Dns.Plan.Safety.{decide-unmanaged}
use sievetube.Dns.Plan.Converge.{decide_resumes}

program : Unit {0}
unfolding subset set_eq same_proxied same_data same_optional with_current_proxied values_of ttl_is
    ttl_ok is_between actual_of reached unsettled foreign_change take_over plan_change decide_actual
    unsupported_of decide Text-discrete RecordType-discrete ℕ_discrete
program = tt

abbrev address : RecordSet
address = record {
  name = text "a.test";
  record_type = RecordType.a;
  ttl = 300;
  values = text "192.0.2.1" ∷ [];
  proxied = none;
}

abbrev old_address : RecordSet
old_address = record address { values = text "192.0.2.9" ∷ []; proxied = some true }

abbrev target : RecordSet
target = record address { proxied = some true }

abbrev wanted : DesiredRecord
wanted = record { provider = text "cf"; set = address; takes_over = true; absent = false }

abbrev old_observed : Observed
old_observed = record { set = old_address; unsupported = none }

abbrev managed : ManagedRecord
managed = record {
  name = text "a.test";
  record_type = RecordType.a;
  applied = some address;
  previous = none;
  generation = 1;
  pending = none;
  updated_at = 100;
}

abbrev change : PendingChange
change = record {
  expected = some old_address;
  desired = some target;
  ticket = some immediate;
  started_at = 100;
}

takes_over : decide wanted (some old_observed) none 100 60 ≡ apply (some old_address) (some target)
unfolding program
takes_over = refl

facts :
    (reached wanted (some old_address) ≡ false)
    × (same_optional (some old_address) managed.applied ≡ false)
    × (is_between (some old_address) change.expected change.desired ≡ true)
    × (unsupported_of (some old_observed) ≡ none)
    × (◌≡◌ {A = Option.Option RecordSet} (actual_of (some old_observed)) (some old_address))
unfolding program
facts = (refl, refl, refl, refl, refl)

decide-unmanaged_example :
    (wanted.takes_over ≡ true)
    × (wanted.absent ≡ false)
    × (some old_address ≡ some old_observed.set)
    × (some target ≢ none)
decide-unmanaged_example =
    decide-unmanaged wanted old_observed 100 60 (some old_address) (some target) takes_over

decide_resumes_example :
    (t : Option.Option RecordSet) × (decide wanted
        (some old_observed)
        (some (record managed { pending = some change }))
        500
        60
      ≡ apply (actual_of (some old_observed)) t)
    × (reached wanted t ≡ true)
unfolding actual_of
decide_resumes_example =
    decide_resumes wanted (some old_observed) (record managed { pending = some change }) change 500
      60 facts.3 facts.0 refl facts.2
