-- ===== src/Dns/Challenges/Tests.antt =====
-- One zone whose TXT set and journal are the world, and the property that the value is only published
-- while its handle is in the journal.

use sievetube.Prelude.{
  text_eq, nat_eq, ℕ, ◌+◌, ◌≡◌, ◌≢◌, true, false, Option, none, some, List, [], ◌∷◌, ok, err,
  contains, arith, Option-cases, inl, inr,
}
use sievetube.Config.{text}
use sievetube.Dns.{RecordSet, Observed, ChangeTicket}
use sievetube.Dns.Challenges.{
  TxtHandle, txt_handle_eq, unfinished, TxtWorld, TxtChallengeSolver, has_value,
}
use sievetube.Dns.Challenges.Waiting.{wait_synced, Ticks, wait_synced-finishes}
use sievetube.Dns.Challenges.Solving.{publish, remove}
use sievetube.Dns.Challenges.Removal.{set_of, Removing, remove-Good}
use sievetube.Dns.Challenges.Journal.{Publishing, publish-Journaled}

abbrev handle : TxtHandle
handle = record { zone = text "z"; name = text "c.z"; value = text "v"; domain = text "d" }

record Zone : Type 0 where
  current : Option RecordSet
  journal : List TxtHandle
  clock : ℕ

abbrev observe : Option RecordSet → Option Observed
observe none = none
observe (some s) = some (record { set = s; unsupported = none })

abbrev world : TxtWorld ℕ Zone
world = record {
  now = λ w. w.clock;
  sleep = λ d w. record w { clock = w.clock + d };
  get = λ v n t w. (w, ok (observe w.current));
  replace = λ v n t expected desired w. (record w { current = desired }, ok ChangeTicket.immediate);
  change_synced = λ v t w. (w, ok true);
  lookup_cname = λ n w. (w, none);
  lookup_txt = λ n v w. (w, has_value v w.current);
  lock_journal = λ w. (w, ok tt);
  read_journal = λ w. ok w.journal;
  write_journal = λ entries w. (record w { journal = entries }, ok tt);
}

abbrev solver : TxtChallengeSolver ℕ
solver = record {
  providers = (text "z", 7) ∷ [];
  allowed_zones = text "z" ∷ [];
  ttl = 60;
  propagation_timeout = 1000000000;
  poll_interval = 300000000;
}

abbrev empty : Zone
empty = record { current = none; journal = []; clock = 0 }

unpublished : has_value (text "v") none ≢ true
unfolding has_value
unpublished p = absurd (ground arith)

ticks : Ticks world
ticks = record {
  sleeping = λ d w. omega arith;
  asking = λ v t w. omega arith;
  looking = λ n v w. omega arith;
}

wait_synced-finishes_example :
    (wait_synced world 6 7 ChangeTicket.immediate 1000000000 empty).1 ≢ err unfinished
wait_synced-finishes_example =
    wait_synced-finishes world 5 1000000000 ticks (omega arith) 7 ChangeTicket.immediate empty

abbrev Journaled : Zone → Type 0
Journaled w = contains w.journal handle ≡ true

abbrev Good : Zone → Type 0
Good w = has_value (text "v") w.current ≡ true → Journaled w

publishing : Publishing world solver 9 handle Good Journaled
publishing = record {
  calm = record { sleeping = λ d w j. j; asking = λ v t w j. j; reading = λ v n r w j. j };
  weaken = λ w j p. j;
  locking = λ w g. g;
  writing = λ entries w g here p. here;
  filing = λ entries w g here h. here;
  changing = λ v current w j h. j;
}

publish-Journaled_example :
    Good (publish world solver 9 7 handle empty).0
    × ((publish world solver 9 7 handle empty).1 ≡ ok tt
        → Journaled (publish world solver 9 7 handle empty).0)
publish-Journaled_example =
    publish-Journaled world solver 9 handle publishing 7 empty (λ p. absurd (unpublished p))

abbrev Gone : Zone → Type 0
Gone w = has_value (text "v") w.current ≡ false

read-Gone :
    (observed : Option Observed) (w : Zone)
    → observe w.current ≡ observed
    → has_value (text "v") (set_of observed) ≡ false
    → Gone w
read-Gone observed w read absent = elim (Option-cases w.current) [
  | inl none_there ↦ ground arith
  | inr (s, there) ↦ ground arith
]

-- A change takes effect at once here, so that one which takes the value out has done so when asked.
removing : Removing world solver 9 handle Good Gone (λ v t w. Gone w)
removing = record {
  calm = record { sleeping = λ d w j. j; asking = λ v t w j. j; reading = λ v n r w j. j };
  weaken = λ w gone p. absurd (ground arith);
  absent = λ v observed w g read lacks. read-Gone observed w (ground arith) lacks;
  changing = λ v current desired w g there takes p. absurd (ground (arith, takes.gone));
  submitted = λ v t current desired w g takes made. takes.gone;
  sleeping = λ v t d w gone. gone;
  asking = λ v t w gone. gone;
  synced = λ v t w gone done. gone;
  locking = λ w gone. gone;
  filing = λ entries kept w gone read left p. absurd (ground arith);
}

abbrev published : Zone
published = (publish world solver 9 7 handle empty).0

published-Good : Good published
published-Good = publish-Journaled_example.0

remove-Good_example : Good (remove world solver 9 handle published).0
remove-Good_example = remove-Good world solver 9 handle removing published published-Good
