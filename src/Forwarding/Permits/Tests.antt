-- ===== src/Forwarding/Permits/Tests.antt =====
-- The stream budget of one peer with one permit, for which two tasks wait while the map is swept.
use sievetube.Prelude.{
  ◌≤◌, ◌≡◌, refl, Text, true, some, none, [], ◌∷◌, Text-discrete, ℕ_discrete, text_eq, nat_eq,
}
use sievetube.Prelude.Maps.{get, insert, erase, retain}
use sievetube.Config.{text}
use sievetube.Forwarding.Permits.{
  PermitMap, new, put, begin_wait, grant, give_up, sweep, in_use, of_key, drop_one, has, Tasks, Run,
  waits, granted, gives_up, sweeps, start, then_step,
}
use sievetube.Forwarding.Permits.Limit.{held-le-limit}

abbrev peer : Text
peer = text "e2"

abbrev one_waits : PermitMap
one_waits = (begin_wait 1 peer new).0

abbrev both_wait : PermitMap
both_wait = (begin_wait 1 peer (sweep 1 one_waits)).0

abbrev one_holds : PermitMap
one_holds = put 0 (record { available = 0; clones = 2 }) both_wait

abbrev waiting : Tasks
waiting = (peer, (begin_wait 1 peer (sweep 1 one_waits)).1) ∷ (peer, (begin_wait 1 peer new).1) ∷ []

both_waiting : waiting ≡ (peer, 0) ∷ (peer, 0) ∷ []
unfolding new begin_wait sweep in_use put get insert erase retain Text-discrete ℕ_discrete
both_waiting = refl

first_waiting : has peer 0 waiting ≡ true
unfolding new begin_wait sweep in_use put get insert erase retain Text-discrete ℕ_discrete
first_waiting = refl

other_waiting : has peer 0 (drop_one peer 0 waiting) ≡ true
unfolding new begin_wait sweep in_use put get insert erase retain Text-discrete ℕ_discrete
other_waiting = refl

one_gets : grant 0 both_wait ≡ some one_holds
unfolding grant new begin_wait sweep in_use put get insert erase retain Text-discrete ℕ_discrete
one_gets = refl

other_waits : grant 0 one_holds ≡ none
unfolding grant put ℕ_discrete
other_waits = refl

run :
    Run 1
      (sweep 1 (give_up 0 one_holds), (drop_one peer 0 (drop_one peer 0 waiting), (peer, 0) ∷ []))
run =
    then_step
      (then_step
        (then_step
          (then_step
            (then_step (then_step start (waits peer new [] []))
              (sweeps one_waits ((peer, (begin_wait 1 peer new).1) ∷ []) []))
            (waits peer (sweep 1 one_waits) ((peer, (begin_wait 1 peer new).1) ∷ []) []))
          (granted peer 0 both_wait one_holds waiting [] first_waiting one_gets))
        (gives_up peer 0 one_holds (drop_one peer 0 waiting) ((peer, 0) ∷ []) other_waiting))
      (sweeps (give_up 0 one_holds) (drop_one peer 0 (drop_one peer 0 waiting)) ((peer, 0) ∷ []))

held-le-limit_example : of_key peer ((peer, 0) ∷ []) ≤ 1
held-le-limit_example = held-le-limit run peer
