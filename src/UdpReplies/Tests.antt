-- ===== src/UdpReplies/Tests.antt =====
-- A table with room for one entry, and the theorems at it. Destinations are numbers.
use sievetube.Prelude.{nat_eq, ℕ_discrete, ℕ, ◌≡◌, refl, ◌==◌, none, some, [], ◌∷◌}
use sievetube.Prelude.Maps.{get, insert, erase, retain}
use sievetube.UdpReplies.{
  UdpReplyEntry, UdpReplyTable, new_table, is_fresh, make_room, insert_reply, unexpired, take_if,
  purge_expired,
}
use sievetube.UdpReplies.Bounds.{Step, Run, start, then_step, IsBounded, Run-IsBounded}

program : Unit {0}
unfolding new_table is_fresh make_room insert_reply unexpired take_if purge_expired get insert erase
    retain ℕ_discrete
program = tt

abbrev entry : ℕ → UdpReplyEntry ℕ
entry created = record { destination = 5; expect_peer = none; created = created }

abbrev empty : UdpReplyTable ℕ
empty = new_table 1 10

abbrev full : UdpReplyTable ℕ
full = (insert_reply 100 7 (entry 100) empty).0

-- The second request finds the table full, and the third in place of an expired entry.
abbrev refused : UdpReplyTable ℕ
refused = (insert_reply 105 8 (entry 105) full).0

abbrev replaced : UdpReplyTable ℕ
replaced = (insert_reply 111 9 (entry 111) refused).0

run : Run empty replaced
run =
    then_step
      (then_step (then_step (start empty) (Step.inserted 100 7 (entry 100) empty))
        (Step.inserted 105 8 (entry 105) full))
      (Step.inserted 111 9 (entry 111) refused)

ends : replaced.entries ≡ (9, entry 111) ∷ []
unfolding program
ends = refl

Run-IsBounded_example : IsBounded 1 replaced
Run-IsBounded_example = Run-IsBounded 1 10 replaced run

abbrev claimed : UdpReplyTable ℕ
claimed = record full { entries = [] }

claim : take_if 105 7 (λ e. e.destination == 5) full ≡ (claimed, some (entry 100))
unfolding program
claim = refl
