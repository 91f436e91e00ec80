-- ===== src/Dns/Challenges/Journal.antt =====
-- Nothing is published that is not in the journal.
use sievetube.Prelude.{
  text_eq, nat_eq, ℕ, zero, suc, ◌+◌, ◌*◌, ◌≡◌, refl, min, Text, true, false, Option, some, List,
  [], ◌∷◌, ◌++◌, ok, contains, arith, Option-cases, Result-cases, Bool-cases, inl, inr,
}
use sievetube.Dns.{RecordType, RecordSet, ChangeTicket}
use sievetube.Dns.Challenges.{
  max_attempts, TxtHandle, txt_handle_eq, TxtWorld, TxtChallengeSolver, with_value, has_value,
  retry_delay,
}
use sievetube.Dns.Challenges.Waiting.{poll_synced, wait_synced}
use sievetube.Dns.Challenges.Solving.{
  journal_update, note_handle, observed_set, attempt_change, add_attempts, publish,
}

contains-last : (entries : List TxtHandle) (h : TxtHandle) → contains (entries ++ h ∷ []) h ≡ true
contains-last [] h = ground arith
contains-last (x ∷ xs) h = ground (arith, contains-last xs h)

module _ {V W : Type 0} (world : TxtWorld V W) where
  -- What sleeping, reading and asking for the state of a change keep.
  pub record IsCalm (P : W → Type 0) : Type 0 where
    pub sleeping : (d : ℕ) (w : W) → P w → P (world.sleep d w)
    pub asking : (v : V) (t : ChangeTicket) (w : W) → P w → P (world.change_synced v t w).0
    pub reading : (v : V) (n : Text) (r : RecordType) (w : W) → P w → P (world.get v n r w).0

  poll_synced-keeps :
      (P : W → Type 0) (fuel : ℕ) (v : V) (t : ChangeTicket) (deadline delay : ℕ) (w : W)
      → IsCalm P
      → P w
      → P (poll_synced world fuel v t deadline delay w).0
  unfolding poll_synced
  poll_synced-keeps P zero v t deadline delay w calm p = p
  poll_synced-keeps P (suc fuel) v t deadline delay w calm p =
      let asked = world.change_synced v t w in
      let kept = calm.asking v t w p in
      let rest =
        poll_synced-keeps P fuel v t deadline (min (delay * 2) 5000000000)
          (world.sleep delay asked.0) calm (calm.sleeping delay asked.0 kept) in
      ground (arith, kept, rest)

  module _ (solver : TxtChallengeSolver V) (fuel : ℕ) (h : TxtHandle) where
    -- What makes `Good` and `Journaled` properties that publishing keeps: a change of the records asks for
    -- `Journaled`, which only writing the journal with the handle in it brings about, and may only add
    -- the value to the set that it expects.
    pub record Publishing (Good Journaled : W → Type 0) : Type 0 where
      pub calm : IsCalm Journaled
      pub weaken : (w : W) → Journaled w → Good w
      pub locking : (w : W) → Good w → Good (world.lock_journal w).0
      pub writing :
          (entries : List TxtHandle) (w : W)
          → Good w
          → contains entries h ≡ true
          → Good (world.write_journal entries w).0
      pub filing :
          (entries : List TxtHandle) (w : W)
          → Good w
          → contains entries h ≡ true
          → (world.write_journal entries w).1 ≡ ok tt
          → Journaled (world.write_journal entries w).0
      pub changing :
          (v : V) (current : Option RecordSet) (w : W)
          → Journaled w
          → has_value h.value current ≡ false
          → Journaled
              (world.replace v h.name RecordType.txt current
                (some (with_value h.name solver.ttl h.value current))
                w).0

    pub attempt_change-keeps :
        (P : W → Type 0) (v : V) (attempt : ℕ) (expected desired : Option RecordSet) (w : W)
        → IsCalm P
        → P (world.replace v h.name RecordType.txt expected desired w).0
        → P (attempt_change world solver fuel v h.name attempt expected desired w).0
    unfolding attempt_change wait_synced
    attempt_change-keeps P v attempt expected desired w calm p =
        let replaced = world.replace v h.name RecordType.txt expected desired w in
        elim (Result-cases replaced.1) [
          | inl (ticket, made) ↦
              let kept =
                poll_synced-keeps P fuel v ticket
                  (world.now replaced.0 + solver.propagation_timeout) 200000000 replaced.0 calm p in
              ground (arith, kept)
          | inr (e, failed) ↦ elim (Option-cases (retry_delay e attempt)) [
            | inl final ↦ ground (arith, p)
            | inr (delay, again) ↦
                let kept = calm.sleeping delay replaced.0 p in ground (arith, kept)
          ]
        ]

    pub observed_set-keeps :
        (P : W → Type 0) (v : V) (w : W)
        → IsCalm P
        → P w
        → P (observed_set world solver fuel v h.name w).0
    unfolding observed_set
    observed_set-keeps P v w calm p = calm.reading v h.name RecordType.txt w p

    add_attempts-Journaled :
        {Good Journaled : W → Type 0} (rules : Publishing Good Journaled) (left attempt : ℕ) (v : V)
        (w : W)
        → Journaled w
        → Journaled (add_attempts world solver fuel left attempt v h w).0
    unfolding add_attempts
    add_attempts-Journaled rules zero attempt v w j = j
    add_attempts-Journaled {Good} {Journaled} rules (suc left) attempt v w j =
        let read = observed_set world solver fuel v h.name w in
        let seen = observed_set-keeps Journaled v w rules.calm j in
        elim (Result-cases read.1) [
          | inr (e, unread) ↦ ground (arith, seen)
          | inl (current, found) ↦ elim (Bool-cases (has_value h.value current)) [
            | inl there ↦ ground (arith, seen)
            | inr absent ↦
                let desired : Option RecordSet =
                  some (with_value h.name solver.ttl h.value current) in
                let tried =
                  attempt_change world solver fuel v h.name attempt current desired read.0 in
                let kept =
                  attempt_change-keeps Journaled v attempt current desired read.0 rules.calm
                    (rules.changing v current read.0 seen absent) in
                let rest = add_attempts-Journaled rules left (attempt + 1) v tried.0 kept in
                ground (arith, kept, rest)
          ]
        ]

    note_handle-contains :
        (entries : List TxtHandle) → contains (note_handle world solver fuel h entries) h ≡ true
    unfolding note_handle
    note_handle-contains entries = elim (Bool-cases (contains entries h)) [
      | inl there ↦ rw (there, there) refl
      | inr absent ↦ rw absent (contains-last entries h)
    ]

    journal_update-Journaled :
        {Good Journaled : W → Type 0} (rules : Publishing Good Journaled) (w : W)
        → Good w
        → Good (journal_update world solver fuel (note_handle world solver fuel h) w).0
          × ((journal_update world solver fuel (note_handle world solver fuel h) w).1 ≡ ok tt
              → Journaled (journal_update world solver fuel (note_handle world solver fuel h) w).0)
    unfolding journal_update
    journal_update-Journaled {Good} {Journaled} rules w g =
        let locked = world.lock_journal w in
        let kept = rules.locking w g in
        elim (Result-cases locked.1) [
          | inr (e, refused) ↦ (ground (arith, kept), λ noted. absurd (ground arith))
          | inl (u, mine) ↦ elim (Result-cases (world.read_journal locked.0)) [
            | inr (e, corrupt) ↦ (ground (arith, kept), λ noted. absurd (ground arith))
            | inl (entries, found) ↦
                let noted = note_handle world solver fuel h entries in
                let written = rules.writing noted locked.0 kept (note_handle-contains entries) in
                (
                  ground (arith, written),
                  λ done.
                      let filed =
                        rules.filing noted locked.0 kept (note_handle-contains entries)
                          (ground arith) in
                      ground (arith, filed),
                )
          ]
        ]

    pub publish-Journaled :
        {Good Journaled : W → Type 0} (rules : Publishing Good Journaled) (v : V) (w : W)
        → Good w
        → Good (publish world solver fuel v h w).0
          × ((publish world solver fuel v h w).1 ≡ ok tt
              → Journaled (publish world solver fuel v h w).0)
    unfolding publish
    publish-Journaled {Good} {Journaled} rules v w g =
        let noted = journal_update world solver fuel (note_handle world solver fuel h) w in
        let (kept, filed) = journal_update-Journaled rules w g in
        elim (Result-cases noted.1) [
          | inr (e, failed) ↦ (ground (arith, kept), λ done. absurd (ground arith))
          | inl (u, written) ↦
              let j =
                add_attempts-Journaled rules max_attempts 1 v noted.0 (filed (ground arith)) in
              let good =
                rules.weaken (add_attempts world solver fuel max_attempts 1 v h noted.0).0 j in
              (ground (arith, good), λ done. ground (arith, j))
        ]
