-- ===== src/Dns/Challenges/Removal.antt =====
-- Nothing leaves the journal before it is gone.
use sievetube.Prelude.{
  text_eq, nat_eq, ℕ, zero, suc, ◌+◌, ◌*◌, min, leb, ◌≡◌, refl, sym, true, false, Option, none,
  some, List, ok, arith, Option-cases, Result-cases, Bool-cases, inl, inr,
}
use sievetube.Dns.{RecordType, RecordSet, Observed, ChangeTicket}
use sievetube.Dns.Challenges.{
  max_attempts, TxtHandle, txt_handle_eq, TxtWorld, TxtChallengeSolver, zone_provider,
  without_value, has_value, retry_delay,
}
use sievetube.Dns.Challenges.Waiting.{poll_synced, wait_synced}
use sievetube.Dns.Challenges.Taking.{TakesOut, Leaves, without_value-TakesOut, drop-Leaves}
use sievetube.Dns.Challenges.Solving.{
  journal_update, drop_handle, observed_set, attempt_change, remove_attempts, remove,
}
use sievetube.Dns.Challenges.Journal.{IsCalm, attempt_change-keeps, observed_set-keeps}

-- The set of what the provider reports.
abbrev pub set_of : Option Observed → Option RecordSet
set_of none = none
set_of (some o) = some o.set

module _ {V W : Type 0} (world : TxtWorld V W) (solver : TxtChallengeSolver V) (fuel : ℕ)
    (h : TxtHandle) where
  -- What makes `Good` and `Gone` properties that removing keeps, where `Asked` is that a change with this
  -- ticket is to take the value out: a change of the records may only take the value out of the set that it
  -- expects, and writing the journal without the handle asks for `Gone`, which only a set without the
  -- value, or a change that the provider reports as applied, brings about.
  pub record Removing (Good Gone : W → Type 0) (Asked : V → ChangeTicket → W → Type 0)
      : Type 0 where
    pub calm : IsCalm world Good
    pub weaken : (w : W) → Gone w → Good w
    pub absent :
        (v : V) (observed : Option Observed) (w : W)
        → Good w
        → (world.get v h.name RecordType.txt w).1 ≡ ok observed
        → has_value h.value (set_of observed) ≡ false
        → Gone (world.get v h.name RecordType.txt w).0
    pub changing :
        (v : V) (current : RecordSet) (desired : Option RecordSet) (w : W)
        → Good w
        → has_value h.value (some current) ≡ true
        → TakesOut h.value current desired
        → Good (world.replace v h.name RecordType.txt (some current) desired w).0
    pub submitted :
        (v : V) (t : ChangeTicket) (current : RecordSet) (desired : Option RecordSet) (w : W)
        → Good w
        → TakesOut h.value current desired
        → (world.replace v h.name RecordType.txt (some current) desired w).1 ≡ ok t
        → Asked v t (world.replace v h.name RecordType.txt (some current) desired w).0
    pub sleeping :
        (v : V) (t : ChangeTicket) (d : ℕ) (w : W) → Asked v t w → Asked v t (world.sleep d w)
    pub asking :
        (v : V) (t : ChangeTicket) (w : W) → Asked v t w → Asked v t (world.change_synced v t w).0
    pub synced :
        (v : V) (t : ChangeTicket) (w : W)
        → Asked v t w
        → (world.change_synced v t w).1 ≡ ok true
        → Gone (world.change_synced v t w).0
    pub locking : (w : W) → Gone w → Gone (world.lock_journal w).0
    pub filing :
        (entries kept : List TxtHandle) (w : W)
        → Gone w
        → world.read_journal w ≡ ok entries
        → Leaves h entries kept
        → Good (world.write_journal kept w).0

  poll_synced-Gone :
      {Good Gone : W → Type 0} {Asked : V → ChangeTicket → W → Type 0}
      (rules : Removing Good Gone Asked) (f : ℕ) (v : V) (t : ChangeTicket) (deadline delay : ℕ)
      (w : W)
      → Asked v t w
      → (poll_synced world f v t deadline delay w).1 ≡ ok tt
      → Gone (poll_synced world f v t deadline delay w).0
  unfolding poll_synced
  poll_synced-Gone rules zero v t deadline delay w a done = absurd (ground arith)
  poll_synced-Gone rules (suc f) v t deadline delay w a done =
      let asked = world.change_synced v t w in
      let still = rules.asking v t w a in
      elim (Result-cases asked.1) [
        | inr (e, failed) ↦ absurd (ground arith)
        | inl (synced, answered) ↦ elim (Bool-cases synced) [
          | inl yes_applied ↦ let gone = rules.synced v t w a (ground arith) in ground (arith, gone)
          | inr pending ↦ elim (Bool-cases (leb deadline (world.now asked.0))) [
            | inl late ↦ absurd (ground arith)
            | inr early ↦
                let rest =
                  poll_synced-Gone rules f v t deadline (min (delay * 2) 5000000000)
                    (world.sleep delay asked.0) (rules.sleeping v t delay asked.0 still)
                    (ground arith) in
                ground (arith, rest)
          ]
        ]
      ]

  attempt_change-Gone :
      {Good Gone : W → Type 0} {Asked : V → ChangeTicket → W → Type 0}
      (rules : Removing Good Gone Asked) (v : V) (attempt : ℕ) (current : RecordSet)
      (desired : Option RecordSet) (w : W)
      → Good w
      → TakesOut h.value current desired
      → (attempt_change world solver fuel v h.name attempt (some current) desired w).1
        ≡ some (ok tt)
      → Gone (attempt_change world solver fuel v h.name attempt (some current) desired w).0
  unfolding attempt_change wait_synced
  attempt_change-Gone rules v attempt current desired w g takes done =
      let replaced = world.replace v h.name RecordType.txt (some current) desired w in
      elim (Result-cases replaced.1) [
        | inl (t, made) ↦
            let gone =
              poll_synced-Gone rules fuel v t (world.now replaced.0 + solver.propagation_timeout)
                200000000 replaced.0 (rules.submitted v t current desired w g takes made)
                (ground arith) in
            ground (arith, gone)
        | inr (e, failed) ↦ elim (Option-cases (retry_delay e attempt)) [
          | inl final ↦ absurd (ground arith)
          | inr (delay, again) ↦ absurd (ground arith)
        ]
      ]

  observed_set-Gone :
      {Good Gone : W → Type 0} {Asked : V → ChangeTicket → W → Type 0}
      (rules : Removing Good Gone Asked) (v : V) (current : Option RecordSet) (w : W)
      → Good w
      → (observed_set world solver fuel v h.name w).1 ≡ ok current
      → has_value h.value current ≡ false
      → Gone (observed_set world solver fuel v h.name w).0
  unfolding observed_set
  observed_set-Gone rules v current w g found lacks =
      let read = world.get v h.name RecordType.txt w in
      elim (Result-cases read.1) [
        | inr (e, unread) ↦ absurd (ground arith)
        | inl (observed, answered) ↦ elim (Option-cases observed) [
          | inl missing ↦ rules.absent v observed w g answered (ground arith)
          | inr (o, there) ↦ elim (Option-cases o.unsupported) [
            | inr (reason, odd) ↦ absurd (ground arith)
            | inl fine ↦ rules.absent v observed w g answered (ground arith)
          ]
        ]
      ]

  remove_attempts-Gone :
      {Good Gone : W → Type 0} {Asked : V → ChangeTicket → W → Type 0}
      (rules : Removing Good Gone Asked) (left attempt : ℕ) (v : V) (w : W)
      → Good w
      → Good (remove_attempts world solver fuel left attempt v h w).0
        × ((remove_attempts world solver fuel left attempt v h w).1 ≡ ok tt
            → Gone (remove_attempts world solver fuel left attempt v h w).0)
  unfolding remove_attempts has_value
  remove_attempts-Gone rules zero attempt v w g = (g, λ done. absurd (ground arith))
  remove_attempts-Gone {Good} {Gone} rules (suc left) attempt v w g =
      let read = observed_set world solver fuel v h.name w in
      let seen = observed_set-keeps world solver fuel h Good v w rules.calm g in
      elim (Result-cases read.1) [
        | inr (e, unread) ↦ (ground (arith, seen), λ done. absurd (ground arith))
        | inl (observed, found) ↦ elim (Option-cases observed) [
          | inl missing ↦
              let gone =
                observed_set-Gone rules v none w g (rw (sym missing) found)
                  (unfold has_value in refl) in
              (ground (arith, seen), λ done. ground (arith, gone))
          | inr (current, set) ↦ elim (Bool-cases (has_value h.value (some current))) [
            | inr other ↦
                let gone =
                  observed_set-Gone rules v (some current) w g (rw (sym set) found) other in
                (ground (arith, seen), λ done. ground (arith, gone))
            | inl there ↦
                let desired = without_value h.value current in
                let takes = without_value-TakesOut h.value current in
                let tried =
                  attempt_change world solver fuel v h.name attempt (some current) desired read.0 in
                let kept =
                  attempt_change-keeps world solver fuel h Good v attempt (some current) desired
                    read.0 rules.calm (rules.changing v current desired read.0 seen there takes) in
                let rest = remove_attempts-Gone rules left (attempt + 1) v tried.0 kept in
                elim (Option-cases tried.1) [
                  | inl again ↦ (ground (arith, rest.0), λ done. ground (arith, rest.1))
                  | inr (result, ended) ↦ (
                    ground (arith, kept),
                    λ done.
                        let gone =
                          attempt_change-Gone rules v attempt current desired read.0 seen takes
                            (ground arith) in
                        ground (arith, gone),
                  )
                ]
          ]
        ]
      ]

  drop_handle-Leaves :
      (entries : List TxtHandle) → Leaves h entries (drop_handle world solver fuel h entries)
  unfolding drop_handle
  drop_handle-Leaves entries = drop-Leaves h entries

  journal_update-Good :
      {Good Gone : W → Type 0} {Asked : V → ChangeTicket → W → Type 0}
      (rules : Removing Good Gone Asked) (w : W)
      → Gone w
      → Good (journal_update world solver fuel (drop_handle world solver fuel h) w).0
  unfolding journal_update
  journal_update-Good {Good} {Gone} rules w gone =
      let locked = world.lock_journal w in
      let kept = rules.locking w gone in
      let good = rules.weaken locked.0 kept in
      elim (Result-cases locked.1) [
        | inr (e, refused) ↦ ground (arith, good)
        | inl (u, mine) ↦ elim (Result-cases (world.read_journal locked.0)) [
          | inr (e, corrupt) ↦ ground (arith, good)
          | inl (entries, found) ↦
              let left = drop_handle-Leaves entries in
              let written =
                rules.filing entries (drop_handle world solver fuel h entries) locked.0 kept found
                  left in
              ground (arith, written)
        ]
      ]

  -- Whatever properties the rules keep, under which the records are only changed by taking the
  -- value out of a set that has it, the other values kept, and the journal only loses the handle,
  -- when the value is gone, which only a set that was read without it, or a change that the
  -- provider reports as applied, brings about: removing a handle keeps them, however it ends.
  pub remove-Good :
      {Good Gone : W → Type 0} {Asked : V → ChangeTicket → W → Type 0}
      (rules : Removing Good Gone Asked) (w : W)
      → Good w
      → Good (remove world solver fuel h w).0
  unfolding remove
  remove-Good {Good} {Gone} rules w g = elim (Option-cases (zone_provider solver h.zone)) [
    | inl unknown ↦ ground (arith, g)
    | inr ((zone, v), found) ↦
        let removed = remove_attempts world solver fuel max_attempts 1 v h w in
        let (kept, gone) = remove_attempts-Gone rules max_attempts 1 v w g in
        elim (Result-cases removed.1) [
          | inr (e, failed) ↦ ground (arith, kept)
          | inl (u, done) ↦
              let dropped = journal_update-Good rules removed.0 (gone (ground arith)) in
              ground (arith, dropped)
        ]
  ]
