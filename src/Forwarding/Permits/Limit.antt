-- ===== src/Forwarding/Permits/Limit.antt =====
-- sievetube-edge/src/mesh/forward.rs: the steps of `PermitTable` keep the count of its permits.
use sievetube.Prelude.{
  subst, sym, text_eq, nat_eq, ℕ, ◌+◌, ◌-◌, ◌≤◌, ◌<◌, ◌≡◌, refl, Text, ◌==◌, ==_refl, ltb, Bool,
  true, false, none, some, ◌∷◌, arith, Option-cases, Bool-cases, inl, inr,
}
use sievetube.Prelude.Maps.{get, insert, get-insert, get-retain, insert-Distinct, retain-Distinct}
use sievetube.Prelude.Predicates.{All}
use sievetube.Forwarding.Permits.{
  Semaphore, PermitMap, new, put, begin_wait, grant, give_up, release, in_use, sweep, Tasks, of_key,
  has, drop_one, Step, Run, waits, granted, gives_up, releases, sweeps, start, then_step,
}
use sievetube.Forwarding.Permits.Bounds.{
  uses, IsAt, IsCounted, uses-drop_one, drop_one-All, has-IsAt, All-used, uses-fresh,
  of_key-le-uses, of_key-absent, put-IsCounted,
}

drop_one-same :
    (k : Text) (i : ℕ) (xs : Tasks) → has k i xs ≡ true → uses i (drop_one k i xs) + 1 ≡ uses i xs
drop_one-same k i xs h = ground (arith, uses-drop_one k i i xs h, ==_refl i)

drop_one-other :
    (k : Text) (i j : ℕ) (xs : Tasks)
    → has k i xs ≡ true
    → (i == j) ≡ false
    → uses j (drop_one k i xs) ≡ uses j xs
drop_one-other k i j xs h other = ground (arith, uses-drop_one k i j xs h)

abbrev begin_fresh : ℕ → Text → PermitMap → PermitMap × ℕ
begin_fresh limit k p = (
  put p.next_address (record { available = limit; clones = 1 })
      (record p { entries = insert k p.next_address p.entries; next_address = p.next_address + 1 }),
  p.next_address,
)

-- A semaphore that is new in the map, for the first task of its key.
fresh-IsCounted :
    (limit : ℕ) (k : Text) (p : PermitMap) (waiting held : Tasks)
    → get k p.entries ≡ none
    → IsCounted limit p waiting held
    → IsCounted limit (begin_fresh limit k p).0 ((k, (begin_fresh limit k p).1) ∷ waiting) held
unfolding put
fresh-IsCounted limit k p waiting held missing c =
    let n = p.next_address in
    let no_wait = uses-fresh p.entries n waiting c.below c.waiting_at in
    let no_hold = uses-fresh p.entries n held c.below c.held_at in
    let kept : (xs : Tasks) → All (IsAt p.entries) xs → All (IsAt (insert k n p.entries)) xs =
      λ xs a.
        All-used (IsAt p.entries) (IsAt (insert k n p.entries)) xs
          (λ t used at. ground (arith, get-insert k t.0 n p.entries, at, missing)) a in
    record {
      distinct = insert-Distinct k n p.entries c.distinct;
      below = λ l i found. elim (Bool-cases (k == l)) [
        | inl same ↦ ground (arith, get-insert k l n p.entries, found)
        | inr other ↦
            let old = c.below l i (ground (arith, get-insert k l n p.entries, found)) in
            omega (arith, old)
      ];
      free = λ i old. elim (Bool-cases (n == i)) [
        | inl same ↦ ground (arith, no_hold)
        | inr other ↦ let older : i < n = ground (arith, old) in ground (arith, c.free i older)
      ];
      cloned = λ i old. elim (Bool-cases (n == i)) [
        | inl same ↦ ground (arith, no_hold, no_wait)
        | inr other ↦ let older : i < n = ground (arith, old) in ground (arith, c.cloned i older)
      ];
      waiting_at =
          (ground (arith, get-insert k k n p.entries, ==_refl k), kept waiting c.waiting_at);
      held_at = kept held c.held_at;
    }

begin_wait-IsCounted :
    (limit : ℕ) (k : Text) (p : PermitMap) (waiting held : Tasks)
    → IsCounted limit p waiting held
    → IsCounted limit (begin_wait limit k p).0 ((k, (begin_wait limit k p).1) ∷ waiting) held
unfolding begin_wait
begin_wait-IsCounted limit k p waiting held c =
    let Kept : PermitMap × ℕ → Type 0 = λ z. IsCounted limit z.0 ((k, z.1) ∷ waiting) held in
    elim (Option-cases (get k p.entries)) [
      | inl missing ↦
          let same : begin_wait limit k p ≡ begin_fresh limit k p = ground (arith, missing) in
          subst Kept (sym same) (fresh-IsCounted limit k p waiting held missing c)
      | inr (i, found) ↦
          let s = p.semaphores i in
          let t : Semaphore = record s { clones = s.clones + 1 } in
          let old = c.below k i found in
          let same : begin_wait limit k p ≡ (put i t p, i) = ground (arith, found) in
          subst Kept (sym same) (
            put-IsCounted limit i t p waiting held ((k, i) ∷ waiting) held c (c.free i old)
              (ground (arith, c.cloned i old, ==_refl i)) (λ j other. ground arith)
              (λ j other. refl) (found, c.waiting_at) c.held_at)
    ]

grant-IsCounted :
    (limit : ℕ) (k : Text) (i : ℕ) (p q : PermitMap) (waiting held : Tasks)
    → IsCounted limit p waiting held
    → has k i waiting ≡ true
    → grant i p ≡ some q
    → IsCounted limit q (drop_one k i waiting) ((k, i) ∷ held)
unfolding grant
grant-IsCounted limit k i p q waiting held c some_wait got =
    let s = p.semaphores i in
    let t : Semaphore = record s { available = s.available - 1 } in
    let found = has-IsAt p.entries k i waiting some_wait c.waiting_at in
    let old = c.below k i found in
    let same : put i t p ≡ q = ground (arith, got) in
    let some_free : 1 ≤ s.available = ground (arith, got) in
    let one = ==_refl i in
    subst (λ z. IsCounted limit z (drop_one k i waiting) ((k, i) ∷ held)) same
      (put-IsCounted limit i t p waiting held (drop_one k i waiting) ((k, i) ∷ held) c
        (ground (arith, c.free i old, some_free, one))
        (ground (arith, c.cloned i old, drop_one-same k i waiting some_wait, one))
        (λ j other. drop_one-other k i j waiting some_wait other) (λ j other. ground arith)
        (drop_one-All (IsAt p.entries) k i waiting c.waiting_at) (found, c.held_at))

give_up-IsCounted :
    (limit : ℕ) (k : Text) (i : ℕ) (p : PermitMap) (waiting held : Tasks)
    → IsCounted limit p waiting held
    → has k i waiting ≡ true
    → IsCounted limit (give_up i p) (drop_one k i waiting) held
unfolding give_up
give_up-IsCounted limit k i p waiting held c some_wait =
    let s = p.semaphores i in
    let old = c.below k i (has-IsAt p.entries k i waiting some_wait c.waiting_at) in
    put-IsCounted limit i (record s { clones = s.clones - 1 }) p waiting held (drop_one k i waiting)
      held c (c.free i old) (ground (arith, c.cloned i old, drop_one-same k i waiting some_wait))
      (λ j other. drop_one-other k i j waiting some_wait other) (λ j other. refl)
      (drop_one-All (IsAt p.entries) k i waiting c.waiting_at) c.held_at

release-IsCounted :
    (limit : ℕ) (k : Text) (i : ℕ) (p : PermitMap) (waiting held : Tasks)
    → IsCounted limit p waiting held
    → has k i held ≡ true
    → IsCounted limit (release i p) waiting (drop_one k i held)
unfolding release
release-IsCounted limit k i p waiting held c holds =
    let s = p.semaphores i in
    let old = c.below k i (has-IsAt p.entries k i held holds c.held_at) in
    let fewer = drop_one-same k i held holds in
    put-IsCounted limit i (record { available = s.available + 1; clones = s.clones - 1 }) p waiting
      held waiting (drop_one k i held) c (ground (arith, c.free i old, fewer))
      (ground (arith, c.cloned i old, fewer)) (λ j other. refl)
      (λ j other. drop_one-other k i j held holds other) c.waiting_at
      (drop_one-All (IsAt p.entries) k i held c.held_at)

-- The entry of a semaphore that a task has stays in the map.
sweep-IsAt :
    (limit : ℕ) (p : PermitMap) (waiting held : Tasks) (t : Text × ℕ)
    → IsCounted limit p waiting held
    → 1 ≤ uses t.1 waiting + uses t.1 held
    → IsAt p.entries t
    → IsAt (sweep limit p).entries t
unfolding sweep in_use
sweep-IsAt limit p waiting held (k, i) c used at =
    let counted = c.cloned i (c.below k i at) in
    let busy : ltb 0 (p.semaphores i).clones ≡ true = ground (arith, counted, used) in
    ground (arith, get-retain (λ j. in_use limit (p.semaphores j)) k p.entries c.distinct, at, busy)

sweep-IsCounted :
    (limit : ℕ) (p : PermitMap) (waiting held : Tasks)
    → IsCounted limit p waiting held
    → IsCounted limit (sweep limit p) waiting held
sweep-IsCounted limit p waiting held c =
    let test : ℕ → Bool = λ j. in_use limit (p.semaphores j) in
    record {
      distinct = unfold sweep in retain-Distinct test p.entries c.distinct;
      below =
          unfold sweep in
          λ k i found. c.below k i (ground (arith, get-retain test k p.entries c.distinct, found));
      free = unfold sweep in c.free;
      cloned = unfold sweep in c.cloned;
      waiting_at =
          All-used (IsAt p.entries) (IsAt (sweep limit p).entries) waiting
            (λ t used at. sweep-IsAt limit p waiting held t c (omega (arith, used)) at)
            c.waiting_at;
      held_at =
          All-used (IsAt p.entries) (IsAt (sweep limit p).entries) held
            (λ t used at. sweep-IsAt limit p waiting held t c (omega (arith, used)) at) c.held_at;
    }

abbrev Counted : ℕ → PermitMap × (Tasks × Tasks) → Type 0
Counted limit s = IsCounted limit s.0 s.1.0 s.1.1

Step-Counted :
    {limit : ℕ} {s t : PermitMap × (Tasks × Tasks)}
    → Step limit s t
    → Counted limit s
    → Counted limit t
Step-Counted {limit} (waits k p waiting held) c = begin_wait-IsCounted limit k p waiting held c
Step-Counted {limit} (granted k i p q waiting held some_wait got) c =
    grant-IsCounted limit k i p q waiting held c some_wait got
Step-Counted {limit} (gives_up k i p waiting held some_wait) c =
    give_up-IsCounted limit k i p waiting held c some_wait
Step-Counted {limit} (releases k i p waiting held holds) c =
    release-IsCounted limit k i p waiting held c holds
Step-Counted {limit} (sweeps p waiting held) c = sweep-IsCounted limit p waiting held c

Run-Counted : {limit : ℕ} {s : PermitMap × (Tasks × Tasks)} → Run limit s → Counted limit s
unfolding new get
Run-Counted start = record {
  distinct = tt;
  below = λ k i found. absurd (ground arith);
  free = λ i old. absurd (omega (arith, old));
  cloned = λ i old. absurd (omega (arith, old));
  waiting_at = tt;
  held_at = tt;
}
Run-Counted (then_step run step) = Step-Counted step (Run-Counted run)

-- From an empty map, however tasks begin to wait for permits, each keeping its clone of the
-- semaphore, get them, give up and release them, and however often the map is swept meanwhile: the
-- tasks that hold a permit for one key at a time are at most the limit.
pub held-le-limit :
    {limit : ℕ} {p : PermitMap} {waiting held : Tasks}
    → Run limit (p, (waiting, held))
    → (k : Text) → of_key k held ≤ limit
held-le-limit {limit} {p} {waiting} {held} run k =
    let c = Run-Counted run in
    elim (Option-cases (get k p.entries)) [
      | inl missing ↦
          let nobody = of_key-absent p.entries k held missing c.held_at in omega (arith, nobody)
      | inr (i, found) ↦
          let fewer = of_key-le-uses p.entries k i held found c.held_at in
          let free = c.free i (c.below k i found) in omega (arith, fewer, free)
    ]
