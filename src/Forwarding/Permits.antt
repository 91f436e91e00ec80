-- ===== src/Forwarding/Permits.antt =====
-- sievetube-edge/src/mesh/forward.rs: the stream budgets of `PermitTable`, for one of its two maps. A
-- semaphore stands at an address, which is the `Arc` that the map and the tasks share. It has its free
-- permits, and the clones of its `Arc` besides the map's: one for each task that waits for a permit and one
-- for each permit that is held. `acquire` waits, so it is two steps, and a task keeps the address that it
-- got in the first, whatever becomes of the map's entry.
pub mod Bounds
pub mod Limit
mod Tests
use sievetube.Prelude.{
  text_eq, nat_eq, ℕ, ◌+◌, ◌-◌, ◌≡◌, Text, ◌==◌, ◌&&◌, ltb, ◌||◌, Bool, true, false, Option, none,
  some, List, [], ◌∷◌, if◌then◌else◌,
}
use sievetube.Prelude.Maps.{Map, get, insert, retain}

pub record Semaphore : Type 0 where
  pub available : ℕ
  pub clones : ℕ

pub record PermitMap : Type 0 where
  pub entries : Map Text ℕ
  pub semaphores : ℕ → Semaphore
  pub next_address : ℕ

unfoldable pub new : PermitMap
new = record {
  entries = [];
  semaphores = λ i. record { available = 0; clones = 0 };
  next_address = 0;
}

unfoldable pub put : ℕ → Semaphore → PermitMap → PermitMap
put i s p = record p { semaphores = λ j. if i == j then s else p.semaphores j }

-- `acquire` up to where it waits, with the address of the clone.
unfoldable pub begin_wait : ℕ → Text → PermitMap → PermitMap × ℕ
begin_wait limit key p = elim (get key p.entries) [
  | some i ↦ let s = p.semaphores i in (put i (record s { clones = s.clones + 1 }) p, i)
  | none ↦ (
    put p.next_address (record { available = limit; clones = 1 })
        (record p {
          entries = insert key p.next_address p.entries;
          next_address = p.next_address + 1;
        }),
    p.next_address,
  )
]

-- The end of the wait: `none` while no permit is free.
unfoldable pub grant : ℕ → PermitMap → Option PermitMap
grant i p =
    let s = p.semaphores i in
    if s.available == 0 then none else some (put i (record s { available = s.available - 1 }) p)

-- The end of the wait at its deadline, which drops the clone.
unfoldable pub give_up : ℕ → PermitMap → PermitMap
give_up i p = let s = p.semaphores i in put i (record s { clones = s.clones - 1 }) p

-- The drop of a permit, which gives it back and drops its clone.
unfoldable pub release : ℕ → PermitMap → PermitMap
release i p =
    let s = p.semaphores i in
    put i (record { available = s.available + 1; clones = s.clones - 1 }) p

unfoldable pub in_use : ℕ → Semaphore → Bool
in_use limit s = ltb 0 s.clones || ltb s.available limit

unfoldable pub sweep : ℕ → PermitMap → PermitMap
sweep limit p = record p { entries = retain (λ i. in_use limit (p.semaphores i)) p.entries }

-- The tasks: the key that each asked for, and the address that it got.
abbrev pub Tasks : Type 0
Tasks = List (Text × ℕ)

-- How many ask for the key.
abbrev pub of_key : Text → Tasks → ℕ
of_key k [] = 0
of_key k ((j, i) ∷ xs) = (if j == k then 1 else 0) + of_key k xs

abbrev pub has : Text → ℕ → Tasks → Bool
has k a [] = false
has k a ((j, i) ∷ xs) = j == k && i == a || has k a xs

abbrev pub drop_one : Text → ℕ → Tasks → Tasks
drop_one k a [] = []
drop_one k a ((j, i) ∷ xs) = if j == k && i == a then xs else (j, i) ∷ drop_one k a xs

-- The steps of the tasks: which wait for a permit, and which hold one.
pub data Step (limit : ℕ) : PermitMap × (Tasks × Tasks) → PermitMap × (Tasks × Tasks) → Type 0 where
  waits :
      (k : Text) (p : PermitMap) (waiting held : Tasks)
      → Step limit
          (p, (waiting, held))
          ((begin_wait limit k p).0, ((k, (begin_wait limit k p).1) ∷ waiting, held))
  granted :
      (k : Text) (i : ℕ) (p q : PermitMap) (waiting held : Tasks)
      → has k i waiting ≡ true
      → grant i p ≡ some q
      → Step limit (p, (waiting, held)) (q, (drop_one k i waiting, (k, i) ∷ held))
  gives_up :
      (k : Text) (i : ℕ) (p : PermitMap) (waiting held : Tasks)
      → has k i waiting ≡ true
      → Step limit (p, (waiting, held)) (give_up i p, (drop_one k i waiting, held))
  releases :
      (k : Text) (i : ℕ) (p : PermitMap) (waiting held : Tasks)
      → has k i held ≡ true
      → Step limit (p, (waiting, held)) (release i p, (waiting, drop_one k i held))
  sweeps :
      (p : PermitMap) (waiting held : Tasks)
      → Step limit (p, (waiting, held)) (sweep limit p, (waiting, held))

pub data Run (limit : ℕ) : PermitMap × (Tasks × Tasks) → Type 0 where
  start : Run limit (new, ([], []))
  then_step : {s t : PermitMap × (Tasks × Tasks)} → Run limit s → Step limit s t → Run limit t
