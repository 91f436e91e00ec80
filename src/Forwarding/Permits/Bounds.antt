-- ===== src/Forwarding/Permits/Bounds.antt =====
-- sievetube-edge/src/mesh/forward.rs: how the semaphores of `PermitTable` count the tasks that have a clone.
use sievetube.Prelude.{
  text_eq, nat_eq, ℕ, ◌+◌, ◌≤◌, ◌<◌, ◌≡◌, refl, Text, ◌==◌, ==_refl, ◌&&◌, true, false, none, some,
  [], ◌∷◌, if◌then◌else◌, arith, Bool-cases, inl, inr,
}
use sievetube.Prelude.Maps.{Map, get, Distinct}
use sievetube.Prelude.Predicates.{All}
use sievetube.Forwarding.Permits.{Semaphore, PermitMap, put, Tasks, of_key, has, drop_one}

-- How many tasks have a clone of the semaphore at an address.
abbrev pub uses : ℕ → Tasks → ℕ
uses a [] = 0
uses a ((j, i) ∷ xs) = (if i == a then 1 else 0) + uses a xs

-- The map has the address of the task under its key.
abbrev pub IsAt : Map Text ℕ → Text × ℕ → Type 0
IsAt m t = get t.0 m ≡ some t.1

-- Each semaphore counts its tasks, and the map has the semaphore of each task.
pub record IsCounted (limit : ℕ) (p : PermitMap) (waiting held : Tasks) : Type 0 where
  pub distinct : Distinct p.entries
  pub below : (k : Text) (i : ℕ) → get k p.entries ≡ some i → i < p.next_address
  pub free : (i : ℕ) → i < p.next_address → (p.semaphores i).available + uses i held ≡ limit
  pub cloned : (i : ℕ) → i < p.next_address → (p.semaphores i).clones ≡ uses i waiting + uses i held
  pub waiting_at : All (IsAt p.entries) waiting
  pub held_at : All (IsAt p.entries) held

pub uses-drop_one :
    (k : Text) (i a : ℕ) (xs : Tasks)
    → has k i xs ≡ true
    → uses a xs ≡ uses a (drop_one k i xs) + (if i == a then 1 else 0)
uses-drop_one k i a [] h = absurd (ground arith)
uses-drop_one k i a ((l, j) ∷ xs) h = elim (Bool-cases (l == k && j == i)) [
  | inl here ↦ ground arith
  | inr later ↦ let rest = uses-drop_one k i a xs (ground arith) in ground (arith, rest)
]

pub drop_one-All :
    (P : Text × ℕ → Type 0) (k : Text) (i : ℕ) (xs : Tasks) → All P xs → All P (drop_one k i xs)
drop_one-All P k i [] a = tt
drop_one-All P k i ((l, j) ∷ xs) a = elim (Bool-cases (l == k && j == i)) [
  | inl here ↦ rw here a.1
  | inr later ↦ rw later (a.0, drop_one-All P k i xs a.1)
]

pub has-IsAt :
    (m : Map Text ℕ) (k : Text) (i : ℕ) (xs : Tasks)
    → has k i xs ≡ true
    → All (IsAt m) xs
    → get k m ≡ some i
has-IsAt m k i [] h a = absurd (ground arith)
has-IsAt m k i ((l, j) ∷ xs) h a = elim (Bool-cases (l == k && j == i)) [
  | inl here ↦ ground (arith, a.0)
  | inr later ↦ has-IsAt m k i xs (ground arith) a.1
]

pub All-used :
    (P Q : Text × ℕ → Type 0) (xs : Tasks)
    → ((t : Text × ℕ) → 1 ≤ uses t.1 xs → P t → Q t)
    → All P xs
    → All Q xs
All-used P Q [] f a = tt
All-used P Q ((l, j) ∷ xs) f a = (
  f (l, j) (ground (arith, ==_refl j)) a.0,
  All-used P Q xs (λ t used p. f t (ground (arith, used)) p) a.1,
)

pub uses-fresh :
    (m : Map Text ℕ) (n : ℕ) (xs : Tasks)
    → ((k : Text) (i : ℕ) → get k m ≡ some i → i < n)
    → All (IsAt m) xs
    → uses n xs ≡ 0
uses-fresh m n [] below a = refl
uses-fresh m n ((l, j) ∷ xs) below a =
    let older = below l j a.0 in
    let rest = uses-fresh m n xs below a.1 in ground (arith, older, rest)

pub of_key-le-uses :
    (m : Map Text ℕ) (k : Text) (i : ℕ) (xs : Tasks)
    → get k m ≡ some i
    → All (IsAt m) xs
    → of_key k xs ≤ uses i xs
of_key-le-uses m k i [] found a = omega arith
of_key-le-uses m k i ((l, j) ∷ xs) found a =
    let rest = of_key-le-uses m k i xs found a.1 in ground (arith, rest, a.0)

pub of_key-absent :
    (m : Map Text ℕ) (k : Text) (xs : Tasks) → get k m ≡ none → All (IsAt m) xs → of_key k xs ≡ 0
of_key-absent m k [] missing a = refl
of_key-absent m k ((l, j) ∷ xs) missing a =
    let rest = of_key-absent m k xs missing a.1 in ground (arith, rest, a.0)

-- A step that changes one semaphore only, and the tasks at it.
pub put-IsCounted :
    (limit : ℕ) (i : ℕ) (s : Semaphore) (p : PermitMap) (waiting held waiting' held' : Tasks)
    → IsCounted limit p waiting held
    → s.available + uses i held' ≡ limit
    → s.clones ≡ uses i waiting' + uses i held'
    → ((j : ℕ) → (i == j) ≡ false → uses j waiting' ≡ uses j waiting)
    → ((j : ℕ) → (i == j) ≡ false → uses j held' ≡ uses j held)
    → All (IsAt p.entries) waiting'
    → All (IsAt p.entries) held'
    → IsCounted limit (put i s p) waiting' held'
unfolding put
put-IsCounted limit i s p waiting held waiting' held' c free cloned others_wait others_hold at_w
      at_h =
    record {
      distinct = c.distinct;
      below = c.below;
      free = λ j old. elim (Bool-cases (i == j)) [
        | inl same ↦ ground (arith, free)
        | inr other ↦ ground (arith, c.free j old, others_hold j other)
      ];
      cloned = λ j old. elim (Bool-cases (i == j)) [
        | inl same ↦ ground (arith, cloned)
        | inr other ↦ ground (arith, c.cloned j old, others_wait j other, others_hold j other)
      ];
      waiting_at = at_w;
      held_at = at_h;
    }
