-- ===== src/Policy/Slots.antt =====
-- `acquire` and `release`: the counters of concurrent TCP connections.
use mathlib.Core.Option
use sievetube.Prelude.{
  nat_eq, ℕ, ◌+◌, ◌-◌, ◌≡◌, leb, ltb, Bool, true, false, none, some, ◌&&◌, ◌==◌, if◌then◌else◌,
  arith, Option-cases, inl, inr,
}
use sievetube.Prelude.Maps.{Map, get, insert, erase, get-insert, get-erase}

-- The map, and whether a slot was taken. `or_insert(0)` stores a count also where none is taken.
unfoldable pub acquire : Map ℕ ℕ → ℕ → ℕ → Map ℕ ℕ × Bool
acquire m key limit =
    let count = Option.get_or (get key m) 0 in
    if leb limit count then (insert key count m, false) else (insert key (count + 1) m, true)

unfoldable pub release : Map ℕ ℕ → ℕ → Map ℕ ℕ
release m key = elim (get key m) [
  | none ↦ m
  | some count ↦ if count - 1 == 0 then erase key m else insert key (count - 1) m
]

-- The number of slots taken under a key.
abbrev pub taken : Map ℕ ℕ → ℕ → ℕ
taken m key = Option.get_or (get key m) 0

-- A slot is granted exactly while fewer than the limit are taken; a grant counts one more under its
-- key, a refusal none, and no other key's count changes.
pub taken-acquire :
    (m : Map ℕ ℕ) (key limit j : ℕ)
    → ((acquire m key limit).1 ≡ ltb (taken m key) limit)
      × (taken (acquire m key limit).0 j
          ≡ taken m j + (if key == j && ltb (taken m key) limit then 1 else 0))
unfolding acquire
taken-acquire m key limit j = (
  ground arith,
  ground (arith, get-insert key j (taken m key) m, get-insert key j (taken m key + 1) m),
)

pub taken-release :
    (m : Map ℕ ℕ) (key j : ℕ) → taken (release m key) j ≡ taken m j - (if key == j then 1 else 0)
unfolding release
taken-release m key j = elim (Option-cases (get key m)) [
  | inl absent ↦ ground (arith)
  | inr (count, present) ↦ ground (arith, get-erase key j m, get-insert key j (count - 1) m)
]

-- A slot that is granted and released leaves every count as it was.
pub release-acquire :
    (m : Map ℕ ℕ) (key limit j : ℕ)
    → (acquire m key limit).1 ≡ true
    → taken (release (acquire m key limit).0 key) j ≡ taken m j
release-acquire m key limit j granted =
    let (test, counts) = taken-acquire m key limit j in
    ground (arith, taken-release (acquire m key limit).0 key j)
