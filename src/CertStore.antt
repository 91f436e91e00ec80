-- ===== src/CertStore.antt =====
-- sievetube-edge/src/certificate_store.rs: the generations of one managed name. Validating a certificate
-- with its key is a parameter; which file operations fail is an argument of each call. Times are Unix
-- seconds. The store's lock makes `store` one step.
pub mod Generations
mod Tests
use sievetube.Prelude.{
  nat_eq, text_eq, ℕ, ◌+◌, ◌-◌, Text, ◌==◌, ltb, leb, ◌&&◌, not, max, Bool, true, false, Option,
  none, some, List, [], ◌∷◌, map, drop, Result, ok, err, if◌then◌else◌, select,
}
use sievetube.Prelude.Maps.{Map, get, insert, erase}
use sievetube.Bytes.{Bytes}

-- The PEM files of one generation.
pub record Stored : Type 0 where
  pub cert : Bytes
  pub key : Bytes

-- Of a validated certificate, what the store reads and sets.
pub record CertEntry : Type 0 where
  pub generation : Option ℕ
  pub not_before : ℕ
  pub not_after : ℕ

-- The directory of a name: the `current` pointer and the complete generations.
pub record NameDir : Type 0 where
  pub current : Option ℕ
  pub generations : Map ℕ Stored

pub data StoreError : Type 0 where
  invalid cannot_lock cannot_read stale exists cannot_write cannot_switch : StoreError

-- Which operations of a call fail; `stays` is that a pruned directory cannot be removed.
pub record Faults : Type 0 where
  pub lock_fails : Bool
  pub read_fails : Bool
  pub list_fails : Bool
  pub write_fails : Bool
  pub switch_fails : Bool
  pub stays : ℕ → Bool

abbrev pub kept_generations : ℕ
kept_generations = 3

unfoldable pub current_generation : Faults → NameDir → Result StoreError (Option ℕ)
current_generation f d = if f.read_fails then err cannot_read else ok d.current

unfoldable pub insert_descending : ℕ → List ℕ → List ℕ
insert_descending g [] = g ∷ []
insert_descending g (h ∷ hs) =
    let rest = insert_descending g hs in if leb h g then g ∷ h ∷ hs else h ∷ rest

unfoldable pub sort_descending : List ℕ → List ℕ
sort_descending [] = []
sort_descending (g ∷ gs) = insert_descending g (sort_descending gs)

unfoldable pub generations : Faults → NameDir → Result StoreError (List ℕ)
generations f d =
    if f.list_fails then err cannot_read else ok (sort_descending (map (λ e. e.0) d.generations))

unfoldable pub newest : List ℕ → ℕ
newest [] = 0
newest (g ∷ gs) = g

unfoldable pub or_zero : Option ℕ → ℕ
or_zero none = 0
or_zero (some g) = g

unfoldable pub next_generation : Faults → NameDir → Result StoreError ℕ
next_generation f d = elim (generations f d) [
  | err e ↦ err e
  | ok gs ↦ elim (current_generation f d) [
    | err e ↦ err e
    | ok current ↦ ok (max (newest gs) (or_zero current) + 1)
  ]
]

-- The loop of `prune`.
unfoldable pub remove_generations : Faults → List ℕ → NameDir → NameDir
remove_generations f [] d = d
remove_generations f (g ∷ gs) d =
    remove_generations f gs
      (if f.stays g then d else record d { generations = erase g d.generations })

unfoldable pub prune : Faults → ℕ → NameDir → NameDir
prune f active d = elim (generations f d) [
  | err e ↦ d
  | ok gs ↦ remove_generations f (drop (kept_generations - 1) (select (λ g. ltb g active) gs)) d
]

-- `current` is not newer than this generation.
unfoldable pub is_stale : ℕ → Option ℕ → Bool
is_stale generation none = false
is_stale generation (some current) = leb generation current

unfoldable pub is_there : ℕ → NameDir → Bool
is_there generation d = elim (get generation d.generations) [ none ↦ false | some s ↦ true ]

module _ (parse : Stored → ℕ → Option CertEntry) where
  -- The part of `store` under the lock.
  unfoldable pub store_locked :
      Faults → ℕ → Stored → CertEntry → NameDir → NameDir × Result StoreError CertEntry
  store_locked f generation files entry d = elim (current_generation f d) [
    | err e ↦ (d, err e)
    | ok current ↦
        let written = record d { generations = insert generation files d.generations } in
        if is_stale generation current
        then (d, err stale)
        else if is_there generation d
        then (d, err exists)
        else if f.write_fails
        then (d, err cannot_write)
        else if f.switch_fails
        then (written, err cannot_switch)
        else (
          prune f generation (record written { current = some generation }),
          ok (record entry { generation = some generation }),
        )
  ]

  unfoldable pub store : Faults → ℕ → Stored → ℕ → NameDir → NameDir × Result StoreError CertEntry
  store f generation files now d = elim (parse files now) [
    | none ↦ (d, err invalid)
    | some entry ↦
        if f.lock_fails then (d, err cannot_lock) else store_locked f generation files entry d
  ]

  unfoldable pub load_generation : ℕ → ℕ → NameDir → Option CertEntry
  load_generation generation now d = elim (get generation d.generations) [
    | none ↦ none
    | some files ↦ elim (parse files now) [
      | none ↦ none
      | some entry ↦ some (record entry { generation = some generation })
    ]
  ]

  -- The loop of `load_current`.
  unfoldable pub first_usable : List ℕ → ℕ → NameDir → Option CertEntry
  first_usable [] now d = none
  first_usable (g ∷ gs) now d = elim (load_generation g now d) [
    | some entry ↦ some entry
    | none ↦ first_usable gs now d
  ]

  unfoldable pub load_current : Faults → ℕ → NameDir → Result StoreError (Option CertEntry)
  load_current f now d = elim (current_generation f d) [
    | err e ↦ err e
    | ok current ↦ elim current [
      | none ↦ ok none
      | some c ↦ elim (generations f d) [
        | err e ↦ err e
        | ok gs ↦ ok (first_usable (select (λ g. leb g c) gs) now d)
      ]
    ]
  ]
