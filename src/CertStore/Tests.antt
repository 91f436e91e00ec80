-- ===== src/CertStore/Tests.antt =====
-- A directory with one generation, and the theorems at it.
use sievetube.Prelude.{
  nat_eq, text_eq, ℕ_discrete, ℕ, ◌≡◌, refl, Option, none, some, [], ◌∷◌, ok, false, arith,
}
use sievetube.Prelude.Maps.{get, insert, erase}
use sievetube.CertStore.{
  Stored, CertEntry, NameDir, Faults, current_generation, insert_descending, sort_descending,
  generations, remove_generations, prune, is_stale, is_there, store_locked, store, load_generation,
  first_usable, load_current,
}
use sievetube.CertStore.Generations.{
  IsSound, Advances, store-Advances, IsUsable, load_current-IsUsable,
}

program : Unit {0}
unfolding current_generation insert_descending sort_descending generations remove_generations prune
    is_stale is_there store_locked store load_generation first_usable load_current get insert erase
    ℕ_discrete
program = tt

abbrev parse : Stored → ℕ → Option CertEntry
parse files now = some (record { generation = none; not_before = 0; not_after = 90 })

abbrev files : Stored
files = record { cert = 1 ∷ []; key = 2 ∷ [] }

abbrev no_faults : Faults
no_faults = record {
  lock_fails = false;
  read_fails = false;
  list_fails = false;
  write_fails = false;
  switch_fails = false;
  stays = λ g. false;
}

abbrev first : NameDir
first = record { current = some 1; generations = (1, files) ∷ [] }

first-IsSound : IsSound first
unfolding program
first-IsSound = record { present = λ c h. (files, ground (arith, h)) }

store-Advances_example :
    Advances first (store parse no_faults 2 files 5 first).0
    × ((e : CertEntry)
        → (store parse no_faults 2 files 5 first).1 ≡ ok e
        → (store parse no_faults 2 files 5 first).0.current ≡ some 2)
store-Advances_example = store-Advances parse no_faults 2 files 5 first first-IsSound

abbrev loaded : CertEntry
loaded = record { generation = some 1; not_before = 0; not_after = 90 }

loads : load_current parse no_faults 5 first ≡ ok (some loaded)
unfolding program
loads = refl

load_current-IsUsable_example : (c : ℕ) × (first.current ≡ some c) × IsUsable parse c 5 first loaded
load_current-IsUsable_example = load_current-IsUsable parse no_faults 5 first loaded loads
