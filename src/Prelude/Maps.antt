-- ===== src/Prelude/Maps.antt =====
-- Finite maps (`HashMap`, `DashMap`, `BTreeMap`) as association lists. The iteration order of the
-- source's maps is not specified; here it is the list's.
use Prim.Native.Nat.{suc, ◌≤◌}
use mathlib.Core.Path.{◌≡◌, refl}
use mathlib.Core.Bool.{Bool, not}
use mathlib.Core.List.{List, [], ◌∷◌}
use mathlib.Core.Option.{Option, none, some}
use native.Mathlib.Omega.{arith}
use sievetube.Prelude.Tests.{Eq, ◌==◌, ==_refl, if◌then◌else◌}
use sievetube.Prelude.Lists.{length}

abbrev pub Map {ℓ κ} : Type ℓ → Type κ → Type (ℓ ⊔ κ)
Map K V = List (K × V)

-- What is left of a value under a test.
abbrev pub keep_unless {ℓ} : {V : Type ℓ} → (V → Bool) → Option V → Option V
keep_unless p none = none
keep_unless p (some v) = if p v then none else some v

-- The entries whose value passes the test (`retain`).
unfoldable pub retain {ℓ κ} : {K : Type ℓ} {V : Type κ} → (V → Bool) → Map K V → Map K V
retain p [] = []
retain p ((k, v) ∷ m) = let rest = retain p m in if p v then (k, v) ∷ rest else rest

pub length-retain : {K V : Type 0} → (p : V → Bool) (m : Map K V) → length (retain p m) ≤ length m
unfolding retain
length-retain p [] = omega arith
length-retain p ((k, v) ∷ m) = ground (arith, length-retain p m)

module _ {ℓ κ} {K : Type ℓ} {V : Type κ} ⦃e : Eq K⦄ where
  unfoldable pub get : K → Map K V → Option V
  get k [] = none
  get k ((j, v) ∷ m) = if j == k then some v else get k m

  unfoldable pub erase : K → Map K V → Map K V
  erase k [] = []
  erase k ((j, v) ∷ m) = let rest = erase k m in if j == k then rest else (j, v) ∷ rest

  unfoldable pub insert : K → V → Map K V → Map K V
  insert k v m = (k, v) ∷ erase k m

  -- `remove_if(k, test)`: drops the entry if its value passes the test.
  unfoldable pub remove_if : K → (V → Bool) → Map K V → Map K V
  remove_if k p m = elim (get k m) [ none ↦ m | some v ↦ if p v then erase k m else m ]

  pub get-erase : (k j : K) (m : Map K V) → get j (erase k m) ≡ (if k == j then none else get j m)
  unfolding get erase
  get-erase k j [] = ground arith
  get-erase k j ((i, v) ∷ m) = ground (arith, get-erase k j m)

  pub get-insert :
      (k j : K) (v : V) (m : Map K V) → get j (insert k v m) ≡ (if k == j then some v else get j m)
  unfolding get insert
  get-insert k j v m = ground (arith, get-erase k j m)

  pub get-insert_same : (k : K) (v : V) (m : Map K V) → get k (insert k v m) ≡ some v
  unfolding get insert
  get-insert_same k v m = rw (==_refl k) refl

  pub get-remove_if :
      (k j : K) (p : V → Bool) (m : Map K V)
      → get j (remove_if k p m) ≡ (if k == j then keep_unless p (get j m) else get j m)
  unfolding remove_if
  get-remove_if k j p m = ground (arith, get-erase k j m)

  -- No key twice.
  abbrev pub Distinct : Map K V → Type (ℓ ⊔ κ)
  Distinct [] = Unit
  Distinct ((k, v) ∷ m) = (get k m ≡ none) × Distinct m

  pub erase_absent : (k : K) (m : Map K V) → get k m ≡ none → erase k m ≡ m
  unfolding get erase
  erase_absent k [] h = refl
  erase_absent k ((j, v) ∷ m) h = ground (arith, erase_absent k m)

  pub erase-Distinct : (k : K) (m : Map K V) → Distinct m → Distinct (erase k m)
  unfolding get erase
  erase-Distinct k [] d = tt
  erase-Distinct k ((j, v) ∷ m) d = ground (arith, erase-Distinct k m d.1, get-erase k j m)

  pub insert-Distinct : (k : K) (v : V) (m : Map K V) → Distinct m → Distinct (insert k v m)
  unfolding insert
  insert-Distinct k v m d = (ground (arith, get-erase k k m), erase-Distinct k m d)

  pub remove_if-Distinct :
      (k : K) (p : V → Bool) (m : Map K V) → Distinct m → Distinct (remove_if k p m)
  unfolding remove_if
  remove_if-Distinct k p m d = ground (arith, erase-Distinct k m d)

  pub length-erase_present :
      (k : K) (v : V) (m : Map K V)
      → Distinct m
      → get k m ≡ some v
      → suc (length (erase k m)) ≡ length m
  unfolding get erase
  length-erase_present k v [] d h = cc
  length-erase_present k v ((j, w) ∷ m) d h =
      ground (arith, length-erase_present k v m d.1, erase_absent k m)

module _ {K V : Type 0} ⦃e : Eq K⦄ where
  get-retain-none :
      (p : V → Bool) (k : K) (m : Map K V) → get k m ≡ none → get k (retain p m) ≡ none
  unfolding retain get
  get-retain-none p k [] h = refl
  get-retain-none p k ((j, v) ∷ m) h = ground (arith, get-retain-none p k m)

  pub get-retain :
      (p : V → Bool) (k : K) (m : Map K V)
      → Distinct m
      → get k (retain p m) ≡ keep_unless (λ v. not (p v)) (get k m)
  unfolding retain get
  get-retain p k [] d = refl
  get-retain p k ((j, v) ∷ m) d = ground (arith, get-retain p k m d.1)

  pub retain-Distinct : (p : V → Bool) (m : Map K V) → Distinct m → Distinct (retain p m)
  unfolding retain get
  retain-Distinct p [] d = tt
  retain-Distinct p ((j, v) ∷ m) d =
      ground (arith, retain-Distinct p m d.1, get-retain-none p j m d.0)

  pub length-erase-le : (k : K) (m : Map K V) → length (erase k m) ≤ length m
  unfolding erase
  length-erase-le k [] = omega arith
  length-erase-le k ((j, v) ∷ m) = ground (arith, length-erase-le k m)
