-- ===== src/Prelude/Predicates.antt =====
-- Predicates on the elements of a list and on the entries of a map.
use sievetube.Prelude.Tests.{Eq, ◌==◌, ==→≡, Bool-cases}
use sievetube.Prelude.Lists.{select}
use sievetube.Prelude.Maps.{Map, get, insert, erase, retain}
use mathlib.Core.Path.{◌≡◌, subst}
use mathlib.Core.Logic.{inl, inr}
use mathlib.Core.Bool.{Bool, true}
use mathlib.Core.Option.{some}
use mathlib.Core.List.{List, [], ◌∷◌, ◌++◌}
use native.Mathlib.Omega.{arith}

-- Every element satisfies the predicate.
abbrev pub All {ℓ κ} : {X : Type ℓ} → (X → Type κ) → List X → Type κ
All P [] = Unit
All P (x ∷ xs) = P x × All P xs

pub All-append :
    {X : Type 0} → (P : X → Type 0) (xs ys : List X) → All P xs → All P ys → All P (xs ++ ys)
All-append P [] ys p q = q
All-append P (x ∷ xs) ys p q = (p.0, All-append P xs ys p.1 q)

pub All-select :
    {X : Type 0}
    → (P : X → Type 0) (keep : X → Bool) (xs : List X) → All P xs
    → All (λ x. P x × (keep x ≡ true)) (select keep xs)
All-select P keep [] h = tt
All-select P keep (x ∷ xs) h = elim (Bool-cases (keep x)) [
  | inl kept ↦ rw kept ((h.0, kept), All-select P keep xs h.1)
  | inr left ↦ rw left (All-select P keep xs h.1)
]

-- What holds of every entry of a map.
abbrev pub Entries : {K V : Type 0} → (K → V → Type 0) → Map K V → Type 0
Entries Q m = All (λ e. Q e.0 e.1) m

module _ {K V : Type 0} ⦃e : Eq K⦄ (Q : K → V → Type 0) where
  pub erase-Entries : (k : K) (m : Map K V) → Entries Q m → Entries Q (erase k m)
  unfolding erase
  erase-Entries k [] h = tt
  erase-Entries k ((j, v) ∷ m) h = elim (Bool-cases (j == k)) [
    | inl gone ↦ rw gone (erase-Entries k m h.1)
    | inr kept ↦ rw kept (h.0, erase-Entries k m h.1)
  ]

  pub insert-Entries :
      (k : K) (v : V) (m : Map K V) → Q k v → Entries Q m → Entries Q (insert k v m)
  unfolding insert
  insert-Entries k v m q h = (q, erase-Entries k m h)

  pub get-Entries : (k : K) (m : Map K V) (v : V) → Entries Q m → get k m ≡ some v → Q k v
  unfolding get
  get-Entries k [] v h g = cc
  get-Entries k ((j, w) ∷ m) v h g = elim (Bool-cases (j == k)) [
    | inl same ↦
        let value : w ≡ v = ground arith in
        subst (λ z. Q z v) (==→≡ j k same) (subst (λ z. Q j z) value h.0)
    | inr other ↦ get-Entries k m v h.1 (ground arith)
  ]

module _ {K V : Type 0} (Q : K → V → Type 0) where
  pub retain-Entries : (p : V → Bool) (m : Map K V) → Entries Q m → Entries Q (retain p m)
  unfolding retain
  retain-Entries p [] h = tt
  retain-Entries p ((j, v) ∷ m) h = elim (Bool-cases (p v)) [
    | inl kept ↦ rw kept (h.0, retain-Entries p m h.1)
    | inr gone ↦ rw gone (retain-Entries p m h.1)
  ]
