-- ===== src/Bytes.antt =====
-- Byte strings: big-endian integers (`to_be_bytes`, `write_u32`, `put_u64`), and reading from a stream
-- that ends.
use sievetube.Prelude.{
  ℕ, zero, suc, ◌+◌, ◌*◌, ◌/◌, ◌%◌, ◌^◌, ◌<◌, ◌≡◌, refl, ap, sym, ◌∙◌, Option, none, some, List, [],
  ◌∷◌, ◌++◌, length, length-append, arith, take, drop, take-length-append, drop-length-append,
  Option-cases, inl, inr,
}
use native.Mathlib.Nat.{pow-suc}

abbrev pub Bytes : Type 0
Bytes = List ℕ

-- The low `k` bytes of a number, the highest first.
unfoldable pub be_bytes : ℕ → ℕ → Bytes
be_bytes zero n = []
be_bytes (suc k) n = be_bytes k (n / 256) ++ (n % 256) ∷ []

unfoldable pub be_value : ℕ → Bytes → ℕ
be_value acc [] = acc
be_value acc (b ∷ bs) = be_value (acc * 256 + b) bs

-- `read_exact`: the next bytes and the rest, or none where the stream ends.
unfoldable pub read_exact : ℕ → Bytes → Option (Bytes × Bytes)
read_exact zero bs = some ([], bs)
read_exact (suc n) [] = none
read_exact (suc n) (b ∷ bs) = elim (read_exact n bs) [
  | none ↦ none
  | some (front, rest) ↦ some (b ∷ front, rest)
]

be_value-snoc :
    (acc : ℕ) (bs : Bytes) (b : ℕ) → be_value acc (bs ++ b ∷ []) ≡ be_value acc bs * 256 + b
unfolding be_value
be_value-snoc acc [] b = refl
be_value-snoc acc (x ∷ bs) b = be_value-snoc (acc * 256 + x) bs b

pub be_value-be_bytes : (k n : ℕ) → n < 256 ^ k → be_value 0 (be_bytes k n) ≡ n
unfolding be_bytes
be_value-be_bytes zero n h = unfold be_value in omega arith
be_value-be_bytes (suc k) n h =
    let small : n < 256 ^ k * 256 = rw pow-suc at h in
    omega (
      arith,
      be_value-snoc 0 (be_bytes k (n / 256)) (n % 256),
      be_value-be_bytes k (n / 256) (omega arith),
    )

pub length-be_bytes : (k n : ℕ) → length (be_bytes k n) ≡ k
unfolding be_bytes
length-be_bytes zero n = refl
length-be_bytes (suc k) n =
    omega (
      arith,
      length-append {0} (be_bytes k (n / 256)) ((n % 256) ∷ []),
      length-be_bytes k (n / 256),
    )

pub read_exact-append :
    (n : ℕ) (front rest : Bytes)
    → length front ≡ n
    → read_exact n (front ++ rest) ≡ some (front, rest)
unfolding read_exact
read_exact-append zero [] rest h = refl
read_exact-append zero (b ∷ bs) rest h = absurd (omega arith)
read_exact-append (suc n) [] rest h = absurd (omega arith)
read_exact-append (suc n) (b ∷ bs) rest h =
    let inner = read_exact-append n bs rest (omega arith) in ground arith

pub read_exact-some :
    (n : ℕ) (bs front rest : Bytes)
    → read_exact n bs ≡ some (front, rest)
    → (bs ≡ front ++ rest) × (length front ≡ n)
unfolding read_exact
read_exact-some zero bs front rest h = ground arith
read_exact-some (suc n) [] front rest h = cc
read_exact-some (suc n) (b ∷ bs) front rest h = elim (Option-cases (read_exact n bs)) [
  | inl ends ↦ absurd (ground arith)
  | inr ((f, r), more) ↦ ground (arith, read_exact-some n bs f r more)
]

-- Slices by length.
pub take_of_append : (n : ℕ) (xs ys : Bytes) → length xs ≡ n → take n (xs ++ ys) ≡ xs
take_of_append n xs ys h = ap (λ (k : ℕ). take k (xs ++ ys)) (sym h) ∙ take-length-append xs ys

pub drop_of_append : (n : ℕ) (xs ys : Bytes) → length xs ≡ n → drop n (xs ++ ys) ≡ ys
drop_of_append n xs ys h = ap (λ (k : ℕ). drop k (xs ++ ys)) (sym h) ∙ drop-length-append xs ys
