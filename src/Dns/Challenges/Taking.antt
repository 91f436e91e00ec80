-- ===== src/Dns/Challenges/Taking.antt =====
-- Taking one value out of a record set, and one handle out of the journal.
use sievetube.Prelude.{
  text_eq, nat_eq, ◌≡◌, refl, Text, ◌==◌, true, false, Option, some, List, [], ◌∷◌, contains,
  select, not, is_empty, arith, Bool-cases, inl, inr,
}
use sievetube.Dns.{RecordSet, set_remove}
use sievetube.Dns.Challenges.{TxtHandle, txt_handle_eq, without_value, has_value}

-- The set, or none, has the values of the former one but this value, and is otherwise as it was.
pub record TakesOut (value : Text) (current : RecordSet) (desired : Option RecordSet) : Type 0 where
  pub gone : has_value value desired ≡ false
  pub others : (x : Text) → (value == x) ≡ false → has_value x desired ≡ has_value x (some current)
  pub rest : (d : RecordSet) → desired ≡ some d → d ≡ record current { values = d.values }

-- The entries are the former ones but this one.
pub record Leaves (handle : TxtHandle) (entries kept : List TxtHandle) : Type 0 where
  pub gone : contains kept handle ≡ false
  pub others : (e : TxtHandle) → (handle == e) ≡ false → contains kept e ≡ contains entries e

set_remove-same : (value : Text) (xs : List Text) → contains (set_remove value xs) value ≡ false
unfolding set_remove
set_remove-same value [] = refl
set_remove-same value (x ∷ xs) = ground (arith, set_remove-same value xs)

set_remove-other :
    (value x : Text) (xs : List Text)
    → (value == x) ≡ false
    → contains (set_remove value xs) x ≡ contains xs x
unfolding set_remove
set_remove-other value x [] other = refl
set_remove-other value x (y ∷ ys) other = ground (arith, set_remove-other value x ys other)

is_empty-contains : (xs : List Text) (x : Text) → is_empty xs ≡ true → contains xs x ≡ false
is_empty-contains [] x e = refl
is_empty-contains (y ∷ ys) x e = absurd (ground arith)

pub without_value-TakesOut :
    (value : Text) (current : RecordSet) → TakesOut value current (without_value value current)
unfolding without_value has_value
without_value-TakesOut value current =
    let remaining = set_remove value current.values in
    elim (Bool-cases (is_empty remaining)) [
      | inl all_gone ↦ record {
        gone = ground arith;
        others = λ x other. ground (
          arith,
          set_remove-other value x current.values other,
          is_empty-contains remaining x all_gone,
        );
        rest = λ d same. absurd (ground arith);
      }
      | inr some_left ↦ record {
        gone = ground (arith, set_remove-same value current.values);
        others = λ x other. ground (arith, set_remove-other value x current.values other);
        rest = λ d same. ground arith;
      }
    ]

pub drop-Leaves :
    (handle : TxtHandle) (entries : List TxtHandle)
    → Leaves handle entries (select (λ e. not (e == handle)) entries)
drop-Leaves handle [] = record { gone = refl; others = λ e other. refl }
drop-Leaves handle (x ∷ xs) =
    let rest = drop-Leaves handle xs in
    record {
      gone = ground (arith, rest.gone);
      others = λ e other. ground (arith, rest.others e other);
    }
