-- ===== src/Hostname/Normal.antt =====
-- The normal form: `normalize` is stable on its results, and what a result looks like.
use sievetube.Prelude.{
  nat_eq, text_eq, ℕ, suc, ◌≡◌, refl, ap, Text, ◌==◌, leb, ◌&&◌, ◌||◌, not, Bool, true, false, List,
  [], ◌∷◌, all, is_empty, arith, Bool-cases, inl, inr, length, ok, is_ok,
}
use sievetube.Strings.{
  is_whitespace, trim, len, is_ascii, to_ascii_lowercase, is_ascii_alphanumeric, onto_first, split,
  ends_with,
}
use sievetube.Strings.Laws.{
  is_black, trim_black, to_ascii_lowercase_idem, len-to_ascii_lowercase,
  is_ascii-to_ascii_lowercase, is_empty-to_ascii_lowercase,
}
use sievetube.Hostname.{
  max_name_len, star, label_byte, check_label, check_labels, without_dot, normalize,
}

-- A byte that a label may hold; the star of a wildcard label counts where one is allowed.
abbrev pub label_char : Bool → Bool → ℕ → Bool
label_char w u c = label_byte u c || (w && c == b'*')

all-label_char :
    (w u : Bool) (l : Text) → all (label_byte u) l ≡ true → all (label_char w u) l ≡ true
all-label_char w u [] h = refl
all-label_char w u (c ∷ l) h = ground (arith, all-label_char w u l)

check_label_chars :
    (w u : Bool) (n i : ℕ) (l : Text)
    → is_ok (check_label w u n i l) ≡ true
    → (all (label_char w u) l ≡ true) × (is_empty l ≡ false)
unfolding check_label
check_label_chars w u n i l h = elim (Bool-cases (l == star)) [
  | inl s ↦ ground arith
  | inr s ↦ ground (arith, all-label_char w u l)
]

-- Every character of every piece is a label's, and no piece (but the first) is empty.
abbrev chars : Bool → Bool → List Text → Bool
chars w u = all (all (label_char w u))

abbrev filled : List Text → Bool
filled = all (λ l. not (is_empty l))

abbrev filled_rest : List Text → Bool
filled_rest [] = true
filled_rest (l ∷ ls) = filled ls

check_labels-chars :
    (w u : Bool) (n i : ℕ) (ls : List Text)
    → is_ok (check_labels w u n i ls) ≡ true
    → (chars w u ls ≡ true) × (filled ls ≡ true)
unfolding check_labels
check_labels-chars w u n i [] h = (refl, refl)
check_labels-chars w u n i (l ∷ ls) h =
    ground (arith, check_label_chars w u n i l, check_labels-chars w u n (suc i) ls)

chars-onto_first :
    (w u : Bool) (c : ℕ) (ls : List Text)
    → chars w u (onto_first c ls) ≡ (label_char w u c && chars w u ls)
unfolding onto_first
chars-onto_first w u c [] = ground arith
chars-onto_first w u c (l ∷ ls) = ground arith

-- Looking at every piece is looking at every character but the dots.
chars-split :
    (w u : Bool) (s : Text) → chars w u (split b'.' s) ≡ all (λ c. label_char w u c || c == b'.') s
unfolding split
chars-split w u [] = refl
chars-split w u (c ∷ s) = ground (arith, chars-split w u s, chars-onto_first w u c (split b'.' s))

filled_rest-onto_first : (c : ℕ) (ls : List Text) → filled_rest (onto_first c ls) ≡ filled_rest ls
unfolding onto_first
filled_rest-onto_first c [] = refl
filled_rest-onto_first c (l ∷ ls) = refl

filled-rest : (ls : List Text) → filled ls ≡ true → filled_rest ls ≡ true
filled-rest [] h = refl
filled-rest (l ∷ ls) h = ground arith

-- A text that ends with a dot has an empty piece after the first.
split-ends_with : (s : Text) → ends_with b'.' s ≡ true → filled_rest (split b'.' s) ≡ false
unfolding split ends_with
split-ends_with [] h = cc
split-ends_with (c ∷ []) h = ground arith
split-ends_with (c ∷ d ∷ s) h = ground (
  arith,
  split-ends_with (d ∷ s) h,
  filled_rest-onto_first c (split b'.' (d ∷ s)),
  filled-rest (split b'.' (d ∷ s)),
)

pub without_dot_same : (s : Text) → ends_with b'.' s ≡ false → without_dot s ≡ s
unfolding without_dot ends_with
without_dot_same [] h = refl
without_dot_same (c ∷ []) h = ground arith
without_dot_same (c ∷ d ∷ s) h = ap (◌∷◌ c) (without_dot_same (d ∷ s) h)

-- The test of a normal hostname.
abbrev pub is_normal : Bool → Bool → Text → Bool
is_normal w u s =
    not (is_empty s)
    && leb (len s) max_name_len
    && is_ascii s
    && is_ok (check_labels w u (length (split b'.' s)) 0 (split b'.' s))

char_black : (w u : Bool) (c : ℕ) → (label_char w u c || c == b'.') ≡ true → is_black c ≡ true
unfolding label_byte is_whitespace is_ascii_alphanumeric
char_black w u c h = ground arith

pub all_black :
    (w u : Bool) (s : Text)
    → all (λ c. label_char w u c || c == b'.') s ≡ true
    → all is_black s ≡ true
all_black w u [] h = refl
all_black w u (c ∷ s) h = ground (arith, char_black w u c, all_black w u s)

pub is_normal-chars :
    (w u : Bool) (s : Text)
    → is_normal w u s ≡ true
    → (all (λ c. label_char w u c || c == b'.') s ≡ true) × (ends_with b'.' s ≡ false)
is_normal-chars w u s h = ground (
  arith,
  check_labels-chars w u (length (split b'.' s)) 0 (split b'.' s),
  chars-split w u s,
  split-ends_with s,
  filled-rest (split b'.' s),
)

-- The result of `normalize` is in normal form and in lower case.
pub normalize-is_normal :
    (input : Text) (w u : Bool) (n : Text)
    → normalize input w u ≡ ok n
    → (is_normal w u n ≡ true) × (to_ascii_lowercase n ≡ n)
unfolding normalize
normalize-is_normal input w u n h =
    let name = without_dot (trim input) in
    ground (
      arith,
      to_ascii_lowercase_idem name,
      len-to_ascii_lowercase name,
      is_ascii-to_ascii_lowercase name,
      is_empty-to_ascii_lowercase name,
    )

pub normal-name : (w u : Bool) (n : Text) → is_normal w u n ≡ true → without_dot (trim n) ≡ n
normal-name w u n h =
    let (cs, last) = is_normal-chars w u n h in
    rw (trim_black n (all_black w u n cs)) (without_dot_same n last)

pub is_normal-normalize :
    (input : Text) (w u : Bool) (n : Text)
    → without_dot (trim input) ≡ n
    → is_normal w u n ≡ true
    → to_ascii_lowercase n ≡ n
    → normalize input w u ≡ ok n
unfolding normalize
is_normal-normalize input w u n same h low = rw (same, low) (ground arith)

-- If normalising gives a name, normalising this name gives it again.
pub normalize_idem :
    (input : Text) (w u : Bool) (n : Text) → normalize input w u ≡ ok n → normalize n w u ≡ ok n
normalize_idem input w u n h =
    let (normal, low) = normalize-is_normal input w u n h in
    is_normal-normalize n w u n (normal-name w u n normal) normal low
