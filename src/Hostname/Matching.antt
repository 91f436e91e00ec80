-- ===== src/Hostname/Matching.antt =====
-- Wildcard patterns and zones against their plain descriptions.
use mathlib.Core.List.{append_assoc}
use sievetube.Prelude.{
  Text-discrete, nat_eq, text_eq, ◌≡◌, ◌≢◌, ◌↔◌, ◌⊎◌, refl, ap, sym, ◌∙◌, Text, true, false, none,
  some, [], ◌∷◌, ◌++◌, is_empty, arith, Option-cases, Bool-cases, inl, inr, subst,
}
use sievetube.Strings.{split_once, strip_prefix, strip_suffix, starts_with, has_char}
use sievetube.Strings.Laws.{
  strip_prefix-append, strip_prefix-some, split_once-append, split_once-some, ends_with-append,
  ends_with-split, strip_suffix-some, strip_suffix-append,
}
use sievetube.Hostname.{star, star_dot, matches_pattern, wildcard_for, zone_name, is_within_zone}

-- The wildcard case of a match: one label stands for the star.
pub record Covers (pattern_text hostname : Text) : Type 0 where
  pub first : Text
  pub suffix : Text
  pub is_pattern : pattern_text ≡ star_dot ++ suffix
  pub is_hostname : hostname ≡ first ++ b'.' ∷ suffix
  pub one_label : has_char b'.' first ≡ false
  pub not_empty : is_empty first ≡ false
  pub not_star : first ≢ star

covers : (p h : Text) → matches_pattern p h ≡ true → (p ≡ h) ⊎ Covers p h
unfolding matches_pattern
covers p h m = elim (Text-discrete p h) [
  | yes same ↦ inl same
  | no other ↦ elim (Option-cases (strip_prefix star_dot p)) [
    | inl plain ↦ absurd (ground arith)
    | inr (suffix, wild) ↦ elim (Option-cases (split_once b'.' h)) [
      | inl single ↦ absurd (ground arith)
      | inr ((first, rest), parts) ↦
          let (whole, label) = split_once-some b'.' h first rest parts in
          let shape = strip_prefix-some star_dot p suffix wild in
          inr (record {
            first = first;
            suffix = suffix;
            is_pattern = shape;
            is_hostname = ground arith;
            one_label = label;
            not_empty = ground arith;
            not_star = ground arith;
          })
    ]
  ]
]

covered : (p h : Text) → Covers p h → matches_pattern p h ≡ true
unfolding matches_pattern
covered p h c = ground (
  arith,
  strip_prefix-append star_dot c.suffix,
  split_once-append b'.' c.first c.suffix c.one_label,
)

matches_self : (p h : Text) → p ≡ h → matches_pattern p h ≡ true
unfolding matches_pattern
matches_self p h e = ground arith

-- A pattern covers a hostname exactly when they are equal, or when the pattern is `*.` before a
-- suffix and the hostname is that suffix behind exactly one label, which is not itself a star.
pub matches_pattern_iff : (p h : Text) → (matches_pattern p h ≡ true) ↔ ((p ≡ h) ⊎ Covers p h)
matches_pattern_iff p h =
    (covers p h, λ r. elim r [ inl same ↦ matches_self p h same | inr c ↦ covered p h c ])

first_of_dotted :
    (h first rest : Text)
    → h ≡ first ++ b'.' ∷ rest
    → starts_with b'.' h ≡ false
    → starts_with b'*' h ≡ false
    → (is_empty first ≡ false) × (first ≢ star)
unfolding starts_with
first_of_dotted h [] rest e d s = absurd (ground arith)
first_of_dotted h (c ∷ first) rest e d s = (refl, λ same. ground arith)

-- The wildcard that is looked up for a hostname covers it, unless its first label is empty or
-- begins with a star.
pub wildcard_for-matches :
    (h p : Text)
    → wildcard_for h ≡ some p
    → starts_with b'.' h ≡ false
    → starts_with b'*' h ≡ false
    → matches_pattern p h ≡ true
unfolding wildcard_for
wildcard_for-matches h p e d s = elim (Option-cases (split_once b'.' h)) [
  | inl single ↦ absurd (ground arith)
  | inr ((first, rest), parts) ↦
      let (whole, label) = split_once-some b'.' h first rest parts in
      let (filled, plain) = first_of_dotted h first rest whole d s in
      covered p h (record {
        first = first;
        suffix = rest;
        is_pattern = ground arith;
        is_hostname = whole;
        one_label = label;
        not_empty = filled;
        not_star = plain;
      })
]

-- A pattern that covers a hostname is the hostname, the wildcard that is looked up for it, or a
-- wildcard over a suffix that has no dot.
pub matches-wildcard_for :
    (p h : Text)
    → matches_pattern p h ≡ true
    → (p ≡ h)
      ⊎ (wildcard_for h ≡ some p)
      ⊎ ((suffix : Text) × (p ≡ star_dot ++ suffix) × (has_char b'.' suffix ≡ false))
unfolding wildcard_for
matches-wildcard_for p h m = elim (covers p h m) [
  | inl same ↦ inl same
  | inr c ↦ elim (Bool-cases (has_char b'.' c.suffix)) [
    | inl long ↦ inr (inl (ground (arith, split_once-append b'.' c.first c.suffix c.one_label)))
    | inr short ↦ inr (inr (c.suffix, c.is_pattern, short))
  ]
]

-- A name is in a zone exactly when, with a leading `*.` taken off, it is the zone or ends with a dot
-- and the zone.
pub is_within_zone_iff :
    (name zone : Text)
    → (is_within_zone name zone ≡ true)
      ↔ ((zone_name name ≡ zone) ⊎ ((t : Text) × (zone_name name ≡ t ++ b'.' ∷ zone)))
unfolding is_within_zone
is_within_zone_iff name zone = (
  λ m. elim (Text-discrete (zone_name name) zone) [
    | yes same ↦ inl same
    | no other ↦ elim (Option-cases (strip_suffix zone (zone_name name))) [
      | inl outside ↦ absurd (ground arith)
      | inr (front, inside) ↦
          let (t, e) = ends_with-split b'.' front (ground arith) in
          inr (
            t,
            strip_suffix-some zone (zone_name name) front inside
                ∙ ap (λ (x : Text). x ++ zone) e
                ∙ append_assoc t (b'.' ∷ []) zone,
          )
    ]
  ],
  λ r. elim r [
    | inl same ↦ ground arith
    | inr (t, e) ↦ ground (arith, inside_zone t zone, ends_with-append b'.' t)
  ],
)
  where
    inside_zone : (t zone : Text) → strip_suffix zone (t ++ b'.' ∷ zone) ≡ some (t ++ b'.' ∷ [])
    inside_zone t zone =
        subst (λ (x : Text). strip_suffix zone x ≡ some (t ++ b'.' ∷ []))
          (append_assoc t (b'.' ∷ []) zone) (strip_suffix-append (t ++ b'.' ∷ []) zone)

zone_name_plain : (s : Text) → strip_prefix star_dot s ≡ none → zone_name s ≡ s
unfolding zone_name
zone_name_plain s h = ground arith

-- Zones nest: a name in a zone that is itself in an outer zone is in the outer zone.
pub is_within_zone_trans :
    (name inner outer : Text)
    → is_within_zone name inner ≡ true
    → is_within_zone inner outer ≡ true
    → strip_prefix star_dot inner ≡ none
    → is_within_zone name outer ≡ true
is_within_zone_trans name inner outer p q plain =
    let own : zone_name inner ≡ inner = zone_name_plain inner plain in
    (is_within_zone_iff name outer).1 (elim ((is_within_zone_iff name inner).0 p) [
      | inl e ↦ elim ((is_within_zone_iff inner outer).0 q) [
        | inl f ↦ inl (e ∙ sym own ∙ f)
        | inr (t, f) ↦ inr (t, e ∙ sym own ∙ f)
      ]
      | inr (u, e) ↦ elim ((is_within_zone_iff inner outer).0 q) [
        | inl f ↦ inr (u, e ∙ ap (λ (x : Text). u ++ b'.' ∷ x) (sym own ∙ f))
        | inr (t, f) ↦ inr (
          u ++ b'.' ∷ t,
          e
              ∙ ap (λ (x : Text). u ++ b'.' ∷ x) (sym own ∙ f)
              ∙ sym (append_assoc u (b'.' ∷ t) (b'.' ∷ outer)),
        )
      ]
    ])
