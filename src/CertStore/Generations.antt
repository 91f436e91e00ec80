-- ===== src/CertStore/Generations.antt =====
-- The active generation never goes back, and its files stay.
use sievetube.Prelude.{
  nat_eq, text_eq, ℕ, zero, suc, ◌-◌, ◌≤◌, ◌≡◌, ◌∙◌, refl, sym, subst, ltb, leb, Bool, true, false,
  Option, some, List, [], ◌∷◌, drop, Result, ok, err, select, arith, Option-cases, Result-cases,
  Bool-cases, inl, inr,
}
use sievetube.Prelude.Maps.{get, insert, erase, get-erase, get-insert, get-insert_same}
use sievetube.Prelude.Predicates.{All}
use sievetube.CertStore.{
  Stored, CertEntry, NameDir, StoreError, Faults, kept_generations, current_generation, generations,
  is_stale, is_there, remove_generations, prune, store_locked, store, load_generation, first_usable,
  load_current,
}

select-All : (p : ℕ → Bool) (gs : List ℕ) → All (λ g. p g ≡ true) (select p gs)
select-All p [] = tt
select-All p (g ∷ gs) = elim (Bool-cases (p g)) [
  | inl kept ↦ rw kept (kept, select-All p gs)
  | inr left ↦ rw left (select-All p gs)
]

drop-All : (P : ℕ → Type 0) (n : ℕ) (gs : List ℕ) → All P gs → All P (drop n gs)
drop-All P zero gs a = a
drop-All P (suc n) [] a = tt
drop-All P (suc n) (g ∷ gs) a = drop-All P n gs a.1

-- What pruning leaves alone.
record Keeps (active : ℕ) (d u : NameDir) : Type 0 where
  same_current : u.current ≡ d.current
  same_files : get active u.generations ≡ get active d.generations

remove_generations-Keeps :
    (f : Faults) (active : ℕ) (gs : List ℕ) (d : NameDir)
    → All (λ g. ltb g active ≡ true) gs
    → Keeps active d (remove_generations f gs d)
unfolding remove_generations
remove_generations-Keeps f active [] d a = record { same_current = refl; same_files = refl }
remove_generations-Keeps f active (g ∷ gs) d a = elim (Bool-cases (f.stays g)) [
  | inl stuck ↦ rw stuck (remove_generations-Keeps f active gs d a.1)
  | inr gone ↦
      let u : NameDir = record d { generations = erase g d.generations } in
      let rest = remove_generations-Keeps f active gs u a.1 in
      rw gone (record {
        same_current = rest.same_current;
        same_files = rest.same_files ∙ ground (arith, get-erase g active d.generations, a.0);
      })
]

prune-Keeps : (f : Faults) (active : ℕ) (d : NameDir) → Keeps active d (prune f active d)
unfolding prune
prune-Keeps f active d = elim (Result-cases (generations f d)) [
  | inr (e, unread) ↦
      let same : prune f active d ≡ d = ground arith in
      subst (Keeps active d) (sym same) (record { same_current = refl; same_files = refl })
  | inl (gs, listed) ↦
      let old = drop (kept_generations - 1) (select (λ g. ltb g active) gs) in
      let same : prune f active d ≡ remove_generations f old d = ground arith in
      subst (Keeps active d) (sym same) (
        remove_generations-Keeps f active old d (
          drop-All (λ g. ltb g active ≡ true) (kept_generations - 1) (select (λ g. ltb g active) gs)
            (select-All (λ g. ltb g active) gs)))
]

-- The files of the active generation are there.
pub record IsSound (d : NameDir) : Type 0 where
  pub present : (c : ℕ) → d.current ≡ some c → (files : Stored) × (get c d.generations ≡ some files)

-- How a call may change a directory: it stays sound, and the active generation is the same or newer.
pub record Advances (d u : NameDir) : Type 0 where
  pub sound : IsSound u
  pub forward : (c : ℕ) → d.current ≡ some c → (e : ℕ) × (u.current ≡ some e) × (c ≤ e)

same-Advances : (d : NameDir) → IsSound d → Advances d d
same-Advances d s = record { sound = s; forward = λ c h. (c, h, omega arith) }

module _ (parse : Stored → ℕ → Option CertEntry) where
  written-Advances :
      (generation : ℕ) (files : Stored) (d : NameDir)
      → IsSound d
      → is_there generation d ≡ false
      → Advances d (record d { generations = insert generation files d.generations })
  unfolding is_there
  written-Advances generation files d s fresh = record {
    sound = record {
      present = λ c h.
          let (old, found) = s.present c h in
          (old, ground (arith, get-insert generation c files d.generations, found, fresh));
    };
    forward = λ c h. (c, h, omega arith);
  }

  switched-Advances :
      (f : Faults) (generation : ℕ) (files : Stored) (d : NameDir)
      → IsSound d
      → is_stale generation d.current ≡ false
      → Advances d (
          prune f generation (record {
            current = some generation;
            generations = insert generation files d.generations;
          }))
  unfolding is_stale
  switched-Advances f generation files d s newer =
      let u : NameDir = record {
        current = some generation;
        generations = insert generation files d.generations;
      } in
      let kept = prune-Keeps f generation u in
      record {
        sound = record {
          present = λ c h.
              let same : c ≡ generation = ground (arith, kept.same_current, h) in
              (
                files,
                subst (λ z. get z (prune f generation u).generations ≡ some files) (sym same)
                    (kept.same_files ∙ get-insert_same generation files d.generations),
              );
        };
        forward = λ c h. (generation, kept.same_current, ground (arith, newer, h));
      }

  store_locked-Advances :
      (f : Faults) (generation : ℕ) (files : Stored) (entry : CertEntry) (d : NameDir)
      → IsSound d
      → Advances d (store_locked parse f generation files entry d).0
        × ((e : CertEntry)
            → (store_locked parse f generation files entry d).1 ≡ ok e
            → (store_locked parse f generation files entry d).0.current ≡ some generation)
  unfolding store_locked current_generation
  store_locked-Advances f generation files entry d s =
      let out = store_locked parse f generation files entry d in
      let Good : NameDir × Result StoreError CertEntry → Type 0 =
        λ z. Advances d z.0 × ((e : CertEntry) → z.1 ≡ ok e → z.0.current ≡ some generation) in
      let written = record d { generations = insert generation files d.generations } in
      let switched = prune f generation (record {
        current = some generation;
        generations = insert generation files d.generations;
      }) in
      elim (Bool-cases f.read_fails) [
        | inl unread ↦
            let same : out ≡ (d, err StoreError.cannot_read) = ground arith in
            subst Good (sym same) (same-Advances d s, λ e h. absurd (ground arith))
        | inr read ↦ elim (Bool-cases (is_stale generation d.current)) [
          | inl old ↦
              let same : out ≡ (d, err StoreError.stale) = ground arith in
              subst Good (sym same) (same-Advances d s, λ e h. absurd (ground arith))
          | inr newer ↦ elim (Bool-cases (is_there generation d)) [
            | inl there ↦
                let same : out ≡ (d, err StoreError.exists) = ground arith in
                subst Good (sym same) (same-Advances d s, λ e h. absurd (ground arith))
            | inr fresh ↦ elim (Bool-cases f.write_fails) [
              | inl unwritten ↦
                  let same : out ≡ (d, err StoreError.cannot_write) = ground arith in
                  subst Good (sym same) (same-Advances d s, λ e h. absurd (ground arith))
              | inr done ↦ elim (Bool-cases f.switch_fails) [
                | inl stuck ↦
                    let same : out ≡ (written, err StoreError.cannot_switch) = ground arith in
                    subst Good (sym same)
                      (written-Advances generation files d s fresh, λ e h. absurd (ground arith))
                | inr moved ↦
                    let same : out
                        ≡ (switched, ok (record entry { generation = some generation })) =
                      ground arith in
                    subst Good (sym same) (
                      switched-Advances f generation files d s newer,
                      λ e h.
                          (prune-Keeps f generation (record {
                            current = some generation;
                            generations = insert generation files d.generations;
                          })).same_current,
                    )
              ]
            ]
          ]
        ]
      ]

  -- Whatever fails in it, storing a generation leaves the active generation, if there is one, the
  -- same or a newer one, and its files in place; and if it succeeds, the generation is the active
  -- one.
  pub store-Advances :
      (f : Faults) (generation : ℕ) (files : Stored) (now : ℕ) (d : NameDir)
      → IsSound d
      → Advances d (store parse f generation files now d).0
        × ((e : CertEntry)
            → (store parse f generation files now d).1 ≡ ok e
            → (store parse f generation files now d).0.current ≡ some generation)
  unfolding store
  store-Advances f generation files now d s =
      let out = store parse f generation files now d in
      let Good : NameDir × Result StoreError CertEntry → Type 0 =
        λ z. Advances d z.0 × ((e : CertEntry) → z.1 ≡ ok e → z.0.current ≡ some generation) in
      elim (Option-cases (parse files now)) [
        | inl bad ↦
            let same : out ≡ (d, err StoreError.invalid) = ground arith in
            subst Good (sym same) (same-Advances d s, λ e h. absurd (ground arith))
        | inr (entry, fine) ↦ elim (Bool-cases f.lock_fails) [
          | inl locked ↦
              let same : out ≡ (d, err StoreError.cannot_lock) = ground arith in
              subst Good (sym same) (same-Advances d s, λ e h. absurd (ground arith))
          | inr mine ↦
              let same : out ≡ store_locked parse f generation files entry d = ground arith in
              subst Good (sym same) (store_locked-Advances f generation files entry d s)
        ]
      ]

  -- What the loaded entry is: a stored generation that still validates, and not newer than the active one.
  pub record IsUsable (c now : ℕ) (d : NameDir) (e : CertEntry) : Type 0 where
    pub generation : ℕ
    pub loaded : load_generation parse generation now d ≡ some e
    pub active_or_older : leb generation c ≡ true

  first_usable-IsUsable :
      (c : ℕ) (gs : List ℕ) (now : ℕ) (d : NameDir) (e : CertEntry)
      → All (λ g. leb g c ≡ true) gs
      → first_usable parse gs now d ≡ some e
      → IsUsable c now d e
  unfolding first_usable
  first_usable-IsUsable c [] now d e a h = absurd (ground arith)
  first_usable-IsUsable c (g ∷ gs) now d e a h =
      elim (Option-cases (load_generation parse g now d)) [
        | inl unusable ↦ first_usable-IsUsable c gs now d e a.1 (ground arith)
        | inr (x, found) ↦ record { generation = g; loaded = ground arith; active_or_older = a.0 }
      ]

  -- A loaded certificate belongs to a stored generation that validates now and is the active one or
  -- an older one, and there is an active generation.
  pub load_current-IsUsable :
      (f : Faults) (now : ℕ) (d : NameDir) (e : CertEntry)
      → load_current parse f now d ≡ ok (some e)
      → (c : ℕ) × (d.current ≡ some c) × IsUsable c now d e
  unfolding load_current current_generation
  load_current-IsUsable f now d e h = elim (Option-cases d.current) [
    | inl unset ↦ absurd (ground arith)
    | inr (c, active) ↦ elim (Result-cases (generations f d)) [
      | inr (x, unread) ↦ absurd (ground arith)
      | inl (gs, listed) ↦
          let usable = select (λ g. leb g c) gs in
          (
            c,
            active,
            first_usable-IsUsable c usable now d e (select-All (λ g. leb g c) gs) (ground arith),
          )
    ]
  ]
