-- ===== src/Policy/Bucket/Capacity.antt =====
-- The size of a bucket table, and who is refused.
use sievetube.Prelude.{
  nat_eq, ℕ, ◌+◌, ◌≤◌, ◌<◌, ◌≡◌, ◌≢◌, refl, leb, Bool, false, none, some, [], ◌∷◌, Result, err,
  length, arith, Option-cases, Bool-cases, inl, inr, max, ap, ◌↔◌,
}
use sievetube.Prelude.Maps.{
  Map, get, insert, Distinct, insert-Distinct, erase_absent, length-erase_present,
}
use sievetube.Policy.{World, RateLimit}
use sievetube.Policy.Bucket.{
  Bucket, BucketTable, TakeError, capacity, take_tokens, claim_full_sweep, is_live, retain, sweep,
  take_at, make_room, fresh, take,
}

leb-false : {a b : ℕ} → leb a b ≡ false → b < a
leb-false {a} {b} h = ground arith

module _ (w : World) where
  length-retain : (p : Bucket w → Bool) (m : Map ℕ (Bucket w)) → length (retain w p m) ≤ length m
  unfolding retain
  length-retain p [] = omega arith
  length-retain p ((k, b) ∷ m) = ground (arith, length-retain p m)

  get-retain-none :
      (p : Bucket w → Bool) (k : ℕ) (m : Map ℕ (Bucket w))
      → get k m ≡ none
      → get k (retain w p m) ≡ none
  unfolding retain get
  get-retain-none p k [] h = refl
  get-retain-none p k ((j, b) ∷ m) h = ground (arith, get-retain-none p k m)

  retain-Distinct :
      (p : Bucket w → Bool) (m : Map ℕ (Bucket w)) → Distinct m → Distinct (retain w p m)
  unfolding retain
  retain-Distinct p [] d = tt
  retain-Distinct p ((k, b) ∷ m) d = ground (arith, retain-Distinct p m, get-retain-none p k m)

  length-insert_present :
      (k : ℕ) (b c : Bucket w) (m : Map ℕ (Bucket w))
      → Distinct m
      → get k m ≡ some c
      → length (insert k b m) ≡ length m
  unfolding insert
  length-insert_present k b c m d h = omega (arith, length-erase_present k c m d h)

  length-insert_absent :
      (k : ℕ) (b : Bucket w) (m : Map ℕ (Bucket w))
      → get k m ≡ none
      → length (insert k b m) ≡ length m + 1
  unfolding insert
  length-insert_absent k b m h = rw (erase_absent k m h) (omega arith)

  make_room-keeps :
      (t : BucketTable w) (key now max_entries idle_ttl : ℕ)
      → Distinct t.buckets
      → get key t.buckets ≡ none
      → (length (make_room w t now max_entries idle_ttl).buckets ≤ length t.buckets)
        × Distinct (make_room w t now max_entries idle_ttl).buckets
        × (get key (make_room w t now max_entries idle_ttl).buckets ≡ none)
  unfolding make_room claim_full_sweep sweep
  make_room-keeps t key now max_entries idle_ttl d h = ground (
    arith,
    length-retain (is_live w now idle_ttl) t.buckets,
    retain-Distinct (is_live w now idle_ttl) t.buckets,
    get-retain-none (is_live w now idle_ttl) key t.buckets,
  )

  take_tokens-ne-capacity :
      (b c : Bucket w) (limit : RateLimit w) (amount : w.F) (now : ℕ)
      (r : Result (TakeError w) (Unit {0}))
      → take_tokens w b limit amount now ≡ some (c, r)
      → r ≢ err capacity
  unfolding take_tokens
  take_tokens-ne-capacity b c limit amount now r h bad =
      elim (Option-cases (w.from_secs (w.f_div limit.burst limit.per_second))) [
        | inl panics ↦ ground arith
        | inr (full_after, fits) ↦ ground arith
      ]

  pub take_at-some :
      (t u : BucketTable w) (key : ℕ) (b : Bucket w) (limit : RateLimit w) (amount : w.F) (now : ℕ)
      (r : Result (TakeError w) (Unit {0}))
      → take_at w t key b limit amount now ≡ some (u, r)
      → (c : Bucket w) × (u.buckets ≡ insert key c t.buckets) × (r ≢ err capacity)
  unfolding take_at
  take_at-some t u key b limit amount now r h =
      elim (Option-cases (take_tokens w b limit amount now)) [
        | inl panics ↦ absurd (ground arith)
        | inr ((c, q), done) ↦ (
          c,
          ground arith,
          λ bad. take_tokens-ne-capacity b c limit amount now q done (ground arith),
        )
      ]

  -- A `take` that does not panic, on a table with no key twice, leaves no key twice, and a table
  -- that is no larger than the larger of what it was and the limit.
  pub length-take :
      (t u : BucketTable w) (key : ℕ) (limit : RateLimit w) (amount : w.F)
      (now max_entries idle_ttl : ℕ) (r : Result (TakeError w) (Unit {0}))
      → take w t key limit amount now max_entries idle_ttl ≡ some (u, r)
      → Distinct t.buckets
      → Distinct u.buckets × (length u.buckets ≤ max (length t.buckets) max_entries)
  unfolding take
  length-take t u key limit amount now max_entries idle_ttl r h d =
      elim (Option-cases (get key t.buckets)) [
        | inr (b, present) ↦
            let (c, same, _) = take_at-some t u key b limit amount now r (ground arith) in
            (
              rw same (insert-Distinct key c t.buckets d),
              omega (
                arith,
                ap (length {A = ℕ × Bucket w}) same,
                length-insert_present key c b t.buckets d present,
              ),
            )
        | inl absent ↦
            let room = make_room w t now max_entries idle_ttl in
            let (shorter, distinct, still) =
              make_room-keeps t key now max_entries idle_ttl d absent in
            elim (Bool-cases (leb max_entries (length room.buckets))) [
              | inl full ↦
                  let e : room ≡ u = ground arith in (rw (← e) distinct, rw (← e) (omega arith))
              | inr free ↦
                  let (c, same, _) =
                    take_at-some room u key (fresh w limit now) limit amount now r (ground arith) in
                  (
                    rw same (insert-Distinct key c room.buckets distinct),
                    omega (
                      arith,
                      ap (length {A = ℕ × Bucket w}) same,
                      length-insert_absent key c room.buckets still,
                      leb-false free,
                    ),
                  )
            ]
      ]

  -- A `take` that does not panic is refused for want of room exactly when its key has no bucket and
  -- the table is full, also after the sweep that this call may have made.
  pub take-capacity_iff :
      (t u : BucketTable w) (key : ℕ) (limit : RateLimit w) (amount : w.F)
      (now max_entries idle_ttl : ℕ) (r : Result (TakeError w) (Unit {0}))
      → take w t key limit amount now max_entries idle_ttl ≡ some (u, r)
      → (r ≡ err capacity) ↔ (
          (get key t.buckets ≡ none)
          × (max_entries ≤ length (make_room w t now max_entries idle_ttl).buckets))
  unfolding take
  take-capacity_iff t u key limit amount now max_entries idle_ttl r h =
      elim (Option-cases (get key t.buckets)) [
        | inr (b, present) ↦
            let (c, same, other) = take_at-some t u key b limit amount now r (ground arith) in
            (λ bad. absurd (other bad), λ (absent, full). absurd (ground arith))
        | inl absent ↦
            let room = make_room w t now max_entries idle_ttl in
            elim (Bool-cases (leb max_entries (length room.buckets))) [
              | inl full ↦ (λ bad. (absent, ground arith), λ p. ground arith)
              | inr free ↦
                  let (c, same, other) =
                    take_at-some room u key (fresh w limit now) limit amount now r (ground arith) in
                  (λ bad. absurd (other bad), λ p. absurd (ground arith))
            ]
      ]
