-- ===== src/Policy/Bucket/Sweep.antt =====
-- What a sweep drops, how often a full table is swept, and that clients do not share buckets.
use sievetube.Prelude.{
  nat_eq, ℕ, ◌+◌, ◌/◌, ◌≤◌, ◌≡◌, ◌≢◌, ◌⊎◌, refl, leb, Bool, true, some, [], ◌∷◌, Result, length,
  arith, Option-cases, Bool-cases, inl, inr, not,
}
use sievetube.Prelude.Maps.{Map, get, Distinct, keep_unless, get-insert}
use sievetube.Policy.{World, RateLimit}
use sievetube.Policy.Bucket.{
  Bucket, BucketTable, TakeError, u64_max, claim_full_sweep, is_live, retain, sweep, take_at,
  make_room, fresh, take,
}
use sievetube.Policy.Bucket.Capacity.{take_at-some}

module _ (w : World) where
  get-retain :
      (p : Bucket w → Bool) (k : ℕ) (m : Map ℕ (Bucket w))
      → Distinct m
      → get k (retain w p m) ≡ keep_unless (λ b. not (p b)) (get k m)
  unfolding retain get
  get-retain p k [] d = refl
  get-retain p k ((j, b) ∷ m) d = ground (arith, get-retain p k m d.1)

  -- A sweep of a table with no key twice drops exactly the buckets that are not live, and leaves
  -- the others as they were.
  pub get-sweep :
      (t : BucketTable w) (now idle_ttl k : ℕ)
      → Distinct t.buckets
      → get k (sweep w t now idle_ttl).buckets
        ≡ keep_unless (λ b. not (is_live w now idle_ttl b)) (get k t.buckets)
  unfolding sweep
  get-sweep t now idle_ttl k d = get-retain (is_live w now idle_ttl) k t.buckets d

  -- Between two claims of a sweep that succeed one after the other lies a second at least, as long
  -- as the milliseconds of the first are a second short of the 64-bit limit.
  pub claim_full_sweep_interval :
      (t u v : BucketTable w) (first later : ℕ)
      → claim_full_sweep w t first ≡ (u, true)
      → claim_full_sweep w u later ≡ (v, true)
      → first / 1000000 + 1000 ≤ u64_max
      → first / 1000000 + 1000 ≤ later / 1000000
  unfolding claim_full_sweep
  claim_full_sweep_interval t u v first later p q fits = ground arith

  get-take_at :
      (t u : BucketTable w) (key j : ℕ) (b : Bucket w) (limit : RateLimit w) (amount : w.F)
      (now : ℕ) (r : Result (TakeError w) (Unit {0}))
      → take_at w t key b limit amount now ≡ some (u, r)
      → key ≢ j
      → get j u.buckets ≡ get j t.buckets
  get-take_at t u key j b limit amount now r h other =
      let (c, same, _) = take_at-some w t u key b limit amount now r h in
      rw same (ground (arith, get-insert key j c t.buckets))

  get-make_room :
      (t : BucketTable w) (now max_entries idle_ttl j : ℕ)
      → Distinct t.buckets
      → (get j (make_room w t now max_entries idle_ttl).buckets ≡ get j t.buckets)
        ⊎ (get j (make_room w t now max_entries idle_ttl).buckets
            ≡ keep_unless (λ b. not (is_live w now idle_ttl b)) (get j t.buckets))
  unfolding make_room claim_full_sweep sweep
  get-make_room t now max_entries idle_ttl j d =
      ground (arith, get-retain (is_live w now idle_ttl) j t.buckets d)

  -- A `take` under one key that does not panic, on a table with no key twice, leaves the bucket of
  -- any other key as it was, or drops it if it is too old.
  pub get-take_ne :
      (t u : BucketTable w) (key j : ℕ) (limit : RateLimit w) (amount : w.F)
      (now max_entries idle_ttl : ℕ) (r : Result (TakeError w) (Unit {0}))
      → take w t key limit amount now max_entries idle_ttl ≡ some (u, r)
      → Distinct t.buckets
      → key ≢ j
      → (get j u.buckets ≡ get j t.buckets)
        ⊎ (get j u.buckets ≡ keep_unless (λ b. not (is_live w now idle_ttl b)) (get j t.buckets))
  unfolding take
  get-take_ne t u key j limit amount now max_entries idle_ttl r h d other =
      elim (Option-cases (get key t.buckets)) [
        | inr (b, present) ↦ inl (get-take_at t u key j b limit amount now r (ground arith) other)
        | inl absent ↦
            let room = make_room w t now max_entries idle_ttl in
            let kept = get-make_room t now max_entries idle_ttl j d in
            elim (Bool-cases (leb max_entries (length room.buckets))) [
              | inl full ↦ ground arith
              | inr free ↦
                  let same =
                    get-take_at room u key j (fresh w limit now) limit amount now r (ground arith)
                      other in
                  ground arith
            ]
      ]
