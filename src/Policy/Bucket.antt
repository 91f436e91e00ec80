-- ===== src/Policy/Bucket.antt =====
-- Token buckets, and the table of them. `none` is a panic: `Duration::from_secs_f64` panics where the
-- time to fill a bucket does not fit. Each call is atomic here; in the source the entry lock makes
-- the update of one bucket atomic.
pub mod Capacity
pub mod Sweep
use mathlib.Core.Option
use sievetube.Prelude.{
  nat_eq, ℕ, ◌+◌, ◌-◌, ◌/◌, ◌*◌, ◌^◌, Text, ltb, leb, Bool, true, false, none, some, List, [], ◌∷◌,
  ◌==◌, ◌&&◌, not, if◌then◌else◌, Result, ok, err, length, max, min,
}
use sievetube.Prelude.Maps.{Map, get, insert}
use sievetube.Policy.{World, RateLimit}

infixl 5 ◌>>=◌
abbrev pub ◌>>=◌ {ℓ κ} :
    {A : Type ℓ} {B : Type κ} → Option.Option A → (A → Option.Option B) → Option.Option B
none >>= f = none
some a >>= f = f a

abbrev pub u64_max : ℕ
u64_max = 2 ^ 64 - 1

abbrev pub saturating_add : ℕ → ℕ → ℕ
saturating_add a b = min (a + b) u64_max

-- `FULL_SWEEP_INTERVAL`, in milliseconds
abbrev pub full_sweep_interval_ms : ℕ
full_sweep_interval_ms = 1000

module _ (w : World) where
  pub record Bucket : Type 0 where
    pub tokens : w.F
    pub updated : ℕ
    pub full_after : ℕ

  pub data TakeError : Type 0 where
    limited : w.F → TakeError
    capacity : TakeError

  -- `Bucket::take`
  unfoldable pub take_tokens :
      Bucket → RateLimit w → w.F → ℕ → Option.Option (Bucket × Result TakeError (Unit {0}))
  take_tokens b limit amount now =
      let elapsed = w.as_secs (now - b.updated) in
      let tokens = w.f_min (w.f_add b.tokens (w.f_mul elapsed limit.per_second)) limit.burst in
      w.from_secs (w.f_div limit.burst limit.per_second) >>= λ full_after.
      if w.f_ge tokens amount
      then some
          (record { tokens = w.f_sub tokens amount; updated = now; full_after = full_after }, ok tt)
      else some (
        record { tokens = tokens; updated = now; full_after = full_after },
        err (limited (w.f_div (w.f_sub amount tokens) limit.per_second)),
      )

  pub record BucketTable : Type 0 where
    pub name : Text
    pub buckets : Map ℕ Bucket
    pub next_full_sweep_ms : ℕ

  unfoldable pub new_table : Text → BucketTable
  new_table name = record { name = name; buckets = []; next_full_sweep_ms = 0 }

  -- `claim_full_sweep`: the test, the compare-and-exchange and its new value.
  unfoldable pub claim_full_sweep : BucketTable → ℕ → BucketTable × Bool
  claim_full_sweep t now =
      let now_ms = min (now / 1000000) u64_max in
      let next = t.next_full_sweep_ms in
      let after = saturating_add now_ms full_sweep_interval_ms in
      if leb next now_ms then (record t { next_full_sweep_ms = after }, true) else (t, false)

  -- The test of `retain`.
  unfoldable pub is_live : ℕ → ℕ → Bucket → Bool
  is_live now idle_ttl b = ltb (now - b.updated) (max b.full_after idle_ttl)

  unfoldable pub retain : (Bucket → Bool) → Map ℕ Bucket → Map ℕ Bucket
  retain p [] = []
  retain p ((k, b) ∷ m) = let rest = retain p m in if p b then (k, b) ∷ rest else rest

  unfoldable pub sweep : BucketTable → ℕ → ℕ → BucketTable
  sweep t now idle_ttl = record t { buckets = retain (is_live now idle_ttl) t.buckets }

  -- Stores what `take_tokens` left of a bucket.
  unfoldable pub take_at :
      BucketTable
      → ℕ
      → Bucket
      → RateLimit w
      → w.F
      → ℕ
      → Option.Option (BucketTable × Result TakeError (Unit {0}))
  take_at t key b limit amount now = do
    (left, result) ← take_tokens b limit amount now
    some (record t { buckets = insert key left t.buckets }, result)

  -- A full table is swept, by one caller in an interval.
  unfoldable pub make_room : BucketTable → ℕ → ℕ → ℕ → BucketTable
  make_room t now max_entries idle_ttl =
      if leb max_entries (length t.buckets)
      then (let (claimed, mine) = claim_full_sweep t now in
          if mine then sweep claimed now idle_ttl else claimed)
      else t

  unfoldable pub fresh : RateLimit w → ℕ → Bucket
  fresh limit now = record { tokens = limit.burst; updated = now; full_after = 0 }

  -- `BucketTable::take`
  unfoldable pub take :
      BucketTable
      → ℕ
      → RateLimit w
      → w.F
      → ℕ
      → ℕ
      → ℕ
      → Option.Option (BucketTable × Result TakeError (Unit {0}))
  take t key limit amount now max_entries idle_ttl = elim (get key t.buckets) [
    | some b ↦ take_at t key b limit amount now
    | none ↦
        let room = make_room t now max_entries idle_ttl in
        if leb max_entries (length room.buckets)
        then some (room, err capacity)
        else take_at room key (fresh limit now) limit amount now
  ]
