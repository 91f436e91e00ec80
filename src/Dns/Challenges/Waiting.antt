-- ===== src/Dns/Challenges/Waiting.antt =====
-- sievetube-edge/src/dns/txt.rs: waiting until a change is applied, and until a value is visible.
use sievetube.Prelude.{
  text_eq, nat_eq, ℕ, zero, suc, ◌+◌, ◌*◌, ◌≤◌, ◌≢◌, min, Text, leb, Result, ok, err, if◌then◌else◌,
  arith,
}
use sievetube.Dns.{ChangeTicket}
use sievetube.Dns.Challenges.{
  TxtHandle, TxtError, provider_failed, not_applied, not_visible, unfinished, TxtWorld,
}

module _ {V W : Type 0} (world : TxtWorld V W) where
  -- The loop of `wait_synced`.
  unfoldable pub poll_synced : ℕ → V → ChangeTicket → ℕ → ℕ → W → W × Result TxtError (Unit {0})
  poll_synced zero provider ticket deadline delay w = (w, err unfinished)
  poll_synced (suc fuel) provider ticket deadline delay w =
      let asked = world.change_synced provider ticket w in
      let rest =
        poll_synced fuel provider ticket deadline (min (delay * 2) 5000000000)
          (world.sleep delay asked.0) in
      elim asked.1 [
        | err e ↦ (asked.0, err (provider_failed e))
        | ok synced ↦
            if synced
            then (asked.0, ok tt)
            else if leb deadline (world.now asked.0)
            then (asked.0, err not_applied)
            else rest
      ]

  unfoldable pub wait_synced : ℕ → V → ChangeTicket → ℕ → W → W × Result TxtError (Unit {0})
  wait_synced fuel provider ticket limit w =
      poll_synced fuel provider ticket (world.now w + limit) 200000000 w

  -- `visible`, and the loop of `wait_propagated`.
  unfoldable pub poll_visible : ℕ → TxtHandle → ℕ → ℕ → W → W × Result TxtError (Unit {0})
  poll_visible zero handle deadline interval w = (w, err unfinished)
  poll_visible (suc fuel) handle deadline interval w =
      let looked = world.lookup_txt handle.name handle.value w in
      let rest = poll_visible fuel handle deadline interval (world.sleep interval looked.0) in
      if looked.1
      then (looked.0, ok tt)
      else if leb deadline (world.now looked.0)
      then (looked.0, err not_visible)
      else rest

  unfoldable pub wait_propagated : ℕ → TxtHandle → ℕ → ℕ → W → W × Result TxtError (Unit {0})
  wait_propagated fuel handle timeout interval w =
      poll_visible fuel handle (world.now w + timeout) interval w

  -- The clock goes on while this task sleeps, and never back.
  pub record Ticks : Type 0 where
    pub sleeping : (d : ℕ) (w : W) → world.now w + d ≤ world.now (world.sleep d w)
    pub asking :
        (v : V) (t : ChangeTicket) (w : W) → world.now w ≤ world.now (world.change_synced v t w).0
    pub looking : (n v : Text) (w : W) → world.now w ≤ world.now (world.lookup_txt n v w).0

  poll_synced-finishes :
      (f : ℕ) (v : V) (t : ChangeTicket) (deadline delay : ℕ) (w : W)
      → Ticks
      → 200000000 ≤ delay
      → deadline ≤ world.now w + f * 200000000
      → (poll_synced (suc f) v t deadline delay w).1 ≢ err unfinished
  unfolding poll_synced
  poll_synced-finishes zero v t deadline delay w ticks slow enough =
      let clock = ticks.asking v t w in λ ran_out. ground arith
  poll_synced-finishes (suc f) v t deadline delay w ticks slow enough =
      let asked = world.change_synced v t w in
      let next = world.sleep delay asked.0 in
      let clock = ticks.asking v t w in
      let slept = ticks.sleeping delay asked.0 in
      let rest =
        poll_synced-finishes f v t deadline (min (delay * 2) 5000000000) next ticks (ground arith)
          (omega (arith, clock, slept, slow, enough)) in
      λ ran_out. ground (arith, rest)

  poll_visible-finishes :
      (f : ℕ) (handle : TxtHandle) (deadline interval : ℕ) (w : W)
      → Ticks
      → deadline ≤ world.now w + f * interval
      → (poll_visible (suc f) handle deadline interval w).1 ≢ err unfinished
  unfolding poll_visible
  poll_visible-finishes zero handle deadline interval w ticks enough =
      let clock = ticks.looking handle.name handle.value w in λ ran_out. ground arith
  poll_visible-finishes (suc f) handle deadline interval w ticks enough =
      let looked = world.lookup_txt handle.name handle.value w in
      let next = world.sleep interval looked.0 in
      let clock = ticks.looking handle.name handle.value w in
      let slept = ticks.sleeping interval looked.0 in
      let rest =
        poll_visible-finishes f handle deadline interval next ticks
          (omega (arith, clock, slept, enough)) in
      λ ran_out. ground (arith, rest)

  -- If the clock goes on by at least what is slept and never back, waiting for a change to be
  -- applied ends within one poll more than the limit has steps of 200 ms.
  pub wait_synced-finishes :
      (f : ℕ) (limit : ℕ)
      → Ticks
      → limit ≤ f * 200000000
      → (v : V) (t : ChangeTicket) (w : W) → (wait_synced (suc f) v t limit w).1 ≢ err unfinished
  unfolding wait_synced
  wait_synced-finishes f limit ticks enough v t w =
      poll_synced-finishes f v t (world.now w + limit) 200000000 w ticks (ground arith)
        (omega (arith, enough))

  -- If the clock goes on by at least what is slept and never back, waiting for a value to be visible ends
  -- within one look more than the timeout has intervals.
  pub wait_propagated-finishes :
      (f : ℕ) (timeout interval : ℕ)
      → Ticks
      → timeout ≤ f * interval
      → (handle : TxtHandle) (w : W)
      → (wait_propagated (suc f) handle timeout interval w).1 ≢ err unfinished
  unfolding wait_propagated
  wait_propagated-finishes f timeout interval ticks enough handle w =
      poll_visible-finishes f handle (world.now w + timeout) interval w ticks
        (omega (arith, enough))
