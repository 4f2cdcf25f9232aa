-- ===== src/Ssh/Limiter/Handles.antt =====
-- application/src/ssh/limiter.rs: opening file handles from several tasks at once. The counter is
-- read and changed in atomic steps, between which other tasks run.
use ailes.Common.{ℕ, suc, ◌+◌, ◌<◌, ◌≤◌, ltb, if◌then◌else◌, ◌≡◌, ◌≢◌, arith}
use ailes.Common.Machine.{word}
use ailes.Ssh.Limiter.{
  Limits, SshLimiter, new, fetch_add, fetch_sub, may_open, open_handle, ok, refused,
}

-- The counter, with the tasks that have counted and do not hold a guard: those that will be handed
-- one, and those that will count back. `guards` are the guards that are not dropped.
pub record World : Type 0 where
  pub limiter : SshLimiter
  pub admitted : ℕ
  pub rejected : ℕ
  pub guards : ℕ

abbrev pub counted : World → ℕ
counted w = w.admitted + w.rejected + w.guards

abbrev pub initial : World
initial = record { limiter = new; admitted = 0; rejected = 0; guards = 0 }

-- What a task does after `fetch_add` answered `current`.
unfoldable pub decide : Limits → ℕ → World → World
decide limits current w =
    if may_open limits current
    then record w { admitted = suc w.admitted }
    else record w { rejected = suc w.rejected }

-- A step of one of any number of tasks. What has been counted is in memory, so fits a word.
pub data Step (limits : Limits) : World → World → Type 0 where
  add :
      (w : World)
      → suc (counted w) < word
      → Step limits w
          (decide limits (fetch_add w.limiter).1 (record w { limiter = (fetch_add w.limiter).0 }))
  hand_out :
      (w : World) (n : ℕ)
      → w.admitted ≡ suc n
      → Step limits w (record w { admitted = n; guards = suc w.guards })
  count_back :
      (w : World) (n : ℕ)
      → w.rejected ≡ suc n
      → Step limits w (record w { rejected = n; limiter = fetch_sub w.limiter })
  drop_guard :
      (w : World) (n : ℕ)
      → w.guards ≡ suc n
      → Step limits w (record w { guards = n; limiter = fetch_sub w.limiter })

pub data Reach (limits : Limits) : World → Type 0 where
  start : Reach limits initial
  step : {w v : World} → Reach limits w → Step limits w v → Reach limits v

abbrev pub Kept : World → Type 0
Kept w = (w.limiter.open_handles ≡ counted w) × (counted w < word)

Step-Kept : {limits : Limits} {w v : World} → Step limits w v → Kept w → Kept v
unfolding decide may_open fetch_add fetch_sub
Step-Kept (add w b) k = ground arith
Step-Kept (hand_out w n p) k = ground arith
Step-Kept (count_back w n p) k = ground arith
Step-Kept (drop_guard w n p) k = ground arith

-- In every reachable state the counter is the number of guards and of tasks between their two steps,
-- and has not wrapped.
pub Reach-Kept : {limits : Limits} {w : World} → Reach limits w → Kept w
unfolding new
Reach-Kept start = ground arith
Reach-Kept (step r s) = Step-Kept s (Reach-Kept r)

Step_bound :
    {limits : Limits} {w v : World}
    → limits.max_handles_total ≢ 0
    → Step limits w v
    → Kept w
    → w.admitted + w.guards ≤ limits.max_handles_total
    → v.admitted + v.guards ≤ limits.max_handles_total
unfolding decide may_open fetch_add fetch_sub
Step_bound h (add w b) k most = ground arith
Step_bound h (hand_out w n p) k most = ground arith
Step_bound h (count_back w n p) k most = ground arith
Step_bound h (drop_guard w n p) k most = ground arith

-- With a limit set, there are never more guards than it, those about to be handed out included, in
-- every interleaving of tasks that open and drop handles.
pub Reach_bound :
    {limits : Limits} {w : World}
    → limits.max_handles_total ≢ 0
    → Reach limits w
    → w.admitted + w.guards ≤ limits.max_handles_total
Reach_bound h start = ground arith
Reach_bound h (step r s) = Step_bound h s (Reach-Kept r) (Reach_bound h r)

-- With a limit set, `open_handle` without interruption in a reachable state is let in exactly when
-- the guards and the tasks between their steps are fewer than the limit; it then counts one more,
-- and changes nothing else. Otherwise it changes nothing at all.
pub open_handle-reachable :
    {limits : Limits} {w : World}
    → limits.max_handles_total ≢ 0
    → suc (counted w) < word
    → Reach limits w
    → open_handle limits w.limiter ≡ (
        if ltb (counted w) limits.max_handles_total
        then (record (w.limiter) { open_handles = suc (counted w) }, ok)
        else (w.limiter, refused))
unfolding open_handle may_open fetch_add fetch_sub
open_handle-reachable {limits} {w} h b r = ground (arith, Reach-Kept r)
