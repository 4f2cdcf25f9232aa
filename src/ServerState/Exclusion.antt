-- ===== src/ServerState/Exclusion.antt =====
-- application/src/server/state.rs: at most one power action runs at a time, and the mutex is held
-- exactly while one does.
use ailes.Common.{
  ℕ, zero, suc, ◌+◌, ◌≡◌, refl, true, false, Option, none, some, List, [], ◌∷◌, get_elem?, set,
  replicate, if◌then◌else◌, arith,
}
use ailes.ServerState.{
  ServerStateLock, new, Setting, set_state, step_set_state, replacing, triggering, telling,
  clearing, Flagging, comparing, storing, set_pending_restart, step_pending, store_pending,
}
use ailes.ServerState.Steps
use ailes.ServerState.Steps.{
  After, acts, fails_then, ends, Task, idle, waiting, setting, acting, flagging, returned, World,
  take_lock, begin, resume, acquire, advance, succeed, fail, refuse, call_set_state, flag,
  call_set_pending_restart, advance_flag, Step, begins, acquires, gives_up, advances, succeeds,
  fails, sets, pends, flags, Reach, here, next,
}

-- `n` tasks that have called nothing yet.
abbrev pub start : ℕ → World
start n = record { lock = new; tasks = replicate n idle }

abbrev holds_after : After → ℕ
holds_after (acts target old) = 1
holds_after fails_then = 1
holds_after ends = 0

-- From the guard on to its drop.
abbrev holds : Task → ℕ
holds (acting target old) = 1
holds (setting after s) = holds_after after
holds _ = 0

unfoldable pub count_holding : List Task → ℕ
count_holding [] = 0
count_holding (t ∷ ts) = holds t + count_holding ts

count_holding-set :
    (ts : List Task) (i : ℕ) (x y : Task)
    → get_elem? ts i ≡ some x
    → count_holding (set ts i y) + holds x ≡ count_holding ts + holds y
unfolding count_holding
count_holding-set [] i x y h = cc
count_holding-set (t ∷ ts) zero x y h = let same : t ≡ x = cc in rw same (omega arith)
count_holding-set (t ∷ ts) (suc i) x y h = omega (arith, count_holding-set ts i x y h)

pub step_set_state-locked :
    (s : Setting) (l : ServerStateLock) → (step_set_state s l).1.locked ≡ l.locked
unfolding step_set_state store_pending
step_set_state-locked (replacing s) l = refl
step_set_state-locked (triggering s) l = refl
step_set_state-locked (telling s) l = ground arith
step_set_state-locked clearing l = refl

step_pending-locked : (p : Flagging) (l : ServerStateLock) → (step_pending p l).1.locked ≡ l.locked
unfolding step_pending store_pending
step_pending-locked comparing l = ground arith
step_pending-locked (storing b) l = refl

abbrev pub HeldByOne : World → Type 0
HeldByOne w = count_holding w.tasks ≡ (if w.lock.locked then 1 else 0)

-- A call of `set_state` goes on or ends for a task that held the mutex as often as what follows does.
resume-HeldByOne :
    (w : World) (i : ℕ) (x : Task) (after : After) (next : Option Setting) (l : ServerStateLock)
    → get_elem? w.tasks i ≡ some x
    → count_holding w.tasks + holds_after after ≡ (if l.locked then 1 else 0) + holds x
    → HeldByOne (resume w i after next l)
unfolding resume
resume-HeldByOne w i x after (some s) l h p =
    omega (arith, count_holding-set w.tasks i x (setting after s) h)
resume-HeldByOne w i x (acts target old) none l h p =
    omega (arith, count_holding-set w.tasks i x (acting target old) h)
resume-HeldByOne w i x fails_then none l h p =
    ground (arith, count_holding-set w.tasks i x (returned Steps.failed) h)
resume-HeldByOne w i x ends none l h p = omega (arith, count_holding-set w.tasks i x idle h)

flag-HeldByOne :
    (w : World) (i : ℕ) (x : Task) (next : Option Flagging) (l : ServerStateLock)
    → get_elem? w.tasks i ≡ some x
    → holds x ≡ 0
    → l.locked ≡ w.lock.locked
    → HeldByOne w
    → HeldByOne (flag w i next l)
unfolding flag
flag-HeldByOne w i x none l h z same p =
    rw same (omega (arith, count_holding-set w.tasks i x idle h))
flag-HeldByOne w i x (some q) l h z same p =
    rw same (omega (arith, count_holding-set w.tasks i x (flagging q) h))

Step-HeldByOne : {i : ℕ} {w v : World} → Step i w v → HeldByOne w → HeldByOne v
unfolding begin acquire advance succeed fail refuse call_set_state call_set_pending_restart
    advance_flag
Step-HeldByOne (begins w i target timeout h) p =
    omega (arith, count_holding-set w.tasks i idle (waiting target w.lock.state timeout) h)
Step-HeldByOne (acquires w i target old timeout h free) p =
    resume-HeldByOne w i (waiting target old timeout) (acts target old)
      (set_state target (take_lock w.lock)) (take_lock w.lock) h (ground arith)
Step-HeldByOne (gives_up w i target old timeout h held) p = omega (
  arith,
  count_holding-set w.tasks i (waiting target old timeout) (returned (Steps.done false)) h,
)
Step-HeldByOne (advances w i after s h) p =
    resume-HeldByOne w i (setting after s) after (step_set_state s w.lock).0
      (step_set_state s w.lock).1 h (rw (step_set_state-locked s w.lock) (omega arith))
Step-HeldByOne (succeeds w i target old h) p =
    ground (arith, count_holding-set w.tasks i (acting target old) (returned (Steps.done true)) h)
Step-HeldByOne (fails w i target old h) p =
    resume-HeldByOne w i (acting target old) fails_then (set_state old w.lock) w.lock h
      (omega arith)
Step-HeldByOne (sets w i s h) p =
    resume-HeldByOne w i idle ends (set_state s w.lock) w.lock h (omega arith)
Step-HeldByOne (pends w i b h) p =
    flag-HeldByOne w i idle (set_pending_restart b w.lock) w.lock h refl refl p
Step-HeldByOne (flags w i q h) p =
    flag-HeldByOne w i (flagging q) (step_pending q w.lock).0 (step_pending q w.lock).1 h refl
      (step_pending-locked q w.lock) p

start-HeldByOne : (n : ℕ) → HeldByOne (start n)
unfolding count_holding new
start-HeldByOne zero = refl
start-HeldByOne (suc n) = omega (arith, start-HeldByOne n)

-- In every state that any number of tasks can reach, the mutex is held exactly while one task is
-- between the guard of its action and the guard's drop, and never by two.
pub Reach-HeldByOne : (n : ℕ) {w : World} → Reach (start n) w → HeldByOne w
Reach-HeldByOne n here = start-HeldByOne n
Reach-HeldByOne n (next r s) = Step-HeldByOne s (Reach-HeldByOne n r)
