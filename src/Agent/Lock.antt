-- ===== src/Agent/Lock.antt =====
-- agent/src/lock.ts: the lock file that is to keep two runners from trading the same books. Starting is
-- several file calls, so two runners may interleave; each call is a step here.
pub mod Laws
pub mod Exclusion
use collateralized_agents.Base.{
  ℕ, ◌+◌, Bool, true, false, not, ◌&&◌, ◌==◌, if◌then◌else◌, Option, none, some, List, [], ◌∷◌,
}

-- Texts are numbers. No two starts of a process have the same `started_at` on one machine.
pub record LockInfo : Type 0 where
  pub pid : ℕ
  pub host : ℕ
  pub boot_id : Option ℕ
  pub started_at : ℕ

pub data Reason : Type 0 where
  other_host : Reason
  before_reboot : Reason
  this_process : Reason
  not_running : Reason
  does_not_parse : Reason

-- Both boots are known and differ.
unfoldable pub rebooted : Option ℕ → Option ℕ → Bool
rebooted none b = false
rebooted (some a) none = false
rebooted (some a) (some b) = not (a == b)

unfoldable pub stale_reason : LockInfo → LockInfo → (ℕ → Bool) → Option Reason
stale_reason held me pid_alive =
    if not (held.host == me.host)
    then some other_host
    else if rebooted held.boot_id me.boot_id
    then some before_reboot
    else if held.pid == me.pid
    then some this_process
    else if not (pid_alive held.pid)
    then some not_running
    else none

abbrev same_boot : Option ℕ → Option ℕ → Bool
same_boot none none = true
same_boot none (some b) = false
same_boot (some a) none = false
same_boot (some a) (some b) = a == b

abbrev pub is_same : LockInfo → LockInfo → Bool
is_same held me =
    (held.pid == me.pid)
    && (held.host == me.host)
    && same_boot held.boot_id me.boot_id
    && (held.started_at == me.started_at)

-- What a lock file holds: a runner's line, what a crash left of it, or nothing yet, when the runner that
-- created the file has not written to it.
pub data Content : Type 0 where
  line : LockInfo → Content
  garbled : Content
  created : LockInfo → Content

unfoldable pub content_reason : Content → LockInfo → (ℕ → Bool) → Option Reason
content_reason (line held) me pid_alive = stale_reason held me pid_alive
content_reason garbled me pid_alive = some does_not_parse
content_reason (created by) me pid_alive = some does_not_parse

-- Where a runner is in `acquireLock`: before its first `openSync`, before the `read`, before the `remove`,
-- before the second `openSync`, before the `writeSync` after one that created the file, and at the end.
-- `refused` is the throw at a live lock, `lost` at a lock that another runner took, `failed` where a file
-- call throws.
pub data Phase : Type 0 where
  starting reading removing retrying writing holding refused lost failed : Phase

unfoldable pub decide : Option Reason → Phase
decide none = refused
decide (some reason) = removing

-- `writeSync` goes to the file that this runner created, which may be removed by now.
unfoldable pub write : LockInfo → Option Content → Option Content
write me none = none
write me (some (line held)) = some (line held)
write me (some garbled) = some garbled
write me (some (created by)) = if is_same by me then some (line me) else some (created by)

-- One file call of the runner, on the lock file as it is then. A file that is gone does not parse,
-- and cannot be removed. `openSync` with `wx` creates the file empty.
unfoldable pub advance : LockInfo → (ℕ → Bool) → Phase → Option Content → Phase × Option Content
advance me pid_alive starting none = (writing, some (created me))
advance me pid_alive starting (some c) = (reading, some c)
advance me pid_alive reading none = (removing, none)
advance me pid_alive reading (some c) = (decide (content_reason c me pid_alive), some c)
advance me pid_alive removing none = (failed, none)
advance me pid_alive removing (some c) = (retrying, none)
advance me pid_alive retrying none = (writing, some (created me))
advance me pid_alive retrying (some c) = (lost, some c)
advance me pid_alive writing f = (holding, write me f)
advance me pid_alive holding f = (holding, f)
advance me pid_alive refused f = (refused, f)
advance me pid_alive lost f = (lost, f)
advance me pid_alive failed f = (failed, f)

-- `acquireLock` with no other runner about.
unfoldable pub acquire_lock : LockInfo → (ℕ → Bool) → Option Content → Phase × Option Content
acquire_lock me pid_alive f = step (step (step (step (step (starting, f)))))
  where
    step : Phase × Option Content → Phase × Option Content
    step p = advance me pid_alive p.0 p.1

abbrev pub is_line : LockInfo → Option Content → Bool
is_line me (some (line held)) = is_same held me
is_line me _ = false

-- The function that `acquireLock` returns: it removes the lock if it is still ours.
unfoldable pub release : LockInfo → Option Content → Option Content
release me f = if is_line me f then none else f

-- Two runners on one folder, and the order of their calls: `true` is the first runner's.
pub record World : Type 0 where
  pub file : Option Content
  pub first : Phase
  pub second : Phase

module _ (a b : LockInfo) (pid_alive : ℕ → Bool) where
  unfoldable pub call_of : Bool → World → World
  call_of true w =
      let p = advance a pid_alive w.first w.file in record w { file = p.1; first = p.0 }
  call_of false w =
      let p = advance b pid_alive w.second w.file in record w { file = p.1; second = p.0 }

  unfoldable pub run : List Bool → World → World
  run [] w = w
  run (x ∷ xs) w = run xs (call_of x w)

abbrev pub both_start : Option Content → World
both_start f = record { file = f; first = starting; second = starting }

abbrev pub holds : Phase → ℕ
holds holding = 1
holds _ = 0

-- How many of the two runners went on with the lock.
abbrev pub holders : World → ℕ
holders w = holds w.first + holds w.second
