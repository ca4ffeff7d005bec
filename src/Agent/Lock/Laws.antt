-- ===== src/Agent/Lock/Laws.antt =====
-- When a lock of agent/src/lock.ts holds, and what one runner's start and stop do to it.
use collateralized_agents.Base.{
  ℕ, Bool, true, false, ==_self, ◌≡◌, ◌≢◌, ◌↔◌, refl, Option, none, some, arith,
}
use collateralized_agents.Agent.Lock.{
  LockInfo, Reason, rebooted, same_boot, is_same, stale_reason, Content, line, content_reason,
  Phase, holding, refused, decide, advance, acquire_lock, write, release,
}

-- A lock holds exactly when it was taken on this host, in this boot as far as both boots are known,
-- by another process, and that process is running.
stale_reason_iff :
    (held me : LockInfo) (pid_alive : ℕ → Bool)
    → (stale_reason held me pid_alive ≡ none) ↔ (
        (held.host ≡ me.host)
        × (rebooted held.boot_id me.boot_id ≡ false)
        × (held.pid ≢ me.pid)
        × (pid_alive held.pid ≡ true))
unfolding stale_reason
stale_reason_iff held me pid_alive = ground arith

same_boot_self : (b : Option ℕ) → same_boot b b ≡ true
same_boot_self none = refl
same_boot_self (some b) = ==_self b

pub is_same_self : (me : LockInfo) → is_same me me ≡ true
is_same_self me =
    rw (==_self me.pid, ==_self me.host, same_boot_self me.boot_id, ==_self me.started_at)

-- A start takes a lock that is not there or stale, and leaves a lock that holds as it is and gives
-- up; a stop then removes the lock that was taken.
acquire_lock_lem :
    (me : LockInfo) (pid_alive : ℕ → Bool) (c : Content)
    → (acquire_lock me pid_alive none ≡ (holding, some (line me)))
      × (acquire_lock me pid_alive (some c) ≡ (elim (content_reason c me pid_alive) [
        | none ↦ (refused, some c)
        | some r ↦ (holding, some (line me))
      ]))
      × (release me (some (line me)) ≡ none)
unfolding acquire_lock advance decide release write
acquire_lock_lem me pid_alive c =
    (rw (is_same_self me) refl, taken (content_reason c me pid_alive), rw (is_same_self me))
  where
    step : Phase × Option Content → Phase × Option Content
    step p = advance me pid_alive p.0 p.1

    taken :
        (r : Option Reason)
        → step (step (step (decide r, some c)))
          ≡ (elim r [ none ↦ (refused, some c) | some x ↦ (holding, some (line me)) ])
    taken none = refl
    taken (some x) = rw (is_same_self me) refl
