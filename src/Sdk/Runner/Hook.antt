-- ===== src/Sdk/Runner/Hook.antt =====
-- The hook of the `Runner` of sdk/src/runner.ts, which runs in a process group of its own: how it is
-- started, and how the group is stopped.
use collateralized_agents.Base.{
  ℕ, zero, suc, ◌+◌, ◌*◌, ◌/◌, ℤ, pos_part, Bool, true, false, Option, none, some, ltb,
  if◌then◌else◌,
}
use collateralized_agents.Sdk.Schedule.{hook_grace_secs}
use collateralized_agents.Sdk.Runner.State.{
  Book, ChildProcess, RunnerOptions, sigterm, sigkill, warning, signalled, started, Outside, now,
}
use collateralized_agents.Sdk.Runner.Calls.{
  Doing, give, see, change, act, notify, save, set_state, ◌>>>◌, ◌>>◌, sleep, group_alive,
}

-- How the wait for a group ends: it is gone, the time is over, or the loop has no fuel left.
pub data Wait : Type 0 where
  gone : Wait
  over : Wait
  unfinished : Wait

unfoldable pub book_deadline : Option Book → Option ℤ
book_deadline none = none
book_deadline (some book) = some book.deadline

module _ (outside : Outside) (opts : RunnerOptions) where
  unfoldable pub clear_hook_pgid : Doing (Unit {0})
  clear_hook_pgid = see (λ r. r.state.hook_pgid) >>> λ pgid. elim pgid [
    | none ↦ give tt
    | some n ↦ set_state (λ s. record s { hook_pgid = none }) >> save
  ]

  -- The loops of `killGroup`: `pause` milliseconds between two looks, until `until` or the group is gone.
  unfoldable pub wait_gone : ℕ → ℕ → ℕ → ℕ → Doing Wait
  wait_gone zero pgid pause until = give unfinished
  wait_gone (suc fuel) pgid pause until = group_alive outside pgid >>> λ alive.
      see (λ r. ltb r.clock_ms until) >>> λ early.
      if alive
      then (if early then (sleep outside pause >> wait_gone fuel pgid pause until) else give over)
      else give gone

  -- A loop of `wait_ms` milliseconds, with fuel for a look at its start and after each pause.
  unfoldable pub wait_for : ℕ → ℕ → ℕ → Doing Wait
  wait_for wait_ms pgid pause = see (λ r. r.clock_ms + wait_ms) >>> λ until.
      wait_gone (suc (suc (wait_ms / pause))) pgid pause until

  -- After SIGTERM and its grace; what is left after SIGKILL is only logged.
  unfoldable pub kill_hard : ℕ → Bool → Doing Bool
  kill_hard pgid false = give true
  kill_hard pgid true = act (signalled pgid sigkill) >> wait_for 5000 pgid 100 >>> λ w.
      group_alive outside pgid >>> λ alive. give (if alive then false else true)

  -- `hookGraceSecs` is never negative.
  unfoldable pub term_group : ℕ → Option ℤ → Doing Bool
  term_group pgid deadline =
      see (λ r. pos_part (hook_grace_secs opts.grace_secs deadline (now r))) >>> λ grace.
      act (signalled pgid sigterm) >> wait_for (grace * 1000) pgid 250 >>> λ w.
      group_alive outside pgid >>> kill_hard pgid

  -- The answer tells whether the last look found the group gone; the source returns nothing.
  unfoldable pub kill_group : ℕ → Option ℤ → Doing Bool
  kill_group pgid deadline =
      group_alive outside pgid >>> λ alive. if alive then term_group pgid deadline else give true

  unfoldable pub end_hook : Option ChildProcess → ℤ → Doing Bool
  end_hook none deadline = give true
  end_hook (some h) deadline = elim h.pid [
    | none ↦ give true
    | some pid ↦ kill_group pid (some deadline)
  ]

  unfoldable pub stop_hook : ℤ → Doing Bool
  stop_hook deadline = see (λ r. r.hook) >>> λ h.
      change (λ r. record r { hook = none }) >> end_hook h deadline >>> λ is_gone.
      clear_hook_pgid >> give is_gone

  unfoldable pub reap_group : ℕ → Doing (Unit {0})
  reap_group pgid = see (λ r. book_deadline r.state.active) >>> λ deadline.
      notify warning >> kill_group pgid deadline >>> λ is_gone. clear_hook_pgid

  unfoldable pub reap_foreign : ℕ → Doing (Unit {0})
  reap_foreign pgid =
      group_alive outside pgid >>> λ alive. if alive then reap_group pgid else clear_hook_pgid

  unfoldable pub reap : Option ℕ → Option ChildProcess → Doing (Unit {0})
  reap none h = give tt
  reap (some pgid) (some h) = give tt
  reap (some pgid) none = see (λ r. outside.own_group pgid r.calls) >>> λ own.
      if own then clear_hook_pgid else reap_foreign pgid

  -- A process id is never 0, which the source takes for none.
  unfoldable pub reap_orphan_hook : Doing (Unit {0})
  reap_orphan_hook = see (λ r. r) >>> λ r. reap r.state.hook_pgid r.hook

  unfoldable pub note_pid : Option ℕ → Doing (Unit {0})
  note_pid none = give tt
  note_pid (some pid) = set_state (λ s. record s { hook_pgid = some pid }) >> save

  unfoldable pub run_hook : Doing (Unit {0})
  run_hook = see (λ r. r) >>> λ r.
      let pid = outside.spawn r.calls in
      change (λ r. record r {
        hook = some (record { spawned = r.calls; pid = pid });
        hook_exited = false;
        calls = suc r.calls;
      })
      >> act (started pid)
      >> note_pid pid

  -- The book only reaches the hook's environment.
  unfoldable pub start_hook : Doing (Unit {0})
  start_hook = if opts.hook then run_hook else give tt
