-- ===== src/Sdk/Runner/Loop.antt =====
-- Paper mode of the `Runner` of sdk/src/runner.ts, a tick of either mode, and the loop of ticks.
use collateralized_agents.Base.{
  includes, ℕ, zero, suc, ℤ, pos, pos_part, not, Option, none, some, ◌∷◌, keep_if, if◌then◌else◌,
}
use collateralized_agents.Sdk.Send.{rpc_failed}
use collateralized_agents.Sdk.Schedule.{OpenPosition, settle_time, loop_sleep_ms}
use collateralized_agents.Sdk.Runner.State.{
  AgentAccount, Book, Runner, RunnerOptions, error, Outside, now,
}
use collateralized_agents.Sdk.Runner.Calls.{
  Doing, give, stop_with, see, change, notify, ◌>>>◌, ◌>>◌, attempt, ask, sleep,
}
use collateralized_agents.Sdk.Runner.Watch.{refresh_clock, refresh_agent, is_bound}
use collateralized_agents.Sdk.Runner.Hook.{stop_hook, start_hook, reap_orphan_hook}
use collateralized_agents.Sdk.Runner.Tick.{is_due, new_book, next_now, trade}

module _ (outside : Outside) (opts : RunnerOptions) where
  unfoldable pub paper_close : Book → Doing (Unit {0})
  paper_close book = see (is_due book) >>> λ due.
      if due
      then (stop_hook outside opts book.deadline >>> λ is_gone.
          change (λ r. record r { paper_book = none }))
      else give tt

  unfoldable pub paper_open : Option OpenPosition → Doing (Unit {0})
  paper_open none = give tt
  paper_open (some p) = see now >>> λ t.
      change (λ r. record r {
        paper_seen = p.public_key ∷ r.paper_seen;
        paper_book =
            some (new_book p (pos 0) t (settle_time opts.buffer_secs opts.hold_secs t p.deadline));
      })
      >> start_hook outside opts

  unfoldable pub paper_look : Doing (Unit {0})
  paper_look = ask outside (outside.positions opts.agent) >>> λ ps. see (λ r. r) >>> λ r.
      paper_open (next_now opts (keep_if (λ p. not (includes r.paper_seen p.public_key)) ps) r)

  unfoldable pub paper_trade : Option Book → Doing (Unit {0})
  paper_trade (some book) = paper_close book
  paper_trade none = paper_look

  unfoldable pub work : Runner → Doing (Unit {0})
  work r = if opts.paper then paper_trade r.paper_book else trade outside opts r.state.active

  unfoldable pub tick : Doing (Unit {0})
  tick =
      refresh_clock outside opts
      >> reap_orphan_hook outside opts
      >> refresh_agent outside opts
      >> (see (λ r. r) >>> work)

  abbrev pub or_book : Option Book → Option Book → Option ℤ
  or_book (some book) other = some book.settle_at
  or_book none (some book) = some book.settle_at
  or_book none none = none

  unfoldable pub or_error : Option (Unit {0}) → Doing (Unit {0})
  or_error (some u) = give tt
  or_error none = notify error

  -- One round of the loop: a tick, whose error is told, and the sleep after it.
  unfoldable pub round : Doing (Unit {0})
  round =
      attempt tick
      >>> or_error
      >> see
          (λ r. pos_part (loop_sleep_ms opts.poll_ms (or_book r.state.active r.paper_book) (now r)))
      >>> sleep outside

  -- The loop, cut off after so many rounds.
  unfoldable pub rounds : ℕ → Doing (Unit {0})
  rounds zero = give tt
  rounds (suc n) =
      see (λ r. r.stopping) >>> λ stopping. if stopping then give tt else (round >> rounds n)

  unfoldable pub begin : Option AgentAccount → Doing (Unit {0})
  begin none = stop_with rpc_failed
  begin (some a) =
      if is_bound opts a
      then change (λ r. record r { agent_acc = a; agent_at = r.clock_ms })
      else stop_with rpc_failed

  -- `start`, cut off after so many rounds. An error before the loop ends it.
  unfoldable pub start : ℕ → Doing (Unit {0})
  start n = ask outside (outside.agent_account opts.agent) >>> begin >> rounds n
