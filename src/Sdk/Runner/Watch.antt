-- ===== src/Sdk/Runner/Watch.antt =====
-- What the `Runner` of sdk/src/runner.ts looks up before it acts: the clock, its agent, and its wallet.
use collateralized_agents.Base.{
  ℕ, ◌-◌, ℤ, pos, ◌-ℤ◌, Bool, true, false, ◌&&◌, ◌||◌, not, Option, none, some, ltb, ◌==◌,
  if◌then◌else◌,
}
use collateralized_agents.Sdk.Send.{rpc_failed}
use collateralized_agents.Sdk.Settle.{wallet_reserve}
use collateralized_agents.Sdk.Schedule.{priority_fee}
use collateralized_agents.Sdk.Runner.State.{
  AgentAccount, Runner, RunnerOptions, unbound, rebound, Outside, local_now,
}
use collateralized_agents.Sdk.Runner.Calls.{
  Doing, give, stop_with, see, change, notify, ◌>>>◌, ◌>>◌, attempt, ask,
}

abbrev pub clock_refresh_ms : ℕ
clock_refresh_ms = 300_000

abbrev pub agent_refresh_ms : ℕ
agent_refresh_ms = 120_000

abbrev pub default_priority : ℕ
default_priority = 1000

abbrev pub default_urgent_priority : ℕ
default_urgent_priority = 50_000

abbrev pub or_else : Option ℕ → ℕ → ℕ
or_else none d = d
or_else (some n) d = n

abbrev pub is_some : {A : Type 0} → Option A → Bool
is_some none = false
is_some (some a) = true

-- A slot of 0 counts as none.
abbrev pub context_slot : Option ℕ → Option ℕ
context_slot none = none
context_slot (some slot) = if slot == 0 then none else some slot

-- A time of 0 stands for never.
unfoldable pub is_fresh : ℕ → ℕ → Runner → Bool
is_fresh at every r = not (at == 0) && ltb (r.clock_ms - at) every

unfoldable pub got_time : Option ℤ → Doing (Unit {0})
got_time none = stop_with rpc_failed
got_time (some t) =
    change
      (λ r. record r { skew = t -ℤ pos (local_now r); clock_at = r.clock_ms; clock_failed = false })

unfoldable pub or_failed : Option (Unit {0}) → Doing (Unit {0})
or_failed (some u) = give tt
or_failed none = change (λ r. record r { clock_failed = true })

-- The alert on a key that is no longer bound: once, or each time while a position is at stake.
unfoldable pub tell_binding : Bool → Runner → Doing (Unit {0})
tell_binding true r = if r.unbound then notify rebound else give tt
tell_binding false r = if not r.unbound || is_some r.state.active then notify unbound else give tt

module _ (opts : RunnerOptions) where
  unfoldable pub urgent_fee : ℕ
  urgent_fee = or_else opts.urgent_priority_micro_lamports default_urgent_priority

  unfoldable pub fee_at : ℤ → ℤ → ℕ
  fee_at deadline t =
      priority_fee urgent_fee (or_else opts.priority_micro_lamports default_priority) deadline t

  unfoldable pub is_bound : AgentAccount → Bool
  is_bound a = (a.executor == opts.trading_key) || (a.operator == opts.trading_key)

  unfoldable pub got_agent : Option AgentAccount → Doing (Unit {0})
  got_agent none = give tt
  got_agent (some a) = change (λ r. record r { agent_acc = a }) >> see (λ r. r) >>> λ r.
      tell_binding (is_bound a) r >> change (λ r. record r { unbound = not (is_bound a) })

  unfoldable pub read_agent : Option (Option AgentAccount) → Doing (Unit {0})
  read_agent none = give tt
  read_agent (some a) = change (λ r. record r { agent_at = r.clock_ms }) >> got_agent a

module _ (outside : Outside) (opts : RunnerOptions) where
  -- `getSlot` and `getBlockTime` are one call here.
  unfoldable pub refresh_clock : Doing (Unit {0})
  refresh_clock = see (λ r. is_fresh r.clock_at clock_refresh_ms r) >>> λ fresh.
      if fresh
      then give tt
      else (attempt (ask outside outside.chain_time >>> got_time) >>> or_failed)

  unfoldable pub reserve_from : Option ℕ → Doing ℕ
  reserve_from (some v) = give v
  reserve_from none = ask outside outside.rent_exemption >>> λ rent.
      let v = wallet_reserve rent (urgent_fee opts) in
      change (λ r. record r { reserve = some v }) >> give v

  unfoldable pub read_reserve : Doing ℕ
  read_reserve = see (λ r. r.reserve) >>> reserve_from

  -- From a node that has seen the last settle.
  unfoldable pub balance : Doing ℕ
  balance = see (λ r. context_slot r.state.min_slot) >>> λ slot.
      ask outside (outside.wallet_balance opts.trading_key slot)

  unfoldable pub refresh_agent : Doing (Unit {0})
  refresh_agent = see (λ r. is_fresh r.agent_at agent_refresh_ms r) >>> λ fresh.
      if fresh
      then give tt
      else (attempt (ask outside (outside.agent_account opts.agent)) >>> read_agent opts)
