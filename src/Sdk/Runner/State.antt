-- ===== src/Sdk/Runner/State.antt =====
-- The state of the `Runner` of sdk/src/runner.ts, what it writes to disk, and what it can be told from
-- outside. Keys and process ids are numbers.
use collateralized_agents.Base.{ℕ, ◌/◌, ℤ, pos, ◌+ℤ◌, Bool, Option, List}
use collateralized_agents.Sdk.Schedule.{OpenPosition}
use collateralized_agents.Sdk.Send.{Answer, Sent}

pub record Book : Type 0 where
  pub position : ℕ
  pub principal : ℕ
  pub balance_at_draw : ℤ
  pub drawn_at : ℤ
  pub settle_at : ℤ
  pub deadline : ℤ

pub record Settled : Type 0 where
  pub position : ℕ
  pub principal : ℕ
  pub returned : ℕ
  pub at : ℕ

-- `State`, which the state file holds.
pub record Stored : Type 0 where
  pub active : Option Book
  pub history : List Settled
  pub hook_pgid : Option ℕ
  pub min_slot : Option ℕ

-- A spawned hook: which call spawned it, and its process id, if it started.
pub record ChildProcess : Type 0 where
  pub spawned : ℕ
  pub pid : Option ℕ

pub record AgentAccount : Type 0 where
  pub executor : ℕ
  pub operator : ℕ

pub data Signal : Type 0 where
  sigterm sigkill : Signal

-- The first argument of `notify`.
pub data Notice : Type 0 where
  error warning settle_soon adopted low_balance settled_notice unbound rebound : Notice

-- What the runner does to the world besides writing its file, the latest first: a draw with the
-- position, a settle with the position and its amount, a hook with its process id.
pub data Act : Type 0 where
  drew : ℕ → Act
  settle_confirmed : ℕ → ℕ → Act
  started : Option ℕ → Act
  signalled : ℕ → Signal → Act
  notified : Notice → Act

-- `RunnerOptions`; whether there is a hook is what matters of it.
pub record RunnerOptions : Type 0 where
  pub agent : ℕ
  pub trading_key : ℕ
  pub hook : Bool
  pub hold_secs : ℕ
  pub buffer_secs : ℕ
  pub grace_secs : Option ℕ
  pub paper : Bool
  pub poll_ms : ℕ
  pub priority_micro_lamports : Option ℕ
  pub urgent_priority_micro_lamports : Option ℕ

-- The fields of `Runner`. `disk` is what the state file holds, `clock_ms` is `Date.now()`, and `calls`
-- counts the calls made.
pub record Runner : Type 0 where
  pub state : Stored
  pub disk : Stored
  pub agent_acc : AgentAccount
  pub hook : Option ChildProcess
  pub hook_exited : Bool
  pub stopping : Bool
  pub reserve : Option ℕ
  pub low_balance_notified : Bool
  pub skew : ℤ
  pub clock_at : ℕ
  pub clock_failed : Bool
  pub agent_at : ℕ
  pub unbound : Bool
  pub paper_book : Option Book
  pub paper_seen : List ℕ
  pub clock_ms : ℕ
  pub calls : ℕ
  pub acts : List Act

-- What can fire while the runner waits for a call: the `exit` or `error` of a hook, by the call that
-- spawned it, or a signal to stop.
pub data Fired : Type 0 where
  nothing : Fired
  hook_gone : ℕ → Fired
  asked_to_stop : Fired

-- The cluster and the operating system: every answer depends on the calls made before, and a call takes
-- some milliseconds. `own_group` says that a group is this process's own; a token account of `none` is
-- one that the node did not parse, else it is the raw amount; the fee of a settle is a function of the
-- time at which a transaction is built.
pub record Outside : Type 0 where
  pub took : ℕ → ℕ
  pub fired : ℕ → Fired
  pub chain_time : ℕ → Answer (Option ℤ)
  pub agent_account : ℕ → ℕ → Answer (Option AgentAccount)
  pub position_nullable : ℕ → ℕ → Answer (Option OpenPosition)
  pub positions : ℕ → ℕ → Answer (List OpenPosition)
  pub wallet_balance : ℕ → Option ℕ → ℕ → Answer ℕ
  pub rent_exemption : ℕ → Answer ℕ
  pub token_accounts : ℕ → ℕ → Answer (List (Option ℕ))
  pub draw_funds : ℕ → ℕ → ℕ → Answer (Unit {0})
  pub settle : ℕ → ℕ → (ℤ → ℕ) → ℕ → Answer Sent
  pub spawn : ℕ → Option ℕ
  pub own_group : ℕ → ℕ → Bool
  pub group_alive : ℕ → ℕ → Bool

unfoldable pub local_now : Runner → ℕ
local_now r = r.clock_ms / 1000

-- Seconds on the cluster's clock, as last measured.
unfoldable pub now : Runner → ℤ
now r = pos (local_now r) +ℤ r.skew
