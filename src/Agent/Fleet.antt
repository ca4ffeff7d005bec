-- ===== src/Agent/Fleet.antt =====
-- `tickAll` of agent/src/agent.ts: one tick of every runner, with the scans before it and the alerts
-- after it.
pub mod Alerts
pub mod Steps
use collateralized_agents.Base.{
  ℕ, suc, ℤ, Bool, true, false, ◌&&◌, if◌then◌else◌, Option, none, some, List, [], ◌∷◌, Dict,
}
use collateralized_agents.Agent.Config.{AgentConfig}
use collateralized_agents.Agent.Schedule.{should_alert}
use collateralized_agents.Agent.State.{Book}
use collateralized_agents.Agent.System.{
  Error, Result, ok, err, Position, PoolCache, Core, Sys, Act, pure, gets, ◌>>=◌, ◌>>◌,
}
use collateralized_agents.Agent.Env.{Env}
use collateralized_agents.Agent.Runner.{now}
use collateralized_agents.Agent.Loop.{keys, tick, settle_due}

-- A runner, with its own keys: the environment its calls go to, and its agent's address.
pub record Runner : Type 0 where
  pub env : Env
  pub cfg : AgentConfig
  pub agent : ℕ
  pub core : Core

-- What the runners of one process share: the pool cache, and the count of calls.
pub record Shared : Type 0 where
  pub pool_cache : Option PoolCache
  pub calls : ℕ

-- `ScanDeps`
pub record ScanDeps : Type 0 where
  pub positions_for_agent : ℕ → ℕ → Result (List Position)
  pub positions_by_key : List ℕ → ℕ → Result (List Position)

-- A runner whose positions were fetched, or not; the fetched list is in its core.
pub record Scan : Type 0 where
  pub runner : Runner
  pub fetched : Bool
  pub partial : Bool

abbrev pub sys_of : Runner → Shared → Sys
sys_of r sh = record { core = r.core; pool_cache = sh.pool_cache; calls = sh.calls }

abbrev pub shared_of : Sys → Shared
shared_of s = record { pool_cache = s.pool_cache; calls = s.calls }

abbrev pub with_positions : List Position → Runner → Runner
with_positions ps r = record r { core = record r.core { positions = ps } }

abbrev pub counted : Shared → Shared
counted sh = record sh { calls = suc sh.calls }

module _ (io : ScanDeps) where
  unfoldable pub scan_tracked : Runner → Result (List Position) → Scan
  scan_tracked r (ok ps) = record { runner = with_positions ps r; fetched = true; partial = true }
  scan_tracked r (err e) = record { runner = r; fetched = false; partial = false }

  -- The agent's own scan, and if it fails the positions in the books, fetched by address.
  unfoldable pub scan_with : Runner → Shared → Result (List Position) → Scan × Shared
  scan_with r sh (ok ps) =
      (record { runner = with_positions ps r; fetched = true; partial = false }, sh)
  scan_with r sh (err e) =
      (scan_tracked r (io.positions_by_key (keys r.core.state.books) sh.calls), counted sh)

  unfoldable pub scan : Runner → Shared → Scan × Shared
  scan r sh = scan_with r (counted sh) (io.positions_for_agent r.agent sh.calls)

  unfoldable pub scans : List Runner → Shared → List Scan × Shared
  scans [] sh = ([], sh)
  scans (r ∷ rs) sh =
      let first = scan r sh in let rest = scans rs first.1 in (first.0 ∷ rest.0, rest.1)

abbrev pub with_core : Scan → Sys → Scan
with_core s t = record s { runner = record s.runner { core = t.core } }

-- One runner in the settle pass, if its positions were fetched; what it throws is logged.
unfoldable pub settle_if : Bool → Scan → Shared → Scan × Shared
settle_if false s sh = (s, sh)
settle_if true s sh =
    let ended = (settle_due s.runner.env s.runner.cfg (sys_of s.runner sh)).1 in
    (with_core s ended, shared_of ended)

unfoldable pub settle_pass : List Scan → Shared → List Scan × Shared
settle_pass [] sh = ([], sh)
settle_pass (s ∷ ss) sh =
    let first = settle_if s.fetched s sh in
    let rest = settle_pass ss first.1 in (first.0 ∷ rest.0, rest.1)

-- The books that get an ALERT line.
unfoldable pub alert_near_deadline : Env → Bool → Dict Book → Act (List ℕ)
alert_near_deadline env tick_ran [] = pure []
alert_near_deadline env tick_ran ((key, book) ∷ books) = do
  t ← now env
  if should_alert book t tick_ran
      then (now env >>= λ left.
          alert_near_deadline env tick_ran books >>= λ rest. pure (key ∷ rest))
      else alert_near_deadline env tick_ran books

-- What became of one runner's tick.
pub record Outcome : Type 0 where
  pub runner : Runner
  pub ran : Bool
  pub partial : Bool
  pub alerts : List ℕ

abbrev pub returned : {A : Type 0} → Result A → Bool
returned (ok a) = true
returned (err e) = false

abbrev pub listed : Result (List ℕ) → List ℕ
listed (ok ks) = ks
listed (err e) = []

unfoldable pub alerted : Scan → Bool → Sys → Outcome × Shared
alerted s ran t =
    let alerts = alert_near_deadline s.runner.env ran t.core.state.books t in
    (
      record {
        runner = record s.runner { core = alerts.1.core };
        ran = ran;
        partial = s.partial;
        alerts = listed alerts.0;
      },
      shared_of alerts.1,
    )

-- One runner's tick, if its positions were fetched.
unfoldable pub tick_if : Bool → Option ℕ → Scan → Shared → Outcome × Shared
tick_if false price s sh = alerted s false (sys_of s.runner sh)
tick_if true price s sh =
    let ticked = tick s.runner.env s.runner.cfg price s.partial (sys_of s.runner sh) in
    alerted s (returned ticked.0) ticked.1

unfoldable pub tick_pass : Option ℕ → List Scan → Shared → List Outcome × Shared
tick_pass price [] sh = ([], sh)
tick_pass price (s ∷ ss) sh =
    let first = tick_if s.fetched price s sh in
    let rest = tick_pass price ss first.1 in (first.0 ∷ rest.0, rest.1)

-- Every scan, then every settle pass, then every tick.
unfoldable pub tick_all : ScanDeps → Option ℕ → List Runner → Shared → List Outcome × Shared
tick_all io price runners sh =
    let scanned = scans io runners sh in
    let settled = settle_pass scanned.0 scanned.1 in tick_pass price settled.0 settled.1

-- The agents whose tick ran, and the ids of those that ran on a partial list.
unfoldable pub ran : List Outcome → List ℕ
ran [] = []
ran (o ∷ os) = if o.ran then o.runner.agent ∷ ran os else ran os

unfoldable pub degraded : List Outcome → List ℕ
degraded [] = []
degraded (o ∷ os) = if o.ran && o.partial then o.runner.cfg.id ∷ degraded os else degraded os

-- `heartbeatNote`
unfoldable pub heartbeat_note : List ℕ → Option (List ℕ)
heartbeat_note [] = none
heartbeat_note (d ∷ ds) = some (d ∷ ds)
