-- ===== src/Agent/Orca/Quiet.antt =====
-- The reads and quotes of agent/src/chain.ts and agent/src/orca.ts, and the runner's core.
use collateralized_agents.Base.{ℕ, zero, suc, Bool, true, false, List, [], ◌∷◌}
use collateralized_agents.Agent.State.{Side}
use collateralized_agents.Agent.Strategies.{LegQuote}
use collateralized_agents.Agent.System.{Result, Pool, Act}
use collateralized_agents.Agent.System.Ensures.{
  Quiet, Quiet-bind, Quiet-pure, Quiet-catch, Quiet-call, Quiet-throw, quiet_rules,
}
use collateralized_agents.Agent.Env.{Rpc, Env}
use collateralized_agents.Agent.Orca.{
  is_rate_limited, with_fallback, with_retry, retries, live_pools, build, quote, quotes, reduce,
  best_quote,
}

pub with_fallback-Quiet :
    {A : Type 0} (env : Env) (read : Rpc → ℕ → Result A) → Quiet (with_fallback env read)
unfolding with_fallback
with_fallback-Quiet env read = search quiet_rules

retry-Quiet :
    {A : Type 0} (b : Bool) (m n : Act A)
    → Quiet m
    → Quiet n
    → Quiet (elim b [ true ↦ m | false ↦ n ])
retry-Quiet true m n h k = h
retry-Quiet false m n h k = k

with_retry-Quiet : {A : Type 0} (tries : ℕ) (fn : ℕ → Result A) → Quiet (with_retry tries fn)
unfolding with_retry
with_retry-Quiet zero fn = Quiet-call fn
with_retry-Quiet (suc tries) fn =
    Quiet-catch _ _ (Quiet-call fn)
      λ e. retry-Quiet (is_rate_limited e) _ _ (with_retry-Quiet tries fn) (Quiet-throw e)

module _ (env : Env) where
  live_pools-Quiet : Quiet (live_pools env)
  unfolding live_pools
  live_pools-Quiet = search (quiet_rules, with_retry-Quiet) depth 12

  pub build-Quiet :
      (pool : ℕ) (mint_in : Side) (amount_in slippage_bps : ℕ)
      → Quiet (build env pool mint_in amount_in slippage_bps)
  unfolding build
  build-Quiet pool mint_in amount_in slippage_bps =
      with_retry-Quiet retries (env.swap_instructions pool mint_in amount_in slippage_bps)

  quote-Quiet :
      (pool : ℕ) (mint_in : Side) (amount_in : ℕ) → Quiet (quote env pool mint_in amount_in)
  unfolding quote
  quote-Quiet pool mint_in amount_in = search (quiet_rules, build-Quiet)

  quotes-Quiet :
      (mint_in : Side) (amount_in : ℕ) (pools : List Pool)
      → Quiet (quotes env mint_in amount_in pools)
  unfolding quotes
  quotes-Quiet mint_in amount_in [] = search quiet_rules
  quotes-Quiet mint_in amount_in (p ∷ pools) =
      Quiet-bind _ _ (search (quiet_rules, quote-Quiet))
        λ found. Quiet-bind _ _ (quotes-Quiet mint_in amount_in pools) λ rest. Quiet-pure _

  reduce-Quiet : (found : List LegQuote) → Quiet (reduce env found)
  unfolding reduce
  reduce-Quiet [] = search quiet_rules
  reduce-Quiet (a ∷ rest) = search quiet_rules

  pub best_quote-Quiet : (mint_in : Side) (amount_in : ℕ) → Quiet (best_quote env mint_in amount_in)
  unfolding best_quote
  best_quote-Quiet mint_in amount_in =
      search (quiet_rules, live_pools-Quiet, quotes-Quiet, reduce-Quiet)
