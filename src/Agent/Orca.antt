-- ===== src/Agent/Orca.antt =====
-- agent/src/orca.ts and the reads of agent/src/chain.ts: quotes, swaps and their resolution.
pub mod Quiet
pub mod Best
use collateralized_agents.Base.{
  ℕ, zero, suc, ◌+◌, ◌-◌, ◌*◌, ◌/◌, ℤ, pos, ◌+ℤ◌, ◌-ℤ◌, Bool, true, false, ◌&&◌, ◌||◌, not, Option,
  none, some, List, [], ◌∷◌, keep_if, find, ltb, leb, ◌==◌, if◌then◌else◌,
}
use collateralized_agents.Agent.Config.{usdc_mint, main_pool}
use collateralized_agents.Agent.Strategies.{LegQuote, Doubles}
use collateralized_agents.Agent.State.{Side, PendingSwap}
use collateralized_agents.Agent.System.{
  Error, swap_in_flight, swap_rejected, send_refused, rate_limited, network, other, Result, ok, err,
  Pool, PoolCache, Effect, swap_sent, Sys, Act, pure, throw, gets, call, catch, set_cache, ◌>>=◌,
  ◌>>◌, emit,
}
use collateralized_agents.Agent.Env.{
  Rpc, primary, fallback, PoolAccount, Built, Blockhash, TokenBalance, Meta, SignatureStatus, Env,
}

-- `isNetworkError`, and the test of `withRetry`: a rate limit counts as both.
abbrev pub is_network_error : Error → Bool
is_network_error rate_limited = true
is_network_error network = true
is_network_error _ = false

abbrev pub is_rate_limited : Error → Bool
is_rate_limited rate_limited = true
is_rate_limited _ = false

abbrev pub is_in_flight : Error → Bool
is_in_flight swap_in_flight = true
is_in_flight _ = false

-- A read on the primary RPC, then on the fallback if there is one and the primary throws.
unfoldable pub with_fallback : {A : Type 0} → Env → (Rpc → ℕ → Result A) → Act A
with_fallback env read =
    catch (call (read primary)) (λ e. if env.has_fallback then call (read fallback) else throw e)

-- `withRetry`, with the number of tries left after the first.
unfoldable pub with_retry : {A : Type 0} → ℕ → (ℕ → Result A) → Act A
with_retry zero fn = call fn
with_retry (suc tries) fn =
    catch (call fn) (λ e. elim (is_rate_limited e) [ true ↦ with_retry tries fn | false ↦ throw e ])

abbrev pub retries : ℕ
retries = 5

-- `ok.reduce((a, b) => (b.out > a.out ? b : a))`
unfoldable pub best_of : LegQuote → List LegQuote → LegQuote
best_of a [] = a
best_of a (b ∷ rest) = best_of (if ltb a.out b.out then b else a) rest

module _ (env : Env) where
  unfoldable pub price_of : PoolAccount → ℕ
  price_of a = if a.sol_is_a then a.raw_price else env.doubles.div (env.doubles.of_ℕ 1) a.raw_price

  unfoldable pub live_of : List PoolAccount → List Pool
  live_of [] = []
  live_of (a ∷ accounts) =
      if not a.is_there || (a.liquidity == 0)
      then live_of accounts
      else record { address = a.address; price = price_of a } ∷ live_of accounts

  unfoldable pub is_fresh : Option PoolCache → ℕ → Bool
  is_fresh none t = false
  is_fresh (some c) t = ltb t (c.at + 30_000)

  unfoldable pub cached : Option PoolCache → List Pool
  cached none = []
  cached (some c) = c.pools

  unfoldable pub live_pools : Act (List Pool)
  live_pools = do
    cache ← gets (λ s. s.pool_cache)
    t ← call (λ n. ok (env.local_ms n))
    if is_fresh cache t then pure (cached cache) else do
      accounts ← with_retry retries env.fetch_pools
      t' ← call (λ n. ok (env.local_ms n))
      set_cache (record { at = t'; pools = live_of accounts })
      pure (live_of accounts)

  unfoldable pub or_missing : Option Pool → Act ℕ
  or_missing none = throw other
  or_missing (some p) = pure p.price

  unfoldable pub main_price : Act ℕ
  main_price = do pools ← live_pools; or_missing (find (λ p. p.address == main_pool) pools)

  -- `build`: the swap's instructions with their quote.
  unfoldable pub build : ℕ → Side → ℕ → ℕ → Act Built
  build pool mint_in amount_in slippage_bps =
      with_retry retries (env.swap_instructions pool mint_in amount_in slippage_bps)

  unfoldable pub quote : ℕ → Side → ℕ → Act LegQuote
  quote pool mint_in amount_in = do
    b ← build pool mint_in amount_in env.slippage_bps
    pure (record { pool = pool; out = b.token_est_out; min_out = b.token_min_out })

  -- The loop of `bestQuote`: the pools whose quote fails or is zero are left out.
  unfoldable pub quotes : Side → ℕ → List Pool → Act (List LegQuote)
  quotes mint_in amount_in [] = pure []
  quotes mint_in amount_in (p ∷ pools) = do
    found ← catch (quote p.address mint_in amount_in >>= λ q. pure (some q)) (λ e. pure none)
    rest ← quotes mint_in amount_in pools
    pure (elim found [ none ↦ rest | some q ↦ if ltb 0 q.out then q ∷ rest else rest ])

  unfoldable pub reduce : List LegQuote → Act LegQuote
  reduce [] = throw other
  reduce (a ∷ rest) = pure (best_of a rest)

  unfoldable pub best_quote : Side → ℕ → Act LegQuote
  best_quote mint_in amount_in = do
    pools ← live_pools
    found ← quotes mint_in amount_in pools
    reduce found
