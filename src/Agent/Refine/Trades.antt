-- ===== src/Agent/Refine/Trades.antt =====
-- `trade` of agent/src/agent.ts as steps of the machine, for a strategy that sizes its swaps within
-- the book.
use collateralized_agents.Base.{
  ℕ, ◌≤◌, ◌<◌, ℤ, pos_part, Bool, true, false, ◌≡◌, refl, inl, Option, none, some, List, lookup,
  arith, ◌+ℤ◌,
}
use collateralized_agents.Agent.Config.{AgentConfig, Strategy, arbitrage, momentum, rotate}
use collateralized_agents.Agent.State.{Side, Book}
use collateralized_agents.Agent.Strategies.{
  SwapAction, rotate_action, momentum_action, momentum_at, ArbitrageStep, unwind, done, quote,
  arbitrage_step, LegQuote, arbitrage_edge, leg2_min_out,
}
use collateralized_agents.Agent.Strategies.Laws.{held, share-le}
use collateralized_agents.Agent.System.{Position, Core, other, pure}
use collateralized_agents.Agent.System.Ensures.{
  Ensures, Ensures-pure, Ensures-bind, Ensures-weaken, Ensures-exists, Ensures-fact, Quiet-gets,
}
use collateralized_agents.Agent.Env.{Env}
use collateralized_agents.Agent.Orca.Quiet.{best_quote-Quiet}
use collateralized_agents.Agent.Swap.{SwapResult}
use collateralized_agents.Agent.Runner.{
  add_delta, SwapOpts, best_pool, swap_, act_on, second_leg, if_worth, round_trip, arbitrage_trade,
  trade_by,
}
use collateralized_agents.Agent.Protocol.{MayBump, MaySell, Moves, Runs, RunsAt}
use collateralized_agents.Agent.Refine.Rules.{
  now-Quiet, Runs-pure, Runs-throw, Runs-the_book, RunsAt-Runs, RunsAt-Quiet-bind,
}
use collateralized_agents.Agent.Refine.Swaps.{Swapped, swap-Ensures}

-- A strategy trades at most the whole of a book.
abbrev pub IsSized : Strategy → Type 0
IsSized (arbitrage min_edge_bps size_bps) = size_bps ≤ 10_000
IsSized (momentum window band_bps size_bps) = size_bps ≤ 10_000
IsSized (rotate size_bps) = size_bps ≤ 10_000

-- An action that a book can pay for, and that may count its cycle.
abbrev Fits : Strategy → Book → Option SwapAction → Type 0
Fits s b none = Unit {0}
Fits s b (some a) = (a.amount ≤ held a.side b.sol b.usdc) × MayBump s b a.bump_cycle

rotate-Fits :
    (size_bps : ℕ) (b : Book)
    → size_bps ≤ 10_000
    → Fits (rotate size_bps) b (rotate_action size_bps b.cycles b.sol)
unfolding rotate_action
rotate-Fits size_bps b h = ground (arith, share-le b.sol size_bps)

module _ (env : Env) (cfg : AgentConfig) (may_draw : Position → Type 0) (key : ℕ) where
  momentum-Fits :
      (window band_bps size_bps : ℕ) (prices : List ℕ) (price : Option ℕ) (b : Book)
      → size_bps ≤ 10_000
      → Fits
          (momentum window band_bps size_bps)
          b
          (momentum_action env.doubles window band_bps size_bps prices price b.sol b.usdc)
  unfolding momentum_action momentum_at
  momentum-Fits window band_bps size_bps prices none b h = tt
  momentum-Fits window band_bps size_bps prices (some price) b h =
      ground (arith, share-le b.sol size_bps)

  Swapped-Moves :
      (may_trade : Bool) (side : Side) (amount : ℕ) (opts : SwapOpts) (b : Book)
      (covered : amount ≤ held side b.sol b.usdc) (bumps : MayBump cfg.strategy b opts.bump_cycle)
      (sells : MaySell may_trade side) (c : Core) (r : Option SwapResult) (d : Core)
      → Swapped env cfg may_draw may_trade key side amount opts b covered bumps sells c r d
      → Moves env cfg may_draw may_trade c d
  Swapped-Moves may_trade side amount opts b covered bumps sells c none d h = h
  Swapped-Moves may_trade side amount opts b covered bumps sells c (some r) d h = h.0

  -- A swap for its effect, in a pass that may trade or not.
  pub swap_-RunsAt :
      (may_trade : Bool) (side : Side) (amount : ℕ) (opts : SwapOpts) (b : Book)
      → amount ≤ held side b.sol b.usdc
      → MayBump cfg.strategy b opts.bump_cycle
      → MaySell may_trade side
      → RunsAt env cfg may_draw may_trade key b (swap_ env key side amount opts)
  unfolding swap_
  swap_-RunsAt may_trade side amount opts b covered bumps sells = record {
    at = λ c.
        Ensures-bind _ _ _
          (swap-Ensures env cfg may_draw may_trade key side amount opts b covered bumps sells c)
          λ r. Ensures-pure tt (Swapped-Moves may_trade side amount opts b covered bumps sells c r);
  }

  act_on-RunsAt :
      (b : Book) (a : Option SwapAction)
      → Fits cfg.strategy b a
      → RunsAt env cfg may_draw true key b (act_on env key a)
  unfolding act_on
  act_on-RunsAt b none h = RunsAt-Runs key b (Runs-pure tt)
  act_on-RunsAt b (some a) h =
      swap_-RunsAt true a.side a.amount (best_pool env a.bump_cycle) b h.0 h.1 (inl refl)

  pub unbumped : (s : Strategy) (b : Book) → MayBump s b false
  unbumped (arbitrage m n) b = tt
  unbumped (momentum w m n) b = tt
  unbumped (rotate n) b = tt

  delta-le : (n : ℕ) (d : ℤ) → pos_part d ≤ add_delta n d
  unfolding ◌+ℤ◌
  delta-le n d = ground arith

  second_leg-Ensures :
      (size : ℕ) (opts : SwapOpts) (b : Book) (covered : size ≤ b.sol)
      (bumps : MayBump cfg.strategy b opts.bump_cycle) (leg1 leg2 : LegQuote) (c : Core)
      (r : Option SwapResult)
      → Ensures
          (Swapped env cfg may_draw true key Side.sol size opts b covered bumps (inl refl) c r)
          (second_leg env key leg1 leg2 r)
          (λ u. Moves env cfg may_draw true c)
          (λ e. Moves env cfg may_draw true c)
  unfolding second_leg
  second_leg-Ensures size opts b covered bumps leg1 leg2 c none = Ensures-pure tt (λ d w. w)
  second_leg-Ensures size opts b covered bumps leg1 leg2 c (some r) =
      Ensures-weaken
        (λ d.
          (b' : Book) × ((Moves env cfg may_draw true c d × (lookup key d.state.books ≡ some b'))
            × (b'.usdc ≡ add_delta b.usdc r.usdc_delta)))
        _ _
        (Ensures-exists λ b'.
          Ensures-fact {H = b'.usdc ≡ add_delta b.usdc r.usdc_delta} (λ d w. w.1)
            λ e.
              Ensures-weaken _ _ _ ((sell b' e (leg2_min_out leg1 leg2 r.usdc_delta)).at c)
                (λ d w. w.0) (λ u d w. w) (λ x d w. w))
        (λ d w. (w.1.0, ((w.0, w.1.1), w.1.2))) (λ u d w. w) (λ e d w. w)
    where
      sell :
          (b' : Book)
          → b'.usdc ≡ add_delta b.usdc r.usdc_delta
          → (o : Option ℕ)
          → RunsAt env cfg may_draw true key b' (elim o [
            | none ↦ pure tt
            | some min2 ↦
                swap_ env key Side.usdc
                  (pos_part r.usdc_delta)
                  (record { pool = some leg2.pool; min_out = some min2; bump_cycle = false })
          ])
      sell b' e none = RunsAt-Runs key b' (Runs-pure tt)
      sell b' e (some min2) =
          swap_-RunsAt true Side.usdc (pos_part r.usdc_delta) _ b'
            (rw e (delta-le b.usdc r.usdc_delta)) (unbumped cfg.strategy b') (inl refl)

  if_worth-RunsAt :
      (size : ℕ) (b : Book)
      → size ≤ b.sol
      → MayBump cfg.strategy b true
      → (leg1 leg2 : LegQuote) (go : Option Bool)
      → RunsAt env cfg may_draw true key b (if_worth env key size leg1 leg2 go)
  unfolding if_worth
  if_worth-RunsAt size b covered bumps leg1 leg2 none = RunsAt-Runs key b (Runs-throw other)
  if_worth-RunsAt size b covered bumps leg1 leg2 (some false) = RunsAt-Runs key b (Runs-pure tt)
  if_worth-RunsAt size b covered bumps leg1 leg2 (some true) =
      let opts : SwapOpts = record {
        pool = some leg1.pool;
        min_out = some leg1.min_out;
        bump_cycle = true;
      } in
      record {
        at = λ c.
            Ensures-bind _ _ _
              (swap-Ensures env cfg may_draw true key Side.sol size opts b covered bumps (inl refl)
                c)
              (second_leg-Ensures size opts b covered bumps leg1 leg2 c);
      }

  round_trip-RunsAt :
      (min_edge_bps size : ℕ) (b : Book)
      → size ≤ b.sol
      → MayBump cfg.strategy b true
      → RunsAt env cfg may_draw true key b (round_trip env key min_edge_bps size)
  unfolding round_trip
  round_trip-RunsAt min_edge_bps size b covered bumps =
      RunsAt-Quiet-bind key b _ _ (best_quote-Quiet env Side.sol size) λ leg1.
        RunsAt-Quiet-bind key b _ _ (best_quote-Quiet env Side.usdc leg1.out) λ leg2.
          if_worth-RunsAt size b covered bumps leg1 leg2
            (arbitrage_edge min_edge_bps size leg1 leg2)

  -- What the step before the quotes may ask for.
  abbrev StepFits : Book → ArbitrageStep → Type 0
  StepFits b (unwind amount) = amount ≤ b.usdc
  StepFits b done = Unit {0}
  StepFits b (quote size) = (size ≤ b.sol) × (b.cycles < 3)

  arbitrage_step-StepFits :
      (size_bps : ℕ) (b : Book)
      → size_bps ≤ 10_000
      → StepFits b (arbitrage_step size_bps b.cycles b.sol b.usdc)
  unfolding arbitrage_step
  arbitrage_step-StepFits size_bps b h = ground (arith, share-le b.sol size_bps)

  arbitrage_trade-RunsAt :
      (min_edge_bps size_bps : ℕ) (b : Book) (step : ArbitrageStep)
      → cfg.strategy ≡ arbitrage min_edge_bps size_bps
      → StepFits b step
      → RunsAt env cfg may_draw true key b (arbitrage_trade env key min_edge_bps step)
  unfolding arbitrage_trade
  arbitrage_trade-RunsAt min_edge_bps size_bps b (unwind amount) e h =
      swap_-RunsAt true Side.usdc amount (best_pool env false) b h (unbumped cfg.strategy b)
        (inl refl)
  arbitrage_trade-RunsAt min_edge_bps size_bps b done e h = RunsAt-Runs key b (Runs-pure tt)
  arbitrage_trade-RunsAt min_edge_bps size_bps b (quote size) e h =
      round_trip-RunsAt min_edge_bps size b h.0 (rw e h.1)

  pub trade_by-Runs :
      (s : Strategy) (price : Option ℕ)
      → cfg.strategy ≡ s
      → IsSized s
      → Runs env cfg may_draw true (trade_by env s key price)
  unfolding trade_by
  trade_by-Runs (rotate size_bps) price e h =
      Runs-the_book key _ λ b. act_on-RunsAt b _ (rw e (rotate-Fits size_bps b h))
  trade_by-Runs (momentum window band_bps size_bps) price e h = Runs-the_book key _ λ b.
      RunsAt-Quiet-bind key b _ _ (Quiet-gets _) λ samples.
        RunsAt-Quiet-bind key b _ _ (now-Quiet env)
          λ t. act_on-RunsAt b _ (rw e (momentum-Fits window band_bps size_bps _ price b h))
  trade_by-Runs (arbitrage min_edge_bps size_bps) price e h =
      Runs-the_book key _ λ b.
        arbitrage_trade-RunsAt min_edge_bps size_bps b _ e (arbitrage_step-StepFits size_bps b h)
