-- ===== src/Agent/Refine/Swaps.antt =====
-- `swap` of agent/src/agent.ts as steps of the machine.
use collateralized_agents.Base.{
  ℕ, ◌≤◌, ◌<◌, Bool, false, ◌≡◌, refl, Option, none, some, lookup, ◌==◌, arith,
}
use collateralized_agents.Agent.Config.{AgentConfig}
use collateralized_agents.Agent.State.{Side, PendingSwap, Book}
use collateralized_agents.Agent.Strategies.Laws.{held}
use collateralized_agents.Agent.System.{Position, other, Core, pure, ◌>>=◌}
use collateralized_agents.Agent.System.Ensures.{
  Ensures, Quiet, Ensures-pure, Ensures-throw, Ensures-if, Ensures-bind, Ensures-quiet,
  Ensures-the_book, Ensures-weaken, Ensures-fact, quiet_rules,
}
use collateralized_agents.Agent.Env.{Env}
use collateralized_agents.Agent.Orca.{best_quote}
use collateralized_agents.Agent.Orca.Quiet.{best_quote-Quiet}
use collateralized_agents.Agent.Swap.{SwapResult}
use collateralized_agents.Agent.Runner.{has, SwapOpts, or_else, choose, swap}
use collateralized_agents.Agent.Protocol.{MayBump, MaySell, Moves}
use collateralized_agents.Agent.Refine.Marks.{After}
use collateralized_agents.Agent.Refine.Sends.{Sold, execute-Ensures}

choose-Quiet :
    (env : Env) (side : Side) (amount : ℕ) (opts : SwapOpts) → Quiet (choose env side amount opts)
unfolding choose
choose-Quiet env side amount opts = by_pool opts.pool
  where
    by_pool :
        (o : Option ℕ)
        → Quiet (elim o [
          | some pool ↦ pure {A = ℕ × Option ℕ} (pool, opts.min_out)
          | none ↦ best_quote env side amount >>= λ q.
              pure {A = ℕ × Option ℕ} (q.pool, some (or_else env opts.min_out q.min_out))
        ])
    by_pool none = search (quiet_rules, best_quote-Quiet)
    by_pool (some pool) = search quiet_rules

module _ (env : Env) (cfg : AgentConfig) (may_draw : Position → Type 0) (may_trade : Bool) (key : ℕ)
    (side : Side) (amount : ℕ) (opts : SwapOpts) (b : Book)
    (covered : amount ≤ held side b.sol b.usdc) (bumps : MayBump cfg.strategy b opts.bump_cycle)
    (sells : MaySell may_trade side) where
  idle_of : (o : Option PendingSwap) → has o ≡ false → o ≡ none
  idle_of none h = refl
  idle_of (some p) h = cc

  -- After a swap of a book that can pay for it: what it brought, or nothing.
  abbrev pub Swapped : Core → Option SwapResult → Core → Type 0
  Swapped c none d = Moves env cfg may_draw may_trade c d
  Swapped c (some r) d =
      Moves env cfg may_draw may_trade c d × After env cfg may_draw may_trade key b r d

  Sold-Swapped :
      (idle : b.pending ≡ none) (pos : (0 < amount) × (amount ≤ held side b.sol b.usdc)) (pool : ℕ)
      (c : Core) (r : Option SwapResult) (d : Core)
      → Sold env cfg may_draw may_trade key side amount opts.bump_cycle b idle pos bumps sells pool
          c r d
      → Swapped c r d
  Sold-Swapped idle pos pool c none d h = h
  Sold-Swapped idle pos pool c (some r) d h = h

  pub swap-Ensures :
      (c : Core)
      → Ensures
          (λ d. Moves env cfg may_draw may_trade c d × (lookup key d.state.books ≡ some b))
          (swap env key side amount opts)
          (Swapped c)
          (λ e. Moves env cfg may_draw may_trade c)
  unfolding swap
  swap-Ensures c =
      Ensures-if (amount == 0) _ _ (λ z. Ensures-pure none (λ d w. w.0))
        λ nz.
          Ensures-bind _ _ _
            (Ensures-weaken _ _ _ (Ensures-the_book key) (λ d w. w) (λ a d w. w) (λ e d w. w.0))
            λ b'.
              Ensures-if (has b'.pending) _ _ (λ h. Ensures-throw other (λ d w. w.0.0))
                λ h.
                  Ensures-fact {H = b.pending ≡ none}
                    (λ d w. idle_of b.pending (ground (arith, w.0.1, w.1)))
                    λ idle.
                      let pos : (0 < amount) × (amount ≤ held side b.sol b.usdc) =
                        (ground arith, covered) in
                      Ensures-bind
                        (λ x d.
                          Moves env cfg may_draw may_trade c d
                          × (lookup key d.state.books ≡ some b))
                        _ _
                        (Ensures-weaken _ _ _ (Ensures-quiet (choose-Quiet env side amount opts))
                          (λ d w. w.0) (λ a d w. w) (λ e d w. w.0))
                        λ x.
                          Ensures-weaken _ _ _
                            (execute-Ensures env cfg may_draw may_trade key side amount
                              opts.bump_cycle b idle pos bumps sells x.0 c x.1)
                            (λ d w. w) (Sold-Swapped idle pos x.0 c) (λ e d w. w)
