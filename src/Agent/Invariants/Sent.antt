-- ===== src/Agent/Invariants/Sent.antt =====
-- What the runner of agent/src/agent.ts sends to the cluster, and under which conditions.
use collateralized_agents.Base.{
  ℕ, ◌≤◌, ◌<◌, ℤ, Bool, true, false, ◌≡◌, refl, ◌∙◌, ap, Option, some, List, [], ◌∷◌, ◌++◌, lookup,
  lookup-update_self, All,
}
use collateralized_agents.Agent.Config.{AgentConfig, Strategy, arbitrage, momentum, rotate}
use collateralized_agents.Agent.State.{PendingSwap, Book, AgentState}
use collateralized_agents.Agent.Schedule.{too_late_to_draw}
use collateralized_agents.Agent.Schedule.Laws.{settle_amount_best}
use collateralized_agents.Agent.Strategies.Laws.{held}
use collateralized_agents.Agent.System.{
  Position, is_opened, Effect, swap_sent, draw_sent, settle_sent, Core, Sys,
}
use collateralized_agents.Agent.Env.{Env}
use collateralized_agents.Agent.Runner.{set_pending}
use collateralized_agents.Agent.Loop.{tick, settle_due}
use collateralized_agents.Agent.Protocol.{
  MayBump, MaySell, NoDraw, Offered, Enough, Reads, Move, Moves, here, next, notes, saves, sends,
  drops, books, closes, asks_draw, draws, trades, adopts, asks_settle, settles,
}
use collateralized_agents.Agent.Refine.Trades.{IsSized}
use collateralized_agents.Agent.Refine.Draws.{tick-Moves, settle_due-Moves}

-- A swap that is sent is saved as the pending swap of a book that can pay for it, within the
-- strategy's cycles.
abbrev pub Saved : AgentConfig → Bool → ℕ → AgentState → Type 0
Saved cfg may_trade sig disk =
    (key : ℕ) × (b : Book) × (p : PendingSwap) × (lookup key disk.books ≡ some b)
    × (b.pending ≡ some p)
    × (p.sig ≡ sig)
    × (0 < p.amount_in)
    × (p.amount_in ≤ held p.side b.sol b.usdc)
    × MayBump cfg.strategy b p.bump_cycle
    × MaySell may_trade p.side

-- A draw is of an open position that may be drawn, and some reading of the clock leaves the time to trade.
abbrev pub Drawable : Env → (Position → Type 0) → ℕ → Type 0
Drawable env may_draw key =
    (p : Position) × (t : ℤ) × may_draw p
    × (p.public_key ≡ key)
    × (is_opened p.status ≡ true)
    × Reads env t
    × (too_late_to_draw t p.deadline ≡ false)

-- A settle is of a book, never for more than its SOL, and for less only past the last call.
abbrev pub Payable : Env → ℕ → ℕ → AgentState → Type 0
Payable env key returned st =
    (b : Book) × (lookup key st.books ≡ some b) × (returned ≤ b.sol) × Enough env b returned

abbrev pub Allowed : Env → AgentConfig → (Position → Type 0) → Bool → Effect → Type 0
Allowed env cfg may_draw may_trade (swap_sent sig disk) = Saved cfg may_trade sig disk
Allowed env cfg may_draw may_trade (draw_sent key) = Drawable env may_draw key
Allowed env cfg may_draw may_trade (settle_sent key returned st) = Payable env key returned st

still_bumps :
    (s : Strategy) (b : Book) (o : Option PendingSwap) (x : Bool)
    → MayBump s b x
    → MayBump s (set_pending o b) x
still_bumps s b o false h = tt
still_bumps (rotate size_bps) b o true h = h
still_bumps (momentum window band_bps size_bps) b o true h = h
still_bumps (arbitrage min_edge_bps size_bps) b o true h = h

-- `d` was reached by sending nothing but what is allowed.
abbrev pub Sends : Env → AgentConfig → (Position → Type 0) → Bool → Core → Core → Type 0
Sends env cfg may_draw may_trade c d =
    (new : List Effect) × (d.trace ≡ new ++ c.trace) × All (Allowed env cfg may_draw may_trade) new

module _ (env : Env) (cfg : AgentConfig) (may_draw : Position → Type 0) (may_trade : Bool) where
  abbrev S : Core → Core → Type 0
  S = Sends env cfg may_draw may_trade

  nothing_sent : (c d e : Core) → S c d → e.trace ≡ d.trace → S c e
  nothing_sent c d e (new, q, h) k = (new, k ∙ q, h)

  one_sent :
      (c d e : Core) (x : Effect)
      → S c d
      → e.trace ≡ x ∷ d.trace
      → Allowed env cfg may_draw may_trade x
      → S c e
  one_sent c d e x (new, q, h) k a = (x ∷ new, k ∙ ap (λ t. x ∷ t) q, (a, h))

  Move-Sends : (c : Core) {d e : Core} → S c d → Move env cfg may_draw may_trade d e → S c e
  Move-Sends c {d} {e} s (notes ps q) = nothing_sent c d e s (ap (λ x. x.trace) q)
  Move-Sends c {d} {e} s (saves q) = nothing_sent c d e s (ap (λ x. x.trace) q)
  Move-Sends c {d} {e} s (sends key b p l n (a, a') m y q) =
      one_sent c d e _ s (ap (λ x. x.trace) q) (
        key,
        set_pending (some p) b,
        p,
        lookup-update_self key _ _ b l,
        refl,
        refl,
        a,
        a',
        still_bumps cfg.strategy b _ p.bump_cycle m,
        y,
      )
  Move-Sends c {d} {e} s (drops key b p l n q) = nothing_sent c d e s (ap (λ x. x.trace) q)
  Move-Sends c {d} {e} s (books key b p r t l n q) = nothing_sent c d e s (ap (λ x. x.trace) q)
  Move-Sends c {d} {e} s (closes key h q) = nothing_sent c d e s (ap (λ x. x.trace) q)
  Move-Sends c {d} {e} s (asks_draw p t m o r l q) =
      one_sent c d e _ s (ap (λ x. x.trace) q) (p, t, m, refl, o, r, l)
  Move-Sends c {d} {e} s (draws p t before m h q) = nothing_sent c d e s (ap (λ x. x.trace) q)
  Move-Sends c {d} {e} s (trades p m q) = nothing_sent c d e s (ap (λ x. x.trace) q)
  Move-Sends c {d} {e} s (adopts p t t' m o n q) = nothing_sent c d e s (ap (λ x. x.trace) q)
  Move-Sends c {d} {e} s (asks_settle key b wallet l h q) =
      one_sent c d e _ s (ap (λ x. x.trace) q) (b, l, (settle_amount_best b.sol wallet).1, h)
  Move-Sends c {d} {e} s (settles key b h st before l k i q) =
      nothing_sent c d e s (ap (λ x. x.trace) q)

  Moves-Sends : {c d : Core} → Moves env cfg may_draw may_trade c d → S c d
  Moves-Sends here = ([], refl, tt)
  Moves-Sends {c} (next ms m) = Move-Sends c (Moves-Sends ms) m

module _ (env : Env) (cfg : AgentConfig) (sized : IsSized cfg.strategy) where
  -- Whatever a tick sends is allowed: a swap only when it is saved on disk as the pending swap of a
  -- book that holds what it sells, within the strategy's cycles; a draw only of a position that the tick's
  -- list shows as open, with time left by the clock, and not after a partial scan; a settle only of a book,
  -- for at most its SOL, and for less only past the last call. The strategy sizes its swaps within a book.
  pub tick-Sends :
      (price : Option ℕ) (partial : Bool) (s : Sys)
      → Sends env cfg
          (Offered partial s.core.positions)
          true
          s.core
          (tick env cfg price partial s).1.core
  tick-Sends price partial s = Moves-Sends env cfg _ _ (tick-Moves env cfg sized price partial s)

  -- Whatever the settle pass sends is allowed as in a tick, and moreover it draws nothing and every
  -- swap it sends sells USDC. The strategy sizes its swaps within a book.
  pub settle_due-Sends : (s : Sys) → Sends env cfg NoDraw false s.core (settle_due env cfg s).1.core
  settle_due-Sends s = Moves-Sends env cfg _ _ (settle_due-Moves env cfg sized s)
