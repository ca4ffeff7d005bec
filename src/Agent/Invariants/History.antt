-- ===== src/Agent/Invariants/History.antt =====
-- The history of agent/src/agent.ts and the settles that were sent.
use collateralized_agents.Base.{
  ℕ, Bool, true, ◌≡◌, sym, ap, ◌⊎◌, inl, inr, Option, List, [], ◌∷◌, All, All-append, All-map,
  subst,
}
use collateralized_agents.Agent.Config.{AgentConfig}
use collateralized_agents.Agent.State.{Settled, AgentState}
use collateralized_agents.Agent.System.{Position, Effect, settle_sent, Core, Sys}
use collateralized_agents.Agent.Env.{Env}
use collateralized_agents.Agent.Loop.{tick}
use collateralized_agents.Agent.Protocol.{
  Offered, Move, Moves, here, next, notes, saves, sends, drops, books, closes, asks_draw, draws,
  trades, adopts, asks_settle, settles,
}
use collateralized_agents.Agent.Refine.Trades.{IsSized}
use collateralized_agents.Agent.Refine.Draws.{tick-Moves}

-- Somewhere in the trace the position was settled for the amount of the entry.
abbrev pub WasSent : List Effect → Settled → Type 0
WasSent [] h = ⊥
WasSent (e ∷ t) h = ((st : AgentState) × (e ≡ settle_sent h.position h.returned st)) ⊎ WasSent t h

abbrev pub IsBacked : Core → Type 0
IsBacked c = All (WasSent c.trace) c.state.history

more_sent : (e : Effect) (c : Core) → IsBacked c → All (WasSent (e ∷ c.trace)) c.state.history
more_sent e c h = All-map (WasSent c.trace) (WasSent (e ∷ c.trace)) (λ x w. inr w) c.state.history h

module _ (env : Env) (cfg : AgentConfig) (may_draw : Position → Type 0) (may_trade : Bool) where
  moved : {c d : Core} → d ≡ c → IsBacked c → IsBacked d
  moved q h = subst IsBacked (sym q) h

  Move-IsBacked : {c d : Core} → Move env cfg may_draw may_trade c d → IsBacked c → IsBacked d
  Move-IsBacked (notes ps q) h = moved q h
  Move-IsBacked (saves q) h = moved q h
  Move-IsBacked {c} (sends key b p l n a m y q) h = moved q (more_sent _ c h)
  Move-IsBacked (drops key b p l n q) h = moved q h
  Move-IsBacked (books key b p r t l n q) h = moved q h
  Move-IsBacked (closes key k q) h = moved q h
  Move-IsBacked {c} (asks_draw p t m o r l q) h = moved q (more_sent _ c h)
  Move-IsBacked (draws p t before m k q) h = moved q h
  Move-IsBacked (trades p m q) h = moved q h
  Move-IsBacked (adopts p t t' m o n q) h = moved q h
  Move-IsBacked {c} (asks_settle key b wallet l k q) h = moved q (more_sent _ c h)
  Move-IsBacked {c} (settles key b k st before l i j q) h = moved q (
      All-append (WasSent c.trace) c.state.history (k ∷ []) h (
        subst (λ t. WasSent t k) (sym i)
            (inl (st, ap (λ n. settle_sent n k.returned st) (sym j.0))),
        tt,
      ))

  Moves-IsBacked : {c d : Core} → Moves env cfg may_draw may_trade c d → IsBacked c → IsBacked d
  Moves-IsBacked here h = h
  Moves-IsBacked (next ms m) h = Move-IsBacked m (Moves-IsBacked ms h)

module _ (env : Env) (cfg : AgentConfig) (sized : IsSized cfg.strategy) where
  -- If every entry of the history was sent to the cluster as a settle of that position for that
  -- amount, then so is every entry after a tick. The strategy sizes its swaps within a book.
  pub tick-IsBacked :
      (price : Option ℕ) (partial : Bool) (s : Sys)
      → IsBacked s.core
      → IsBacked (tick env cfg price partial s).1.core
  tick-IsBacked price partial s h =
      Moves-IsBacked env cfg (Offered partial s.core.positions) true
        (tick-Moves env cfg sized price partial s) h
