-- ===== src/Agent/Invariants/Partial.antt =====
-- Draws and new books in a tick of agent/src/agent.ts whose scan failed.
use collateralized_agents.Base.{
  ℕ, Bool, true, ◌≡◌, refl, sym, Option, none, List, [], ◌∷◌, Dict, lookup, lookup-erase, erase,
  lookup-update-none, subst, arith,
}
use collateralized_agents.Agent.Config.{AgentConfig}
use collateralized_agents.Agent.State.{Book}
use collateralized_agents.Agent.System.{Effect, swap_sent, draw_sent, settle_sent, Core, Sys}
use collateralized_agents.Agent.Env.{Env}
use collateralized_agents.Agent.Loop.{tick}
use collateralized_agents.Agent.Protocol.{
  NoDraw, Move, Moves, here, next, notes, saves, sends, drops, books, closes, asks_draw, draws,
  trades, adopts, asks_settle, settles,
}
use collateralized_agents.Agent.Refine.Trades.{IsSized}
use collateralized_agents.Agent.Refine.Draws.{tick-Moves}

-- The positions whose draw was sent, the latest first.
abbrev pub drawn : List Effect → List ℕ
drawn [] = []
drawn (swap_sent sig disk ∷ t) = drawn t
drawn (draw_sent key ∷ t) = key ∷ drawn t
drawn (settle_sent key returned st ∷ t) = drawn t

-- No draw was sent and no book opened on the way from `c` to `d`.
abbrev pub OpensNothing : Core → Core → Type 0
OpensNothing c d =
    (drawn d.trace ≡ drawn c.trace)
    × ((key : ℕ) → lookup key c.state.books ≡ none → lookup key d.state.books ≡ none)

erased : (k : ℕ) (d : Dict Book) (j : ℕ) → lookup j d ≡ none → lookup j (erase k d) ≡ none
erased k d j h = ground (arith, lookup-erase k j d)

module _ (env : Env) (cfg : AgentConfig) (may_trade : Bool) where
  moved : (c : Core) {d e : Core} → e ≡ d → OpensNothing c d → OpensNothing c e
  moved c q h = subst (OpensNothing c) (sym q) h

  Move-OpensNothing :
      (c : Core) {d e : Core}
      → Move env cfg NoDraw may_trade d e
      → OpensNothing c d
      → OpensNothing c e
  Move-OpensNothing c (notes ps q) h = moved c q h
  Move-OpensNothing c (saves q) h = moved c q h
  Move-OpensNothing c {d} (sends key b p l n a m y q) h =
      moved c q (h.0, λ j n. lookup-update-none key j _ d.state.books (h.1 j n))
  Move-OpensNothing c {d} (drops key b p l n q) h =
      moved c q (h.0, λ j n. lookup-update-none key j _ d.state.books (h.1 j n))
  Move-OpensNothing c {d} (books key b p r t l n q) h = moved c q (
    h.0,
    λ j n. lookup-update-none key j _ _ (lookup-update-none key j _ d.state.books (h.1 j n)),
  )
  Move-OpensNothing c {d} (closes key k q) h =
      moved c q (h.0, λ j n. erased key d.state.books j (h.1 j n))
  Move-OpensNothing c (asks_draw p t m o r l q) h = absurd m
  Move-OpensNothing c (draws p t before m k q) h = absurd m
  Move-OpensNothing c (trades p m q) h = absurd m
  Move-OpensNothing c (adopts p t t' m o n q) h = absurd m
  Move-OpensNothing c (asks_settle key b wallet l k q) h = moved c q h
  Move-OpensNothing c {d} (settles key b k st before l i j q) h =
      moved c q (h.0, λ x n. erased key d.state.books x (h.1 x n))

  Moves-OpensNothing : {c d : Core} → Moves env cfg NoDraw may_trade c d → OpensNothing c d
  Moves-OpensNothing here = (refl, λ j n. n)
  Moves-OpensNothing {c} (next ms m) = Move-OpensNothing c m (Moves-OpensNothing ms)

module _ (env : Env) (cfg : AgentConfig) (sized : IsSized cfg.strategy) where
  -- A tick on a partial scan sends no draw, and a position without a book has none after it. The
  -- strategy sizes its swaps within a book.
  pub tick-OpensNothing :
      (price : Option ℕ) (s : Sys) → OpensNothing s.core (tick env cfg price true s).1.core
  tick-OpensNothing price s =
      Moves-OpensNothing env cfg true (tick-Moves env cfg sized price true s)
