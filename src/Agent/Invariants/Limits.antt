-- ===== src/Agent/Invariants/Limits.antt =====
-- The books of agent/src/agent.ts and the limits of their strategy, in memory and on disk, from which a
-- restart goes on.
use collateralized_agents.Base.{
  ℕ, ◌+◌, ◌≤◌, ◌<◌, ℤ, Bool, true, false, ◌≡◌, sym, Option, none, some, lookup-update_self, update,
  Every, Every-insert, Every-erase, Every-update, arith, if◌then◌else◌, subst,
}
use collateralized_agents.Agent.Config.{AgentConfig, Strategy, arbitrage, momentum, rotate}
use collateralized_agents.Agent.State.{PendingSwap, Book}
use collateralized_agents.Agent.Schedule.{settle_time, adopted_settle_at}
use collateralized_agents.Agent.Strategies.Laws.{held}
use collateralized_agents.Agent.System.{Position, Core, Sys}
use collateralized_agents.Agent.Env.{Env}
use collateralized_agents.Agent.Swap.{SwapResult}
use collateralized_agents.Agent.Runner.{set_pending, book_swap}
use collateralized_agents.Agent.Loop.{new_book, tick, settle_due}
use collateralized_agents.Agent.Protocol.{
  MayBump, NoDraw, Offered, Move, Moves, here, next, notes, saves, sends, drops, books, closes,
  asks_draw, draws, trades, adopts, asks_settle, settles,
}
use collateralized_agents.Agent.Refine.Trades.{IsSized}
use collateralized_agents.Agent.Refine.Draws.{tick-Moves, settle_due-Moves}

-- The cycles a pending swap will count.
abbrev bumps : Option PendingSwap → ℕ
bumps none = 0
bumps (some p) = if p.bump_cycle then 1 else 0

-- The cycles of a book, with those its pending swap will count, are within the strategy's limit.
abbrev InLimit : Strategy → ℕ → Option PendingSwap → Type 0
InLimit (rotate size_bps) cycles o = cycles + bumps o ≤ 1
InLimit (arbitrage min_edge_bps size_bps) cycles o = cycles + bumps o ≤ 3
InLimit (momentum window band_bps size_bps) cycles o = Unit {0}

-- A pending swap sells something, and no more than the book holds.
abbrev IsPaid : ℕ → ℕ → Option PendingSwap → Type 0
IsPaid sol usdc none = Unit {0}
IsPaid sol usdc (some p) = (0 < p.amount_in) × (p.amount_in ≤ held p.side sol usdc)

abbrev pub IsSound : Strategy → Book → Type 0
IsSound s b = InLimit s b.cycles b.pending × IsPaid b.sol b.usdc b.pending

abbrev pub AreSound : Strategy → Core → Type 0
AreSound s c = Every (IsSound s) c.state.books × Every (IsSound s) c.disk.books

new_InLimit : (s : Strategy) → InLimit s 0 none
new_InLimit (rotate size_bps) = omega arith
new_InLimit (arbitrage min_edge_bps size_bps) = omega arith
new_InLimit (momentum window band_bps size_bps) = tt

new_book-IsSound : (s : Strategy) (p : Position) (t t' : ℤ) → IsSound s (new_book p t t')
new_book-IsSound s p t t' = (new_InLimit s, tt)

-- Without its pending swap a book is sound.
drop_InLimit : (s : Strategy) (n : ℕ) (o : Option PendingSwap) → InLimit s n o → InLimit s n none
drop_InLimit (rotate size_bps) n o h = omega arith
drop_InLimit (arbitrage min_edge_bps size_bps) n o h = omega arith
drop_InLimit (momentum window band_bps size_bps) n o h = tt

drop-IsSound : (s : Strategy) (b : Book) → IsSound s b → IsSound s (set_pending none b)
drop-IsSound s b h = (drop_InLimit s b.cycles b.pending h.0, tt)

bumped_InLimit :
    (s : Strategy) (b : Book) (x : Bool)
    → InLimit s b.cycles none
    → MayBump s b x
    → InLimit s (if x then b.cycles + 1 else b.cycles) none
bumped_InLimit s b false h m = h
bumped_InLimit (rotate size_bps) b true h m = omega arith
bumped_InLimit (arbitrage min_edge_bps size_bps) b true h m = omega arith
bumped_InLimit (momentum window band_bps size_bps) b true h m = tt

-- A swap that may count a cycle stays within the limit while it is pending.
send_InLimit :
    (s : Strategy) (n : ℕ) (p : PendingSwap)
    → InLimit s (if p.bump_cycle then n + 1 else n) none
    → InLimit s n (some p)
send_InLimit (rotate size_bps) n p h = ground arith
send_InLimit (arbitrage min_edge_bps size_bps) n p h = ground arith
send_InLimit (momentum window band_bps size_bps) n p h = tt

send-IsSound :
    (s : Strategy) (b : Book) (p : PendingSwap)
    → IsSound s b
    → (0 < p.amount_in) × (p.amount_in ≤ held p.side b.sol b.usdc)
    → MayBump s b p.bump_cycle
    → IsSound s (set_pending (some p) b)
send-IsSound s b p h paid m = (
  send_InLimit s b.cycles p
      (bumped_InLimit s b p.bump_cycle (drop_InLimit s b.cycles b.pending h.0) m),
  paid,
)

-- A landed swap counts the cycle it was pending with.
book_InLimit :
    (s : Strategy) (n : ℕ) (p : PendingSwap)
    → InLimit s n (some p)
    → InLimit s (if p.bump_cycle then n + 1 else n) none
book_InLimit (rotate size_bps) n p h = ground arith
book_InLimit (arbitrage min_edge_bps size_bps) n p h = ground arith
book_InLimit (momentum window band_bps size_bps) n p h = tt

book-IsSound :
    (s : Strategy) (b : Book) (p : PendingSwap) (r : SwapResult) (t : ℤ)
    → IsSound s b
    → b.pending ≡ some p
    → IsSound s (book_swap p.side p.amount_in p.pool r p.bump_cycle t (set_pending none b))
unfolding book_swap
book-IsSound s b p r t h e = (book_InLimit s b.cycles p (subst (InLimit s b.cycles) e h.0), tt)

module _ (env : Env) (cfg : AgentConfig) (may_draw : Position → Type 0) (may_trade : Bool) where
  abbrev Ok : Core → Type 0
  Ok = AreSound cfg.strategy

  moved : {c d : Core} → d ≡ c → Ok c → Ok d
  moved q h = subst Ok (sym q) h

  Move-AreSound : {c d : Core} → Move env cfg may_draw may_trade c d → Ok c → Ok d
  Move-AreSound {c} (notes ps q) h = moved q h
  Move-AreSound {c} (saves q) h = moved q (h.0, h.0)
  Move-AreSound {c} (sends key b p l n a m y q) h =
      let sound = send-IsSound cfg.strategy b p (h.0 key b l) a m in
      let kept = Every-update (IsSound cfg.strategy) key _ c.state.books b h.0 l sound in
      moved q (kept, kept)
  Move-AreSound {c} (drops key b p l n q) h = moved q (
    Every-update (IsSound cfg.strategy) key _ c.state.books b h.0 l
        (drop-IsSound cfg.strategy b (h.0 key b l)),
    h.1,
  )
  Move-AreSound {c} (books key b p r t l n q) h =
      let dropped =
        Every-update (IsSound cfg.strategy) key (set_pending none) c.state.books b h.0 l
          (drop-IsSound cfg.strategy b (h.0 key b l)) in
      moved q (
        Every-update (IsSound cfg.strategy) key
            (book_swap p.side p.amount_in p.pool r p.bump_cycle t)
            (update key (set_pending none) c.state.books) (set_pending none b) dropped
            (lookup-update_self key (set_pending none) c.state.books b l)
            (book-IsSound cfg.strategy b p r t (h.0 key b l) n),
        h.1,
      )
  Move-AreSound {c} (closes key k q) h =
      moved q (Every-erase (IsSound cfg.strategy) key c.state.books h.0, h.1)
  Move-AreSound {c} (asks_draw p t m o r l q) h = moved q h
  Move-AreSound {c} (draws p t before m k q) h = moved q (
    Every-insert (IsSound cfg.strategy) _ _ c.state.books h.0
        (new_book-IsSound cfg.strategy p t (settle_time t p.deadline cfg.hold_secs)),
    h.1,
  )
  Move-AreSound {c} (trades p m q) h = moved q h
  Move-AreSound {c} (adopts p t t' m o n q) h = moved q (
    Every-insert (IsSound cfg.strategy) _ _ c.state.books h.0 (
        new_book-IsSound cfg.strategy p p.drawn_at
          (adopted_settle_at t t' p.drawn_at p.deadline cfg.hold_secs)),
    h.1,
  )
  Move-AreSound {c} (asks_settle key b wallet l k q) h = moved q h
  Move-AreSound {c} (settles key b k st before l i j q) h =
      moved q (Every-erase (IsSound cfg.strategy) key c.state.books h.0, h.1)

  Moves-AreSound : {c d : Core} → Moves env cfg may_draw may_trade c d → Ok c → Ok d
  Moves-AreSound here h = h
  Moves-AreSound (next ms m) h = Move-AreSound m (Moves-AreSound ms h)

module _ (env : Env) (cfg : AgentConfig) (sized : IsSized cfg.strategy) where
  -- A tick keeps every book, in memory and on disk, within its strategy: at most one cycle for rotate
  -- and three for arbitrage, counting the one a pending swap will add, and a pending swap of no more
  -- than the book holds. The strategy sizes its swaps within a book.
  pub tick-AreSound :
      (price : Option ℕ) (partial : Bool) (s : Sys)
      → AreSound cfg.strategy s.core
      → AreSound cfg.strategy (tick env cfg price partial s).1.core
  tick-AreSound price partial s h =
      Moves-AreSound env cfg (Offered partial s.core.positions) true
        (tick-Moves env cfg sized price partial s) h

  settle_due-AreSound :
      (s : Sys) → AreSound cfg.strategy s.core → AreSound cfg.strategy (settle_due env cfg s).1.core
  settle_due-AreSound s h = Moves-AreSound env cfg NoDraw false (settle_due-Moves env cfg sized s) h
