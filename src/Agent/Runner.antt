-- ===== src/Agent/Runner.antt =====
-- `AgentRunner` of agent/src/agent.ts: draws, swaps and settles of one agent. The log lines are left
-- out. A book is named by the address of its position: the source's references to a book object are
-- references to `this.state.books[key]`.
pub mod Unbooked
use collateralized_agents.Base.{
  ℕ, zero, suc, ◌+◌, ◌-◌, ℤ, pos, pos_part, ◌+ℤ◌, ◌-ℤ◌, ltb_ℤ, Bool, true, false, ◌&&◌, ◌||◌, not,
  Option, none, some, List, [], ◌∷◌, ◌++◌, map, last, find, Dict, lookup, ltb, leb, ◌==◌,
  if◌then◌else◌,
}
use collateralized_agents.Agent.Config.{
  AgentConfig, Strategy, arbitrage, momentum, rotate, main_pool,
}
use collateralized_agents.Agent.State.{
  Side, PendingSwap, Trade, Book, PriceSample, Settled, AgentState,
}
use collateralized_agents.Agent.Schedule.{
  settle_time, due_to_settle, too_late_to_draw, adopted_settle_at, past_last_call, settle_amount,
  fresh_prices,
}
use collateralized_agents.Agent.Strategies.{
  SwapAction, rotate_action, momentum_action, ArbitrageStep, unwind, done, quote, arbitrage_step,
  LegQuote, arbitrage_edge, leg2_min_out,
}
use collateralized_agents.Agent.System.{
  Error, other, Result, ok, err, PositionStatus, is_opened, is_trading, trading, settled, Position,
  Effect, draw_sent, settle_sent, Sys, Act, pure, throw, gets, call, catch, modify, ◌>>=◌, ◌>>◌,
  save, the_book, change_book, put_book, delete_book, emit,
}
use collateralized_agents.Agent.Env.{Rpc, primary, fallback, Env}
use collateralized_agents.Agent.Orca.{is_network_error, is_in_flight, with_fallback, best_quote}
use collateralized_agents.Agent.Swap.{
  SwapResult, Signed, swap_exact_in, Resolution, landed, failed, pending, resolve_swap,
}

abbrev pub has {ℓ} : {A : Type ℓ} → Option A → Bool
has none = false
has (some a) = true

-- A new amount of a book, held at zero.
abbrev pub add_delta : ℕ → ℤ → ℕ
add_delta n d = pos_part (pos n +ℤ d)

abbrev pub out_of : Side → SwapResult → ℤ
out_of Side.sol r = r.usdc_delta
out_of Side.usdc r = r.sol_delta

-- `record`: a landed swap, applied to the book.
unfoldable pub book_swap : Side → ℕ → ℕ → SwapResult → Bool → ℤ → Book → Book
book_swap side amount pool r bump_cycle t book = record book {
  sol = add_delta book.sol r.sol_delta;
  usdc = add_delta book.usdc r.usdc_delta;
  cycles = if bump_cycle then book.cycles + 1 else book.cycles;
  trades =
      book.trades
      ++ record {
        at = t;
        side = side;
        amount_in = amount;
        out = out_of side r;
        pool = pool;
        sig = r.signature;
      }
        ∷ [];
}

abbrev pub set_pending : Option PendingSwap → Book → Book
set_pending p book = record book { pending = p }

abbrev pub mark : ℕ → PositionStatus → List Position → List Position
mark key st [] = []
mark key st (p ∷ ps) =
    (if p.public_key == key then record p { status = st } else p) ∷ mark key st ps

-- `p.status = …` on the fetched list.
unfoldable pub set_status : ℕ → PositionStatus → Act (Unit {0})
set_status key st = modify (λ s. record s { positions = mark key st s.positions })

pub record SwapOpts : Type 0 where
  pub pool : Option ℕ
  pub min_out : Option ℕ
  pub bump_cycle : Bool

abbrev pub pending_swap : Side → ℕ → ℕ → Bool → Signed → ℤ → PendingSwap
pending_swap side amount pool bump_cycle s t = record {
  sig = s.signature;
  last_valid_block_height = s.last_valid_block_height;
  side = side;
  amount_in = amount;
  pool = pool;
  at = t;
  bump_cycle = bump_cycle;
}

module _ (env : Env) where
  unfoldable pub now : Act ℤ
  now = call (λ n. ok (env.now n))

  unfoldable pub record_swap : ℕ → Side → ℕ → ℕ → SwapResult → Bool → Act (Unit {0})
  record_swap key side amount pool r bump_cycle = do
    t ← now
    change_book key (book_swap side amount pool r bump_cycle t)

  unfoldable pub settle_resolution : ℕ → PendingSwap → Resolution → Act Bool
  settle_resolution key p pending = pure false
  settle_resolution key p failed = do change_book key (set_pending none); save; pure true
  settle_resolution key p (landed r) = do
    change_book key (set_pending none)
    record_swap key p.side p.amount_in p.pool r p.bump_cycle
    save
    pure true

  -- True once the book has no pending swap.
  unfoldable pub resolve_pending : ℕ → PendingSwap → Act Bool
  resolve_pending key p = do r ← resolve_swap env p; settle_resolution key p r

  -- The callback of `swapExactIn`: the signed swap is pending, on disk, before it is sent.
  unfoldable pub on_signed : ℕ → Side → ℕ → ℕ → Bool → Signed → Act (Unit {0})
  on_signed key side amount pool bump_cycle s = do
    t ← now
    change_book key (set_pending (some (pending_swap side amount pool bump_cycle s t)))
    save

  -- Never sent, or rejected: it cannot land.
  unfoldable pub drop_pending : ℕ → Error → Act SwapResult
  drop_pending key e = do change_book key (set_pending none); save; throw e

  -- What `swap` does when `swapExactIn` throws.
  unfoldable pub not_landed : ℕ → Error → Act SwapResult
  not_landed key e = do
    book ← the_book key
    if not (is_in_flight e) && has book.pending then drop_pending key e else throw e

  abbrev pub or_else : Option ℕ → ℕ → ℕ
  or_else none a = a
  or_else (some b) a = b

  -- The pool and the minimum output: those given, or those of the best quote now.
  unfoldable pub choose : Side → ℕ → SwapOpts → Act (ℕ × Option ℕ)
  choose side amount opts = elim opts.pool [
    | some pool ↦ pure (pool, opts.min_out)
    | none ↦ (do
      q ← best_quote env side amount
      pure (q.pool, some (or_else opts.min_out q.min_out)))
  ]

  unfoldable pub execute : ℕ → Side → ℕ → Bool → ℕ × Option ℕ → Act (Option SwapResult)
  execute key side amount bump_cycle (pool, min_out) = do
    r ←
        catch
          (swap_exact_in env pool side amount (on_signed key side amount pool bump_cycle) min_out)
          (not_landed key)
    change_book key (set_pending none)
    record_swap key side amount pool r bump_cycle
    save
    pure (some r)

  unfoldable pub swap : ℕ → Side → ℕ → SwapOpts → Act (Option SwapResult)
  swap key side amount opts = if amount == 0 then pure none else do
    book ← the_book key
    if has book.pending
        then throw other
        else do c ← choose side amount opts; execute key side amount opts.bump_cycle c

  abbrev pub best_pool : Bool → SwapOpts
  best_pool bump = record { pool = none; min_out = none; bump_cycle = bump }

  -- A swap for its effect.
  unfoldable pub swap_ : ℕ → Side → ℕ → SwapOpts → Act (Unit {0})
  swap_ key side amount opts = swap key side amount opts >>= λ r. pure tt

  unfoldable pub act_on : ℕ → Option SwapAction → Act (Unit {0})
  act_on key none = pure tt
  act_on key (some a) = swap_ key a.side a.amount (best_pool a.bump_cycle)

  -- Leg 2 of a round trip whose leg 1 returned `r`.
  unfoldable pub second_leg : ℕ → LegQuote → LegQuote → Option SwapResult → Act (Unit {0})
  second_leg key leg1 leg2 none = pure tt
  second_leg key leg1 leg2 (some r) = elim (leg2_min_out leg1 leg2 r.usdc_delta) [
    | none ↦ pure tt
    | some min2 ↦
        swap_ key Side.usdc (pos_part r.usdc_delta)
          (record { pool = some leg2.pool; min_out = some min2; bump_cycle = false })
  ]

  -- `none`: the division by a size of zero throws.
  unfoldable pub if_worth : ℕ → ℕ → LegQuote → LegQuote → Option Bool → Act (Unit {0})
  if_worth key size leg1 leg2 none = throw other
  if_worth key size leg1 leg2 (some false) = pure tt
  if_worth key size leg1 leg2 (some true) = do
    r1 ←
        swap key Side.sol size
          (record { pool = some leg1.pool; min_out = some leg1.min_out; bump_cycle = true })
    second_leg key leg1 leg2 r1

  unfoldable pub round_trip : ℕ → ℕ → ℕ → Act (Unit {0})
  round_trip key min_edge_bps size = do
    leg1 ← best_quote env Side.sol size
    leg2 ← best_quote env Side.usdc leg1.out
    if_worth key size leg1 leg2 (arbitrage_edge min_edge_bps size leg1 leg2)

  unfoldable pub arbitrage_trade : ℕ → ℕ → ArbitrageStep → Act (Unit {0})
  arbitrage_trade key min_edge_bps (unwind amount) = swap_ key Side.usdc amount (best_pool false)
  arbitrage_trade key min_edge_bps done = pure tt
  arbitrage_trade key min_edge_bps (quote size) = round_trip key min_edge_bps size

  unfoldable pub trade_by : Strategy → ℕ → Option ℕ → Act (Unit {0})
  trade_by (rotate size_bps) key price = do
    book ← the_book key
    act_on key (rotate_action size_bps book.cycles book.sol)
  trade_by (momentum window band_bps size_bps) key price = do
    book ← the_book key
    samples ← gets (λ s. s.state.prices)
    t ← now
    act_on key (
        momentum_action env.doubles window band_bps size_bps
          (fresh_prices env.poll_ms samples t window) price book.sol book.usdc)
  trade_by (arbitrage min_edge_bps size_bps) key price = do
    book ← the_book key
    arbitrage_trade key min_edge_bps (arbitrage_step size_bps book.cycles book.sol book.usdc)
