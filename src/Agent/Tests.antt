-- ===== src/Agent/Tests.antt =====
-- A small cluster on which agent/src/agent.ts runs, and the theorems at concrete inputs.
mod Process
use collateralized_agents.Base.{
  ◌+◌, ◌-◌, ◌*◌, ◌/◌, ◌≤◌, ℤ, pos, true, false, ◌≡◌, ◌≢◌, ◌↔◌, refl, none, some, [], ◌∷◌, All,
  lookup, arith, ltb,
}
use collateralized_agents.Agent.Config.{orca_rotator, main_pool, usdc_mint}
use collateralized_agents.Agent.State.{Side, PendingSwap, Book, empty}
use collateralized_agents.Agent.Strategies.{Doubles}
use collateralized_agents.Agent.System.{network, ok, err, opened, Position, Sys}
use collateralized_agents.Agent.Env.{Env}
use Prim.Native.Nat.{min}
use collateralized_agents.Base.{◌⊎◌, ◌+ℤ◌, ◌-ℤ◌, ◌≤ℤ◌}
use collateralized_agents.Agent.Config.{settle_buffer_secs, alert_window_secs}
use collateralized_agents.Agent.Schedule.{
  settle_time, due_to_settle, adopted_settle_at, has_pending, should_alert, settle_reserve_lamports,
  settle_amount, too_late_to_draw, past_last_call,
}
use collateralized_agents.Agent.Schedule.Laws.{
  draw_leaves_time, due_at_last_call, should_alert_iff, settle_amount_best,
}
use collateralized_agents.Agent.Strategies.{LegQuote, momentum_action, arbitrage_edge, leg2_min_out}
use collateralized_agents.Agent.Strategies.Laws.{Covered, momentum-Covered, arbitrage_edge_iff}
use collateralized_agents.Agent.System.{catch}
use collateralized_agents.Agent.Orca.{best_of}
use collateralized_agents.Agent.Orca.Best.{Offered, best_of_lem}
use collateralized_agents.Agent.Swap.{finish}
use collateralized_agents.Agent.Runner.{not_landed}
use collateralized_agents.Agent.Runner.Unbooked.{IsUnbooked, landed-IsUnbooked}
use collateralized_agents.Agent.Loop.{new_book, tick, settle_due}
use collateralized_agents.Agent.Protocol.{NoDraw, Moves}
use collateralized_agents.Agent.Protocol
use collateralized_agents.Agent.Refine.Trades.{IsSized}
use collateralized_agents.Agent.Refine.Draws.{tick-Moves, settle_due-Moves}
use collateralized_agents.Agent.Invariants.Sent.{Sends, tick-Sends, settle_due-Sends}
use collateralized_agents.Agent.Invariants.Limits.{AreSound, tick-AreSound}
use collateralized_agents.Agent.Invariants.History.{IsBacked, tick-IsBacked}
use collateralized_agents.Agent.Invariants.Partial.{OpensNothing, tick-OpensNothing}

abbrev whole_doubles : Doubles
whole_doubles = record {
  add = λ a b. a + b;
  sub = λ a b. a - b;
  mul = λ a b. a * b;
  div = λ a b. a / b;
  lt = ltb;
  of_ℕ = λ n. n;
}

-- Every swap lands and pays what it was quoted, on a clock that stands still.
abbrev cluster : ℤ → Env
cluster t = record {
  doubles = whole_doubles;
  poll_ms = 60_000;
  slippage_bps = 100;
  wallet = 7;
  has_fallback = false;
  now = λ n. t;
  local_ms = λ n. n;
  fetch_pools = λ n. ok (
      record {
        address = main_pool;
        is_there = true;
        liquidity = 1;
        sol_is_a = true;
        raw_price = 100;
      }
      ∷ []);
  swap_instructions = λ pool mint_in amount slippage n.
      ok (record { token_est_out = amount; token_min_out = amount - amount / 100 });
  latest_blockhash = λ n. ok (record { signature = n; last_valid_block_height = 500 });
  send_raw_transaction = λ sig n. ok tt;
  confirm_transaction = λ sig n. ok true;
  get_transaction = λ sig rpc n. ok (
      some (record {
        fee = 5000;
        pre_balance = 8_000_000;
        post_balance = 8_095_000;
        pre_token_balances = [];
        post_token_balances = record { owner = some 7; mint = usdc_mint; amount = 300 } ∷ [];
        failed = false;
      }));
  signature_status = λ sig rpc n. ok (some (record { confirmed = true; failed = false }));
  block_height = λ rpc n. ok 400;
  balance = λ rpc n. ok 10_000_000;
  draw_funds = λ key n. ok tt;
  settle_position = λ key returned rpc n. ok tt;
}

abbrev open_position : Position
open_position = record {
  public_key = 11;
  principal = 1_000_000;
  deadline = pos 5000;
  drawn_at = pos 0;
  status = opened;
}

abbrev start : Sys
start = record {
  core = record { state = empty; disk = empty; positions = open_position ∷ []; trace = [] };
  pool_cache = none;
  calls = 0;
}

-- After the tick that draws, and after the next, which trades.
abbrev after_draw : Sys
after_draw = (tick (cluster (pos 1000)) orca_rotator (some 100) false start).1

abbrev after_trade : Sys
after_trade = (tick (cluster (pos 1060)) orca_rotator (some 100) false after_draw).1

rotator-IsSized : IsSized orca_rotator.strategy
rotator-IsSized = omega arith

tick-Moves_example :
    Moves
      (cluster (pos 1060))
      orca_rotator
      (Protocol.Offered false after_draw.core.positions)
      true
      after_draw.core
      (tick (cluster (pos 1060)) orca_rotator (some 100) false after_draw).1.core
tick-Moves_example =
    tick-Moves (cluster (pos 1060)) orca_rotator rotator-IsSized (some 100) false after_draw

settle_due-Moves_example :
    Moves
      (cluster (pos 4500))
      orca_rotator
      NoDraw
      false
      after_trade.core
      (settle_due (cluster (pos 4500)) orca_rotator after_trade).1.core
settle_due-Moves_example =
    settle_due-Moves (cluster (pos 4500)) orca_rotator rotator-IsSized after_trade

tick-Sends_example :
    Sends
      (cluster (pos 1060))
      orca_rotator
      (Protocol.Offered false after_draw.core.positions)
      true
      after_draw.core
      (tick (cluster (pos 1060)) orca_rotator (some 100) false after_draw).1.core
tick-Sends_example =
    tick-Sends (cluster (pos 1060)) orca_rotator rotator-IsSized (some 100) false after_draw

no_books : AreSound orca_rotator.strategy start.core
unfolding lookup
no_books = (λ k v h. cc, λ k v h. cc)

tick-AreSound_example : AreSound orca_rotator.strategy after_trade.core
tick-AreSound_example =
    tick-AreSound (cluster (pos 1060)) orca_rotator rotator-IsSized (some 100) false after_draw (
      tick-AreSound (cluster (pos 1000)) orca_rotator rotator-IsSized (some 100) false start
        no_books)

tick-IsBacked_example :
    IsBacked (tick (cluster (pos 4500)) orca_rotator (some 100) false after_draw).1.core
tick-IsBacked_example =
    tick-IsBacked (cluster (pos 4500)) orca_rotator rotator-IsSized (some 100) false after_draw
      (tick-IsBacked (cluster (pos 1000)) orca_rotator rotator-IsSized (some 100) false start tt)

tick-OpensNothing_example :
    OpensNothing start.core (tick (cluster (pos 1000)) orca_rotator none true start).1.core
tick-OpensNothing_example =
    tick-OpensNothing (cluster (pos 1000)) orca_rotator rotator-IsSized none start

abbrev a_book : Book
a_book = new_book open_position (pos 1000) (pos 1600)

-- Both RPC nodes are down when the transaction is read.
abbrev silent : Env
silent = record (cluster (pos 1060)) { get_transaction = λ sig rpc n. err network }

abbrev a_swap : PendingSwap
a_swap = record {
  sig = 9;
  last_valid_block_height = 500;
  side = Side.sol;
  amount_in = 500_000;
  pool = main_pool;
  at = pos 1060;
  bump_cycle = true;
}

abbrev swapping : Book
swapping = record a_book { pending = some a_swap }

abbrev mid_swap : Sys
mid_swap = record start {
  core = record start.core { state = record empty { books = (11, swapping) ∷ [] } };
}

landed-IsUnbooked_example :
    IsUnbooked network 11 swapping
      (catch (finish silent 9 Side.sol 500_000) (not_landed silent 11) mid_swap)
unfolding lookup
landed-IsUnbooked_example =
    landed-IsUnbooked silent 9 network (λ rpc n. refl) Side.sol 500_000 (λ n. refl) (λ n. refl) 11
      swapping a_swap mid_swap refl refl refl
