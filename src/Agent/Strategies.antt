-- ===== src/Agent/Strategies.antt =====
-- agent/src/strategies.ts: what to trade, from the book, the prices and the quotes.
pub mod Laws
use collateralized_agents.Base.{
  ℕ, suc, ◌+◌, ◌-◌, ◌*◌, ◌/◌, ℤ, pos, pos_part, ◌-ℤ◌, Bool, true, false, not, ◌&&◌, ◌||◌, Option,
  none, some, List, [], ◌∷◌, length, last, ltb, leb, ltb_ℤ, ◌==◌, if◌then◌else◌,
}
use collateralized_agents.Agent.State.{Side}

-- The double arithmetic that the program uses, over the 64 bits of a double.
pub record Doubles : Type 0 where
  pub add : ℕ → ℕ → ℕ
  pub sub : ℕ → ℕ → ℕ
  pub mul : ℕ → ℕ → ℕ
  pub div : ℕ → ℕ → ℕ
  pub lt : ℕ → ℕ → Bool
  pub of_ℕ : ℕ → ℕ

pub record SwapAction : Type 0 where
  pub side : Side
  pub amount : ℕ
  pub bump_cycle : Bool

unfoldable pub share : ℕ → ℕ → ℕ
share amount bps = amount * bps / 10_000

unfoldable pub rotate_action : ℕ → ℕ → ℕ → Option SwapAction
rotate_action size_bps cycles sol =
    if cycles == 0
    then some (record { side = Side.sol; amount = share sol size_bps; bump_cycle = true })
    else none

module _ (fl : Doubles) where
  pub sum_from : ℕ → List ℕ → ℕ
  sum_from acc [] = acc
  sum_from acc (x ∷ xs) = sum_from (fl.add acc x) xs

  unfoldable pub momentum_at : ℕ → ℕ → ℕ → List ℕ → ℕ → ℕ → ℕ → Option SwapAction
  momentum_at window band_bps size_bps prices price sol usdc =
      let recent = last window prices in
      let sma = fl.div (sum_from (fl.of_ℕ 0) recent) (fl.of_ℕ (length recent)) in
      let band = fl.div (fl.of_ℕ band_bps) (fl.of_ℕ 10_000) in
      if (usdc == 0) && fl.lt price (fl.mul sma (fl.sub (fl.of_ℕ 1) band))
      then some (record { side = Side.sol; amount = share sol size_bps; bump_cycle = true })
      else if ltb 0 usdc && fl.lt (fl.mul sma (fl.add (fl.of_ℕ 1) band)) price
      then some (record { side = Side.usdc; amount = usdc; bump_cycle = false })
      else none

  unfoldable pub momentum_action : ℕ → ℕ → ℕ → List ℕ → Option ℕ → ℕ → ℕ → Option SwapAction
  momentum_action window band_bps size_bps prices none sol usdc = none
  momentum_action window band_bps size_bps prices (some price) sol usdc =
      if ltb (length prices) window
      then none
      else momentum_at window band_bps size_bps prices price sol usdc

pub data ArbitrageStep : Type 0 where
  unwind : ℕ → ArbitrageStep
  done : ArbitrageStep
  quote : ℕ → ArbitrageStep

unfoldable pub arbitrage_step : ℕ → ℕ → ℕ → ℕ → ArbitrageStep
arbitrage_step size_bps cycles sol usdc =
    if ltb 0 usdc then unwind usdc else if leb 3 cycles then done else quote (share sol size_bps)

pub record LegQuote : Type 0 where
  pub pool : ℕ
  pub out : ℕ
  pub min_out : ℕ

-- Division of BigInts: towards zero.
unfoldable pub edge_bps : ℕ → ℕ → ℤ
edge_bps size out =
    if leb size out
    then pos ((out - size) * 10_000 / size)
    else pos 0 -ℤ pos ((size - out) * 10_000 / size)

-- `none`: the source divides by a size of zero, which throws.
unfoldable pub arbitrage_edge : ℕ → ℕ → LegQuote → LegQuote → Option Bool
arbitrage_edge min_edge_bps size leg1 leg2 =
    if size == 0
    then none
    else some (not (ltb_ℤ (edge_bps size leg2.out) (pos min_edge_bps) || (leg1.pool == leg2.pool)))

unfoldable pub leg2_min_out : LegQuote → LegQuote → ℤ → Option ℕ
leg2_min_out leg1 leg2 leg1_got =
    if ltb_ℤ leg1_got (pos leg1.out)
    then none
    else some (leg2.min_out * pos_part leg1_got / leg1.out)
