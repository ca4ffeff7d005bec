-- ===== src/Agent/Strategies/Laws.antt =====
-- The amounts and quotes of agent/src/strategies.ts.
use collateralized_agents.Base.{
  ℕ, ◌+◌, ◌-◌, ◌*◌, ◌/◌, ◌≤◌, ◌<◌, ◌≡◌, ◌≢◌, ◌↔◌, ℤ, pos, pos_part, ◌≤ℤ◌, true, Option, none, some,
  List, arith, -ℤ_parts,
}
use collateralized_agents.Agent.State.{Side}
use collateralized_agents.Agent.Strategies.{
  Doubles, SwapAction, share, rotate_action, momentum_at, momentum_action, LegQuote, edge_bps,
  arbitrage_edge, leg2_min_out,
}

pub share-le : (amount bps : ℕ) → bps ≤ 10_000 → share amount bps ≤ amount
unfolding share
share-le amount bps h = grind arith

-- What a book holds of a side.
abbrev pub held : Side → ℕ → ℕ → ℕ
held Side.sol sol usdc = sol
held Side.usdc sol usdc = usdc

-- An action sells no more than the book holds.
abbrev pub Covered : ℕ → ℕ → Option SwapAction → Type 0
Covered sol usdc none = Unit
Covered sol usdc (some a) = a.amount ≤ held a.side sol usdc

rotate-Covered :
    (size_bps cycles sol usdc : ℕ)
    → size_bps ≤ 10_000
    → Covered sol usdc (rotate_action size_bps cycles sol)
unfolding rotate_action
rotate-Covered size_bps cycles sol usdc h = ground (arith, share-le sol size_bps)

-- Momentum never sells more than the book holds; it sells SOL only while no USDC is held, and then
-- counts a cycle.
pub momentum-Covered :
    (fl : Doubles) (window band_bps size_bps : ℕ) (prices : List ℕ) (price : Option ℕ)
    (sol usdc : ℕ)
    → size_bps ≤ 10_000
    → Covered sol usdc (momentum_action fl window band_bps size_bps prices price sol usdc)
unfolding momentum_action momentum_at
momentum-Covered fl window band_bps size_bps prices none sol usdc h = tt
momentum-Covered fl window band_bps size_bps prices (some price) sol usdc h =
    ground (arith, share-le sol size_bps)

le-div_iff : (m a s : ℕ) → 0 < s → (m ≤ a / s) ↔ (m * s ≤ a)
le-div_iff m a s h = (λ k. grind arith, λ k. grind arith)

-- The edge is compared exactly: the round trip goes ahead when, and only when, the pools differ and
-- leg 2 pays the size and the least edge on it, to the last unit.
pub arbitrage_edge_iff :
    (min_edge_bps size : ℕ) (leg1 leg2 : LegQuote)
    → 0 < size
    → 0 < min_edge_bps
    → (arbitrage_edge min_edge_bps size leg1 leg2 ≡ some true)
      ↔ ((size * (10_000 + min_edge_bps) ≤ leg2.out * 10_000) × (leg1.pool ≢ leg2.pool))
unfolding arbitrage_edge edge_bps
arbitrage_edge_iff min_edge_bps size leg1 leg2 h k = ground (
  arith,
  le-div_iff min_edge_bps ((leg2.out - size) * 10_000) size h,
  -ℤ_parts (pos 0) (pos ((size - leg2.out) * 10_000 / size)),
)

-- Leg 2 is bounded from below by its quote scaled to what leg 1 returned: never less than the quoted
-- minimum, and `none` exactly when leg 1 returned less than its quote.
leg2_min_out_bounds :
    (leg1 leg2 : LegQuote) (got : ℤ) (m : ℕ)
    → 0 < leg1.out
    → leg2_min_out leg1 leg2 got ≡ some m
    → (pos leg1.out ≤ℤ got) × (leg2.min_out ≤ m) × (m * leg1.out ≤ leg2.min_out * pos_part got)
unfolding leg2_min_out
leg2_min_out_bounds leg1 leg2 got m h e = grind (arith, le-div_iff)
