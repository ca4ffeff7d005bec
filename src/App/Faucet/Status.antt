-- ===== src/App/Faucet/Status.antt =====
-- The status that app/app/api/faucet/route.ts shows, against what its requests go through.
use collateralized_agents.Base.{ℕ, ◌+◌, ◌≤◌, false, ◌≡◌, ◌↔◌, ltb, leb, arith}
use collateralized_agents.App.Faucet.{amount, reserve, remaining_drops}

-- The status shows a drop left exactly when a request that meets the same balance and the same number of
-- markers of the day goes past both checks.
remaining_drops_iff :
    (max_drops today balance : ℕ)
    → (1 ≤ remaining_drops max_drops today balance)
      ↔ ((ltb balance (amount + reserve) ≡ false) × (leb max_drops today ≡ false))
unfolding remaining_drops
remaining_drops_iff max_drops today balance = ground arith
