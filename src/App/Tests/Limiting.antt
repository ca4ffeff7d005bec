-- ===== src/App/Tests/Limiting.antt =====
-- The rate limiter of app/lib/rateLimit.ts on a few calls.
use collateralized_agents.Base.{ℕ, ◌≡◌, true, false, List, [], ◌∷◌, arith}
use collateralized_agents.App.RateLimit.{Options}
use collateralized_agents.App.RateLimit.Exact.{answers, over_limit, answers-over_limit}

abbrev two_in_ten : Options
two_in_ten = record { window_ms = 10; max = 2; max_keys = 4 }

abbrev few_calls : List (ℕ × ℕ)
few_calls = (1, 0) ∷ (1, 3) ∷ (2, 4) ∷ (1, 5) ∷ (1, 11) ∷ (1, 16) ∷ []

answers-over_limit_example :
    answers two_in_ten few_calls (record { hits = []; last_sweep = 0 })
    ≡ false ∷ false ∷ false ∷ true ∷ true ∷ false ∷ []
unfolding over_limit
answers-over_limit_example = answers-over_limit two_in_ten few_calls (
  omega arith,
  omega arith,
  (
    omega arith,
    omega arith,
    (
      omega arith,
      omega arith,
      (omega arith, omega arith, (omega arith, omega arith, (omega arith, omega arith, tt))),
    ),
  ),
)
