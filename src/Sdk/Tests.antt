-- ===== src/Sdk/Tests.antt =====
-- The theorems on sdk/src at concrete inputs.
mod Sending
mod Running
mod Parsing
use Prim.Native.Nat.{min}
use collateralized_agents.Base.{
  ℕ, ◌+◌, ◌-◌, ◌*◌, ◌≤◌, pos, ◌+ℤ◌, ◌-ℤ◌, ◌≤ℤ◌, true, ◌≡◌, ◌↔◌, ◌⊎◌, refl, none, some, List, [],
  ◌∷◌, arith,
}
use collateralized_agents.Agent.Schedule.{to_ms}
use collateralized_agents.Agent.System.{opened}
use collateralized_agents.Sdk.Settle.{
  draw_tx_fee, settle_fee_margin, settle_compute_units, priority_fee_lamports, wallet_reserve,
  may_draw, fair_return, returned,
}
use collateralized_agents.Sdk.Settle.Laws.{
  returned_lem, priority_fee_lamports_lem, wallet_reserve_lem, settled_for, settled_for_bounds,
  settled_for_exact, just_reserve_lem,
}
use collateralized_agents.Sdk.Schedule.{
  settle_tx_secs, min_sleep_ms, loop_sleep_ms, or_default, hook_grace_secs, resume_until,
  OpenPosition, drawable, next_to_draw,
}
use collateralized_agents.Sdk.Schedule.Laws.{
  hook_grace_secs_bounds, loop_sleep_ms_bounds, resume_until_bounds,
}
use collateralized_agents.Sdk.Schedule.Oldest.{IsNext, next_to_draw-IsNext}

-- Rent exemption, and the reserve at the default urgent price.
abbrev rent : ℕ
rent = 890_880

abbrev reserve : ℕ
reserve = wallet_reserve rent 50_000

priority_fee_lamports_lem_example :
    (priority_fee_lamports 1001 200_000 ≤ 201) ↔ (1001 * 200_000 ≤ 201 * 1_000_000)
priority_fee_lamports_lem_example = priority_fee_lamports_lem 1001 200_000 201

settled_for_bounds_example :
    ((settled_for 950_000 1_000_000 rent 50_000 1_900_000 ≡ 0)
      ⊎ (settled_for 950_000 1_000_000 rent 50_000 1_900_000 + reserve ≤ 1_900_000))
    × (settled_for 950_000 1_000_000 rent 50_000 1_900_000 ≤ 1_900_000 + draw_tx_fee - 950_000)
    × (1_900_000 + draw_tx_fee - 950_000
        ≤ settled_for 950_000 1_000_000 rent 50_000 1_900_000 + draw_tx_fee)
unfolding may_draw wallet_reserve priority_fee_lamports
settled_for_bounds_example = settled_for_bounds 950_000 1_000_000 rent 50_000 1_900_000 refl

loop_sleep_ms_bounds_example :
    (loop_sleep_ms 15_000 (some (pos 5000)) (pos 4990) ≤ℤ pos 15_000)
    × ((loop_sleep_ms 15_000 (some (pos 5000)) (pos 4990) ≤ℤ pos min_sleep_ms)
        ⊎ (loop_sleep_ms 15_000 (some (pos 5000)) (pos 4990) ≤ℤ to_ms (pos 5000 -ℤ pos 4990)))
loop_sleep_ms_bounds_example = loop_sleep_ms_bounds 15_000 (pos 5000) (pos 4990)

abbrev offers : List OpenPosition
offers =
    record {
      public_key = 1;
      principal = 500;
      opened_at = pos 20;
      drawn_at = pos 0;
      deadline = pos 9000;
      status = opened;
    }
    ∷ record {
      public_key = 2;
      principal = 500;
      opened_at = pos 10;
      drawn_at = pos 0;
      deadline = pos 9000;
      status = opened;
    }
    ∷ []

next_to_draw-IsNext_example :
    IsNext 600
      (λ n. pos 100)
      (drawable 600 (λ n. pos 100) 0 offers)
      (next_to_draw 600 (λ n. pos 100) offers)
next_to_draw-IsNext_example = next_to_draw-IsNext 600 (λ n. pos 100) offers
