-- ===== src/Sdk/Settle/Laws.antt =====
-- What a settle of sdk/src/runner.ts returns.
use Prim.Native.Nat.{min}
use collateralized_agents.Base.{
  ℕ, ◌+◌, ◌-◌, ◌*◌, ◌≤◌, ◌≡◌, ◌↔◌, ◌⊎◌, ℤ, pos, ◌+ℤ◌, ◌-ℤ◌, true, arith, +ℤ_parts, -ℤ_parts,
  one_part,
}
use collateralized_agents.Sdk.Settle.{
  draw_tx_fee, settle_fee_margin, settle_compute_units, priority_fee_lamports, wallet_reserve,
  may_draw, balance_at_draw, fair_return, keep_reserve, returned,
}

-- A settle returns the lesser of the principal with the wallet's change and of what the wallet holds
-- above the reserve.
pub returned_lem :
    (principal : ℕ) (at_draw : ℤ) (balance reserve : ℕ)
    → returned principal at_draw balance reserve
      ≡ min (fair_return principal at_draw balance) (balance - reserve)
unfolding returned keep_reserve
returned_lem principal at_draw balance reserve = ground arith

-- The change since a draw, for a wallet that held `before` and then `before + principal` less the fee.
fair_lem :
    (before principal balance : ℕ)
    → draw_tx_fee ≤ before
    → fair_return principal (balance_at_draw before principal) balance
      ≡ balance + draw_tx_fee - before
unfolding fair_return balance_at_draw
fair_lem before principal balance h = ground (
  arith,
  one_part (pos principal +ℤ (pos balance -ℤ (pos before +ℤ pos principal -ℤ pos draw_tx_fee))),
  one_part (pos balance -ℤ (pos before +ℤ pos principal -ℤ pos draw_tx_fee)),
  one_part (pos before +ℤ pos principal -ℤ pos draw_tx_fee),
  +ℤ_parts (pos before) (pos principal),
  -ℤ_parts (pos before +ℤ pos principal) (pos draw_tx_fee),
  -ℤ_parts (pos balance) (pos before +ℤ pos principal -ℤ pos draw_tx_fee),
  +ℤ_parts (pos principal) (pos balance -ℤ (pos before +ℤ pos principal -ℤ pos draw_tx_fee)),
)

-- A priority fee is the least whole number of lamports that covers the price of the units.
pub priority_fee_lamports_lem :
    (micro_lamports units n : ℕ)
    → (priority_fee_lamports micro_lamports units ≤ n) ↔ (micro_lamports * units ≤ n * 1_000_000)
unfolding priority_fee_lamports
priority_fee_lamports_lem micro_lamports units n = (λ h. omega arith, λ h. omega arith)

-- The reserve covers rent exemption and, on top, the margin and a settle at the urgent price.
pub wallet_reserve_lem :
    (rent urgent : ℕ)
    → (rent + settle_fee_margin ≤ wallet_reserve rent urgent)
      × (rent + draw_tx_fee + priority_fee_lamports urgent settle_compute_units
          ≤ wallet_reserve rent urgent)
unfolding wallet_reserve
wallet_reserve_lem rent urgent = ground arith

module _ (before principal rent urgent : ℕ) where
  abbrev reserve : ℕ
  reserve = wallet_reserve rent urgent

  -- What a settle returns for a draw from a wallet that held `before`, when the wallet now holds
  -- `balance`.
  abbrev pub settled_for : ℕ → ℕ
  settled_for balance = returned principal (balance_at_draw before principal) balance reserve

  -- Whatever a wallet that was let draw holds now, a settle returns nothing or leaves the reserve, and
  -- it returns at most the draw's fee less than the principal and the wallet's change since.
  pub settled_for_bounds :
      (balance : ℕ)
      → may_draw before reserve ≡ true
      → ((settled_for balance ≡ 0) ⊎ (settled_for balance + reserve ≤ balance))
        × (settled_for balance ≤ balance + draw_tx_fee - before)
        × (balance + draw_tx_fee - before ≤ settled_for balance + draw_tx_fee)
  unfolding may_draw
  settled_for_bounds balance h =
      let fair =
        fair_lem before principal balance (ground (arith, wallet_reserve_lem rent urgent)) in
      let r = returned_lem principal (balance_at_draw before principal) balance reserve in
      (ground (arith, fair, r), ground (arith, fair, r), ground (arith, fair, r))

  -- A wallet that also held the draw's fee returns exactly the principal and its change since the
  -- draw, or nothing where that is negative.
  pub settled_for_exact :
      (balance : ℕ)
      → reserve + draw_tx_fee ≤ before
      → settled_for balance ≡ balance + draw_tx_fee - before
  settled_for_exact balance h =
      let fair = fair_lem before principal balance (omega arith) in
      let r = returned_lem principal (balance_at_draw before principal) balance reserve in
      ground (arith, fair, r)

-- A wallet that held just the reserve is let draw, and if nothing happens until the settle it returns
-- the draw's fee less than the principal.
pub just_reserve_lem :
    (principal rent urgent : ℕ)
    → draw_tx_fee ≤ principal
    → (may_draw (wallet_reserve rent urgent) (wallet_reserve rent urgent) ≡ true)
      × (settled_for
            (wallet_reserve rent urgent)
            principal
            rent
            urgent
            (wallet_reserve rent urgent + principal - draw_tx_fee)
          ≡ principal - draw_tx_fee)
unfolding may_draw
just_reserve_lem principal rent urgent h =
    let before = wallet_reserve rent urgent in
    let balance = before + principal - draw_tx_fee in
    let fair = fair_lem before principal balance (omega (arith, wallet_reserve_lem rent urgent)) in
    let r = returned_lem principal (balance_at_draw before principal) balance before in
    (ground arith, ground (arith, fair, r))
