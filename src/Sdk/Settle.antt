-- ===== src/Sdk/Settle.antt =====
-- The money of sdk/src/runner.ts: the reserve of the trading wallet, what a draw leaves in it, and what
-- a settle returns; with the fees of sdk/src/client.ts. In lamports.
pub mod Laws
use collateralized_agents.Base.{
  ℕ, ◌+◌, ◌-◌, ◌*◌, ◌/◌, ◌%◌, ℤ, pos, pos_part, ◌+ℤ◌, ◌-ℤ◌, Bool, Option, none, some, ltb, leb,
  ◌==◌, if◌then◌else◌,
}

abbrev pub signature_fee : ℕ
signature_fee = 5000

abbrev pub draw_tx_fee : ℕ
draw_tx_fee = signature_fee

abbrev pub settle_fee_margin : ℕ
settle_fee_margin = 20_000

-- `Math.ceil`, of a whole number of millionths.
unfoldable pub priority_fee_lamports : ℕ → ℕ → ℕ
priority_fee_lamports micro_lamports units = (micro_lamports * units + 999_999) / 1_000_000

abbrev pub settle_compute_units : ℕ
settle_compute_units = 200_000

unfoldable pub wallet_reserve : ℕ → ℕ → ℕ
wallet_reserve rent_exempt_lamports urgent_micro_lamports =
    let fee = draw_tx_fee + priority_fee_lamports urgent_micro_lamports settle_compute_units in
    rent_exempt_lamports + (if ltb settle_fee_margin fee then fee else settle_fee_margin)

-- `tick` draws when the wallet holds the reserve.
unfoldable pub may_draw : ℕ → ℕ → Bool
may_draw balance reserve = leb reserve balance

-- What `draw` notes as the balance after it.
unfoldable pub balance_at_draw : ℕ → ℕ → ℤ
balance_at_draw before principal = pos before +ℤ pos principal -ℤ pos draw_tx_fee

-- `returned` of `settle` before the reserve is looked at.
unfoldable pub fair_return : ℕ → ℤ → ℕ → ℕ
fair_return principal at_draw balance = pos_part (pos principal +ℤ (pos balance -ℤ at_draw))

-- `balance - returned < reserve` is tested with both sums on one side, since `-` stops at 0.
unfoldable pub keep_reserve : ℕ → ℕ → ℕ → ℕ
keep_reserve balance reserve returned =
    if ltb balance (returned + reserve)
    then (if ltb reserve balance then balance - reserve else 0)
    else returned

unfoldable pub returned : ℕ → ℤ → ℕ → ℕ → ℕ
returned principal at_draw balance reserve =
    keep_reserve balance reserve (fair_return principal at_draw balance)
