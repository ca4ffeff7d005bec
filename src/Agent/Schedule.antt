-- ===== src/Agent/Schedule.antt =====
-- agent/src/agent.ts, the pure decisions on time and amounts.
pub mod Laws
use collateralized_agents.Base.{
  ℕ, ◌+◌, ◌-◌, ◌*◌, ◌/◌, ℤ, pos, ◌+ℤ◌, ◌-ℤ◌, min_ℤ, max_ℤ, leb_ℤ, ltb_ℤ, pos_part, neg_part, Bool,
  true, false, ◌&&◌, ◌||◌, not, Option, none, some, List, map, keep_if, leb, ltb, if◌then◌else◌,
}
use collateralized_agents.Agent.Config.{settle_buffer_secs, alert_window_secs}
use collateralized_agents.Agent.State.{Book, PriceSample}

abbrev pub last_call_secs : ℕ
last_call_secs = 120

unfoldable pub settle_time : ℤ → ℤ → ℕ → ℤ
settle_time drawn_at deadline hold_secs =
    min_ℤ (deadline -ℤ pos settle_buffer_secs) (drawn_at +ℤ pos hold_secs)

-- The last operand of the source's `||`: inside the settle buffer.
unfoldable pub due_to_settle : Book → ℤ → Bool
due_to_settle book t = leb_ℤ book.settle_at t || leb_ℤ (book.deadline -ℤ pos settle_buffer_secs) t

unfoldable pub too_late_to_draw : ℤ → ℤ → Bool
too_late_to_draw t deadline = leb_ℤ (deadline -ℤ pos settle_buffer_secs -ℤ pos 120) t

-- When an adopted position settles; the source reads the clock twice, at `t` and then at `t'`.
unfoldable pub adopted_settle_at : ℤ → ℤ → ℤ → ℤ → ℕ → ℤ
unfolding settle_time
adopted_settle_at t t' drawn_at deadline hold_secs = max_ℤ t (
    min_ℤ (max_ℤ (settle_time drawn_at deadline hold_secs) (t' +ℤ pos 60))
      (deadline -ℤ pos settle_buffer_secs))

unfoldable pub past_last_call : ℤ → ℤ → Bool
past_last_call t deadline = leb_ℤ (deadline -ℤ pos last_call_secs) t

abbrev pub has_pending : Book → Bool
has_pending book = elim book.pending [ none ↦ false | some p ↦ true ]

unfoldable pub should_alert : Book → ℤ → Bool → Bool
unfolding due_to_settle
should_alert book t tick_ran =
    if ltb_ℤ (pos alert_window_secs) (book.deadline -ℤ t)
    then false
    else if tick_ran && not (due_to_settle book t) && not (has_pending book)
    then false
    else true

abbrev pub settle_reserve_lamports : ℕ
settle_reserve_lamports = 890_880 + 10_000

-- `wallet - reserve <= 0` is tested on the operands, since `-` stops at 0.
unfoldable pub settle_amount : ℕ → ℕ → ℕ
settle_amount owed wallet =
    if leb wallet settle_reserve_lamports
    then 0
    else if ltb owed (wallet - settle_reserve_lamports)
    then owed
    else wallet - settle_reserve_lamports

-- `Math.max(POLL_MS / 1000, 60)` times twice the window, in thousandths of a second, since
-- POLL_MS need not be whole seconds.
unfoldable pub price_max_age_ms : ℕ → ℕ → ℕ
price_max_age_ms poll_ms window = 2 * window * (if ltb poll_ms 60_000 then 60_000 else poll_ms)

-- Thousandths of a second.
unfoldable pub to_ms : ℤ → ℤ
to_ms a = pos (1000 * pos_part a) -ℤ pos (1000 * neg_part a)

unfoldable pub fresh_prices : ℕ → List PriceSample → ℤ → ℕ → List ℕ
fresh_prices poll_ms samples t window =
    map (λ s. s.price)
      (keep_if (λ s. leb_ℤ (to_ms (t -ℤ s.at)) (pos (price_max_age_ms poll_ms window))) samples)
