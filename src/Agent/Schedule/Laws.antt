-- ===== src/Agent/Schedule/Laws.antt =====
-- The schedule of a book (agent/src/agent.ts, lines 50 to 96): when it settles, the last call, the
-- alerts, and what a settle may return.
use Prim.Native.Nat.{min}
use collateralized_agents.Base.{
  ◌-◌, ℕ, ◌+◌, ◌≤◌, ◌≡◌, ◌⊎◌, ◌↔◌, ℤ, pos, ◌+ℤ◌, ◌-ℤ◌, ◌≤ℤ◌, min_ℤ, max_ℤ, Bool, true, false, arith,
  +ℤ_parts, -ℤ_parts, min_ℤ_le_left, min_ℤ_le_right, le-max_ℤ_left, le-max_ℤ_right,
}
use collateralized_agents.Agent.Config.{settle_buffer_secs, alert_window_secs}
use collateralized_agents.Agent.State.{Book}
use collateralized_agents.Agent.Schedule.{
  settle_time, due_to_settle, too_late_to_draw, adopted_settle_at, past_last_call, has_pending,
  should_alert, settle_reserve_lamports, settle_amount,
}

-- A new book settles no later than its hold time asks for, and never inside the settle buffer.
settle_time-le :
    (drawn_at deadline : ℤ) (hold_secs : ℕ)
    → (settle_time drawn_at deadline hold_secs ≤ℤ deadline -ℤ pos settle_buffer_secs)
      × (settle_time drawn_at deadline hold_secs ≤ℤ drawn_at +ℤ pos hold_secs)
unfolding settle_time
settle_time-le drawn_at deadline hold_secs = (min_ℤ_le_left _ _, min_ℤ_le_right _ _)

min_ℤ-cases : (a b : ℤ) → (min_ℤ a b ≡ a) ⊎ (min_ℤ a b ≡ b)
unfolding min_ℤ
min_ℤ-cases a b = ground arith

le-min_ℤ : (a b c : ℤ) → c ≤ℤ a → c ≤ℤ b → c ≤ℤ min_ℤ a b
unfolding min_ℤ
le-min_ℤ a b c h k = ground arith

-- Whoever draws in time, with at least two minutes to hold, has two minutes to trade before the
-- book's settle time.
pub draw_leaves_time :
    (t deadline : ℤ) (hold_secs : ℕ)
    → too_late_to_draw t deadline ≡ false
    → 120 ≤ hold_secs
    → t +ℤ pos 120 ≤ℤ settle_time t deadline hold_secs
unfolding settle_time too_late_to_draw
draw_leaves_time t deadline hold_secs early long =
    le-min_ℤ _ _ _
      (ground (
        arith,
        +ℤ_parts t (pos 120),
        -ℤ_parts deadline (pos 600),
        -ℤ_parts (deadline -ℤ pos 600) (pos 120),
      ))
      (omega (arith, +ℤ_parts t (pos 120), +ℤ_parts t (pos hold_secs)))

-- From the last call on, a book is due, so the settle pass has already taken it up.
pub due_at_last_call :
    (book : Book) (t : ℤ) → past_last_call t book.deadline ≡ true → due_to_settle book t ≡ true
unfolding past_last_call due_to_settle
due_at_last_call book t h =
    ground (arith, -ℤ_parts book.deadline (pos 120), -ℤ_parts book.deadline (pos 600))

-- A due book stays due.
due_to_settle_mono :
    (book : Book) (t u : ℤ) → t ≤ℤ u → due_to_settle book t ≡ true → due_to_settle book u ≡ true
unfolding due_to_settle
due_to_settle_mono book t u h d = ground arith

pub max_ℤ-le : (a b c : ℤ) → a ≤ℤ c → b ≤ℤ c → max_ℤ a b ≤ℤ c
unfolding max_ℤ
max_ℤ-le a b c h k = ground arith

-- An adopted position whose clock readings leave a minute before the settle buffer settles at or
-- after the first reading, at least a minute after the second, and no later than the start of the
-- buffer.
adopted_settle_at_bounds :
    (t t' drawn_at deadline : ℤ) (hold_secs : ℕ)
    → t ≤ℤ deadline -ℤ pos settle_buffer_secs
    → t' +ℤ pos 60 ≤ℤ deadline -ℤ pos settle_buffer_secs
    → (t ≤ℤ adopted_settle_at t t' drawn_at deadline hold_secs)
      × (t' +ℤ pos 60 ≤ℤ adopted_settle_at t t' drawn_at deadline hold_secs)
      × (adopted_settle_at t t' drawn_at deadline hold_secs ≤ℤ deadline -ℤ pos settle_buffer_secs)
unfolding adopted_settle_at
adopted_settle_at_bounds t t' drawn_at deadline hold_secs h k =
    let buffer = deadline -ℤ pos settle_buffer_secs in
    let soon = max_ℤ (settle_time drawn_at deadline hold_secs) (t' +ℤ pos 60) in
    (
      le-max_ℤ_left t (min_ℤ soon buffer),
      omega (
        arith,
        le-max_ℤ_right t (min_ℤ soon buffer),
        le-min_ℤ soon buffer (t' +ℤ pos 60),
        le-max_ℤ_right (settle_time drawn_at deadline hold_secs) (t' +ℤ pos 60),
      ),
      max_ℤ-le t (min_ℤ soon buffer) buffer h (min_ℤ_le_right soon buffer),
    )

-- Exactly which books get an alert: those within the window of their deadline that are due, have a
-- swap pending, or whose tick did not run.
pub should_alert_iff :
    (book : Book) (t : ℤ) (tick_ran : Bool)
    → (should_alert book t tick_ran ≡ true) ↔ (
        (book.deadline -ℤ t ≤ℤ pos alert_window_secs)
        × ((tick_ran ≡ false) ⊎ ((due_to_settle book t ≡ true) ⊎ (has_pending book ≡ true))))
unfolding should_alert
should_alert_iff book t tick_ran = ground arith

-- What a settle returns is the smaller of the debt and of what the wallet holds above the reserve,
-- so it never exceeds the debt, and it is nothing or it leaves the reserve in the wallet.
pub settle_amount_best :
    (owed wallet : ℕ)
    → (settle_amount owed wallet ≡ min owed (wallet - settle_reserve_lamports))
      × (settle_amount owed wallet ≤ owed)
      × ((settle_amount owed wallet ≡ 0)
          ⊎ (settle_amount owed wallet + settle_reserve_lamports ≤ wallet))
unfolding settle_amount
settle_amount_best owed wallet = (ground arith, ground arith, ground arith)

-- The whole debt is returned exactly when it is zero or the wallet covers it and the reserve.
settle_amount_full :
    (owed wallet : ℕ)
    → (settle_amount owed wallet ≡ owed) ↔ ((owed ≡ 0) ⊎ (owed + settle_reserve_lamports ≤ wallet))
unfolding settle_amount
settle_amount_full owed wallet = ground arith
