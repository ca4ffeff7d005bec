-- ===== src/Sdk/Schedule/Laws.antt =====
-- Bounds on the times of sdk/src/runner.ts.
use collateralized_agents.Base.{
  ℕ, ℤ, pos, ◌+ℤ◌, ◌-ℤ◌, ◌≤ℤ◌, min_ℤ, max_ℤ, ◌≡◌, ◌⊎◌, inl, inr, sym, subst, Option, some, arith,
  +ℤ_parts, -ℤ_parts, min_ℤ_le_left, min_ℤ_le_right, le-max_ℤ_left, le-max_ℤ_right,
}
use collateralized_agents.Agent.Schedule.{to_ms}
use collateralized_agents.Agent.Schedule.Laws.{max_ℤ-le}
use collateralized_agents.Sdk.Schedule.{
  settle_tx_secs, min_sleep_ms, loop_sleep_ms, or_default, hook_grace_secs, settle_time,
  resume_until,
}

max_ℤ-cases : (a b : ℤ) → (max_ℤ a b ≡ a) ⊎ (max_ℤ a b ≡ b)
unfolding max_ℤ
max_ℤ-cases a b = ground arith

within : (t m e : ℤ) → m ≤ℤ e -ℤ t → t +ℤ m ≤ℤ e
within t m e h = omega (arith, +ℤ_parts t m, -ℤ_parts e t)

-- A hook's grace is never negative and no longer than was asked for, and unless it is nothing it ends
-- early enough before the deadline for the settle transaction.
pub hook_grace_secs_bounds :
    (grace_secs : Option ℕ) (deadline now : ℤ)
    → (pos 0 ≤ℤ hook_grace_secs grace_secs (some deadline) now)
      × (hook_grace_secs grace_secs (some deadline) now ≤ℤ pos (or_default grace_secs))
      × ((hook_grace_secs grace_secs (some deadline) now ≡ pos 0)
          ⊎ (now +ℤ hook_grace_secs grace_secs (some deadline) now
              ≤ℤ deadline -ℤ pos settle_tx_secs))
unfolding hook_grace_secs
hook_grace_secs_bounds grace_secs deadline now =
    let left = deadline -ℤ pos settle_tx_secs -ℤ now in
    let cut = min_ℤ (pos (or_default grace_secs)) left in
    (
      le-max_ℤ_left (pos 0) cut,
      max_ℤ-le (pos 0) cut (pos (or_default grace_secs)) (omega arith)
          (min_ℤ_le_left (pos (or_default grace_secs)) left),
      elim (max_ℤ-cases (pos 0) cut) [
        | inl z ↦ inl z
        | inr c ↦ inr (
            within now (max_ℤ (pos 0) cut) (deadline -ℤ pos settle_tx_secs)
              (subst (λ x. x ≤ℤ left) (sym c) (min_ℤ_le_right (pos (or_default grace_secs)) left)))
      ],
    )

-- The runner never sleeps longer than a poll, and with a position either past its settle time, no
-- longer than the shortest sleep or not beyond the settle time.
pub loop_sleep_ms_bounds :
    (poll_ms : ℕ) (settle_at now : ℤ)
    → (loop_sleep_ms poll_ms (some settle_at) now ≤ℤ pos poll_ms)
      × ((loop_sleep_ms poll_ms (some settle_at) now ≤ℤ pos min_sleep_ms)
          ⊎ (loop_sleep_ms poll_ms (some settle_at) now ≤ℤ to_ms (settle_at -ℤ now)))
unfolding loop_sleep_ms min_ℤ max_ℤ
loop_sleep_ms_bounds poll_ms settle_at now = (ground arith, ground arith)

-- An adopted position settles no sooner than half a minute from now, and before the buffer or at that
-- half minute.
pub resume_until_bounds :
    (buffer_secs hold_secs : ℕ) (drawn_at deadline now : ℤ)
    → (now +ℤ pos 30 ≤ℤ resume_until buffer_secs hold_secs drawn_at deadline now)
      × ((resume_until buffer_secs hold_secs drawn_at deadline now ≡ now +ℤ pos 30)
          ⊎ (resume_until buffer_secs hold_secs drawn_at deadline now
              ≤ℤ deadline -ℤ pos buffer_secs))
unfolding resume_until
resume_until_bounds buffer_secs hold_secs drawn_at deadline now =
    let held = settle_time buffer_secs hold_secs drawn_at deadline in
    let cut = min_ℤ held (deadline -ℤ pos buffer_secs) in
    (
      le-max_ℤ_right cut (now +ℤ pos 30),
      elim (max_ℤ-cases cut (now +ℤ pos 30)) [
        | inl c ↦
            inr (subst (λ x. x ≤ℤ deadline -ℤ pos buffer_secs) (sym c) (min_ℤ_le_right held _))
        | inr z ↦ inl z
      ],
    )
