-- ===== src/Sdk/Schedule.antt =====
-- The times of sdk/src/runner.ts: settle times, how long to sleep, the grace of a hook, and which
-- position is drawn next. Seconds, and milliseconds where named so.
pub mod Laws
pub mod Oldest
use collateralized_agents.Base.{
  ℕ, suc, ◌+◌, ◌*◌, ℤ, pos, ◌+ℤ◌, ◌-ℤ◌, min_ℤ, max_ℤ, ltb_ℤ, leb_ℤ, Bool, ◌&&◌, Option, none, some,
  List, [], ◌∷◌, if◌then◌else◌,
}
use collateralized_agents.Agent.Schedule.{to_ms}
use collateralized_agents.Agent.System.{PositionStatus, is_opened}

abbrev pub settle_tx_secs : ℕ
settle_tx_secs = 30

abbrev pub urgent_secs : ℕ
urgent_secs = 120

abbrev pub min_sleep_ms : ℕ
min_sleep_ms = 1000

unfoldable pub loop_sleep_ms : ℕ → Option ℤ → ℤ → ℤ
loop_sleep_ms poll_ms none now_secs = pos poll_ms
loop_sleep_ms poll_ms (some settle_at) now_secs =
    min_ℤ (pos poll_ms) (max_ℤ (pos min_sleep_ms) (to_ms (settle_at -ℤ now_secs)))

abbrev pub or_default : Option ℕ → ℕ
or_default none = 60
or_default (some grace) = grace

-- A deadline of `none` is the source's Infinity, for a hook without a position.
unfoldable pub hook_grace_secs : Option ℕ → Option ℤ → ℤ → ℤ
hook_grace_secs grace_secs none now_secs = pos (or_default grace_secs)
hook_grace_secs grace_secs (some deadline) now_secs =
    max_ℤ (pos 0) (min_ℤ (pos (or_default grace_secs)) (deadline -ℤ pos settle_tx_secs -ℤ now_secs))

unfoldable pub settle_time : ℕ → ℕ → ℤ → ℤ → ℤ
settle_time buffer_secs hold_secs drawn_at deadline =
    min_ℤ (deadline -ℤ pos buffer_secs) (drawn_at +ℤ pos hold_secs)

-- The settle time of a position that `tick` adopts at `now`.
unfoldable pub resume_until : ℕ → ℕ → ℤ → ℤ → ℤ → ℤ
resume_until buffer_secs hold_secs drawn_at deadline now =
    max_ℤ
      (min_ℤ (settle_time buffer_secs hold_secs drawn_at deadline) (deadline -ℤ pos buffer_secs))
      (now +ℤ pos 30)

-- The price a settle pays per unit, in micro-lamports.
unfoldable pub priority_fee : ℕ → ℕ → ℤ → ℤ → ℕ
priority_fee urgent normal deadline now =
    if leb_ℤ (deadline -ℤ now) (pos urgent_secs) then urgent else normal

pub record OpenPosition : Type 0 where
  pub public_key : ℕ
  pub principal : ℕ
  pub opened_at : ℤ
  pub drawn_at : ℤ
  pub deadline : ℤ
  pub status : PositionStatus

-- Enough time left to trade and settle.
unfoldable pub has_time : ℕ → ℤ → OpenPosition → Bool
has_time buffer_secs now p = ltb_ℤ (pos (buffer_secs + 120)) (p.deadline -ℤ now)

-- The filter reads the clock for each open position, `now n` for the n-th.
unfoldable pub drawable : ℕ → (ℕ → ℤ) → ℕ → List OpenPosition → List OpenPosition
drawable buffer_secs now n [] = []
drawable buffer_secs now n (p ∷ ps) =
    let rest_open = drawable buffer_secs now (suc n) ps in
    let rest = drawable buffer_secs now n ps in
    if is_opened p.status
    then (if has_time buffer_secs (now n) p then p ∷ rest_open else rest_open)
    else rest

-- `sort` is stable: a position goes before those opened later only.
unfoldable pub put : OpenPosition → List OpenPosition → List OpenPosition
put p [] = p ∷ []
put p (q ∷ qs) = if leb_ℤ p.opened_at q.opened_at then p ∷ q ∷ qs else q ∷ put p qs

unfoldable pub sort : List OpenPosition → List OpenPosition
sort [] = []
sort (p ∷ ps) = put p (sort ps)

abbrev pub first : List OpenPosition → Option OpenPosition
first [] = none
first (p ∷ ps) = some p

unfoldable pub next_to_draw : ℕ → (ℕ → ℤ) → List OpenPosition → Option OpenPosition
next_to_draw buffer_secs now ps = first (sort (drawable buffer_secs now 0 ps))
