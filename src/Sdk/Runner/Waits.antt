-- ===== src/Sdk/Runner/Waits.antt =====
-- The loops of `killGroup` of sdk/src/runner.ts, which look at a group until it is gone or time is over.
use native.Mathlib.Nat.{div-add-mod', mod-lt}
use collateralized_agents.Base.{
  ℕ, zero, suc, ◌+◌, ◌*◌, ◌/◌, ◌≤◌, ◌<◌, Bool, true, false, ◌≡◌, refl, ltb, ltb→lt, ltb→le, arith,
  if◌then◌else◌,
}
use collateralized_agents.Sdk.Send.{Answer, got, threw}
use collateralized_agents.Sdk.Runner.State.{
  Runner, RunnerOptions, Outside, Fired, nothing, hook_gone, asked_to_stop,
}
use collateralized_agents.Sdk.Runner.Calls.{
  Doing, give, see, change, ◌>>>◌, stop, on_fired, elapse, sleep, group_alive,
}
use collateralized_agents.Sdk.Runner.Hook.{Wait, gone, over, unfinished, wait_gone, wait_for}

clock-on_fired : (f : Fired) (r : Runner) → (on_fired f r).clock_ms ≡ r.clock_ms
unfolding on_fired stop
clock-on_fired nothing r = refl
clock-on_fired (hook_gone n) r = refl
clock-on_fired asked_to_stop r = refl

pub clock-elapse :
    (outside : Outside) (n : ℕ) (r : Runner)
    → (elapse outside n r).clock_ms ≡ r.clock_ms + (n + outside.took r.calls)
unfolding elapse
clock-elapse outside n r = clock-on_fired (outside.fired r.calls) _

module _ (outside : Outside) (opts : RunnerOptions) where
  -- A look found the group gone, or the clock has reached `until`.
  abbrev pub Ended : ℕ → ℕ → Answer Wait × Runner → Type 0
  Ended pgid until (got gone, r) = (n : ℕ) × (outside.group_alive pgid n ≡ false)
  Ended pgid until (got over, r) = until ≤ r.clock_ms
  Ended pgid until (got unfinished, r) = ⊥
  Ended pgid until (threw e, r) = ⊥

  -- One look: the loop goes on, or it ends.
  look-Ended :
      (pgid until : ℕ) (alive early : Bool) (m : Doing Wait) (r : Runner)
      → (early ≡ true → Ended pgid until (m r))
      → (early ≡ false → until ≤ r.clock_ms)
      → (alive ≡ false → (n : ℕ) × (outside.group_alive pgid n ≡ false))
      → Ended pgid until ((if alive then (if early then m else give over) else give gone) r)
  unfolding give
  look-Ended pgid until true true m r go late dead = go refl
  look-Ended pgid until true false m r go late dead = late refl
  look-Ended pgid until false early m r go late dead = dead refl

  wait_gone-Ended :
      (fuel pgid pause until : ℕ) (r : Runner)
      → 0 < pause
      → until ≤ r.clock_ms + fuel * pause
      → Ended pgid until (wait_gone outside opts (suc fuel) pgid pause until r)
  unfolding wait_gone group_alive see ◌>>>◌ sleep change
  wait_gone-Ended zero pgid pause until r p h =
      look-Ended pgid until (outside.group_alive pgid r.calls) (ltb r.clock_ms until) _ _
        (λ early. absurd (omega (arith, h, ltb→lt r.clock_ms until early)))
        (ltb→le r.clock_ms until) (λ e. (r.calls, e))
  wait_gone-Ended (suc fuel) pgid pause until r p h =
      let r1 = record r { calls = suc r.calls } in
      look-Ended pgid until (outside.group_alive pgid r.calls) (ltb r.clock_ms until) _ _
        (λ early.
          wait_gone-Ended fuel pgid pause until (elapse outside pause r1) p
            (grind (arith, clock-elapse outside pause r1, h)))
        (ltb→le r.clock_ms until) (λ e. (r.calls, e))

  -- A loop of `killGroup` ends of itself, with the fuel it has: a look finds the group gone, or the clock
  -- has gone on by the time it was given. The pause between two looks is not 0.
  pub wait_for-Ended :
      (wait_ms pgid pause : ℕ) (r : Runner)
      → 0 < pause
      → Ended pgid (r.clock_ms + wait_ms) (wait_for outside opts wait_ms pgid pause r)
  unfolding wait_for see ◌>>>◌
  wait_for-Ended wait_ms pgid pause r p =
      wait_gone-Ended (suc (wait_ms / pause)) pgid pause (r.clock_ms + wait_ms) r p
        (grind (arith, div-add-mod' wait_ms pause, mod-lt wait_ms p))
