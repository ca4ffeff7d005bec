-- ===== src/Sdk/Runner/Quiet.antt =====
-- Which calls of the `Runner` of sdk/src/runner.ts only look: the clock, the agent, the wallet, and the
-- wait for a hook's group.
use collateralized_agents.Base.{
  ℕ, zero, suc, ◌*◌, ℤ, Bool, true, false, ◌≡◌, refl, Option, none, some,
}
use collateralized_agents.Sdk.Send.{Answer, got, threw, rpc_failed}
use collateralized_agents.Sdk.Runner.State.{
  Runner, RunnerOptions, Outside, sigkill, sigterm, warning,
}
use collateralized_agents.Sdk.Runner.Calls.{ask}
use collateralized_agents.Sdk.Runner.Watch.{
  got_time, or_failed, refresh_clock, balance, tell_binding,
}
use collateralized_agents.Sdk.Runner.Hook.{wait_gone, wait_for, kill_hard, term_group, kill_group}
use collateralized_agents.Sdk.Runner.Tick.{stray_tokens, warn_stray}
use collateralized_agents.Sdk.Runner.Rules.{
  Reads, Quiet, Holds, then-Quiet, give-Quiet, stop_with-Quiet, see-Quiet, ask-Quiet, if-Quiet,
  attempt-Quiet, change-Quiet, notify-Quiet, signalled-Quiet, sleep-Quiet, group_alive-Quiet,
  bind-Reads,
}

got_time-Quiet : (t : Option ℤ) → Quiet (got_time t)
unfolding got_time
got_time-Quiet none = stop_with-Quiet rpc_failed
got_time-Quiet (some t) = change-Quiet _ (λ r. refl)

or_failed-Quiet : (o : Option (Unit {0})) → Quiet (or_failed o)
unfolding or_failed
or_failed-Quiet (some u) = give-Quiet tt
or_failed-Quiet none = change-Quiet _ (λ r. refl)

pub tell_binding-Quiet : (b : Bool) (r : Runner) → Quiet (tell_binding b r)
unfolding tell_binding
tell_binding-Quiet true r = if-Quiet _ _ _ (notify-Quiet _) (give-Quiet tt)
tell_binding-Quiet false r = if-Quiet _ _ _ (notify-Quiet _) (give-Quiet tt)

module _ (outside : Outside) (opts : RunnerOptions) where
  pub refresh_clock-Quiet : Quiet (refresh_clock outside opts)
  unfolding refresh_clock
  refresh_clock-Quiet = then-Quiet _ _ (see-Quiet _) (λ fresh. if-Quiet fresh _ _ (give-Quiet tt) (
      then-Quiet _ _ (attempt-Quiet _ (then-Quiet _ _ (ask-Quiet outside _) got_time-Quiet))
        or_failed-Quiet))

  -- A balance that the chain told of the trading wallet.
  abbrev pub WasTold : ℕ → Type 0
  WasTold held =
      (slot : Option ℕ) × (n : ℕ) × (outside.wallet_balance opts.trading_key slot n ≡ got held)

  pub balance-Reads : Reads WasTold (balance outside opts)
  unfolding balance ask
  balance-Reads =
      bind-Reads (λ s. Unit) WasTold _ _ (see-Quiet _)
        (λ slot u. record {
          kept = (ask-Quiet outside (outside.wallet_balance opts.trading_key slot)).kept;
          answers =
              λ r. told slot (outside.wallet_balance opts.trading_key slot r.calls) r.calls refl;
        })
    where
      told :
          (slot : Option ℕ) (x : Answer ℕ) (n : ℕ)
          → outside.wallet_balance opts.trading_key slot n ≡ x
          → Holds WasTold x
      told slot (got held) n e = (slot, n, e)
      told slot (threw x) n e = tt

  pub stray_tokens-Quiet : Quiet (stray_tokens outside opts)
  unfolding stray_tokens
  stray_tokens-Quiet =
      then-Quiet _ _ (ask-Quiet outside _)
        (λ xs. then-Quiet _ _ (ask-Quiet outside _) (λ ys. give-Quiet _))

  pub warn_stray-Quiet : (o : Option ℕ) → Quiet (warn_stray outside opts o)
  unfolding warn_stray
  warn_stray-Quiet none = notify-Quiet warning
  warn_stray-Quiet (some n) = if-Quiet _ _ _ (give-Quiet tt) (notify-Quiet warning)

  wait_gone-Quiet :
      (fuel pgid pause until : ℕ) → Quiet (wait_gone outside opts fuel pgid pause until)
  unfolding wait_gone
  wait_gone-Quiet zero pgid pause until = give-Quiet _
  wait_gone-Quiet (suc fuel) pgid pause until =
      then-Quiet _ _ (group_alive-Quiet outside pgid) (λ alive.
        then-Quiet _ _ (see-Quiet _) (λ early.
          if-Quiet alive _ _
            (if-Quiet early _ _
              (then-Quiet _ _ (sleep-Quiet outside pause)
                (λ u. wait_gone-Quiet fuel pgid pause until))
              (give-Quiet _))
            (give-Quiet _)))

  wait_for-Quiet : (wait_ms pgid pause : ℕ) → Quiet (wait_for outside opts wait_ms pgid pause)
  unfolding wait_for
  wait_for-Quiet wait_ms pgid pause =
      then-Quiet _ _ (see-Quiet _) (λ until. wait_gone-Quiet _ pgid pause until)

  kill_hard-Quiet : (pgid : ℕ) (alive : Bool) → Quiet (kill_hard outside opts pgid alive)
  unfolding kill_hard
  kill_hard-Quiet pgid false = give-Quiet true
  kill_hard-Quiet pgid true =
      then-Quiet _ _
        (then-Quiet _ _ (signalled-Quiet pgid sigkill) (λ u. wait_for-Quiet 5000 pgid 100))
        (λ w. then-Quiet _ _ (group_alive-Quiet outside pgid) (λ alive. give-Quiet _))

  pub kill_group-Quiet :
      (pgid : ℕ) (deadline : Option ℤ) → Quiet (kill_group outside opts pgid deadline)
  unfolding kill_group term_group
  kill_group-Quiet pgid deadline = then-Quiet _ _ (group_alive-Quiet outside pgid) (λ alive.
      if-Quiet alive _ _
        (then-Quiet _ _ (see-Quiet _) (λ grace.
          then-Quiet _ _
            (then-Quiet _ _ (signalled-Quiet pgid sigterm)
              (λ u. wait_for-Quiet (grace * 1000) pgid 250))
            (λ w. then-Quiet _ _ (group_alive-Quiet outside pgid) (kill_hard-Quiet pgid))))
        (give-Quiet true))
