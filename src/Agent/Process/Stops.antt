-- ===== src/Agent/Process/Stops.antt =====
-- How the process of agent/src/runner.ts ends.
use collateralized_agents.Base.{
  ℕ, ◌≤◌, Bool, true, false, ◌||◌, if◌then◌else◌, ◌≡◌, Option, none, some, List, [], ◌∷◌, All, ◌⊎◌,
}
use collateralized_agents.Agent.Fleet.{Runner, Outcome, tick_all, ran}
use collateralized_agents.Agent.Process.{
  Exit, stopped, by_watchdog, Process, Event, round, timer, idle_secs, act_if, run,
}

-- The state file of a runner holds its state.
abbrev pub IsSaved : Runner → Type 0
IsSaved r = r.core.disk ≡ r.core.state

-- Whether some agent's tick ran.
abbrev pub any_ran : List Outcome → Bool
any_ran [] = false
any_ran (o ∷ os) = o.ran || any_ran os

-- The time of a round in which some agent's tick ran, else `t`.
abbrev pub tick_time : Event → Process → ℕ → ℕ
tick_time (round io price now) p t =
    if any_ran (tick_all io price p.runners p.shared).0 then now else t
tick_time _ p t = t

-- The timer fired when no tick had completed for that long.
abbrev pub Fired : ℕ → ℕ → List Event → Type 0
Fired secs last_ran [] = ⊥
Fired secs last_ran (timer now rs ∷ es) = (secs ≤ idle_secs now last_ran) ⊎ Fired secs last_ran es
Fired secs last_ran (_ ∷ es) = Fired secs last_ran es

-- Why the process has ended.
abbrev pub Ended : ℕ → List Event → Process → Option Exit → Type 0
Ended secs es p none = Unit
Ended secs es p (some stopped) = All IsSaved p.runners × (p.stopping ≡ true)
Ended secs es p (some by_watchdog) = All IsSaved p.runners × Fired secs p.last_ran es

module _ (secs : ℕ) where
  -- The time of the last round, among those that a process goes through, in which some agent's tick ran,
  -- else `t`.
  abbrev pub last_tick : List Event → Process → ℕ → ℕ
  last_tick [] p t = t
  last_tick (e ∷ es) p t =
      last_tick es (act_if secs p.exit e p) (elim p.exit [ none ↦ tick_time e p t | some why ↦ t ])

  abbrev pub IsWatched : List Event → Process → Type 0
  IsWatched es p =
      ((run secs es p).last_ran ≡ last_tick es p p.last_ran)
      × Ended secs es (run secs es p) (run secs es p).exit
