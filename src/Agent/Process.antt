-- ===== src/Agent/Process.antt =====
-- The process of agent/src/runner.ts after its start: the loop of `main` with its heartbeats, its watchdog and
-- its stop. A round is one turn of the loop; its calls take until it ends, and the watchdog's timer may fire
-- while it hangs. Times are in milliseconds.
pub mod Stops
use collateralized_agents.Base.{
  ℕ, ◌+◌, ◌-◌, ◌*◌, ◌/◌, Bool, true, false, ◌&&◌, Option, none, some, List, [], ◌∷◌, map, ltb,
  if◌then◌else◌,
}
use collateralized_agents.Agent.System.{Core}
use collateralized_agents.Agent.Fleet.{
  Runner, Shared, ScanDeps, Outcome, tick_all, ran, degraded, heartbeat_note,
}

-- A call of `heartbeat` and its time: the agents whose tick ran, and its note. The call sends nothing when
-- the process has no secret.
pub record Beat : Type 0 where
  pub at : ℕ
  pub agents : List ℕ
  pub note : Option (List ℕ)

-- How the process ends: by the end of the loop, or by the watchdog with code 2.
pub data Exit : Type 0 where
  stopped by_watchdog : Exit

pub record Process : Type 0 where
  pub runners : List Runner
  pub shared : Shared
  pub last_ran : ℕ
  pub stopping : Bool
  pub beats : List Beat
  pub exit : Option Exit

-- The end of a round at a time, with the price or none; the watchdog's timer at a time, when the calls of a round
-- that hangs have left the runners as given; SIGINT or SIGTERM; the test of the loop.
pub data Event : Type 0 where
  round : ScanDeps → Option ℕ → ℕ → Event
  timer : ℕ → List Runner → Event
  signal : Event
  test : Event

-- `r.save()`
unfoldable pub saved : Runner → Runner
saved r = record r { core = record r.core { disk = r.core.state } }

-- `if (ran.length)`: only agents whose tick ran are reported.
unfoldable pub report : ℕ → List ℕ → List ℕ → Process → Process
report now [] low p = p
report now (a ∷ as') low p = record p {
  last_ran = now;
  beats = record { at = now; agents = a ∷ as'; note = heartbeat_note low } ∷ p.beats;
}

abbrev pub runner_of : Outcome → Runner
runner_of o = o.runner

unfoldable pub round_end : ℕ → List Outcome × Shared → Process → Process
round_end now x p =
    report now (ran x.0) (degraded x.0) (record p { runners = map runner_of x.0; shared = x.1 })

unfoldable pub leave : Exit → List Runner → Process → Process
leave why rs p = record p { runners = map saved rs; exit = some why }

-- `Math.round((Date.now() - lastRan) / 1000)`
unfoldable pub idle_secs : ℕ → ℕ → ℕ
idle_secs now last_ran = (now - last_ran + 500) / 1000

-- A process that has ended does nothing more.
module _ (watchdog_secs : ℕ) where
  unfoldable pub act : Event → Process → Process
  act (round io price now) p = round_end now (tick_all io price p.runners p.shared) p
  act (timer now rs) p =
      if ltb (idle_secs now p.last_ran) watchdog_secs then p else leave by_watchdog rs p
  act signal p = record p { stopping = true }
  act test p = if p.stopping then leave stopped p.runners p else p

  unfoldable pub act_if : Option Exit → Event → Process → Process
  act_if none e p = act e p
  act_if (some why) e p = p

  unfoldable pub run : List Event → Process → Process
  run [] p = p
  run (e ∷ es) p = run es (act_if p.exit e p)
