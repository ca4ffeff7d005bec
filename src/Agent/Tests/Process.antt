-- ===== src/Agent/Tests/Process.antt =====
-- The theorems on `tickAll`, the state file and the lock of agent/src at concrete inputs.
use collateralized_agents.Base.{
  ℕ, zero, suc, pos, true, false, ◌≡◌, refl, Option, none, some, List, [], ◌∷◌, Each, ltb,
  if◌then◌else◌,
}
use collateralized_agents.Agent.Config.{orca_rotator}
use collateralized_agents.Agent.System.{network, ok, err}
use collateralized_agents.Agent.Fleet.{Runner, ScanDeps, tick_all}
use collateralized_agents.Agent.Fleet.Steps.{Stepped, tick_all-Stepped}
use collateralized_agents.Base.{All, Dict, ◌≤ℤ◌}
use collateralized_agents.Agent.State.{Book}
use collateralized_agents.Agent.Backup.{Recent, unknown, since}
use collateralized_agents.Agent.Backup.Unknown.{IsReported, unknown-IsReported}
use collateralized_agents.Agent.Files.{
  Folder, write_steps, write_until, write_atomic, load_state_from,
}
use collateralized_agents.Agent.Files.Crash.{restart, loaded, crash_lem, damaged_lem}
use collateralized_agents.Agent.Lock.{
  LockInfo, other_host, rebooted, stale_reason, line, content_reason, run, both_start, holders,
}
use collateralized_agents.Agent.Lock.Exclusion.{
  start_race, race, run-holders, start_race-holders, race-holders,
}
use collateralized_agents.Agent.Process
use collateralized_agents.Agent.Process.{round, timer, signal, test}
use collateralized_agents.Agent.Tests.{cluster, start, open_position, swapping, rotator-IsSized}

abbrev runner : Runner
runner = record { env = cluster (pos 1000); cfg = orca_rotator; agent = 1; core = start.core }

-- The scan of the second agent fails.
abbrev scan_deps : ScanDeps
scan_deps = record {
  positions_for_agent = λ agent n. if ltb agent 2 then ok (open_position ∷ []) else err network;
  positions_by_key = λ ks n. ok [];
}

abbrev two_runners : List Runner
two_runners = runner ∷ record runner { agent = 2 } ∷ []

tick_all-Stepped_example :
    Each
      (Stepped scan_deps)
      two_runners
      (tick_all scan_deps (some 100) two_runners (record { pool_cache = none; calls = 0 })).0
tick_all-Stepped_example =
    tick_all-Stepped scan_deps (some 100) two_runners (record { pool_cache = none; calls = 0 })
      (rotator-IsSized, (rotator-IsSized, tt))

-- A text parses when it is not zero, to the number before it.
abbrev parsed : ℕ → Option ℕ
parsed zero = none
parsed (suc n) = some n

abbrev folder : Folder ℕ
folder = record { file = some 5; backup = none; temporary = none; aside = [] }

crash_lem_example :
    restart parsed 0 (write_until 0 6 3 write_steps folder)
    ≡ (if ltb 3 5 then loaded parsed 0 false 4 else loaded parsed 0 false 5)
crash_lem_example = crash_lem parsed 0 0 6 5 4 5 folder refl refl refl 3

abbrev damaged : Folder ℕ
damaged = record (write_atomic 0 6 folder) { file = some 0 }

damaged_lem_example :
    (restart parsed 0 damaged ≡ loaded parsed 0 true 4)
    × ((load_state_from parsed 0 damaged.file damaged).1.aside ≡ 0 ∷ [])
damaged_lem_example = damaged_lem parsed 0 0 6 5 4 5 folder refl refl refl 0 damaged refl refl

abbrev info : ℕ → ℕ → LockInfo
info pid host = record { pid = pid; host = host; boot_id = some 1; started_at = pid }

run-holders_example :
    holders (
      run
        (info 7 1)
        (info 8 1)
        (λ p. true)
        (true ∷ true ∷ false ∷ false ∷ true ∷ [])
        (both_start none))
    ≡ 1
unfolding stale_reason rebooted
run-holders_example =
    run-holders (info 7 1) (info 8 1) (λ p. true) refl refl true (false ∷ false ∷ true ∷ [])

start_race-holders_example :
    holders (run (info 7 1) (info 8 1) (λ p. true) start_race (both_start none)) ≡ 2
start_race-holders_example = start_race-holders (info 7 1) (info 8 1) (λ p. true)

race-holders_example :
    holders (run (info 7 1) (info 8 1) (λ p. true) race (both_start (some (line (info 5 2))))) ≡ 2
unfolding content_reason stale_reason
race-holders_example =
    race-holders (info 7 1) (info 8 1) (λ p. true) (line (info 5 2)) other_host other_host refl refl

abbrev recent_signatures : List Recent
recent_signatures =
    record { signature = 9; failed = false; block_time = some (pos 1060) }
    ∷ record { signature = 8; failed = false; block_time = some (pos 1100) }
    ∷ []

abbrev open_books : Dict Book
open_books = (11, swapping) ∷ []

unknown-IsReported_example :
    All (IsReported open_books swapping) (unknown open_books recent_signatures swapping)
    × ((swapping.drawn_at ≤ℤ since swapping) × All (λ x. x.at ≤ℤ since swapping) swapping.trades)
unknown-IsReported_example = unknown-IsReported open_books recent_signatures swapping

abbrev running : Process.Process
running = record {
  runners = two_runners;
  shared = record { pool_cache = none; calls = 0 };
  last_ran = 1_000_000;
  stopping = false;
  beats = [];
  exit = none;
}

-- One round, a timer in time, and one when the next round has hung for ten minutes.
abbrev hanging : List Process.Event
hanging =
    round scan_deps (some 100) 1_016_000
    ∷ test
    ∷ timer 1_030_000 two_runners
    ∷ timer 1_630_000 two_runners
    ∷ signal
    ∷ []
