-- ===== src/Sdk/Tests/Running.antt =====
-- The theorems on the runner of sdk/src/runner.ts at a small cluster.
use collateralized_agents.Base.{
  ◌+ℤ◌, pos, Bool, true, false, ◌≡◌, refl, none, some, [], ◌∷◌, map, arith,
}
use collateralized_agents.Agent.System.{opened, trading}
use collateralized_agents.Sdk.Send.{got}
use collateralized_agents.Sdk.Schedule.{OpenPosition}
use collateralized_agents.Sdk.Runner.State.{
  Book, Stored, AgentAccount, RunnerOptions, Runner, nothing, Outside, local_now, now,
}
use collateralized_agents.Sdk.Runner.Hook.{wait_for}
use collateralized_agents.Sdk.Runner.Tick.{trade}
use collateralized_agents.Sdk.Runner.Loop.{rounds}
use collateralized_agents.Sdk.Runner.Rules.{view}
use collateralized_agents.Sdk.Runner.Waits.{Ended, wait_for-Ended}
use collateralized_agents.Sdk.Runner.Books.{books}
use collateralized_agents.Sdk.Runner.Ticks.{bound_as}
use collateralized_agents.Sdk.Runner.Rounds.{rounds-paper}
use collateralized_agents.Sdk.Runner.History.{noted, confirmed_settles, rounds-history}
use collateralized_agents.Sdk.Runner.Sound.{IsSound}
use collateralized_agents.Sdk.Runner.SoundRounds.{rounds-IsSound}
use collateralized_agents.Sdk.Runner.Sure.{IsGot}
use collateralized_agents.Sdk.Runner.Settles.{IsSettled, trade-settles}

abbrev offer : OpenPosition
offer = record {
  public_key = 7;
  principal = 1_000_000;
  opened_at = pos 900;
  drawn_at = pos 0;
  deadline = pos 9000;
  status = opened;
}

abbrev drawn_offer : OpenPosition
drawn_offer = record offer { status = trading; drawn_at = pos 1000 }

abbrev owner : AgentAccount
owner = record { executor = 1; operator = 2 }

abbrev cluster : Outside
cluster = record {
  took = λ n. 100;
  fired = λ n. nothing;
  chain_time = λ n. got (some (pos 1000));
  agent_account = λ a n. got (some owner);
  position_nullable = λ p n. got (some drawn_offer);
  positions = λ a n. got (offer ∷ []);
  wallet_balance = λ k slot n. got 5_000_000;
  rent_exemption = λ n. got 890_880;
  token_accounts = λ t n. got [];
  draw_funds = λ a p n. got tt;
  settle = λ p amount fee n. got (record { sig = 4; slot = 50 });
  spawn = λ n. some 77;
  own_group = λ pid n. false;
  group_alive = λ pid n. false;
}

abbrev options : Bool → RunnerOptions
options paper = record {
  agent = 3;
  trading_key = 1;
  hook = true;
  hold_secs = 900;
  buffer_secs = 300;
  grace_secs = none;
  paper = paper;
  poll_ms = 15_000;
  priority_micro_lamports = none;
  urgent_priority_micro_lamports = none;
}

abbrev nothing_stored : Stored
nothing_stored = record { active = none; history = []; hook_pgid = none; min_slot = none }

abbrev fresh : Runner
fresh = record {
  state = nothing_stored;
  disk = nothing_stored;
  agent_acc = owner;
  hook = none;
  hook_exited = false;
  stopping = false;
  reserve = none;
  low_balance_notified = false;
  skew = pos 0;
  clock_at = 0;
  clock_failed = false;
  agent_at = 1_000_000;
  unbound = false;
  paper_book = none;
  paper_seen = [];
  clock_ms = 1_000_000;
  calls = 0;
  acts = [];
}

abbrev book : Book
book = record {
  position = 7;
  principal = 1_000_000;
  balance_at_draw = pos 4_900_000;
  drawn_at = pos 50;
  settle_at = pos 950;
  deadline = pos 9000;
}

rounds-paper_example :
    (u : Bool) × (books (view (rounds cluster (options true) 2 fresh).1)
      ≡ bound_as u (books (view fresh)))
rounds-paper_example = rounds-paper cluster (options true) 2 fresh refl refl

rounds-history_example :
    map noted (rounds cluster (options false) 2 fresh).1.state.history
    ≡ confirmed_settles (rounds cluster (options false) 2 fresh).1.acts
rounds-history_example = rounds-history cluster (options false) 2 fresh refl refl

rounds-IsSound_example : IsSound false (view (rounds cluster (options false) 2 fresh).1)
rounds-IsSound_example =
    rounds-IsSound cluster (options false) 2 fresh refl (refl, λ h pid e l. absurd cc, λ e. refl)

wait_for-Ended_example :
    Ended cluster (options false) 77 1_005_000 (wait_for cluster (options false) 5000 77 100 fresh)
wait_for-Ended_example = wait_for-Ended cluster (options false) 5000 77 100 fresh (omega arith)

trade-settles_example :
    IsGot
      (λ u.
        IsSettled cluster
          (options false)
          (λ slot n. (5_000_000, refl))
          (λ n. (890_880, refl))
          (λ p amount fee n. (record { sig = 4; slot = 50 }, refl))
          book)
      (trade cluster (options false) (some book) fresh)
unfolding now local_now ◌+ℤ◌
trade-settles_example =
    trade-settles cluster (options false) (λ slot n. (5_000_000, refl)) (λ n. (890_880, refl))
      (λ p amount fee n. (record { sig = 4; slot = 50 }, refl)) book drawn_offer fresh refl refl
      (omega arith)
