-- ===== src/App/Tests/Acting.antt =====
-- The theorems on the actions and the results that app/lib shows, at concrete inputs.
use collateralized_agents.Base.{ℕ, ◌+◌, ◌≡◌, refl, pos, some, List, [], ◌∷◌, lookup, keep_if}
use collateralized_agents.Program.{Part, bytes, key, whole, Terms, Agent}
use collateralized_agents.Program
use collateralized_agents.App.Actions
use collateralized_agents.App.Actions.{TermsInput, to_terms_arg}
use collateralized_agents.App.Actions.Forms
use collateralized_agents.App.Actions.Forms.{to_terms_arg-terms_to_input}
use collateralized_agents.App.Stats.{
  Position, settled, opened, stats_of, IsTotal, no_stats, or_new, counts, stats_of-IsTotal,
}

-- An address that depends on the first key of its seeds.
abbrev find : List Part → ℕ
find (name ∷ key k ∷ parts) = k + 100
find parts = 0

abbrev an_agent : Agent
an_agent = record { key = 5; operator = 1 }

abbrev its_position : Program.Position
its_position = record { key = 9; trader = 2; agent = 5 }

abbrev terms : Terms
terms = record {
  collateral_ratio_bps = 3000;
  fee_bps = 1000;
  max_drawdown_bps = 1500;
  min_duration_secs = pos 3600;
  max_duration_secs = pos 604_800;
  allowed_assets = 4 ∷ [];
  rules = 0;
}

abbrev input : TermsInput
input = record {
  collateral_ratio_bps = 3000;
  fee_bps = 1000;
  max_drawdown_bps = 1500;
  min_duration_secs = whole (pos 3600);
  max_duration_secs = whole (pos 604_800);
  allowed_assets = 4 ∷ [];
  rules = 0;
}

to_terms_arg-terms_to_input_example : to_terms_arg some input ≡ some terms
unfolding Forms.terms_to_input Forms.to_number
to_terms_arg-terms_to_input_example =
    to_terms_arg-terms_to_input some (λ k. k) terms input (λ k. refl) refl

-- Two closed positions of agent 1, an open one, and one of agent 2.
abbrev positions : List Position
positions =
    record {
      agent = 1;
      status = settled;
      principal = 100;
      returned = 120;
      fee_paid = 2;
      slashed = 0;
    }
    ∷ record { agent = 1; status = opened; principal = 70; returned = 0; fee_paid = 0; slashed = 0 }
    ∷ record {
      agent = 2;
      status = settled;
      principal = 50;
      returned = 60;
      fee_paid = 1;
      slashed = 0;
    }
    ∷ record {
      agent = 1;
      status = settled;
      principal = 100;
      returned = 60;
      fee_paid = 0;
      slashed = 15;
    }
    ∷ []

stats_of-IsTotal_example :
    IsTotal no_stats (or_new (lookup 1 (stats_of positions))) (keep_if (counts 1) positions)
stats_of-IsTotal_example = stats_of-IsTotal 1 positions
