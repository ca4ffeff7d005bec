-- ===== src/Agent/Config.antt =====
-- agent/src/config.ts: the agents' definitions, the market constants and the numeric environment
-- variables.
use collateralized_agents.Base.{ℕ, ◌*◌, ℤ, pos, ltb_ℤ, ◌||◌, if◌then◌else◌}

pub data Strategy : Type 0 where
  -- least edge and size, in bps
  arbitrage : ℕ → ℕ → Strategy
  -- window, band and size
  momentum : ℕ → ℕ → ℕ → Strategy
  -- size
  rotate : ℕ → Strategy

pub record AgentConfig : Type 0 where
  pub id : ℕ
  pub hold_secs : ℕ
  pub strategy : Strategy

-- The parts of the three configured agents that the runner reads; `id` counts them.
abbrev pub orca_arb : AgentConfig
orca_arb = record { id = 0; hold_secs = 15 * 60; strategy = arbitrage 50 5000 }

abbrev pub orca_momentum : AgentConfig
orca_momentum = record { id = 1; hold_secs = 20 * 60; strategy = momentum 10 30 6000 }

abbrev pub orca_rotator : AgentConfig
orca_rotator = record { id = 2; hold_secs = 10 * 60; strategy = rotate 5000 }

-- The addresses stand as numbers: the mint of devnet USDC and the deepest pool.
abbrev pub usdc_mint : ℕ
usdc_mint = 1

abbrev pub main_pool : ℕ
main_pool = 2

abbrev pub settle_buffer_secs : ℕ
settle_buffer_secs = 10 * 60

abbrev pub alert_window_secs : ℕ
alert_window_secs = 15 * 60

-- `Number(process.env[name]?.trim())`: blank, no whole number, or a whole number.
pub data EnvValue : Type 0 where
  unset : EnvValue
  not_whole : EnvValue
  whole : ℤ → EnvValue

pub data EnvNumber : Type 0 where
  value : ℤ → EnvNumber
  invalid : EnvNumber

unfoldable pub num_env : EnvValue → ℕ → ℕ → ℕ → EnvNumber
num_env unset fallback min max = value (pos fallback)
num_env not_whole fallback min max = invalid
num_env (whole v) fallback min max =
    if ltb_ℤ v (pos min) || ltb_ℤ (pos max) v then invalid else value v
