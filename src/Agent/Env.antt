-- ===== src/Agent/Env.antt =====
-- What the agent runner calls and does not implement: the clock, the RPC nodes, the Orca library
-- and the program's instructions. Each call takes the number of calls made before it, so that an
-- environment may answer differently every time.
use collateralized_agents.Base.{ℕ, ℤ, Bool, Option, List}
use collateralized_agents.Agent.Strategies.{Doubles}
use collateralized_agents.Agent.State.{Side}
use collateralized_agents.Agent.System.{Result}

-- The primary RPC, or RPC_URL_FALLBACK.
pub data Rpc : Type 0 where
  primary fallback : Rpc

-- A whirlpool account as `fetchAllMaybeWhirlpool` decodes it.
pub record PoolAccount : Type 0 where
  pub address : ℕ
  pub is_there : Bool
  pub liquidity : ℕ
  pub sol_is_a : Bool
  pub raw_price : ℕ

-- The quote in the instructions of `swapInstructions`.
pub record Built : Type 0 where
  pub token_est_out : ℕ
  pub token_min_out : ℕ

pub record Blockhash : Type 0 where
  pub signature : ℕ
  pub last_valid_block_height : ℕ

pub record TokenBalance : Type 0 where
  pub owner : Option ℕ
  pub mint : ℕ
  pub amount : ℕ

-- A landed transaction: its fee, the payer's balances, the token balances, and whether it failed.
pub record Meta : Type 0 where
  pub fee : ℕ
  pub pre_balance : ℕ
  pub post_balance : ℕ
  pub pre_token_balances : List TokenBalance
  pub post_token_balances : List TokenBalance
  pub failed : Bool

-- `confirmationStatus`: `confirmed` stands for "confirmed" and "finalized".
pub record SignatureStatus : Type 0 where
  pub confirmed : Bool
  pub failed : Bool

pub record Env : Type 0 where
  pub doubles : Doubles
  -- POLL_MS, SLIPPAGE_BPS, the trading key, and whether RPC_URL_FALLBACK is set
  pub poll_ms : ℕ
  pub slippage_bps : ℕ
  pub wallet : ℕ
  pub has_fallback : Bool
  -- `now()` of agent.ts, on the cluster's clock, and `Date.now()`
  pub now : ℕ → ℤ
  pub local_ms : ℕ → ℕ
  pub fetch_pools : ℕ → Result (List PoolAccount)
  pub swap_instructions : ℕ → Side → ℕ → ℕ → ℕ → Result Built
  -- `getLatestBlockhash`, with the signature of the transaction that is signed on it
  pub latest_blockhash : ℕ → Result Blockhash
  pub send_raw_transaction : ℕ → ℕ → Result (Unit {0})
  -- `value.err` is null
  pub confirm_transaction : ℕ → ℕ → Result Bool
  pub get_transaction : ℕ → Rpc → ℕ → Result (Option Meta)
  pub signature_status : ℕ → Rpc → ℕ → Result (Option SignatureStatus)
  pub block_height : Rpc → ℕ → Result ℕ
  pub balance : Rpc → ℕ → Result ℕ
  pub draw_funds : ℕ → ℕ → Result (Unit {0})
  pub settle_position : ℕ → ℕ → Rpc → ℕ → Result (Unit {0})
