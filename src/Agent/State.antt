-- ===== src/Agent/State.antt =====
-- agent/src/state.ts: the books, the pending swaps and the state that a runner saves. Amounts of
-- lamports and USDC units are whole numbers, kept as decimal texts in the source; addresses and
-- signatures are numbers here.
use collateralized_agents.Base.{ℕ, ℤ, Bool, Option, List, [], Dict}

pub data Side : Type 0 where
  sol usdc : Side

pub record PendingSwap : Type 0 where
  pub sig : ℕ
  pub last_valid_block_height : ℕ
  pub side : Side
  pub amount_in : ℕ
  pub pool : ℕ
  pub at : ℤ
  pub bump_cycle : Bool

pub record Trade : Type 0 where
  pub at : ℤ
  pub side : Side
  pub amount_in : ℕ
  pub out : ℤ
  pub pool : ℕ
  pub sig : ℕ

pub record Book : Type 0 where
  pub principal : ℕ
  pub sol : ℕ
  pub usdc : ℕ
  pub drawn_at : ℤ
  pub settle_at : ℤ
  pub deadline : ℤ
  pub cycles : ℕ
  pub trades : List Trade
  pub pending : Option PendingSwap

-- A price is a double: its 64 bits, read as a number.
pub record PriceSample : Type 0 where
  pub at : ℤ
  pub price : ℕ

pub record Settled : Type 0 where
  pub position : ℕ
  pub principal : ℕ
  pub returned : ℕ
  pub at : ℤ

pub record AgentState : Type 0 where
  pub books : Dict Book
  pub prices : List PriceSample
  pub history : List Settled

abbrev pub empty : AgentState
empty = record { books = []; prices = []; history = [] }
