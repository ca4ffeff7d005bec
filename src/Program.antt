-- ===== src/Program.antt =====
-- The interface of the on-chain program, as the site (app/lib/useProtocol.ts) and the SDK (sdk/src/client.ts)
-- call it: the instructions, and the seeds of the derived addresses. Keys, addresses and texts are numbers; a
-- seed that is a text is the list of its character codes.
use collateralized_agents.Base.{
  ℕ, zero, suc, ◌^◌, ◌%◌, ◌/◌, Bool, false, ℤ, pos, negsuc, Option, none, some, List, [], ◌∷◌, ltb,
  if◌then◌else◌,
}

-- A part of a seed: bytes, or the 32 bytes of a key.
pub data Part : Type 0 where
  bytes : List ℕ → Part
  key : ℕ → Part

abbrev pub le_bytes : ℕ → ℕ → List ℕ
le_bytes zero n = []
le_bytes (suc k) n = n % 256 ∷ le_bytes k (n / 256)

-- `n.toArrayLike(Buffer, "le", 8)`, which throws for a number that does not fit.
unfoldable pub to_le : ℕ → Option (List ℕ)
to_le n = if ltb n (2 ^ 64) then some (le_bytes 8 n) else none

-- A JavaScript number: a whole one, one between two whole numbers with the one next to it on the side of 0
-- (for `-0.5` and `0.5` that is 0), or an infinity or NaN.
pub data Number : Type 0 where
  whole : ℤ → Number
  fraction : ℤ → Number
  not_finite : Number

-- `Number.isSafeInteger`
abbrev pub is_safe : ℤ → Bool
is_safe (pos n) = ltb n (2 ^ 53)
is_safe (negsuc n) = ltb (suc n) (2 ^ 53)

abbrev pub is_safe_integer : Number → Bool
is_safe_integer (whole z) = is_safe z
is_safe_integer (fraction z) = false
is_safe_integer not_finite = false

-- `new BN(x)` of a number drops its fraction; it throws from 2^53 on, in size, and when it is not finite.
unfoldable pub new_bn : Number → Option ℤ
new_bn (whole z) = if is_safe z then some z else none
new_bn (fraction z) = if is_safe z then some z else none
new_bn not_finite = none

-- `new BN(n)` of a number that counts.
unfoldable pub new_bn_count : ℕ → Option ℕ
new_bn_count n = if is_safe (pos n) then some n else none

pub record Terms : Type 0 where
  pub collateral_ratio_bps : ℕ
  pub fee_bps : ℕ
  pub max_drawdown_bps : ℕ
  pub min_duration_secs : ℤ
  pub max_duration_secs : ℤ
  pub allowed_assets : List ℕ
  pub rules : ℕ

-- The roles of the accounts of an instruction.
pub data Role : Type 0 where
  operator executor trader agent agent_vault position position_vault system_program : Role

-- The instructions and their arguments.
pub data Method : Type 0 where
  create_agent : ℕ → ℕ → ℕ → Terms → Method
  update_agent : ℕ → ℕ → Terms → Method
  publish_agent : Method
  set_executor : ℕ → Method
  set_accepting : Bool → Method
  deposit_collateral : ℕ → Method
  withdraw_collateral : ℕ → Method
  open_position : ℕ → ℕ → ℤ → Method
  cancel_position : Method
  draw_funds : Method
  settle_position : ℕ → Method
  claim_default : Method

pub record Instruction : Type 0 where
  pub method : Method
  pub accounts : List (Role × ℕ)

-- What the callers read of an agent and of a position.
pub record Agent : Type 0 where
  pub key : ℕ
  pub operator : ℕ

pub record Position : Type 0 where
  pub key : ℕ
  pub trader : ℕ
  pub agent : ℕ

infixl 5 ◌>>=◌
abbrev pub ◌>>=◌ : {A B : Type 0} → Option A → (A → Option B) → Option B
none >>= f = none
some a >>= f = f a
