-- ===== src/App/Actions.antt =====
-- `useActions` of app/lib/useProtocol.ts: the instruction that each action sends, none when it throws before,
-- with the derived addresses of app/lib/program.ts and the amounts of app/lib/amounts.ts. `find` is
-- `PublicKey.findProgramAddressSync` for the program, and `system` the system program.
pub mod Agree
pub mod Forms
use collateralized_agents.Base.{
  ℕ, Bool, true, false, ◌||◌, not, ℤ, pos, negsuc, Option, none, some, List, [], ◌∷◌, if◌then◌else◌,
}
use collateralized_agents.Program.{
  Part, bytes, key, to_le, Number, whole, fraction, not_finite, is_safe_integer, new_bn, Terms,
  operator, executor, trader, agent, agent_vault, position, position_vault, system_program, Method,
  Instruction, Agent, Position, ◌>>=◌,
}

-- A safe integer that is not negative; any other amount throws.
unfoldable pub u64 : Number → Option ℕ
u64 (whole (pos n)) = if not (is_safe_integer (whole (pos n))) then none else some n
u64 (whole (negsuc n)) = none
u64 (fraction z) = none
u64 not_finite = none

-- `TermsInput`, with mints as texts.
pub record TermsInput : Type 0 where
  pub collateral_ratio_bps : ℕ
  pub fee_bps : ℕ
  pub max_drawdown_bps : ℕ
  pub min_duration_secs : Number
  pub max_duration_secs : Number
  pub allowed_assets : List ℕ
  pub rules : ℕ

-- `mints.map(m => new PublicKey(m))`, where `parse` is the constructor, which may throw.
unfoldable pub parse_mints : (ℕ → Option ℕ) → List ℕ → Option (List ℕ)
parse_mints parse [] = some []
parse_mints parse (m ∷ ms) = parse m >>= λ k. parse_mints parse ms >>= λ ks. some (k ∷ ks)

unfoldable pub to_terms_arg : (ℕ → Option ℕ) → TermsInput → Option Terms
to_terms_arg parse t = new_bn t.min_duration_secs >>= λ shortest.
    new_bn t.max_duration_secs >>= λ longest. parse_mints parse t.allowed_assets >>= λ assets.
    some (record {
      collateral_ratio_bps = t.collateral_ratio_bps;
      fee_bps = t.fee_bps;
      max_drawdown_bps = t.max_drawdown_bps;
      min_duration_secs = shortest;
      max_duration_secs = longest;
      allowed_assets = assets;
      rules = t.rules;
    })

module _ (find : List Part → ℕ) where
  -- The seeds are `agent`, `agent_vault`, `position` and `position_vault`.
  unfoldable pub agent_pda : ℕ → ℕ → Option ℕ
  agent_pda by id = to_le id >>= λ b.
      some (find (bytes (97 ∷ 103 ∷ 101 ∷ 110 ∷ 116 ∷ []) ∷ key by ∷ bytes b ∷ []))

  unfoldable pub agent_vault_pda : ℕ → ℕ
  agent_vault_pda a =
      find (bytes (97 ∷ 103 ∷ 101 ∷ 110 ∷ 116 ∷ 95 ∷ 118 ∷ 97 ∷ 117 ∷ 108 ∷ 116 ∷ []) ∷ key a ∷ [])

  unfoldable pub position_pda : ℕ → ℕ → ℕ → Option ℕ
  position_pda a by nonce = to_le nonce >>= λ b. some (
      find (
        bytes (112 ∷ 111 ∷ 115 ∷ 105 ∷ 116 ∷ 105 ∷ 111 ∷ 110 ∷ []) ∷ key a ∷ key by ∷ bytes b ∷ []))

  unfoldable pub position_vault_pda : ℕ → ℕ
  position_vault_pda p = find (
      bytes (112 ∷ 111 ∷ 115 ∷ 105 ∷ 116 ∷ 105 ∷ 111 ∷ 110 ∷ 95 ∷ 118 ∷ 97 ∷ 117 ∷ 108 ∷ 116 ∷ [])
      ∷ key p
      ∷ [])

module _ (find : List Part → ℕ) (system : ℕ) (parse : ℕ → Option ℕ) (wallet : Option ℕ) where
  -- The trader's actions. `now` is `Date.now()`.
  unfoldable pub open_position : ℕ → Agent → Number → Number → Option Instruction
  open_position now a lamports secs = wallet >>= λ me. position_pda find a.key me now >>= λ p.
      u64 lamports >>= λ n. new_bn secs >>= λ d. some (record {
        method = Method.open_position now n d;
        accounts =
            (trader, me)
            ∷ (agent, a.key)
            ∷ (position, p)
            ∷ (position_vault, position_vault_pda find p)
            ∷ (system_program, system)
            ∷ [];
      })

  unfoldable pub cancel_position : Position → Option Instruction
  cancel_position p = wallet >>= λ me. some (record {
    method = Method.cancel_position;
    accounts =
        (trader, me)
        ∷ (agent, p.agent)
        ∷ (position, p.key)
        ∷ (position_vault, position_vault_pda find p.key)
        ∷ (system_program, system)
        ∷ [];
  })

  unfoldable pub claim_default : Position → Option Instruction
  claim_default p = wallet >>= λ me. some (record {
    method = Method.claim_default;
    accounts =
        (trader, me)
        ∷ (agent, p.agent)
        ∷ (agent_vault, agent_vault_pda find p.agent)
        ∷ (position, p.key)
        ∷ (position_vault, position_vault_pda find p.key)
        ∷ (system_program, system)
        ∷ [];
  })

  -- The operator's actions.
  unfoldable pub create_agent : ℕ → ℕ → ℕ → TermsInput → Option Instruction
  create_agent id name description terms = wallet >>= λ me. agent_pda find me id >>= λ a.
      to_terms_arg parse terms >>= λ t. some (record {
        method = Method.create_agent id name description t;
        accounts =
            (operator, me)
            ∷ (agent, a)
            ∷ (agent_vault, agent_vault_pda find a)
            ∷ (system_program, system)
            ∷ [];
      })

  unfoldable pub update_agent : Agent → ℕ → ℕ → TermsInput → Option Instruction
  update_agent a name description terms = wallet >>= λ me. to_terms_arg parse terms >>= λ t.
      some (record {
        method = Method.update_agent name description t;
        accounts = (operator, me) ∷ (agent, a.key) ∷ [];
      })

  unfoldable pub publish_agent : Agent → Option Instruction
  publish_agent a = wallet >>= λ me.
      some
        (record { method = Method.publish_agent; accounts = (operator, me) ∷ (agent, a.key) ∷ [] })

  unfoldable pub set_executor : Agent → ℕ → Option Instruction
  set_executor a k = wallet >>= λ me.
      some
        (record { method = Method.set_executor k; accounts = (operator, me) ∷ (agent, a.key) ∷ [] })

  unfoldable pub set_accepting : Agent → Bool → Option Instruction
  set_accepting a accepting = wallet >>= λ me. some (record {
    method = Method.set_accepting accepting;
    accounts = (operator, me) ∷ (agent, a.key) ∷ [];
  })

  unfoldable pub deposit_collateral : Agent → Number → Option Instruction
  deposit_collateral a lamports = wallet >>= λ me. u64 lamports >>= λ n. some (record {
    method = Method.deposit_collateral n;
    accounts =
        (operator, me)
        ∷ (agent, a.key)
        ∷ (agent_vault, agent_vault_pda find a.key)
        ∷ (system_program, system)
        ∷ [];
  })

  unfoldable pub withdraw_collateral : Agent → Number → Option Instruction
  withdraw_collateral a lamports = wallet >>= λ me. u64 lamports >>= λ n. some (record {
    method = Method.withdraw_collateral n;
    accounts =
        (operator, me)
        ∷ (agent, a.key)
        ∷ (agent_vault, agent_vault_pda find a.key)
        ∷ (system_program, system)
        ∷ [];
  })

  -- The actions of the trading key.
  unfoldable pub draw_funds : Position → Option Instruction
  draw_funds p = wallet >>= λ me. some (record {
    method = Method.draw_funds;
    accounts =
        (executor, me)
        ∷ (agent, p.agent)
        ∷ (position, p.key)
        ∷ (position_vault, position_vault_pda find p.key)
        ∷ (system_program, system)
        ∷ [];
  })

  unfoldable pub settle_position : Agent → Position → Number → Option Instruction
  settle_position a p returned = wallet >>= λ me. u64 returned >>= λ n. some (record {
    method = Method.settle_position n;
    accounts =
        (executor, me)
        ∷ (operator, a.operator)
        ∷ (agent, p.agent)
        ∷ (agent_vault, agent_vault_pda find p.agent)
        ∷ (position, p.key)
        ∷ (position_vault, position_vault_pda find p.key)
        ∷ (trader, p.trader)
        ∷ (system_program, system)
        ∷ [];
  })
