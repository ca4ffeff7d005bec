-- ===== src/Sdk/Client.antt =====
-- `PoaClient` of sdk/src/client.ts: the instruction that each method sends, none when it throws before, with the
-- derived addresses and the amounts. `find` is `PublicKey.findProgramAddressSync` for the program, `system` the
-- system program, and `me` the signer.
use collateralized_agents.Base.{
  ℕ, Bool, not, ℤ, pos, negsuc, Option, none, some, List, [], ◌∷◌, if◌then◌else◌,
}
use collateralized_agents.Program.{
  Part, bytes, key, to_le, Number, whole, fraction, not_finite, is_safe_integer, new_bn_count,
  Terms, operator, executor, trader, agent, agent_vault, position, position_vault, system_program,
  Role, Method, Instruction, Agent, Position, ◌>>=◌,
}

pub data Amount : Type 0 where
  number : Number → Amount
  bigint : ℤ → Amount
  bn : ℤ → Amount

-- `x < 0` is an error; `new BN(x.toString())`.
unfoldable pub not_negative : ℤ → Option ℕ
not_negative (pos n) = some n
not_negative (negsuc n) = none

unfoldable pub to_bn : Amount → Option ℕ
to_bn (bn z) = not_negative z
to_bn (bigint z) = not_negative z
to_bn (number (whole z)) = if not (is_safe_integer (whole z)) then none else not_negative z
to_bn (number (fraction z)) = none
to_bn (number not_finite) = none

module _ (find : List Part → ℕ) where
  -- The seeds are `agent`, `agent_vault`, `position` and `position_vault`.
  unfoldable pub agent_pda : ℕ → ℕ → Option ℕ
  agent_pda by id = new_bn_count id >>= λ n.
      to_le n >>= λ b. some (find (bytes (97 ∷ 103 ∷ 101 ∷ 110 ∷ 116 ∷ []) ∷ key by ∷ bytes b ∷ []))

  unfoldable pub agent_vault_pda : ℕ → ℕ
  agent_vault_pda a =
      find (bytes (97 ∷ 103 ∷ 101 ∷ 110 ∷ 116 ∷ 95 ∷ 118 ∷ 97 ∷ 117 ∷ 108 ∷ 116 ∷ []) ∷ key a ∷ [])

  unfoldable pub position_vault_pda : ℕ → ℕ
  position_vault_pda p = find (
      bytes (112 ∷ 111 ∷ 115 ∷ 105 ∷ 116 ∷ 105 ∷ 111 ∷ 110 ∷ 95 ∷ 118 ∷ 97 ∷ 117 ∷ 108 ∷ 116 ∷ [])
      ∷ key p
      ∷ [])

  unfoldable pub position_pda : ℕ → ℕ → ℕ → Option ℕ
  position_pda a by nonce = to_le nonce >>= λ b. some (
      find (
        bytes (112 ∷ 111 ∷ 115 ∷ 105 ∷ 116 ∷ 105 ∷ 111 ∷ 110 ∷ []) ∷ key a ∷ key by ∷ bytes b ∷ []))

module _ (find : List Part → ℕ) (system : ℕ) (me : ℕ) where
  unfoldable pub create_agent : ℕ → ℕ → ℕ → Terms → Option Instruction
  create_agent id name description terms = agent_pda find me id >>= λ a. new_bn_count id >>= λ n.
      some (record {
        method = Method.create_agent n name description terms;
        accounts =
            (operator, me)
            ∷ (agent, a)
            ∷ (agent_vault, agent_vault_pda find a)
            ∷ (system_program, system)
            ∷ [];
      })

  -- The accounts of a deposit and of a withdrawal.
  abbrev pub vault_accounts : ℕ → List (Role × ℕ)
  vault_accounts a =
      (operator, me)
      ∷ (agent, a)
      ∷ (agent_vault, agent_vault_pda find a)
      ∷ (system_program, system)
      ∷ []

  unfoldable pub deposit_collateral : ℕ → Amount → Option Instruction
  deposit_collateral a lamports = to_bn lamports >>= λ n.
      some (record { method = Method.deposit_collateral n; accounts = vault_accounts a })

  unfoldable pub withdraw_collateral : ℕ → Amount → Option Instruction
  withdraw_collateral a lamports = to_bn lamports >>= λ n.
      some (record { method = Method.withdraw_collateral n; accounts = vault_accounts a })

  unfoldable pub set_executor : ℕ → ℕ → Option Instruction
  set_executor a k =
      some (record { method = Method.set_executor k; accounts = (operator, me) ∷ (agent, a) ∷ [] })

  unfoldable pub publish_agent : ℕ → Option Instruction
  publish_agent a =
      some (record { method = Method.publish_agent; accounts = (operator, me) ∷ (agent, a) ∷ [] })

  unfoldable pub set_accepting : ℕ → Bool → Option Instruction
  set_accepting a accepting = some (record {
    method = Method.set_accepting accepting;
    accounts = (operator, me) ∷ (agent, a) ∷ [];
  })

  unfoldable pub draw_funds : ℕ → ℕ → Option Instruction
  draw_funds a p = some (record {
    method = Method.draw_funds;
    accounts =
        (executor, me)
        ∷ (agent, a)
        ∷ (position, p)
        ∷ (position_vault, position_vault_pda find p)
        ∷ (system_program, system)
        ∷ [];
  })

  -- `settleMethod`, which `settlePosition` and `settle` send.
  unfoldable pub settle_method : Agent → Position → Amount → Option Instruction
  settle_method a p returned = to_bn returned >>= λ n. some (record {
    method = Method.settle_position n;
    accounts =
        (executor, me)
        ∷ (operator, a.operator)
        ∷ (agent, a.key)
        ∷ (agent_vault, agent_vault_pda find a.key)
        ∷ (position, p.key)
        ∷ (position_vault, position_vault_pda find p.key)
        ∷ (trader, p.trader)
        ∷ (system_program, system)
        ∷ [];
  })

  -- The nonce is random.
  unfoldable pub open_position : ℕ → ℕ → Amount → Amount → Option Instruction
  open_position nonce a lamports secs = position_pda find a me nonce >>= λ p.
      to_bn lamports >>= λ n. to_bn secs >>= λ d. some (record {
        method = Method.open_position nonce n (pos d);
        accounts =
            (trader, me)
            ∷ (agent, a)
            ∷ (position, p)
            ∷ (position_vault, position_vault_pda find p)
            ∷ (system_program, system)
            ∷ [];
      })

  unfoldable pub cancel_position : ℕ → ℕ → Option Instruction
  cancel_position a p = some (record {
    method = Method.cancel_position;
    accounts =
        (trader, me)
        ∷ (agent, a)
        ∷ (position, p)
        ∷ (position_vault, position_vault_pda find p)
        ∷ (system_program, system)
        ∷ [];
  })

  unfoldable pub claim_default : Agent → Position → Option Instruction
  claim_default a p = some (record {
    method = Method.claim_default;
    accounts =
        (trader, me)
        ∷ (agent, a.key)
        ∷ (agent_vault, agent_vault_pda find a.key)
        ∷ (position, p.key)
        ∷ (position_vault, position_vault_pda find p.key)
        ∷ (system_program, system)
        ∷ [];
  })
