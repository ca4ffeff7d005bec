-- ===== src/App/Actions/Agree.antt =====
-- The site's actions of app/lib/useProtocol.ts against the SDK's methods of sdk/src/client.ts.
use collateralized_agents.Base.{ℕ, Bool, ◌≡◌, pos, Option, some, List}
use collateralized_agents.Program.{Part, Number, whole, Terms, Agent, Position}
use collateralized_agents.App.Actions
use collateralized_agents.App.Actions.{TermsInput}
use collateralized_agents.Sdk.Client
use collateralized_agents.Sdk.Client.{number}

module _ (find : List Part → ℕ) (system : ℕ) (parse : ℕ → Option ℕ) (me : ℕ) (a : Agent)
    (p : Position) where
  -- The same instruction with the same accounts, or nothing from both.
  abbrev pub Agrees : ℕ → ℕ → ℕ → ℕ → ℕ → ℕ → Number → Bool → TermsInput → Terms → Type 0
  Agrees id nonce name description k secs lamports accepting input terms =
      (Actions.open_position find system parse (some me) nonce a lamports (whole (pos secs))
        ≡ Client.open_position find system me nonce a.key (number lamports)
            (number (whole (pos secs))))
      × (Actions.cancel_position find system parse (some me) p
          ≡ Client.cancel_position find system me a.key p.key)
      × (Actions.claim_default find system parse (some me) p
          ≡ Client.claim_default find system me a p)
      × (Actions.create_agent find system parse (some me) id name description input
          ≡ Client.create_agent find system me id name description terms)
      × (Actions.publish_agent find system parse (some me) a
          ≡ Client.publish_agent find system me a.key)
      × (Actions.set_executor find system parse (some me) a k
          ≡ Client.set_executor find system me a.key k)
      × (Actions.set_accepting find system parse (some me) a accepting
          ≡ Client.set_accepting find system me a.key accepting)
      × (Actions.deposit_collateral find system parse (some me) a lamports
          ≡ Client.deposit_collateral find system me a.key (number lamports))
      × (Actions.withdraw_collateral find system parse (some me) a lamports
          ≡ Client.withdraw_collateral find system me a.key (number lamports))
      × (Actions.draw_funds find system parse (some me) p
          ≡ Client.draw_funds find system me a.key p.key)
      × (Actions.settle_position find system parse (some me) a p lamports
          ≡ Client.settle_method find system me a p (number lamports))
