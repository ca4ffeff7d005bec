-- ===== src/Agent/Swap/Unknown.antt =====
-- What agent/src/orca.ts makes of a swap whose transaction it cannot read.
use collateralized_agents.Base.{ℕ, ◌≡◌, inl, inr, Bool-cases}
use collateralized_agents.Agent.System.{Error, Result, err, Sys, catch, call, throw}
use collateralized_agents.Agent.Env.{Rpc, primary, fallback, Env}
use collateralized_agents.Agent.Orca.{with_fallback}

-- No RPC node answers the read of the transaction.
abbrev pub Unreadable : Env → ℕ → Error → Type 0
Unreadable env sig e = (rpc : Rpc) (n : ℕ) → env.get_transaction sig rpc n ≡ err e

module _ (env : Env) {A : Type 0} (read : Rpc → ℕ → Result A) (e : Error) where
  pub with_fallback-fails :
      ((rpc : Rpc) (n : ℕ) → read rpc n ≡ err e)
      → (s : Sys)
      → ((with_fallback env read s).0 ≡ err e) × ((with_fallback env read s).1.core ≡ s.core)
  unfolding with_fallback catch call throw
  with_fallback-fails h s = elim (Bool-cases env.has_fallback) [
    | inl t ↦ (rw (h primary s.calls, t, h fallback _), rw (h primary s.calls, t))
    | inr t ↦ (rw (h primary s.calls, t), rw (h primary s.calls, t))
  ]
