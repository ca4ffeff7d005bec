-- ===== src/Sdk/Send/Calls.antt =====
-- Calls over a connection, for sdk/src/client.ts: an answer or an error, with the count of calls made
-- and the signatures of the transactions that were built, the latest first.
use collateralized_agents.Base.{ℕ, suc, List, ◌∷◌}

-- A transaction that landed with an error, the end of the builds, and any other error.
pub data SendError : Type 0 where
  transaction_failed : SendError
  not_confirmed : SendError
  rpc_failed : SendError

pub data Answer (A : Type 0) : Type 0 where
  got : A → Answer A
  threw : SendError → Answer A

pub record Wire : Type 0 where
  pub calls : ℕ
  pub signed : List ℕ

abbrev pub Wired : Type 0 → Type 0
Wired A = Wire → Answer A × Wire

module _ {A : Type 0} where
  unfoldable pub give : A → Wired A
  give a w = (got a, w)

  unfoldable pub stop : SendError → Wired A
  stop e w = (threw e, w)

  unfoldable pub ask : (ℕ → Answer A) → Wired A
  ask f w = (f w.calls, record w { calls = suc w.calls })

  abbrev pub settle_for : A → Answer A × Wire → Answer A × Wire
  settle_for a (got b, w) = (got b, w)
  settle_for a (threw transaction_failed, w) = (threw transaction_failed, w)
  settle_for a (threw not_confirmed, w) = (got a, w)
  settle_for a (threw rpc_failed, w) = (got a, w)

  -- `try { m } catch`: an error other than the transaction's own counts as `a`.
  unfoldable pub attempt : Wired A → A → Wired A
  attempt m a w = settle_for a (m w)

unfoldable pub built : ℕ → Wired (Unit {0})
built sig w = (got tt, record w { signed = sig ∷ w.signed })

module _ {A B : Type 0} where
  abbrev pub pass : Answer A × Wire → (A → Wired B) → Answer B × Wire
  pass (got a, w) f = f a w
  pass (threw e, w) f = (threw e, w)

  infixl 5 ◌>>>◌
  unfoldable pub ◌>>>◌ : Wired A → (A → Wired B) → Wired B
  ◌>>>◌ m f w = pass (m w) f
