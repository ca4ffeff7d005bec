-- ===== src/Agent/Swap/Quiet.antt =====
-- The calls of a swap in agent/src/orca.ts other than the sending, and the runner's core.
use collateralized_agents.Base.{ℕ, zero, suc, Bool, true, false, Option, none, some}
use collateralized_agents.Agent.State.{Side, PendingSwap}
use collateralized_agents.Agent.System.{Error, swap_rejected, swap_in_flight, Act, pure, throw}
use collateralized_agents.Agent.System.Ensures.{
  Quiet, Quiet-bind, Quiet-catch, Quiet-throw, Quiet-pure, quiet_rules,
}
use collateralized_agents.Agent.Env.{Built, Meta, SignatureStatus, Env}
use collateralized_agents.Agent.Orca.Quiet.{with_fallback-Quiet, build-Quiet}
use collateralized_agents.Agent.Swap.{
  fetch_meta, tighten, meets, prepare, confirmed, confirm, or_in_flight, resolve_unseen,
  resolve_seen, by_status, resolve_swap,
}

module _ (env : Env) where
  found-Quiet :
      (info : Option Meta) (m : Act (Option Meta))
      → Quiet m
      → Quiet (elim info [ none ↦ m | some x ↦ pure (some x) ])
  found-Quiet none m h = h
  found-Quiet (some x) m h = Quiet-pure (some x)

  pub fetch_meta-Quiet : (rounds signature : ℕ) → Quiet (fetch_meta env rounds signature)
  unfolding fetch_meta
  fetch_meta-Quiet zero signature = Quiet-pure none
  fetch_meta-Quiet (suc rounds) signature =
      Quiet-bind _ _ (with_fallback-Quiet env (env.get_transaction signature))
        λ info. found-Quiet info _ (fetch_meta-Quiet rounds signature)

  tighten-Quiet :
      (pool : ℕ) (mint_in : Side) (amount_in min_out : ℕ) (built : Built)
      → Quiet (tighten env pool mint_in amount_in min_out built)
  unfolding tighten
  tighten-Quiet pool mint_in amount_in min_out built = search (quiet_rules, build-Quiet) depth 8

  meets-Quiet :
      (pool : ℕ) (mint_in : Side) (amount_in : ℕ) (min_out : Option ℕ) (built : Built)
      → Quiet (meets env pool mint_in amount_in min_out built)
  unfolding meets
  meets-Quiet pool mint_in amount_in none built = Quiet-pure tt
  meets-Quiet pool mint_in amount_in (some min_out) built =
      tighten-Quiet pool mint_in amount_in min_out built

  pub prepare-Quiet :
      (pool : ℕ) (mint_in : Side) (amount_in : ℕ) (min_out : Option ℕ)
      → Quiet (prepare env pool mint_in amount_in min_out)
  unfolding prepare
  prepare-Quiet pool mint_in amount_in min_out =
      search (quiet_rules, build-Quiet, meets-Quiet) depth 8

  confirmed-Quiet : (b : Bool) → Quiet (confirmed env b)
  unfolding confirmed
  confirmed-Quiet true = search quiet_rules
  confirmed-Quiet false = search quiet_rules

  -- The handler of `confirm`.
  rethrow-Quiet :
      (e : Error)
      → Quiet (elim e [
        | swap_rejected ↦ throw {A = Unit {0}} swap_rejected
        | _ ↦ throw {A = Unit {0}} swap_in_flight
      ])
  rethrow-Quiet swap_rejected = Quiet-throw swap_rejected
  rethrow-Quiet _ = Quiet-throw swap_in_flight

  pub confirm-Quiet : (signature : ℕ) → Quiet (confirm env signature)
  unfolding confirm
  confirm-Quiet signature = Quiet-catch _ _ (search (quiet_rules, confirmed-Quiet)) rethrow-Quiet

  pub or_in_flight-Quiet : (m : Option Meta) → Quiet (or_in_flight env m)
  unfolding or_in_flight
  or_in_flight-Quiet none = search quiet_rules
  or_in_flight-Quiet (some m) = search quiet_rules

  resolve_unseen-Quiet : (p : PendingSwap) → Quiet (resolve_unseen env p)
  unfolding resolve_unseen
  resolve_unseen-Quiet p = search (quiet_rules, with_fallback-Quiet, fetch_meta-Quiet) depth 8

  resolve_seen-Quiet : (p : PendingSwap) (st : SignatureStatus) → Quiet (resolve_seen env p st)
  unfolding resolve_seen
  resolve_seen-Quiet p st = search (quiet_rules, fetch_meta-Quiet) depth 8

  by_status-Quiet : (p : PendingSwap) (st : Option SignatureStatus) → Quiet (by_status env p st)
  unfolding by_status
  by_status-Quiet p none = resolve_unseen-Quiet p
  by_status-Quiet p (some st) = resolve_seen-Quiet p st

  pub resolve_swap-Quiet : (p : PendingSwap) → Quiet (resolve_swap env p)
  unfolding resolve_swap
  resolve_swap-Quiet p = search (quiet_rules, with_fallback-Quiet, by_status-Quiet)
