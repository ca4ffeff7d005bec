-- ===== src/Agent/Swap.antt =====
-- agent/src/orca.ts, from `SwapResult` on: the execution of a swap and the resolution of one that
-- was left pending.
pub mod Quiet
pub mod Unknown
use collateralized_agents.Base.{
  ℕ, zero, suc, ◌+◌, ◌-◌, ◌*◌, ◌/◌, ℤ, pos, ◌+ℤ◌, ◌-ℤ◌, Bool, true, false, ◌&&◌, ◌||◌, not, Option,
  none, some, List, [], ◌∷◌, ltb, leb, ◌==◌, if◌then◌else◌,
}
use collateralized_agents.Agent.Config.{usdc_mint}
use collateralized_agents.Agent.State.{Side, PendingSwap}
use collateralized_agents.Agent.System.{
  Error, swap_in_flight, swap_rejected, send_refused, other, Result, ok, err, Sys, Act, pure, throw,
  gets, call, catch, swap_sent, emit, ◌>>=◌, ◌>>◌,
}
use collateralized_agents.Agent.Env.{
  Rpc, Built, Blockhash, TokenBalance, Meta, SignatureStatus, Env,
}
use collateralized_agents.Agent.Orca.{with_fallback, build, is_in_flight}

pub record SwapResult : Type 0 where
  pub signature : ℕ
  pub sol_delta : ℤ
  pub usdc_delta : ℤ

pub record Signed : Type 0 where
  pub signature : ℕ
  pub last_valid_block_height : ℕ

abbrev owned_by : ℕ → Option ℕ → Bool
owned_by owner none = false
owned_by owner (some o) = o == owner

-- The owner's USDC among the token balances.
unfoldable pub usdc_of : ℕ → List TokenBalance → ℕ
usdc_of owner [] = 0
usdc_of owner (b ∷ bs) =
    (if owned_by owner b.owner && (b.mint == usdc_mint) then b.amount else 0) + usdc_of owner bs

unfoldable pub deltas_from_meta : ℕ → Meta → ℕ → Side → ℕ → SwapResult
deltas_from_meta signature m owner Side.sol amount_in = record {
  signature = signature;
  sol_delta = pos 0 -ℤ pos amount_in;
  usdc_delta =
      pos (usdc_of owner m.post_token_balances) -ℤ pos (usdc_of owner m.pre_token_balances);
}
deltas_from_meta signature m owner Side.usdc amount_in = record {
  signature = signature;
  sol_delta = pos m.post_balance -ℤ pos m.pre_balance +ℤ pos m.fee;
  usdc_delta =
      pos (usdc_of owner m.post_token_balances) -ℤ pos (usdc_of owner m.pre_token_balances);
}

pub data Resolution : Type 0 where
  landed : SwapResult → Resolution
  failed : Resolution
  pending : Resolution

module _ (env : Env) where
  -- The rounds of `fetchMeta`.
  unfoldable pub fetch_meta : ℕ → ℕ → Act (Option Meta)
  fetch_meta zero signature = pure none
  fetch_meta (suc rounds) signature = do
    info ← with_fallback env (env.get_transaction signature)
    elim info [ none ↦ fetch_meta rounds signature | some m ↦ pure (some m) ]

  abbrev pub meta_rounds : ℕ
  meta_rounds = 10

  -- Tightens the slippage until the threshold on chain is at least `min_out`.
  unfoldable pub tighten : ℕ → Side → ℕ → ℕ → Built → Act (Unit {0})
  tighten pool mint_in amount_in min_out built =
      if leb min_out built.token_min_out
      then pure tt
      else if ltb built.token_est_out min_out
      then throw other
      else do
        b ←
            build env pool mint_in amount_in
              ((built.token_est_out - min_out) * 10_000 / built.token_est_out)
        if ltb b.token_min_out min_out then throw other else pure tt

  unfoldable pub meets : ℕ → Side → ℕ → Option ℕ → Built → Act (Unit {0})
  meets pool mint_in amount_in none built = pure tt
  meets pool mint_in amount_in (some min_out) built = tighten pool mint_in amount_in min_out built

  -- What is done before the transaction is signed.
  unfoldable pub prepare : ℕ → Side → ℕ → Option ℕ → Act Signed
  prepare pool mint_in amount_in min_out = do
    built ← build env pool mint_in amount_in env.slippage_bps
    meets pool mint_in amount_in min_out built
    h ← call env.latest_blockhash
    pure (record { signature = h.signature; last_valid_block_height = h.last_valid_block_height })

  -- `connection.sendRawTransaction` and what its errors become.
  unfoldable pub send : ℕ → Act (Unit {0})
  send signature = do
    disk ← gets (λ s. s.disk)
    emit (swap_sent signature disk)
    catch (call (env.send_raw_transaction signature))
        λ e. elim e [ send_refused ↦ throw swap_rejected | _ ↦ throw swap_in_flight ]

  unfoldable pub confirmed : Bool → Act (Unit {0})
  confirmed true = pure tt
  confirmed false = throw swap_rejected

  unfoldable pub confirm : ℕ → Act (Unit {0})
  confirm signature =
      catch (call (env.confirm_transaction signature) >>= confirmed)
        λ e. elim e [ swap_rejected ↦ throw swap_rejected | _ ↦ throw swap_in_flight ]

  unfoldable pub or_in_flight : Option Meta → Act Meta
  or_in_flight none = throw swap_in_flight
  or_in_flight (some m) = pure m

  -- What is done once the transaction is signed and recorded.
  unfoldable pub finish : ℕ → Side → ℕ → Act SwapResult
  finish signature mint_in amount_in = do
    send signature
    confirm signature
    got ← fetch_meta meta_rounds signature
    m ← or_in_flight got
    pure (deltas_from_meta signature m env.wallet mint_in amount_in)

  unfoldable pub swap_exact_in :
      ℕ → Side → ℕ → (Signed → Act (Unit {0})) → Option ℕ → Act SwapResult
  swap_exact_in pool mint_in amount_in on_signed min_out = do
    signed ← prepare pool mint_in amount_in min_out
    on_signed signed
    finish signed.signature mint_in amount_in

  unfoldable pub resolution_of : PendingSwap → Option Meta → Resolution → Resolution
  resolution_of p none r = r
  resolution_of p (some m) r = landed (deltas_from_meta p.sig m env.wallet p.side p.amount_in)

  -- The last check of an expired swap: it landed only if its meta is there and shows no error.
  unfoldable pub expired : PendingSwap → Option Meta → Resolution
  expired p none = failed
  expired p (some m) = if m.failed then failed else resolution_of p (some m) failed

  unfoldable pub resolve_unseen : PendingSwap → Act Resolution
  resolve_unseen p = do
    height ← with_fallback env env.block_height
    if leb height p.last_valid_block_height
        then pure pending
        else do got ← catch (fetch_meta meta_rounds p.sig) (λ e. pure none); pure (expired p got)

  unfoldable pub resolve_seen : PendingSwap → SignatureStatus → Act Resolution
  resolve_seen p st =
      if not st.confirmed
      then pure pending
      else if st.failed
      then pure failed
      else do got ← fetch_meta meta_rounds p.sig; pure (resolution_of p got pending)

  unfoldable pub by_status : PendingSwap → Option SignatureStatus → Act Resolution
  by_status p none = resolve_unseen p
  by_status p (some st) = resolve_seen p st

  unfoldable pub resolve_swap : PendingSwap → Act Resolution
  resolve_swap p = do st ← with_fallback env (env.signature_status p.sig); by_status p st
