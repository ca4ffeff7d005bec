-- ===== src/Agent/Refine/Settles.antt =====
-- `resolvePending` and `settle` of agent/src/agent.ts as steps of the machine.
use collateralized_agents.Base.{
  ℕ, Bool, true, false, ◌&&◌, not, ◌≡◌, refl, ap, inl, inr, some, List, ◌∷◌, lookup, erase, ltb,
  if◌then◌else◌, arith,
}
use collateralized_agents.Agent.Config.{AgentConfig}
use collateralized_agents.Agent.State.{Side, PendingSwap, Book, Settled, AgentState}
use collateralized_agents.Agent.Schedule.{past_last_call, settle_amount}
use collateralized_agents.Agent.Schedule.Laws.{settle_amount_best}
use collateralized_agents.Agent.System.{
  Position, other, Core, Effect, settle_sent, throw, catch, save, set_books, change_book,
  delete_book, emit_with,
}
use collateralized_agents.Agent.System.Ensures.{
  Ensures, Ensures-pure, Ensures-throw, Ensures-if, Ensures-bind, Ensures-catch, Ensures-modify,
  Ensures-quiet, Ensures-weaken, Ensures-fact, Quiet-call,
}
use collateralized_agents.Agent.Env.{Rpc, primary, fallback, Env}
use collateralized_agents.Agent.Orca.{is_network_error, is_in_flight}
use collateralized_agents.Agent.Orca.Quiet.{with_fallback-Quiet}
use collateralized_agents.Agent.Swap.{Resolution, landed, failed, pending}
use collateralized_agents.Agent.Swap.Quiet.{resolve_swap-Quiet}
use collateralized_agents.Agent.Runner.{set_pending, set_status, settle_resolution, resolve_pending}
use collateralized_agents.Agent.Loop.{unwind_usdc, check_wallet, send_settle, settle_with, settle}
use collateralized_agents.Agent.Protocol.{
  Reads, Enough, logged, Moves, next, Runs, RunsAt, drops, asks_settle, settles,
}
use collateralized_agents.Agent.Refine.Rules.{
  now-Ensures, now-Reads, now-Quiet, Runs-Quiet, Runs-pure, Runs-throw, Runs-bind, Runs-if,
  Runs-save, Runs-the_book, RunsAt-Runs, RunsAt-Quiet-bind, RunsAt-if, RunsAt-bind, RunsAt-catch,
}
use collateralized_agents.Agent.Refine.Marks.{Waits, Cleared, clear-Ensures, book-Ensures}
use collateralized_agents.Agent.Refine.Trades.{swap_-RunsAt, unbumped}

module _ (env : Env) (cfg : AgentConfig) (may_draw : Position → Type 0) (may_trade : Bool)
    (key : ℕ) where
  settle_resolution-RunsAt :
      (b : Book) (p : PendingSwap)
      → b.pending ≡ some p
      → (r : Resolution) → RunsAt env cfg may_draw may_trade key b (settle_resolution env key p r)
  unfolding settle_resolution change_book
  settle_resolution-RunsAt b p e pending = RunsAt-Runs key b (Runs-pure false)
  settle_resolution-RunsAt b p e failed = record {
    at = λ c.
        Ensures-bind (λ u. Moves env cfg may_draw may_trade c) _ _
          (Ensures-modify _ (λ d w. next w.0 (drops key b p w.1 e refl)))
          (λ u. (Runs-bind save _ Runs-save (λ v. Runs-pure true)).at c);
  }
  settle_resolution-RunsAt b p e (landed r) = record {
    at = λ c.
        Ensures-bind (λ u. Cleared env cfg may_draw may_trade c key b p) _ _
          (Ensures-weaken (Waits env cfg may_draw may_trade c key b p) _ _
            (clear-Ensures env cfg may_draw may_trade c key b p)
            (λ d w. (w.0, rw w.1 (ap (λ o. some (set_pending o b)) e))) (λ u d w. w) (λ x d w. w))
          λ u.
            Ensures-bind (λ v. Moves env cfg may_draw may_trade c) _ _
              (Ensures-weaken _ _ _ (book-Ensures env cfg may_draw may_trade c key b p r) (λ d w. w)
                (λ v d w. w.0) (λ x d w. w))
              (λ v. (Runs-bind save _ Runs-save (λ x. Runs-pure true)).at c);
  }

  pub resolve_pending-RunsAt :
      (b : Book) (p : PendingSwap)
      → b.pending ≡ some p
      → RunsAt env cfg may_draw may_trade key b (resolve_pending env key p)
  unfolding resolve_pending
  resolve_pending-RunsAt b p e =
      RunsAt-Quiet-bind key b _ _ (resolve_swap-Quiet env p) (settle_resolution-RunsAt b p e)

  unwind_usdc-RunsAt : (b : Book) → RunsAt env cfg may_draw may_trade key b (unwind_usdc env key b)
  unfolding unwind_usdc
  unwind_usdc-RunsAt b =
      RunsAt-catch key b _ _
        (swap_-RunsAt env cfg may_draw key may_trade Side.usdc b.usdc _ b (omega arith)
          (unbumped env cfg may_draw key cfg.strategy b) (inr refl))
        λ e.
          Runs-if (is_in_flight e) _ _ (λ h. Runs-throw e)
            λ h.
              Runs-bind _ _ (Runs-Quiet (now-Quiet env)) λ t.
                Runs-if (past_last_call t b.deadline) _ _ (λ k. Runs-pure tt) (λ k. Runs-throw e)

  -- A settle goes on only with the whole debt, or past the last call.
  check_wallet-Ensures :
      (b : Book) (wallet : ℕ) (P : Core → Type 0)
      → Ensures P
          (check_wallet env b.deadline b.sol (settle_amount b.sol wallet))
          (λ u d. P d × Enough env b (settle_amount b.sol wallet))
          (λ e. P)
  unfolding check_wallet
  check_wallet-Ensures b wallet P =
      Ensures-if (ltb (settle_amount b.sol wallet) b.sol) _ _
        (λ short.
          Ensures-bind (λ t d. P d × Reads env t) _ _ (now-Reads env)
            λ t.
              Ensures-if (past_last_call t b.deadline) _ _
                (λ late. Ensures-pure tt (λ d w. (w.0, inr (t, (w.1, late)))))
                (λ early. Ensures-throw other (λ d w. w.0)))
        (λ enough.
          Ensures-pure tt (λ d w. (w, inl (ground (arith, (settle_amount_best b.sol wallet).1)))))

  abbrev Asked : Core → Book → ℕ → Core → Type 0
  Asked c b r d =
      (Moves env cfg may_draw may_trade c d × (lookup key d.state.books ≡ some b))
      × ((st : AgentState) × ((before : List Effect) × (d.trace ≡ settle_sent key r st ∷ before)))

  send_settle-Ensures :
      (c : Core) (b : Book) (wallet : ℕ) (rpc : Rpc)
      → Enough env b (settle_amount b.sol wallet)
      → Ensures
          (λ d. Moves env cfg may_draw may_trade c d × (lookup key d.state.books ≡ some b))
          (send_settle env key (settle_amount b.sol wallet) rpc)
          (λ u. Asked c b (settle_amount b.sol wallet))
          (λ e. Asked c b (settle_amount b.sol wallet))
  unfolding send_settle emit_with
  send_settle-Ensures c b wallet rpc enough =
      Ensures-bind (λ u. Asked c b (settle_amount b.sol wallet)) _ _
        (Ensures-modify _ (λ d w.
          ((next w.0 (asks_settle key b wallet w.1 enough refl), w.1), (d.state, (d.trace, refl)))))
        λ u. Ensures-quiet (Quiet-call _)

  -- The primary node, and on a network error the fallback.
  send_either-Ensures :
      (c : Core) (b : Book) (wallet : ℕ)
      → Enough env b (settle_amount b.sol wallet)
      → Ensures
          (λ d. Moves env cfg may_draw may_trade c d × (lookup key d.state.books ≡ some b))
          (catch (send_settle env key (settle_amount b.sol wallet) primary) λ e.
            if env.has_fallback && is_network_error e
            then send_settle env key (settle_amount b.sol wallet) fallback
            else throw e)
          (λ u. Asked c b (settle_amount b.sol wallet))
          (λ e. Moves env cfg may_draw may_trade c)
  send_either-Ensures c b wallet enough =
      Ensures-catch (λ e. Asked c b (settle_amount b.sol wallet)) _ _
        (send_settle-Ensures c b wallet primary enough)
        λ e.
          Ensures-if (env.has_fallback && is_network_error e) _ _
            (λ h.
              Ensures-weaken _ _ _ (send_settle-Ensures c b wallet fallback enough) (λ d w. w.0)
                (λ u d w. w) (λ x d w. w.0.0))
            (λ h. Ensures-throw e (λ d w. w.0.0))

  settle_rest-RunsAt :
      (b : Book) (wallet : ℕ)
      → RunsAt env cfg may_draw may_trade key b (settle_with env key b wallet)
  unfolding settle_with delete_book set_status
  settle_rest-RunsAt b wallet = record {
    at = λ c.
        let r = settle_amount b.sol wallet in
        Ensures-bind _ _ _
          (Ensures-weaken _ _ _
            (check_wallet-Ensures b wallet
              (λ d. Moves env cfg may_draw may_trade c d × (lookup key d.state.books ≡ some b)))
            (λ d w. w) (λ u d w. w) (λ x d w. w.0))
          λ u.
            Ensures-fact {H = Enough env b r} (λ d w. w.1)
              λ enough.
                Ensures-bind (λ v. Asked c b r) _ _
                  (Ensures-weaken _ _ _ (send_either-Ensures c b wallet enough) (λ d w. w.0)
                    (λ v d w. w) (λ x d w. w))
                  λ v.
                    Ensures-bind (λ t. Asked c b r) _ _ (now-Ensures env)
                      λ t.
                        let h : Settled = record {
                          position = key;
                          principal = b.principal;
                          returned = r;
                          at = t;
                        } in
                        Ensures-bind (λ x d. (e : Core) × Asked c b r e × (d ≡ logged h e)) _ _
                          (Ensures-modify _ (λ d w. (d, w, refl)))
                          λ x.
                            Ensures-bind
                              (λ y d.
                                (e : Core) × Asked c b r e
                                × (d ≡ set_books (erase key) (logged h e)))
                              _ _ (Ensures-modify _ (λ d w. (w.0, w.1, rw w.2)))
                              λ y. Ensures-modify _ (λ d w. next w.1.0.0 (
                                settles key b h w.1.1.0 w.1.1.1.0 w.1.0.1 w.1.1.1.1 (refl, refl)
                                  (rw w.2)));
  }

  pub settle-Runs : (emergency : Bool) → Runs env cfg may_draw may_trade (settle env key emergency)
  unfolding settle
  settle-Runs emergency = Runs-the_book key _ λ before.
      RunsAt-bind key before _ _
        (RunsAt-if key before (ltb 0 before.usdc && not emergency) _ _
          (λ h. unwind_usdc-RunsAt before) (λ h. RunsAt-Runs key before (Runs-pure tt)))
        λ u. Runs-the_book key _ λ b.
          RunsAt-Quiet-bind key b _ _ (with_fallback-Quiet env env.balance) (settle_rest-RunsAt b)
