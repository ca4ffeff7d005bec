-- ===== src/Agent/Refine/Ticks.antt =====
-- The passes over the books and the positions (agent/src/agent.ts, `runBooks` to `adoptOrphan`, and
-- `tick`) as steps of the machine.
use collateralized_agents.Base.{
  ℕ, ℤ, Bool, true, false, not, ◌≡◌, refl, sym, ap, Option, none, some, List, [], ◌∷◌, find, ◌==◌,
  if◌then◌else◌, arith,
}
use collateralized_agents.Agent.Config.{AgentConfig}
use collateralized_agents.Agent.State.{Book, PendingSwap}
use collateralized_agents.Agent.Schedule.{due_to_settle, past_last_call}
use collateralized_agents.Agent.System.{
  Core, Position, is_trading, pure, catch, ◌>>=◌, save, delete_book,
}
use collateralized_agents.Agent.System.Ensures.{
  Ensures, Ensures-if, Ensures-bind, Ensures-modify, Ensures-gets, Ensures-weaken, Quiet-gets,
}
use collateralized_agents.Agent.Env.{Env}
use collateralized_agents.Agent.Runner.{resolve_pending, trade_by}
use collateralized_agents.Agent.Loop.{
  check_pending, by_clock, attend, skips, attend_and_save, on_chain, run_book, run_keys, run_books,
  settle,
}
use collateralized_agents.Agent.Protocol.{Closed, Moves, next, Runs, RunsAt, saves, closes}
use collateralized_agents.Agent.Refine.Rules.{
  now-Quiet, Runs-Quiet, Runs-pure, Runs-bind, Runs-catch, Runs-if, Runs-save, Runs-the_book,
  RunsAt-Runs, RunsAt-bind, RunsAt-catch,
}
use collateralized_agents.Agent.Refine.Trades.{IsSized, trade_by-Runs}
use collateralized_agents.Agent.Refine.Settles.{resolve_pending-RunsAt, settle-Runs}

module _ (env : Env) (cfg : AgentConfig) (sized : IsSized cfg.strategy)
    (may_draw : Position → Type 0) where
  check_pending-RunsAt :
      (may_trade : Bool) (key : ℕ) (b : Book)
      → RunsAt env cfg may_draw may_trade key b (check_pending env key b)
  unfolding check_pending
  check_pending-RunsAt may_trade key b = by_pending b.pending refl
    where
      by_pending :
          (o : Option PendingSwap)
          → b.pending ≡ o
          → RunsAt env cfg may_draw may_trade key b (elim o [
            | none ↦ pure true
            | some p ↦ catch (resolve_pending env key p) (λ e. pure false)
          ])
      by_pending none e = RunsAt-Runs key b (Runs-pure true)
      by_pending (some p) e =
          RunsAt-catch key b _ _ (resolve_pending-RunsAt env cfg may_draw may_trade key b p e)
            (λ x. Runs-pure false)

  -- A settle pass trades nothing.
  trade_or_not :
      (settle_only : Bool) (key : ℕ) (price : Option ℕ)
      → Runs env cfg may_draw (not settle_only) (
          if settle_only
          then pure true
          else (trade_by env cfg.strategy key price >>= λ u. pure true))
  trade_or_not true key price = Runs-pure true
  trade_or_not false key price =
      Runs-bind _ _ (trade_by-Runs env cfg may_draw key cfg.strategy price refl sized)
        (λ u. Runs-pure true)

  settle_first :
      (may_trade : Bool) (key : ℕ) (emergency : Bool)
      → Runs env cfg may_draw may_trade (settle env key emergency >>= λ u. pure true)
  settle_first may_trade key emergency =
      Runs-bind _ _ (settle-Runs env cfg may_draw may_trade key emergency) (λ u. Runs-pure true)

  by_clock-Runs :
      (price : Option ℕ) (settle_only : Bool) (key : ℕ) (resolved : Bool) (b : Book) (t : ℤ)
      → Runs env cfg may_draw
          (not settle_only)
          (by_clock env cfg price settle_only key resolved b t)
  unfolding by_clock
  by_clock-Runs price settle_only key false b t =
      Runs-if (past_last_call t b.deadline) _ _ (λ h. settle_first (not settle_only) key true)
        (λ h. Runs-pure false)
  by_clock-Runs price settle_only key true b t =
      Runs-if (due_to_settle b t) _ _ (λ h. settle_first (not settle_only) key false)
        (λ h. trade_or_not settle_only key price)

  attend-Runs :
      (price : Option ℕ) (settle_only : Bool) (key : ℕ)
      → Runs env cfg may_draw (not settle_only) (attend env cfg price settle_only key)
  unfolding attend
  attend-Runs price settle_only key = Runs-the_book key _ λ b.
      RunsAt-bind key b _ _ (check_pending-RunsAt (not settle_only) key b) λ resolved.
        Runs-the_book key _ λ b'. RunsAt-Runs key b' (
          Runs-bind _ _ (Runs-Quiet (now-Quiet env))
            λ t. by_clock-Runs price settle_only key resolved b' t)

  skips-Runs :
      (may_trade settle_only : Bool) (key : ℕ)
      → Runs env cfg may_draw may_trade (skips env settle_only key)
  unfolding skips
  skips-Runs may_trade false key = Runs-pure false
  skips-Runs may_trade true key =
      Runs-the_book key _
        λ b. RunsAt-Runs key b (Runs-bind _ _ (Runs-Quiet (now-Quiet env)) λ t. Runs-pure _)

  attend_and_save-Runs :
      (price : Option ℕ) (settle_only : Bool) (key : ℕ)
      → Runs env cfg may_draw (not settle_only) (attend_and_save env cfg price settle_only key)
  unfolding attend_and_save
  attend_and_save-Runs price settle_only key =
      Runs-bind _ _ (Runs-catch _ _ (attend-Runs price settle_only key) (λ e. Runs-pure true))
        λ go_on. Runs-if go_on _ _ (λ h. Runs-save) (λ h. Runs-pure tt)

  close-Ensures :
      (may_trade : Bool) (key : ℕ) (c : Core)
      → Ensures
          (λ d.
            Moves env cfg may_draw may_trade c d
            × Closed key (find (λ p. p.public_key == key) d.positions))
          (delete_book key >>= λ u. save)
          (λ u. Moves env cfg may_draw may_trade c)
          (λ e. Moves env cfg may_draw may_trade c)
  unfolding delete_book save
  close-Ensures may_trade key c =
      Ensures-bind (λ u. Moves env cfg may_draw may_trade c) _ _
        (Ensures-modify _ (λ d w. next w.0 (closes key w.1 refl)))
        λ u. Ensures-modify _ (λ d w. next w (saves refl))

  on_chain-Ensures :
      (price : Option ℕ) (settle_only : Bool) (key : ℕ) (found : Option Position) (c : Core)
      → Ensures
          (λ d.
            Moves env cfg may_draw (not settle_only) c d
            × (found ≡ find (λ p. p.public_key == key) d.positions))
          (on_chain env cfg price settle_only key found)
          (λ u. Moves env cfg may_draw (not settle_only) c)
          (λ e. Moves env cfg may_draw (not settle_only) c)
  unfolding on_chain
  on_chain-Ensures price settle_only key none c =
      Ensures-weaken _ _ _ (close-Ensures (not settle_only) key c) (λ d w. (w.0, rw (sym w.1) tt))
        (λ u d w. w) (λ e d w. w)
  on_chain-Ensures price settle_only key (some p) c =
      Ensures-if (not (is_trading p.status)) _ _
        (λ h.
          Ensures-weaken _ _ _ (close-Ensures (not settle_only) key c)
            (λ d w. (w.0, rw (sym w.1) (ground arith))) (λ u d w. w) (λ e d w. w))
        λ h.
          Ensures-weaken _ _ _
            ((Runs-bind _ _ (skips-Runs (not settle_only) settle_only key) λ skip.
                Runs-if skip _ _ (λ k. Runs-pure tt)
                  (λ k. attend_and_save-Runs price settle_only key)).at
              c)
            (λ d w. w.0) (λ u d w. w) (λ e d w. w)

  run_book-Runs :
      (price : Option ℕ) (settle_only : Bool) (key : ℕ)
      → Runs env cfg may_draw (not settle_only) (run_book env cfg price settle_only key)
  unfolding run_book
  run_book-Runs price settle_only key = record {
    at = λ c. Ensures-bind _ _ _ (Ensures-gets (λ d. d.positions)) λ ps.
        Ensures-weaken _ _ _
          (on_chain-Ensures price settle_only key (find (λ p. p.public_key == key) ps) c)
          (λ d w. (w.0, ap (find (λ p. p.public_key == key)) w.1)) (λ u d w. w) (λ e d w. w);
  }

  run_keys-Runs :
      (price : Option ℕ) (settle_only : Bool) (ks : List ℕ)
      → Runs env cfg may_draw (not settle_only) (run_keys env cfg price settle_only ks)
  unfolding run_keys
  run_keys-Runs price settle_only [] = Runs-pure tt
  run_keys-Runs price settle_only (key ∷ rest) =
      Runs-bind _ _ (run_book-Runs price settle_only key)
        (λ u. run_keys-Runs price settle_only rest)

  pub run_books-Runs :
      (price : Option ℕ) (settle_only : Bool)
      → Runs env cfg may_draw (not settle_only) (run_books env cfg price settle_only)
  unfolding run_books
  run_books-Runs price settle_only =
      Runs-bind _ _ (Runs-Quiet (Quiet-gets _)) (run_keys-Runs price settle_only)
