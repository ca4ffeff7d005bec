-- ===== src/Agent/Refine/Sends.antt =====
-- The signed part of `swap` in agent/src/agent.ts as steps of the machine: the save, the send, the booking.
use collateralized_agents.Base.{
  ℕ, ◌≤◌, ◌<◌, ℤ, Bool, ◌≡◌, refl, Option, none, some, lookup, update, lookup-update_self,
}
use collateralized_agents.Agent.Config.{AgentConfig}
use collateralized_agents.Agent.State.{Side, Book}
use collateralized_agents.Agent.Strategies.Laws.{held}
use collateralized_agents.Agent.System.{
  Position, Error, send_refused, swap_rejected, swap_in_flight, Core, pure, throw, ◌>>=◌, save,
  set_books, change_book, emit,
}
use collateralized_agents.Agent.System.Ensures.{
  Ensures, Quiet, Ensures-pure, Ensures-bind, Ensures-catch, Ensures-modify, Ensures-gets,
  Ensures-quiet, Ensures-weaken, Ensures-exists, Quiet-catch, Quiet-call, Quiet-throw, quiet_rules,
}
use collateralized_agents.Agent.Env.{Env}
use collateralized_agents.Agent.Swap.{SwapResult, Signed, send, finish, swap_exact_in}
use collateralized_agents.Agent.Swap.Quiet.{
  fetch_meta-Quiet, prepare-Quiet, confirm-Quiet, or_in_flight-Quiet,
}
use collateralized_agents.Agent.Runner.{
  set_pending, pending_swap, now, record_swap, on_signed, execute,
}
use collateralized_agents.Agent.Protocol.{MayBump, MaySell, signed, next, saves, sends}
use collateralized_agents.Agent.Refine.Rules.{now-Ensures}
use collateralized_agents.Agent.Refine.Marks.{
  Steps, Waits, Cleared, After, clear-Ensures, book-Ensures, not_landed-throws,
}

module _ (env : Env) (cfg : AgentConfig) (may_draw : Position → Type 0) (may_trade : Bool) (key : ℕ)
    (side : Side) (amount : ℕ) (bump : Bool) (b : Book) (idle : b.pending ≡ none)
    (covered : (0 < amount) × (amount ≤ held side b.sol b.usdc))
    (bumps : MayBump cfg.strategy b bump) (sells : MaySell may_trade side) (pool : ℕ) where
  refused-Quiet :
      (e : Error)
      → Quiet (elim e [
        | send_refused ↦ throw {A = Unit {0}} swap_rejected
        | _ ↦ throw {A = Unit {0}} swap_in_flight
      ])
  refused-Quiet send_refused = Quiet-throw swap_rejected
  refused-Quiet _ = Quiet-throw swap_in_flight

  abbrev Start : Core → Core → Type 0
  Start c d = Steps env cfg may_draw may_trade c d × (lookup key d.state.books ≡ some b)

  abbrev SignedAt : Core → Signed → Core → Type 0
  SignedAt c sg d =
      (t : ℤ) × (e : Core) × Start c e
      × (d ≡ signed key (pending_swap side amount pool bump sg t) e)

  abbrev Sent : Core → Signed → Core → Type 0
  Sent c sg d =
      (t : ℤ) × Waits env cfg may_draw may_trade c key b (pending_swap side amount pool bump sg t) d

  on_signed-Ensures :
      (c : Core) (sg : Signed)
      → Ensures
          (Start c)
          (on_signed env key side amount pool bump sg)
          (λ u. SignedAt c sg)
          (λ e. Steps env cfg may_draw may_trade c)
  unfolding on_signed change_book save
  on_signed-Ensures c sg = Ensures-bind _ (now env) _ (now-Ensures env) λ t.
      Ensures-bind
        (λ u d.
          (e : Core) × Start c e
          × (d
              ≡ set_books
                  (update key (set_pending (some (pending_swap side amount pool bump sg t)))) e))
        _ _ (Ensures-modify _ (λ d w. (d, w, refl)))
        λ u. Ensures-modify _ (λ d w. (t, w.0, w.1, rw w.2))

  send-Ensures :
      (c : Core) (sg : Signed)
      → Ensures
          (SignedAt c sg)
          (send env sg.signature)
          (λ u. Sent c sg)
          (λ e. Steps env cfg may_draw may_trade c)
  unfolding send emit
  send-Ensures c sg =
      Ensures-bind (λ disk d. SignedAt c sg d × (disk ≡ d.disk)) _ _ (Ensures-gets (λ d. d.disk))
        λ disk.
          Ensures-bind (λ u. Sent c sg) _ _
            (Ensures-modify _ (λ d w. (
              w.0.0,
              (
                rw w.1 (
                    rw w.0.3 (
                      next w.0.2.0 (
                        sends key b (pending_swap side amount pool bump sg w.0.0) w.0.2.1 idle
                          covered bumps sells refl))),
                rw w.0.3 (lookup-update_self key _ _ _ w.0.2.1),
              ),
            )))
            λ u.
              Ensures-weaken (Sent c sg) (λ v. Sent c sg) (λ e. Sent c sg)
                (Ensures-quiet (Quiet-catch _ _ (Quiet-call _) refused-Quiet)) (λ d w. w)
                (λ v d w. w) (λ e d w. w.1.0)

  finish-Ensures :
      (c : Core) (sg : Signed)
      → Ensures
          (SignedAt c sg)
          (finish env sg.signature side amount)
          (λ r. Sent c sg)
          (λ e. Steps env cfg may_draw may_trade c)
  unfolding finish
  finish-Ensures c sg =
      Ensures-bind (λ u. Sent c sg) _ _ (send-Ensures c sg)
        λ u.
          Ensures-weaken (Sent c sg) (λ v. Sent c sg) (λ e. Sent c sg)
            (Ensures-quiet
              (search (quiet_rules, confirm-Quiet, fetch_meta-Quiet, or_in_flight-Quiet) depth 8))
            (λ d w. w) (λ v d w. w) (λ e d w. w.1.0)

  swap_exact_in-Ensures :
      (c : Core) (min_out : Option ℕ)
      → Ensures
          (Start c)
          (swap_exact_in env pool side amount (on_signed env key side amount pool bump) min_out)
          (λ r d. (sg : Signed) × Sent c sg d)
          (λ e. Steps env cfg may_draw may_trade c)
  unfolding swap_exact_in
  swap_exact_in-Ensures c min_out =
      Ensures-bind (λ sg. Start c) _ _
        (Ensures-weaken (Start c) (λ v. Start c) (λ e. Start c)
          (Ensures-quiet (prepare-Quiet env pool side amount min_out)) (λ d w. w) (λ v d w. w)
          (λ e d w. w.0))
        λ sg.
          Ensures-bind (λ u. SignedAt c sg) _ _ (on_signed-Ensures c sg)
            λ u.
              Ensures-weaken (SignedAt c sg) (λ r. Sent c sg)
                (λ e. Steps env cfg may_draw may_trade c) (finish-Ensures c sg) (λ d w. w)
                (λ r d w. (sg, w)) (λ e d w. w)

  -- What a swap leaves: its book with the USDC that it brought.
  abbrev pub Sold : Core → Option SwapResult → Core → Type 0
  Sold c none d = Steps env cfg may_draw may_trade c d
  Sold c (some r) d =
      Steps env cfg may_draw may_trade c d × After env cfg may_draw may_trade key b r d

  book_it-Ensures :
      (c : Core) (r : SwapResult)
      → Ensures
          (λ d. (sg : Signed) × Sent c sg d)
          (change_book key (set_pending none) >>= λ u.
            record_swap env key side amount pool r bump >>= λ v. save >>= λ x. pure (some r))
          (Sold c)
          (λ e. Steps env cfg may_draw may_trade c)
  unfolding save
  book_it-Ensures c r = Ensures-exists λ sg. Ensures-exists λ t.
      let p = pending_swap side amount pool bump sg t in
      Ensures-bind (λ u. Cleared env cfg may_draw may_trade c key b p) _ _
        (clear-Ensures env cfg may_draw may_trade c key b p)
        λ u.
          Ensures-bind (λ v d. Sold c (some r) d) _ _
            (book-Ensures env cfg may_draw may_trade c key b p r)
            λ v.
              Ensures-bind (λ x d. Sold c (some r) d) _ _
                (Ensures-modify _ (λ d w. (next w.0 (saves refl), w.1)))
                λ x. Ensures-pure (some r) (λ d w. w)

  pub execute-Ensures :
      (c : Core) (min_out : Option ℕ)
      → Ensures
          (Start c)
          (execute env key side amount bump (pool, min_out))
          (Sold c)
          (λ e. Steps env cfg may_draw may_trade c)
  unfolding execute
  execute-Ensures c min_out =
      Ensures-bind (λ r d. (sg : Signed) × Sent c sg d) _ _
        (Ensures-catch (λ e. Steps env cfg may_draw may_trade c) _ _
          (swap_exact_in-Ensures c min_out)
          λ e.
            Ensures-weaken (Steps env cfg may_draw may_trade c) (λ r d. ⊥)
              (λ e. Steps env cfg may_draw may_trade c)
              (not_landed-throws env cfg may_draw may_trade key e c) (λ d w. w) (λ r d w. absurd w)
              (λ x d w. w))
        λ r. book_it-Ensures c r
