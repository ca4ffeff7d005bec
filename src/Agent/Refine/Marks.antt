-- ===== src/Agent/Refine/Marks.antt =====
-- The pending mark of a swap in agent/src/agent.ts as steps of the machine: it is taken off when the swap is
-- booked, and dropped when the swap has not landed.
use collateralized_agents.Base.{
  ℕ, Bool, true, ◌≡◌, refl, Option, none, some, lookup, lookup-update_self, arith,
}
use collateralized_agents.Agent.Config.{AgentConfig}
use collateralized_agents.Agent.State.{PendingSwap, Book}
use collateralized_agents.Agent.System.{Position, Error, Core, save, change_book}
use collateralized_agents.Agent.System.Ensures.{
  Ensures, Ensures-throw, Ensures-if, Ensures-bind, Ensures-modify, Ensures-the_book,
}
use collateralized_agents.Agent.Env.{Env}
use collateralized_agents.Agent.Swap.{SwapResult}
use collateralized_agents.Agent.Runner.{
  has, add_delta, book_swap, set_pending, now, record_swap, drop_pending, not_landed,
}
use collateralized_agents.Agent.Protocol.{cleared, Moves, next, saves, drops, books}
use collateralized_agents.Agent.Refine.Rules.{now-Ensures}

module _ (env : Env) (cfg : AgentConfig) (may_draw : Position → Type 0) (may_trade : Bool) where
  abbrev pub Steps : Core → Core → Type 0
  Steps = Moves env cfg may_draw may_trade

  -- The book at `key` waits for the swap `p`.
  abbrev pub Waits : Core → ℕ → Book → PendingSwap → Core → Type 0
  Waits c key b p d = Steps c d × (lookup key d.state.books ≡ some (set_pending (some p) b))

  -- Its pending mark is off, and its swap not yet booked.
  abbrev pub Cleared : Core → ℕ → Book → PendingSwap → Core → Type 0
  Cleared c key b p d =
      (e : Core) × Steps c e
      × (lookup key e.state.books ≡ some (set_pending (some p) b))
      × (d ≡ cleared key e)

  -- The book after the swap.
  abbrev pub After : ℕ → Book → SwapResult → Core → Type 0
  After key b r d =
      (b' : Book) × (lookup key d.state.books ≡ some b')
      × (b'.usdc ≡ add_delta b.usdc r.usdc_delta)
      × (b'.pending ≡ none)

  pub clear-Ensures :
      (c : Core) (key : ℕ) (b : Book) (p : PendingSwap)
      → Ensures
          (Waits c key b p)
          (change_book key (set_pending none))
          (λ u. Cleared c key b p)
          (λ e. Steps c)
  unfolding change_book
  clear-Ensures c key b p = Ensures-modify _ (λ d w. (d, w.0, w.1, refl))

  pub book-Ensures :
      (c : Core) (key : ℕ) (b : Book) (p : PendingSwap) (r : SwapResult)
      → Ensures
          (Cleared c key b p)
          (record_swap env key p.side p.amount_in p.pool r p.bump_cycle)
          (λ u d. Steps c d × After key b r d)
          (λ e. Steps c)
  unfolding record_swap change_book book_swap
  book-Ensures c key b p r = Ensures-bind _ (now env) _ (now-Ensures env) λ t.
      Ensures-modify _ λ d w. rw w.3 (
        next w.1 (books key _ p r t w.2 refl refl),
        (
          book_swap p.side p.amount_in p.pool r p.bump_cycle t
              (set_pending none (set_pending (some p) b)),
          lookup-update_self key _ _ _ (lookup-update_self key _ _ _ w.2),
          refl,
          refl,
        ),
      )

  has-some : {A : Type 0} (o : Option A) → has o ≡ true → (a : A) × (o ≡ some a)
  has-some none h = cc
  has-some (some a) h = (a, refl)

  -- The handler always throws.
  drop-throws :
      (key : ℕ) (b : Book) (e : Error) (c : Core)
      → has b.pending ≡ true
      → Ensures
          (λ d. Steps c d × (lookup key d.state.books ≡ some b))
          (drop_pending env key e)
          (λ r d. ⊥)
          (λ x. Steps c)
  unfolding drop_pending change_book save
  drop-throws key b e c h =
      let (p, q) = has-some b.pending h in
      Ensures-bind (λ u. Steps c) _ _
        (Ensures-modify _ (λ d w. next w.0 (drops key b p w.1 q refl)))
        λ u.
          Ensures-bind (λ v. Steps c) _ _ (Ensures-modify _ (λ d w. next w (saves refl)))
            λ v. Ensures-throw e (λ d w. w)

  pub not_landed-throws :
      (key : ℕ) (e : Error) (c : Core)
      → Ensures (Steps c) (not_landed env key e) (λ r d. ⊥) (λ x. Steps c)
  unfolding not_landed
  not_landed-throws key e c = Ensures-bind _ _ _ (Ensures-the_book key) λ b.
      Ensures-if _ _ _ (λ h. drop-throws key b e c (ground arith))
        (λ h. Ensures-throw e (λ d w. w.0))
