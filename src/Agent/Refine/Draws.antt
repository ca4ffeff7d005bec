-- ===== src/Agent/Refine/Draws.antt =====
-- `maybeDraw`, `adoptOrphan` and `tick` of agent/src/agent.ts as steps of the machine.
use collateralized_agents.Base.{
  ℕ, ℤ, Bool, true, false, ◌&&◌, not, ◌≡◌, refl, sym, subst, Option, none, some, List, [], ◌∷◌,
  lookup, All, inl, inr, if◌then◌else◌, arith,
}
use collateralized_agents.Agent.Config.{AgentConfig}
use collateralized_agents.Agent.State.{Book}
use collateralized_agents.Agent.Schedule.{too_late_to_draw}
use collateralized_agents.Agent.System.{
  Core, Sys, Effect, draw_sent, Act, Position, is_opened, is_trading, trading, pure, put_book, emit,
  Result, ok, err,
}
use collateralized_agents.Agent.System.Ensures.{
  Ensures, Post, Ensures-pure, Ensures-if, Ensures-bind, Ensures-modify, Ensures-gets,
  Ensures-quiet, Ensures-weaken, Ensures-fact, Quiet-call,
}
use collateralized_agents.Agent.Env.{Env}
use collateralized_agents.Agent.Runner.{has, set_status}
use collateralized_agents.Agent.Loop.{
  draw_it, maybe_draw, adopt_orphan, draw_or_adopt, draws, note_price, tick, settle_due,
}
use collateralized_agents.Agent.Protocol.{
  Reads, Among, NoDraw, Offered, Move, Moves, here, next, Runs, notes, saves, asks_draw, adopts,
  trades,
}
use collateralized_agents.Agent.Protocol
use collateralized_agents.Agent.Refine.Rules.{
  now-Ensures, now-Quiet, Runs-now, Runs-Quiet, Runs-pure, Runs-bind, Runs-catch, Runs-if,
  Runs-modify, Runs-save,
}
use collateralized_agents.Agent.Refine.Trades.{IsSized}
use collateralized_agents.Agent.Refine.Offers.{IsLive, Among-All, widen-Moves, Moves-Kept}
use collateralized_agents.Agent.Refine.Ticks.{run_books-Runs}

module _ (env : Env) (cfg : AgentConfig) (may_draw : Position → Type 0) (may_trade : Bool) where
  abbrev Asked : Core → Position → Core → Type 0
  Asked c p d =
      Moves env cfg may_draw may_trade c d
      × ((before : List Effect) × (d.trace ≡ draw_sent p.public_key ∷ before))

  draw_it-Ensures :
      (p : Position) (t : ℤ) (c : Core)
      → may_draw p
      → is_opened p.status ≡ true
      → Reads env t
      → too_late_to_draw t p.deadline ≡ false
      → Ensures
          (Moves env cfg may_draw may_trade c)
          (draw_it env cfg p)
          (λ u. Moves env cfg may_draw may_trade c)
          (λ e. Moves env cfg may_draw may_trade c)
  unfolding draw_it emit put_book set_status
  draw_it-Ensures p t c m o reads early =
      Ensures-bind (λ u. Asked c p) _ _
        (Ensures-modify _ (λ d w. (next w (asks_draw p t m o reads early refl), (d.trace, refl))))
        λ u.
          Ensures-bind (λ v. Asked c p) _ _
            (Ensures-weaken _ _ _ (Ensures-quiet (Quiet-call _)) (λ d w. w) (λ v d w. w)
              (λ e d w. w.0))
            λ v.
              Ensures-bind (λ t'. Asked c p) _ _ (now-Ensures env)
                λ t'.
                  Ensures-bind (λ x. Moves env cfg may_draw may_trade c) _ _
                    (Ensures-modify _ (λ d w. next w.0 (Protocol.draws p t' w.1.0 m w.1.1 refl)))
                    λ x.
                      (Runs-bind (set_status p.public_key trading) _
                          (Runs-modify _ (λ d. trades p m refl)) (λ y. Runs-save)).at
                        c

  maybe_draw-Runs :
      (p : Position)
      → may_draw p
      → is_opened p.status ≡ true
      → Runs env cfg may_draw may_trade (maybe_draw env cfg p)
  unfolding maybe_draw
  maybe_draw-Runs p m o = Runs-now _ λ t reads.
      Runs-if (too_late_to_draw t p.deadline) _ _ (λ h. Runs-pure tt)
        (λ h. record { at = λ c. draw_it-Ensures p t c m o reads h })

  none_of : (o : Option Book) → has o ≡ false → o ≡ none
  none_of none h = refl
  none_of (some b) h = cc

  adopt_orphan-Ensures :
      (p : Position) (c : Core)
      → may_draw p
      → is_trading p.status ≡ true
      → Ensures
          (λ d.
            Moves env cfg may_draw may_trade c d
            × (has (lookup p.public_key d.state.books) ≡ false))
          (adopt_orphan env cfg p)
          (λ u. Moves env cfg may_draw may_trade c)
          (λ e. Moves env cfg may_draw may_trade c)
  unfolding adopt_orphan put_book
  adopt_orphan-Ensures p c m o = Ensures-bind _ _ _ (now-Ensures env) λ t.
      Ensures-bind _ _ _ (now-Ensures env) λ t'.
        Ensures-bind (λ u. Moves env cfg may_draw may_trade c) _ _
          (Ensures-modify _ (λ d w. next w.0 (adopts p t t' m o (none_of _ w.1) refl)))
          λ u. Runs-save.at c

  draw_or_adopt-Runs :
      (p : Position)
      → (IsLive p → may_draw p)
      → Runs env cfg may_draw may_trade (draw_or_adopt env cfg p)
  unfolding draw_or_adopt
  draw_or_adopt-Runs p m = record {
    at = λ c. Ensures-bind _ _ _ (Ensures-gets (λ d. d.state.books)) λ bs.
        Ensures-if (is_opened p.status) _ _
          (λ o.
            Ensures-weaken _ _ _ ((maybe_draw-Runs p (m (inl o)) o).at c) (λ d w. w.0) (λ u d w. w)
              (λ e d w. w))
          λ closed.
            Ensures-if (is_trading p.status && not (has (lookup p.public_key bs))) _ _
              (λ h.
                Ensures-weaken _ _ _
                  (adopt_orphan-Ensures p c (m (inr (ground arith))) (ground arith))
                  (λ d w. (w.0, rw (sym w.1) (ground arith))) (λ u d w. w) (λ e d w. w))
              (λ h. Ensures-pure tt (λ d w. w.0));
  }

  pub draws-Runs :
      (ps : List Position)
      → All (λ q. IsLive q → may_draw q) ps
      → Runs env cfg may_draw may_trade (draws env cfg ps)
  unfolding draws
  draws-Runs [] h = Runs-pure tt
  draws-Runs (p ∷ ps) h =
      Runs-bind _ _ (Runs-catch _ _ (draw_or_adopt-Runs p h.0) (λ e. Runs-pure tt))
        (λ u. draws-Runs ps h.1)

module _ (env : Env) (cfg : AgentConfig) (sized : IsSized cfg.strategy) where
  note_price-Runs : (price : Option ℕ) → Runs env cfg NoDraw true (note_price env price)
  unfolding note_price
  note_price-Runs none = Runs-pure tt
  note_price-Runs (some price) =
      Runs-bind _ _ (Runs-Quiet (now-Quiet env)) (λ t. Runs-modify _ (λ c. notes _ refl))

  module _ (c : Core) (partial : Bool) where
    abbrev May : Position → Type 0
    May = Offered partial c.positions

    abbrev Before : Core → Type 0
    Before d = Moves env cfg NoDraw true c d

    after_books : {d : Core} → Before d → Moves env cfg May true c d
    after_books h = widen-Moves env cfg May true true (λ s m. m) h

    listed : (q : Position) (b : Bool) → b ≡ false → Among c.positions q → Offered b c.positions q
    listed q true h a = cc
    listed q false h a = a

    draws_or_not :
        (ps : List Position)
        → Ensures
            (λ d. Before d × (ps ≡ d.positions))
            (if partial then pure tt else draws env cfg ps)
            (λ u. Moves env cfg May true c)
            (λ e. Moves env cfg May true c)
    draws_or_not ps =
        Ensures-if partial _ _ (λ h. Ensures-pure tt (λ d w. after_books w.0))
          (λ h.
            Ensures-fact {H = All (λ q. IsLive q → May q) ps}
              (λ d w.
                Among-All (λ q. IsLive q → May q) ps
                  (λ q a l.
                    listed q partial h (Moves-Kept w.0 q (subst (λ xs. Among xs q) w.1 a) l)))
              (λ a.
                Ensures-weaken _ _ _ ((draws-Runs env cfg May true ps a).at c)
                  (λ d w. after_books w.0) (λ u d w. w) (λ e d w. w)))

    tick-Ensures :
        (price : Option ℕ)
        → Ensures Before
            (tick env cfg price partial)
            (λ u. Moves env cfg May true c)
            (λ e. Moves env cfg May true c)
    unfolding tick
    tick-Ensures price =
        Ensures-bind (λ u. Before) _ _ (early _ (note_price-Runs price))
          λ u.
            Ensures-bind (λ v. Before) _ _
              (early _ (run_books-Runs env cfg sized NoDraw price false))
              λ v. Ensures-bind _ _ _ (Ensures-gets (λ d. d.positions)) draws_or_not
      where
        early :
            (m : Act (Unit {0}))
            → Runs env cfg NoDraw true m
            → Ensures Before m (λ u. Before) (λ e. Moves env cfg May true c)
        early m h = Ensures-weaken _ _ _ (h.at c) (λ d w. w) (λ u d w. w) (λ e d w. after_books w)

  Post-Moves :
      (may_draw : Position → Type 0) (may_trade : Bool) (c : Core) (r : Result (Unit {0}))
      (d : Core)
      → Post (λ u. Moves env cfg may_draw may_trade c) (λ e. Moves env cfg may_draw may_trade c) r d
      → Moves env cfg may_draw may_trade c d
  Post-Moves may_draw may_trade c (ok u) d h = h
  Post-Moves may_draw may_trade c (err e) d h = h

  -- A tick of an agent whose strategy sizes its swaps within a book makes steps of the machine only,
  -- whether it returns or throws. It draws and adopts only positions of its list, and after a partial
  -- scan none.
  pub tick-Moves :
      (price : Option ℕ) (partial : Bool) (s : Sys)
      → Moves env cfg
          (Offered partial s.core.positions)
          true
          s.core
          (tick env cfg price partial s).1.core
  tick-Moves price partial s =
      Post-Moves (Offered partial s.core.positions) true s.core _ _
        ((tick-Ensures s.core partial price).at s here)

  -- The settle pass makes steps of the machine only; it neither draws nor adopts, and sells nothing
  -- but USDC.
  pub settle_due-Moves : (s : Sys) → Moves env cfg NoDraw false s.core (settle_due env cfg s).1.core
  unfolding settle_due
  settle_due-Moves s =
      Post-Moves NoDraw false s.core _ _
        (((run_books-Runs env cfg sized NoDraw none true).at s.core).at s here)
