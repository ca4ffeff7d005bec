-- ===== src/Sdk/Runner/Ticks.antt =====
-- A tick of the runner of sdk/src/runner.ts, and its loop, against the abstract books.
use collateralized_agents.Base.{
  ℕ, pos, Bool, true, ◌≡◌, refl, sym, ap, subst, ◌⊎◌, inr, Option, none, some,
}
use collateralized_agents.Sdk.Schedule.{OpenPosition, settle_time}
use collateralized_agents.Sdk.Runner.State.{Book, ChildProcess, Runner, RunnerOptions, Outside, now}
use collateralized_agents.Sdk.Runner.Calls.{Doing, see, ◌>>>◌, ◌>>◌}
use collateralized_agents.Sdk.Runner.Watch.{refresh_clock, refresh_agent}
use collateralized_agents.Sdk.Runner.Hook.{start_hook, reap_orphan_hook}
use collateralized_agents.Sdk.Runner.Tick.{new_book}
use collateralized_agents.Sdk.Runner.Loop.{
  paper_close, paper_open, paper_look, paper_trade, work, tick,
}
use collateralized_agents.Sdk.Runner.Rules.{View, view, Reads, ask-Quiet, see-Quiet}
use collateralized_agents.Sdk.Runner.Quiet.{refresh_clock-Quiet}
use collateralized_agents.Sdk.Runner.Does.{
  After, Does, Keeps, quiet-Keeps, give-Does, if-Does, weaken-Does, bind-Does, change-Does,
}
use collateralized_agents.Sdk.Runner.Watched.{Known, ToldUnbound, refresh_agent-Keeps}
use collateralized_agents.Sdk.Runner.Hooks.{
  stop_hook-Does, start_hook-Does, reap_orphan_hook-Keeps, hooked_by,
}
use collateralized_agents.Sdk.Runner.Books.{Books, books, Step, stays}
use collateralized_agents.Sdk.Runner.Steps.{Stepped}
use collateralized_agents.Sdk.Runner.Opens.{trade-Steps}

abbrev pub bound_as : Bool → Books → Books
bound_as u b = record b { unbound = u }

-- A binding: what it was, or what an answer about the agent says.
abbrev pub Binding : Outside → RunnerOptions → Books → Bool → Type 0
Binding outside opts b u = (u ≡ b.unbound) ⊎ ToldUnbound outside opts u

module _ (outside : Outside) (opts : RunnerOptions) (b : Books) where
  -- The books of the start, with a binding that was read since.
  abbrev pub Rebound : View → Type 0
  Rebound v =
      ((u : Bool) × (books v ≡ bound_as u b) × Binding outside opts b u) × Known outside opts v

  -- One step from the books of the start, with a binding that was read since.
  abbrev pub Ticked : View → Type 0
  Ticked v =
      ((u : Bool) × Step outside opts (bound_as u b) (books v) × Binding outside opts b u)
      × Known outside opts v

  Rebound-Ticked : (v : View) → Rebound v → Ticked v
  Rebound-Ticked v h = (
    (
      h.0.0,
      subst (Step outside opts (bound_as h.0.0 b)) (sym h.0.1) (stays (bound_as h.0.0 b)),
      h.0.2,
    ),
    h.1,
  )

  keep-Rebound : {A : Type 0} (m : Doing A) → Reads (λ a. Unit {0}) m → Keeps Rebound m
  keep-Rebound m h = quiet-Keeps Rebound m h

  prepare-Rebound :
      Keeps Rebound
        (refresh_clock outside opts >> reap_orphan_hook outside opts >> refresh_agent outside opts)
  prepare-Rebound =
      bind-Does _ (λ u. Rebound) (λ u. Rebound) _ _ _
        (bind-Does _ (λ u. Rebound) (λ u. Rebound) _ _ _
          (keep-Rebound _ (refresh_clock-Quiet outside opts))
          (λ u. reap_orphan_hook-Keeps outside opts Rebound (λ v p. p) (λ v e p. p)))
        (λ u.
          refresh_agent-Keeps outside opts Rebound
            (λ w v t p. ((w, ap (bound_as w) p.0.1, inr t), p.1)))

  start_hook-Rebound : Keeps Rebound (start_hook outside opts)
  start_hook-Rebound =
      start_hook-Does outside opts Rebound Rebound Rebound (λ v p. p) (λ h v p. on_pid h h.pid v p)
    where
      on_pid :
          (h : ChildProcess) (pid : Option ℕ) (v : View) → Rebound v → Rebound (hooked_by h pid v)
      on_pid h none v p = p
      on_pid h (some pid) v p = p

  paper_close-Rebound : (book : Book) → Keeps Rebound (paper_close outside opts book)
  unfolding paper_close
  paper_close-Rebound book =
      bind-Does _ (λ u. Rebound) (λ u. Rebound) _ _ _ (keep-Rebound _ (see-Quiet _))
        (λ due.
          if-Does _ _ _ due _ _
            (λ e.
              bind-Does _ (λ u. Rebound) (λ u. Rebound) _ _ _
                (weaken-Does _ _ _ _ _ _ _ (λ v p. p) (λ a v p. p.0) (λ v p. p)
                  (stop_hook-Does outside opts Rebound (λ v p. p) (λ v e p. p) book.deadline))
                (λ u.
                  change-Does _ _ _ _ (λ v. record v { paper_book = none }) (λ r. refl) (λ v p. p)))
            (λ e. give-Does _ _ _ tt (λ v p. p)))

  paper_open-Rebound : (o : Option OpenPosition) → Keeps Rebound (paper_open outside opts o)
  unfolding paper_open
  paper_open-Rebound none = give-Does _ _ _ tt (λ v p. p)
  paper_open-Rebound (some p) =
      bind-Does _ (λ u. Rebound) (λ u. Rebound) _ _ _ (keep-Rebound _ (see-Quiet now))
        (λ t.
          bind-Does _ (λ u. Rebound) (λ u. Rebound) _ _ _
            (change-Does _ _ _ _
              (λ v. record v {
                paper_book = some (
                    new_book p (pos 0) t
                      (settle_time opts.buffer_secs opts.hold_secs t p.deadline));
              })
              (λ r. refl) (λ v h. h))
            (λ u. start_hook-Rebound))

  paper_trade-Rebound : (o : Option Book) → Keeps Rebound (paper_trade outside opts o)
  unfolding paper_trade paper_look
  paper_trade-Rebound (some book) = paper_close-Rebound book
  paper_trade-Rebound none =
      bind-Does _ (λ u. Rebound) (λ u. Rebound) _ _ _ (keep-Rebound _ (ask-Quiet outside _))
        (λ ps.
          bind-Does _ (λ u. Rebound) (λ u. Rebound) _ _ _ (keep-Rebound _ (see-Quiet _))
            (λ r. paper_open-Rebound _))

  pub paper_tick-Rebound : opts.paper ≡ true → Keeps Rebound (tick outside opts)
  unfolding tick work
  paper_tick-Rebound e =
      bind-Does _ (λ u. Rebound) (λ u. Rebound) _ _ _ prepare-Rebound
        (λ u.
          bind-Does _ (λ r. Rebound) (λ u. Rebound) _ _ _ (keep-Rebound _ (see-Quiet _))
            (λ r.
              if-Does _ _ _ opts.paper _ _ (λ p. paper_trade-Rebound r.paper_book)
                (λ p. absurd cc)))

  work-Ticked : (r : Runner) → Rebound (view r) → After (λ u. Ticked) Ticked (work outside opts r r)
  unfolding work
  work-Ticked r h =
      (if-Does _ (λ u. Ticked) Ticked opts.paper _ _
          (λ p.
            weaken-Does _ (λ v. (v ≡ view r) × Rebound v) _ _ _ _ _ (λ v k. k.1)
              (λ a v k. Rebound-Ticked v k) Rebound-Ticked (paper_trade-Rebound r.paper_book))
          (λ p.
            weaken-Does _ _ _ _ _ _ _ (λ v k. (ap books k.0, k.1.1)) (λ a v k. from_books v k)
              from_books (trade-Steps outside opts (books (view r))))).at
        r (refl, h)
    where
      from_books : (v : View) → Stepped outside opts (books (view r)) v → Ticked v
      from_books v k = ((h.0.0, subst (λ c. Step outside opts c (books v)) h.0.1 k.0, h.0.2), k.1)

  pub tick-Ticked : Does Rebound (tick outside opts) (λ u. Ticked) Ticked
  unfolding tick see ◌>>>◌
  tick-Ticked =
      bind-Does _ (λ u. Rebound) (λ u. Ticked) _ _ _
        (weaken-Does _ _ _ _ _ _ _ (λ v p. p) (λ a v p. p) Rebound-Ticked prepare-Rebound)
        (λ u. working)
    where
      working : Does Rebound (see (λ r. r) >>> work outside opts) (λ u. Ticked) Ticked
      working = record { at = λ r h. work-Ticked r h }
