-- ===== src/Sdk/Runner/SoundRounds.antt =====
-- The loop of the runner in sdk/src/runner.ts: what it keeps of the state file and of the hook.
use collateralized_agents.Base.{
  Bool, true, false, ℕ, pos, ◌≡◌, refl, sym, ◌∙◌, Option, none, some, if◌then◌else◌,
}
use collateralized_agents.Sdk.Schedule.{OpenPosition, settle_time}
use collateralized_agents.Sdk.Runner.State.{Book, Runner, RunnerOptions, Outside, now}
use collateralized_agents.Sdk.Runner.Calls.{Doing, see, ◌>>>◌}
use collateralized_agents.Sdk.Runner.Tick.{new_book, trade}
use collateralized_agents.Sdk.Runner.Rules.{View, view, Reads, ask-Quiet, see-Quiet}
use collateralized_agents.Sdk.Runner.Does.{
  After, Does, Keeps, quiet-Keeps, give-Does, if-Does, weaken-Does, bind-Does, change-Does,
}
use collateralized_agents.Sdk.Runner.Sound.{
  HookIsOwned, IsSound, Kept, KeptBare, HasPosition, bare-Kept, stop_hook-Kept, start_hook-Kept,
  reap-Kept,
}
use collateralized_agents.Sdk.Runner.Loop.{
  paper_close, paper_open, paper_look, paper_trade, work, tick, rounds,
}
use collateralized_agents.Sdk.Runner.Quiet.{refresh_clock-Quiet}
use collateralized_agents.Sdk.Runner.Watched.{refresh_agent-Keeps}
use collateralized_agents.Sdk.Runner.Trades.{book-Good, look_for_work-Good}
use collateralized_agents.Sdk.Runner.Rounds.{rounds-Keeps, kept_by}

some_not_none : {A : Type 0} {a : A} → some a ≡ none → ⊥
some_not_none e = cc

rebound :
    (paper : Bool) (w : Bool) (v : View)
    → HookIsOwned paper v
    → HookIsOwned paper (record v { unbound = w })
rebound true w v h = h
rebound false w v h = h

module _ (outside : Outside) (opts : RunnerOptions) where
  abbrev Paper : View → Type 0
  Paper = Kept outside opts true

  abbrev Bare : View → Type 0
  Bare = KeptBare outside opts true

  paper_close-Paper : (book : Book) → Keeps Paper (paper_close outside opts book)
  unfolding paper_close
  paper_close-Paper book =
      bind-Does _ (λ due. Paper) (λ u. Paper) _ _ _ (quiet-Keeps Paper _ (see-Quiet _))
        (λ due.
          if-Does _ _ _ due _ _
            (λ e.
              bind-Does _ (λ g. Bare) (λ u. Paper) _ _ _
                (stop_hook-Kept outside opts true book.deadline)
                (λ g.
                  change-Does _ _ _ _ (λ v. record v { paper_book = none }) (λ r. refl)
                    (λ v p.
                      (bare-Kept outside opts true (record v { paper_book = none }) p.0.0.0 p.1
                        p.0.1).0)))
            (λ e. give-Does _ _ _ tt (λ v p. p)))

  paper_open-Paper :
      (o : Option OpenPosition) → Does Bare (paper_open outside opts o) (λ u. Paper) Paper
  unfolding paper_open
  paper_open-Paper none = give-Does _ _ _ tt (λ v p. p.0)
  paper_open-Paper (some p) =
      bind-Does _ (λ t. Bare) (λ u. Paper) _ _ _
        (weaken-Does _ _ _ _ _ _ _ (λ v h. h) (λ a v h. h) (λ v h. h.0)
          (quiet-Keeps Bare _ (see-Quiet now)))
        (λ t.
          bind-Does _ (λ u v. Bare v × HasPosition outside opts true v) (λ u. Paper) _ _ _
            (change-Does _ _ _ _
              (λ v. record v {
                paper_book = some (
                    new_book p (pos 0) t
                      (settle_time opts.buffer_secs opts.hold_secs t p.deadline));
              })
              (λ r. refl)
              (λ v h. (
                (((h.0.0.0, h.0.0.1, λ i. h.1), h.0.1), h.1),
                λ w e k i. absurd (some_not_none (sym k ∙ i)),
              )))
            (λ u. start_hook-Kept outside opts true))

  paper_look-Paper : Does Bare (paper_look outside opts) (λ u. Paper) Paper
  unfolding paper_look
  paper_look-Paper =
      bind-Does _ (λ ps. Bare) (λ u. Paper) _ _ _ (paper_quiet _ (ask-Quiet outside _))
        (λ ps.
          bind-Does _ (λ r. Bare) (λ u. Paper) _ _ _ (paper_quiet _ (see-Quiet _))
            (λ r. paper_open-Paper _))
    where
      paper_quiet :
          {A : Type 0} (m : Doing A) → Reads (λ a. Unit {0}) m → Does Bare m (λ a. Bare) Paper
      paper_quiet m h =
          weaken-Does _ _ _ _ _ _ _ (λ v p. p) (λ a v p. p) (λ v p. p.0) (quiet-Keeps Bare m h)

  -- The work of a tick, in either mode, from a state that is sound in that mode.
  work-Kept :
      (paper : Bool) (r : Runner)
      → Kept outside opts paper (view r)
      → After
          (λ u. Kept outside opts paper)
          (Kept outside opts paper)
          ((if paper
              then paper_trade outside opts r.paper_book
              else trade outside opts r.state.active)
            r)
  unfolding paper_trade trade
  work-Kept true r h = by_book r.paper_book refl
    where
      by_book :
          (o : Option Book)
          → r.paper_book ≡ o
          → After (λ u. Paper) Paper (paper_trade outside opts o r)
      by_book none e = paper_look-Paper.at r (h, h.0.2 e)
      by_book (some book) e = (paper_close-Paper book).at r h
  work-Kept false r h = by_book r.state.active refl
    where
      by_book :
          (o : Option Book)
          → r.state.active ≡ o
          → After (λ u. Kept outside opts false) (Kept outside opts false) (trade outside opts o r)
      by_book none e = (look_for_work-Good outside opts).at r (h, h.0.2 e)
      by_book (some book) e = (book-Good outside opts book).at r h

  tick-Kept : Keeps (Kept outside opts opts.paper) (tick outside opts)
  unfolding tick work see ◌>>>◌
  tick-Kept =
      bind-Does _ (λ u. Now) (λ u. Now) _ _ _
        (bind-Does _ (λ u. Now) (λ u. Now) _ _ _
          (bind-Does _ (λ u. Now) (λ u. Now) _ _ _
            (quiet-Keeps Now _ (refresh_clock-Quiet outside opts))
            (λ u. reap-Kept outside opts opts.paper))
          (λ u.
            refresh_agent-Keeps outside opts Now
              (λ w v t p. ((p.0.0, p.0.1, rebound opts.paper w v p.0.2), p.1))))
        (λ u. record { at = λ r h. work-Kept opts.paper r h })
    where
      Now : View → Type 0
      Now = Kept outside opts opts.paper

  -- After any number of rounds, errors included, the state file holds the runner's state, the process
  -- group of a hook at hand is in it, and there is no hook without a position, when that is so at the start
  -- and the reserve has not been read. In paper mode the position is the would-be one.
  pub rounds-IsSound :
      (n : ℕ) (r : Runner)
      → r.reserve ≡ none
      → IsSound opts.paper (view r)
      → IsSound opts.paper (view (rounds outside opts n r).1)
  rounds-IsSound n r e h =
      (kept_by (Kept outside opts opts.paper) _ r (rounds-Keeps outside opts _ tick-Kept n)
        (h, λ m k. absurd cc)).0
