-- ===== src/Sdk/Runner/Trades.antt =====
-- Trading in sdk/src/runner.ts: what it keeps of the state file and of the hook.
use collateralized_agents.Base.{
  ℕ, false, ◌≡◌, refl, sym, ℤ, ◌∙◌, Option, none, some, List, ◌∷◌, find, ltb,
}
use collateralized_agents.Agent.System.{is_trading}
use collateralized_agents.Sdk.Send.{Answer, got, threw, Sent}
use collateralized_agents.Sdk.Settle.{balance_at_draw}
use collateralized_agents.Sdk.Schedule.{OpenPosition, settle_time}
use collateralized_agents.Sdk.Runner.State.{
  Book, Runner, RunnerOptions, settle_confirmed, Outside, adopted, now, settle_soon, low_balance,
  drew,
}
use collateralized_agents.Sdk.Runner.Calls.{
  Doing, change, act, notify, save, set_state, ◌>>>◌, ◌>>◌, stop_with, attempt, caught,
}
use collateralized_agents.Sdk.Runner.Watch.{read_reserve, balance}
use collateralized_agents.Sdk.Runner.Tick.{
  is_terminal, after_settle, client_settle, send_settle, settle, drop_book, is_due, is_soon, tend,
  tend_found, new_book, adopt, draw, refuse_draw, draw_next, next_now, draw_from, adopt_or_draw,
  look_for_work, trade,
}
use collateralized_agents.Sdk.Runner.Rules.{
  View, view, Reads, ask-Quiet, attempt-Quiet, see-Quiet, notify-Quiet, give-Quiet, if-Quiet,
  then-Quiet, change-Quiet,
}
use collateralized_agents.Sdk.Runner.Quiet.{balance-Reads, stray_tokens-Quiet, warn_stray-Quiet}
use collateralized_agents.Sdk.Runner.Does.{
  After, Does, Keeps, change-Does, reads-Does, quiet-Keeps, if-Does, weaken-Does, bind-Does,
  commit-Does,
}
use collateralized_agents.Sdk.Runner.Hooks.{committed}
use collateralized_agents.Sdk.Runner.Sound.{
  IsSound, Kept, KeptBare, HasPosition, bare-Kept, stop_hook-Kept, start_hook-Kept, reserve-Kept,
}

some_not_none : {A : Type 0} {a : A} → some a ≡ none → ⊥
some_not_none e = cc

module _ (outside : Outside) (opts : RunnerOptions) where
  abbrev Good : View → Type 0
  Good = Kept outside opts false

  abbrev Bare : View → Type 0
  Bare = KeptBare outside opts false

  -- What holds without a hook is enough.
  good : {A : Type 0} {m : Doing A} → Keeps Bare m → Does Bare m (λ a. Good) Good
  good h = weaken-Does _ _ _ _ _ _ _ (λ v p. p) (λ a v p. p.0) (λ v p. p.0) h

  bare : {A : Type 0} {m : Doing A} → Keeps Bare m → Does Bare m (λ a. Bare) Good
  bare h = weaken-Does _ _ _ _ _ _ _ (λ v p. p) (λ a v p. p) (λ v p. p.0) h

  quiet-Bare : {A : Type 0} (m : Doing A) → Reads (λ a. Unit {0}) m → Keeps Bare m
  quiet-Bare m h = quiet-Keeps Bare m h

  balance-Bare : Keeps Bare (balance outside opts)
  balance-Bare =
      weaken-Does _ _ _ _ _ _ _ (λ v p. p) (λ a v p. p.1) (λ v p. p)
        (reads-Does Bare _ _ (balance-Reads outside opts))

  reserve-Bare : Keeps Bare (read_reserve outside opts)
  reserve-Bare =
      weaken-Does _ _ _ _ _ _ _ (λ v p. ((p.0.0, p.1), p.0.1)) (λ a v p. ((p.0.0, p.1), p.0.1))
        (λ v p. ((p.0.0, p.1), p.0.1))
        (reserve-Kept outside opts false (λ v. IsSound false v × (v.hook ≡ none)) (λ n v p. p))

  drop_book-Good : (book : Book) → Keeps Good (drop_book outside opts book)
  unfolding drop_book
  drop_book-Good book =
      bind-Does _ (λ g. Bare) (λ u. Good) _ _ _ (stop_hook-Kept outside opts false book.deadline)
        (λ g. commit-Does _ _ _ _ (λ v p.
          (bare-Kept outside opts false (committed (record v.state { active = none }) v) refl p.1
            p.0.1).0))

  after_settle-Good :
      (book : Book) (amount : ℕ) (sent : Option Sent)
      → Does Bare (after_settle outside opts book amount sent) (λ u. Good) Good
  unfolding after_settle stop_with act notify save change ◌>>>◌
  after_settle-Good book amount none = record { at = λ r p. p.0 }
  after_settle-Good book amount (some sent) = record {
    at = λ r p.
        (bare-Kept outside opts false (view (after_settle outside opts book amount (some sent) r).1)
          refl p.1 p.0.1).0;
  }

  client_settle-Bare :
      (p : OpenPosition) (book : Book) (amount : ℕ)
      → Keeps Bare (attempt (client_settle outside opts p book amount))
  unfolding attempt client_settle act
  client_settle-Bare p book amount = record {
    at = λ r h. caught_bare (client_settle outside opts p book amount r) (sending.at r h);
  }
    where
      sending : Keeps Bare (client_settle outside opts p book amount)
      sending =
          bind-Does _ (λ sent. Bare) (λ sent. Bare) _ _ _ (quiet-Bare _ (ask-Quiet outside _))
            (λ sent.
              bind-Does _ (λ u. Bare) (λ s. Bare) _ _ _
                (change-Does Bare Bare Bare _
                  (λ v. record v { moved = settle_confirmed book.position amount ∷ v.moved })
                  (λ r. refl) (λ v h. h))
                (λ u. quiet-Bare _ (give-Quiet sent)))

      caught_bare :
          (x : Answer Sent × Runner) → After (λ s. Bare) Bare x → After (λ o. Bare) Bare (caught x)
      caught_bare (got a, r) h = h
      caught_bare (threw e, r) h = h

  settle-Good : (p : OpenPosition) (book : Book) → Keeps Good (settle outside opts p book)
  unfolding settle send_settle
  settle-Good p book =
      bind-Does _ (λ g. Bare) (λ u. Good) _ _ _ (stop_hook-Kept outside opts false book.deadline)
        (λ g.
          bind-Does _ (λ held. Bare) (λ u. Good) _ _ _
            (bind-Does _ (λ u. Bare) (λ held. Bare) _ _ _
              (bare (
                quiet-Bare _ (
                  then-Quiet _ _ (attempt-Quiet _ (stray_tokens-Quiet outside opts))
                    (warn_stray-Quiet outside opts))))
              (λ u. bare balance-Bare))
            (λ held.
              bind-Does _ (λ reserve. Bare) (λ u. Good) _ _ _ (bare reserve-Bare)
                (λ reserve.
                  bind-Does _ (λ sent. Bare) (λ u. Good) _ _ _ (bare (client_settle-Bare p book _))
                    (after_settle-Good book _))))

  tend_found-Good :
      (book : Book) (o : Option OpenPosition) → Keeps Good (tend_found outside opts book o)
  unfolding tend_found tend
  tend_found-Good book none = quiet-Keeps Good _ (give-Quiet tt)
  tend_found-Good book (some p) =
      bind-Does _ (λ r. Good) (λ u. Good) _ _ _ (quiet-Keeps Good _ (see-Quiet _))
        (λ r.
          if-Does _ _ _ (is_terminal p.status) _ _ (λ e. drop_book-Good book)
            (λ e.
              if-Does _ _ _ (is_due book r) _ _ (λ d. settle-Good p book)
                (λ d.
                  quiet-Keeps Good _ (
                    if-Quiet (is_soon opts book r) _ _ (notify-Quiet settle_soon)
                      (give-Quiet tt)))))

  pub book-Good : (book : Book) → Keeps Good (trade outside opts (some book))
  unfolding trade
  book-Good book =
      bind-Does _ (λ o. Good) (λ u. Good) _ _ _ (quiet-Keeps Good _ (ask-Quiet outside _))
        (tend_found-Good book)

  adopt-Good : (p : OpenPosition) → Does Bare (adopt outside opts p) (λ u. Good) Good
  unfolding adopt
  adopt-Good p =
      bind-Does _ (λ held. Bare) (λ u. Good) _ _ _ (bare balance-Bare)
        (λ held.
          bind-Does _ (λ t. Bare) (λ u. Good) _ _ _ (bare (quiet-Bare _ (see-Quiet now)))
            (λ t. good (
              bind-Does _ (λ u. Bare) (λ u. Bare) _ _ _
                (commit-Does _ Bare _ _ (λ v h.
                  bare-Kept outside opts false (committed (record v.state { active = some _ }) v)
                    refl h.1 h.0.1))
                (λ u. quiet-Bare _ (notify-Quiet adopted)))))

  draw-Good : (p : OpenPosition) (held : ℕ) → Does Bare (draw outside opts p held) (λ u. Good) Good
  unfolding draw act set_state save change ◌>>>◌
  draw-Good p held =
      bind-Does _ (λ u. Bare) (λ u. Good) _ _ _ (bare (quiet-Bare _ (ask-Quiet outside _)))
        (λ u.
          bind-Does _ (λ t. Bare) (λ u. Good) _ _ _ (bare (quiet-Bare _ (see-Quiet now)))
            (λ t.
              bind-Does _ (λ u v. Bare v × HasPosition outside opts false v) (λ u. Good) _ _ _
                (drawn t) (λ u. start_hook-Kept outside opts false)))
    where
      drawn :
          (t : ℤ)
          → Does Bare
              (act (drew p.public_key)
                >> set_state (λ s. record s {
                  active = some (
                      new_book p
                        (balance_at_draw held p.principal)
                        t
                        (settle_time opts.buffer_secs opts.hold_secs t p.deadline));
                })
                >> save)
              (λ u v. Bare v × HasPosition outside opts false v)
              Good
      drawn t = record {
        at = λ r h. (
          (((refl, h.0.0.1, λ i. h.1), h.0.1), h.1),
          λ w e k i. absurd (some_not_none (sym e ∙ i)),
        );
      }

  draw_next-Good : (o : Option OpenPosition) → Does Bare (draw_next outside opts o) (λ u. Good) Good
  unfolding draw_next refuse_draw
  draw_next-Good none = good (quiet-Bare _ (give-Quiet tt))
  draw_next-Good (some p) =
      bind-Does _ (λ reserve. Bare) (λ u. Good) _ _ _ (bare reserve-Bare)
        (λ reserve.
          bind-Does _ (λ held. Bare) (λ u. Good) _ _ _ (bare balance-Bare)
            (λ held.
              if-Does _ _ _ (ltb held reserve) _ _
                (λ low. good (
                  quiet-Bare _ (
                    then-Quiet _ _ (see-Quiet _) (λ told.
                      then-Quiet _ _ (if-Quiet told _ _ (give-Quiet tt) (notify-Quiet low_balance))
                        (λ u. change-Quiet _ (λ r. refl))))))
                (λ enough.
                  bind-Does _ (λ u. Bare) (λ u. Good) _ _ _
                    (bare (quiet-Bare _ (change-Quiet _ (λ r. refl)))) (λ u. draw-Good p held))))

  pub look_for_work-Good : Does Bare (look_for_work outside opts) (λ u. Good) Good
  unfolding look_for_work adopt_or_draw draw_from
  look_for_work-Good =
      bind-Does _ (λ ps. Bare) (λ u. Good) _ _ _ (bare (quiet-Bare _ (ask-Quiet outside _)))
        (λ ps. found ps (find (λ p. is_trading p.status) ps))
    where
      found :
          (ps : List OpenPosition) (o : Option OpenPosition)
          → Does Bare (adopt_or_draw outside opts ps o) (λ u. Good) Good
      found ps (some p) = adopt-Good p
      found ps none =
          bind-Does _ (λ r. Bare) (λ u. Good) _ _ _ (bare (quiet-Bare _ (see-Quiet _)))
            (λ r.
              if-Does _ _ _ r.unbound _ _ (λ e. good (quiet-Bare _ (give-Quiet tt)))
                (λ e. draw_next-Good (next_now opts ps r)))
