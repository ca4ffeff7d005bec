-- ===== src/Sdk/Runner/Steps.antt =====
-- The trading of sdk/src/runner.ts against the abstract books: settling, dropping, adopting and drawing.
use collateralized_agents.Base.{
  ℕ, ℤ, true, ◌≡◌, refl, sym, ap, subst, Option, none, some, [], ◌∷◌, ◌++◌,
}
use collateralized_agents.Sdk.Send.{Answer, got, threw, Sent}
use collateralized_agents.Sdk.Settle.{returned}
use collateralized_agents.Sdk.Schedule.{OpenPosition}
use collateralized_agents.Sdk.Runner.State.{
  Book, Runner, Settled, RunnerOptions, settle_confirmed, Outside, settle_soon, local_now,
}
use collateralized_agents.Sdk.Runner.Calls.{
  Doing, stop_with, change, act, notify, save, ◌>>>◌, ◌>>◌, attempt, caught,
}
use collateralized_agents.Sdk.Runner.Watch.{or_else, read_reserve, balance}
use collateralized_agents.Sdk.Runner.Hook.{stop_hook}
use collateralized_agents.Sdk.Runner.Tick.{
  is_terminal, stray_tokens, warn_stray, close_book, after_settle, client_settle, send_settle,
  settle, drop_book, is_due, is_soon, tend, tend_found, trade,
}
use collateralized_agents.Sdk.Runner.Rules.{
  View, view, Reads, bind-Reads, ask-Reads, ask-Quiet, attempt-Quiet, see-Quiet, notify-Quiet,
  give-Quiet, if-Quiet, then-Quiet,
}
use collateralized_agents.Sdk.Runner.Quiet.{
  WasTold, balance-Reads, stray_tokens-Quiet, warn_stray-Quiet,
}
use collateralized_agents.Sdk.Runner.Does.{
  After, Does, Keeps, give-Does, change-Does, reads-Does, quiet-Keeps, if-Does, weaken-Does,
  bind-Does, commit-Does,
}
use collateralized_agents.Sdk.Runner.Watched.{IsReserve, Known, read_reserve-Does}
use collateralized_agents.Sdk.Runner.Hooks.{stop_hook-Does}
use collateralized_agents.Sdk.Runner.Books.{Books, books, Step, stays, settles, drops}

module _ (outside : Outside) (opts : RunnerOptions) (b : Books) where
  -- The books are still those of the start.
  abbrev pub Still : View → Type 0
  Still v = (books v ≡ b) × Known outside opts v

  abbrev pub Stepped : View → Type 0
  Stepped v = Step outside opts b (books v) × Known outside opts v

  Still-Stepped : (v : View) → Still v → Stepped v
  Still-Stepped v h = (subst (λ c. Step outside opts b c) (sym h.0) (stays b), h.1)

  abbrev pub Steps : {A : Type 0} → Doing A → Type 0
  Steps m = Does Still m (λ a. Stepped) Stepped

  pub quiet-Steps : {A : Type 0} (m : Doing A) → Reads (λ a. Unit {0}) m → Steps m
  quiet-Steps m h =
      weaken-Does _ _ _ _ _ _ _ (λ v p. p) (λ a v p. Still-Stepped v p) Still-Stepped
        (quiet-Keeps Still m h)

  -- After a call that keeps the books, the rest may step.
  pub then-Steps :
      {A B : Type 0} (Q : A → Type 0) (m : Doing A) (f : A → Doing B)
      → Does Still m (λ a v. Q a × Still v) Still
      → ((a : A) → Q a → Steps (f a))
      → Steps (m >>> f)
  then-Steps Q m f h k =
      bind-Does Still (λ a v. Q a × Still v) (λ x. Stepped) Stepped m f
        (weaken-Does _ _ _ _ _ _ _ (λ v p. p) (λ a v p. p) Still-Stepped h)
        (λ a. record { at = λ r p. (k a p.0).at r p.1 })

  pub kept-Does :
      {A : Type 0} (m : Doing A) → Keeps Still m → Does Still m (λ a v. Unit {0} × Still v) Still
  kept-Does m h = weaken-Does _ _ _ _ _ _ _ (λ v p. p) (λ a v p. (tt, p)) (λ v p. p) h

  stop_hook-Still : (deadline : ℤ) → Keeps Still (stop_hook outside opts deadline)
  stop_hook-Still deadline =
      weaken-Does _ _ _ _ _ _ _ (λ v p. p) (λ a v p. p.0) (λ v p. p)
        (stop_hook-Does outside opts Still (λ v p. p) (λ v e p. p) deadline)

  pub IsReserve-Still :
      Does Still (read_reserve outside opts) (λ n v. IsReserve outside opts n × Still v) Still
  IsReserve-Still =
      read_reserve-Does outside opts Still
        (λ n v r p. (p.0, λ m e. subst (IsReserve outside opts) (ap (λ o. or_else o n) e) r))
        (λ n v p e. p.1 n e)

  module _ (book : Book) (active : b.active ≡ some book) where
    drop_book-Steps :
        (p : OpenPosition) (n : ℕ)
        → outside.position_nullable book.position n ≡ got (some p)
        → is_terminal p.status ≡ true
        → Steps (drop_book outside opts book)
    unfolding drop_book
    drop_book-Steps p n e t =
        then-Steps (λ g. Unit) _ _ (kept-Does _ (stop_hook-Still book.deadline))
          (λ g u. commit-Does Still Stepped Stepped _ (λ v h. (
            subst (λ c. Step outside opts b (record c { active = none })) (sym h.0)
                (drops b book p n active e t),
            h.1,
          )))

    -- The settle is confirmed, and the history not yet written.
    abbrev Confirmed : ℕ → View → Type 0
    Confirmed amount v =
        (books v ≡ record b { moved = settle_confirmed book.position amount ∷ b.moved })
        × Known outside opts v

    abbrev SentOr : ℕ → Option Sent → View → Type 0
    SentOr amount none v = Still v
    SentOr amount (some sent) v = Confirmed amount v

    client_settle-Does :
        (p : OpenPosition) (amount : ℕ)
        → Does Still (client_settle outside opts p book amount) (λ sent. Confirmed amount) Still
    unfolding client_settle act
    client_settle-Does p amount =
        bind-Does Still (λ sent. Still) (λ sent. Confirmed amount) Still _ _
          (quiet-Keeps Still _ (ask-Quiet outside _))
          (λ sent.
            bind-Does Still (λ u. Confirmed amount) (λ s. Confirmed amount) Still _ _
              (change-Does Still (Confirmed amount) Still _
                (λ v. record v { moved = settle_confirmed book.position amount ∷ v.moved })
                (λ r. refl)
                (λ v h. (
                  ap
                      (λ (c : Books). record c {
                        moved = settle_confirmed book.position amount ∷ c.moved;
                      })
                      h.0,
                  h.1,
                )))
              (λ u. give-Does (Confirmed amount) (λ s. Confirmed amount) Still sent (λ v h. h)))

    attempt-Sent :
        (p : OpenPosition) (amount : ℕ)
        → Does Still (attempt (client_settle outside opts p book amount)) (SentOr amount) Still
    unfolding attempt
    attempt-Sent p amount = record {
      at = λ r h.
          caught_as (client_settle outside opts p book amount r)
            ((client_settle-Does p amount).at r h);
    }
      where
        caught_as :
            (x : Answer Sent × Runner)
            → After (λ sent. Confirmed amount) Still x
            → After (SentOr amount) Still (caught x)
        caught_as (got sent, r) h = h
        caught_as (threw e, r) h = h

    after_settle-Steps :
        (amount held reserve : ℕ) (sent : Option Sent)
        → WasTold outside opts held
        → IsReserve outside opts reserve
        → amount ≡ returned book.principal book.balance_at_draw held reserve
        → Does
            (SentOr amount sent)
            (after_settle outside opts book amount sent)
            (λ u. Stepped)
            Stepped
    unfolding after_settle stop_with act notify save change ◌>>>◌ close_book local_now
    after_settle-Steps amount held reserve none t i e = record {
      at = λ r h. Still-Stepped (view r) h;
    }
    after_settle-Steps amount held reserve (some sent) t i e = record {
      at = λ r h.
          let done : Settled = record {
            position = book.position;
            principal = book.principal;
            returned = amount;
            at = local_now r;
          } in
          (
            subst
                (λ c.
                  Step outside opts b
                    (record c { active = none; history = c.history ++ (done ∷ []) }))
                (sym h.0)
                (settles b book done active (record {
                  position = refl;
                  principal = refl;
                  held = held;
                  told = t;
                  reserve = reserve;
                  is_reserve = i;
                  amount = e;
                })),
            h.1,
          );
    }

    settle-Steps : (p : OpenPosition) → Steps (settle outside opts p book)
    unfolding settle send_settle
    settle-Steps p =
        then-Steps (λ g. Unit) _ _ (kept-Does _ (stop_hook-Still book.deadline))
          (λ g u. then-Steps (WasTold outside opts) _ _ (reads-Does Still _ _ held-Reads) (λ held t.
            then-Steps (IsReserve outside opts) _ _ IsReserve-Still (λ reserve i.
              let amount = returned book.principal book.balance_at_draw held reserve in
              bind-Does Still (SentOr amount) (λ u. Stepped) Stepped _ _
                (weaken-Does Still Still (SentOr amount) (SentOr amount) Still Stepped _ (λ v h. h)
                  (λ o v h. h) Still-Stepped (attempt-Sent p amount))
                (λ sent. after_settle-Steps amount held reserve sent t i refl))))
      where
        held-Reads : Reads (WasTold outside opts) (
            attempt (stray_tokens outside opts) >>> warn_stray outside opts >> balance outside opts)
        held-Reads =
            bind-Reads (λ u. Unit) (WasTold outside opts) _ _
              (then-Quiet _ _ (attempt-Quiet _ (stray_tokens-Quiet outside opts))
                (warn_stray-Quiet outside opts))
              (λ u v. balance-Reads outside opts)

    tend-Steps :
        (p : OpenPosition) (n : ℕ)
        → outside.position_nullable book.position n ≡ got (some p)
        → Steps (tend outside opts book p)
    unfolding tend
    tend-Steps p n e =
        then-Steps (λ g. Unit) _ _ (kept-Does _ (quiet-Keeps Still _ (see-Quiet _)))
          (λ r u.
            if-Does Still _ _ (is_terminal p.status) _ _ (λ t. drop_book-Steps p n e t)
              (λ t.
                if-Does Still _ _ (is_due book r) _ _ (λ d. settle-Steps p)
                  (λ d. quiet-Steps _ (
                    if-Quiet (is_soon opts book r) _ _ (notify-Quiet settle_soon)
                      (give-Quiet tt)))))

    pub book-Steps : Steps (trade outside opts (some book))
    unfolding trade tend_found
    book-Steps =
        then-Steps (λ o. (n : ℕ) × (outside.position_nullable book.position n ≡ got o)) _ _
          (reads-Does Still _ _ (ask-Reads outside _)) (λ o h. found o h.0 h.1)
      where
        found :
            (o : Option OpenPosition) (n : ℕ)
            → outside.position_nullable book.position n ≡ got o
            → Steps (tend_found outside opts book o)
        found none n e = quiet-Steps _ (give-Quiet tt)
        found (some p) n e = tend-Steps p n e
