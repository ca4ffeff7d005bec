-- ===== src/Sdk/Runner/Opens.antt =====
-- The runner of sdk/src/runner.ts without a book, against the abstract books: adopting and drawing; and
-- its trading as a whole.
use collateralized_agents.Base.{
  ℕ, ℤ, pos, Bool, true, false, ◌≡◌, refl, sym, ap, ◌∙◌, subst, Option, none, some, List, [], ◌∷◌,
  find, ltb, if◌then◌else◌,
}
use collateralized_agents.Agent.System.{is_trading}
use collateralized_agents.Sdk.Settle.{balance_at_draw}
use collateralized_agents.Sdk.Schedule.{OpenPosition, settle_time, resume_until, next_to_draw}
use collateralized_agents.Sdk.Runner.State.{
  Book, ChildProcess, RunnerOptions, drew, Outside, now, adopted, low_balance,
}
use collateralized_agents.Sdk.Runner.Calls.{see, change, act, save, set_state, ◌>>>◌, ◌>>◌}
use collateralized_agents.Sdk.Runner.Hook.{start_hook}
use collateralized_agents.Sdk.Runner.Tick.{
  new_book, adopt, draw, refuse_draw, draw_next, next_now, draw_from, adopt_or_draw, look_for_work,
  trade,
}
use collateralized_agents.Sdk.Runner.Rules.{
  View, Reads, ask-Quiet, see-Quiet, notify-Quiet, give-Quiet, if-Quiet, then-Quiet, change-Quiet,
}
use collateralized_agents.Sdk.Runner.Quiet.{WasTold, balance-Reads}
use collateralized_agents.Sdk.Runner.Does.{
  Keeps, reads-Does, quiet-Keeps, if-Does, bind-Does, commit-Does,
}
use collateralized_agents.Sdk.Runner.Watched.{IsReserve}
use collateralized_agents.Sdk.Runner.Hooks.{start_hook-Does, hooked_by}
use collateralized_agents.Sdk.Runner.Books.{Books, Draws, Step, draws, adopts}
use collateralized_agents.Sdk.Runner.Steps.{
  Stepped, Steps, quiet-Steps, then-Steps, kept-Does, IsReserve-Still, book-Steps,
}

abbrev or_this : {A : Type 0} → A → Option A → A
or_this a none = a
or_this a (some x) = x

-- What `find` gives passes the test.
find-found : {A : Type 0} (f : A → Bool) (xs : List A) (x : A) → find f xs ≡ some x → f x ≡ true
find-found f [] x e = cc
find-found f (y ∷ ys) x e = by_test (f y) (λ k. find-found f ys x k) refl e
  where
    by_test :
        (t : Bool)
        → (find f ys ≡ some x → f x ≡ true)
        → f y ≡ t
        → (if t then some y else find f ys) ≡ some x
        → f x ≡ true
    by_test true go h k = ap f (ap (or_this y) (sym k)) ∙ h
    by_test false go h k = go k

module _ (outside : Outside) (opts : RunnerOptions) (b : Books) (idle : b.active ≡ none) where
  start_hook-Stepped : Keeps (Stepped outside opts b) (start_hook outside opts)
  start_hook-Stepped = start_hook-Does outside opts _ _ _ (λ v p. p) (λ h v p. on_pid h h.pid v p)
    where
      on_pid :
          (h : ChildProcess) (pid : Option ℕ) (v : View)
          → Stepped outside opts b v
          → Stepped outside opts b (hooked_by h pid v)
      on_pid h none v p = p
      on_pid h (some pid) v p = p

  adopt-Steps :
      (p : OpenPosition) → is_trading p.status ≡ true → Steps outside opts b (adopt outside opts p)
  unfolding adopt
  adopt-Steps p e =
      then-Steps outside opts b (WasTold outside opts) _ _
        (reads-Does _ _ _ (balance-Reads outside opts))
        (λ held t.
          then-Steps outside opts b (λ g. Unit) _ _
            (kept-Does outside opts b _ (quiet-Keeps _ _ (see-Quiet now)))
            (λ at u.
              bind-Does _ (λ u. Stepped outside opts b) (λ u. Stepped outside opts b) _ _ _
                (commit-Does _ (Stepped outside opts b) _ _ (λ v h. (
                  subst
                      (λ c. Step outside opts b (record c {
                        active = some (
                            new_book p (pos held) p.drawn_at (
                              resume_until opts.buffer_secs opts.hold_secs p.drawn_at p.deadline
                                at));
                      }))
                      (sym h.0) (adopts b p held at idle e t),
                  h.1,
                )))
                (λ u. quiet-Keeps (Stepped outside opts b) _ (notify-Quiet adopted))))

  draw-Steps :
      (p : OpenPosition) (held : ℕ)
      → b.unbound ≡ false
      → Draws outside opts p held
      → Steps outside opts b (draw outside opts p held)
  unfolding draw act set_state save change ◌>>>◌
  draw-Steps p held bound d =
      then-Steps outside opts b (λ g. Unit) _ _
        (kept-Does outside opts b _ (quiet-Keeps _ _ (ask-Quiet outside _)))
        (λ u v.
          then-Steps outside opts b (λ g. Unit) _ _
            (kept-Does outside opts b _ (quiet-Keeps _ _ (see-Quiet now)))
            (λ at u.
              bind-Does _ (λ u. Stepped outside opts b) (λ u. Stepped outside opts b) _ _ _
                (drawn at) (λ u. start_hook-Stepped)))
    where
      drawn :
          (at : ℤ)
          → Steps outside opts b (
              act (drew p.public_key)
              >> set_state (λ s. record s {
                active = some (
                    new_book p
                      (balance_at_draw held p.principal)
                      at
                      (settle_time opts.buffer_secs opts.hold_secs at p.deadline));
              })
              >> save)
      drawn at = record {
        at = λ r h. (
          subst
              (λ c. Step outside opts b (record c {
                active = some (
                    new_book p (balance_at_draw held p.principal) at
                      (settle_time opts.buffer_secs opts.hold_secs at p.deadline));
                moved = drew p.public_key ∷ c.moved;
              }))
              (sym h.0) (draws b p held at idle bound d),
          h.1,
        );
      }

  refuse_draw-Quiet : Reads (λ a. Unit {0}) (refuse_draw outside opts)
  unfolding refuse_draw
  refuse_draw-Quiet = then-Quiet _ _ (see-Quiet _) (λ told.
      then-Quiet _ _ (if-Quiet told _ _ (give-Quiet tt) (notify-Quiet low_balance))
        (λ u. change-Quiet _ (λ r. refl)))

  draw_next-Steps :
      (ps : List OpenPosition) (at : ℤ)
      → b.unbound ≡ false
      → (o : Option OpenPosition) → next_to_draw opts.buffer_secs (λ n. at) ps ≡ o
      → Steps outside opts b (draw_next outside opts o)
  unfolding draw_next
  draw_next-Steps ps at bound none e = quiet-Steps outside opts b _ (give-Quiet tt)
  draw_next-Steps ps at bound (some p) e =
      then-Steps outside opts b (IsReserve outside opts) _ _ (IsReserve-Still outside opts b)
        (λ reserve i.
          then-Steps outside opts b (WasTold outside opts) _ _
            (reads-Does _ _ _ (balance-Reads outside opts))
            (λ held t.
              if-Does _ _ _ (ltb held reserve) _ _
                (λ low. quiet-Steps outside opts b _ refuse_draw-Quiet)
                (λ enough.
                  then-Steps outside opts b (λ g. Unit) _ _
                    (kept-Does outside opts b _ (quiet-Keeps _ _ (change-Quiet _ (λ r. refl))))
                    (λ u v. draw-Steps p held bound (record {
                      offered = ps;
                      looked_at = at;
                      is_next = e;
                      told = t;
                      reserve = reserve;
                      is_reserve = i;
                      is_enough = enough;
                    })))))

  draw_from-Steps : (ps : List OpenPosition) → Steps outside opts b (draw_from outside opts ps)
  unfolding draw_from next_now see ◌>>>◌
  draw_from-Steps ps = record {
    at = λ r h.
        (if-Does _ (λ u. Stepped outside opts b) _ r.unbound _ _
            (λ e. quiet-Steps outside opts b _ (give-Quiet tt))
            (λ e.
              draw_next-Steps ps (now r) (ap (λ (c : Books). c.unbound) (sym h.0) ∙ e)
                (next_now opts ps r) refl)).at
          r h;
  }

  look_for_work-Steps : Steps outside opts b (look_for_work outside opts)
  unfolding look_for_work adopt_or_draw
  look_for_work-Steps =
      then-Steps outside opts b (λ ps. Unit) _ _
        (kept-Does outside opts b _ (quiet-Keeps _ _ (ask-Quiet outside _)))
        (λ ps u. found ps (find (λ p. is_trading p.status) ps) refl)
    where
      found :
          (ps : List OpenPosition) (o : Option OpenPosition)
          → find (λ p. is_trading p.status) ps ≡ o
          → Steps outside opts b (adopt_or_draw outside opts ps o)
      found ps none e = draw_from-Steps ps
      found ps (some p) e = adopt-Steps p (find-found (λ q. is_trading q.status) ps p e)

-- Trading takes the books one step, whether or not there is a book.
pub trade-Steps :
    (outside : Outside) (opts : RunnerOptions) (b : Books)
    → Steps outside opts b (trade outside opts b.active)
unfolding trade
trade-Steps outside opts b = by_book b.active refl
  where
    by_book : (o : Option Book) → b.active ≡ o → Steps outside opts b (trade outside opts o)
    by_book none e = look_for_work-Steps outside opts b e
    by_book (some book) e = book-Steps outside opts b book e
