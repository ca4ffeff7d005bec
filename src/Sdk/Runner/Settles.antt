-- ===== src/Sdk/Runner/Settles.antt =====
-- How the runner of sdk/src/runner.ts goes on when a position is due.
use collateralized_agents.Base.{
  ℕ, ◌+◌, ◌/◌, ◌≤◌, ℤ, pos, ◌+ℤ◌, ◌-ℤ◌, ◌≤ℤ◌, leb_ℤ, le→leb, +ℤ_parts, -ℤ_parts, Bool, true, false,
  ◌||◌, ◌≡◌, refl, sym, ap, subst, Option, none, some, List, ◌∷◌, if◌then◌else◌, arith,
}
use collateralized_agents.Sdk.Send.{got, Sent}
use collateralized_agents.Sdk.Schedule.{OpenPosition}
use collateralized_agents.Sdk.Runner.State.{
  Book, Runner, RunnerOptions, Outside, Act, settle_confirmed, notified, settled_notice, local_now,
  now, Fired, nothing, hook_gone, asked_to_stop,
}
use collateralized_agents.Sdk.Runner.Calls.{
  give, see, change, act, notify, save, ◌>>>◌, pass, ask, on_fired, stop, elapse,
}
use collateralized_agents.Sdk.Runner.Watch.{reserve_from, read_reserve, balance}
use collateralized_agents.Sdk.Runner.Tick.{
  is_terminal, warn_stray, close_book, after_settle, client_settle, send_settle, settle, is_due,
  tend, tend_found, trade,
}
use collateralized_agents.Sdk.Runner.Waits.{clock-elapse}
use collateralized_agents.Sdk.Runner.Sure.{
  IsGot, Answers, Sure, Always, give-Sure, see-Sure, ask-Sure, if-Sure, attempt-Sure,
  attempt-Answers, change-Sure, act-Sure, bind-Answers, then-Answers, then-Sure, stop_hook-Sure,
}

skew-on_fired : (f : Fired) (r : Runner) → (on_fired f r).skew ≡ r.skew
unfolding on_fired stop
skew-on_fired nothing r = refl
skew-on_fired (hook_gone n) r = refl
skew-on_fired asked_to_stop r = refl

skew-elapse : (outside : Outside) (n : ℕ) (r : Runner) → (elapse outside n r).skew ≡ r.skew
unfolding elapse
skew-elapse outside n r = skew-on_fired (outside.fired r.calls) _

div_mono : (a b : ℕ) → a / 1000 ≤ (a + b) / 1000
div_mono a b = omega arith

due_from : (a b : ℕ) (k s : ℤ) → a ≤ b → s ≤ℤ pos a +ℤ k → leb_ℤ (s -ℤ (pos b +ℤ k)) (pos 0) ≡ true
due_from a b k s h g =
    le→leb _ _
      (omega (arith, h, g, +ℤ_parts (pos a) k, +ℤ_parts (pos b) k, -ℤ_parts s (pos b +ℤ k)))

or_left : (a b : Bool) → a ≡ true → (a || b) ≡ true
or_left true b e = refl
or_left false b e = cc

-- What is due stays due while a call is waited for.
due_later :
    (outside : Outside) (book : Book) (n : ℕ) (r : Runner)
    → book.settle_at ≤ℤ now r
    → is_due book (elapse outside n r) ≡ true
unfolding is_due now local_now
due_later outside book n r h = or_left _ _ (
    subst (λ (t : ℕ × ℤ). leb_ℤ (book.settle_at -ℤ (pos t.0 +ℤ t.1)) (pos 0) ≡ true) (sym same)
      (due_from (r.clock_ms / 1000) ((r.clock_ms + (n + outside.took r.calls)) / 1000) r.skew
        book.settle_at (div_mono r.clock_ms _) h))
  where
    same :
        ◌≡◌ {A = ℕ × ℤ}
          ((elapse outside n r).clock_ms / 1000, (elapse outside n r).skew)
          ((r.clock_ms + (n + outside.took r.calls)) / 1000, r.skew)
    same = rw (clock-elapse outside n r, skew-elapse outside n r)

chosen :
    {A : Type 0} (R : A → Type 0) (t d : Bool) (x y z : A)
    → t ≡ false
    → d ≡ true
    → R y
    → R (if t then x else (if d then y else z))
chosen R true d x y z e f h = cc
chosen R false true x y z e f h = h
chosen R false false x y z e f h = cc

module _ (outside : Outside) (opts : RunnerOptions)
    (balances : (slot : Option ℕ) → Always (outside.wallet_balance opts.trading_key slot))
    (rents : Always outside.rent_exemption)
    (settles : (p amount : ℕ) (fee : ℤ → ℕ) → Always (outside.settle p amount fee)) where
  -- The book is closed, and the last thing done was a settle of its position that was confirmed.
  abbrev pub IsSettled : Book → Runner → Type 0
  IsSettled book r =
      (r.state.active ≡ none)
      × ((amount : ℕ) × (before : List Act) × (r.acts
            ≡ notified settled_notice ∷ settle_confirmed book.position amount ∷ before))

  read_reserve-Sure : Sure (read_reserve outside opts)
  unfolding read_reserve reserve_from
  read_reserve-Sure = then-Sure _ _ (see-Sure _) from
    where
      from : (o : Option ℕ) → Sure (reserve_from outside opts o)
      from (some v) = give-Sure v
      from none =
          then-Sure _ _ (ask-Sure outside _ rents)
            (λ rent. then-Sure _ _ (change-Sure _) (λ u. give-Sure _))

  abbrev WasConfirmed : Book → ℕ → Runner → Type 0
  WasConfirmed book amount r =
      (before : List Act) × (r.acts ≡ settle_confirmed book.position amount ∷ before)

  client_settle-Answers :
      (p : OpenPosition) (book : Book) (amount : ℕ)
      → Answers (λ s. WasConfirmed book amount) (client_settle outside opts p book amount)
  unfolding client_settle act change give ◌>>>◌
  client_settle-Answers p book amount =
      then-Answers (λ s. WasConfirmed book amount) _ _
        (ask-Sure outside _ (settles p.public_key _ _))
        (λ sent. record { at = λ r. (r.acts, refl) })

  settle-Answers :
      (p : OpenPosition) (book : Book) → Answers (λ u. IsSettled book) (settle outside opts p book)
  unfolding settle send_settle balance warn_stray notify after_settle act change save ◌>>>◌
      close_book
  settle-Answers p book =
      then-Answers (λ u. IsSettled book) _ _ (stop_hook-Sure outside opts book.deadline)
        (λ g.
          then-Answers (λ u. IsSettled book) _ _
            (then-Sure _ _ (then-Sure _ _ (attempt-Sure _) warned)
              (λ u. then-Sure _ _ (see-Sure _) (λ slot. ask-Sure outside _ (balances slot))))
            (λ held.
              then-Answers (λ u. IsSettled book) _ _ read_reserve-Sure
                (λ reserve.
                  bind-Answers (λ o r. (sent : Sent) × (o ≡ some sent) × WasConfirmed book _ r)
                    (λ u. IsSettled book) _ _
                    (attempt-Answers (λ s. WasConfirmed book _) _ (client_settle-Answers p book _))
                    (λ o r e. closed o _ r e.0 e.1 e.2))))
    where
      warned : (o : Option ℕ) → Sure (warn_stray outside opts o)
      warned none = act-Sure _
      warned (some n) = if-Sure _ _ _ (give-Sure tt) (act-Sure _)

      closed :
          (o : Option Sent) (amount : ℕ) (r : Runner) (sent : Sent)
          → o ≡ some sent
          → WasConfirmed book amount r
          → IsGot (λ u. IsSettled book) (after_settle outside opts book amount o r)
      closed none amount r sent e w = cc
      closed (some done) amount r sent e w =
          (refl, (amount, w.0, ap (λ t. notified settled_notice ∷ t) w.1))

  -- A position whose settle time has come, and which the node knows and which has not ended, is settled by
  -- one look: the book is closed, and the settle that was confirmed is the last thing done. The balance, the rent
  -- and the settle are calls that answer; the token accounts and the group of the hook need not.
  pub trade-settles :
      (book : Book) (p : OpenPosition) (r : Runner)
      → outside.position_nullable book.position r.calls ≡ got (some p)
      → is_terminal p.status ≡ false
      → book.settle_at ≤ℤ now r
      → IsGot (λ u. IsSettled book) (trade outside opts (some book) r)
  unfolding trade ask tend_found tend see ◌>>>◌
  trade-settles book p r found going due =
      subst
        (λ x.
          IsGot (λ u. IsSettled book) (pass (x, elapse outside 0 r) (tend_found outside opts book)))
        (sym found)
        (chosen (λ m. IsGot (λ u. IsSettled book) (m (elapse outside 0 r))) (is_terminal p.status)
          (is_due book (elapse outside 0 r)) _ (settle outside opts p book) _ going
          (due_later outside book 0 r due) ((settle-Answers p book).at (elapse outside 0 r)))
