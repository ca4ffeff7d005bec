-- ===== src/Sdk/Send/Confirmed.antt =====
-- What a confirmation of sdk/src/client.ts rests on.
use collateralized_agents.Base.{
  ℕ, zero, suc, Bool, true, false, ◌≡◌, refl, ◌∙◌, subst, Option, none, some, ltb, if◌then◌else◌,
  if_ind,
}
use collateralized_agents.Sdk.Send.{
  SendError, transaction_failed, not_confirmed, rpc_failed, Answer, got, threw, Wire, Wired, give,
  stop, ask, attempt, settle_for, pass, ◌>>>◌, Status, Built, SendConnection, Sent, Poll, confirmed,
  expired, pending, of_status, check, resend, unless_done, poll_once, polls, last_check, or_last,
  try_build, send_until_confirmed,
}

module _ {A : Type 0} where
  -- An answer satisfies `Q`; an error is any.
  abbrev Holds : (A → Type 0) → Answer A → Type 0
  Holds Q (got a) = Q a
  Holds Q (threw e) = Unit {0}

  record Gives (Q : A → Type 0) (m : Wired A) : Type 0 where
    at : (w : Wire) → Holds Q (m w).0

  give-Gives : (Q : A → Type 0) (a : A) → Q a → Gives Q (give a)
  unfolding give
  give-Gives Q a q = record { at = λ w. q }

  stop-Gives : (Q : A → Type 0) (e : SendError) → Gives Q (stop e)
  unfolding stop
  stop-Gives Q e = record { at = λ w. tt }

  ask-Gives : (f : ℕ → Answer A) → Gives (λ a. (n : ℕ) × (f n ≡ got a)) (ask f)
  unfolding ask
  ask-Gives f = record { at = λ w. told (f w.calls) w.calls refl }
    where
      told : (r : Answer A) (n : ℕ) → f n ≡ r → Holds (λ a. (n : ℕ) × (f n ≡ got a)) r
      told (got a) n e = (n, e)
      told (threw x) n e = tt

  attempt-Gives : (Q : A → Type 0) (m : Wired A) (a : A) → Gives Q m → Q a → Gives Q (attempt m a)
  unfolding attempt
  attempt-Gives Q m a h q = record { at = λ w. held (m w) (h.at w) }
    where
      held : (r : Answer A × Wire) → Holds Q r.0 → Holds Q (settle_for a r).0
      held (got b, w) k = k
      held (threw transaction_failed, w) k = tt
      held (threw not_confirmed, w) k = q
      held (threw rpc_failed, w) k = q

  if-Gives :
      (Q : A → Type 0) (b : Bool) (m n : Wired A)
      → (b ≡ true → Gives Q m)
      → (b ≡ false → Gives Q n)
      → Gives Q (if b then m else n)
  if-Gives Q b m n h k = if_ind (Gives Q) b m n h k

module _ {A B : Type 0} (Q : A → Type 0) (R : B → Type 0) where
  bind-Gives :
      (m : Wired A) (f : A → Wired B)
      → Gives Q m
      → ((a : A) → Q a → Gives R (f a))
      → Gives R (m >>> f)
  unfolding ◌>>>◌
  bind-Gives m f h k = record { at = λ w. passed (m w) (h.at w) }
    where
      passed : (r : Answer A × Wire) → Holds Q r.0 → Holds R (pass r f).0
      passed (got a, w) q = (k a q).at w
      passed (threw e, w) q = tt

module _ (conn : SendConnection) where
  -- A node said that the transaction landed at this slot, without an error.
  abbrev pub Landed : Sent → Type 0
  Landed done =
      (history : Bool) × (n : ℕ) × (conn.signature_status done.sig history n
        ≡ got (some (record { failed = false; landed = true; slot = done.slot })))

  abbrev pub AllLanded : Option Sent → Type 0
  AllLanded none = Unit {0}
  AllLanded (some done) = Landed done

  abbrev Polled : Poll → Type 0
  Polled (confirmed done) = Landed done
  Polled expired = Unit {0}
  Polled pending = Unit {0}

  read :
      (s : Status)
      → s.failed ≡ false
      → s.landed ≡ true
      → got (some s) ≡ got (some (record { failed = false; landed = true; slot = s.slot }))
  read s f l = cc

  of_status-Gives :
      (sig : ℕ) (history : Bool) (n : ℕ) (s : Option Status)
      → conn.signature_status sig history n ≡ got s
      → Gives AllLanded (of_status conn sig s)
  of_status-Gives sig history n none e = give-Gives AllLanded none tt
  of_status-Gives sig history n (some s) e =
      if-Gives AllLanded s.failed _ _ (λ f. stop-Gives AllLanded transaction_failed)
        (λ f. give-Gives AllLanded _ (
          if_ind AllLanded s.landed (some (record { sig = sig; slot = s.slot })) none
            (λ l. (history, n, e ∙ read s f l)) (λ l. tt)))

  check-Gives : (sig : ℕ) (history : Bool) → Gives AllLanded (check conn sig history)
  unfolding check
  check-Gives sig history =
      bind-Gives _ AllLanded _ _ (ask-Gives _) (λ s h. of_status-Gives sig history h.0 s h.1)

  any : {A : Type 0} (m : Wired A) → Gives (λ a. Unit {0}) m
  any m = record { at = λ w. every (m w).0 }
    where
      every : {A : Type 0} (r : Answer A) → Holds (λ a. Unit {0}) r
      every (got a) = tt
      every (threw e) = tt

  resend-Gives : (sig last_valid height : ℕ) → Gives Polled (resend conn sig last_valid height)
  unfolding resend
  resend-Gives sig last_valid height =
      if-Gives Polled (ltb last_valid height) _ _ (λ e. give-Gives Polled expired tt)
        (λ e. bind-Gives _ Polled _ _ (any _) (λ u h. give-Gives Polled pending tt))

  unless_done-Gives :
      (b : Built) (r : Option Sent) → AllLanded r → Gives Polled (unless_done conn b r)
  unfolding unless_done
  unless_done-Gives b none h = bind-Gives _ Polled _ _ (any _) (λ t k. resend-Gives _ _ t)
  unless_done-Gives b (some done) h = give-Gives Polled (confirmed done) h

  poll_once-Gives : (b : Built) → Gives Polled (poll_once conn b)
  unfolding poll_once
  poll_once-Gives b =
      attempt-Gives Polled _ pending
        (bind-Gives AllLanded Polled _ _ (check-Gives b.signature false) (unless_done-Gives b)) tt

  polls-Gives : (n : ℕ) (b : Built) → Gives AllLanded (polls conn n b)
  unfolding polls
  polls-Gives zero b = give-Gives AllLanded none tt
  polls-Gives (suc n) b =
      bind-Gives Polled AllLanded _ _ (poll_once-Gives b) (after (polls-Gives n b))
    where
      after :
          Gives AllLanded (polls conn n b)
          → (p : Poll) → Polled p
          → Gives AllLanded (elim p [
            | confirmed done ↦ give (some done)
            | expired ↦ give none
            | pending ↦ polls conn n b
          ])
      after ih (confirmed done) h = give-Gives AllLanded (some done) h
      after ih expired h = give-Gives AllLanded none tt
      after ih pending h = ih

  or_last-Gives : (b : Built) (r : Option Sent) → AllLanded r → Gives AllLanded (or_last conn b r)
  unfolding or_last last_check
  or_last-Gives b none h = attempt-Gives AllLanded _ none (check-Gives b.signature true) tt
  or_last-Gives b (some done) h = give-Gives AllLanded (some done) h

  try_build-Gives : (max_polls : ℕ) → Gives AllLanded (try_build conn max_polls)
  unfolding try_build
  try_build-Gives max_polls = bind-Gives _ AllLanded _ _ (any _) λ b h.
      bind-Gives _ AllLanded _ _ (any _) λ u k.
        bind-Gives _ AllLanded _ _ (any _)
          λ v l. bind-Gives AllLanded AllLanded _ _ (polls-Gives max_polls b) (or_last-Gives b)

  send-Gives : (builds max_polls : ℕ) → Gives Landed (send_until_confirmed conn builds max_polls)
  unfolding send_until_confirmed
  send-Gives zero max_polls = stop-Gives Landed not_confirmed
  send-Gives (suc builds) max_polls =
      bind-Gives AllLanded Landed _ _ (try_build-Gives max_polls)
        (after (send-Gives builds max_polls))
    where
      after :
          Gives Landed (send_until_confirmed conn builds max_polls)
          → (r : Option Sent) → AllLanded r
          → Gives Landed
              (elim r [ some done ↦ give done | none ↦ send_until_confirmed conn builds max_polls ])
      after ih none h = ih
      after ih (some done) h = give-Gives Landed done h

  of_answer : (r : Answer Sent) (done : Sent) → Holds Landed r → r ≡ got done → Landed done
  of_answer r done h e = subst (Holds Landed) e h

  -- What is returned as confirmed was said to have landed, without an error and at that slot, by an
  -- answer about its signature.
  pub send_until_confirmed-Landed :
      (builds max_polls : ℕ) (w : Wire) (done : Sent)
      → (send_until_confirmed conn builds max_polls w).0 ≡ got done
      → Landed done
  send_until_confirmed-Landed builds max_polls w done e =
      of_answer _ done ((send-Gives builds max_polls).at w) e
