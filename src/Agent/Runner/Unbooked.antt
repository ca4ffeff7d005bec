-- ===== src/Agent/Runner/Unbooked.antt =====
-- A swap of agent/src/agent.ts that was confirmed, and whose transaction then cannot be read.
use collateralized_agents.Base.{
  ℕ, suc, true, false, not, ◌&&◌, ◌≡◌, refl, sym, subst, ap, none, some, ◌∷◌, lookup,
  lookup-update_self, if◌then◌else◌,
}
use collateralized_agents.Agent.State.{Side, PendingSwap, Book}
use collateralized_agents.Agent.System.{
  Error, Result, ok, err, swap_sent, Core, Sys, Act, catch, call, throw, gets, emit, modify, pure,
  ◌>>=◌, follow, recover, save, change_book, the_book,
}
use collateralized_agents.Agent.Env.{Env}
use collateralized_agents.Agent.Orca.{is_in_flight}
use collateralized_agents.Agent.Swap.{fetch_meta, finish, SwapResult, confirm, confirmed, send}
use collateralized_agents.Agent.Swap.Unknown.{with_fallback-fails, Unreadable}
use collateralized_agents.Agent.Runner.{not_landed, set_pending, drop_pending, has}

-- The action throws `e` and changes no core.
abbrev Fails : {A : Type 0} → Error → Core → Result A × Sys → Type 0
Fails e c r = (r.0 ≡ err e) × (r.1.core ≡ c)

abbrev error_or : {A : Type 0} → Error → Result A → Error
error_or x (ok a) = x
error_or x (err e) = e

module _ {A B : Type 0} (e : Error) (c : Core) (f : A → Act B) where
  follow-Fails : (r : Result A × Sys) → Fails e c r → Fails e c (follow r f)
  follow-Fails (ok a, s) h = cc
  follow-Fails (err x, s) h = (ap (λ r. err (error_or x r)) h.0, h.1)

  follow-ok :
      (r : Result A × Sys) (a : A) (s : Sys)
      → r ≡ (ok a, s)
      → (R : Result B × Sys → Type 0) → R (f a s)
      → R (follow r f)
  follow-ok r a s h R x = subst (λ r. R (follow r f)) (sym h) x

-- The call throws `e`; no swap was booked, and none is pending any more.
abbrev pub IsUnbooked : Error → ℕ → Book → Result SwapResult × Sys → Type 0
IsUnbooked e key b r =
    (r.0 ≡ err e)
    × (lookup key r.1.state.books ≡ some (set_pending none b))
    × (r.1.disk ≡ r.1.state)

module _ (env : Env) (key : ℕ) (b : Book) (p : PendingSwap) (q : b.pending ≡ some p) where
  not_landed-drops :
      (e : Error) (s : Sys)
      → is_in_flight e ≡ false
      → lookup key s.state.books ≡ some b
      → IsUnbooked e key b (not_landed env key e s)
  unfolding not_landed the_book drop_pending change_book save ◌>>=◌ modify throw pure
  not_landed-drops e s n l =
      follow-ok e s.core
        (λ x. if not (is_in_flight e) && has x.pending then drop_pending env key e else throw e)
        (the_book key s) b s found (IsUnbooked e key b)
        (subst (λ x. IsUnbooked e key b ((if x then drop_pending env key e else throw e) s))
          (sym drops) (refl, lookup-update_self key (set_pending none) s.state.books b l, refl))
    where
      found : the_book key s ≡ (ok b, s)
      found = rw l

      drops : (not (is_in_flight e) && has b.pending) ≡ true
      drops = rw (n, q)

  recover-drops :
      (e : Error) (c : Core) (r : Result SwapResult × Sys)
      → is_in_flight e ≡ false
      → lookup key c.state.books ≡ some b
      → Fails e c r
      → IsUnbooked e key b (recover r (not_landed env key))
  recover-drops e c (ok a, s) n l h = cc
  recover-drops e c (err x, s) n l h =
      let same : x ≡ e = ap (error_or x) h.0 in
      subst (λ z. IsUnbooked z key b (not_landed env key x s)) same
        (not_landed-drops x s (subst (λ z. is_in_flight z ≡ false) (sym same) n)
          (subst (λ d. lookup key d.state.books ≡ some b) (sym h.1) l))

module _ (env : Env) (sig : ℕ) (e : Error) (unreadable : Unreadable env sig e) where
  fetch_meta-Fails : (rounds : ℕ) (s : Sys) → Fails e s.core (fetch_meta env (suc rounds) sig s)
  unfolding fetch_meta ◌>>=◌
  fetch_meta-Fails rounds s =
      follow-Fails e s.core _ _ (with_fallback-fails env (env.get_transaction sig) e unreadable s)

  module _ (side : Side) (amount : ℕ) (sent : (n : ℕ) → env.send_raw_transaction sig n ≡ ok tt)
      (landed : (n : ℕ) → env.confirm_transaction sig n ≡ ok true) where
    abbrev counted : Sys → Sys
    counted s = record s { calls = suc s.calls }

    abbrev told : Sys → Sys
    told s = record s { core = record s.core { trace = swap_sent sig s.disk ∷ s.core.trace } }

    send-ok : (s : Sys) → send env sig s ≡ (ok tt, counted (told s))
    unfolding send ◌>>=◌ gets emit modify catch call
    send-ok s = rw (sent s.calls)

    confirm-ok : (s : Sys) → confirm env sig s ≡ (ok tt, counted s)
    unfolding confirm confirmed ◌>>=◌ catch call pure
    confirm-ok s = rw (landed s.calls)

    finish-Fails : (s : Sys) → Fails e (told s).core (finish env sig side amount s)
    unfolding finish ◌>>=◌
    finish-Fails s =
        let read = fetch_meta-Fails 9 (counted (counted (told s))) in
        follow-ok e s.core _ _ tt (counted (told s)) (send-ok s) (Fails e (told s).core) (
          follow-ok e s.core _ _ tt (counted (counted (told s))) (confirm-ok (counted (told s)))
            (Fails e (told s).core) (follow-Fails e (told s).core _ _ read))

    -- A swap that was sent and confirmed, and whose transaction no RPC node answers for: the swap
    -- throws, its pending entry is dropped and saved, and the book is otherwise as it was.
    pub landed-IsUnbooked :
        (key : ℕ) (b : Book) (p : PendingSwap) (s : Sys)
        → is_in_flight e ≡ false
        → lookup key s.state.books ≡ some b
        → b.pending ≡ some p
        → IsUnbooked e key b (catch (finish env sig side amount) (not_landed env key) s)
    unfolding catch
    landed-IsUnbooked key b p s n l q =
        recover-drops env key b p q e (told s).core _ n l (finish-Fails s)
