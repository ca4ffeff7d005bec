-- ===== src/Sdk/Send/Unexpired.antt =====
-- Transactions of sdk/src/client.ts that are signed afresh while the last one has not expired.
use collateralized_agents.Base.{
  ℕ, zero, suc, ◌+◌, Bool, true, false, ◌≡◌, refl, sym, subst, Option, none, some, ◌∷◌, length, ltb,
  arith,
}
use collateralized_agents.Sdk.Send.{
  not_confirmed, Answer, got, threw, Wire, give, stop, ask, attempt, built, pass, ◌>>>◌, Built,
  SendConnection, Sent, confirmed, expired, pending, check, resend, unless_done, poll_once, polls,
  last_check, or_last, try_build, send_until_confirmed,
}

module _ (conn : SendConnection) (build : ℕ → Built) (height : ℕ → ℕ)
    (builds : (n : ℕ) → conn.latest_blockhash n ≡ got (build n))
    (sends : (sig : ℕ) (again : Bool) (n : ℕ) → conn.send_raw_transaction sig again n ≡ got tt)
    (unseen : (sig : ℕ) (history : Bool) (n : ℕ) → conn.signature_status sig history n ≡ got none)
    (heights : (n : ℕ) → conn.block_height n ≡ got (height n))
    (valid : (n m : ℕ) → ltb (build n).last_valid_block_height (height m) ≡ false) where
  abbrev told : Wire → Wire
  told w = record w { calls = suc w.calls }

  poll_once-pending :
      (n : ℕ) (w : Wire) → poll_once conn (build n) w ≡ (got pending, told (told (told w)))
  unfolding poll_once attempt ◌>>>◌ check unless_done resend ask give
  poll_once-pending n w = rw (
    unseen (build n).signature false w.calls,
    heights (suc w.calls),
    valid n (suc w.calls),
    sends (build n).signature true (suc (suc w.calls)),
  )

  -- The action answers `a` and signs as many transactions as said.
  abbrev Answers : {A : Type 0} → Answer A → ℕ → Wire → Answer A × Wire → Type 0
  Answers a n w r = (r.0 ≡ a) × (length r.1.signed ≡ n + length w.signed)

  polls-Answers : (m n : ℕ) (w : Wire) → Answers (got none) 0 w (polls conn m (build n) w)
  unfolding polls ◌>>>◌ give
  polls-Answers zero n w = (refl, omega arith)
  polls-Answers (suc m) n w =
      subst
        (λ r. Answers (got none) 0 w (
          pass r (λ p. elim p [
            | confirmed done ↦ give (some done)
            | expired ↦ give none
            | pending ↦ polls conn m (build n)
          ])))
        (sym (poll_once-pending n w)) (polls-Answers m n (told (told (told w))))

  last_check-none : (sig : ℕ) (w : Wire) → last_check conn sig w ≡ (got none, told w)
  unfolding last_check attempt check ◌>>>◌ ask give
  last_check-none sig w = rw (unseen sig true w.calls)

  pass-or_last :
      (n : ℕ) (w : Wire) (r : Answer (Option Sent) × Wire)
      → Answers (got none) 0 w r
      → Answers (got none) 0 w (pass r (or_last conn (build n)))
  unfolding or_last
  pass-or_last n w (got none, v) h =
      subst (Answers (got none) 0 w) (sym (last_check-none (build n).signature v)) (refl, h.1)
  pass-or_last n w (got (some done), v) h = cc
  pass-or_last n w (threw e, v) h = cc

  abbrev signed_with : ℕ → Wire → Wire
  signed_with sig w = record w { signed = sig ∷ w.signed }

  polls_then_check :
      (m n : ℕ) (w : Wire)
      → Answers (got none) 0 w ((polls conn m (build n) >>> or_last conn (build n)) w)
  unfolding ◌>>>◌
  polls_then_check m n w = pass-or_last n w (polls conn m (build n) w) (polls-Answers m n w)

  first_send :
      (m n : ℕ) (w : Wire)
      → Answers (got none) 1 w (
          (built (build n).signature >>> λ u.
          ask (conn.send_raw_transaction (build n).signature false) >>> λ v.
          polls conn m (build n) >>> or_last conn (build n))
            w)
  unfolding ◌>>>◌ ask built
  first_send m n w =
      let v = told (signed_with (build n).signature w) in
      let h = polls_then_check m n v in
      subst
        (λ a.
          Answers (got none) 1 w
            (pass (a, v) (λ u. polls conn m (build n) >>> or_last conn (build n))))
        (sym (sends (build n).signature false w.calls)) (h.0, omega (arith, h.1))

  try_build-Answers : (m : ℕ) (w : Wire) → Answers (got none) 1 w (try_build conn m w)
  unfolding try_build ◌>>>◌ ask
  try_build-Answers m w =
      let h = first_send m w.calls (told w) in
      subst
        (λ a. Answers (got none) 1 w (
          pass (a, told w)
            λ b. built b.signature >>> λ u.
              ask (conn.send_raw_transaction b.signature false) >>> λ v.
              polls conn m b >>> or_last conn b))
        (sym (builds w.calls)) h

  pass_build :
      (n m : ℕ) (w : Wire) (r : Answer (Option Sent) × Wire)
      → ((v : Wire) → Answers (threw not_confirmed) n v (send_until_confirmed conn n m v))
      → Answers (got none) 1 w r
      → Answers
          (threw not_confirmed)
          (suc n)
          w
          (pass r (λ o. elim o [ some done ↦ give done | none ↦ send_until_confirmed conn n m ]))
  pass_build n m w (got none, v) ih h = let k = ih v in (k.0, omega (arith, k.1, h.1))
  pass_build n m w (got (some done), v) ih h = cc
  pass_build n m w (threw e, v) ih h = cc

  -- While no status shows the transaction and every block height that is read is at most the last
  -- valid one of every blockhash, so that none has expired, every build still signs another
  -- transaction, and then the call gives up.
  pub send_until_confirmed-signed :
      (n m : ℕ) (w : Wire)
      → ((send_until_confirmed conn n m w).0 ≡ threw not_confirmed)
        × (length (send_until_confirmed conn n m w).1.signed ≡ n + length w.signed)
  unfolding send_until_confirmed ◌>>>◌ stop
  send_until_confirmed-signed zero m w = (refl, omega arith)
  send_until_confirmed-signed (suc n) m w =
      pass_build n m w (try_build conn m w) (send_until_confirmed-signed n m)
        (try_build-Answers m w)
