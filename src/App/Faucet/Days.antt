-- ===== src/App/Faucet/Days.antt =====
-- The markers of a day in app/app/api/faucet/route.ts, and how a call changes them.
use collateralized_agents.Base.{
  ℕ, zero, suc, ◌+◌, ◌≤◌, Bool, true, false, not, ◌&&◌, ◌≡◌, refl, ap, ◌∙◌, subst, List, [], ◌∷◌,
  includes, keep_if, All, ◌==◌, ==_self, if◌then◌else◌, if_ind, arith, inl, inr, ◌⊎◌, Bool-cases,
  Option, none, some,
}
use collateralized_agents.App.Faucet.{
  Reason, over_cap, unsent, failed_transfer, answer_of, Phase, funds, budget, claiming, marking,
  rechecking, sending, confirming, noting, releasing, ended, Put, stored, unheard, not_stored, Send,
  accepted, rejected, unclear_send, Confirm, confirmed, failed_on_chain, unclear, Reply, Blobs,
  has_day, add_wallet, add_day, delete_both, after_claim, after_mark, by_balance, noted, advance,
  broadcast, forget, Drip, step_in, empty,
}
use collateralized_agents.App.Faucet.Claims.{stake}
use collateralized_agents.App.Faucet.Stakes.{stakes}
use collateralized_agents.App.Faucet.Marked.{passed, needs, HasMarker}

has_day-add_day_self : (day a : ℕ) (b : Blobs) → has_day day a (add_day day a b).days ≡ true
unfolding add_day
has_day-add_day_self day a b = ground (arith, ==_self day, ==_self a)

has_day-add_day :
    (day d a x : ℕ) (b : Blobs)
    → has_day day x b.days ≡ true
    → has_day day x (add_day d a b).days ≡ true
unfolding add_day
has_day-add_day day d a x b h = ground (arith, h)

has_day-keep :
    (day d a x : ℕ) (days : List (ℕ × ℕ))
    → (a == x) ≡ false
    → has_day day x days ≡ true
    → has_day day x (keep_if (λ m. not ((m.0 == d) && (m.1 == a))) days) ≡ true
has_day-keep day d a x [] e h = h
has_day-keep day d a x (m ∷ days) e h = ground (arith, has_day-keep day d a x days)

days-add_wallet : (a : ℕ) (b : Blobs) → (add_wallet a b).days ≡ b.days
unfolding add_wallet
days-add_wallet a b = if_ind (λ (c : Blobs). c.days ≡ b.days) _ b _ (λ e. refl) (λ e. refl)

days-after_claim :
    (m : Bool) (put : Put) (head : Bool) (a : ℕ) (b : Blobs)
    → (after_claim m put head a b).1.days ≡ b.days
unfolding after_claim
days-after_claim true put head a b = refl
days-after_claim false stored head a b = days-add_wallet a b
days-after_claim false unheard head a b = days-add_wallet a b
days-after_claim false not_stored head a b = refl

days-broadcast : (t : Bool) (send : Send) (a : ℕ) (b : Blobs) → (broadcast t send a b).days ≡ b.days
days-broadcast false send a b = refl
days-broadcast true accepted a b = refl
days-broadcast true rejected a b = refl
days-broadcast true unclear_send a b = refl

days-forget : (c : Confirm) (a : ℕ) (b : Blobs) → (forget c a b).days ≡ b.days
days-forget confirmed a b = refl
days-forget failed_on_chain a b = refl
days-forget unclear a b = refl

days-noted : (put : Put) (a : ℕ) (b : Blobs) → (noted put a b).days ≡ b.days
unfolding noted
days-noted stored a b = days-add_wallet a b
days-noted unheard a b = days-add_wallet a b
days-noted not_stored a b = refl

pub needs-le : (p : Phase) → needs p ≤ stake p
needs-le p = ground arith

pub passed-le : (p : Phase) → passed p ≤ needs p
passed-le p = ground arith

module _ (max_drops day : ℕ) where
  -- A marker that is there stays, but for a release of the same wallet.
  marker_kept :
      (r : Reply) (a x : ℕ) (p : Phase) (b : Blobs)
      → ((a == x) ≡ false) ⊎ (stake p ≡ 0)
      → has_day day x b.days ≡ true
      → has_day day x (advance max_drops r a p b).1.days ≡ true
  unfolding advance delete_both after_mark
  marker_kept r a x funds b e h = h
  marker_kept r a x budget b e h = h
  marker_kept r a x claiming b e h =
      ap (has_day day x) (days-after_claim (includes b.wallets a) r.put r.head a b) ∙ h
  marker_kept r a x marking b e h = marked r.put
    where
      marked : (put : Put) → has_day day x (after_mark put r.day a b).1.days ≡ true
      marked stored = has_day-add_day day r.day a x b h
      marked unheard = has_day-add_day day r.day a x b h
      marked not_stored = h
  marker_kept r a x (rechecking d) b e h = h
  marker_kept r a x (sending d) b e h =
      ap (has_day day x) (days-broadcast r.blockhash r.send a b) ∙ h
  marker_kept r a x (confirming d) b e h = ap (has_day day x) (days-forget r.confirm a b) ∙ h
  marker_kept r a x (releasing d reason) b (inl e) h =
      if_ind (λ (c : Blobs). has_day day x c.days ≡ true) r.deleted (delete_both d a b) b
        (λ t. has_day-keep day d a x b.days e h) (λ t. h)
  marker_kept r a x (releasing d reason) b (inr e) h = absurd (omega (arith, e))
  marker_kept r a x noting b e h = ap (has_day day x) (days-noted r.put a b) ∙ h
  marker_kept r a x (ended response) b e h = h

  needs-by_balance : (o : Option ℕ) → needs (by_balance o) ≡ 0
  unfolding by_balance
  needs-by_balance none = refl
  needs-by_balance (some n) =
      if_ind (λ p. needs p ≡ 0) _ (ended empty) budget (λ e. refl) (λ e. refl)

  needs-after_claim :
      (m : Bool) (put : Put) (head : Bool) (a : ℕ) (b : Blobs)
      → needs (after_claim m put head a b).0 ≡ 0
  unfolding after_claim
  needs-after_claim true put true a b = refl
  needs-after_claim true put false a b = refl
  needs-after_claim false stored head a b = refl
  needs-after_claim false unheard true a b = refl
  needs-after_claim false unheard false a b = refl
  needs-after_claim false not_stored head a b = refl

  needs-answer_of : (reason : Reason) → needs (ended (answer_of reason)) ≡ 0
  needs-answer_of over_cap = refl
  needs-answer_of unsent = refl
  needs-answer_of failed_transfer = refl

  -- A call whose request needs its marker after it has it, on the day in question.
  marker_self :
      (r : Reply) (a : ℕ) (p : Phase) (b : Blobs)
      → r.day ≡ day
      → HasMarker day b.days (record { address = a; phase = p })
      → HasMarker day
          (advance max_drops r a p b).1.days
          (record { address = a; phase = (advance max_drops r a p b).0 })
  unfolding advance after_claim after_mark
  marker_self r a funds b e h = λ n. absurd (omega (arith, n, needs-by_balance r.balance))
  marker_self r a budget b e h = λ n. absurd (ground (arith, n))
  marker_self r a claiming b e h =
      λ n. absurd (omega (arith, n, needs-after_claim (includes b.wallets a) r.put r.head a b))
  marker_self r a marking b e h = marked r.put
    where
      marked :
          (put : Put)
          → HasMarker day
              (after_mark put r.day a b).1.days
              (record { address = a; phase = (after_mark put r.day a b).0 })
      marked stored = λ n.
          subst (λ d. has_day d a (add_day r.day a b).days ≡ true) e
            (has_day-add_day_self r.day a b)
      marked unheard = λ n. absurd (omega (arith, n))
      marked not_stored = λ n. absurd (omega (arith, n))
  marker_self r a (rechecking d) b e h = λ n. h (omega arith)
  marker_self r a (sending d) b e h =
      λ n. ap (has_day day a) (days-broadcast r.blockhash r.send a b) ∙ h (omega arith)
  marker_self r a (confirming d) b e h =
      λ n. ap (has_day day a) (days-forget r.confirm a b) ∙ h (omega arith)
  marker_self r a (releasing d reason) b e h =
      λ n. absurd (omega (arith, n, needs-answer_of reason))
  marker_self r a noting b e h = λ n. ap (has_day day a) (days-noted r.put a b) ∙ h (omega arith)
  marker_self r a (ended response) b e h = h

  -- The requests that wait keep what they need, beside one that makes a call.
  others_kept :
      (r : Reply) (a : ℕ) (p : Phase) (b : Blobs) (es : List Drip)
      → ((x : ℕ) → (if a == x then stake p else 0) + stakes x es ≤ 1)
      → All (HasMarker day b.days) es
      → All (HasMarker day (advance max_drops r a p b).1.days) es
  others_kept r a p b [] u h = tt
  others_kept r a p b (d ∷ es) u h = (
    λ n.
        marker_kept r a d.address p b
          (elim (Bool-cases (a == d.address)) [
            | inl e ↦ inr (ground (arith, e, u d.address, n, needs-le d.phase, ==_self d.address))
            | inr e ↦ inl e
          ])
          (h.0 n),
    others_kept r a p b es (λ x. omega (arith, u x)) h.1,
  )

  -- The marker of a wallet for which no request has a stake stays.
  marker_kept_in :
      (i : ℕ) (r : Reply) (x : ℕ) (ds : List Drip) (b : Blobs)
      → stakes x ds ≡ 0
      → has_day day x b.days ≡ true
      → has_day day x (step_in max_drops i r ds b).1.days ≡ true
  unfolding step_in
  marker_kept_in i r x [] b z h = h
  marker_kept_in zero r x (d ∷ ds) b z h =
      marker_kept r d.address x d.phase b
        (elim (Bool-cases (d.address == x)) [ inl e ↦ inr (ground (arith, e, z)) | inr e ↦ inl e ])
        h
  marker_kept_in (suc i) r x (d ∷ ds) b z h = marker_kept_in i r x ds b (omega (arith, z)) h

  pub step_in-HasMarker :
      (i : ℕ) (r : Reply) (ds : List Drip) (b : Blobs)
      → r.day ≡ day
      → ((x : ℕ) → stakes x ds ≤ 1)
      → All (HasMarker day b.days) ds
      → All (HasMarker day (step_in max_drops i r ds b).1.days) (step_in max_drops i r ds b).0
  unfolding step_in
  step_in-HasMarker i r [] b e u h = tt
  step_in-HasMarker zero r (d ∷ ds) b e u h =
      (marker_self r d.address d.phase b e h.0, others_kept r d.address d.phase b ds u h.1)
  step_in-HasMarker (suc i) r (d ∷ ds) b e u h = (
    λ n.
        marker_kept_in i r d.address ds b
          (ground (arith, u d.address, n, needs-le d.phase, ==_self d.address)) (h.0 n),
    step_in-HasMarker i r ds b e (λ x. omega (arith, u x)) h.1,
  )
