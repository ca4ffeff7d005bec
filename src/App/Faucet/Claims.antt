-- ===== src/App/Faucet/Claims.antt =====
-- The claims on a wallet in app/app/api/faucet/route.ts, and how a call changes them.
use collateralized_agents.Base.{
  ℕ, ◌+◌, ◌≤◌, Bool, true, false, not, ◌≡◌, refl, sym, ap, subst, List, [], ◌∷◌, includes, keep_if,
  ◌==◌, if◌then◌else◌, arith, inl, inr, ◌⊎◌, if_ind, Option, none, some,
}
use collateralized_agents.App.Faucet.{
  Response, empty, sent_unconfirmed, maybe_sent, paid, Reason, over_cap, unsent, failed_transfer,
  answer_of, Phase, funds, budget, claiming, marking, rechecking, sending, confirming, noting,
  releasing, ended, Put, stored, unheard, not_stored, Send, accepted, rejected, unclear_send,
  Confirm, confirmed, failed_on_chain, unclear, Reply, Blobs, add_wallet, add_day, after_claim,
  after_mark, after_send, after_confirm, by_balance, noted, advance, broadcast, forget, Drip,
}

-- A transfer that was accepted, or that may have been, and that is not known to have failed.
abbrev pub pays : Response → ℕ
pays paid = 1
pays maybe_sent = 1
pays sent_unconfirmed = 1
pays _ = 0

abbrev pub may_pay : Phase → ℕ
may_pay (confirming day) = 1
may_pay noting = 1
may_pay (ended response) = pays response
may_pay _ = 0

-- A request that holds the claim of its wallet, or that may have paid.
abbrev pub stake : Phase → ℕ
stake marking = 1
stake (rechecking day) = 1
stake (sending day) = 1
stake (releasing day reason) = 1
stake p = may_pay p

abbrev pub sum_of : (Phase → ℕ) → ℕ → List Drip → ℕ
sum_of f a [] = 0
sum_of f a (d ∷ ds) = (if d.address == a then f d.phase else 0) + sum_of f a ds

-- How many requests may have paid a wallet.
abbrev pub payments : ℕ → List Drip → ℕ
payments a ds = sum_of may_pay a ds

-- How a call for a wallet may change its stake and its marker.
abbrev pub Changes : ℕ → Bool → ℕ → Bool → Type 0
Changes s m s' m' =
    (s' ≤ 1)
    × (((s ≡ s') × (m ≡ m'))
        ⊎ (((s ≡ 0) × (m ≡ false) × (m' ≡ true)) ⊎ ((s ≡ 1) × (s' ≡ 1 → m' ≡ true))))

includes-add_wallet_self : (a : ℕ) (b : Blobs) → includes (add_wallet a b).wallets a ≡ true
unfolding add_wallet
includes-add_wallet_self a b = ground arith

pub includes-add_wallet :
    (a x : ℕ) (b : Blobs)
    → (a == x) ≡ false
    → includes (add_wallet a b).wallets x ≡ includes b.wallets x
unfolding add_wallet
includes-add_wallet a x b e = ground arith

pub includes-keep :
    (a x : ℕ) (ws : List ℕ)
    → (a == x) ≡ false
    → includes (keep_if (λ y. not (y == a)) ws) x ≡ includes ws x
includes-keep a x [] e = refl
includes-keep a x (w ∷ ws) e = ground (arith, includes-keep a x ws e)

pays-le : (r : Response) → pays r ≤ 1
pays-le r = ground arith

-- A call that leaves the marker.
pub same : (s : ℕ) (m : Bool) → s ≤ 1 → Changes s m s m
same s m h = (h, inl (refl, refl))

-- A call of a request that has a stake, which leaves no new stake.
gave_up : (m m' : Bool) → Changes 1 m 0 m'
gave_up m m' = (omega arith, inr (inr (refl, λ e. absurd (omega (arith, e)))))

after_claim-Changes :
    (put : Put) (head : Bool) (a : ℕ) (b : Blobs) (m : Bool)
    → includes b.wallets a ≡ m
    → Changes 0 m
        (stake (after_claim m put head a b).0)
        (includes (after_claim m put head a b).1.wallets a)
unfolding after_claim
after_claim-Changes put true a b true e = (omega arith, inl (refl, sym e))
after_claim-Changes put false a b true e = (omega arith, inl (refl, sym e))
after_claim-Changes stored head a b false e =
    (omega arith, inr (inl (refl, refl, includes-add_wallet_self a b)))
after_claim-Changes unheard true a b false e =
    (omega arith, inr (inl (refl, refl, includes-add_wallet_self a b)))
after_claim-Changes unheard false a b false e =
    (omega arith, inr (inl (refl, refl, includes-add_wallet_self a b)))
after_claim-Changes not_stored head a b false e = (omega arith, inl (refl, sym e))

pub add_day_wallets : (day a : ℕ) (b : Blobs) → (add_day day a b).wallets ≡ b.wallets
unfolding add_day
add_day_wallets day a b =
    if_ind (λ (c : Blobs). c.wallets ≡ b.wallets) _ b _ (λ e. refl) (λ e. refl)

after_mark-Changes :
    (put : Put) (day a : ℕ) (b : Blobs)
    → Changes 1
        (includes b.wallets a)
        (stake (after_mark put day a b).0)
        (includes (after_mark put day a b).1.wallets a)
unfolding after_mark
after_mark-Changes stored day a b =
    (omega arith, inl (refl, ap (λ ws. includes ws a) (sym (add_day_wallets day a b))))
after_mark-Changes unheard day a b = gave_up _ _
after_mark-Changes not_stored day a b = gave_up _ _

pub wallets-broadcast :
    (blockhash : Bool) (send : Send) (a : ℕ) (b : Blobs)
    → (broadcast blockhash send a b).wallets ≡ b.wallets
wallets-broadcast false send a b = refl
wallets-broadcast true accepted a b = refl
wallets-broadcast true rejected a b = refl
wallets-broadcast true unclear_send a b = refl

pub wallets-forget : (c : Confirm) (a : ℕ) (b : Blobs) → (forget c a b).wallets ≡ b.wallets
wallets-forget confirmed a b = refl
wallets-forget failed_on_chain a b = refl
wallets-forget unclear a b = refl

after_send-Changes :
    (blockhash : Bool) (send : Send) (day : ℕ) (m : Bool)
    → Changes 1 m (stake (after_send blockhash send day)) m
unfolding after_send
after_send-Changes false send day m = same 1 m (omega arith)
after_send-Changes true accepted day m = same 1 m (omega arith)
after_send-Changes true rejected day m = same 1 m (omega arith)
after_send-Changes true unclear_send day m = same 1 m (omega arith)

after_confirm-Changes :
    (c : Confirm) (day : ℕ) (m : Bool) → Changes 1 m (stake (after_confirm c day)) m
unfolding after_confirm
after_confirm-Changes confirmed day m = same 1 m (omega arith)
after_confirm-Changes failed_on_chain day m = same 1 m (omega arith)
after_confirm-Changes unclear day m = same 1 m (omega arith)

noted-Changes :
    (put : Put) (a : ℕ) (b : Blobs)
    → Changes 1 (includes b.wallets a) 1 (includes (noted put a b).wallets a)
unfolding noted
noted-Changes stored a b = (omega arith, inr (inr (refl, λ e. includes-add_wallet_self a b)))
noted-Changes unheard a b = (omega arith, inr (inr (refl, λ e. includes-add_wallet_self a b)))
noted-Changes not_stored a b = same 1 _ (omega arith)

stake-by_balance : (o : Option ℕ) → stake (by_balance o) ≡ 0
unfolding by_balance
stake-by_balance none = refl
stake-by_balance (some n) = if_ind (λ p. stake p ≡ 0) _ (ended empty) budget (λ e. refl) (λ e. refl)

-- A request that does not yet hold a claim, and will not by this call.
no_stake : (s : ℕ) (m : Bool) → s ≡ 0 → Changes 0 m s m
no_stake s m e = (omega (arith, e), inl (sym e, refl))

released : (reason : Reason) (m m' : Bool) → Changes 1 m (stake (ended (answer_of reason))) m'
released over_cap m m' = gave_up m m'
released unsent m m' = gave_up m m'
released failed_transfer m m' = gave_up m m'

pub advance-Changes :
    (max_drops : ℕ) (r : Reply) (a : ℕ) (p : Phase) (b : Blobs)
    → Changes
        (stake p)
        (includes b.wallets a)
        (stake (advance max_drops r a p b).0)
        (includes (advance max_drops r a p b).1.wallets a)
unfolding advance
advance-Changes max_drops r a funds b = no_stake _ _ (stake-by_balance r.balance)
advance-Changes max_drops r a budget b = no_stake _ _ (ground arith)
advance-Changes max_drops r a claiming b = after_claim-Changes r.put r.head a b _ refl
advance-Changes max_drops r a marking b = after_mark-Changes r.put r.day a b
advance-Changes max_drops r a (rechecking day) b =
    if_ind (λ p. Changes 1 (includes b.wallets a) (stake p) (includes b.wallets a)) r.listed _ _
      (λ e.
        if_ind (λ p. Changes 1 (includes b.wallets a) (stake p) (includes b.wallets a)) _
          (releasing day over_cap) (sending day) (λ f. same 1 _ (omega arith))
          (λ f. same 1 _ (omega arith)))
      (λ e. gave_up _ _)
advance-Changes max_drops r a (sending day) b =
    subst
      (λ ws.
        Changes 1 (includes b.wallets a) (stake (after_send r.blockhash r.send day))
          (includes ws a))
      (sym (wallets-broadcast r.blockhash r.send a b)) (after_send-Changes r.blockhash r.send day _)
advance-Changes max_drops r a (confirming day) b =
    subst
      (λ ws. Changes 1 (includes b.wallets a) (stake (after_confirm r.confirm day)) (includes ws a))
      (sym (wallets-forget r.confirm a b)) (after_confirm-Changes r.confirm day _)
advance-Changes max_drops r a (releasing day reason) b = released reason _ _
advance-Changes max_drops r a noting b = noted-Changes r.put a b
advance-Changes max_drops r a (ended response) b = same _ _ (pays-le response)
