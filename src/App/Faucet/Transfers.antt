-- ===== src/App/Faucet/Transfers.antt =====
-- The transfers of app/app/api/faucet/route.ts that have landed or may land, against the requests that
-- stand for them.
use collateralized_agents.Base.{
  ℕ, zero, suc, ◌+◌, ◌≤◌, Bool, true, false, ◌≡◌, refl, ap, subst, List, [], ◌∷◌, ◌==◌, ==_iff,
  ==_self, if◌then◌else◌, arith, inl, inr, ◌⊎◌, if_ind, includes,
}
use collateralized_agents.App.Faucet.{
  Phase, funds, budget, claiming, marking, rechecking, sending, confirming, noting, releasing,
  ended, Put, stored, unheard, not_stored, Send, accepted, rejected, unclear_send, Confirm,
  confirmed, failed_on_chain, unclear, Reply, Blobs, add_wallet, add_day, delete_both, after_claim,
  after_mark, after_send, after_confirm, noted, advance, broadcast, forget, remove_one, Drip,
  step_in,
}
use collateralized_agents.App.Faucet.Claims.{may_pay, payments}

-- How many transfers to a wallet have landed or may land.
abbrev pub count : ℕ → List ℕ → ℕ
count a [] = 0
count a (x ∷ xs) = (if x == a then 1 else 0) + count a xs

-- How a call may change the number of transfers and what its request stands for.
abbrev pub Covers : ℕ → ℕ → ℕ → ℕ → Type 0
Covers n p n' p' = (n' + p ≤ n + p') ⊎ (n' ≡ 0)

count-remove_one :
    (a : ℕ) (xs : List ℕ)
    → (count a (remove_one a xs) + 1 ≤ count a xs) ⊎ (count a (remove_one a xs) ≡ 0)
count-remove_one a [] = inr refl
count-remove_one a (x ∷ xs) = ground (arith, count-remove_one a xs)

count-remove_other :
    (a x : ℕ) (xs : List ℕ) → (a == x) ≡ false → count x (remove_one a xs) ≡ count x xs
count-remove_other a x [] e = refl
count-remove_other a x (y ∷ ys) e = ground (arith, count-remove_other a x ys e)

sent-add_wallet : (a : ℕ) (b : Blobs) → (add_wallet a b).sent ≡ b.sent
unfolding add_wallet
sent-add_wallet a b = if_ind (λ (c : Blobs). c.sent ≡ b.sent) _ b _ (λ e. refl) (λ e. refl)

sent-add_day : (day a : ℕ) (b : Blobs) → (add_day day a b).sent ≡ b.sent
unfolding add_day
sent-add_day day a b = if_ind (λ (c : Blobs). c.sent ≡ b.sent) _ b _ (λ e. refl) (λ e. refl)

sent-after_claim :
    (m : Bool) (put : Put) (head : Bool) (a : ℕ) (b : Blobs)
    → (after_claim m put head a b).1.sent ≡ b.sent
unfolding after_claim
sent-after_claim true put head a b = refl
sent-after_claim false stored head a b = sent-add_wallet a b
sent-after_claim false unheard head a b = sent-add_wallet a b
sent-after_claim false not_stored head a b = refl

sent-after_mark : (put : Put) (day a : ℕ) (b : Blobs) → (after_mark put day a b).1.sent ≡ b.sent
unfolding after_mark
sent-after_mark stored day a b = sent-add_day day a b
sent-after_mark unheard day a b = sent-add_day day a b
sent-after_mark not_stored day a b = refl

sent-noted : (put : Put) (a : ℕ) (b : Blobs) → (noted put a b).sent ≡ b.sent
unfolding noted
sent-noted stored a b = sent-add_wallet a b
sent-noted unheard a b = sent-add_wallet a b
sent-noted not_stored a b = refl

sent-released :
    (t : Bool) (day a : ℕ) (b : Blobs) → (if t then delete_both day a b else b).sent ≡ b.sent
unfolding delete_both
sent-released true day a b = refl
sent-released false day a b = refl

-- A call that sends nothing, of a request that stands for no transfer.
idle : (n n' p' : ℕ) → n' ≡ n → Covers n 0 n' p'
idle n n' p' e = inl (omega (arith, e))

send-Covers :
    (blockhash : Bool) (send : Send) (day a : ℕ) (b : Blobs)
    → Covers
        (count a b.sent)
        0
        (count a (broadcast blockhash send a b).sent)
        (may_pay (after_send blockhash send day))
unfolding after_send
send-Covers false send day a b = idle _ _ _ refl
send-Covers true accepted day a b = inl (ground (arith, ==_self a))
send-Covers true rejected day a b = idle _ _ _ refl
send-Covers true unclear_send day a b = inl (ground (arith, ==_self a))

confirm-Covers :
    (c : Confirm) (day a : ℕ) (b : Blobs)
    → Covers (count a b.sent) 1 (count a (forget c a b).sent) (may_pay (after_confirm c day))
unfolding after_confirm
confirm-Covers confirmed day a b = inl (omega arith)
confirm-Covers failed_on_chain day a b = elim (count-remove_one a b.sent) [
  | inl h ↦ inl (omega (arith, h))
  | inr h ↦ inr h
]
confirm-Covers unclear day a b = inl (omega arith)

advance-Covers :
    (max_drops : ℕ) (r : Reply) (a : ℕ) (p : Phase) (b : Blobs)
    → Covers
        (count a b.sent)
        (may_pay p)
        (count a (advance max_drops r a p b).1.sent)
        (may_pay (advance max_drops r a p b).0)
unfolding advance
advance-Covers max_drops r a funds b = idle _ _ _ refl
advance-Covers max_drops r a budget b = idle _ _ _ refl
advance-Covers max_drops r a claiming b =
    idle _ _ _ (ap (count a) (sent-after_claim (includes b.wallets a) r.put r.head a b))
advance-Covers max_drops r a marking b = idle _ _ _ (ap (count a) (sent-after_mark r.put r.day a b))
advance-Covers max_drops r a (rechecking day) b = idle _ _ _ refl
advance-Covers max_drops r a (sending day) b = send-Covers r.blockhash r.send day a b
advance-Covers max_drops r a (confirming day) b = confirm-Covers r.confirm day a b
advance-Covers max_drops r a (releasing day reason) b =
    idle _ _ _ (ap (count a) (sent-released r.deleted day a b))
advance-Covers max_drops r a noting b = inl (omega (arith, ap (count a) (sent-noted r.put a b)))
advance-Covers max_drops r a (ended response) b = inl (omega arith)

sent-broadcast :
    (blockhash : Bool) (send : Send) (a x : ℕ) (b : Blobs)
    → (a == x) ≡ false
    → count x (broadcast blockhash send a b).sent ≡ count x b.sent
sent-broadcast false send a x b e = refl
sent-broadcast true accepted a x b e = ground (arith, e)
sent-broadcast true rejected a x b e = refl
sent-broadcast true unclear_send a x b e = ground (arith, e)

sent-forget :
    (c : Confirm) (a x : ℕ) (b : Blobs)
    → (a == x) ≡ false
    → count x (forget c a b).sent ≡ count x b.sent
sent-forget confirmed a x b e = refl
sent-forget failed_on_chain a x b e = count-remove_other a x b.sent e
sent-forget unclear a x b e = refl

-- A call for another wallet leaves the transfers to this one.
advance-count_other :
    (max_drops : ℕ) (r : Reply) (a x : ℕ) (p : Phase) (b : Blobs)
    → (a == x) ≡ false
    → count x (advance max_drops r a p b).1.sent ≡ count x b.sent
unfolding advance
advance-count_other max_drops r a x funds b e = refl
advance-count_other max_drops r a x budget b e = refl
advance-count_other max_drops r a x claiming b e =
    ap (count x) (sent-after_claim (includes b.wallets a) r.put r.head a b)
advance-count_other max_drops r a x marking b e = ap (count x) (sent-after_mark r.put r.day a b)
advance-count_other max_drops r a x (rechecking day) b e = refl
advance-count_other max_drops r a x (sending day) b e = sent-broadcast r.blockhash r.send a x b e
advance-count_other max_drops r a x (confirming day) b e = sent-forget r.confirm a x b e
advance-count_other max_drops r a x (releasing day reason) b e =
    ap (count x) (sent-released r.deleted day a b)
advance-count_other max_drops r a x noting b e = ap (count x) (sent-noted r.put a b)
advance-count_other max_drops r a x (ended response) b e = refl

moved_count :
    (max_drops : ℕ) (r : Reply) (a : ℕ) (d : Drip) (b : Blobs) (t : Bool)
    → (d.address == a) ≡ t
    → Covers
        (count a b.sent)
        (if t then may_pay d.phase else 0)
        (count a (advance max_drops r d.address d.phase b).1.sent)
        (if t then may_pay (advance max_drops r d.address d.phase b).0 else 0)
moved_count max_drops r a d b true e =
    subst
      (λ x.
        Covers (count x b.sent) (may_pay d.phase)
          (count x (advance max_drops r d.address d.phase b).1.sent)
          (may_pay (advance max_drops r d.address d.phase b).0))
      ((==_iff d.address a).0 e) (advance-Covers max_drops r d.address d.phase b)
moved_count max_drops r a d b false e =
    idle _ _ _ (advance-count_other max_drops r d.address a d.phase b e)

-- The request that made the call stands for another number of transfers, and the others for the same.
abbrev pub Stands : ℕ → List Drip → Blobs → List Drip × Blobs → Type 0
Stands a ds b x =
    (p p' : ℕ) × (payments a x.0 + p ≡ payments a ds + p')
    × (p ≤ payments a ds)
    × Covers (count a b.sent) p (count a x.1.sent) p'

pub step_in-Stands :
    (max_drops i : ℕ) (r : Reply) (a : ℕ) (ds : List Drip) (b : Blobs)
    → Stands a ds b (step_in max_drops i r ds b)
unfolding step_in
step_in-Stands max_drops i r a [] b = (0, 0, refl, omega arith, idle _ _ _ refl)
step_in-Stands max_drops zero r a (d ∷ ds) b = (
  if d.address == a then may_pay d.phase else 0,
  if d.address == a then may_pay (advance max_drops r d.address d.phase b).0 else 0,
  omega arith,
  omega arith,
  moved_count max_drops r a d b (d.address == a) refl,
)
step_in-Stands max_drops (suc i) r a (d ∷ ds) b =
    let h = step_in-Stands max_drops i r a ds b in
    (h.0, h.1, omega (arith, h.2), omega (arith, h.3), h.4)
