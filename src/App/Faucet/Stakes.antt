-- ===== src/App/Faucet/Stakes.antt =====
-- The stakes that the requests of app/app/api/faucet/route.ts hold in a wallet, call by call.
use collateralized_agents.Base.{
  ℕ, zero, suc, ◌+◌, ◌≤◌, Bool, true, false, ◌≡◌, refl, sym, ap, subst, List, [], ◌∷◌, includes,
  ◌==◌, ==_iff, if◌then◌else◌, arith, inl, if_ind,
}
use collateralized_agents.App.Faucet.{
  Phase, funds, budget, claiming, marking, rechecking, sending, confirming, noting, releasing,
  ended, Put, stored, unheard, not_stored, Reply, Blobs, delete_both, after_claim, after_mark,
  noted, advance, Drip, step_in,
}
use collateralized_agents.App.Faucet.Claims.{
  stake, sum_of, Changes, includes-add_wallet, includes-keep, same, add_day_wallets,
  wallets-broadcast, wallets-forget, advance-Changes,
}

-- A call for another wallet leaves the marker of this one.
advance-other :
    (max_drops : ℕ) (r : Reply) (a x : ℕ) (p : Phase) (b : Blobs)
    → (a == x) ≡ false
    → includes (advance max_drops r a p b).1.wallets x ≡ includes b.wallets x
unfolding advance after_claim after_mark noted delete_both
advance-other max_drops r a x funds b e = refl
advance-other max_drops r a x budget b e = refl
advance-other max_drops r a x claiming b e = claim (includes b.wallets a) r.put
  where
    claim :
        (m : Bool) (put : Put)
        → includes (after_claim m put r.head a b).1.wallets x ≡ includes b.wallets x
    claim true put = refl
    claim false stored = includes-add_wallet a x b e
    claim false unheard = includes-add_wallet a x b e
    claim false not_stored = refl
advance-other max_drops r a x marking b e = mark r.put
  where
    mark : (put : Put) → includes (after_mark put r.day a b).1.wallets x ≡ includes b.wallets x
    mark stored = ap (λ ws. includes ws x) (add_day_wallets r.day a b)
    mark unheard = ap (λ ws. includes ws x) (add_day_wallets r.day a b)
    mark not_stored = refl
advance-other max_drops r a x (rechecking day) b e = refl
advance-other max_drops r a x (sending day) b e =
    ap (λ ws. includes ws x) (wallets-broadcast r.blockhash r.send a b)
advance-other max_drops r a x (confirming day) b e =
    ap (λ ws. includes ws x) (wallets-forget r.confirm a b)
advance-other max_drops r a x (releasing day reason) b e =
    if_ind (λ c. includes c.wallets x ≡ includes b.wallets x) r.deleted (delete_both day a b) b
      (λ d. includes-keep a x b.wallets e) (λ d. refl)
advance-other max_drops r a x noting b e = note r.put
  where
    note : (put : Put) → includes (noted put a b).wallets x ≡ includes b.wallets x
    note stored = includes-add_wallet a x b e
    note unheard = includes-add_wallet a x b e
    note not_stored = refl
advance-other max_drops r a x (ended response) b e = refl

abbrev pub stakes : ℕ → List Drip → ℕ
stakes a ds = sum_of stake a ds

-- One stake changes, and the others stay.
abbrev pub Moves : ℕ → List Drip → Blobs → List Drip × Blobs → Type 0
Moves a ds b x =
    (s s' : ℕ) × (stakes a x.0 + s ≡ stakes a ds + s')
    × (s ≤ stakes a ds)
    × Changes s (includes b.wallets a) s' (includes x.1.wallets a)

-- A call of the request itself, whether or not it is for this wallet.
moved :
    (max_drops : ℕ) (r : Reply) (a : ℕ) (d : Drip) (b : Blobs) (t : Bool)
    → (d.address == a) ≡ t
    → Changes
        (if t then stake d.phase else 0)
        (includes b.wallets a)
        (if t then stake (advance max_drops r d.address d.phase b).0 else 0)
        (includes (advance max_drops r d.address d.phase b).1.wallets a)
moved max_drops r a d b true e =
    subst
      (λ x.
        Changes (stake d.phase) (includes b.wallets x)
          (stake (advance max_drops r d.address d.phase b).0)
          (includes (advance max_drops r d.address d.phase b).1.wallets x))
      ((==_iff d.address a).0 e) (advance-Changes max_drops r d.address d.phase b)
moved max_drops r a d b false e =
    (omega arith, inl (refl, sym (advance-other max_drops r d.address a d.phase b e)))

pub step_in-Moves :
    (max_drops i : ℕ) (r : Reply) (a : ℕ) (ds : List Drip) (b : Blobs)
    → Moves a ds b (step_in max_drops i r ds b)
unfolding step_in
step_in-Moves max_drops i r a [] b = (0, 0, refl, omega arith, same 0 _ (omega arith))
step_in-Moves max_drops zero r a (d ∷ ds) b = (
  if d.address == a then stake d.phase else 0,
  if d.address == a then stake (advance max_drops r d.address d.phase b).0 else 0,
  omega arith,
  omega arith,
  moved max_drops r a d b (d.address == a) refl,
)
step_in-Moves max_drops (suc i) r a (d ∷ ds) b =
    let h = step_in-Moves max_drops i r a ds b in
    (h.0, h.1, omega (arith, h.2), omega (arith, h.3), h.4)
