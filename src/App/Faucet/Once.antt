-- ===== src/App/Faucet/Once.antt =====
-- The payments of app/app/api/faucet/route.ts to one wallet, over the calls of all requests.
use collateralized_agents.Base.{
  ℕ, zero, suc, ◌≤◌, Bool, true, false, ◌≡◌, refl, sym, ◌∙◌, List, [], ◌∷◌, includes, ◌==◌,
  if◌then◌else◌, arith, inl, inr,
}
use collateralized_agents.App.Faucet.{Phase, funds, Reply, Blobs, Drip, World, step_in, run}
use collateralized_agents.App.Faucet.Transfers.{count, Stands, step_in-Stands}
use collateralized_agents.App.Faucet.Claims.{may_pay, stake, payments}
use collateralized_agents.App.Faucet.Stakes.{stakes, Moves, step_in-Moves}

-- At most one request holds the claim of a wallet or may have paid it, and then its marker is there.
abbrev pub IsOnce : ℕ → World → Type 0
IsOnce a w = (stakes a w.drips ≤ 1) × (1 ≤ stakes a w.drips → includes w.blobs.wallets a ≡ true)

-- Its marker is there, and no request holds its claim.
abbrev IsClosed : ℕ → World → Type 0
IsClosed a w = (stakes a w.drips ≡ 0) × (includes w.blobs.wallets a ≡ true)

none_held : (n : ℕ) (m : Bool) → (1 ≤ n → m ≡ true) → m ≡ false → n ≡ 0
none_held zero m h f = refl
none_held (suc n) m h f = absurd (true_not_false (sym (h (omega arith)) ∙ f))
  where
    true_not_false : true ≡ false → ⊥
    true_not_false e = cc

pub move-IsOnce :
    (a : ℕ) (ds : List Drip) (b : Blobs) (x : List Drip × Blobs)
    → Moves a ds b x
    → IsOnce a (record { drips = ds; blobs = b })
    → IsOnce a (record { drips = x.0; blobs = x.1 })
move-IsOnce a ds b x (s, s', e, l, (c, inl (q, m))) h =
    (omega (arith, h.0, e, q), λ k. sym m ∙ h.1 (omega (arith, e, q, k)))
move-IsOnce a ds b x (s, s', e, l, (c, inr (inl (z, f, t)))) h =
    (omega (arith, e, c, none_held (stakes a ds) _ h.1 f), λ k. t)
move-IsOnce a ds b x (s, s', e, l, (c, inr (inr (o, g)))) h =
    (omega (arith, h.0, e, c, l, o), λ k. g (omega (arith, h.0, e, c, l, o, k)))

run-IsOnce :
    (max_drops : ℕ) (a : ℕ) (calls : List (ℕ × Reply)) (w : World)
    → IsOnce a w
    → IsOnce a (run max_drops calls w)
unfolding run
run-IsOnce max_drops a [] w h = h
run-IsOnce max_drops a (c ∷ calls) w h = run-IsOnce max_drops a calls _ (
    move-IsOnce a w.drips w.blobs (step_in max_drops c.0 c.1 w.drips w.blobs)
      (step_in-Moves max_drops c.0 c.1 a w.drips w.blobs) h)

may_pay-le : (p : Phase) → may_pay p ≤ stake p
may_pay-le p = ground arith

payments-le : (a : ℕ) (ds : List Drip) → payments a ds ≤ stakes a ds
payments-le a [] = omega arith
payments-le a (d ∷ ds) = omega (arith, one (d.address == a), payments-le a ds)
  where
    one : (t : Bool) → (if t then may_pay d.phase else 0) ≤ (if t then stake d.phase else 0)
    one true = may_pay-le d.phase
    one false = omega arith

-- Requests that have just begun.
abbrev pub begun : List ℕ → List Drip
begun [] = []
begun (a ∷ as') = record { address = a; phase = funds } ∷ begun as'

pub stakes-begun : (a : ℕ) (as' : List ℕ) → stakes a (begun as') ≡ 0
stakes-begun a [] = refl
stakes-begun a (x ∷ as') = ground (arith, stakes-begun a as')

stand-le :
    (a : ℕ) (ds : List Drip) (b : Blobs) (x : List Drip × Blobs)
    → Stands a ds b x
    → count a b.sent ≤ payments a ds
    → count a x.1.sent ≤ payments a x.0
stand-le a ds b x (p, p', e, l, inl c) h = omega (arith, e, l, c, h)
stand-le a ds b x (p, p', e, l, inr c) h = omega (arith, c)

run-le :
    (max_drops : ℕ) (a : ℕ) (calls : List (ℕ × Reply)) (w : World)
    → count a w.blobs.sent ≤ payments a w.drips
    → count a (run max_drops calls w).blobs.sent ≤ payments a (run max_drops calls w).drips
unfolding run
run-le max_drops a [] w h = h
run-le max_drops a (c ∷ calls) w h =
    let x : List Drip × Blobs = step_in max_drops c.0 c.1 w.drips w.blobs in
    run-le max_drops a calls (record { drips = x.0; blobs = x.1 })
      (stand-le a w.drips w.blobs x (step_in-Stands max_drops c.0 c.1 a w.drips w.blobs) h)

-- However the calls of any number of requests interleave, and however the calls of the storage and of the
-- cluster fail, at most one transfer to a wallet has landed or may land, when there is none at the start. A
-- `put` that may not overwrite creates its file at once or not at all, a list shows what is stored, a
-- transfer that the node rejects does not land, and one that fails on chain pays nothing.
pub run-count :
    (max_drops : ℕ) (a : ℕ) (addresses : List ℕ) (calls : List (ℕ × Reply)) (b : Blobs)
    → count a b.sent ≡ 0
    → count a (run max_drops calls (record { drips = begun addresses; blobs = b })).blobs.sent ≤ 1
run-count max_drops a addresses calls b h =
    let w : World = record { drips = begun addresses; blobs = b } in
    omega (
      arith,
      run-le max_drops a calls w (omega (arith, h)),
      payments-le a (run max_drops calls w).drips,
      (run-IsOnce max_drops a calls w (
        omega (arith, stakes-begun a addresses),
        λ k. absurd (omega (arith, k, stakes-begun a addresses)),
      )).0,
    )
