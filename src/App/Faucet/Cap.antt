-- ===== src/App/Faucet/Cap.antt =====
-- The cap on the payments of a day in app/app/api/faucet/route.ts.
use collateralized_agents.Base.{
  ℕ, zero, suc, ◌≤◌, ◌≡◌, refl, subst, List, [], ◌∷◌, All, if_ind, arith, inl, inr, ◌⊎◌, ltb→le,
  ltb,
}
use collateralized_agents.App.Faucet.{
  over_cap, Phase, funds, budget, claiming, marking, rechecking, sending, confirming, noting,
  releasing, ended, Reply, Blobs, count_on, after_claim, after_mark, after_send, after_confirm,
  by_balance, advance, Drip, World, step_in, run, failed,
}
use collateralized_agents.App.Faucet.Claims.{may_pay, sum_of}
use collateralized_agents.App.Faucet.Stakes.{stakes, step_in-Moves}
use collateralized_agents.App.Faucet.Once.{IsOnce, move-IsOnce, begun, stakes-begun}
use collateralized_agents.App.Faucet.Marked.{passed, needs, total, HasMarker, total-le}
use collateralized_agents.App.Faucet.Days.{needs-le, passed-le, step_in-HasMarker}

module _ (max_drops day : ℕ) where
  -- A call lets its request past the second count only when the markers of the day are not too many.
  passed_step :
      (r : Reply) (a : ℕ) (p : Phase) (b : Blobs)
      → r.day ≡ day
      → (passed (advance max_drops r a p b).0 ≤ passed p)
        ⊎ ((passed (advance max_drops r a p b).0 ≤ needs p) × (count_on day b.days ≤ max_drops))
  unfolding advance after_claim after_mark after_send after_confirm by_balance
  passed_step r a funds b e = inl (ground arith)
  passed_step r a budget b e = inl (ground arith)
  passed_step r a claiming b e = inl (ground arith)
  passed_step r a marking b e = inl (ground arith)
  passed_step r a (rechecking d) b e =
      if_ind Past r.listed _ (ended failed)
        (λ l.
          if_ind Past (ltb max_drops (count_on r.day b.days)) (releasing d over_cap) (sending d)
            (λ f. inl (omega arith))
            (λ f. inr (
              omega arith,
              subst (λ x. count_on x b.days ≤ max_drops) e
                  (ltb→le max_drops (count_on r.day b.days) f),
            )))
        (λ l. inl (omega arith))
    where
      Past : Phase → Type 0
      Past p = (passed p ≤ 0) ⊎ ((passed p ≤ 1) × (count_on day b.days ≤ max_drops))
  passed_step r a (sending d) b e = inl (ground arith)
  passed_step r a (confirming d) b e = inl (ground arith)
  passed_step r a (releasing d reason) b e = inl (ground arith)
  passed_step r a noting b e = inl (omega arith)
  passed_step r a (ended response) b e = inl (omega arith)

  total-passed-le : (ds : List Drip) → total passed ds ≤ total needs ds
  total-passed-le [] = omega arith
  total-passed-le (d ∷ ds) = omega (arith, passed-le d.phase, total-passed-le ds)

  total_step :
      (i : ℕ) (r : Reply) (ds : List Drip) (b : Blobs)
      → r.day ≡ day
      → (total passed (step_in max_drops i r ds b).0 ≤ total passed ds)
        ⊎ ((total passed (step_in max_drops i r ds b).0 ≤ total needs ds)
            × (count_on day b.days ≤ max_drops))
  unfolding step_in
  total_step i r [] b e = inl (omega arith)
  total_step zero r (d ∷ ds) b e = elim (passed_step r d.address d.phase b e) [
    | inl h ↦ inl (omega (arith, h))
    | inr h ↦ inr (omega (arith, h.0, total-passed-le ds), h.1)
  ]
  total_step (suc i) r (d ∷ ds) b e = elim (total_step i r ds b e) [
    | inl h ↦ inl (omega (arith, h))
    | inr h ↦ inr (omega (arith, h.0, passed-le d.phase), h.1)
  ]

  sum_needs-le : (a : ℕ) (ds : List Drip) → sum_of needs a ds ≤ stakes a ds
  sum_needs-le a [] = omega arith
  sum_needs-le a (d ∷ ds) = ground (arith, needs-le d.phase, sum_needs-le a ds)

  -- The requests past the second count are within the cap, and what they need is there.
  abbrev IsCapped : World → Type 0
  IsCapped w =
      ((a : ℕ) → IsOnce a w)
      × All (HasMarker day w.blobs.days) w.drips
      × (total passed w.drips ≤ max_drops)

  run-IsCapped :
      (calls : List (ℕ × Reply)) (w : World)
      → All (λ c. c.1.day ≡ day) calls
      → IsCapped w
      → IsCapped (run max_drops calls w)
  unfolding run
  run-IsCapped [] w e h = h
  run-IsCapped (c ∷ calls) w e h =
      run-IsCapped calls (record { drips = x.0; blobs = x.1 }) e.1
        (
          λ a.
              move-IsOnce a w.drips w.blobs x (step_in-Moves max_drops c.0 c.1 a w.drips w.blobs)
                (h.0 a),
          step_in-HasMarker max_drops day c.0 c.1 w.drips w.blobs e.0 (λ a. (h.0 a).0) h.1,
          elim (total_step c.0 c.1 w.drips w.blobs e.0) [
            | inl k ↦ omega (arith, k, h.2)
            | inr k ↦ omega (
              arith,
              k.0,
              k.1,
              total-le day w.blobs.days w.drips
                  (λ a. omega (arith, sum_needs-le a w.drips, (h.0 a).0)) h.1,
            )
          ],
        )
    where
      x : List Drip × Blobs
      x = step_in max_drops c.0 c.1 w.drips w.blobs

may_pay_le : (p : Phase) → may_pay p ≤ passed p
may_pay_le p = ground arith

may_pay-passed : (ds : List Drip) → total may_pay ds ≤ total passed ds
may_pay-passed [] = omega arith
may_pay-passed (d ∷ ds) = omega (arith, may_pay_le d.phase, may_pay-passed ds)

begun-HasMarker :
    (day : ℕ) (days : List (ℕ × ℕ)) (as' : List ℕ) → All (HasMarker day days) (begun as')
begun-HasMarker day days [] = tt
begun-HasMarker day days (a ∷ as') = (λ n. absurd (omega (arith, n)), begun-HasMarker day days as')

total-begun : (as' : List ℕ) → total passed (begun as') ≡ 0
total-begun [] = refl
total-begun (a ∷ as') = omega (arith, total-begun as')

-- However the calls of any number of requests interleave on one day, no more requests pay or may have paid
-- than the cap of the day. A `put` that may not overwrite creates its file at once or not at all, and a list
-- shows what is stored; the storage may hold other markers at the start.
pub run-total :
    (max_drops day : ℕ) (addresses : List ℕ) (calls : List (ℕ × Reply)) (b : Blobs)
    → All (λ c. c.1.day ≡ day) calls
    → total may_pay (run max_drops calls (record { drips = begun addresses; blobs = b })).drips
      ≤ max_drops
run-total max_drops day addresses calls b e =
    let w : World = record { drips = begun addresses; blobs = b } in
    omega (
      arith,
      may_pay-passed (run max_drops calls w).drips,
      (run-IsCapped max_drops day calls w e (
        λ a. (
          omega (arith, stakes-begun a addresses),
          λ k. absurd (omega (arith, k, stakes-begun a addresses)),
        ),
        begun-HasMarker day b.days addresses,
        omega (arith, total-begun addresses),
      )).2,
    )
