-- ===== src/App/Accounts/Turns.antt =====
-- One request of app/app/api/accounts/route.ts among the others.
use collateralized_agents.Base.{
  ℕ, zero, suc, ◌≤◌, Bool, false, ◌≡◌, refl, Option, List, [], ◌∷◌, if_ind, All, inl, inr, ◌⊎◌,
  arith,
}
use collateralized_agents.App.Accounts.{
  Snapshot, unavailable, Phase, answered, Request, World, Load, resume, resume_all, go_on, go_on_at,
  Event, turn, ends, step,
}
use collateralized_agents.App.Accounts.Shared.{Fits, level, resume-le}

-- The phase of the `j`-th request. A request that is not there counts as answered.
abbrev pub phase_at : ℕ → List Request → Phase
phase_at j [] = answered 0 unavailable
phase_at zero (r ∷ rs) = r.phase
phase_at (suc j) (r ∷ rs) = phase_at j rs

pub Fits-at :
    (top i : ℕ) (b : Bool) (rs : List Request)
    → All (λ r. Fits top b r.min_slot r.phase) rs
    → (m : ℕ) × Fits top b m (phase_at i rs)
Fits-at top i b [] h = (0, (omega arith, refl))
Fits-at top zero b (r ∷ rs) h = (r.min_slot, h.0)
Fits-at top (suc i) b (r ∷ rs) h = Fits-at top i b rs h.1

-- The load in flight ends for a request, when the cache is no older than before.
abbrev pub Resumed : Load → ℕ → Phase → Phase → Type 0
Resumed load top p q =
    (c : Option Snapshot) × (m : ℕ) × (top ≤ level c) × (q ≡ (resume load c m p).1)

pub resume_all-Resumed :
    (load : Load) (j : ℕ) (c : Option Snapshot) (rs : List Request)
    → Resumed load (level c) (phase_at j rs) (phase_at j (resume_all load c rs).1)
unfolding resume_all resume
resume_all-Resumed load j c [] = (c, 0, omega arith, refl)
resume_all-Resumed load zero c (r ∷ rs) = (c, r.min_slot, omega arith, refl)
resume_all-Resumed load (suc j) c (r ∷ rs) =
    let x = resume load c r.min_slot r.phase in
    let h = resume_all-Resumed load j x.0 rs in
    (h.0, h.1, omega (arith, resume-le load c r.min_slot r.phase, h.2), h.3)

-- A request's own turn.
abbrev pub Turned : ℕ → Option Snapshot → Phase → Phase → Type 0
Turned now c p q = (r : Request) × (q ≡ go_on now c r p)

pub go_on_at_self :
    (j now : ℕ) (c : Option Snapshot) (rs : List Request)
    → Turned now c (phase_at j rs) (phase_at j (go_on_at j now c rs).1)
unfolding go_on_at go_on
go_on_at_self j now c [] =
    (record { fresh = false; min_slot = 0; phase = answered 0 unavailable }, refl)
go_on_at_self zero now c (r ∷ rs) = (r, refl)
go_on_at_self (suc j) now c (r ∷ rs) = go_on_at_self j now c rs

go_on_at-Turned :
    (i j now : ℕ) (c : Option Snapshot) (rs : List Request)
    → (phase_at j (go_on_at i now c rs).1 ≡ phase_at j rs)
      ⊎ Turned now c (phase_at j rs) (phase_at j (go_on_at i now c rs).1)
unfolding go_on_at
go_on_at-Turned i j now c [] = inl refl
go_on_at-Turned zero zero now c (r ∷ rs) = inr (r, refl)
go_on_at-Turned zero (suc j) now c (r ∷ rs) = inl refl
go_on_at-Turned (suc i) zero now c (r ∷ rs) = inl refl
go_on_at-Turned (suc i) (suc j) now c (r ∷ rs) = go_on_at-Turned i j now c rs

-- What one event does to a request: nothing, its turn, or the end of the load in flight.
module _ (j : ℕ) (P : Phase → Type 0) where
  pub step_at :
      (e : Event) (w : World)
      → P (phase_at j w.requests)
      → ((now : ℕ) (q : Phase) → Turned now w.cache (phase_at j w.requests) q → P q)
      → ((load : Load) (q : Phase) → Resumed load (level w.cache) (phase_at j w.requests) q → P q)
      → P (phase_at j (step e w).requests)
  unfolding step
  step_at (turn i now) w h f g = elim (go_on_at-Turned i j now w.cache w.requests) [
    | inl e ↦ rw e h
    | inr t ↦ f now _ t
  ]
  step_at (ends load) w h f g =
      if_ind (λ (v : World). P (phase_at j v.requests)) w.inflight _ w
        (λ e. g load _ (resume_all-Resumed load j w.cache w.requests)) (λ e. h)
