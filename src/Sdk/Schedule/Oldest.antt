-- ===== src/Sdk/Schedule/Oldest.antt =====
-- The position that sdk/src/runner.ts draws next.
use collateralized_agents.Base.{
  ℕ, suc, ℤ, ◌≤ℤ◌, leb_ℤ, true, ◌≡◌, refl, Option, none, some, List, [], ◌∷◌, All, All-map, arith,
  if_ind,
}
use collateralized_agents.Agent.System.{is_opened}
use collateralized_agents.Sdk.Schedule.{
  OpenPosition, has_time, drawable, put, sort, first, next_to_draw,
}

-- Sorted by the time of opening.
abbrev Sorted : List OpenPosition → Type 0
Sorted [] = Unit
Sorted (p ∷ ps) = All (λ q. p.opened_at ≤ℤ q.opened_at) ps × Sorted ps

module _ (P : OpenPosition → Type 0) where
  put-All : (p : OpenPosition) (qs : List OpenPosition) → P p → All P qs → All P (put p qs)
  unfolding put
  put-All p [] h k = (h, tt)
  put-All p (q ∷ qs) h k =
      if_ind (All P) (leb_ℤ p.opened_at q.opened_at) _ _ (λ e. (h, k))
        (λ e. (k.0, put-All p qs h k.1))

  sort-All : (ps : List OpenPosition) → All P ps → All P (sort ps)
  unfolding sort
  sort-All [] h = tt
  sort-All (p ∷ ps) h = put-All p (sort ps) h.0 (sort-All ps h.1)

put-Sorted : (p : OpenPosition) (qs : List OpenPosition) → Sorted qs → Sorted (put p qs)
unfolding put
put-Sorted p [] h = (tt, tt)
put-Sorted p (q ∷ qs) h =
    if_ind Sorted (leb_ℤ p.opened_at q.opened_at) _ _
      (λ e. (
        (
          ground arith,
          All-map (λ r. q.opened_at ≤ℤ r.opened_at) (λ r. p.opened_at ≤ℤ r.opened_at)
              (λ r k. ground arith) qs h.0,
        ),
        h,
      ))
      (λ e.
        (put-All (λ r. q.opened_at ≤ℤ r.opened_at) p qs (ground arith) h.0, put-Sorted p qs h.1))

sort-Sorted : (ps : List OpenPosition) → Sorted (sort ps)
unfolding sort
sort-Sorted [] = tt
sort-Sorted (p ∷ ps) = put-Sorted p (sort ps) (sort-Sorted ps)

-- `p` may be drawn: it is open, and some reading of the clock leaves it time.
abbrev pub MayDraw : ℕ → (ℕ → ℤ) → OpenPosition → Type 0
MayDraw buffer_secs now p =
    (is_opened p.status ≡ true) × ((n : ℕ) × (has_time buffer_secs (now n) p ≡ true))

drawable-All :
    (buffer_secs : ℕ) (now : ℕ → ℤ) (n : ℕ) (ps : List OpenPosition)
    → All (MayDraw buffer_secs now) (drawable buffer_secs now n ps)
unfolding drawable
drawable-All buffer_secs now n [] = tt
drawable-All buffer_secs now n (p ∷ ps) =
    let d = All (MayDraw buffer_secs now) in
    if_ind d (is_opened p.status) _ _
      (λ o.
        if_ind d (has_time buffer_secs (now n) p) _ _
          (λ t. ((o, (n, t)), drawable-All buffer_secs now (suc n) ps))
          (λ t. drawable-All buffer_secs now (suc n) ps))
      (λ o. drawable-All buffer_secs now n ps)

module _ (P : OpenPosition → Type 0) where
  put-All_back : (p : OpenPosition) (qs : List OpenPosition) → All P (put p qs) → P p × All P qs
  unfolding put
  put-All_back p [] h = (h.0, tt)
  put-All_back p (q ∷ qs) h =
      if_ind (λ rs. All P rs → P p × All P (q ∷ qs)) (leb_ℤ p.opened_at q.opened_at) _ _
        (λ e h. (h.0, h.1)) (λ e h. let k = put-All_back p qs h.1 in (k.0, (h.0, k.1))) h

  sort-All_back : (ps : List OpenPosition) → All P (sort ps) → All P ps
  unfolding sort
  sort-All_back [] h = tt
  sort-All_back (p ∷ ps) h = let k = put-All_back p (sort ps) h in (k.0, sort-All_back ps k.1)

-- `o` is the oldest of the positions that may be drawn, or there is none of them.
abbrev pub IsNext : ℕ → (ℕ → ℤ) → List OpenPosition → Option OpenPosition → Type 0
IsNext buffer_secs now ds none = ds ≡ []
IsNext buffer_secs now ds (some p) =
    MayDraw buffer_secs now p × All (λ q. p.opened_at ≤ℤ q.opened_at) ds

put-some : (p : OpenPosition) (qs : List OpenPosition) → first (put p qs) ≡ none → ⊥
unfolding put
put-some p [] h = cc
put-some p (q ∷ qs) h =
    if_ind (λ rs. first rs ≡ none → ⊥) (leb_ℤ p.opened_at q.opened_at) _ _ (λ e h. cc) (λ e h. cc) h

sort-none : (ps : List OpenPosition) → first (sort ps) ≡ none → ps ≡ []
unfolding sort
sort-none [] h = refl
sort-none (p ∷ ps) h = absurd (put-some p (sort ps) h)

first-IsNext :
    (buffer_secs : ℕ) (now : ℕ → ℤ) (ds ss : List OpenPosition)
    → (first ss ≡ none → ds ≡ [])
    → All (MayDraw buffer_secs now) ss
    → Sorted ss
    → ((P : OpenPosition → Type 0) → All P ss → All P ds)
    → IsNext buffer_secs now ds (first ss)
first-IsNext buffer_secs now ds [] e h s back = e refl
first-IsNext buffer_secs now ds (p ∷ ss) e h s back =
    (h.0, back (λ q. p.opened_at ≤ℤ q.opened_at) (omega arith, s.0))

-- What is drawn next is open with time left, and no position that may be drawn was opened before it;
-- nothing is drawn only when no position may be.
pub next_to_draw-IsNext :
    (buffer_secs : ℕ) (now : ℕ → ℤ) (ps : List OpenPosition)
    → IsNext buffer_secs now (drawable buffer_secs now 0 ps) (next_to_draw buffer_secs now ps)
unfolding next_to_draw
next_to_draw-IsNext buffer_secs now ps =
    let ds = drawable buffer_secs now 0 ps in
    first-IsNext buffer_secs now ds (sort ds) (sort-none ds)
      (sort-All (MayDraw buffer_secs now) ds (drawable-All buffer_secs now 0 ps)) (sort-Sorted ds)
      (λ P. sort-All_back P ds)
