-- ===== src/App/Faucet/Marked.antt =====
-- The day markers of app/app/api/faucet/route.ts, counted against the requests that hold one.
use collateralized_agents.Base.{
  ℕ, zero, suc, ◌+◌, ◌≤◌, Bool, true, false, not, ◌&&◌, ◌≡◌, refl, List, [], ◌∷◌, keep_if, All,
  ◌==◌, ==_self, arith, inl, inr, Bool-cases,
}
use collateralized_agents.App.Faucet.{Phase, rechecking, Drip, count_on, has_day}
use collateralized_agents.App.Faucet.Claims.{may_pay, sum_of}

-- A request past the second count: it sends, or may have paid.
abbrev pub passed : Phase → ℕ
passed (Phase.sending day) = 1
passed p = may_pay p

-- A request that needs its day marker: it is about to count again, or it is past that.
abbrev pub needs : Phase → ℕ
needs (rechecking day) = 1
needs p = passed p

abbrev pub total : (Phase → ℕ) → List Drip → ℕ
total f [] = 0
total f (d ∷ ds) = f d.phase + total f ds

-- What a request needs is there.
abbrev pub HasMarker : ℕ → List (ℕ × ℕ) → Drip → Type 0
HasMarker day days d = 1 ≤ needs d.phase → has_day day d.address days ≡ true

abbrev is_marker : ℕ → ℕ → ℕ × ℕ → Bool
is_marker day a m = (m.0 == day) && (m.1 == a)

abbrev without : ℕ → ℕ → List (ℕ × ℕ) → List (ℕ × ℕ)
without day a days = keep_if (λ m. not (is_marker day a m)) days

count_on-keep :
    (day : ℕ) (p : ℕ × ℕ → Bool) (days : List (ℕ × ℕ))
    → count_on day (keep_if p days) ≤ count_on day days
unfolding count_on
count_on-keep day p [] = omega arith
count_on-keep day p (m ∷ days) = ground (arith, count_on-keep day p days)

count_on-without :
    (day a : ℕ) (days : List (ℕ × ℕ))
    → has_day day a days ≡ true
    → count_on day (without day a days) + 1 ≤ count_on day days
unfolding count_on
count_on-without day a [] h = cc
count_on-without day a (m ∷ days) h =
    ground
      (arith, count_on-without day a days, count_on-keep day (λ n. not (is_marker day a n)) days)

has_day-without :
    (day a x : ℕ) (days : List (ℕ × ℕ))
    → (x == a) ≡ false
    → has_day day x days ≡ true
    → has_day day x (without day a days) ≡ true
has_day-without day a x [] e h = h
has_day-without day a x (m ∷ days) e h = ground (arith, has_day-without day a x days)

-- The requests of a list in which no request for `a` needs a marker do without the one of `a`.
do_without :
    (day a : ℕ) (days : List (ℕ × ℕ)) (ds : List Drip)
    → sum_of needs a ds ≡ 0
    → All (HasMarker day days) ds
    → All (HasMarker day (without day a days)) ds
do_without day a days [] z h = tt
do_without day a days (d ∷ ds) z h = (
  λ n. elim (Bool-cases (d.address == a)) [
    | inl e ↦ absurd (ground (arith, z, n, e))
    | inr e ↦ has_day-without day a d.address days e (h.0 n)
  ],
  do_without day a days ds (ground (arith, z)) h.1,
)

-- No more requests need a marker of the day than there are, when each wallet has one that does at most.
pub total-le :
    (day : ℕ) (days : List (ℕ × ℕ)) (ds : List Drip)
    → ((a : ℕ) → sum_of needs a ds ≤ 1)
    → All (HasMarker day days) ds
    → total needs ds ≤ count_on day days
total-le day days [] u h = omega arith
total-le day days (d ∷ ds) u h =
    by_need (needs d.phase) refl (λ k. total-le day days ds (λ a. omega (arith, u a)) k)
      (λ k. total-le day (without day d.address days) ds (λ a. omega (arith, u a)) k)
  where
    u_self : needs d.phase + sum_of needs d.address ds ≤ 1
    u_self = ground (arith, u d.address, ==_self d.address)

    by_need :
        (n : ℕ)
        → needs d.phase ≡ n
        → (All (HasMarker day days) ds → total needs ds ≤ count_on day days)
        → (All (HasMarker day (without day d.address days)) ds
            → total needs ds ≤ count_on day (without day d.address days))
        → needs d.phase + total needs ds ≤ count_on day days
    by_need zero e same fewer = omega (arith, e, same h.1)
    by_need (suc n) e same fewer = omega (
      arith,
      u_self,
      fewer (do_without day d.address days ds (omega (arith, u_self, e)) h.1),
      count_on-without day d.address days (h.0 (omega (arith, e))),
    )
