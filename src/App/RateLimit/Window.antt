-- ===== src/App/RateLimit/Window.antt =====
-- The times that the limiter of app/lib/rateLimit.ts keeps for a key, and what is left of them at a later time.
use collateralized_agents.Base.{
  ℕ, ◌+◌, ◌≤◌, ◌<◌, true, false, not, ◌≡◌, refl, inl, inr, none, List, [], ◌∷◌, ◌++◌, length,
  keep_if, All, Dict, lookup, ◌==◌, ==_iff, Bool-cases, if_ind, arith,
}
use collateralized_agents.App.RateLimit.{is_recent, is_stale, sweep, times_of}

-- How many of the times are recent at `t`.
abbrev pub fresh : ℕ → ℕ → List ℕ → ℕ
fresh w t ts = length (keep_if (is_recent w t) ts)

abbrev pub tracked : ℕ → ℕ → Dict (List ℕ) → ℕ
tracked w t [] = 0
tracked w t (e ∷ hits) = fresh w t e.1 + tracked w t hits

abbrev pub Distinct : Dict (List ℕ) → Type 0
Distinct [] = Unit
Distinct ((k, ts) ∷ hits) = (lookup k hits ≡ none) × Distinct hits

pub times_here :
    (k j : ℕ) (ts : List ℕ) (hits : Dict (List ℕ))
    → (j == k) ≡ true
    → times_of k ((j, ts) ∷ hits) ≡ ts
unfolding lookup
times_here k j ts hits h = ground arith

pub times_there :
    (k j : ℕ) (ts : List ℕ) (hits : Dict (List ℕ))
    → (j == k) ≡ false
    → times_of k ((j, ts) ∷ hits) ≡ times_of k hits
unfolding lookup
times_there k j ts hits h = ground arith

same_key :
    (k j : ℕ) (hits : Dict (List ℕ)) → (j == k) ≡ true → lookup j hits ≡ none → times_of k hits ≡ []
same_key k j hits e h = grind (arith, ==_iff j k)

module _ (w : ℕ) where
  fresh-le : (s t : ℕ) (ts : List ℕ) → s ≤ t → fresh w t ts ≤ fresh w s ts
  fresh-le s t [] h = omega arith
  fresh-le s t (x ∷ ts) h = ground (arith, fresh-le s t ts h)

  not_stale : (t : ℕ) (ts : List ℕ) → is_stale w t ts ≡ false → 0 < fresh w t ts
  unfolding is_stale
  not_stale t [] h = cc
  not_stale t (x ∷ []) h = ground arith
  not_stale t (x ∷ y ∷ ts) h = ground (arith, not_stale t (y ∷ ts) h)

  -- What was filtered earlier has lost nothing that is recent.
  pub fresh-recent :
      (now t : ℕ) (ts : List ℕ)
      → now ≤ t
      → fresh w t (keep_if (is_recent w now) ts ++ now ∷ []) ≡ fresh w t (now ∷ []) + fresh w t ts
  fresh-recent now t [] h = omega arith
  fresh-recent now t (x ∷ ts) h = ground (arith, fresh-recent now t ts h)

  pub is_stale-snoc :
      (t now : ℕ) (ts : List ℕ) → is_stale w t (ts ++ now ∷ []) ≡ not (is_recent w t now)
  unfolding is_stale
  is_stale-snoc t now [] = refl
  is_stale-snoc t now (x ∷ []) = refl
  is_stale-snoc t now (x ∷ y ∷ ts) = is_stale-snoc t now (y ∷ ts)

  pub old : (now t : ℕ) (ts : List ℕ) → All (λ s. s ≤ now) ts → now + w ≤ t → fresh w t ts ≡ 0
  old now t [] h k = refl
  old now t (x ∷ ts) h k = ground (arith, h.0, old now t ts h.1 k)

  pub length-sweep-le :
      (now : ℕ) (hits : Dict (List ℕ)) → length (sweep w now hits) ≤ tracked w now hits
  unfolding sweep
  length-sweep-le now [] = omega arith
  length-sweep-le now (e ∷ hits) =
      if_ind (λ xs. length xs ≤ tracked w now (e ∷ hits)) (not (is_stale w now e.1))
        (e ∷ sweep w now hits) (sweep w now hits)
        (λ h. omega (arith, not_stale now e.1 (ground arith), length-sweep-le now hits))
        (λ h. omega (arith, length-sweep-le now hits))

  pub tracked-sweep-le :
      (now t : ℕ) (hits : Dict (List ℕ)) → tracked w t (sweep w now hits) ≤ tracked w t hits
  unfolding sweep
  tracked-sweep-le now t [] = omega arith
  tracked-sweep-le now t (e ∷ hits) =
      if_ind (λ xs. tracked w t xs ≤ tracked w t (e ∷ hits)) (not (is_stale w now e.1))
        (e ∷ sweep w now hits) (sweep w now hits) (λ h. omega (arith, tracked-sweep-le now t hits))
        (λ h. omega (arith, tracked-sweep-le now t hits))

  lookup-sweep-none :
      (now k : ℕ) (hits : Dict (List ℕ)) → lookup k hits ≡ none → lookup k (sweep w now hits) ≡ none
  unfolding sweep lookup
  lookup-sweep-none now k [] h = refl
  lookup-sweep-none now k (e ∷ hits) h =
      if_ind (λ xs. lookup k xs ≡ none) (not (is_stale w now e.1)) (e ∷ sweep w now hits)
        (sweep w now hits) (λ i. ground (arith, lookup-sweep-none now k hits))
        (λ i. ground (arith, lookup-sweep-none now k hits))

  pub Distinct-sweep :
      (now : ℕ) (hits : Dict (List ℕ)) → Distinct hits → Distinct (sweep w now hits)
  unfolding sweep
  Distinct-sweep now [] h = tt
  Distinct-sweep now (e ∷ hits) h =
      if_ind Distinct (not (is_stale w now e.1)) (e ∷ sweep w now hits) (sweep w now hits)
        (λ i. (lookup-sweep-none now e.0 hits h.0, Distinct-sweep now hits h.1))
        (λ i. Distinct-sweep now hits h.1)

  -- A stale entry has no recent time.
  abbrev pub Ends : List ℕ → Type 0
  Ends ts = (t : ℕ) → is_stale w t ts ≡ true → fresh w t ts ≡ 0

  abbrev pub Bounded : ℕ → ℕ × List ℕ → Type 0
  Bounded now e = All (λ s. s ≤ now) e.1 × Ends e.1

  zero_at : {m n : ℕ} → m ≤ n → n ≡ 0 → 0 ≡ m
  zero_at h k = omega arith

  pub fresh-sweep :
      (now t k : ℕ) (hits : Dict (List ℕ))
      → now ≤ t
      → Distinct hits
      → All (λ e. Ends e.1) hits
      → fresh w t (times_of k (sweep w now hits)) ≡ fresh w t (times_of k hits)
  unfolding sweep lookup
  fresh-sweep now t k [] h d a = refl
  fresh-sweep now t k ((j, ts) ∷ hits) h d a =
      if_ind (λ xs. fresh w t (times_of k xs) ≡ fresh w t (times_of k ((j, ts) ∷ hits)))
        (not (is_stale w now ts)) ((j, ts) ∷ sweep w now hits) (sweep w now hits)
        (λ i. elim (Bool-cases (j == k)) [
          | inl e ↦ rw (times_here k j ts (sweep w now hits) e) (rw (times_here k j ts hits e) refl)
          | inr e ↦
              rw (times_there k j ts (sweep w now hits) e)
                (rw (times_there k j ts hits e) (fresh-sweep now t k hits h d.1 a.1))
        ])
        (λ i. elim (Bool-cases (j == k)) [
          | inl e ↦ rw (times_here k j ts hits e) (
              rw (same_key k j (sweep w now hits) e (lookup-sweep-none now j hits d.0))
                (zero_at (fresh-le now t ts h) (a.0 now (ground arith))))
          | inr e ↦ rw (times_there k j ts hits e) (fresh-sweep now t k hits h d.1 a.1)
        ])
