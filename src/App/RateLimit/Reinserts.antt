-- ===== src/App/RateLimit/Reinserts.antt =====
-- The entry that a call of app/lib/rateLimit.ts puts back at the newest end of the map.
use collateralized_agents.Base.{
  ℕ, ◌+◌, ◌≤◌, true, false, ◌≡◌, refl, inl, inr, none, some, List, [], ◌∷◌, ◌++◌, All, All-append,
  Dict, lookup, lookup-erase, lookup-erase_self, erase, ◌==◌, Bool-cases, if◌then◌else◌, if_ind,
  arith,
}
use collateralized_agents.App.RateLimit.{times_of, reinsert}
use collateralized_agents.App.RateLimit.Window.{fresh, tracked, Distinct, times_here, times_there}

module _ (w : ℕ) where
  tracked-snoc :
      (t key : ℕ) (ts : List ℕ) (hits : Dict (List ℕ))
      → tracked w t (hits ++ (key, ts) ∷ []) ≡ tracked w t hits + fresh w t ts
  tracked-snoc t key ts [] = omega arith
  tracked-snoc t key ts (e ∷ hits) = omega (arith, tracked-snoc t key ts hits)

  tracked-erase :
      (t key : ℕ) (hits : Dict (List ℕ))
      → tracked w t (erase key hits) + fresh w t (times_of key hits) ≤ tracked w t hits
  unfolding erase lookup
  tracked-erase t key [] = omega arith
  tracked-erase t key ((j, us) ∷ hits) =
      if_ind
        (λ xs.
          tracked w t xs + fresh w t (times_of key ((j, us) ∷ hits)) ≤ tracked w t ((j, us) ∷ hits))
        (j == key) (erase key hits) ((j, us) ∷ erase key hits)
        (λ e. rw (times_here key j us hits e) (omega (arith, tracked-erase t key hits)))
        (λ e. rw (times_there key j us hits e) (omega (arith, tracked-erase t key hits)))

  pub tracked-reinsert :
      (t key : ℕ) (ts : List ℕ) (hits : Dict (List ℕ))
      → tracked w t (reinsert key ts hits) + fresh w t (times_of key hits)
        ≤ tracked w t hits + fresh w t ts
  unfolding reinsert
  tracked-reinsert t key ts hits =
      omega (arith, tracked-snoc t key ts (erase key hits), tracked-erase t key hits)

lookup-snoc :
    (k key : ℕ) (ts : List ℕ) (hits : Dict (List ℕ))
    → lookup key hits ≡ none
    → lookup k (hits ++ (key, ts) ∷ []) ≡ (if key == k then some ts else lookup k hits)
unfolding lookup
lookup-snoc k key ts [] h = refl
lookup-snoc k key ts ((j, us) ∷ hits) h = ground (arith, lookup-snoc k key ts hits)

pub lookup-reinsert :
    (k key : ℕ) (ts : List ℕ) (hits : Dict (List ℕ))
    → lookup k (reinsert key ts hits) ≡ (if key == k then some ts else lookup k hits)
unfolding reinsert
lookup-reinsert k key ts hits = ground (
  arith,
  lookup-snoc k key ts (erase key hits) (lookup-erase_self key hits),
  lookup-erase key k hits,
)

Distinct-erase : (key : ℕ) (hits : Dict (List ℕ)) → Distinct hits → Distinct (erase key hits)
unfolding erase
Distinct-erase key [] h = tt
Distinct-erase key ((j, us) ∷ hits) h =
    if_ind Distinct (j == key) (erase key hits) ((j, us) ∷ erase key hits)
      (λ e. Distinct-erase key hits h.1)
      (λ e. (ground (arith, lookup-erase key j hits, h.0), Distinct-erase key hits h.1))

Distinct-snoc :
    (key : ℕ) (ts : List ℕ) (hits : Dict (List ℕ))
    → Distinct hits
    → lookup key hits ≡ none
    → Distinct (hits ++ (key, ts) ∷ [])
unfolding lookup
Distinct-snoc key ts [] h k = (refl, tt)
Distinct-snoc key ts ((j, us) ∷ hits) h k = elim (Bool-cases (j == key)) [
  | inl e ↦ ground arith
  | inr e ↦
      (ground (arith, lookup-snoc j key ts hits, h.0), Distinct-snoc key ts hits h.1 (ground arith))
]

pub Distinct-reinsert :
    (key : ℕ) (ts : List ℕ) (hits : Dict (List ℕ)) → Distinct hits → Distinct (reinsert key ts hits)
unfolding reinsert
Distinct-reinsert key ts hits h =
    Distinct-snoc key ts (erase key hits) (Distinct-erase key hits h) (lookup-erase_self key hits)

pub All-reinsert {κ} :
    (P : ℕ × List ℕ → Type κ) (key : ℕ) (ts : List ℕ) (hits : Dict (List ℕ))
    → All P hits
    → P (key, ts)
    → All P (reinsert key ts hits)
unfolding reinsert erase
All-reinsert P key ts hits h p =
    All-append P (erase key hits) ((key, ts) ∷ []) (All-erase hits h) (p, tt)
  where
    All-erase : (hits : Dict (List ℕ)) → All P hits → All P (erase key hits)
    All-erase [] h = tt
    All-erase ((j, us) ∷ hits) h =
        if_ind (All P) (j == key) (erase key hits) ((j, us) ∷ erase key hits)
          (λ e. All-erase hits h.1) (λ e. (h.0, All-erase hits h.1))

pub times_of-reinsert_self :
    (k key : ℕ) (ts : List ℕ) (hits : Dict (List ℕ))
    → (key == k) ≡ true
    → times_of k (reinsert key ts hits) ≡ ts
times_of-reinsert_self k key ts hits e = ground (arith, lookup-reinsert k key ts hits)

pub times_of-reinsert_ne :
    (k key : ℕ) (ts : List ℕ) (hits : Dict (List ℕ))
    → (key == k) ≡ false
    → times_of k (reinsert key ts hits) ≡ times_of k hits
times_of-reinsert_ne k key ts hits e = ground (arith, lookup-reinsert k key ts hits)
