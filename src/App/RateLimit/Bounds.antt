-- ===== src/App/RateLimit/Bounds.antt =====
-- The size of the map of app/lib/rateLimit.ts.
use collateralized_agents.Base.{
  ℕ, suc, ◌+◌, ◌≤◌, ◌<◌, Bool, true, false, not, ◌&&◌, ◌||◌, ◌≡◌, refl, sym, ◌∙◌, ◌⊎◌, inl, inr,
  List, [], ◌∷◌, length, length-append, length-keep_if-le, Dict, lookup, erase, ltb, leb, ◌==◌,
  if_ind, arith,
}
use collateralized_agents.App.RateLimit.{
  Options, Limiter, is_stale, sweep, has_key, evict, swept, reinsert, limited,
}

length-erase-le : (key : ℕ) (hits : Dict (List ℕ)) → length (erase key hits) ≤ length hits
unfolding erase
length-erase-le key [] = omega arith
length-erase-le key ((k, ts) ∷ hits) = ground (arith, length-erase-le key hits)

has_key_ne :
    (key k : ℕ) (ts : List ℕ) (hits : Dict (List ℕ))
    → (k == key) ≡ false
    → has_key key ((k, ts) ∷ hits) ≡ has_key key hits
unfolding lookup
has_key_ne key k ts hits e = ground arith

-- A key that is there takes one entry, at least, when it is erased.
length-erase-lt :
    (key : ℕ) (hits : Dict (List ℕ))
    → has_key key hits ≡ true
    → length (erase key hits) < length hits
unfolding erase lookup
length-erase-lt key [] h = cc
length-erase-lt key ((k, ts) ∷ hits) h =
    if_ind (λ xs. length xs < suc (length hits)) (k == key) (erase key hits)
      ((k, ts) ∷ erase key hits) (λ e. omega (arith, length-erase-le key hits))
      (λ e. omega (arith, length-erase-lt key hits (sym (has_key_ne key k ts hits e) ∙ h)))

-- The key is there, or there is room for it.
abbrev HasRoom : ℕ → ℕ → Dict (List ℕ) → Type 0
HasRoom max_keys key hits =
    ((has_key key hits ≡ true) × (length hits ≤ max_keys)) ⊎ (length hits < max_keys)

evict-HasRoom :
    (max_keys key : ℕ) (hits : Dict (List ℕ))
    → 0 < max_keys
    → length hits ≤ max_keys
    → HasRoom max_keys key (evict max_keys key hits)
unfolding evict
evict-HasRoom max_keys key [] h k = inr h
evict-HasRoom max_keys key (e ∷ hits) h k =
    if_ind (HasRoom max_keys key) (leb max_keys (length (e ∷ hits)) && not (has_key key (e ∷ hits)))
      _ _ (λ t. evict-HasRoom max_keys key hits h (omega arith))
      (λ t. by_test (has_key key (e ∷ hits)) refl t)
  where
    by_test :
        (b : Bool)
        → has_key key (e ∷ hits) ≡ b
        → (leb max_keys (length (e ∷ hits)) && not b) ≡ false
        → HasRoom max_keys key (e ∷ hits)
    by_test true q t = inl (q, k)
    by_test false q t = inr (ground arith)

reinsert-le :
    (max_keys key : ℕ) (ts : List ℕ) (hits : Dict (List ℕ))
    → HasRoom max_keys key hits
    → length (reinsert key ts hits) ≤ max_keys
unfolding reinsert
reinsert-le max_keys key ts hits (inl (h, k)) =
    omega (arith, length-append (erase key hits) ((key, ts) ∷ []), length-erase-lt key hits h)
reinsert-le max_keys key ts hits (inr h) =
    omega (arith, length-append (erase key hits) ((key, ts) ∷ []), length-erase-le key hits)

swept-le : (o : Options) (now : ℕ) (l : Limiter) → length (swept o now l).hits ≤ length l.hits
unfolding swept sweep
swept-le o now l =
    if_ind (λ (m : Limiter). length m.hits ≤ length l.hits)
      (ltb (l.last_sweep + o.window_ms) now || leb o.max_keys (length l.hits)) _ _
      (λ e. length-keep_if-le (λ x. not (is_stale o.window_ms now x.1)) l.hits) (λ e. omega arith)

-- The map never grows beyond the most keys it may hold, if it may hold one at all.
limited-le :
    (o : Options) (now key : ℕ) (l : Limiter)
    → 0 < o.max_keys
    → length l.hits ≤ o.max_keys
    → length (limited o now key l).1.hits ≤ o.max_keys
unfolding limited
limited-le o now key l h k =
    reinsert-le o.max_keys key _ _
      (evict-HasRoom o.max_keys key (swept o now l).hits h (omega (arith, swept-le o now l)))
