-- ===== src/App/RateLimit/Exact.antt =====
-- The answers of app/lib/rateLimit.ts against the log of all its calls.
use collateralized_agents.Base.{
  ℕ, ◌+◌, ◌≤◌, ◌<◌, Bool, ◌||◌, ◌≡◌, refl, List, [], ◌∷◌, ◌++◌, length, length-append, keep_if,
  Dict, lookup, ltb, leb, if_ind, arith,
}
use collateralized_agents.App.RateLimit.{
  Options, Limiter, is_recent, evict, times_of, swept, recent, limited,
}
use collateralized_agents.App.RateLimit.Window.{length-sweep-le}
use collateralized_agents.App.RateLimit.Tracks.{
  total, counted, Tracks, Tracks-later, Tracks-sweep, Tracks-reinsert,
}

-- The calls come in order, and at each the window holds fewer of them than the most keys.
abbrev Fits : Options → ℕ → List (ℕ × ℕ) → List (ℕ × ℕ) → Type 0
Fits o last [] log = Unit
Fits o last ((key, now) ∷ calls) log =
    (last ≤ now) × (total o.window_ms now log < o.max_keys) × Fits o now calls ((key, now) ∷ log)

evict_none :
    (max_keys key : ℕ) (hits : Dict (List ℕ))
    → length hits < max_keys
    → evict max_keys key hits ≡ hits
unfolding evict
evict_none max_keys key [] h = refl
evict_none max_keys key (e ∷ hits) h = ground arith

module _ (o : Options) (now : ℕ) (l : Limiter) (log : List (ℕ × ℕ))
    (x : Tracks o.window_ms now l.hits log) where
  Tracks-swept : Tracks o.window_ms now (swept o now l).hits log
  unfolding swept
  Tracks-swept =
      if_ind (λ (m : Limiter). Tracks o.window_ms now m.hits log)
        (ltb (l.last_sweep + o.window_ms) now || leb o.max_keys (length l.hits)) _ _
        (λ e. Tracks-sweep o.window_ms now l.hits log x) (λ e. x)

  swept_fits : total o.window_ms now log < o.max_keys → length (swept o now l).hits < o.max_keys
  unfolding swept
  swept_fits h =
      if_ind (λ (m : Limiter). length m.hits < o.max_keys)
        (ltb (l.last_sweep + o.window_ms) now || leb o.max_keys (length l.hits)) _ _
        (λ e. omega (arith, length-sweep-le o.window_ms now l.hits, x.covered now (omega arith)))
        (λ e. ground arith)

-- What the calls are answered, the first call first, with their keys and times.
unfoldable pub answers : Options → List (ℕ × ℕ) → Limiter → List Bool
answers o [] l = []
answers o ((key, now) ∷ calls) l = let r = limited o now key l in r.0 ∷ answers o calls r.1

-- The same from the log alone: over the limit when the window holds the most calls for the key already.
unfoldable pub over_limit : Options → List (ℕ × ℕ) → List (ℕ × ℕ) → List Bool
over_limit o [] log = []
over_limit o ((key, now) ∷ calls) log =
    leb o.max (counted o.window_ms now key log) ∷ over_limit o calls ((key, now) ∷ log)

module _ (o : Options) (now key : ℕ) (l : Limiter) (log : List (ℕ × ℕ))
    (x : Tracks o.window_ms now l.hits log) (few : total o.window_ms now log < o.max_keys) where
  unevicted : evict o.max_keys key (swept o now l).hits ≡ (swept o now l).hits
  unevicted = evict_none o.max_keys key (swept o now l).hits (swept_fits o now l log x few)

  Tracks-limited : Tracks o.window_ms now (limited o now key l).1.hits ((key, now) ∷ log)
  unfolding limited recent
  Tracks-limited =
      rw unevicted
        (Tracks-reinsert o.window_ms now key (swept o now l).hits log (Tracks-swept o now l log x))

  over_last :
      (max : ℕ) (ts : List ℕ) (t n : ℕ)
      → length ts ≡ n
      → ltb max (length (ts ++ t ∷ [])) ≡ leb max n
  over_last max ts t n h = ground (arith, length-append ts (t ∷ []))

  limited_iff : (limited o now key l).0 ≡ leb o.max (counted o.window_ms now key log)
  unfolding limited recent
  limited_iff = rw unevicted (
      over_last o.max (keep_if (is_recent o.window_ms now) (times_of key (swept o now l).hits)) now
        _ ((Tracks-swept o now l log x).exact key now (omega arith)))

answers_from :
    (o : Options) (last : ℕ) (calls log : List (ℕ × ℕ)) (l : Limiter)
    → Tracks o.window_ms last l.hits log
    → Fits o last calls log
    → answers o calls l ≡ over_limit o calls log
unfolding answers over_limit
answers_from o last [] log l x f = refl
answers_from o last ((key, now) ∷ calls) log l x f =
    let y = Tracks-later o.window_ms last now l.hits log f.0 x in
    cong_cons (limited_iff o now key l log y f.1) (
      answers_from o now calls ((key, now) ∷ log) (limited o now key l).1
        (Tracks-limited o now key l log y f.1) f.2)
  where
    cong_cons : {a b : Bool} {xs ys : List Bool} → a ≡ b → xs ≡ ys → a ∷ xs ≡ b ∷ ys
    cong_cons p q = cc

-- A limiter that starts empty says of each call that it is over the limit exactly when the log holds
-- at least `max` earlier calls for its key in the window. The times of the calls do not go back, and
-- at each call the window holds fewer earlier calls, for all keys, than the most keys.
pub answers-over_limit :
    (o : Options) (calls : List (ℕ × ℕ))
    → Fits o 0 calls []
    → answers o calls (record { hits = []; last_sweep = 0 }) ≡ over_limit o calls []
unfolding lookup
answers-over_limit o calls f =
    answers_from o 0 calls [] (record { hits = []; last_sweep = 0 }) start f
  where
    start : Tracks o.window_ms 0 [] []
    start = record {
      distinct = tt;
      bounded = tt;
      exact = λ k t h. refl;
      covered = λ t h. omega arith;
    }
