-- ===== src/App/RateLimit.antt =====
-- app/lib/rateLimit.ts: the sliding-window rate limiter. Keys are numbers, times milliseconds; the map
-- is in the order of insertion, and no key stands in it twice.
pub mod Bounds
pub mod Window
pub mod Reinserts
pub mod Tracks
pub mod Exact
use collateralized_agents.Base.{
  ℕ, ◌+◌, Bool, true, false, not, ◌&&◌, ◌||◌, Option, none, some, List, [], ◌∷◌, ◌++◌, length,
  keep_if, Dict, lookup, erase, ltb, leb, if◌then◌else◌,
}

-- The limiter's closure: its options, the map and the time of the last sweep.
pub record Options : Type 0 where
  pub window_ms : ℕ
  pub max : ℕ
  pub max_keys : ℕ

pub record Limiter : Type 0 where
  pub hits : Dict (List ℕ)
  pub last_sweep : ℕ

-- `now - t < windowMs`, with the subtraction on the other side.
abbrev pub is_recent : ℕ → ℕ → ℕ → Bool
is_recent window_ms now t = ltb now (t + window_ms)

-- No time, or none that is recent: the last is the latest.
unfoldable pub is_stale : ℕ → ℕ → List ℕ → Bool
is_stale window_ms now [] = true
is_stale window_ms now (t ∷ []) = not (is_recent window_ms now t)
is_stale window_ms now (t ∷ u ∷ ts) = is_stale window_ms now (u ∷ ts)

unfoldable pub sweep : ℕ → ℕ → Dict (List ℕ) → Dict (List ℕ)
sweep window_ms now hits = keep_if (λ e. not (is_stale window_ms now e.1)) hits

abbrev pub has_key : ℕ → Dict (List ℕ) → Bool
has_key key hits = elim (lookup key hits) [ none ↦ false | some ts ↦ true ]

-- The oldest keys go while the map is full and the key is new.
unfoldable pub evict : ℕ → ℕ → Dict (List ℕ) → Dict (List ℕ)
evict max_keys key [] = []
evict max_keys key (e ∷ hits) =
    let rest = evict max_keys key hits in
    if leb max_keys (length (e ∷ hits)) && not (has_key key (e ∷ hits)) then rest else e ∷ hits

abbrev pub times_of : ℕ → Dict (List ℕ) → List ℕ
times_of key hits = elim (lookup key hits) [ none ↦ [] | some ts ↦ ts ]

unfoldable pub swept : Options → ℕ → Limiter → Limiter
swept o now l =
    if ltb (l.last_sweep + o.window_ms) now || leb o.max_keys (length l.hits)
    then record { hits = sweep o.window_ms now l.hits; last_sweep = now }
    else l

-- The hits of `key` in the window, with this one.
unfoldable pub recent : Options → ℕ → ℕ → Dict (List ℕ) → List ℕ
recent o now key hits = keep_if (is_recent o.window_ms now) (times_of key hits) ++ now ∷ []

-- Deleting the key first moves it to the newest end.
unfoldable pub reinsert : ℕ → List ℕ → Dict (List ℕ) → Dict (List ℕ)
reinsert key ts hits = erase key hits ++ (key, ts) ∷ []

-- `limited(key)` at the time `now`.
unfoldable pub limited : Options → ℕ → ℕ → Limiter → Bool × Limiter
limited o now key l =
    let clean = swept o now l in
    let room = evict o.max_keys key clean.hits in
    let times = recent o now key room in
    (ltb o.max (length times), record clean { hits = reinsert key times room })
