-- ===== src/App/Accounts.antt =====
-- The cache of `GET` in app/app/api/accounts/route.ts, for any number of requests at once. A request runs
-- until it awaits, and the requests that await one load go on one after the other when it ends. Times are
-- in milliseconds, and the accounts of a snapshot are numbers.
pub mod Shared
pub mod Order
pub mod Answers
pub mod Turns
use collateralized_agents.Base.{
  ℕ, zero, suc, ◌+◌, ◌-◌, Bool, true, false, ◌&&◌, ◌||◌, Option, none, some, List, [], ◌∷◌, ltb,
  leb, if◌then◌else◌,
}

abbrev pub ttl_ms : ℕ
ttl_ms = 10_000

abbrev pub min_fresh_gap_ms : ℕ
min_fresh_gap_ms = 2_000

abbrev pub min_slot_tries : ℕ
min_slot_tries = 4

pub record Snapshot : Type 0 where
  pub at : ℕ
  pub slot : ℕ
  pub accounts : List ℕ

-- A body with `stale`, or the status 503.
pub data Answer : Type 0 where
  served : Snapshot → Bool → Answer
  unavailable : Answer

-- Where a request stands: before its first test, in the pause before a try, at the `await reload()` of a
-- try, or answered. The number of a try counts from 0; an answer comes with the tries that were made.
pub data Phase : Type 0 where
  entering : Phase
  pausing : ℕ → Phase
  awaiting : ℕ → Phase
  answered : ℕ → Answer → Phase

pub record Request : Type 0 where
  pub fresh : Bool
  pub min_slot : ℕ
  pub phase : Phase

-- `cache`, and whether `inflight` is a load.
pub record World : Type 0 where
  pub cache : Option Snapshot
  pub inflight : Bool
  pub requests : List Request

-- `behind()`
unfoldable pub behind : ℕ → Option Snapshot → Bool
behind min_slot none = true
behind min_slot (some snap) = ltb snap.slot min_slot

-- `age > ms`; without a snapshot the age is infinite. A clock that goes back makes no age.
unfoldable pub older_than : ℕ → ℕ → Option Snapshot → Bool
older_than ms now none = true
older_than ms now (some snap) = ltb ms (now - snap.at)

unfoldable pub want_reload : Request → ℕ → Option Snapshot → Bool
want_reload r now cache =
    older_than ttl_ms now cache
    || (r.fresh && older_than min_fresh_gap_ms now cache)
    || behind r.min_slot cache

-- The body of the answer after `tries` tries; without a snapshot the route answers 503.
unfoldable pub answer : ℕ → Bool → Option Snapshot → Phase
answer tries stale none = answered tries unavailable
answer tries stale (some snap) = answered tries (served snap stale)

-- `if (!cache || snap.slot >= cache.slot) cache = snap`
unfoldable pub put_cache : Snapshot → Option Snapshot → Option Snapshot
put_cache snap none = some snap
put_cache snap (some old) = if leb old.slot snap.slot then some snap else some old

-- After a load of the `i`-th try: the answer, or the pause before the next try.
unfoldable pub after_load : ℕ → ℕ → Option Snapshot → Phase
after_load min_slot i cache =
    if behind min_slot cache && ltb (i + 1) min_slot_tries
    then pausing (i + 1)
    else answer (i + 1) false cache

-- What a load comes to: a snapshot, or an exception.
pub data Load : Type 0 where
  loaded : Snapshot → Load
  threw : Load

-- A request goes on when the load ends that it awaits.
unfoldable pub resume : Load → Option Snapshot → ℕ → Phase → Option Snapshot × Phase
resume (loaded snap) cache min_slot (awaiting i) =
    let now = put_cache snap cache in (now, after_load min_slot i now)
resume threw cache min_slot (awaiting i) = (cache, answer i true cache)
resume load cache min_slot entering = (cache, entering)
resume load cache min_slot (pausing i) = (cache, pausing i)
resume load cache min_slot (answered i a) = (cache, answered i a)

abbrev pub at_phase : Request → Phase → Request
at_phase r p = record r { phase = p }

unfoldable pub resume_all : Load → Option Snapshot → List Request → Option Snapshot × List Request
resume_all load cache [] = (cache, [])
resume_all load cache (r ∷ rs) =
    let x = resume load cache r.min_slot r.phase in
    let rest = resume_all load x.0 rs in (rest.0, at_phase r x.1 ∷ rest.1)

-- A request runs to its first `await`, or from its pause: its next phase. `reload()` shares the load that is
-- in flight, or starts one.
unfoldable pub go_on : ℕ → Option Snapshot → Request → Phase → Phase
go_on now cache r entering = if want_reload r now cache then awaiting 0 else answer 0 false cache
go_on now cache r (pausing i) = awaiting i
go_on now cache r (awaiting i) = awaiting i
go_on now cache r (answered i a) = answered i a

-- Whether a request comes to a call of `reload()`.
abbrev pub reloads : Phase → Phase → Bool
reloads entering (awaiting i) = true
reloads (pausing n) (awaiting i) = true
reloads _ _ = false

-- The `i`-th request goes on, and whether it calls `reload()`.
unfoldable pub go_on_at : ℕ → ℕ → Option Snapshot → List Request → Bool × List Request
go_on_at i now cache [] = (false, [])
go_on_at zero now cache (r ∷ rs) =
    let p = go_on now cache r r.phase in (reloads r.phase p, at_phase r p ∷ rs)
go_on_at (suc i) now cache (r ∷ rs) = let rest = go_on_at i now cache rs in (rest.0, r ∷ rest.1)

-- A request goes on at a time, or the load in flight ends.
pub data Event : Type 0 where
  turn : ℕ → ℕ → Event
  ends : Load → Event

-- `finally` clears `inflight` before the requests go on. No load ends that is not in flight.
unfoldable pub step : Event → World → World
step (turn i now) w =
    let x = go_on_at i now w.cache w.requests in
    record w { inflight = w.inflight || x.0; requests = x.1 }
step (ends load) w =
    let x = resume_all load w.cache w.requests in
    if w.inflight then record { cache = x.0; inflight = false; requests = x.1 } else w

unfoldable pub run : List Event → World → World
run [] w = w
run (e ∷ es) w = run es (step e w)
