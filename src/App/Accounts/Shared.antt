-- ===== src/App/Accounts/Shared.antt =====
-- What the cache of app/app/api/accounts/route.ts keeps: its slot does not go back, no request awaits a load
-- that is not in flight, and an answer is behind the slot asked for only when it may be.
use collateralized_agents.Base.{
  ℕ, zero, suc, ◌+◌, ◌≤◌, ◌<◌, Bool, true, false, ◌||◌, ◌≡◌, refl, subst, Option, none, some, List,
  [], ◌∷◌, All, All-map, ◌&&◌, ltb→lt, ltb, ltb→le, if_ind, inl, inr, ◌⊎◌, arith,
}
use collateralized_agents.App.Accounts.{
  min_slot_tries, Snapshot, Answer, served, unavailable, Phase, entering, pausing, awaiting,
  answered, Request, World, behind, want_reload, answer, put_cache, after_load, Load, loaded, threw,
  resume, resume_all, go_on, reloads, go_on_at, Event, turn, ends, step, run,
}

-- One more than the slot of the cache.
abbrev pub level : Option Snapshot → ℕ
level none = 0
level (some snap) = suc snap.slot

pub put_cache-le :
    (snap : Snapshot) (c : Option Snapshot)
    → (level c ≤ level (put_cache snap c)) × (0 < level (put_cache snap c))
unfolding put_cache
put_cache-le snap none = omega arith
put_cache-le snap (some old) = ground arith

pub resume-le :
    (load : Load) (c : Option Snapshot) (m : ℕ) (p : Phase) → level c ≤ level (resume load c m p).0
unfolding resume
resume-le (loaded snap) c m (awaiting i) = (put_cache-le snap c).0
resume-le threw c m (awaiting i) = omega arith
resume-le load c m entering = omega arith
resume-le load c m (pausing i) = omega arith
resume-le load c m (answered i a) = omega arith

resume_all-le :
    (load : Load) (c : Option Snapshot) (rs : List Request)
    → level c ≤ level (resume_all load c rs).0
unfolding resume_all
resume_all-le load c [] = omega arith
resume_all-le load c (r ∷ rs) = omega (
  arith,
  resume-le load c r.min_slot r.phase,
  resume_all-le load (resume load c r.min_slot r.phase).0 rs,
)

pub step-le : (e : Event) (w : World) → level w.cache ≤ level (step e w).cache
unfolding step
step-le (turn i now) w = omega arith
step-le (ends load) w =
    if_ind (λ (v : World). level w.cache ≤ level v.cache) w.inflight _ w
      (λ e. resume_all-le load w.cache w.requests) (λ e. omega arith)

pub run-le : (es : List Event) (w : World) → level w.cache ≤ level (run es w).cache
unfolding run
run-le [] w = omega arith
run-le (e ∷ es) w = omega (arith, step-le e w, run-le es (step e w))

-- An answer that came after `tries` tries: the cache is no older, and an answer that is not marked stale has the
-- slot asked for, or four loads did not reach it.
abbrev pub IsDue : ℕ → ℕ → ℕ → Answer → Type 0
IsDue top m tries (served snap stale) =
    (suc snap.slot ≤ top) × ((stale ≡ true) ⊎ (m ≤ snap.slot) ⊎ (tries ≡ min_slot_tries))
IsDue top m tries unavailable = tries ≡ 0

abbrev pub Fits : ℕ → Bool → ℕ → Phase → Type 0
Fits top load m entering = Unit
Fits top load m (pausing i) = (i < min_slot_tries) × (0 < top)
Fits top load m (awaiting i) = (i < min_slot_tries) × (load ≡ true) × ((i ≡ 0) ⊎ (0 < top))
Fits top load m (answered i a) = (i ≤ min_slot_tries) × IsDue top m i a

-- Every request fits the cache and the load in flight.
abbrev pub IsSound : World → Type 0
IsSound w = All (λ r. Fits (level w.cache) w.inflight r.min_slot r.phase) w.requests

IsDue-le : (top top' m i : ℕ) (a : Answer) → top ≤ top' → IsDue top m i a → IsDue top' m i a
IsDue-le top top' m i (served snap stale) le h = (omega arith, h.1)
IsDue-le top top' m i unavailable le h = h

Fits-le :
    (top top' : ℕ) (b b' : Bool) (m : ℕ) (p : Phase)
    → top ≤ top'
    → (b ≡ true → b' ≡ true)
    → Fits top b m p
    → Fits top' b' m p
Fits-le top top' b b' m entering le f h = tt
Fits-le top top' b b' m (pausing i) le f h = (h.0, omega (arith, h.1))
Fits-le top top' b b' m (awaiting i) le f h = (h.0, f h.1, omega (arith, h.2))
Fits-le top top' b b' m (answered i a) le f h = (h.0, IsDue-le top top' m i a le h.1)

Fits-answer :
    (i m : ℕ) (stale b : Bool) (c : Option Snapshot)
    → i ≤ min_slot_tries
    → ((i ≡ 0) ⊎ (0 < level c))
    → (stale ≡ true) ⊎ (behind m c ≡ false) ⊎ (i ≡ min_slot_tries)
    → Fits (level c) b m (answer i stale c)
unfolding answer behind
Fits-answer i m stale b none le f h = (le, omega (arith, f))
Fits-answer i m stale b (some snap) le f (inl h) = (le, (omega arith, inl h))
Fits-answer i m stale b (some snap) le f (inr (inl h)) =
    (le, (omega arith, inr (inl (ltb→le snap.slot m h))))
Fits-answer i m stale b (some snap) le f (inr (inr h)) = (le, (omega arith, inr (inr h)))

after_load-Fits :
    (m i : ℕ) (c : Option Snapshot)
    → i < min_slot_tries
    → 0 < level c
    → Fits (level c) false m (after_load m i c)
unfolding after_load
after_load-Fits m i c h k =
    if_ind (Fits (level c) false m) (behind m c && ltb (i + 1) min_slot_tries) (pausing (i + 1)) _
      (λ e. (ltb→lt (i + 1) min_slot_tries (later (behind m c) e), k))
      (λ e.
        Fits-answer (i + 1) m false false c (omega arith) (inr k) (inr (last (behind m c) refl e)))
  where
    later :
        (b : Bool) → (b && ltb (i + 1) min_slot_tries) ≡ true → ltb (i + 1) min_slot_tries ≡ true
    later true e = e
    later false e = cc

    last :
        (b : Bool)
        → behind m c ≡ b
        → (b && ltb (i + 1) min_slot_tries) ≡ false
        → (behind m c ≡ false) ⊎ (i + 1 ≡ min_slot_tries)
    last true f e = inr (omega (arith, h, ltb→le (i + 1) min_slot_tries e))
    last false f e = inl f

resume-Fits :
    (load : Load) (c : Option Snapshot) (m : ℕ) (p : Phase)
    → Fits (level c) true m p
    → Fits (level (resume load c m p).0) false m (resume load c m p).1
unfolding resume
resume-Fits (loaded snap) c m (awaiting i) h =
    after_load-Fits m i (put_cache snap c) h.0 (put_cache-le snap c).1
resume-Fits threw c m (awaiting i) h =
    Fits-answer i m true false c (omega (arith, h.0)) h.2 (inl refl)
resume-Fits load c m entering h = tt
resume-Fits load c m (pausing i) h = h
resume-Fits load c m (answered i a) h = h

resume_all-Fits :
    (load : Load) (c : Option Snapshot) (rs : List Request)
    → All (λ r. Fits (level c) true r.min_slot r.phase) rs
    → All
        (λ r. Fits (level (resume_all load c rs).0) false r.min_slot r.phase)
        (resume_all load c rs).1
unfolding resume_all
resume_all-Fits load c [] h = tt
resume_all-Fits load c (r ∷ rs) h =
    let x = resume load c r.min_slot r.phase in
    (
      Fits-le (level x.0) _ false false r.min_slot x.1 (resume_all-le load x.0 rs) (λ e. e)
          (resume-Fits load c r.min_slot r.phase h.0),
      resume_all-Fits load x.0 rs (
          All-map _ _
            (λ s k.
              Fits-le (level c) (level x.0) true true s.min_slot s.phase
                (resume-le load c r.min_slot r.phase) (λ e. e) k)
            rs h.1),
    )

or_false : (a b : Bool) → (a || b) ≡ false → b ≡ false
or_false true b h = cc
or_false false b h = h

want_reload-behind :
    (r : Request) (now : ℕ) (c : Option Snapshot)
    → want_reload r now c ≡ false
    → behind r.min_slot c ≡ false
unfolding want_reload
want_reload-behind r now c h = or_false _ _ h

go_on-Fits :
    (now : ℕ) (c : Option Snapshot) (b : Bool) (r : Request) (p : Phase)
    → Fits (level c) b r.min_slot p
    → Fits (level c) (b || reloads p (go_on now c r p)) r.min_slot (go_on now c r p)
unfolding go_on
go_on-Fits now c b r entering h =
    if_ind (λ p. Fits (level c) (b || reloads entering p) r.min_slot p) (want_reload r now c)
      (awaiting 0) _ (λ e. (omega arith, ground arith, inl refl))
      (λ e.
        Fits-answer 0 r.min_slot false _ c (omega arith) (inl refl)
          (inr (inl (want_reload-behind r now c e))))
go_on-Fits now c b r (pausing i) h = (h.0, ground arith, inr h.1)
go_on-Fits now c b r (awaiting i) h = (h.0, ground (arith, h.1), h.2)
go_on-Fits now c b r (answered i a) h = h

go_on_at-Fits :
    (i now : ℕ) (c : Option Snapshot) (b : Bool) (rs : List Request)
    → All (λ r. Fits (level c) b r.min_slot r.phase) rs
    → All
        (λ r. Fits (level c) (b || (go_on_at i now c rs).0) r.min_slot r.phase)
        (go_on_at i now c rs).1
unfolding go_on_at
go_on_at-Fits i now c b [] h = tt
go_on_at-Fits zero now c b (r ∷ rs) h = (
  go_on-Fits now c b r r.phase h.0,
  All-map _ _
      (λ s. Fits-le (level c) (level c) b _ s.min_slot s.phase (omega arith) (λ e. rw e refl)) rs
      h.1,
)
go_on_at-Fits (suc i) now c b (r ∷ rs) h = (
  Fits-le (level c) (level c) b _ r.min_slot r.phase (omega arith) (λ e. rw e refl) h.0,
  go_on_at-Fits i now c b rs h.1,
)

pub step-IsSound : (e : Event) (w : World) → IsSound w → IsSound (step e w)
unfolding step
step-IsSound (turn i now) w h = go_on_at-Fits i now w.cache w.inflight w.requests h
step-IsSound (ends load) w h =
    if_ind IsSound w.inflight _ w
      (λ e.
        resume_all-Fits load w.cache w.requests
          (subst (λ b. All (λ r. Fits (level w.cache) b r.min_slot r.phase) w.requests) e h))
      (λ e. h)

-- Whatever the loads bring and however the requests interleave: no request awaits a load that is not in flight;
-- a request makes at most four tries; an answer is no newer than the cache, and one that is not marked stale has
-- the slot asked for or came after four tries; and status 503 is for a request that got no snapshot. This holds
-- from any state in which it holds.
pub run-IsSound : (es : List Event) (w : World) → IsSound w → IsSound (run es w)
unfolding run
run-IsSound [] w h = h
run-IsSound (e ∷ es) w h = run-IsSound es (step e w) (step-IsSound e w h)
