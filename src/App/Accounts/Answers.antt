-- ===== src/App/Accounts/Answers.antt =====
-- Every request of app/app/api/accounts/route.ts is answered.
use collateralized_agents.Base.{
  ℕ, ◌+◌, ◌*◌, ◌≤◌, ◌<◌, Bool, true, false, ◌&&◌, ltb, ◌≡◌, refl, sym, subst, Option, none, some,
  List, [], ◌∷◌, length, if_ind, arith,
}
use collateralized_agents.App.Accounts.{
  Phase, entering, pausing, awaiting, answered, World, answer, behind, put_cache, after_load, Load,
  loaded, threw, resume, go_on, want_reload, Event, turn, ends, step, run, Snapshot, min_slot_tries,
}
use collateralized_agents.App.Accounts.Shared.{level, Fits, IsSound, step-IsSound, run-IsSound}
use collateralized_agents.App.Accounts.Turns.{
  phase_at, Turned, step_at, go_on_at_self, resume_all-Resumed, Fits-at,
}

-- How far a request is: two for each try, from 0 to 8.
abbrev pub rank : Phase → ℕ
rank entering = 0
rank (pausing i) = 2 * i
rank (awaiting i) = 2 * i + 1
rank (answered i a) = 8

rank-answer : (i : ℕ) (stale : Bool) (c : Option Snapshot) → rank (answer i stale c) ≡ 8
unfolding answer
rank-answer i stale none = refl
rank-answer i stale (some snap) = refl

-- A turn does not take a request back, and takes one that is not awaiting on.
rank-Turned :
    (k now : ℕ) (c : Option Snapshot) (top m : ℕ) (b : Bool) (p q : Phase)
    → Fits top b m p
    → Turned now c p q
    → (rank p ≤ rank q) × (k < 4 → 2 * k ≤ rank p → 2 * k + 1 ≤ rank q)
unfolding go_on
rank-Turned k now c top m b entering q h (r, e) =
    subst (λ x. (0 ≤ rank x) × (k < 4 → 2 * k ≤ 0 → 2 * k + 1 ≤ rank x)) (sym e)
      (if_ind (λ x. (0 ≤ rank x) × (k < 4 → 2 * k ≤ 0 → 2 * k + 1 ≤ rank x)) (want_reload r now c)
        (awaiting 0) _ (λ w. (omega arith, λ s l. omega arith))
        (λ w. (omega arith, λ s l. omega (arith, rank-answer 0 false c))))
rank-Turned k now c top m b (pausing i) q h (r, e) = rw e (omega arith, λ s l. omega arith)
rank-Turned k now c top m b (awaiting i) q h (r, e) = rw e (omega arith, λ s l. omega arith)
rank-Turned k now c top m b (answered i a) q h (r, e) = rw e (omega arith, λ s l. omega arith)

rank-resume :
    (k : ℕ) (load : Load) (c : Option Snapshot) (top m n : ℕ) (b : Bool) (p : Phase)
    → Fits top b m p
    → (rank p ≤ rank (resume load c n p).1)
      × (k < 4 → 2 * k + 1 ≤ rank p → 2 * k + 2 ≤ rank (resume load c n p).1)
unfolding resume after_load
rank-resume k (loaded snap) c top m n b (awaiting i) h =
    if_ind (λ x. (2 * i + 1 ≤ rank x) × (k < 4 → 2 * k + 1 ≤ 2 * i + 1 → 2 * k + 2 ≤ rank x))
      (behind n (put_cache snap c) && ltb (i + 1) min_slot_tries) (pausing (i + 1))
      (answer (i + 1) false (put_cache snap c)) (λ e. (omega arith, λ s l. omega arith))
      (λ e.
        let a = rank-answer (i + 1) false (put_cache snap c) in
        (omega (arith, a, h.0), λ s l. omega (arith, a, h.0)))
rank-resume k threw c top m n b (awaiting i) h =
    let a = rank-answer i true c in (omega (arith, a, h.0), λ s l. omega (arith, a, h.0))
rank-resume k load c top m n b entering h = (omega arith, λ s l. omega arith)
rank-resume k load c top m n b (pausing i) h = (omega arith, λ s l. omega arith)
rank-resume k load c top m n b (answered i a) h = (omega arith, λ s l. omega arith)

module _ (j : ℕ) where
  abbrev pub rank_at : World → ℕ
  rank_at w = rank (phase_at j w.requests)

  step-rank : (e : Event) (w : World) → IsSound w → rank_at w ≤ rank_at (step e w)
  step-rank e w h =
      let fit = Fits-at (level w.cache) j w.inflight w.requests h in
      step_at j (λ p. rank_at w ≤ rank p) e w (omega arith)
        (λ now q t.
          (rank-Turned 0 now w.cache (level w.cache) fit.0 w.inflight (phase_at j w.requests) q
            fit.1 t).0)
        (λ load q t.
          subst (λ p. rank_at w ≤ rank p) (sym t.3)
            (rank-resume 0 load t.0 (level w.cache) fit.0 t.1 w.inflight (phase_at j w.requests)
              fit.1).0)

  run-rank : (es : List Event) (w : World) → IsSound w → rank_at w ≤ rank_at (run es w)
  unfolding run
  run-rank [] w h = omega arith
  run-rank (e ∷ es) w h =
      omega (arith, step-rank e w h, run-rank es (step e w) (step-IsSound e w h))

  turn-rank :
      (k now : ℕ) (w : World)
      → IsSound w
      → k < 4
      → 2 * k ≤ rank_at w
      → 2 * k + 1 ≤ rank_at (step (turn j now) w)
  unfolding step
  turn-rank k now w h s l =
      let fit = Fits-at (level w.cache) j w.inflight w.requests h in
      (rank-Turned k now w.cache (level w.cache) fit.0 w.inflight (phase_at j w.requests) _ fit.1
          (go_on_at_self j now w.cache w.requests)).1
        s l

  -- Without a load in flight nobody awaits one.
  unloaded_rank :
      (k top m : ℕ) (p : Phase) → Fits top false m p → 2 * k + 1 ≤ rank p → 2 * k + 2 ≤ rank p
  unloaded_rank k top m entering h l = omega arith
  unloaded_rank k top m (pausing i) h l = omega arith
  unloaded_rank k top m (awaiting i) h l = cc
  unloaded_rank k top m (answered i a) h l = omega arith

  ends-rank :
      (k : ℕ) (load : Load) (w : World)
      → IsSound w
      → k < 4
      → 2 * k + 1 ≤ rank_at w
      → 2 * k + 2 ≤ rank_at (step (ends load) w)
  unfolding step
  ends-rank k load w h s l =
      let fit = Fits-at (level w.cache) j w.inflight w.requests h in
      if_ind (λ (v : World). 2 * k + 2 ≤ rank_at v) w.inflight _ w
        (λ e.
          let t = resume_all-Resumed load j w.cache w.requests in
          subst (λ p. 2 * k + 2 ≤ rank p) (sym t.3)
            ((rank-resume k load t.0 (level w.cache) fit.0 t.1 w.inflight (phase_at j w.requests)
                fit.1).1
              s l))
        (λ e.
          unloaded_rank k (level w.cache) fit.0 (phase_at j w.requests)
            (subst (λ b. Fits (level w.cache) b fit.0 (phase_at j w.requests)) e fit.1) l)

-- Any events, a turn of one request, any events, and then the end of the load in flight.
pub record Round : Type 0 where
  pub before : List Event
  pub now : ℕ
  pub between : List Event
  pub load : Load

abbrev pub run_round : ℕ → Round → World → World
run_round j r w = step (ends r.load) (run r.between (step (turn j r.now) (run r.before w)))

abbrev pub run_rounds : ℕ → List Round → World → World
run_rounds j [] w = w
run_rounds j (r ∷ rs) w = run_rounds j rs (run_round j r w)

module _ (j : ℕ) (r : Round) (w : World) (h : IsSound w) where
  one : World
  one = run r.before w

  two : World
  two = step (turn j r.now) one

  three : World
  three = run r.between two

  one-IsSound : IsSound one
  unfolding one
  one-IsSound = run-IsSound r.before w h

  two-IsSound : IsSound two
  unfolding two
  two-IsSound = step-IsSound (turn j r.now) one one-IsSound

  three-IsSound : IsSound three
  unfolding three
  three-IsSound = run-IsSound r.between two two-IsSound

  round-IsSound : IsSound (run_round j r w)
  unfolding one two three
  round-IsSound = step-IsSound (ends r.load) three three-IsSound

  round_on : (k : ℕ) → k < 4 → 2 * k ≤ rank_at j w → 2 * k + 2 ≤ rank_at j (run_round j r w)
  unfolding one two three
  round_on k s l = ends-rank j k r.load three three-IsSound s (
      omega (
        arith,
        run-rank j r.between two two-IsSound,
        turn-rank j k r.now one one-IsSound s (omega (arith, run-rank j r.before w h, l)),
      ))

rounds_on :
    (j k : ℕ) (rs : List Round) (w : World)
    → IsSound w
    → k + length rs ≡ 4
    → 2 * k ≤ rank_at j w
    → IsSound (run_rounds j rs w) × (8 ≤ rank_at j (run_rounds j rs w))
rounds_on j k [] w h e l = (h, omega (arith, l))
rounds_on j k (r ∷ rs) w h e l =
    rounds_on j (k + 1) rs (run_round j r w) (round-IsSound j r w h) (omega (arith, e))
      (omega (arith, round_on j r w h k (omega (arith, e)) l))

abbrev pub IsAnswered : Phase → Type 0
IsAnswered (answered i a) = Unit
IsAnswered _ = ⊥

rank-IsAnswered : (top m : ℕ) (b : Bool) (p : Phase) → Fits top b m p → 8 ≤ rank p → IsAnswered p
rank-IsAnswered top m b entering h l = omega arith
rank-IsAnswered top m b (pausing i) h l = omega (arith, h.0)
rank-IsAnswered top m b (awaiting i) h l = omega (arith, h.0)
rank-IsAnswered top m b (answered i a) h l = tt

-- A request is answered after four rounds at most, in each of which it has a turn and then a load ends, be it by
-- an exception, whatever the other requests do meanwhile. The requests fit the cache and the load in flight at
-- the start.
pub run_rounds-IsAnswered :
    (j : ℕ) (rs : List Round) (w : World)
    → IsSound w
    → length rs ≡ 4
    → IsAnswered (phase_at j (run_rounds j rs w).requests)
run_rounds-IsAnswered j rs w h e =
    let (sound, l) = rounds_on j 0 rs w h (omega (arith, e)) (omega arith) in
    let v = run_rounds j rs w in
    let fit = Fits-at (level v.cache) j v.inflight v.requests sound in
    rank-IsAnswered (level v.cache) fit.0 v.inflight (phase_at j v.requests) fit.1 l
