-- ===== src/Agent/Lock/Exclusion.antt =====
-- Two runners of agent/src/lock.ts that start at once.
use collateralized_agents.Base.{
  ℕ, arith, Bool, true, false, ◌≡◌, refl, sym, subst, none, some, List, [], ◌∷◌,
}
use collateralized_agents.Agent.Lock.{
  LockInfo, Reason, stale_reason, Content, line, content_reason, Phase, starting, reading, holding,
  refused, decide, write, advance, World, call_of, run, both_start, holds, holders,
}
use collateralized_agents.Agent.Lock.Laws.{is_same_self}

module _ (a b : LockInfo) (pid_alive : ℕ → Bool) where
  data Waits : Phase → Type 0 where
    starts : Waits starting
    reads : Waits reading
    gave_up : Waits refused

  -- One holds the lock and the file shows it; the other has not taken it.
  data Exclusive : World → Type 0 where
    first_holds :
        (p : Phase)
        → Waits p
        → Exclusive (record { file = some (line a); first = holding; second = p })
    second_holds :
        (p : Phase)
        → Waits p
        → Exclusive (record { file = some (line b); first = p; second = holding })

  module _ (a_lives : stale_reason a b pid_alive ≡ none)
      (b_lives : stale_reason b a pid_alive ≡ none) where
    call_of-Exclusive : (x : Bool) (w : World) → Exclusive w → Exclusive (call_of a b pid_alive x w)
    unfolding call_of advance content_reason decide
    call_of-Exclusive true _ (first_holds p w) = first_holds p w
    call_of-Exclusive false _ (first_holds p starts) = first_holds reading reads
    call_of-Exclusive false _ (first_holds p reads) =
        subst (λ r. Exclusive (record { file = some (line a); first = holding; second = decide r }))
          (sym a_lives) (first_holds refused gave_up)
    call_of-Exclusive false _ (first_holds p gave_up) = first_holds refused gave_up
    call_of-Exclusive false _ (second_holds p w) = second_holds p w
    call_of-Exclusive true _ (second_holds p starts) = second_holds reading reads
    call_of-Exclusive true _ (second_holds p reads) =
        subst (λ r. Exclusive (record { file = some (line b); first = decide r; second = holding }))
          (sym b_lives) (second_holds refused gave_up)
    call_of-Exclusive true _ (second_holds p gave_up) = second_holds refused gave_up

    run-Exclusive : (xs : List Bool) (w : World) → Exclusive w → Exclusive (run a b pid_alive xs w)
    unfolding run
    run-Exclusive [] w h = h
    run-Exclusive (x ∷ xs) w h = run-Exclusive xs _ (call_of-Exclusive x w h)

    Waits-none : (p : Phase) → Waits p → holds p ≡ 0
    Waits-none _ starts = refl
    Waits-none _ reads = refl
    Waits-none _ gave_up = refl

    one_holder : (w : World) → Exclusive w → holders w ≡ 1
    one_holder _ (first_holds p h) = omega (arith, Waits-none p h)
    one_holder _ (second_holds p h) = omega (arith, Waits-none p h)

    first_calls : (x : Bool) → Exclusive (run a b pid_alive (x ∷ x ∷ []) (both_start none))
    unfolding run call_of advance write
    first_calls true = rw (is_same_self a) (first_holds starting starts)
    first_calls false = rw (is_same_self b) (second_holds starting starts)

    -- Two runners that start at once without a lock file, each of which sees the other as running, when
    -- the one that creates the file also writes to it before the other calls: in whatever order their
    -- calls come then, exactly one of them holds the lock.
    pub run-holders :
        (x : Bool) (xs : List Bool) → holders (run a b pid_alive (x ∷ x ∷ xs) (both_start none)) ≡ 1
    unfolding run
    run-holders x xs = one_holder _ (run-Exclusive xs _ (first_calls x))

-- The first runner creates the file; the second finds it empty, removes it and creates it anew; then both
-- write.
abbrev pub start_race : List Bool
start_race = true ∷ false ∷ false ∷ false ∷ false ∷ true ∷ false ∷ []

-- Two runners that start at once without a lock file can both go on with the lock: the second reads the
-- file that the first has created and not written yet, and takes it for the rest of a crash.
pub start_race-holders :
    (a b : LockInfo) (pid_alive : ℕ → Bool)
    → holders (run a b pid_alive start_race (both_start none)) ≡ 2
unfolding run call_of advance decide content_reason
start_race-holders a b pid_alive = refl

-- Both runners read the lock, then the first removes it, creates and writes it, then so does the second.
abbrev pub race : List Bool
race = true ∷ true ∷ false ∷ false ∷ true ∷ true ∷ true ∷ false ∷ false ∷ false ∷ []

-- Two runners that start at once over a lock that both find stale can both go on with the lock: the
-- second removes the file that the first has just created.
pub race-holders :
    (a b : LockInfo) (pid_alive : ℕ → Bool) (c : Content) (r s : Reason)
    → content_reason c a pid_alive ≡ some r
    → content_reason c b pid_alive ≡ some s
    → holders (run a b pid_alive race (both_start (some c))) ≡ 2
unfolding run call_of advance decide write
race-holders a b pid_alive c r s h k = rw (h, k, is_same_self a)
