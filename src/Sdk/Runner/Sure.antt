-- ===== src/Sdk/Runner/Sure.antt =====
-- Calls of sdk/src/runner.ts that always answer, when what they ask of the chain does.
use collateralized_agents.Base.{
  ℕ, zero, suc, ◌*◌, ℤ, Bool, true, false, ◌≡◌, refl, Option, none, some, if◌then◌else◌, if_ind,
}
use collateralized_agents.Sdk.Send.{Answer, got, threw}
use collateralized_agents.Sdk.Runner.State.{ChildProcess, Runner, RunnerOptions, Outside, Act}
use collateralized_agents.Sdk.Runner.Calls.{
  Doing, give, see, change, act, save, set_state, ◌>>>◌, ◌>>◌, attempt, caught, pass, ask, sleep,
  group_alive,
}
use collateralized_agents.Sdk.Runner.Hook.{
  clear_hook_pgid, wait_gone, wait_for, kill_hard, term_group, kill_group, end_hook, stop_hook,
}

module _ {A : Type 0} where
  abbrev pub IsGot : (A → Runner → Type 0) → Answer A × Runner → Type 0
  IsGot Q (got a, r) = Q a r
  IsGot Q (threw e, r) = ⊥

  -- `m` answers from every state, and `Q` holds of what it leaves.
  pub record Answers (Q : A → Runner → Type 0) (m : Doing A) : Type 0 where
    pub at : (r : Runner) → IsGot Q (m r)

  abbrev pub Sure : Doing A → Type 0
  Sure m = Answers (λ a r. Unit {0}) m

  -- What is asked answers, however often.
  abbrev pub Always : (ℕ → Answer A) → Type 0
  Always f = (n : ℕ) → (a : A) × (f n ≡ got a)

module _ {A : Type 0} where
  pub give-Sure : (a : A) → Sure (give a)
  unfolding give
  give-Sure a = record { at = λ r. tt }

  pub see-Sure : (f : Runner → A) → Sure (see f)
  unfolding see
  see-Sure f = record { at = λ r. tt }

  pub ask-Sure : (outside : Outside) (f : ℕ → Answer A) → Always f → Sure (ask outside f)
  unfolding ask
  ask-Sure outside f h = record { at = λ r. answered (f r.calls) _ (h r.calls).0 (h r.calls).1 }
    where
      answered : (x : Answer A) (r : Runner) (a : A) → x ≡ got a → IsGot (λ b s. Unit {0}) (x, r)
      answered (got b) r a e = tt
      answered (threw y) r a e = cc

  pub if-Sure : (b : Bool) (m n : Doing A) → Sure m → Sure n → Sure (if b then m else n)
  if-Sure b m n h k = if_ind Sure b m n (λ e. h) (λ e. k)

  attempted : (x : Answer A × Runner) → IsGot (λ o s. Unit {0}) (caught x)
  attempted (got a, r) = tt
  attempted (threw e, r) = tt

  pub attempt-Sure : (m : Doing A) → Sure (attempt m)
  unfolding attempt
  attempt-Sure m = record { at = λ r. attempted (m r) }

  attempted_some :
      (Q : A → Runner → Type 0) (x : Answer A × Runner)
      → IsGot Q x
      → IsGot (λ o s. (a : A) × (o ≡ some a) × Q a s) (caught x)
  attempted_some Q (got a, r) h = (a, refl, h)
  attempted_some Q (threw e, r) h = absurd h

  -- An attempt at what answers has an answer.
  pub attempt-Answers :
      (Q : A → Runner → Type 0) (m : Doing A)
      → Answers Q m
      → Answers (λ o r. (a : A) × (o ≡ some a) × Q a r) (attempt m)
  unfolding attempt
  attempt-Answers Q m h = record { at = λ r. attempted_some Q (m r) (h.at r) }

pub change-Sure : (f : Runner → Runner) → Sure (change f)
unfolding change
change-Sure f = record { at = λ r. tt }

pub act-Sure : (a : Act) → Sure (act a)
unfolding act
act-Sure a = change-Sure _

module _ {A B : Type 0} where
  pub bind-Answers :
      (Q : A → Runner → Type 0) (R : B → Runner → Type 0) (m : Doing A) (f : A → Doing B)
      → Answers Q m
      → ((a : A) (r : Runner) → Q a r → IsGot R (f a r))
      → Answers R (m >>> f)
  unfolding ◌>>>◌
  bind-Answers Q R m f h k = record { at = λ r. passed (m r) (h.at r) }
    where
      passed : (x : Answer A × Runner) → IsGot Q x → IsGot R (pass x f)
      passed (got a, r) q = k a r q
      passed (threw e, r) q = absurd q

  pub then-Answers :
      (R : B → Runner → Type 0) (m : Doing A) (f : A → Doing B)
      → Sure m
      → ((a : A) → Answers R (f a))
      → Answers R (m >>> f)
  then-Answers R m f h k = bind-Answers (λ a r. Unit {0}) R m f h (λ a r u. (k a).at r)

  pub then-Sure : (m : Doing A) (f : A → Doing B) → Sure m → ((a : A) → Sure (f a)) → Sure (m >>> f)
  then-Sure m f h k = then-Answers (λ b r. Unit {0}) m f h k

module _ (outside : Outside) (opts : RunnerOptions) where
  alive-Sure : (pgid : ℕ) → Sure (group_alive outside pgid)
  unfolding group_alive
  alive-Sure pgid = record { at = λ r. tt }

  wait_gone-Sure : (fuel pgid pause until : ℕ) → Sure (wait_gone outside opts fuel pgid pause until)
  unfolding wait_gone sleep
  wait_gone-Sure zero pgid pause until = give-Sure _
  wait_gone-Sure (suc fuel) pgid pause until = then-Sure _ _ (alive-Sure pgid) (λ alive.
      then-Sure _ _ (see-Sure _) (λ early.
        if-Sure alive _ _
          (if-Sure early _ _
            (then-Sure _ _ (change-Sure _) (λ u. wait_gone-Sure fuel pgid pause until))
            (give-Sure _))
          (give-Sure _)))

  wait_for-Sure : (wait_ms pgid pause : ℕ) → Sure (wait_for outside opts wait_ms pgid pause)
  unfolding wait_for
  wait_for-Sure wait_ms pgid pause =
      then-Sure _ _ (see-Sure _) (λ until. wait_gone-Sure _ pgid pause until)

  kill_hard-Sure : (pgid : ℕ) (alive : Bool) → Sure (kill_hard outside opts pgid alive)
  unfolding kill_hard
  kill_hard-Sure pgid false = give-Sure true
  kill_hard-Sure pgid true =
      then-Sure _ _ (then-Sure _ _ (act-Sure _) (λ u. wait_for-Sure 5000 pgid 100))
        (λ w. then-Sure _ _ (alive-Sure pgid) (λ alive. give-Sure _))

  kill_group-Sure : (pgid : ℕ) (deadline : Option ℤ) → Sure (kill_group outside opts pgid deadline)
  unfolding kill_group term_group
  kill_group-Sure pgid deadline = then-Sure _ _ (alive-Sure pgid) (λ alive.
      if-Sure alive _ _
        (then-Sure _ _ (see-Sure _) (λ grace.
          then-Sure _ _ (then-Sure _ _ (act-Sure _) (λ u. wait_for-Sure (grace * 1000) pgid 250))
            (λ w. then-Sure _ _ (alive-Sure pgid) (kill_hard-Sure pgid))))
        (give-Sure true))

  clear_hook_pgid-Sure : Sure (clear_hook_pgid outside opts)
  unfolding clear_hook_pgid set_state save
  clear_hook_pgid-Sure = then-Sure _ _ (see-Sure _) on_pgid
    where
      on_pgid :
          (pgid : Option ℕ)
          → Sure (elim pgid [
            | none ↦ give tt
            | some n ↦ set_state (λ s. record s { hook_pgid = none }) >> save
          ])
      on_pgid none = give-Sure tt
      on_pgid (some n) = then-Sure _ _ (change-Sure _) (λ u. change-Sure _)

  -- Stopping a hook always ends.
  pub stop_hook-Sure : (deadline : ℤ) → Sure (stop_hook outside opts deadline)
  unfolding stop_hook end_hook
  stop_hook-Sure deadline = then-Sure _ _ (see-Sure _) (λ h.
      then-Sure _ _ (then-Sure _ _ (change-Sure _) (λ u. ended h))
        (λ is_gone. then-Sure _ _ clear_hook_pgid-Sure (λ u. give-Sure is_gone)))
    where
      on_pid :
          (p : Option ℕ)
          → Sure
              (elim p [ none ↦ give true | some pid ↦ kill_group outside opts pid (some deadline) ])
      on_pid none = give-Sure true
      on_pid (some pid) = kill_group-Sure pid (some deadline)

      ended : (h : Option ChildProcess) → Sure (end_hook outside opts h deadline)
      ended none = give-Sure true
      ended (some h) = on_pid h.pid
