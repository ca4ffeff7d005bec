-- ===== src/Sdk/Runner/Calls.antt =====
-- The calls of the `Runner` of sdk/src/runner.ts: an answer or an error, with the runner's state after.
use collateralized_agents.Base.{
  ℕ, suc, ◌+◌, Bool, true, false, Option, none, some, List, ◌∷◌, ◌==◌, if◌then◌else◌,
}
use collateralized_agents.Sdk.Send.{SendError, Answer, got, threw}
use collateralized_agents.Sdk.Runner.State.{
  ChildProcess, Stored, Runner, sigterm, Notice, Act, signalled, notified, Fired, nothing,
  hook_gone, asked_to_stop, Outside,
}

abbrev pub Doing : Type 0 → Type 0
Doing A = Runner → Answer A × Runner

module _ {A : Type 0} where
  unfoldable pub give : A → Doing A
  give a r = (got a, r)

  unfoldable pub stop_with : SendError → Doing A
  stop_with e r = (threw e, r)

  -- A look at the state.
  unfoldable pub see : (Runner → A) → Doing A
  see f r = (got (f r), r)

unfoldable pub change : (Runner → Runner) → Doing (Unit {0})
change f r = (got tt, f r)

unfoldable pub act : Act → Doing (Unit {0})
act a = change (λ r. record r { acts = a ∷ r.acts })

-- `notify`, its log line and its command left out.
unfoldable pub notify : Notice → Doing (Unit {0})
notify n = act (notified n)

-- `save`: the state file is replaced as a whole.
unfoldable pub save : Doing (Unit {0})
save = change (λ r. record r { disk = r.state })

unfoldable pub set_state : (Stored → Stored) → Doing (Unit {0})
set_state f = change (λ r. record r { state = f r.state })

module _ {A B : Type 0} where
  abbrev pub pass : Answer A × Runner → (A → Doing B) → Answer B × Runner
  pass (got a, r) f = f a r
  pass (threw e, r) f = (threw e, r)

  infixl 5 ◌>>>◌
  unfoldable pub ◌>>>◌ : Doing A → (A → Doing B) → Doing B
  ◌>>>◌ m f r = pass (m r) f

infixl 5 ◌>>◌
abbrev pub ◌>>◌ : {B : Type 0} → Doing (Unit {0}) → Doing B → Doing B
m >> n = m >>> λ u. n

module _ {A : Type 0} where
  abbrev pub caught : Answer A × Runner → Answer (Option A) × Runner
  caught (got a, r) = (got (some a), r)
  caught (threw e, r) = (got none, r)

  -- `try { m } catch`: none when `m` threw.
  unfoldable pub attempt : Doing A → Doing (Option A)
  attempt m r = caught (m r)

-- The `exit` and `error` handlers of a hook count for the current hook only.
abbrev pub is_current : Option ChildProcess → ℕ → Bool
is_current none n = false
is_current (some h) n = h.spawned == n

abbrev pub send_term : Option ChildProcess → List Act → List Act
send_term none done = done
send_term (some h) done = elim h.pid [ none ↦ done | some pid ↦ signalled pid sigterm ∷ done ]

-- `stop`: the hook's group is asked to end, and the loop will.
unfoldable pub stop : Runner → Runner
stop r = record r { stopping = true; acts = send_term r.hook r.acts }

unfoldable pub on_fired : Fired → Runner → Runner
on_fired nothing r = r
on_fired (hook_gone n) r = record r {
  hook_exited = if is_current r.hook n then true else r.hook_exited;
}
on_fired asked_to_stop r = stop r

module _ (outside : Outside) where
  -- `n` more milliseconds and one more call, with what fires meanwhile.
  unfoldable pub elapse : ℕ → Runner → Runner
  elapse n r =
      on_fired (outside.fired r.calls)
        (record r { clock_ms = r.clock_ms + (n + outside.took r.calls); calls = suc r.calls })

  unfoldable pub ask : {A : Type 0} → (ℕ → Answer A) → Doing A
  ask f r = (f r.calls, elapse 0 r)

  unfoldable pub sleep : ℕ → Doing (Unit {0})
  sleep ms = change (elapse ms)

  -- `groupAlive`, which does not wait; the answer may differ from one look to the next.
  unfoldable pub group_alive : ℕ → Doing Bool
  group_alive pgid r = (got (outside.group_alive pgid r.calls), record r { calls = suc r.calls })
