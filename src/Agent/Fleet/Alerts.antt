-- ===== src/Agent/Fleet/Alerts.antt =====
-- The alerts of `alertNearDeadline` in agent/src/agent.ts.
use collateralized_agents.Base.{
  ℕ, ℤ, Bool, true, false, ◌≡◌, refl, sym, subst, suc, List, [], ◌∷◌, keep_if, Dict, if◌then◌else◌,
  arith,
}
use collateralized_agents.Agent.Schedule.{should_alert}
use collateralized_agents.Agent.State.{Book}
use collateralized_agents.Agent.System.{Result, ok, err, Act, follow, Sys, pure, call, ◌>>=◌}
use collateralized_agents.Agent.System.Ensures.{Quiet, Quiet-pure, Quiet-bind, Quiet-if}
use collateralized_agents.Agent.Env.{Env}
use collateralized_agents.Agent.Runner.{now}
use collateralized_agents.Agent.Loop.{keys}
use collateralized_agents.Agent.Fleet.{alert_near_deadline}
use collateralized_agents.Agent.Refine.Rules.{now-Quiet}

pub alert_near_deadline-Quiet :
    (env : Env) (tick_ran : Bool) (books : Dict Book)
    → Quiet (alert_near_deadline env tick_ran books)
unfolding alert_near_deadline
alert_near_deadline-Quiet env tick_ran [] = Quiet-pure []
alert_near_deadline-Quiet env tick_ran ((key, book) ∷ books) =
    let rest = alert_near_deadline-Quiet env tick_ran books in
    Quiet-bind _ _ (now-Quiet env) λ t.
      Quiet-if (should_alert book t tick_ran) _ _
        (Quiet-bind _ _ (now-Quiet env) λ left. Quiet-bind _ _ rest λ ks. Quiet-pure (key ∷ ks))
        rest

follow_cons :
    (key : ℕ) (ks : List ℕ) (r : Result (List ℕ) × Sys)
    → r.0 ≡ ok ks
    → (follow r (λ rest. pure (key ∷ rest))).0 ≡ ok (key ∷ ks)
unfolding pure
follow_cons key ks (ok xs, s) h = grind arith
follow_cons key ks (err e, s) h = cc

-- On a clock that stands at `t`, the books that get an ALERT line are those that should, in order.
alert_near_deadline_lem :
    (env : Env) (tick_ran : Bool) (t : ℤ) (books : Dict Book) (s : Sys)
    → ((n : ℕ) → env.now n ≡ t)
    → (alert_near_deadline env tick_ran books s).0
      ≡ ok (keys (keep_if (λ b. should_alert b.1 t tick_ran) books))
unfolding alert_near_deadline ◌>>=◌ pure now call
alert_near_deadline_lem env tick_ran t [] s h = refl
alert_near_deadline_lem env tick_ran t ((key, book) ∷ books) s h =
    let here = should_alert book t tick_ran in
    let to_alert = keep_if (λ b. should_alert b.1 t tick_ran) books in
    subst
      (λ u.
        (by (should_alert book u tick_ran) (record s { calls = suc s.calls })).0
        ≡ ok (keys (if here then (key, book) ∷ to_alert else to_alert)))
      (sym (h s.calls))
      (either (λ s'. alert_near_deadline_lem env tick_ran t books s' h) here
        (record s { calls = suc s.calls }))
  where
    by : Bool → Act (List ℕ)
    by x =
        if x
        then (now env >>= λ left.
            alert_near_deadline env tick_ran books >>= λ rest. pure (key ∷ rest))
        else alert_near_deadline env tick_ran books

    either :
        ((s' : Sys)
          → (alert_near_deadline env tick_ran books s').0
            ≡ ok (keys (keep_if (λ b. should_alert b.1 t tick_ran) books)))
        → (x : Bool) (s' : Sys)
        → (by x s').0
          ≡ ok (
              keys (
                if x
                then (key, book) ∷ keep_if (λ b. should_alert b.1 t tick_ran) books
                else keep_if (λ b. should_alert b.1 t tick_ran) books))
    either ih true s' = follow_cons key _ _ (ih (record s' { calls = suc s'.calls }))
    either ih false s' = ih s'
