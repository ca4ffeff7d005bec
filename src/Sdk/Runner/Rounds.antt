-- ===== src/Sdk/Runner/Rounds.antt =====
-- The loop of the runner of sdk/src/runner.ts, round after round.
use collateralized_agents.Base.{
  ℕ, zero, suc, Bool, true, ◌≡◌, refl, sym, subst, inl, inr, Option, none, some,
}
use collateralized_agents.Sdk.Send.{Answer, got, threw}
use collateralized_agents.Sdk.Runner.State.{Runner, RunnerOptions, Outside, error}
use collateralized_agents.Sdk.Runner.Calls.{Doing, attempt, caught}
use collateralized_agents.Sdk.Runner.Loop.{tick, or_error, round, rounds}
use collateralized_agents.Sdk.Runner.Rules.{
  View, view, see-Quiet, give-Quiet, sleep-Quiet, notify-Quiet,
}
use collateralized_agents.Sdk.Runner.Does.{After, Keeps, quiet-Keeps, if-Does, bind-Does}
use collateralized_agents.Sdk.Runner.Watched.{Known, ToldUnbound}
use collateralized_agents.Sdk.Runner.Books.{Books, books, Step}
use collateralized_agents.Sdk.Runner.Ticks.{
  bound_as, Binding, Rebound, Ticked, tick-Ticked, paper_tick-Rebound,
}

module _ (outside : Outside) (opts : RunnerOptions) (P : View → Type 0) where
  or_error-Keeps : (o : Option (Unit {0})) → Keeps P (or_error outside opts o)
  unfolding or_error
  or_error-Keeps none = quiet-Keeps P _ (notify-Quiet error)
  or_error-Keeps (some u) = quiet-Keeps P _ (give-Quiet tt)

  attempted :
      {A : Type 0} (x : Answer A × Runner) → After (λ a. P) P x → After (λ a. P) P (caught x)
  attempted (got a, r) p = p
  attempted (threw e, r) p = p

  attempt-Keeps : {A : Type 0} (m : Doing A) → Keeps P m → Keeps P (attempt m)
  unfolding attempt
  attempt-Keeps m h = record { at = λ r p. attempted (m r) (h.at r p) }

  -- What a tick keeps, the loop keeps.
  pub rounds-Keeps : Keeps P (tick outside opts) → (n : ℕ) → Keeps P (rounds outside opts n)
  unfolding rounds round
  rounds-Keeps h zero = quiet-Keeps P _ (give-Quiet tt)
  rounds-Keeps h (suc n) =
      bind-Does _ (λ s. P) (λ u. P) _ _ _ (quiet-Keeps P _ (see-Quiet _))
        (λ stopping.
          if-Does P _ _ stopping _ _ (λ e. quiet-Keeps P _ (give-Quiet tt))
            (λ e.
              bind-Does _ (λ u. P) (λ u. P) _ _ _
                (bind-Does _ (λ ms. P) (λ u. P) _ _ _
                  (bind-Does _ (λ u. P) (λ ms. P) _ _ _
                    (bind-Does _ (λ o. P) (λ u. P) _ _ _ (attempt-Keeps _ h) or_error-Keeps)
                    (λ u. quiet-Keeps P _ (see-Quiet _)))
                  (λ ms. quiet-Keeps P _ (sleep-Quiet outside ms)))
                (λ u. rounds-Keeps h n)))

-- What a run that keeps `P` ends with satisfies `P`.
pub kept_by :
    {A : Type 0} (P : View → Type 0) (m : Doing A) (r : Runner)
    → Keeps P m
    → P (view r)
    → P (view (m r).1)
kept_by {A = A} P m r h p = ended (m r) (h.at r p)
  where
    ended : (x : Answer A × Runner) → After (λ a. P) P x → P (view x.1)
    ended (got a, s) q = q
    ended (threw e, s) q = q

-- Books that ticks can lead to; before each, the binding may be noted anew as an answer about the agent says.
pub data Reach (outside : Outside) (opts : RunnerOptions) (b : Books) : Books → Type 0 where
  here : Reach outside opts b b
  rebind :
      (c : Books) (u : Bool)
      → ToldUnbound outside opts u
      → Reach outside opts b c
      → Reach outside opts b (bound_as u c)
  next : (c d : Books) → Reach outside opts b c → Step outside opts c d → Reach outside opts b d

module _ (outside : Outside) (opts : RunnerOptions) where
  abbrev Reached : Books → View → Type 0
  Reached b v = Reach outside opts b (books v) × Known outside opts v

  tick-Reached : (b : Books) → Keeps (Reached b) (tick outside opts)
  tick-Reached b = record {
    at = λ r p.
        went (books (view r)) p.0 (tick outside opts r)
          ((tick-Ticked outside opts (books (view r))).at r ((r.unbound, refl, inl refl), p.1));
  }
    where
      noted :
          (c : Books) (u : Bool)
          → Reach outside opts b c
          → Binding outside opts c u
          → Reach outside opts b (bound_as u c)
      noted c u p (inl e) = subst (λ w. Reach outside opts b (bound_as w c)) (sym e) p
      noted c u p (inr t) = rebind c u t p

      step_on :
          (c : Books) (v : View) → Reach outside opts b c → Ticked outside opts c v → Reached b v
      step_on c v p t = (next (bound_as t.0.0 c) (books v) (noted c t.0.0 p t.0.2) t.0.1, t.1)

      went :
          (c : Books)
          → Reach outside opts b c
          → (x : Answer (Unit {0}) × Runner)
          → After (λ u. Ticked outside opts c) (Ticked outside opts c) x
          → After (λ u. Reached b) (Reached b) x
      went c p (got u, s) t = step_on c (view s) p t
      went c p (threw e, s) t = step_on c (view s) p t

  pub rounds-Reach :
      (n : ℕ) (r : Runner)
      → r.reserve ≡ none
      → Reach outside opts (books (view r)) (books (view (rounds outside opts n r).1))
  rounds-Reach n r e =
      (kept_by (Reached (books (view r))) _ r
        (rounds-Keeps outside opts _ (tick-Reached (books (view r))) n) (here, λ m h. absurd cc)).0

  -- In paper mode, no number of rounds draws or settles, or changes the stored position and history.
  pub rounds-paper :
      (n : ℕ) (r : Runner)
      → opts.paper ≡ true
      → r.reserve ≡ none
      → (u : Bool) × (books (view (rounds outside opts n r).1) ≡ bound_as u (books (view r)))
  rounds-paper n r paper e =
      let kept =
        kept_by (Rebound outside opts (books (view r))) _ r
          (rounds-Keeps outside opts _ (paper_tick-Rebound outside opts (books (view r)) paper) n)
          ((r.unbound, refl, inl refl), λ m h. absurd cc) in
      (kept.0.0, kept.0.1)
