-- ===== src/Sdk/Runner/Sound.antt =====
-- What the runner of sdk/src/runner.ts keeps of its state file and of the hook it runs.
use collateralized_agents.Base.{
  ℕ, Bool, true, false, ◌≡◌, refl, sym, ap, ℤ, ◌∙◌, subst, Option, none, some,
}
use collateralized_agents.Sdk.Runner.State.{ChildProcess, RunnerOptions, Outside}
use collateralized_agents.Sdk.Runner.Watch.{or_else, read_reserve}
use collateralized_agents.Sdk.Runner.Hook.{stop_hook, start_hook, reap_orphan_hook}
use collateralized_agents.Sdk.Runner.Rules.{View}
use collateralized_agents.Sdk.Runner.Does.{Does, Keeps, weaken-Does}
use collateralized_agents.Sdk.Runner.Watched.{IsReserve, Known, read_reserve-Does}
use collateralized_agents.Sdk.Runner.Hooks.{
  stop_hook-Does, start_hook-Does, reap_orphan_hook-Keeps, hooked_by, unhooked, committed,
  without_pgid,
}

-- The process group of the hook at hand is in the state.
abbrev pub HookIsSaved : View → Type 0
HookIsSaved v =
    (h : ChildProcess) (pid : ℕ) → v.hook ≡ some h → h.pid ≡ some pid → v.state.hook_pgid ≡ some pid

-- Without a position there is no hook; in paper mode the position is the would-be one.
abbrev pub HookIsOwned : Bool → View → Type 0
HookIsOwned true v = v.paper_book ≡ none → v.hook ≡ none
HookIsOwned false v = v.state.active ≡ none → v.hook ≡ none

abbrev pub IsSound : Bool → View → Type 0
IsSound paper v = (v.disk ≡ v.state) × HookIsSaved v × HookIsOwned paper v

module _ (outside : Outside) (opts : RunnerOptions) (paper : Bool) where
  -- Sound, with a reserve that the chain told.
  abbrev pub Kept : View → Type 0
  Kept v = IsSound paper v × Known outside opts v

  abbrev pub KeptBare : View → Type 0
  KeptBare v = Kept v × (v.hook ≡ none)

  bare_owned : (v : View) → v.hook ≡ none → HookIsOwned paper v
  bare_owned v e = by_mode paper
    where
      by_mode : (m : Bool) → HookIsOwned m v
      by_mode true = λ k. e
      by_mode false = λ k. e

  bare_saved : (v : View) → v.hook ≡ none → HookIsSaved v
  bare_saved v e = λ h pid k l. absurd cc

  pub bare-Kept : (v : View) → v.disk ≡ v.state → v.hook ≡ none → Known outside opts v → KeptBare v
  bare-Kept v d e k = (((d, bare_saved v e, bare_owned v e), k), e)

  pub stop_hook-Kept :
      (deadline : ℤ) → Does Kept (stop_hook outside opts deadline) (λ g. KeptBare) Kept
  stop_hook-Kept deadline =
      stop_hook-Does outside opts Kept (λ v p. (bare-Kept (unhooked v) p.0.0 refl p.1).0)
        (λ v e p. (bare-Kept (committed (without_pgid v.state) v) refl e p.1).0) deadline

  pub reap-Kept : Keeps Kept (reap_orphan_hook outside opts)
  reap-Kept =
      reap_orphan_hook-Keeps outside opts Kept (λ v p. (bare-Kept (unhooked v) p.0.0 refl p.1).0)
        (λ v e p. (bare-Kept (committed (without_pgid v.state) v) refl e p.1).0)

  -- Whatever hook a view like this has, there is a position for it.
  abbrev pub HasPosition : View → Type 0
  HasPosition v =
      (w : View)
      → w.state.active ≡ v.state.active
      → w.paper_book ≡ v.paper_book
      → HookIsOwned paper w

  -- A hook is started where there is none, for a position that is there.
  pub start_hook-Kept :
      Does (λ v. KeptBare v × HasPosition v) (start_hook outside opts) (λ u. Kept) Kept
  start_hook-Kept =
      start_hook-Does outside opts _ Kept Kept (λ v p. p.0.0) (λ h v p. hooked h h.pid refl v p)
    where
      pid_of : Option ChildProcess → Option ℕ
      pid_of none = none
      pid_of (some h) = h.pid

      not_none : (n : ℕ) → none ≡ some n → ⊥
      not_none n k = cc

      hooked :
          (h : ChildProcess) (pid : Option ℕ)
          → h.pid ≡ pid
          → (v : View) → KeptBare v × HasPosition v
          → Kept (hooked_by h pid v)
      hooked h none e v p = (
        (
          p.0.0.0.0,
          λ g n k l. absurd (not_none n (sym e ∙ ap pid_of k ∙ l)),
          p.1 (hooked_by h none v) refl refl,
        ),
        p.0.0.1,
      )
      hooked h (some pid) e v p = (
        (refl, λ g n k l. sym e ∙ ap pid_of k ∙ l, p.1 (hooked_by h (some pid) v) refl refl),
        p.0.0.1,
      )

  -- A call that reads the reserve keeps what it must know.
  pub reserve-Kept :
      (P : View → Type 0)
      → ((n : ℕ) (v : View) → P v → P (record v { reserve = some n }))
      → Keeps (λ v. P v × Known outside opts v) (read_reserve outside opts)
  reserve-Kept P h =
      weaken-Does _ _ _ _ _ _ _ (λ v p. p) (λ a v p. p.1) (λ v p. p)
        (read_reserve-Does outside opts (λ v. P v × Known outside opts v)
          (λ n v i p.
            (h n v p.0, λ m e. subst (IsReserve outside opts) (ap (λ o. or_else o n) e) i))
          (λ n v p e. p.1 n e))
