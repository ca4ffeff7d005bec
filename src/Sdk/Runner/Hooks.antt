-- ===== src/Sdk/Runner/Hooks.antt =====
-- What starting and stopping a hook, in sdk/src/runner.ts, does to the view of the runner.
use collateralized_agents.Base.{ℕ, suc, ℤ, true, false, ◌≡◌, refl, ap, Option, none, some}
use collateralized_agents.Sdk.Runner.State.{
  ChildProcess, Stored, Runner, RunnerOptions, Outside, started, warning,
}
use collateralized_agents.Sdk.Runner.Calls.{
  Doing, give, see, change, act, save, set_state, ◌>>>◌, ◌>>◌,
}
use collateralized_agents.Sdk.Runner.Hook.{
  clear_hook_pgid, kill_group, end_hook, stop_hook, reap_group, reap_foreign, reap,
  reap_orphan_hook, note_pid, run_hook, start_hook,
}
use collateralized_agents.Sdk.Runner.Rules.{
  View, view, Quiet, give-Quiet, see-Quiet, notify-Quiet, group_alive-Quiet,
}
use collateralized_agents.Sdk.Runner.Quiet.{kill_group-Quiet}
use collateralized_agents.Sdk.Runner.Does.{
  After, Does, Keeps, quiet-Keeps, give-Does, if-Does, weaken-Does, bind-Does, see-Does,
  change-Does, commit-Does,
}

abbrev pub unhooked : View → View
unhooked v = record v { hook = none }

abbrev pub without_pgid : Stored → Stored
without_pgid s = record s { hook_pgid = none }

abbrev pub with_pgid : ℕ → Stored → Stored
with_pgid pid s = record s { hook_pgid = some pid }

abbrev pub committed : Stored → View → View
committed s v = record v { state = s; disk = s }

abbrev pub hooked_by : ChildProcess → Option ℕ → View → View
hooked_by h none v = record v { hook = some h }
hooked_by h (some pid) v = record v {
  hook = some h;
  state = with_pgid pid v.state;
  disk = with_pgid pid v.state;
}

module _ (outside : Outside) (opts : RunnerOptions) (P : View → Type 0)
    (unhook : (v : View) → P v → P (unhooked v))
    (clear : (v : View) → v.hook ≡ none → P v → P (committed (without_pgid v.state) v)) where
  abbrev pub Unhooked : View → Type 0
  Unhooked v = P v × (v.hook ≡ none)

  clear_hook_pgid-Keeps : Keeps Unhooked (clear_hook_pgid outside opts)
  unfolding clear_hook_pgid
  clear_hook_pgid-Keeps =
      see-Does Unhooked (λ u. Unhooked) Unhooked _ _ (λ r. on_pgid (view r) r.state.hook_pgid)
    where
      on_pgid :
          (v : View) (pgid : Option ℕ)
          → Does
              (λ w. (w ≡ v) × Unhooked w)
              (elim pgid [ none ↦ give tt | some n ↦ set_state without_pgid >> save ])
              (λ u. Unhooked)
              Unhooked
      on_pgid v none = give-Does _ _ _ tt (λ w h. h.1)
      on_pgid v (some n) = commit-Does _ _ _ without_pgid (λ w h. (clear w h.1.1 h.1.0, h.1.1))

  end_hook-Quiet :
      (h : Option ChildProcess) (deadline : ℤ) → Quiet (end_hook outside opts h deadline)
  unfolding end_hook
  end_hook-Quiet none deadline = give-Quiet true
  end_hook-Quiet (some h) deadline = on_pid h.pid
    where
      on_pid :
          (p : Option ℕ)
          → Quiet
              (elim p [ none ↦ give true | some pid ↦ kill_group outside opts pid (some deadline) ])
      on_pid none = give-Quiet true
      on_pid (some pid) = kill_group-Quiet outside opts pid (some deadline)

  -- What holds without a hook holds after an error too.
  still : {A : Type 0} {m : Doing A} → Keeps Unhooked m → Does Unhooked m (λ a. Unhooked) P
  still h = weaken-Does _ _ _ _ _ _ _ (λ v p. p) (λ a v p. p) (λ v p. p.0) h

  pub stop_hook-Does : (deadline : ℤ) → Does P (stop_hook outside opts deadline) (λ g. Unhooked) P
  unfolding stop_hook
  stop_hook-Does deadline =
      see-Does P (λ g. Unhooked) P _ _
        (λ r.
          bind-Does _ (λ g. Unhooked) (λ g. Unhooked) P _ _
            (bind-Does _ (λ u. Unhooked) (λ g. Unhooked) P _ _
              (change-Does _ Unhooked P _ unhooked (λ s. refl) (λ v h. (unhook v h.1, refl)))
              (λ u. still (quiet-Keeps Unhooked _ (end_hook-Quiet r.hook deadline))))
            (λ is_gone.
              bind-Does _ (λ u. Unhooked) (λ g. Unhooked) P _ _ (still clear_hook_pgid-Keeps)
                (λ u. give-Does _ _ _ is_gone (λ v h. h))))

  reap_group-Keeps : (pgid : ℕ) → Keeps Unhooked (reap_group outside opts pgid)
  unfolding reap_group
  reap_group-Keeps pgid =
      bind-Does _ (λ a. Unhooked) (λ u. Unhooked) _ _ _ (quiet-Keeps Unhooked _ (see-Quiet _))
        (λ deadline.
          bind-Does _ (λ a. Unhooked) (λ u. Unhooked) _ _ _
            (bind-Does _ (λ u. Unhooked) (λ a. Unhooked) _ _ _
              (quiet-Keeps Unhooked _ (notify-Quiet warning))
              (λ u. quiet-Keeps Unhooked _ (kill_group-Quiet outside opts pgid deadline)))
            (λ is_gone. clear_hook_pgid-Keeps))

  reap_foreign-Keeps : (pgid : ℕ) → Keeps Unhooked (reap_foreign outside opts pgid)
  unfolding reap_foreign
  reap_foreign-Keeps pgid =
      bind-Does _ (λ a. Unhooked) (λ u. Unhooked) _ _ _
        (quiet-Keeps Unhooked _ (group_alive-Quiet outside pgid))
        (λ alive. if-Does _ _ _ alive _ _ (λ e. reap_group-Keeps pgid) (λ e. clear_hook_pgid-Keeps))

  reap-Does :
      (pgid : Option ℕ) (h : Option ChildProcess)
      → Does (λ v. (v.hook ≡ h) × P v) (reap outside opts pgid h) (λ u. P) P
  unfolding reap
  reap-Does none h = give-Does _ _ _ tt (λ v p. p.1)
  reap-Does (some pgid) (some h) = give-Does _ _ _ tt (λ v p. p.1)
  reap-Does (some pgid) none =
      see-Does _ (λ u. P) P _ _
        (λ r.
          weaken-Does Unhooked _ (λ u. Unhooked) _ P _ _ (λ v h. (h.1.1, h.1.0)) (λ a v h. h.0)
            (λ v p. p)
            (if-Does _ _ _ (outside.own_group pgid r.calls) _ _ (λ e. still clear_hook_pgid-Keeps)
              (λ e. still (reap_foreign-Keeps pgid))))

  pub reap_orphan_hook-Keeps : Keeps P (reap_orphan_hook outside opts)
  unfolding reap_orphan_hook
  reap_orphan_hook-Keeps =
      see-Does P (λ u. P) P _ _
        (λ r.
          weaken-Does _ _ _ _ _ _ _ (λ v h. (ap (λ (w : View). w.hook) h.0, h.1)) (λ a v p. p)
            (λ v p. p) (reap-Does r.state.hook_pgid r.hook))

module _ (outside : Outside) (opts : RunnerOptions) (P Q E : View → Type 0)
    (no_hook : (v : View) → P v → Q v)
    (hook : (h : ChildProcess) (v : View) → P v → Q (hooked_by h h.pid v)) where
  run_hook-Does : Does P (run_hook outside opts) (λ u. Q) E
  unfolding run_hook note_pid see ◌>>>◌ change act set_state save give
  run_hook-Does = record { at = λ r p. on_pid (outside.spawn r.calls) r p }
    where
      on_pid :
          (pid : Option ℕ) (r : Runner)
          → P (view r)
          → After
              (λ u. Q)
              E
              ((change (λ s. record s {
                hook = some (record { spawned = r.calls; pid = pid });
                hook_exited = false;
                calls = suc r.calls;
              })
                  >> act (started pid)
                  >> note_pid outside opts pid)
                r)
      on_pid none r p = hook (record { spawned = r.calls; pid = none }) (view r) p
      on_pid (some pid) r p = hook (record { spawned = r.calls; pid = some pid }) (view r) p

  pub start_hook-Does : Does P (start_hook outside opts) (λ u. Q) E
  unfolding start_hook
  start_hook-Does =
      if-Does P _ _ opts.hook _ _ (λ e. run_hook-Does) (λ e. give-Does _ _ _ tt no_hook)
