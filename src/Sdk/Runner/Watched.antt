-- ===== src/Sdk/Runner/Watched.antt =====
-- What looking at the agent and at the reserve, in sdk/src/runner.ts, does to the view of the runner.
use collateralized_agents.Base.{ℕ, Bool, not, ◌≡◌, refl, ap, Option, none, some}
use collateralized_agents.Sdk.Send.{got}
use collateralized_agents.Sdk.Settle.{wallet_reserve}
use collateralized_agents.Sdk.Runner.State.{AgentAccount, RunnerOptions, Outside}
use collateralized_agents.Sdk.Runner.Watch.{
  urgent_fee, is_bound, got_agent, read_agent, refresh_agent, reserve_from, read_reserve,
}
use collateralized_agents.Sdk.Runner.Rules.{View, ask-Reads, attempt-Reads, see-Quiet}
use collateralized_agents.Sdk.Runner.Quiet.{tell_binding-Quiet}
use collateralized_agents.Sdk.Runner.Does.{
  Does, Keeps, reads-Does, quiet-Keeps, give-Does, if-Does, weaken-Does, bind-Does, see-Does,
  change-Does,
}

-- The reserve for a rent that the chain told.
abbrev pub IsReserve : Outside → RunnerOptions → ℕ → Type 0
IsReserve outside opts n =
    (rent m : ℕ) × (outside.rent_exemption m ≡ got rent)
    × (n ≡ wallet_reserve rent (urgent_fee opts))

-- The reserve that the runner keeps, if any, is one for a rent that the chain told.
abbrev pub Known : Outside → RunnerOptions → View → Type 0
Known outside opts v = (n : ℕ) → v.reserve ≡ some n → IsReserve outside opts n

-- An answer about the agent says whether it is bound to another key.
abbrev pub ToldUnbound : Outside → RunnerOptions → Bool → Type 0
ToldUnbound outside opts u =
    (a : AgentAccount) × (n : ℕ) × (outside.agent_account opts.agent n ≡ got (some a))
    × (u ≡ not (is_bound opts a))

module _ (outside : Outside) (opts : RunnerOptions) (P : View → Type 0)
    (bind : (u : Bool) (v : View)
      → ToldUnbound outside opts u
      → P v
      → P (record v { unbound = u })) where
  abbrev Answered : Option AgentAccount → Type 0
  Answered o = (n : ℕ) × (outside.agent_account opts.agent n ≡ got o)

  got_agent-Keeps : (a : Option AgentAccount) → Answered a → Keeps P (got_agent opts a)
  unfolding got_agent
  got_agent-Keeps none t = give-Does P _ _ tt (λ v p. p)
  got_agent-Keeps (some a) t =
      bind-Does P (λ r. P) (λ u. P) P _ _
        (bind-Does P (λ u. P) (λ r. P) P _ _ (change-Does P P P _ (λ v. v) (λ r. refl) (λ v p. p))
          (λ u. quiet-Keeps P _ (see-Quiet _)))
        (λ r.
          bind-Does P (λ u. P) (λ u. P) P _ _ (quiet-Keeps P _ (tell_binding-Quiet _ r))
            (λ u.
              change-Does P P P _ (λ v. record v { unbound = not (is_bound opts a) }) (λ s. refl)
                (λ v. bind _ v (a, t.0, t.1, refl))))

  read_agent-Keeps :
      (o : Option (Option AgentAccount))
      → ((a : Option AgentAccount) → o ≡ some a → Answered a)
      → Keeps P (read_agent opts o)
  unfolding read_agent
  read_agent-Keeps none t = give-Does P _ _ tt (λ v p. p)
  read_agent-Keeps (some a) t =
      bind-Does P (λ u. P) (λ u. P) P _ _ (change-Does P P P _ (λ v. v) (λ r. refl) (λ v p. p))
        (λ u. got_agent-Keeps a (t a refl))

  pub refresh_agent-Keeps : Keeps P (refresh_agent outside opts)
  unfolding refresh_agent
  refresh_agent-Keeps =
      bind-Does P (λ f. P) (λ u. P) P _ _ (quiet-Keeps P _ (see-Quiet _))
        (λ fresh.
          if-Does P _ _ fresh _ _ (λ e. give-Does P _ _ tt (λ v p. p))
            (λ e.
              bind-Does P (λ o v. ((a : Option AgentAccount) → o ≡ some a → Answered a) × P v)
                (λ u. P) P _ _ (reads-Does P _ _ (attempt-Reads Answered _ (ask-Reads outside _)))
                (λ o. record { at = λ r h. (read_agent-Keeps o h.0).at r h.1 })))

module _ (outside : Outside) (opts : RunnerOptions) (P : View → Type 0)
    (keep : (n : ℕ) (v : View) → IsReserve outside opts n → P v → P (record v { reserve = some n }))
    (known : (n : ℕ) (v : View) → P v → v.reserve ≡ some n → IsReserve outside opts n) where
  abbrev pub Reserved : ℕ → View → Type 0
  Reserved n v = IsReserve outside opts n × P v

  abbrev Told : ℕ → View → Type 0
  Told rent v = ((m : ℕ) × (outside.rent_exemption m ≡ got rent)) × P v

  reserve_from-Does :
      (o : Option ℕ) → Does (λ v. (v.reserve ≡ o) × P v) (reserve_from outside opts o) Reserved P
  unfolding reserve_from
  reserve_from-Does (some n) = give-Does _ _ _ n (λ v h. (known n v h.1 h.0, h.1))
  reserve_from-Does none =
      bind-Does _ Told Reserved P _ _
        (weaken-Does P _ Told Told P P _ (λ v h. h.1) (λ a v p. p) (λ v p. p)
          (reads-Does P _ _ (ask-Reads outside _)))
        (λ rent.
          bind-Does (Told rent) (λ u. Reserved (wallet_reserve rent (urgent_fee opts))) Reserved P _
            _
            (change-Does (Told rent) (Reserved (wallet_reserve rent (urgent_fee opts))) P _
              (λ v. record v { reserve = some (wallet_reserve rent (urgent_fee opts)) }) (λ r. refl)
              (λ v h. ((rent, h.0.0, h.0.1, refl), keep _ v (rent, h.0.0, h.0.1, refl) h.1)))
            (λ u. give-Does _ _ _ _ (λ v h. h)))

  pub read_reserve-Does : Does P (read_reserve outside opts) Reserved P
  unfolding read_reserve
  read_reserve-Does = see-Does P Reserved P _ _ (λ r.
      weaken-Does _ _ _ _ _ _ _ (λ v h. (ap (λ (w : View). w.reserve) h.0, h.1)) (λ n v p. p)
        (λ v p. p) (reserve_from-Does r.reserve))
