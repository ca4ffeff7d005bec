-- ===== src/Agent/Fleet/Steps.antt =====
-- `tickAll` of agent/src/agent.ts, runner by runner, in terms of the machine of Protocol.
use collateralized_agents.Base.{
  ℕ, Bool, true, false, ◌≡◌, refl, sym, ap, ◌∙◌, subst, Option, List, [], ◌∷◌, All, Each,
  Each-compose, Each-All,
}
use collateralized_agents.Agent.System.{Error, Result, ok, err, Position, Core, Sys}
use collateralized_agents.Agent.Fleet.{
  Runner, Shared, ScanDeps, Scan, sys_of, with_positions, scan_tracked, scan_with, scan, scans,
  counted, settle_if, settle_pass, Outcome, alerted, tick_if, tick_pass, tick_all,
}
use collateralized_agents.Agent.Fleet.Alerts.{alert_near_deadline-Quiet}
use collateralized_agents.Agent.Loop.{keys}
use collateralized_agents.Agent.Protocol.{NoDraw, Offered, Moves, here}
use collateralized_agents.Agent.Refine.Trades.{IsSized}
use collateralized_agents.Agent.Refine.Draws.{tick-Moves, settle_due-Moves}

-- What a scan of `r` comes to: the agent's own list; a list of the positions in its books, and it is partial;
-- or nothing. Each by what the two calls answered.
data Scanned (io : ScanDeps) (r : Runner) : Scan → Type 0 where
  on_all :
      (ps : List Position) (n : ℕ)
      → io.positions_for_agent r.agent n ≡ ok ps
      → Scanned io r (record { runner = with_positions ps r; fetched = true; partial = false })
  on_tracked :
      (ps : List Position) (e : Error) (n m : ℕ)
      → io.positions_for_agent r.agent n ≡ err e
      → io.positions_by_key (keys r.core.state.books) m ≡ ok ps
      → Scanned io r (record { runner = with_positions ps r; fetched = true; partial = true })
  failed :
      (e e' : Error) (n m : ℕ)
      → io.positions_for_agent r.agent n ≡ err e
      → io.positions_by_key (keys r.core.state.books) m ≡ err e'
      → Scanned io r (record { runner = r; fetched = false; partial = false })

-- A runner's core, moved by a settle pass on these positions and then by a tick on what the pass left of
-- them, partial or not.
abbrev pub Ticked : Bool → List Position → Runner → Runner → Type 0
Ticked partial ps r r' =
    (c d : Core) × (r' ≡ record r { core = d })
    × Moves r.env r.cfg NoDraw false (with_positions ps r).core c
    × Moves r.env r.cfg (Offered partial c.positions) true c d

-- What `tickAll` makes of a runner, by what its scan was answered.
pub data Stepped (io : ScanDeps) (r : Runner) (o : Outcome) : Type 0 where
  on_all :
      (ps : List Position) (n : ℕ)
      → io.positions_for_agent r.agent n ≡ ok ps
      → Ticked false ps r o.runner
      → o.partial ≡ false
      → Stepped io r o
  on_tracked :
      (ps : List Position) (e : Error) (n m : ℕ)
      → io.positions_for_agent r.agent n ≡ err e
      → io.positions_by_key (keys r.core.state.books) m ≡ ok ps
      → Ticked true ps r o.runner
      → o.partial ≡ true
      → Stepped io r o
  untouched :
      (e e' : Error) (n m : ℕ)
      → io.positions_for_agent r.agent n ≡ err e
      → io.positions_by_key (keys r.core.state.books) m ≡ err e'
      → o.runner ≡ r
      → o.ran ≡ false
      → Stepped io r o

module _ (io : ScanDeps) where
  scan_tracked-Scanned :
      (r : Runner) (e : Error) (n m : ℕ) (a : Result (List Position))
      → io.positions_for_agent r.agent n ≡ err e
      → io.positions_by_key (keys r.core.state.books) m ≡ a
      → Scanned io r (scan_tracked io r a)
  unfolding scan_tracked
  scan_tracked-Scanned r e n m (ok ps) h k = on_tracked ps e n m h k
  scan_tracked-Scanned r e n m (err e') h k = failed e e' n m h k

  scan_with-Scanned :
      (r : Runner) (sh : Shared) (n : ℕ) (a : Result (List Position))
      → io.positions_for_agent r.agent n ≡ a
      → Scanned io r (scan_with io r sh a).0
  unfolding scan_with
  scan_with-Scanned r sh n (ok ps) h = on_all ps n h
  scan_with-Scanned r sh n (err e) h = scan_tracked-Scanned r e n sh.calls _ h refl

  scans-Scanned : (rs : List Runner) (sh : Shared) → Each (Scanned io) rs (scans io rs sh).0
  unfolding scans scan
  scans-Scanned [] sh = tt
  scans-Scanned (r ∷ rs) sh = (scan_with-Scanned r (counted sh) sh.calls _ refl, scans-Scanned rs _)

-- A settle pass over a scan: the steps of its runner, and none when nothing was fetched.
abbrev Swept : Scan → Scan → Type 0
Swept s s' =
    (d : Core) × (s' ≡ record s { runner = record s.runner { core = d } })
    × (s.fetched ≡ false → d ≡ s.runner.core)
    × (IsSized s.runner.cfg.strategy → Moves s.runner.env s.runner.cfg NoDraw false s.runner.core d)

-- A tick over a scan, likewise.
abbrev Went : Scan → Outcome → Type 0
Went s o =
    (d : Core) × (o.runner ≡ record s.runner { core = d })
    × (o.partial ≡ s.partial)
    × (s.fetched ≡ false → (d ≡ s.runner.core) × (o.ran ≡ false))
    × (IsSized s.runner.cfg.strategy
        → Moves s.runner.env s.runner.cfg (Offered s.partial s.runner.core.positions) true
            s.runner.core d)

settle_if-Swept : (s : Scan) (sh : Shared) (b : Bool) → s.fetched ≡ b → Swept s (settle_if b s sh).0
unfolding settle_if
settle_if-Swept s sh false e = (s.runner.core, refl, λ f. refl, λ sized. here)
settle_if-Swept s sh true e = (
  _,
  refl,
  λ f. cc,
  λ sized. settle_due-Moves s.runner.env s.runner.cfg sized (sys_of s.runner sh),
)

settle_pass-Swept : (ss : List Scan) (sh : Shared) → Each Swept ss (settle_pass ss sh).0
unfolding settle_pass
settle_pass-Swept [] sh = tt
settle_pass-Swept (s ∷ ss) sh = (settle_if-Swept s sh s.fetched refl, settle_pass-Swept ss _)

abbrev Rests : Scan → Core → Bool → Type 0
Rests s d ran = s.fetched ≡ false → (d ≡ s.runner.core) × (ran ≡ false)

alerted-Went :
    (s : Scan) (ran : Bool) (t : Sys)
    → Rests s t.core ran
    → (IsSized s.runner.cfg.strategy
        → Moves s.runner.env s.runner.cfg
            (Offered s.partial s.runner.core.positions)
            true
            s.runner.core
            t.core)
    → Went s (alerted s ran t).0
unfolding alerted
alerted-Went s ran t f h =
    let same = (alert_near_deadline-Quiet s.runner.env ran t.core.state.books).same t in
    (
      _,
      refl,
      refl,
      λ e. (same ∙ (f e).0, (f e).1),
      λ sized.
          subst
            (Moves s.runner.env s.runner.cfg (Offered s.partial s.runner.core.positions) true
              s.runner.core)
            (sym same) (h sized),
    )

tick_if-Went :
    (price : Option ℕ) (s : Scan) (sh : Shared) (b : Bool)
    → s.fetched ≡ b
    → Went s (tick_if b price s sh).0
unfolding tick_if
tick_if-Went price s sh false e = alerted-Went s false _ (λ f. (refl, refl)) (λ sized. here)
tick_if-Went price s sh true e =
    alerted-Went s _ _ (λ f. cc)
      λ sized. tick-Moves s.runner.env s.runner.cfg sized price s.partial (sys_of s.runner sh)

tick_pass-Went :
    (price : Option ℕ) (ss : List Scan) (sh : Shared) → Each Went ss (tick_pass price ss sh).0
unfolding tick_pass
tick_pass-Went price [] sh = tt
tick_pass-Went price (s ∷ ss) sh =
    (tick_if-Went price s sh s.fetched refl, tick_pass-Went price ss _)

-- Both passes over a scan.
abbrev Passed : Scan → Outcome → Type 0
Passed s o = (s' : Scan) × Swept s s' × Went s' o

Swept-Went : (s s' : Scan) (o : Outcome) → Swept s s' → Went s' o → Passed s o
Swept-Went s s' o h k = (s', h, k)

-- What the passes leave of a scan whose positions were fetched.
both_passes :
    (s : Scan) (o : Outcome)
    → IsSized s.runner.cfg.strategy
    → Passed s o
    → (c d : Core) × (o.runner ≡ record s.runner { core = d })
      × (o.partial ≡ s.partial)
      × (s.fetched ≡ false → (d ≡ s.runner.core) × (o.ran ≡ false))
      × Moves s.runner.env s.runner.cfg NoDraw false s.runner.core c
      × Moves s.runner.env s.runner.cfg (Offered s.partial c.positions) true c d
both_passes s o sized (s', (c, q, rest, swept), went) =
    let (d, same, flag, still, moved) = subst (λ x. Went x o) q went in
    (c, d, same, flag, λ e. ((still e).0 ∙ rest e, (still e).1), swept sized, moved sized)

Scanned-Stepped :
    (io : ScanDeps) (r : Runner) (s : Scan) (o : Outcome)
    → Scanned io r s
    → Passed s o
    → IsSized r.cfg.strategy
    → Stepped io r o
Scanned-Stepped io r _ o (on_all ps n h) p sized =
    let (c, d, same, flag, still, swept, moved) = both_passes _ o sized p in
    on_all ps n h (c, d, same, swept, moved) flag
Scanned-Stepped io r _ o (on_tracked ps e n m h k) p sized =
    let (c, d, same, flag, still, swept, moved) = both_passes _ o sized p in
    on_tracked ps e n m h k (c, d, same, swept, moved) flag
Scanned-Stepped io r _ o (failed e e' n m h k) p sized =
    let (c, d, same, flag, still, swept, moved) = both_passes _ o sized p in
    untouched e e' n m h k (same ∙ ap (λ x. record r { core = x }) (still refl).0) (still refl).1

-- One `tickAll` gives each runner one outcome, in order, by what its own two scan calls answered. With the
-- agent's list, or else with the list of the positions in its books, the runner's core is reached from the
-- core with that list by steps of its own machine: those of a settle pass, then those of a tick, which on the
-- second list draws and adopts nothing. When both calls failed the runner is as it was, and its tick did not
-- run. Every strategy sizes its swaps within a book.
pub tick_all-Stepped :
    (io : ScanDeps) (price : Option ℕ) (runners : List Runner) (sh : Shared)
    → All (λ r. IsSized r.cfg.strategy) runners
    → Each (Stepped io) runners (tick_all io price runners sh).0
unfolding tick_all
tick_all-Stepped io price runners sh sized =
    let scanned = scans io runners sh in
    let swept = settle_pass scanned.0 scanned.1 in
    Each-All (λ r. IsSized r.cfg.strategy) (Stepped io) runners _ sized
      (Each-compose (Scanned io) Passed _ (Scanned-Stepped io) runners scanned.0 _
        (scans-Scanned io runners sh)
        (Each-compose Swept Went Passed Swept-Went scanned.0 swept.0 _
          (settle_pass-Swept scanned.0 scanned.1) (tick_pass-Went price swept.0 swept.1)))
