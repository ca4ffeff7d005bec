-- ===== src/App/Accounts/Order.antt =====
-- The answers of app/app/api/accounts/route.ts do not go back in time.
use collateralized_agents.Base.{
  ℕ, suc, ◌+◌, ◌≤◌, Bool, true, false, ◌≡◌, sym, subst, Option, none, some, List, [], ◌∷◌, if_ind,
  arith,
}
use collateralized_agents.App.Accounts.{
  Snapshot, served, unavailable, Phase, entering, pausing, awaiting, answered, World, answer,
  put_cache, after_load, Load, loaded, threw, resume, go_on, want_reload, Event, step, run,
}
use collateralized_agents.App.Accounts.Shared.{
  level, put_cache-le, step-le, Fits, IsSound, run-IsSound,
}
use collateralized_agents.App.Accounts.Turns.{Fits-at, phase_at, Turned, step_at}

-- The slot of the snapshot in an answer.
abbrev pub slot_served : Phase → Option ℕ
slot_served (answered i (served snap stale)) = some snap.slot
slot_served _ = none

-- An answer, if there is one, shows a slot from `floor` on.
abbrev From : ℕ → Phase → Type 0
From floor (answered i (served snap stale)) = floor ≤ suc snap.slot
From floor _ = Unit

From-answer :
    (floor i : ℕ) (stale : Bool) (c : Option Snapshot)
    → floor ≤ level c
    → From floor (answer i stale c)
unfolding answer
From-answer floor i stale none h = tt
From-answer floor i stale (some snap) h = h

From-Turned :
    (floor now : ℕ) (c : Option Snapshot) (p q : Phase)
    → floor ≤ level c
    → From floor p
    → Turned now c p q
    → From floor q
unfolding go_on
From-Turned floor now c entering q h k (r, e) = subst (From floor) (sym e) (
    if_ind (From floor) (want_reload r now c) (awaiting 0) _ (λ w. tt)
      (λ w. From-answer floor 0 false c h))
From-Turned floor now c (pausing i) q h k (r, e) = subst (From floor) (sym e) tt
From-Turned floor now c (awaiting i) q h k (r, e) = subst (From floor) (sym e) tt
From-Turned floor now c (answered i a) q h k (r, e) = subst (From floor) (sym e) k

From-resume :
    (floor : ℕ) (load : Load) (c : Option Snapshot) (m : ℕ) (p : Phase)
    → floor ≤ level c
    → From floor p
    → From floor (resume load c m p).1
unfolding resume after_load
From-resume floor (loaded snap) c m (awaiting i) h k =
    if_ind (From floor) _ (pausing (i + 1)) _ (λ e. tt)
      (λ e.
        From-answer floor (i + 1) false (put_cache snap c)
          (omega (arith, (put_cache-le snap c).0, h)))
From-resume floor threw c m (awaiting i) h k = From-answer floor i true c h
From-resume floor load c m entering h k = tt
From-resume floor load c m (pausing i) h k = tt
From-resume floor load c m (answered i a) h k = k

run-From :
    (floor j : ℕ) (es : List Event) (w : World)
    → floor ≤ level w.cache
    → From floor (phase_at j w.requests)
    → From floor (phase_at j (run es w).requests)
unfolding run
run-From floor j [] w h k = k
run-From floor j (e ∷ es) w h k = run-From floor j es (step e w) (omega (arith, h, step-le e w)) (
    step_at j (From floor) e w k (λ now q t. From-Turned floor now w.cache _ q h k t)
      (λ load q t.
        subst (From floor) (sym t.3)
          (From-resume floor load t.0 t.1 (phase_at j w.requests) (omega (arith, h, t.2)) k)))

served-le :
    (top a m : ℕ) (b : Bool) (p : Phase) → Fits top b m p → slot_served p ≡ some a → suc a ≤ top
served-le top a m b entering h e = cc
served-le top a m b (pausing i) h e = cc
served-le top a m b (awaiting i) h e = cc
served-le top a m b (answered i unavailable) h e = cc
served-le top a m b (answered i (served snap stale)) h e = ground (arith, h.1.0, e)

unserved-From : (floor : ℕ) (p : Phase) → slot_served p ≡ none → From floor p
unserved-From floor entering e = tt
unserved-From floor (pausing i) e = tt
unserved-From floor (awaiting i) e = tt
unserved-From floor (answered i unavailable) e = tt
unserved-From floor (answered i (served snap stale)) e = cc

served-From : (floor b : ℕ) (p : Phase) → slot_served p ≡ some b → From floor p → floor ≤ suc b
served-From floor b entering e h = cc
served-From floor b (pausing i) e h = cc
served-From floor b (awaiting i) e h = cc
served-From floor b (answered i unavailable) e h = cc
served-From floor b (answered i (served snap stale)) e h = ground (arith, h, e)

-- Whatever the loads bring and however the requests interleave, a request that is answered after another one
-- is not shown an older slot. The requests fit the cache and the load in flight at the start.
pub run_in_order :
    (es es' : List Event) (w : World) (i j a b : ℕ)
    → IsSound w
    → slot_served (phase_at i (run es w).requests) ≡ some a
    → slot_served (phase_at j (run es w).requests) ≡ none
    → slot_served (phase_at j (run es' (run es w)).requests) ≡ some b
    → a ≤ b
run_in_order es es' w i j a b h p q r =
    let mid = run es w in
    let top = level mid.cache in
    let fit = Fits-at top i mid.inflight mid.requests (run-IsSound es w h) in
    let from =
      run-From top j es' mid (omega arith) (unserved-From top (phase_at j mid.requests) q) in
    omega (
      arith,
      served-le top a fit.0 mid.inflight (phase_at i mid.requests) fit.1 p,
      served-From top b (phase_at j (run es' mid).requests) r from,
    )
