-- ===== src/App/Snapshots/Order.antt =====
-- app/lib/accounts.ts never shows an older snapshot after a newer one.
use collateralized_agents.Base.{
  ℕ, suc, ◌-◌, ◌≤◌, Bool, true, false, ◌≡◌, refl, ap, Option, none, some, List, [], ◌∷◌, ltb,
  ltb→le, if_ind, arith,
}
use collateralized_agents.App.Snapshots.{
  Coder, Body, ProgramSnapshot, Client, snapshot_of, is_newer, receive, arrive, Fetched, ready,
  request, share, use_last, fetch_program_accounts, client_ttl_ms, Event, call, response, confirmed,
  shown_at_once, step, run, note_confirmed_slot,
}

-- One more than the time at which the server read the snapshot.
abbrev pub newness : Option ProgramSnapshot → ℕ
newness none = 0
newness (some snap) = suc snap.at

-- What a caller gets is what the state holds.
abbrev pub IsHeld : Option ProgramSnapshot → Option ProgramSnapshot → Type 0
IsHeld last none = Unit
IsHeld last (some snap) = last ≡ some snap

-- The state holds no older snapshot than before, and callers get what it holds.
abbrev pub Shows : Client → Client × Option ProgramSnapshot → Type 0
Shows c x = (newness c.last ≤ newness x.0.last) × IsHeld x.0.last x.1

abbrev pub Follows : Option ProgramSnapshot → Option ProgramSnapshot → Type 0
Follows last none = Unit
Follows last (some snap) = newness last ≤ suc snap.at

receive-Follows :
    (coder : Coder) (now : ℕ) (last : Option ProgramSnapshot) (body : Option Body)
    → Follows last (receive coder now last body)
unfolding receive is_newer snapshot_of
receive-Follows coder now last none = tt
receive-Follows coder now none (some body) = omega arith
receive-Follows coder now (some last) (some body) =
    if_ind (Follows (some last)) (ltb body.at last.at) (some last) _ (λ e. omega arith)
      (λ e. omega (arith, ltb→le body.at last.at e))

arrive-Shows :
    (coder : Coder) (k now : ℕ) (body : Option Body) (c : Client)
    → Shows c (arrive coder now k body c)
unfolding arrive
arrive-Shows coder k now body c =
    by (receive coder now c.last body) (receive-Follows coder now c.last body)
  where
    by :
        (r : Option ProgramSnapshot)
        → Follows c.last r
        → (newness c.last ≤ newness (elim r [ none ↦ c.last | some snap ↦ some snap ]))
          × IsHeld (elim r [ none ↦ c.last | some snap ↦ some snap ]) r
    by none h = (omega arith, tt)
    by (some snap) h = (h, refl)

-- What a call gives, as a step.
abbrev pub Gives : Client → Client × Fetched → Type 0
Gives c x = Shows c (x.0, shown_at_once x.1)

share-Gives : (o : Option ℕ) (c : Client) → Gives c (share o c)
unfolding share request
share-Gives none c = (omega arith, tt)
share-Gives (some k) c = (omega arith, tt)

use_last-Gives :
    (o : Option ProgramSnapshot) (now : ℕ) (c : Client) → c.last ≡ o → Gives c (use_last o now c)
unfolding use_last
use_last-Gives none now c e = share-Gives c.inflight c
use_last-Gives (some last) now c e =
    if_ind (Gives c) (ltb (now - last.fetched_at) client_ttl_ms) (c, ready last) _
      (λ t. (omega arith, e)) (λ t. share-Gives c.inflight c)

call-Gives : (fresh : Bool) (now : ℕ) (c : Client) → Gives c (fetch_program_accounts fresh now c)
unfolding fetch_program_accounts request
call-Gives true now c = (omega arith, tt)
call-Gives false now c = use_last-Gives c.last now c refl

step-Shows : (coder : Coder) (e : Event) (c : Client) → Shows c (step coder e c)
unfolding step note_confirmed_slot
step-Shows coder (call fresh now) c = call-Gives fresh now c
step-Shows coder (response k now body) c = arrive-Shows coder k now body c
step-Shows coder (confirmed slot) c = (omega arith, tt)

-- Each snapshot is read no earlier than the one before it.
abbrev pub InOrder : ℕ → List ProgramSnapshot → Type 0
InOrder floor [] = Unit
InOrder floor (snap ∷ snaps) = (floor ≤ suc snap.at) × InOrder (suc snap.at) snaps

InOrder-le : (f g : ℕ) (snaps : List ProgramSnapshot) → f ≤ g → InOrder g snaps → InOrder f snaps
InOrder-le f g [] le h = tt
InOrder-le f g (snap ∷ snaps) le h = (omega (arith, h.0, le), h.1)

-- Whatever the calls, the responses and their order, the snapshots that the callers get were read by the server
-- one after the other, the first no earlier than the one that the browser held.
pub run-InOrder :
    (coder : Coder) (es : List Event) (c : Client) → InOrder (newness c.last) (run coder es c).1
unfolding run
run-InOrder coder [] c = tt
run-InOrder coder (e ∷ es) c =
    by (step coder e c) (step-Shows coder e c) (run-InOrder coder es (step coder e c).0)
  where
    by :
        (x : Client × Option ProgramSnapshot)
        → Shows c x
        → InOrder (newness x.0.last) (run coder es x.0).1
        → InOrder
            (newness c.last)
            (elim x.1 [ none ↦ (run coder es x.0).1 | some snap ↦ snap ∷ (run coder es x.0).1 ])
    by (d, none) s h = InOrder-le (newness c.last) (newness d.last) (run coder es d).1 s.0 h
    by (d, some snap) s h =
        let e : newness d.last ≡ suc snap.at = ap newness s.1 in
        (
          omega (arith, s.0, e),
          InOrder-le (suc snap.at) (newness d.last) (run coder es d).1 (omega (arith, e)) h,
        )
