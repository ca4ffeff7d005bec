-- ===== src/App/Snapshots/Confirmed.antt =====
-- A transaction that is confirmed, from app/lib/accounts.ts to the answer of app/app/api/accounts/route.ts.
use collateralized_agents.Base.{
  ℕ, zero, suc, ◌-◌, ◌≤◌, Bool, true, false, ◌≡◌, refl, ap, sym, subst, ◌∙◌, Option, none, some,
  List, [], ◌∷◌, All, ltb, if_ind, arith, inl, inr, ◌⊎◌, ◌==◌,
}
use collateralized_agents.App.Snapshots.{
  Coder, ProgramSnapshot, Client, arrive, Fetched, ready, requested, Url, accounts_url, request,
  share, use_last, fetch_program_accounts, client_ttl_ms, Event, call, response, confirmed, step,
  run, note_confirmed_slot,
}
use collateralized_agents.App.Accounts
use collateralized_agents.App.Accounts.{
  Snapshot, Answer, unavailable, served, answered, Phase, Request, World, min_slot_tries,
}
use collateralized_agents.App.Accounts.Shared.{level, IsSound, Fits, run-IsSound}
use collateralized_agents.App.Accounts.Turns.{phase_at}

note_confirmed_slot-le :
    (slot : ℕ) (c : Client)
    → (c.min_slot ≤ (note_confirmed_slot slot c).min_slot)
      × (slot ≤ (note_confirmed_slot slot c).min_slot)
unfolding note_confirmed_slot
note_confirmed_slot-le slot c = ground arith

-- A call does not change `minSlot`.
share-eq : (o : Option ℕ) (c : Client) → (share o c).0.min_slot ≡ c.min_slot
unfolding share request
share-eq none c = refl
share-eq (some k) c = refl

use_last-eq :
    (o : Option ProgramSnapshot) (now : ℕ) (c : Client) → (use_last o now c).0.min_slot ≡ c.min_slot
unfolding use_last
use_last-eq none now c = share-eq c.inflight c
use_last-eq (some last) now c =
    if_ind (λ (x : Client × Fetched). x.0.min_slot ≡ c.min_slot)
      (ltb (now - last.fetched_at) client_ttl_ms) (c, ready last) _ (λ t. refl)
      (λ t. share-eq c.inflight c)

call-eq :
    (fresh : Bool) (now : ℕ) (c : Client)
    → (fetch_program_accounts fresh now c).0.min_slot ≡ c.min_slot
unfolding fetch_program_accounts request
call-eq true now c = refl
call-eq false now c = use_last-eq c.last now c

step-le : (coder : Coder) (e : Event) (c : Client) → c.min_slot ≤ (step coder e c).0.min_slot
unfolding step arrive
step-le coder (call fresh now) c = omega (arith, call-eq fresh now c)
step-le coder (response k now body) c = omega arith
step-le coder (confirmed slot) c = (note_confirmed_slot-le slot c).0

run-le : (coder : Coder) (es : List Event) (c : Client) → c.min_slot ≤ (run coder es c).0.min_slot
unfolding run
run-le coder [] c = omega arith
run-le coder (e ∷ es) c = omega (arith, step-le coder e c, run-le coder es (step coder e c).0)

-- `Number(params.get("minSlot")) || 0`
abbrev pub slot_asked : Url → ℕ
slot_asked url = elim url.min_slot [ none ↦ 0 | some n ↦ n ]

accounts_url-le : (c : Client) → c.min_slot ≤ slot_asked (accounts_url true c)
unfolding accounts_url
accounts_url-le c =
    if_ind (λ (o : Option ℕ). c.min_slot ≤ elim o [ none ↦ 0 | some n ↦ n ]) (c.min_slot == 0) none
      (some c.min_slot) (λ e. ground (arith, e)) (λ e. omega arith)

abbrev pub asked : Fetched → ℕ
asked (requested k url) = slot_asked url
asked _ = 0

fresh_asks :
    (now : ℕ) (c : Client)
    → asked (fetch_program_accounts true now c).1 ≡ slot_asked (accounts_url true c)
unfolding fetch_program_accounts request
fresh_asks now c = refl

-- The slot that the `j`-th request of the server asks for.
abbrev pub min_slot_at : ℕ → List Request → ℕ
min_slot_at j [] = 0
min_slot_at zero (r ∷ rs) = r.min_slot
min_slot_at (suc j) (r ∷ rs) = min_slot_at j rs

Fits-asked :
    (top j : ℕ) (b : Bool) (rs : List Request)
    → All (λ r. Fits top b r.min_slot r.phase) rs
    → Fits top b (min_slot_at j rs) (phase_at j rs)
Fits-asked top j b [] h = (omega arith, refl)
Fits-asked top zero b (r ∷ rs) h = h.0
Fits-asked top (suc j) b (r ∷ rs) h = Fits-asked top j b rs h.1

reached :
    (top m tries : ℕ) (snap : Snapshot) (b : Bool) (p : Phase)
    → Fits top b m p
    → p ≡ answered tries (served snap false)
    → (m ≤ snap.slot) ⊎ (tries ≡ min_slot_tries)
reached top m tries snap b p h e = elim (subst (Fits top b m) e h).1.1 [ inl s ↦ cc | inr r ↦ r ]

fresh_slot-reached :
    (coder : Coder) (es : List Event) (c d : Client) (slot now k : ℕ) (url : Url)
    (as' : List Accounts.Event) (w : World) (j tries : ℕ) (snap : Snapshot)
    → fetch_program_accounts true now (run coder es (note_confirmed_slot slot c)).0
      ≡ (d, requested k url)
    → IsSound w
    → min_slot_at j (Accounts.run as' w).requests ≡ slot_asked url
    → phase_at j (Accounts.run as' w).requests ≡ answered tries (served snap false)
    → (slot ≤ snap.slot) ⊎ (tries ≡ min_slot_tries)
fresh_slot-reached coder es c d slot now k url as' w j tries snap f h m p =
    let before = note_confirmed_slot slot c in
    let v = Accounts.run as' w in
    elim (reached (level v.cache) (min_slot_at j v.requests) tries snap v.inflight
      (phase_at j v.requests)
      (Fits-asked (level v.cache) j v.inflight v.requests (run-IsSound as' w h)) p) [
        | inl le ↦ inl (
            omega (
              arith,
              le,
              m,
              sym (fresh_asks now (run coder es before).0) ∙ ap (λ x. asked x.1) f,
              accounts_url-le (run coder es before).0,
              run-le coder es before,
              (note_confirmed_slot-le slot c).1,
            ))
        | inr four ↦ inr four
      ]

-- What an answer after some tries says of a slot: it is the status 503, or a snapshot that is marked stale, or
-- shows the slot, or came after four loads.
abbrev pub Tells : ℕ → ℕ → Answer → Type 0
Tells slot tries a =
    (a ≡ unavailable)
    ⊎ ((snap : Snapshot) × (stale : Bool) × (a ≡ served snap stale)
        × ((stale ≡ true) ⊎ ((slot ≤ snap.slot) ⊎ (tries ≡ min_slot_tries))))

-- When a transaction was confirmed in a slot, and after whatever calls, responses and transactions the browser
-- makes a fresh load, then the server's answer to it is the status 503, or shows that slot, or is marked stale,
-- or came after four loads. The server's requests fit its cache at the start.
pub confirmed_slot-reached :
    (coder : Coder) (es : List Event) (c d : Client) (slot now k : ℕ) (url : Url)
    (as' : List Accounts.Event) (w : World) (j tries : ℕ) (a : Answer)
    → fetch_program_accounts true now (run coder es (note_confirmed_slot slot c)).0
      ≡ (d, requested k url)
    → IsSound w
    → min_slot_at j (Accounts.run as' w).requests ≡ slot_asked url
    → phase_at j (Accounts.run as' w).requests ≡ answered tries a
    → Tells slot tries a
confirmed_slot-reached coder es c d slot now k url as' w j tries unavailable f h m p = inl refl
confirmed_slot-reached coder es c d slot now k url as' w j tries (served snap true) f h m p =
    inr (snap, true, refl, inl refl)
confirmed_slot-reached coder es c d slot now k url as' w j tries (served snap false) f h m p = inr (
  snap,
  false,
  refl,
  inr (fresh_slot-reached coder es c d slot now k url as' w j tries snap f h m p),
)
