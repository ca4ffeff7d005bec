-- ===== src/App/Tests/Caching.antt =====
-- The theorems on the accounts of the site, app/app/api/accounts/route.ts and app/lib/accounts.ts, at concrete
-- inputs.
use collateralized_agents.Base.{ℕ, ◌≤◌, true, false, refl, Option, none, some, List, [], ◌∷◌}
use collateralized_agents.App.Accounts
use collateralized_agents.App.Accounts.{
  Snapshot, served, entering, answered, Request, World, min_slot_tries, Load, loaded, threw, turn,
  ends,
}
use collateralized_agents.App.Accounts.Shared.{IsSound, run-IsSound}
use collateralized_agents.App.Accounts.Turns.{phase_at}
use collateralized_agents.App.Accounts.Order.{run_in_order}
use collateralized_agents.App.Accounts.Answers.{
  Round, run_rounds, IsAnswered, run_rounds-IsAnswered,
}
use collateralized_agents.App.Snapshots
use collateralized_agents.App.Snapshots.{
  Kind, Coder, Body, Client, Url, requested, call, response, confirmed, note_confirmed_slot,
  fetch_program_accounts,
}
use collateralized_agents.App.Snapshots.Order.{newness, InOrder, run-InOrder}
use collateralized_agents.App.Snapshots.Confirmed.{Tells, confirmed_slot-reached}

-- One request that asks for slot 7, and one that takes what is there.
abbrev two_requests : World
two_requests = record {
  cache = none;
  inflight = false;
  requests =
      record { fresh = true; min_slot = 7; phase = entering }
      ∷ record { fresh = false; min_slot = 0; phase = entering }
      ∷ [];
}

abbrev snapshot : ℕ → ℕ → Snapshot
snapshot at slot = record { at = at; slot = slot; accounts = 1 ∷ 2 ∷ [] }

-- The first load is behind slot 7, which the second has.
abbrev lagging : List Accounts.Event
lagging =
    turn 0 1000
    ∷ turn 1 1010
    ∷ ends (loaded (snapshot 1100 6))
    ∷ turn 0 1600
    ∷ ends (loaded (snapshot 1700 8))
    ∷ []

run-IsSound_example : IsSound (Accounts.run lagging two_requests)
run-IsSound_example = run-IsSound lagging two_requests (tt, (tt, tt))

run_in_order_example : 6 ≤ 8
unfolding Accounts.run Accounts.step Accounts.go_on_at Accounts.go_on Accounts.want_reload
    Accounts.behind Accounts.older_than Accounts.resume_all Accounts.resume Accounts.put_cache
    Accounts.after_load Accounts.answer
run_in_order_example =
    run_in_order (turn 0 1000 ∷ turn 1 1010 ∷ ends (loaded (snapshot 1100 6)) ∷ [])
      (turn 0 1600 ∷ ends (loaded (snapshot 1700 8)) ∷ []) two_requests 1 0 6 8 (tt, (tt, tt)) refl
      refl refl

abbrev failing : Round
failing = record { before = turn 1 900 ∷ []; now = 1000; between = []; load = threw }

run_rounds-IsAnswered_example :
    IsAnswered
      (phase_at 0 (run_rounds 0 (failing ∷ failing ∷ failing ∷ failing ∷ []) two_requests).requests)
run_rounds-IsAnswered_example =
    run_rounds-IsAnswered 0 (failing ∷ failing ∷ failing ∷ failing ∷ []) two_requests (tt, (tt, tt))
      refl

abbrev coder : Coder
coder = record {
  kind_of = λ a. Kind.agent;
  decode_agent = λ a. some a;
  decode_position = λ a. none;
}

abbrev opened : Client
opened = record { last = none; inflight = none; min_slot = 0; next = 0 }

abbrev body : ℕ → Option Body
body at = some (record { at = at; stale = false; accounts = 1 ∷ [] })

-- The responses of two requests cross.
run-InOrder_example :
    InOrder
      (newness opened.last)
      (Snapshots.run coder
        (call false 0 ∷ call true 5 ∷ response 1 20 (body 15) ∷ response 0 30 (body 10) ∷ [])
        opened).1
run-InOrder_example =
    run-InOrder coder
      (call false 0 ∷ call true 5 ∷ response 1 20 (body 15) ∷ response 0 30 (body 10) ∷ []) opened

-- The transaction was confirmed in slot 7.
abbrev asking : Url
asking = record { fresh = true; min_slot = some 7 }

confirmed_slot-reached_example : Tells 7 2 (served (snapshot 1700 8) false)
unfolding Accounts.run Accounts.step Accounts.go_on_at Accounts.go_on Accounts.want_reload
    Accounts.behind Accounts.older_than Accounts.resume_all Accounts.resume Accounts.put_cache
    Accounts.after_load Accounts.answer Snapshots.run note_confirmed_slot fetch_program_accounts
    Snapshots.request Snapshots.accounts_url
confirmed_slot-reached_example =
    confirmed_slot-reached coder [] opened
      (record { last = none; inflight = some 0; min_slot = 7; next = 1 }) 7 900 0 asking lagging
      two_requests 0 2 (served (snapshot 1700 8) false) refl (tt, (tt, tt)) refl refl
