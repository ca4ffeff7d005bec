-- ===== src/App/Tests/Paying.antt =====
-- The theorems on the faucet of app/app/api/faucet/route.ts at concrete inputs.
use collateralized_agents.Base.{ℕ, ◌≤◌, refl, true, some, List, [], ◌∷◌}
use collateralized_agents.App.Faucet.{stored, accepted, confirmed, unclear, Reply, Blobs, run}
use collateralized_agents.App.Faucet.Claims.{may_pay}
use collateralized_agents.App.Faucet.Marked.{total}
use collateralized_agents.App.Faucet.Cap.{run-total}
use collateralized_agents.App.Faucet.Once.{begun, run-count}
use collateralized_agents.App.Faucet.Transfers.{count}

abbrev fine : Reply
fine = record {
  day = 3;
  balance = some 900_000_000;
  listed = true;
  put = stored;
  head = true;
  deleted = true;
  blockhash = true;
  send = accepted;
  confirm = confirmed;
}

abbrev none_yet : Blobs
none_yet = record { wallets = []; days = []; sent = [] }

-- Two requests for one wallet, their calls in turn.
abbrev in_turn : List (ℕ × Reply)
in_turn =
    (0, fine)
    ∷ (1, fine)
    ∷ (0, fine)
    ∷ (1, fine)
    ∷ (0, fine)
    ∷ (1, fine)
    ∷ (0, fine)
    ∷ (0, fine)
    ∷ (0, fine)
    ∷ (0, record fine { confirm = unclear })
    ∷ []

run-count_example :
    count 9 (run 100 in_turn (record { drips = begun (9 ∷ 9 ∷ []); blobs = none_yet })).blobs.sent
    ≤ 1
run-count_example = run-count 100 9 (9 ∷ 9 ∷ []) in_turn none_yet refl

run-total_example :
    total may_pay (run 100 in_turn (record { drips = begun (9 ∷ 8 ∷ []); blobs = none_yet })).drips
    ≤ 100
run-total_example =
    run-total 100 3 (9 ∷ 8 ∷ []) in_turn none_yet
      (refl, (refl, (refl, (refl, (refl, (refl, (refl, (refl, (refl, (refl, tt))))))))))
