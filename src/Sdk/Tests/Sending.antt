-- ===== src/Sdk/Tests/Sending.antt =====
-- The theorems on `sendUntilConfirmed` of sdk/src/client.ts at concrete inputs.
use collateralized_agents.Base.{
  ◌+◌, true, false, ◌≡◌, refl, none, some, [], length, ltb, if◌then◌else◌,
}
use collateralized_agents.Sdk.Send.{
  got, threw, not_confirmed, Wire, give, ask, attempt, built, ◌>>>◌, SendConnection, check, resend,
  unless_done, poll_once, polls, or_last, last_check, try_build, send_until_confirmed,
}
use collateralized_agents.Sdk.Send.Confirmed.{Landed, send_until_confirmed-Landed}
use collateralized_agents.Sdk.Send.Unexpired.{send_until_confirmed-signed}

-- No transaction is ever seen, and the chain stands still.
abbrev unseen : SendConnection
unseen = record {
  latest_blockhash = λ n. got (record { signature = n; last_valid_block_height = 150 });
  send_raw_transaction = λ sig again n. got tt;
  signature_status = λ sig history n. got none;
  block_height = λ n. got 100;
}

-- Every transaction is confirmed from the fourth call on.
abbrev seen : SendConnection
seen = record unseen {
  signature_status = λ sig history n.
      got (if ltb n 3 then none else some (record { failed = false; landed = true; slot = n }));
}

abbrev fresh : Wire
fresh = record { calls = 0; signed = [] }

send_until_confirmed-Landed_example : Landed seen (record { sig = 0; slot = 5 })
unfolding send_until_confirmed try_build polls poll_once check unless_done resend or_last last_check
    give ask attempt built ◌>>>◌
send_until_confirmed-Landed_example =
    send_until_confirmed-Landed seen 3 45 fresh (record { sig = 0; slot = 5 }) refl

send_until_confirmed-signed_example :
    ((send_until_confirmed unseen 3 45 fresh).0 ≡ threw not_confirmed)
    × (length (send_until_confirmed unseen 3 45 fresh).1.signed ≡ 3 + length fresh.signed)
send_until_confirmed-signed_example =
    send_until_confirmed-signed unseen
      (λ n. record { signature = n; last_valid_block_height = 150 }) (λ n. 100) (λ n. refl)
      (λ sig again n. refl) (λ sig history n. refl) (λ n. refl) (λ n m. refl) 3 45 fresh
