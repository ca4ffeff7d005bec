-- ===== src/Sdk/Send.antt =====
-- `sendUntilConfirmed` of sdk/src/client.ts: a transaction is sent again until it confirms or its
-- blockhash expires, and then signed afresh.
pub mod Calls
pub mod Confirmed
pub mod Unexpired
unfoldable pub use Calls.*
use collateralized_agents.Base.{
  ℕ, zero, suc, ◌+◌, ◌-◌, ◌/◌, Bool, true, false, Option, none, some, List, [], ◌∷◌, ltb,
  if◌then◌else◌,
}

-- `getSignatureStatuses` on one signature; `landed` is a status of "confirmed" or "finalized".
pub record Status : Type 0 where
  pub failed : Bool
  pub landed : Bool
  pub slot : ℕ

-- A blockhash, with the signature of the transaction that `build` makes on it.
pub record Built : Type 0 where
  pub signature : ℕ
  pub last_valid_block_height : ℕ

-- `SendConnection`; the answers depend on the calls made before.
pub record SendConnection : Type 0 where
  pub latest_blockhash : ℕ → Answer Built
  pub send_raw_transaction : ℕ → Bool → ℕ → Answer (Unit {0})
  pub signature_status : ℕ → Bool → ℕ → Answer (Option Status)
  pub block_height : ℕ → Answer ℕ

pub record Sent : Type 0 where
  pub sig : ℕ
  pub slot : ℕ

pub data Poll : Type 0 where
  confirmed : Sent → Poll
  expired : Poll
  pending : Poll

abbrev pub max_polls_for : ℕ → ℕ
max_polls_for every = (90_000 + every - 1) / every

module _ (conn : SendConnection) where
  abbrev pub of_status : ℕ → Option Status → Wired (Option Sent)
  of_status sig none = give none
  of_status sig (some s) =
      if s.failed
      then stop transaction_failed
      else give (if s.landed then some (record { sig = sig; slot = s.slot }) else none)

  unfoldable pub check : ℕ → Bool → Wired (Option Sent)
  check sig history = ask (conn.signature_status sig history) >>> of_status sig

  unfoldable pub resend : ℕ → ℕ → ℕ → Wired Poll
  resend sig last_valid height =
      if ltb last_valid height
      then give expired
      else (ask (conn.send_raw_transaction sig true) >>> λ u. give pending)

  unfoldable pub unless_done : Built → Option Sent → Wired Poll
  unless_done b (some done) = give (confirmed done)
  unless_done b none = ask conn.block_height >>> resend b.signature b.last_valid_block_height

  -- A flaky call is logged; a transaction that landed with an error throws.
  unfoldable pub poll_once : Built → Wired Poll
  poll_once b = attempt (check b.signature false >>> unless_done b) pending

  unfoldable pub polls : ℕ → Built → Wired (Option Sent)
  polls zero b = give none
  polls (suc n) b = poll_once b >>> λ p. elim p [
    | confirmed done ↦ give (some done)
    | expired ↦ give none
    | pending ↦ polls n b
  ]

  -- The check after the polls.
  unfoldable pub last_check : ℕ → Wired (Option Sent)
  last_check sig = attempt (check sig true) none

  unfoldable pub or_last : Built → Option Sent → Wired (Option Sent)
  or_last b (some done) = give (some done)
  or_last b none = last_check b.signature

  -- One build: its first send is simulated, and then the polls.
  unfoldable pub try_build : ℕ → Wired (Option Sent)
  try_build max_polls = ask conn.latest_blockhash >>> λ b. built b.signature >>> λ u.
      ask (conn.send_raw_transaction b.signature false) >>> λ v. polls max_polls b >>> or_last b

  unfoldable pub send_until_confirmed : ℕ → ℕ → Wired Sent
  send_until_confirmed zero max_polls = stop not_confirmed
  send_until_confirmed (suc builds) max_polls = try_build max_polls >>> λ r. elim r [
    | some done ↦ give done
    | none ↦ send_until_confirmed builds max_polls
  ]
