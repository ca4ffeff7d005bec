-- ===== src/App/Snapshots.antt =====
-- The snapshots that a browser holds, app/lib/accounts.ts: which call makes a request, which shares one, and
-- what a response changes. Times are in milliseconds.
pub mod Order
pub mod Confirmed
use collateralized_agents.Base.{
  ℕ, suc, ◌+◌, ◌-◌, Bool, true, false, not, ◌&&◌, ◌==◌, Option, none, some, List, [], ◌∷◌, ltb,
  if◌then◌else◌,
}

-- What the program's coder makes of an account: its discriminator, and the decoding, which may throw.
pub data Kind : Type 0 where
  agent position neither : Kind

pub record Coder : Type 0 where
  pub kind_of : ℕ → Kind
  pub decode_agent : ℕ → Option ℕ
  pub decode_position : ℕ → Option ℕ

-- The body of an answer of the accounts route.
pub record Body : Type 0 where
  pub at : ℕ
  pub stale : Bool
  pub accounts : List ℕ

pub record ProgramSnapshot : Type 0 where
  pub at : ℕ
  pub fetched_at : ℕ
  pub stale : Bool
  pub agents : List ℕ
  pub positions : List ℕ

-- `last`, `inflight` (the number of its request), `minSlot`, and the number of the next request.
pub record Client : Type 0 where
  pub last : Option ProgramSnapshot
  pub inflight : Option ℕ
  pub min_slot : ℕ
  pub next : ℕ

abbrev pub client_ttl_ms : ℕ
client_ttl_ms = 5_000

-- `noteConfirmedSlot`
unfoldable pub note_confirmed_slot : ℕ → Client → Client
note_confirmed_slot slot c = record c {
  min_slot = if ltb c.min_slot slot then slot else c.min_slot;
}

-- `accountsUrl`: whether it says `fresh`, and its `minSlot`, which it leaves out when it is 0.
pub record Url : Type 0 where
  pub fresh : Bool
  pub min_slot : Option ℕ

unfoldable pub accounts_url : Bool → Client → Url
accounts_url false c = record { fresh = false; min_slot = none }
accounts_url true c = record {
  fresh = true;
  min_slot = if c.min_slot == 0 then none else some c.min_slot;
}

abbrev pub keep_decoded : Option ℕ → List ℕ → List ℕ
keep_decoded none xs = xs
keep_decoded (some x) xs = x ∷ xs

-- The loop over the accounts of a body: the agents and the positions. What does not decode is skipped.
unfoldable pub decode_all : Coder → List ℕ → List ℕ × List ℕ
decode_all coder [] = ([], [])
decode_all coder (a ∷ as') =
    let rest = decode_all coder as' in
    elim (coder.kind_of a) [
      | agent ↦ (keep_decoded (coder.decode_agent a) rest.0, rest.1)
      | position ↦ (rest.0, keep_decoded (coder.decode_position a) rest.1)
      | neither ↦ rest
    ]

unfoldable pub snapshot_of : Coder → ℕ → Body → ProgramSnapshot
snapshot_of coder now body =
    let decoded = decode_all coder body.accounts in
    record {
      at = body.at;
      fetched_at = now;
      stale = body.stale;
      agents = decoded.0;
      positions = decoded.1;
    }

-- `last && body.at < last.at`
unfoldable pub is_newer : Option ProgramSnapshot → Body → Bool
is_newer none body = false
is_newer (some last) body = ltb body.at last.at

-- `load` after its response, none when it throws: the snapshot that it returns, which is `last` from then on.
unfoldable pub receive : Coder → ℕ → Option ProgramSnapshot → Option Body → Option ProgramSnapshot
receive coder now last none = none
receive coder now last (some body) =
    if is_newer last body then last else some (snapshot_of coder now body)

-- The response of the `k`-th request: `last`, and the `finally` that clears `inflight`, but not for a request
-- that another one has replaced.
unfoldable pub arrive : Coder → ℕ → ℕ → Option Body → Client → Client × Option ProgramSnapshot
arrive coder now k response c =
    let result = receive coder now c.last response in
    (
      record c {
        last = elim result [ none ↦ c.last | some snap ↦ some snap ];
        inflight = elim c.inflight [ none ↦ none | some j ↦ if j == k then none else some j ];
      },
      result,
    )

-- What `fetchProgramAccounts` gives: the snapshot that is there, the request that is in flight, or a new one.
pub data Fetched : Type 0 where
  ready : ProgramSnapshot → Fetched
  shared : ℕ → Fetched
  requested : ℕ → Url → Fetched

unfoldable pub request : Bool → Client → Client × Fetched
request fresh c = (
  record c { inflight = some c.next; next = suc c.next },
  requested c.next (accounts_url fresh c),
)

-- `!fresh && inflight`
unfoldable pub share : Option ℕ → Client → Client × Fetched
share none c = request false c
share (some k) c = (c, shared k)

-- `!fresh && last && Date.now() - last.fetchedAt < CLIENT_TTL_MS`
unfoldable pub use_last : Option ProgramSnapshot → ℕ → Client → Client × Fetched
use_last none now c = share c.inflight c
use_last (some last) now c =
    if ltb (now - last.fetched_at) client_ttl_ms then (c, ready last) else share c.inflight c

unfoldable pub fetch_program_accounts : Bool → ℕ → Client → Client × Fetched
fetch_program_accounts true now c = request true c
fetch_program_accounts false now c = use_last c.last now c

-- What happens in a browser: a call, a response, and a transaction that is confirmed.
pub data Event : Type 0 where
  call : Bool → ℕ → Event
  response : ℕ → ℕ → Option Body → Event
  confirmed : ℕ → Event

-- The snapshot that a caller gets at once.
abbrev pub shown_at_once : Fetched → Option ProgramSnapshot
shown_at_once (ready snap) = some snap
shown_at_once _ = none

-- The state after an event, and the snapshot that callers get.
unfoldable pub step : Coder → Event → Client → Client × Option ProgramSnapshot
step coder (call fresh now) c =
    let x = fetch_program_accounts fresh now c in (x.0, shown_at_once x.1)
step coder (response k now body) c = arrive coder now k body c
step coder (confirmed slot) c = (note_confirmed_slot slot c, none)

-- The state after some events, and the snapshots that callers get, in order.
unfoldable pub run : Coder → List Event → Client → Client × List ProgramSnapshot
run coder [] c = (c, [])
run coder (e ∷ es) c =
    let x = step coder e c in
    let rest = run coder es x.0 in (rest.0, elim x.1 [ none ↦ rest.1 | some snap ↦ snap ∷ rest.1 ])
