-- ===== src/App/Faucet.antt =====
-- The faucet of app/app/api/faucet/route.ts: its guards and its status, and the requests that pay,
-- call by call over the shared Blob storage. Addresses, days and RPC nodes are numbers; amounts are
-- in lamports.
pub mod Claims
pub mod Stakes
pub mod Transfers
pub mod Once
pub mod Marked
pub mod Days
pub mod Cap
pub mod Status
use collateralized_agents.Base.{
  ℕ, zero, suc, ◌+◌, ◌-◌, ◌*◌, ◌/◌, Bool, true, false, not, ◌&&◌, ◌||◌, Option, none, some, List,
  [], ◌∷◌, length, keep_if, includes, ltb, leb, ◌==◌, if◌then◌else◌,
}

abbrev pub amount : ℕ
amount = 200_000_000

abbrev pub reserve : ℕ
reserve = 50_000_000

-- `CLUSTER`, a setting.
pub data Cluster : Type 0 where
  localnet devnet other : Cluster

-- `onDevnet`: the RPC node's own genesis hash decides, or for a local validator its address. The hash is
-- none when the call failed, and a failure is not cached.
unfoldable pub on_devnet : Cluster → Bool → Bool → Option Bool → Bool
on_devnet localnet is_local production is_genesis = is_local && not production
on_devnet devnet is_local production none = false
on_devnet devnet is_local production (some is_genesis) = is_genesis
on_devnet other is_local production is_genesis = false

-- The answers of a POST, by what they tell.
pub data Response : Type 0 where
  not_available too_many invalid_address empty used_up already failed : Response
  transfer_failed could_not_send sent_unconfirmed maybe_sent paid : Response

-- Why the markers are released.
pub data Reason : Type 0 where
  over_cap unsent failed_transfer : Reason

abbrev pub answer_of : Reason → Response
answer_of over_cap = used_up
answer_of unsent = could_not_send
answer_of failed_transfer = transfer_failed

-- Where a POST is; the day is that of its marker.
pub data Phase : Type 0 where
  funds budget claiming marking noting : Phase
  rechecking sending confirming : ℕ → Phase
  releasing : ℕ → Reason → Phase
  ended : Response → Phase

-- The first guards of `drip`; an address that does not parse is none.
unfoldable pub enter : Bool → Bool → Bool → Bool → Option ℕ → Phase
enter keypair storage is_devnet limited address =
    if keypair && storage && is_devnet
    then (if limited then ended too_many else by_address address)
    else ended not_available
  where
    by_address : Option ℕ → Phase
    by_address none = ended invalid_address
    by_address (some a) = funds

-- A `put`: it is stored, or it is stored and its answer lost, or it is not stored.
pub data Put : Type 0 where
  stored unheard not_stored : Put

pub data Send : Type 0 where
  accepted rejected unclear_send : Send

pub data Confirm : Type 0 where
  confirmed failed_on_chain unclear : Confirm

-- What the next call of a request meets; the fields that it does not ask for do not count.
pub record Reply : Type 0 where
  pub day : ℕ
  pub balance : Option ℕ
  pub listed : Bool
  pub put : Put
  pub head : Bool
  pub deleted : Bool
  pub blockhash : Bool
  pub send : Send
  pub confirm : Confirm

-- The markers, `faucet/<address>` and `faucet-daily/<day>/<address>`, and what is outside: the addresses of
-- the transfers that have landed or may land, one for each.
pub record Blobs : Type 0 where
  pub wallets : List ℕ
  pub days : List (ℕ × ℕ)
  pub sent : List ℕ

unfoldable pub count_on : ℕ → List (ℕ × ℕ) → ℕ
count_on day days = length (keep_if (λ m. m.0 == day) days)

abbrev pub has_day : ℕ → ℕ → List (ℕ × ℕ) → Bool
has_day day a [] = false
has_day day a (m ∷ days) = ((m.0 == day) && (m.1 == a)) || has_day day a days

unfoldable pub add_wallet : ℕ → Blobs → Blobs
add_wallet a b = if includes b.wallets a then b else record b { wallets = a ∷ b.wallets }

unfoldable pub add_day : ℕ → ℕ → Blobs → Blobs
add_day day a b = if has_day day a b.days then b else record b { days = (day, a) ∷ b.days }

unfoldable pub delete_both : ℕ → ℕ → Blobs → Blobs
delete_both day a b = record b {
  wallets = keep_if (λ x. not (x == a)) b.wallets;
  days = keep_if (λ m. not ((m.0 == day) && (m.1 == a))) b.days;
}

-- `claim`: the put fails when the marker is there, which `head` is asked about.
unfoldable pub after_claim : Bool → Put → Bool → ℕ → Blobs → Phase × Blobs
after_claim true put head a b = (ended (if head then already else failed), b)
after_claim false stored head a b = (marking, add_wallet a b)
after_claim false unheard head a b = (ended (if head then already else failed), add_wallet a b)
after_claim false not_stored head a b = (ended failed, b)

unfoldable pub after_mark : Put → ℕ → ℕ → Blobs → Phase × Blobs
after_mark stored day a b = (rechecking day, add_day day a b)
after_mark unheard day a b = (ended failed, add_day day a b)
after_mark not_stored day a b = (ended failed, b)

-- The signed transfer: one that was refused, or that was never signed, is released.
unfoldable pub after_send : Bool → Send → ℕ → Phase
after_send false send day = releasing day unsent
after_send true accepted day = confirming day
after_send true rejected day = releasing day unsent
after_send true unclear_send day = ended maybe_sent

unfoldable pub after_confirm : Confirm → ℕ → Phase
after_confirm confirmed day = noting
after_confirm failed_on_chain day = releasing day failed_transfer
after_confirm unclear day = ended sent_unconfirmed

unfoldable pub by_balance : Option ℕ → Phase
by_balance none = ended failed
by_balance (some balance) = if ltb balance (amount + reserve) then ended empty else budget

unfoldable pub noted : Put → ℕ → Blobs → Blobs
noted stored a b = add_wallet a b
noted unheard a b = add_wallet a b
noted not_stored a b = b

-- What a send does outside: a transfer that the node does not reject may land.
abbrev pub broadcast : Bool → Send → ℕ → Blobs → Blobs
broadcast false send a b = b
broadcast true accepted a b = record b { sent = a ∷ b.sent }
broadcast true rejected a b = b
broadcast true unclear_send a b = record b { sent = a ∷ b.sent }

abbrev pub remove_one : ℕ → List ℕ → List ℕ
remove_one a [] = []
remove_one a (x ∷ xs) = let rest = remove_one a xs in if x == a then xs else x ∷ rest

-- A transfer that failed on chain has paid nothing.
abbrev pub forget : Confirm → ℕ → Blobs → Blobs
forget confirmed a b = b
forget failed_on_chain a b = record b { sent = remove_one a b.sent }
forget unclear a b = b

-- One call of `drip` for the address `a`. A call that throws ends the request, and keeps its markers.
unfoldable pub advance : ℕ → Reply → ℕ → Phase → Blobs → Phase × Blobs
advance max_drops r a funds b = (by_balance r.balance, b)
advance max_drops r a budget b = (
  (if r.listed
      then (if leb max_drops (count_on r.day b.days) then ended used_up else claiming)
      else ended failed),
  b,
)
advance max_drops r a claiming b = after_claim (includes b.wallets a) r.put r.head a b
advance max_drops r a marking b = after_mark r.put r.day a b
advance max_drops r a (rechecking day) b = (
  (if r.listed
      then (if ltb max_drops (count_on r.day b.days) then releasing day over_cap else sending day)
      else ended failed),
  b,
)
advance max_drops r a (sending day) b =
    (after_send r.blockhash r.send day, broadcast r.blockhash r.send a b)
advance max_drops r a (confirming day) b = (after_confirm r.confirm day, forget r.confirm a b)
advance max_drops r a (releasing day reason) b =
    (ended (answer_of reason), (if r.deleted then delete_both day a b else b))
advance max_drops r a noting b = (ended paid, noted r.put a b)
advance max_drops r a (ended response) b = (ended response, b)

pub record Drip : Type 0 where
  pub address : ℕ
  pub phase : Phase

-- The requests that are under way, on one storage.
pub record World : Type 0 where
  pub drips : List Drip
  pub blobs : Blobs

-- The next call of the i-th request.
unfoldable pub step_in : ℕ → ℕ → Reply → List Drip → Blobs → List Drip × Blobs
step_in max_drops i r [] b = ([], b)
step_in max_drops zero r (d ∷ ds) b =
    let x = advance max_drops r d.address d.phase b in (record d { phase = x.0 } ∷ ds, x.1)
step_in max_drops (suc i) r (d ∷ ds) b = let x = step_in max_drops i r ds b in (d ∷ x.0, x.1)

-- The calls of all the requests, in any order.
unfoldable pub run : ℕ → List (ℕ × Reply) → World → World
run max_drops [] w = w
run max_drops (c ∷ calls) w =
    let x = step_in max_drops c.0 c.1 w.drips w.blobs in
    run max_drops calls (record { drips = x.0; blobs = x.1 })

-- `remainingDrops` of the status.
unfoldable pub remaining_drops : ℕ → ℕ → ℕ → ℕ
remaining_drops max_drops today balance =
    let left = max_drops - today in
    let funded = (balance - reserve) / amount in if leb left funded then left else funded
