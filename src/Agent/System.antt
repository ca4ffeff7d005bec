-- ===== src/Agent/System.antt =====
-- What the runner's methods act on: the runner's fields, the saved file, the cluster and the RPC
-- nodes. A method is an `Act`: it changes the `Sys` and returns or throws. What was written before a
-- throw stays written.
pub mod Ensures
use collateralized_agents.Base.{
  ℕ, zero, suc, ◌+◌, ℤ, Bool, true, false, Option, none, some, List, [], ◌∷◌, ◌++◌, Dict, ◌==◌,
  if◌then◌else◌, insert, lookup, erase, update,
}
use collateralized_agents.Agent.Strategies.{Doubles}
use collateralized_agents.Agent.State.{Side, Book, PriceSample, AgentState}

-- The errors that a handler tells apart: `SwapInFlight`, `SwapRejected`, web3's
-- `SendTransactionError`, a rate limit (HTTP 429), another network error, and the rest.
pub data Error : Type 0 where
  swap_in_flight : Error
  swap_rejected : Error
  send_refused : Error
  rate_limited : Error
  network : Error
  other : Error

pub data Result (A : Type 0) : Type 0 where
  ok : A → Result A
  err : Error → Result A

-- agent/src/chain.ts: the status of a position on chain; `opened` is the source's "open".
pub data PositionStatus : Type 0 where
  opened trading settled defaulted cancelled : PositionStatus

abbrev pub is_opened : PositionStatus → Bool
is_opened opened = true
is_opened _ = false

abbrev pub is_trading : PositionStatus → Bool
is_trading trading = true
is_trading _ = false

pub record Position : Type 0 where
  pub public_key : ℕ
  pub principal : ℕ
  pub deadline : ℤ
  pub drawn_at : ℤ
  pub status : PositionStatus

-- What leaves the runner for the cluster. A swap is shown with the state that was on disk when its
-- bytes were handed to the RPC node, a settle with the amount it returns and the runner's state.
pub data Effect : Type 0 where
  swap_sent : ℕ → AgentState → Effect
  draw_sent : ℕ → Effect
  settle_sent : ℕ → ℕ → AgentState → Effect

-- agent/src/orca.ts: a live pool with its price, and the cache of the pools.
pub record Pool : Type 0 where
  pub address : ℕ
  pub price : ℕ

pub record PoolCache : Type 0 where
  pub at : ℕ
  pub pools : List Pool

-- What the runner's methods change: its state, the saved file, the list of positions that the loop
-- fetched for this tick, and what was sent so far, the latest first.
pub record Core : Type 0 where
  pub state : AgentState
  pub disk : AgentState
  pub positions : List Position
  pub trace : List Effect

-- `calls` is the number of calls made so far, by which an environment tells them apart.
pub record Sys : Type 0 where
  pub core : Core
  pub open core use *
  pub pool_cache : Option PoolCache
  pub calls : ℕ

abbrev pub Act : Type 0 → Type 0
Act A = Sys → Result A × Sys

module _ {A : Type 0} where
  unfoldable pub pure : A → Act A
  pure a s = (ok a, s)

  unfoldable pub throw : Error → Act A
  throw e s = (err e, s)

  unfoldable pub gets : (Sys → A) → Act A
  gets f s = (ok (f s), s)

  -- A call of the environment: its answer may depend on all that was called before.
  unfoldable pub call : (ℕ → Result A) → Act A
  call f s = (f s.calls, record s { calls = suc s.calls })

  abbrev pub recover : Result A × Sys → (Error → Act A) → Result A × Sys
  recover (ok a, s) h = (ok a, s)
  recover (err e, s) h = h e s

  -- `try { m } catch (e) { h(e) }`
  unfoldable pub catch : Act A → (Error → Act A) → Act A
  catch m h s = recover (m s) h

unfoldable pub modify : (Core → Core) → Act (Unit {0})
modify f s = (ok tt, record s { core = f s.core })

unfoldable pub set_cache : PoolCache → Act (Unit {0})
set_cache cache s = (ok tt, record s { pool_cache = some cache })

module _ {A B : Type 0} where
  abbrev pub follow : Result A × Sys → (A → Act B) → Result B × Sys
  follow (ok a, s) f = f a s
  follow (err e, s) f = (err e, s)

  infixl 5 ◌>>=◌
  unfoldable pub ◌>>=◌ : Act A → (A → Act B) → Act B
  ◌>>=◌ m f s = follow (m s) f

infixl 5 ◌>>◌
abbrev pub ◌>>◌ : {B : Type 0} → Act (Unit {0}) → Act B → Act B
m >> k = m >>= λ _. k

-- `this.save()`: the state goes to disk. The write itself is atomic (Files).
unfoldable pub save : Act (Unit {0})
save = modify (λ c. record c { disk = c.state })

abbrev pub set_books : (Dict Book → Dict Book) → Core → Core
set_books f c = record c { state = record c.state { books = f c.state.books } }

-- `this.state.books[key]`; a book that is not there throws, which the loops never meet.
abbrev pub or_throw : {A : Type 0} → Option A → Act A
or_throw none = throw other
or_throw (some a) = pure a

unfoldable pub the_book : ℕ → Act Book
the_book key s = or_throw (lookup key s.state.books) s

-- A change of the book object that `this.state.books[key]` refers to.
unfoldable pub change_book : ℕ → (Book → Book) → Act (Unit {0})
change_book key f = modify (set_books (update key f))

unfoldable pub put_book : ℕ → Book → Act (Unit {0})
put_book key b = modify (set_books (insert key b))

unfoldable pub delete_book : ℕ → Act (Unit {0})
delete_book key = modify (set_books (erase key))

-- An effect that shows the state.
unfoldable pub emit_with : (AgentState → Effect) → Act (Unit {0})
emit_with e = modify (λ c. record c { trace = e c.state ∷ c.trace })

unfoldable pub emit : Effect → Act (Unit {0})
emit e = modify (λ c. record c { trace = e ∷ c.trace })
