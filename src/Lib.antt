-- ===== src/Lib.antt =====
-- Proof of Agent: the trading agents of agent/, which draw a trader's principal from the on-chain
-- program, trade it on Orca and return it before a deadline.
--
-- Parts and files. Agent/Config, State, Schedule and Strategies hold the data and the pure
-- decisions of agent/src/config.ts, state.ts, agent.ts (lines 50 to 96) and strategies.ts.
-- Agent/System is the mutable world of a runner: its state, the saved file, the list of positions
-- of this tick, and a trace of all that was sent; a method is an `Act` on it, with the errors that
-- handlers tell apart. Agent/Env is what the runner calls and does not implement (the clock, the
-- RPC nodes, the Orca library, the program's instructions); each of its answers may depend on the
-- number of calls made before. Agent/Orca and Agent/Swap are agent/src/orca.ts with `withFallback`
-- of chain.ts, Agent/Runner and Agent/Loop the class `AgentRunner` of agent/src/agent.ts: `swap`,
-- `resolvePending`, `record` and `trade` in Runner, `settle`, `runBooks`, `settleDue`,
-- `maybeDraw`, `adoptOrphan` and `tick` in Loop. Names are the source's, in lower case with
-- underscores.
--
-- Agent/Protocol is the abstract machine that a runner implements: signed, saved, sent, then
-- booked or dropped. Agent/Refine relates the methods to it, Agent/Invariants is by induction on
-- its steps. Agent/Fleet is `tickAll` over several runners and
-- Agent/Backup `checkAfterBackup`; Agent/Files is `writeAtomic` and `loadStateFrom` of state.ts,
-- one file call at a time; Agent/Lock is lock.ts, for two runners whose file calls interleave.
-- Agent/Process is the loop of runner.ts, with its watchdog. Agent/Tests runs the agent on a small cluster.
--
-- Sdk/Settle and Sdk/Schedule are the money and the times of sdk/src/runner.ts, the runner that
-- drives an operator's own bot: what it notes at a draw and returns at a settle, when it settles
-- and sleeps, how long it lets the bot finish, and which position it draws next. Sdk/Send is
-- `sendUntilConfirmed` of sdk/src/client.ts over a connection whose answers are a parameter.
-- Sdk/Runner is the class `Runner` of sdk/src/runner.ts. Sdk/Runner/State holds its fields, the state
-- file, and `Outside`, the cluster and the operating system: an answer for each call, how long the call
-- takes, and what fires meanwhile, the end of a hook or a signal to stop. Calls is the monad of its
-- methods, Watch `refreshClock`, `refreshAgent`, `walletReserve` and `balance`, Hook `startHook`,
-- `stopHook`, `killGroup` and `reapOrphanHook`, Tick `settle`, `draw` and the rest of `tick`, Loop
-- `paperTick`, `tick` and `start`. A proof follows a call in Rules (what a call leaves of the view of
-- the runner), Does (triples over the view) or Sure (calls that answer); Books is the abstract machine of
-- the position that is traded, to which Steps, Opens, Ticks and Rounds relate the methods, and Sound,
-- Trades and SoundRounds are about the state file and the hook. Sdk/Args is the parsers of
-- sdk/src/args.ts.
--
-- App/Faucet is app/app/api/faucet/route.ts: its requests advance call by call, in any order, over one
-- storage of markers; Claims is about the wallets' markers, Transfers about what
-- goes out, Marked about the markers of a day. App/WaitlistExport is
-- `groupByEmail` of app/lib/waitlistExport.ts, App/RateLimit the rate limiter of app/lib/rateLimit.ts;
-- Window, Reinserts and Tracks relate its map to the log of its calls.
-- App/Csv is the file that `GET` of app/app/api/waitlist/route.ts answers with; Csv/Read has a reader of
-- quoted CSV. App/WaitlistStore is `saveEntry` of app/lib/waitlistStore.ts, with what other requests do
-- between its calls as functions on the storage; Loading is its `download` and `loadEntries`.
--
-- App/Accounts is the cache of app/app/api/accounts/route.ts: its requests run from one `await` to the next, in
-- any order, and share the load that is in flight. Shared is its invariant, Turns follows one request among
-- the others. App/Snapshots is app/lib/accounts.ts, what a browser holds of that route's answers; Confirmed
-- composes the two. Program is the interface of the on-chain program, its instructions and their accounts:
-- App/Actions is `useActions` of app/lib/useProtocol.ts, with the addresses of app/lib/program.ts and
-- `u64` of app/lib/amounts.ts, and Sdk/Client the methods of `PoaClient` in sdk/src/client.ts. App/Stats is
-- the results that `useAgents` shows.
--
-- Bounds. The waits of `killGroup` are on fuel, one look more than the pauses that fit in the wait and one
-- for the rest, and the loop of `start` is cut off after any number of rounds. The local clock of the SDK
-- runner only goes forward. `sendUntilConfirmed` has at most the builds and polls its options give, so it ends.
-- `withRetry` makes six tries and `fetchMeta` ten rounds, as in the source; the loops over books,
-- pools and positions are over lists, so every method ends. Amounts are natural numbers, times and
-- balance changes integers, doubles their 64 bits under an abstract arithmetic; addresses and
-- signatures are numbers, of which only equality is used.
--
-- Not modelled: the encryption, the listing and the snapshots of the waitlist, log lines and the texts of
-- messages, failing writes of the state file, the environment of a hook and the command run by `notify`,
-- options that are parsed as doubles, the collateral
-- formulas of app/lib/program.ts, which are on doubles, the set-up scripts, the loading flags of the hooks, the decoding of
-- accounts, the other routes, library files and pages of app/, the Rust program and the offline simulation.
pub mod Base
pub mod Program
pub mod Agent
pub mod Sdk
pub mod App
