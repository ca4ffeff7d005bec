-- ===== src/Agent/Loop.antt =====
-- `AgentRunner` of agent/src/agent.ts: settles, draws, and the passes over the books and positions.
use collateralized_agents.Base.{
  ℕ, ℤ, Bool, true, false, ◌&&◌, not, Option, none, some, List, [], ◌∷◌, ◌++◌, map, last, find,
  Dict, lookup, ltb, ◌==◌, if◌then◌else◌,
}
use collateralized_agents.Agent.Config.{AgentConfig, main_pool}
use collateralized_agents.Agent.State.{Side, Book, Settled}
use collateralized_agents.Agent.Schedule.{
  settle_time, due_to_settle, too_late_to_draw, adopted_settle_at, past_last_call, settle_amount,
}
use collateralized_agents.Agent.System.{
  other, is_opened, is_trading, trading, settled, Position, draw_sent, settle_sent, Core, Act, pure,
  throw, gets, call, catch, modify, ◌>>=◌, ◌>>◌, save, the_book, put_book, delete_book, emit,
  emit_with,
}
use collateralized_agents.Agent.Env.{Rpc, primary, fallback, Env}
use collateralized_agents.Agent.Orca.{is_network_error, is_in_flight, with_fallback}
use collateralized_agents.Agent.Runner.{has, set_status, now, resolve_pending, swap_, trade_by}

-- A book for a position that was just drawn or found.
abbrev pub new_book : Position → ℤ → ℤ → Book
new_book p drawn_at settle_at = record {
  principal = p.principal;
  sol = p.principal;
  usdc = 0;
  drawn_at = drawn_at;
  settle_at = settle_at;
  deadline = p.deadline;
  cycles = 0;
  trades = [];
  pending = none;
}

abbrev pub keys : Dict Book → List ℕ
keys books = map (λ b. b.0) books

-- `this.state.history.push(…)`
abbrev pub log_settle : Settled → Core → Core
log_settle h c = record c { state = record c.state { history = c.state.history ++ h ∷ [] } }

module _ (env : Env) where
  -- The unwind on the deepest pool that opens a settle.
  unfoldable pub unwind_usdc : ℕ → Book → Act (Unit {0})
  unwind_usdc key book =
      catch
        (swap_ env key Side.usdc book.usdc
          (record { pool = some main_pool; min_out = none; bump_cycle = false }))
        λ e.
          if is_in_flight e
          then throw e
          else do t ← now env; if past_last_call t book.deadline then pure tt else throw e

  -- A short wallet stops a settle, except at the last call.
  unfoldable pub check_wallet : ℤ → ℕ → ℕ → Act (Unit {0})
  check_wallet deadline owed returned =
      if ltb returned owed
      then (now env >>= λ t. if past_last_call t deadline then pure tt else throw other)
      else pure tt

  -- The settle instruction through one RPC node.
  unfoldable pub send_settle : ℕ → ℕ → Rpc → Act (Unit {0})
  send_settle key returned rpc = do
    emit_with (settle_sent key returned)
    call (env.settle_position key returned rpc)

  -- The second half of `settle`: what the wallet can return is sent, and the book is closed.
  unfoldable pub settle_with : ℕ → Book → ℕ → Act (Unit {0})
  settle_with key book wallet = do
    check_wallet book.deadline book.sol (settle_amount book.sol wallet)
    catch (send_settle key (settle_amount book.sol wallet) primary) (λ e.
        if env.has_fallback && is_network_error e
        then send_settle key (settle_amount book.sol wallet) fallback
        else throw e)
    t ← now env
    modify (
        log_settle (record {
          position = key;
          principal = book.principal;
          returned = settle_amount book.sol wallet;
          at = t;
        }))
    delete_book key
    set_status key settled

  unfoldable pub settle : ℕ → Bool → Act (Unit {0})
  settle key emergency = do
    before ← the_book key
    if ltb 0 before.usdc && not emergency then unwind_usdc key before else pure tt
    book ← the_book key
    wallet ← with_fallback env env.balance
    settle_with key book wallet

  -- Whether the book's pending swap, if any, is out of the way.
  unfoldable pub check_pending : ℕ → Book → Act Bool
  check_pending key book = elim book.pending [
    | none ↦ pure true
    | some p ↦ catch (resolve_pending env key p) (λ e. pure false)
  ]

  -- What `runBooks` does with a book once its pending swap was looked at.
  unfoldable pub by_clock : AgentConfig → Option ℕ → Bool → ℕ → Bool → Book → ℤ → Act Bool
  by_clock cfg price settle_only key false book t =
      if past_last_call t book.deadline then (settle key true >>= λ u. pure true) else pure false
  by_clock cfg price settle_only key true book t =
      if due_to_settle book t
      then (settle key false >>= λ u. pure true)
      else if settle_only
      then pure true
      else (trade_by env cfg.strategy key price >>= λ u. pure true)

  -- The body of the `try` in `runBooks`: false where it says `continue`.
  unfoldable pub attend : AgentConfig → Option ℕ → Bool → ℕ → Act Bool
  attend cfg price settle_only key = do
    book ← the_book key
    resolved ← check_pending key book
    now_book ← the_book key
    t ← now env
    by_clock cfg price settle_only key resolved now_book t

  -- `settleOnly` skips a book that is not due; the clock is read only then.
  unfoldable pub skips : Bool → ℕ → Act Bool
  skips false key = pure false
  skips true key = do book ← the_book key; t ← now env; pure (not (due_to_settle book t))

  -- The catch of `runBooks` only logs; the save after it is left out where the body says `continue`.
  unfoldable pub attend_and_save : AgentConfig → Option ℕ → Bool → ℕ → Act (Unit {0})
  attend_and_save cfg price settle_only key = do
    go_on ← catch (attend cfg price settle_only key) (λ e. pure true)
    if go_on then save else pure tt

  unfoldable pub on_chain : AgentConfig → Option ℕ → Bool → ℕ → Option Position → Act (Unit {0})
  on_chain cfg price settle_only key none = do delete_book key; save
  on_chain cfg price settle_only key (some p) =
      if not (is_trading p.status) then (delete_book key >>= λ u. save) else do
        skip ← skips settle_only key
        if skip then pure tt else attend_and_save cfg price settle_only key

  -- One round of `runBooks`.
  unfoldable pub run_book : AgentConfig → Option ℕ → Bool → ℕ → Act (Unit {0})
  run_book cfg price settle_only key = do
    positions ← gets (λ s. s.positions)
    on_chain cfg price settle_only key (find (λ p. p.public_key == key) positions)

  unfoldable pub run_keys : AgentConfig → Option ℕ → Bool → List ℕ → Act (Unit {0})
  run_keys cfg price settle_only [] = pure tt
  run_keys cfg price settle_only (key ∷ rest) = do
    run_book cfg price settle_only key
    run_keys cfg price settle_only rest

  unfoldable pub run_books : AgentConfig → Option ℕ → Bool → Act (Unit {0})
  run_books cfg price settle_only = do
    entries ← gets (λ s. keys s.state.books)
    run_keys cfg price settle_only entries

  unfoldable pub settle_due : AgentConfig → Act (Unit {0})
  settle_due cfg = run_books cfg none true

  -- `maybeDraw` from the draw on.
  unfoldable pub draw_it : AgentConfig → Position → Act (Unit {0})
  draw_it cfg p = do
    emit (draw_sent p.public_key)
    call (env.draw_funds p.public_key)
    t ← now env
    put_book p.public_key (new_book p t (settle_time t p.deadline cfg.hold_secs))
    set_status p.public_key trading
    save

  unfoldable pub maybe_draw : AgentConfig → Position → Act (Unit {0})
  maybe_draw cfg p = do
    t ← now env
    if too_late_to_draw t p.deadline then pure tt else draw_it cfg p

  unfoldable pub adopt_orphan : AgentConfig → Position → Act (Unit {0})
  adopt_orphan cfg p = do
    t ← now env
    t' ← now env
    put_book p.public_key
        (new_book p p.drawn_at (adopted_settle_at t t' p.drawn_at p.deadline cfg.hold_secs))
    save

  unfoldable pub draw_or_adopt : AgentConfig → Position → Act (Unit {0})
  draw_or_adopt cfg p = do
    books ← gets (λ s. s.state.books)
    if is_opened p.status
        then maybe_draw cfg p
        else if is_trading p.status && not (has (lookup p.public_key books))
        then adopt_orphan cfg p
        else pure tt

  -- The loop over the positions: a failure is logged. A draw changes the status of no position but
  -- its own, which comes up once.
  unfoldable pub draws : AgentConfig → List Position → Act (Unit {0})
  draws cfg [] = pure tt
  draws cfg (p ∷ ps) = do catch (draw_or_adopt cfg p) (λ e. pure tt); draws cfg ps

  unfoldable pub note_price : Option ℕ → Act (Unit {0})
  note_price none = pure tt
  note_price (some price) = do
    t ← now env
    modify (λ s. record s {
      state = record s.state {
        prices = last 100 (s.state.prices ++ record { at = t; price = price } ∷ []);
      };
    })

  unfoldable pub tick : AgentConfig → Option ℕ → Bool → Act (Unit {0})
  tick cfg price partial = do
    note_price price
    run_books cfg price false
    positions ← gets (λ s. s.positions)
    if partial then pure tt else draws cfg positions
