-- ===== src/Sdk/Runner/Tick.antt =====
-- The steps of the `Runner` of sdk/src/runner.ts: a tick draws, adopts, settles or drops one position.
use Prim.Native.Nat.{max}
use collateralized_agents.Base.{
  ℕ, ℤ, pos, ◌+ℤ◌, ◌-ℤ◌, ltb_ℤ, leb_ℤ, Bool, true, false, ◌&&◌, ◌||◌, not, Option, none, some, List,
  [], ◌∷◌, ◌++◌, keep_if, find, length, ltb, ◌==◌, if◌then◌else◌,
}
use collateralized_agents.Agent.Schedule.{to_ms}
use collateralized_agents.Agent.System.{PositionStatus, settled, defaulted, cancelled, is_trading}
use collateralized_agents.Sdk.Send.{rpc_failed, Sent}
use collateralized_agents.Sdk.Settle.{returned, balance_at_draw}
use collateralized_agents.Sdk.Schedule.{OpenPosition, settle_time, resume_until, next_to_draw}
use collateralized_agents.Sdk.Runner.State.{
  Book, Runner, RunnerOptions, Stored, drew, settle_confirmed, warning, settle_soon, adopted,
  low_balance, settled_notice, Outside, local_now, now,
}
use collateralized_agents.Sdk.Runner.Calls.{
  Doing, give, stop_with, see, change, act, notify, save, set_state, ◌>>>◌, ◌>>◌, attempt, ask,
}
use collateralized_agents.Sdk.Runner.Watch.{or_else, is_some, read_reserve, balance, fee_at}
use collateralized_agents.Sdk.Runner.Hook.{stop_hook, start_hook}

-- `TERMINAL`
abbrev pub is_terminal : PositionStatus → Bool
is_terminal settled = true
is_terminal defaulted = true
is_terminal cancelled = true
is_terminal _ = false

-- A token account that parses and does not hold "0".
abbrev pub is_stray : Option ℕ → Bool
is_stray none = false
is_stray (some amount) = not (amount == 0)

unfoldable pub close_book : Book → ℕ → ℕ → Runner → Stored
close_book book amount slot r = record (r.state) {
  active = none;
  history =
      r.state.history
      ++ (record {
        position = book.position;
        principal = book.principal;
        returned = amount;
        at = local_now r;
      }
          ∷ []);
  min_slot = some (max (or_else r.state.min_slot 0) slot);
}

unfoldable pub is_due : Book → Runner → Bool
is_due book r = leb_ℤ (book.settle_at -ℤ now r) (pos 0) || (is_some r.hook && r.hook_exited)

unfoldable pub new_book : OpenPosition → ℤ → ℤ → ℤ → Book
new_book p at_draw drawn_at settle_at = record {
  position = p.public_key;
  principal = p.principal;
  balance_at_draw = at_draw;
  drawn_at = drawn_at;
  settle_at = settle_at;
  deadline = p.deadline;
}

module _ (opts : RunnerOptions) where
  -- Within the last minute, told once per poll interval.
  unfoldable pub is_soon : Book → Runner → Bool
  is_soon book r =
      leb_ℤ (book.settle_at -ℤ now r) (pos 60)
      && ltb_ℤ (pos 60_000) (to_ms (book.settle_at -ℤ now r) +ℤ pos opts.poll_ms)

  unfoldable pub next_now : List OpenPosition → Runner → Option OpenPosition
  next_now ps r = next_to_draw opts.buffer_secs (λ n. now r) ps

module _ (outside : Outside) (opts : RunnerOptions) where
  -- How many accounts of the two token programs, or none when a call threw.
  unfoldable pub stray_tokens : Doing ℕ
  stray_tokens = ask outside (outside.token_accounts 0) >>> λ xs.
      ask outside (outside.token_accounts 1) >>> λ ys. give (length (keep_if is_stray (xs ++ ys)))

  -- A check that failed is warned about like a token.
  unfoldable pub warn_stray : Option ℕ → Doing (Unit {0})
  warn_stray none = notify warning
  warn_stray (some n) = if n == 0 then give tt else notify warning

  -- A settle that threw has the binding checked again at the next tick.
  unfoldable pub after_settle : Book → ℕ → Option Sent → Doing (Unit {0})
  after_settle book amount none = change (λ r. record r { agent_at = 0 }) >> stop_with rpc_failed
  after_settle book amount (some sent) =
      notify settled_notice
      >> change (λ r. record r { state = close_book book amount sent.slot r })
      >> save

  -- `client.settle`, which returns when the settle is confirmed, and may throw for one that lands later. The
  -- key of `p` is the book's position, by which `positionNullable` was asked.
  unfoldable pub client_settle : OpenPosition → Book → ℕ → Doing Sent
  client_settle p book amount =
      ask outside (outside.settle p.public_key amount (fee_at opts book.deadline)) >>> λ sent.
      act (settle_confirmed book.position amount) >> give sent

  unfoldable pub send_settle : OpenPosition → Book → ℕ → Doing (Unit {0})
  send_settle p book amount = attempt (client_settle p book amount) >>> after_settle book amount

  unfoldable pub settle : OpenPosition → Book → Doing (Unit {0})
  settle p book = stop_hook outside opts book.deadline >>> λ is_gone.
      attempt stray_tokens >>> warn_stray >> balance outside opts >>> λ held.
      read_reserve outside opts >>> λ reserve.
      send_settle p book (returned book.principal book.balance_at_draw held reserve)

  unfoldable pub drop_book : Book → Doing (Unit {0})
  drop_book book = stop_hook outside opts book.deadline >>> λ is_gone.
      set_state (λ s. record s { active = none }) >> save

  unfoldable pub tend : Book → OpenPosition → Doing (Unit {0})
  tend book p = see (λ r. r) >>> λ r.
      if is_terminal p.status
      then drop_book book
      else (if is_due book r
          then settle p book
          else (if is_soon opts book r then notify settle_soon else give tt))

  -- A position that the node does not have keeps its book.
  unfoldable pub tend_found : Book → Option OpenPosition → Doing (Unit {0})
  tend_found book none = give tt
  tend_found book (some p) = tend book p

  -- A position that was drawn before a restart.
  unfoldable pub adopt : OpenPosition → Doing (Unit {0})
  adopt p = balance outside opts >>> λ held. see now >>> λ t.
      set_state (λ s. record s {
        active = some (
            new_book p (pos held) p.drawn_at
              (resume_until opts.buffer_secs opts.hold_secs p.drawn_at p.deadline t));
      })
      >> save
      >> notify adopted

  unfoldable pub draw : OpenPosition → ℕ → Doing (Unit {0})
  draw p before = ask outside (outside.draw_funds opts.agent p.public_key) >>> λ u. see now >>> λ t.
      act (drew p.public_key)
      >> set_state (λ s. record s {
        active = some (
            new_book p (balance_at_draw before p.principal) t
              (settle_time opts.buffer_secs opts.hold_secs t p.deadline));
      })
      >> save
      >> start_hook outside opts

  unfoldable pub refuse_draw : Doing (Unit {0})
  refuse_draw = see (λ r. r.low_balance_notified) >>> λ told.
      (if told then give tt else notify low_balance)
      >> change (λ r. record r { low_balance_notified = true })

  unfoldable pub draw_next : Option OpenPosition → Doing (Unit {0})
  draw_next none = give tt
  draw_next (some p) = read_reserve outside opts >>> λ reserve. balance outside opts >>> λ held.
      if ltb held reserve
      then refuse_draw
      else (change (λ r. record r { low_balance_notified = false }) >> draw p held)

  unfoldable pub draw_from : List OpenPosition → Doing (Unit {0})
  draw_from ps = see (λ r. r) >>> λ r. if r.unbound then give tt else draw_next (next_now opts ps r)

  unfoldable pub adopt_or_draw : List OpenPosition → Option OpenPosition → Doing (Unit {0})
  adopt_or_draw ps (some p) = adopt p
  adopt_or_draw ps none = draw_from ps

  -- The positions of the agent; one that trades is adopted.
  unfoldable pub look_for_work : Doing (Unit {0})
  look_for_work = ask outside (outside.positions opts.agent) >>> λ ps.
      adopt_or_draw ps (find (λ p. is_trading p.status) ps)

  unfoldable pub trade : Option Book → Doing (Unit {0})
  trade none = look_for_work
  trade (some book) = ask outside (outside.position_nullable book.position) >>> tend_found book
