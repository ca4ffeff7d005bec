-- ===== src/Sdk/Runner/Books.antt =====
-- The book of a position, abstractly: what a tick of sdk/src/runner.ts may do to it, and with what
-- knowledge of the chain.
use collateralized_agents.Base.{
  ℕ, ℤ, pos, Bool, true, false, ◌≡◌, Option, none, some, List, [], ◌∷◌, ◌++◌, ltb,
}
use collateralized_agents.Agent.System.{is_trading}
use collateralized_agents.Sdk.Send.{got}
use collateralized_agents.Sdk.Settle.{returned, balance_at_draw}
use collateralized_agents.Sdk.Schedule.{OpenPosition, settle_time, resume_until, next_to_draw}
use collateralized_agents.Sdk.Runner.State.{
  Book, Settled, RunnerOptions, Act, drew, settle_confirmed, Outside,
}
use collateralized_agents.Sdk.Runner.Tick.{is_terminal, new_book}
use collateralized_agents.Sdk.Runner.Rules.{View}
use collateralized_agents.Sdk.Runner.Quiet.{WasTold}
use collateralized_agents.Sdk.Runner.Watched.{IsReserve}

pub record Books : Type 0 where
  pub active : Option Book
  pub history : List Settled
  pub unbound : Bool
  pub moved : List Act

abbrev pub books : View → Books
books v = record {
  active = v.state.active;
  history = v.state.history;
  unbound = v.unbound;
  moved = v.moved;
}

-- What a settle of `book` adds to the history, for a balance and a reserve that the chain told.
pub record Settles (outside : Outside) (opts : RunnerOptions) (book : Book) (done : Settled)
    : Type 0 where
  pub position : done.position ≡ book.position
  pub principal : done.principal ≡ book.principal
  pub held : ℕ
  pub told : WasTold outside opts held
  pub reserve : ℕ
  pub is_reserve : IsReserve outside opts reserve
  pub amount : done.returned ≡ returned book.principal book.balance_at_draw held reserve

-- What lets a position be drawn at a time, from a wallet that holds this much.
pub record Draws (outside : Outside) (opts : RunnerOptions) (p : OpenPosition) (held : ℕ)
    : Type 0 where
  pub offered : List OpenPosition
  pub looked_at : ℤ
  pub is_next : next_to_draw opts.buffer_secs (λ n. looked_at) offered ≡ some p
  pub told : WasTold outside opts held
  pub reserve : ℕ
  pub is_reserve : IsReserve outside opts reserve
  pub is_enough : ltb held reserve ≡ false

pub data Step (outside : Outside) (opts : RunnerOptions) : Books → Books → Type 0 where
  stays : (b : Books) → Step outside opts b b
  draws :
      (b : Books) (p : OpenPosition) (held : ℕ) (t : ℤ)
      → b.active ≡ none
      → b.unbound ≡ false
      → Draws outside opts p held
      → Step outside opts b (record b {
        active = some (
            new_book p
              (balance_at_draw held p.principal)
              t
              (settle_time opts.buffer_secs opts.hold_secs t p.deadline));
        moved = drew p.public_key ∷ b.moved;
      })
  adopts :
      (b : Books) (p : OpenPosition) (held : ℕ) (t : ℤ)
      → b.active ≡ none
      → is_trading p.status ≡ true
      → WasTold outside opts held
      → Step outside opts b (record b {
        active = some (
            new_book p
              (pos held)
              p.drawn_at
              (resume_until opts.buffer_secs opts.hold_secs p.drawn_at p.deadline t));
      })
  settles :
      (b : Books) (book : Book) (done : Settled)
      → b.active ≡ some book
      → Settles outside opts book done
      → Step outside opts b (record b {
        active = none;
        history = b.history ++ (done ∷ []);
        moved = settle_confirmed book.position done.returned ∷ b.moved;
      })
  drops :
      (b : Books) (book : Book) (p : OpenPosition) (n : ℕ)
      → b.active ≡ some book
      → outside.position_nullable book.position n ≡ got (some p)
      → is_terminal p.status ≡ true
      → Step outside opts b (record b { active = none })
