-- ===== src/Agent/Protocol.antt =====
-- What the runner of agent/src/agent.ts may do, one step at a time: an abstract machine over its
-- core. Each step carries the facts under which the code makes it. `may_draw` says which positions may
-- be drawn or adopted, none in a tick whose scan was partial and in a settle pass; `may_trade` is false
-- in a settle pass.
use collateralized_agents.Base.{
  ℕ, ◌≤◌, ◌<◌, ℤ, Bool, true, false, ◌≡◌, ◌⊎◌, Option, none, some, List, [], ◌∷◌, ◌++◌, lookup,
  insert, erase, update, find, ◌==◌,
}
use collateralized_agents.Agent.Config.{AgentConfig, Strategy, arbitrage, momentum, rotate}
use collateralized_agents.Agent.State.{Side, PendingSwap, Book, PriceSample, Settled, AgentState}
use collateralized_agents.Agent.Schedule.{
  settle_time, too_late_to_draw, adopted_settle_at, past_last_call, settle_amount,
}
use collateralized_agents.Agent.Strategies.Laws.{held}
use collateralized_agents.Agent.System.{
  Position, is_opened, is_trading, trading, settled, Effect, swap_sent, draw_sent, settle_sent,
  Core, set_books, Act,
}
use collateralized_agents.Agent.System.Ensures.{Ensures}
use collateralized_agents.Agent.Env.{Env}
use collateralized_agents.Agent.Swap.{SwapResult}
use collateralized_agents.Agent.Runner.{book_swap, set_pending, mark}
use collateralized_agents.Agent.Loop.{new_book}

-- When a swap may count a cycle, or sell SOL under momentum.
abbrev pub MayBump : Strategy → Book → Bool → Type 0
MayBump s b false = Unit {0}
MayBump (rotate size_bps) b true = b.cycles ≡ 0
MayBump (momentum window band_bps size_bps) b true = b.usdc ≡ 0
MayBump (arbitrage min_edge_bps size_bps) b true = b.cycles < 3

-- Without `may_trade` a swap can only sell the book's USDC back.
abbrev pub MaySell : Bool → Side → Type 0
MaySell may_trade side = (may_trade ≡ true) ⊎ (side ≡ Side.usdc)

-- What a settle returns: the whole debt, or past the last call what the wallet has.
-- A reading of the environment's clock.
abbrev pub Reads : Env → ℤ → Type 0
Reads env t = (n : ℕ) × (env.now n ≡ t)

abbrev pub Enough : Env → Book → ℕ → Type 0
Enough env b returned =
    (returned ≡ b.sol) ⊎ ((t : ℤ) × (Reads env t × (past_last_call t b.deadline ≡ true)))

-- The fetched list shows no trading position at `key`.
abbrev pub Closed : ℕ → Option Position → Type 0
Closed key none = Unit {0}
Closed key (some p) = is_trading p.status ≡ false

abbrev pub signed : ℕ → PendingSwap → Core → Core
signed key p c =
    let marked = set_books (update key (set_pending (some p))) c in
    record marked { disk = marked.state }

abbrev pub traced : Effect → Core → Core
traced e c = record c { trace = e ∷ c.trace }

abbrev pub cleared : ℕ → Core → Core
cleared key = set_books (update key (set_pending none))

abbrev pub booked : ℕ → PendingSwap → SwapResult → ℤ → Core → Core
booked key p r t c =
    set_books (update key (book_swap p.side p.amount_in p.pool r p.bump_cycle t)) (cleared key c)

abbrev pub logged : Settled → Core → Core
logged h c = record c { state = record c.state { history = c.state.history ++ h ∷ [] } }

abbrev pub marked : ℕ → Core → Core
marked key c = record c { positions = mark key settled c.positions }

-- The position is in the list.
abbrev pub Among : List Position → Position → Type 0
Among [] p = ⊥
Among (q ∷ qs) p = (p ≡ q) ⊎ Among qs p

abbrev pub NoDraw : Position → Type 0
NoDraw p = ⊥

-- What a tick may draw or adopt: a position of its list, and after a partial scan none.
abbrev pub Offered : Bool → List Position → Position → Type 0
Offered true ps = NoDraw
Offered false ps = Among ps

module _ (env : Env) (cfg : AgentConfig) (may_draw : Position → Type 0) (may_trade : Bool) where
  pub data Move (c d : Core) : Type 0 where
    notes :
        (ps : List PriceSample) → d ≡ record c { state = record c.state { prices = ps } } → Move c d
    saves : d ≡ record c { disk = c.state } → Move c d
    -- signed, saved as pending, and only then sent
    sends :
        (key : ℕ) (b : Book) (p : PendingSwap)
        → lookup key c.state.books ≡ some b
        → b.pending ≡ none
        → (0 < p.amount_in) × (p.amount_in ≤ held p.side b.sol b.usdc)
        → MayBump cfg.strategy b p.bump_cycle
        → MaySell may_trade p.side
        → d ≡ traced (swap_sent p.sig (signed key p c).disk) (signed key p c)
        → Move c d
    drops :
        (key : ℕ) (b : Book) (p : PendingSwap)
        → lookup key c.state.books ≡ some b
        → b.pending ≡ some p
        → d ≡ cleared key c
        → Move c d
    books :
        (key : ℕ) (b : Book) (p : PendingSwap) (r : SwapResult) (t : ℤ)
        → lookup key c.state.books ≡ some b
        → b.pending ≡ some p
        → d ≡ booked key p r t c
        → Move c d
    closes :
        (key : ℕ)
        → Closed key (find (λ p. p.public_key == key) c.positions)
        → d ≡ set_books (erase key) c
        → Move c d
    asks_draw :
        (p : Position) (t : ℤ)
        → may_draw p
        → is_opened p.status ≡ true
        → Reads env t
        → too_late_to_draw t p.deadline ≡ false
        → d ≡ traced (draw_sent p.public_key) c
        → Move c d
    draws :
        (p : Position) (t : ℤ) (before : List Effect)
        → may_draw p
        → c.trace ≡ draw_sent p.public_key ∷ before
        → d
          ≡ set_books
              (insert p.public_key (new_book p t (settle_time t p.deadline cfg.hold_secs)))
              c
        → Move c d
    trades :
        (p : Position)
        → may_draw p
        → d ≡ record c { positions = mark p.public_key trading c.positions }
        → Move c d
    adopts :
        (p : Position) (t t' : ℤ)
        → may_draw p
        → is_trading p.status ≡ true
        → lookup p.public_key c.state.books ≡ none
        → d
          ≡ set_books
              (insert p.public_key (
                new_book p p.drawn_at (adopted_settle_at t t' p.drawn_at p.deadline cfg.hold_secs)))
              c
        → Move c d
    asks_settle :
        (key : ℕ) (b : Book) (wallet : ℕ)
        → lookup key c.state.books ≡ some b
        → Enough env b (settle_amount b.sol wallet)
        → d ≡ traced (settle_sent key (settle_amount b.sol wallet) c.state) c
        → Move c d
    settles :
        (key : ℕ) (b : Book) (h : Settled) (st : AgentState) (before : List Effect)
        → lookup key c.state.books ≡ some b
        → c.trace ≡ settle_sent key h.returned st ∷ before
        → (h.position ≡ key) × (h.principal ≡ b.principal)
        → d ≡ marked key (set_books (erase key) (logged h c))
        → Move c d

  pub data Moves (c : Core) : Core → Type 0 where
    here : Moves c c
    next : {d e : Core} → Moves c d → Move d e → Moves c e

  -- An action that makes steps of the machine only, whether it returns or throws.
  pub record Runs {A : Type 0} (m : Act A) : Type 0 where
    pub at : (c : Core) → Ensures (Moves c) m (λ a. Moves c) (λ e. Moves c)

  -- The same, from a core in which the book at `key` is `b`.
  pub record RunsAt {A : Type 0} (key : ℕ) (b : Book) (m : Act A) : Type 0 where
    pub at :
        (c : Core)
        → Ensures
            (λ d. Moves c d × (lookup key d.state.books ≡ some b))
            m
            (λ a. Moves c)
            (λ e. Moves c)
