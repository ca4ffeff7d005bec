-- ===== src/Agent/Refine/Offers.antt =====
-- Steps that draw nothing, of the machine for agent/src/agent.ts: what they leave of the positions, and that
-- they are steps of a machine that may draw.
use collateralized_agents.Base.{
  ℕ, Bool, true, false, ◌≡◌, refl, sym, subst, ◌⊎◌, inl, inr, List, [], ◌∷◌, All, ◌==◌,
  if◌then◌else◌,
}
use collateralized_agents.Agent.Config.{AgentConfig}
use collateralized_agents.Agent.State.{Side}
use collateralized_agents.Agent.System.{Position, is_opened, is_trading, settled, Core}
use collateralized_agents.Agent.Env.{Env}
use collateralized_agents.Agent.Runner.{mark}
use collateralized_agents.Agent.Protocol.{
  MaySell, Among, NoDraw, Move, Moves, here, next, notes, saves, sends, drops, books, closes,
  asks_draw, draws, trades, adopts, asks_settle, settles,
}

module _ (env : Env) (cfg : AgentConfig) (may_draw : Position → Type 0)
    (may_trade trades_too : Bool)
    (wider : (s : Side) → MaySell may_trade s → MaySell trades_too s) where
  widen-Move :
      {c d : Core} → Move env cfg NoDraw may_trade c d → Move env cfg may_draw trades_too c d
  widen-Move (notes ps q) = notes ps q
  widen-Move (saves q) = saves q
  widen-Move (sends key b p l n a m y q) = sends key b p l n a m (wider p.side y) q
  widen-Move (drops key b p l n q) = drops key b p l n q
  widen-Move (books key b p r t l n q) = books key b p r t l n q
  widen-Move (closes key k q) = closes key k q
  widen-Move (asks_draw p t m o r l q) = absurd m
  widen-Move (draws p t before m k q) = absurd m
  widen-Move (trades p m q) = absurd m
  widen-Move (adopts p t t' m o n q) = absurd m
  widen-Move (asks_settle key b wallet l k q) = asks_settle key b wallet l k q
  widen-Move (settles key b k st before l i j q) = settles key b k st before l i j q

  pub widen-Moves :
      {c d : Core} → Moves env cfg NoDraw may_trade c d → Moves env cfg may_draw trades_too c d
  widen-Moves here = here
  widen-Moves (next h m) = next (widen-Moves h) (widen-Move m)

pub then-Moves :
    {env : Env} {cfg : AgentConfig} {may_draw : Position → Type 0} {may_trade : Bool} {c d e : Core}
    → Moves env cfg may_draw may_trade c d
    → Moves env cfg may_draw may_trade d e
    → Moves env cfg may_draw may_trade c e
then-Moves h here = h
then-Moves h (next k m) = next (then-Moves h k) m

-- Open, or trading.
abbrev pub IsLive : Position → Type 0
IsLive p = (is_opened p.status ≡ true) ⊎ (is_trading p.status ≡ true)

-- What is live in the later list stands in the earlier one.
abbrev pub Kept : List Position → List Position → Type 0
Kept ps qs = (q : Position) → Among qs q → IsLive q → Among ps q

mark-Kept : (key : ℕ) (ps : List Position) → Kept ps (mark key settled ps)
mark-Kept key [] q a l = absurd a
mark-Kept key (p ∷ ps) q (inr a) l = inr (mark-Kept key ps q a l)
mark-Kept key (p ∷ ps) q (inl e) l = inl (by (p.public_key == key) e)
  where
    by : (b : Bool) → q ≡ (if b then record p { status = settled } else p) → q ≡ p
    by true h = absurd (dead (subst IsLive h l))
      where
        dead : IsLive (record p { status = settled }) → ⊥
        dead (inl x) = cc
        dead (inr x) = cc
    by false h = h

module _ (env : Env) (cfg : AgentConfig) (may_trade : Bool) (ps : List Position) where
  kept : (c : Core) {d e : Core} → e ≡ d → Kept ps d.positions → Kept ps e.positions
  kept c q h = subst (λ (x : Core). Kept ps x.positions) (sym q) h

  Move-Kept :
      {c d : Core} → Move env cfg NoDraw may_trade c d → Kept ps c.positions → Kept ps d.positions
  Move-Kept {c} (notes xs q) h = kept c q h
  Move-Kept {c} (saves q) h = kept c q h
  Move-Kept {c} (sends key b p l n a m y q) h = kept c q h
  Move-Kept {c} (drops key b p l n q) h = kept c q h
  Move-Kept {c} (books key b p r t l n q) h = kept c q h
  Move-Kept {c} (closes key k q) h = kept c q h
  Move-Kept {c} (asks_draw p t m o r l q) h = absurd m
  Move-Kept {c} (draws p t before m k q) h = absurd m
  Move-Kept {c} (trades p m q) h = absurd m
  Move-Kept {c} (adopts p t t' m o n q) h = absurd m
  Move-Kept {c} (asks_settle key b wallet l k q) h = kept c q h
  Move-Kept {c} (settles key b k st before l i j q) h =
      kept c q (λ x a l. h x (mark-Kept key c.positions x a l) l)

pub Moves-Kept :
    {env : Env} {cfg : AgentConfig} {may_trade : Bool} {c d : Core}
    → Moves env cfg NoDraw may_trade c d
    → Kept c.positions d.positions
Moves-Kept here = λ q a l. a
Moves-Kept {env} {cfg} {may_trade} {c} (next h m) =
    Move-Kept env cfg may_trade c.positions m (Moves-Kept h)

pub Among-All {κ} :
    (R : Position → Type κ) (qs : List Position) → ((q : Position) → Among qs q → R q) → All R qs
Among-All R [] f = tt
Among-All R (q ∷ qs) f = (f q (inl refl), Among-All R qs (λ x a. f x (inr a)))
