-- ===== src/Agent/Refine/Rules.antt =====
-- The rules by which an action is shown to make steps of the machine of Protocol only.
use collateralized_agents.Base.{ℕ, ℤ, Bool, true, false, ◌≡◌, refl, some, lookup, if◌then◌else◌}
use collateralized_agents.Agent.Config.{AgentConfig}
use collateralized_agents.Agent.State.{Book}
use collateralized_agents.Agent.System.{
  Position, Error, Core, Act, pure, throw, call, catch, modify, ◌>>=◌, the_book, save,
}
use collateralized_agents.Agent.System.Ensures.{
  Ensures, Quiet, Ensures-bind, Ensures-catch, Ensures-modify, Ensures-quiet, Ensures-the_book,
  Ensures-weaken, Ensures-fact, Quiet-pure, Quiet-throw, Quiet-call,
}
use collateralized_agents.Agent.Env.{Env}
use collateralized_agents.Agent.Runner.{now}
use collateralized_agents.Agent.Protocol.{Reads, Move, Moves, next, Runs, RunsAt, saves}

-- The clock never throws.
pub now-Ensures :
    (env : Env) {P : Core → Type 0} {E : Error → Core → Type 0} → Ensures P (now env) (λ t c. P c) E
unfolding now call
now-Ensures env = record { at = λ s p. p }

-- What the clock says is what the environment's clock says at some call.
pub now-Reads :
    (env : Env) {P : Core → Type 0} {E : Error → Core → Type 0}
    → Ensures P (now env) (λ t c. P c × Reads env t) E
unfolding now call
now-Reads env = record { at = λ s p. (p, (s.calls, refl)) }

pub now-Quiet : (env : Env) → Quiet (now env)
unfolding now
now-Quiet env = Quiet-call _

module _ {env : Env} {cfg : AgentConfig} {may_draw : Position → Type 0} {may_trade : Bool} where
  -- An action that changes nothing.
  pub Runs-Quiet : {A : Type 0} {m : Act A} → Quiet m → Runs env cfg may_draw may_trade m
  Runs-Quiet q = record { at = λ c. Ensures-quiet q }

  pub Runs-pure : {A : Type 0} (a : A) → Runs env cfg may_draw may_trade (pure a)
  Runs-pure a = Runs-Quiet (Quiet-pure a)

  pub Runs-throw : {A : Type 0} (e : Error) → Runs env cfg may_draw may_trade (throw {A = A} e)
  Runs-throw e = Runs-Quiet (Quiet-throw e)

  pub Runs-now :
      {B : Type 0} (f : ℤ → Act B)
      → ((t : ℤ) → Reads env t → Runs env cfg may_draw may_trade (f t))
      → Runs env cfg may_draw may_trade (now env >>= f)
  Runs-now f k = record {
    at = λ c. Ensures-bind _ _ f (now-Reads env) (λ t.
        Ensures-fact {H = Reads env t} (λ d w. w.1)
          (λ r. Ensures-weaken _ _ _ ((k t r).at c) (λ d w. w.0) (λ a d w. w) (λ e d w. w)));
  }

  pub Runs-bind :
      {A B : Type 0} (m : Act A) (f : A → Act B)
      → Runs env cfg may_draw may_trade m
      → ((a : A) → Runs env cfg may_draw may_trade (f a))
      → Runs env cfg may_draw may_trade (m >>= f)
  Runs-bind m f km kf = record { at = λ c. Ensures-bind _ m f (km.at c) (λ a. (kf a).at c) }

  pub Runs-catch :
      {A : Type 0} (m : Act A) (h : Error → Act A)
      → Runs env cfg may_draw may_trade m
      → ((e : Error) → Runs env cfg may_draw may_trade (h e))
      → Runs env cfg may_draw may_trade (catch m h)
  Runs-catch m h km kh = record { at = λ c. Ensures-catch _ m h (km.at c) (λ e. (kh e).at c) }

  pub Runs-if :
      {A : Type 0} (b : Bool) (m n : Act A)
      → (b ≡ true → Runs env cfg may_draw may_trade m)
      → (b ≡ false → Runs env cfg may_draw may_trade n)
      → Runs env cfg may_draw may_trade (if b then m else n)
  Runs-if true m n h k = h refl
  Runs-if false m n h k = k refl

  pub Runs-modify :
      (f : Core → Core)
      → ((c : Core) → Move env cfg may_draw may_trade c (f c))
      → Runs env cfg may_draw may_trade (modify f)
  Runs-modify f h = record { at = λ c. Ensures-modify f (λ d r. next r (h d)) }

  pub Runs-save : Runs env cfg may_draw may_trade save
  unfolding save
  Runs-save = Runs-modify _ (λ c. saves refl)

  pub Runs-the_book :
      {A : Type 0} (key : ℕ) (f : Book → Act A)
      → ((b : Book) → RunsAt env cfg may_draw may_trade key b (f b))
      → Runs env cfg may_draw may_trade (the_book key >>= f)
  Runs-the_book key f kf = record {
    at = λ c. Ensures-bind _ (the_book key) f (Ensures-the_book key) (λ b. (kf b).at c);
  }

  pub RunsAt-Runs :
      {A : Type 0} {m : Act A} (key : ℕ) (b : Book)
      → Runs env cfg may_draw may_trade m
      → RunsAt env cfg may_draw may_trade key b m
  RunsAt-Runs key b r = record {
    at = λ c.
        Ensures-weaken (Moves env cfg may_draw may_trade c)
          (λ a. Moves env cfg may_draw may_trade c) (λ e. Moves env cfg may_draw may_trade c)
          (r.at c) (λ d p. p.0) (λ a d p. p) (λ e d p. p);
  }

  pub RunsAt-Quiet-bind :
      {A B : Type 0} (key : ℕ) (b : Book) (m : Act A) (f : A → Act B)
      → Quiet m
      → ((a : A) → RunsAt env cfg may_draw may_trade key b (f a))
      → RunsAt env cfg may_draw may_trade key b (m >>= f)
  RunsAt-Quiet-bind key b m f q kf = record {
    at = λ c.
        Ensures-bind
          (λ a d. Moves env cfg may_draw may_trade c d × (lookup key d.state.books ≡ some b)) m f
          (Ensures-weaken _ _ _ (Ensures-quiet q) (λ d p. p) (λ a d p. p) (λ e d p. p.0))
          (λ a. (kf a).at c);
  }

  pub RunsAt-if :
      {A : Type 0} (key : ℕ) (b : Book) (t : Bool) (m n : Act A)
      → (t ≡ true → RunsAt env cfg may_draw may_trade key b m)
      → (t ≡ false → RunsAt env cfg may_draw may_trade key b n)
      → RunsAt env cfg may_draw may_trade key b (if t then m else n)
  RunsAt-if key b true m n h k = h refl
  RunsAt-if key b false m n h k = k refl

  pub RunsAt-bind :
      {A B : Type 0} (key : ℕ) (b : Book) (m : Act A) (f : A → Act B)
      → RunsAt env cfg may_draw may_trade key b m
      → ((a : A) → Runs env cfg may_draw may_trade (f a))
      → RunsAt env cfg may_draw may_trade key b (m >>= f)
  RunsAt-bind key b m f km kf = record { at = λ c. Ensures-bind _ m f (km.at c) (λ a. (kf a).at c) }

  pub RunsAt-catch :
      {A : Type 0} (key : ℕ) (b : Book) (m : Act A) (h : Error → Act A)
      → RunsAt env cfg may_draw may_trade key b m
      → ((e : Error) → Runs env cfg may_draw may_trade (h e))
      → RunsAt env cfg may_draw may_trade key b (catch m h)
  RunsAt-catch key b m h km kh = record {
    at = λ c. Ensures-catch _ m h (km.at c) (λ e. (kh e).at c);
  }
