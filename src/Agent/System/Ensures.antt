-- ===== src/Agent/System/Ensures.antt =====
-- Reasoning about actions: what an action ensures of the runner's core when it returns, and when it
-- throws. The environment's calls change no core, so every condition on the core passes over them.
use collateralized_agents.Base.{
  ℕ, Bool, true, false, Option, none, some, ◌≡◌, refl, ◌∙◌, lookup, if◌then◌else◌,
}
use collateralized_agents.Agent.State.{Book}
use collateralized_agents.Agent.System.{
  Error, Result, ok, err, Core, Sys, Act, PoolCache, pure, throw, gets, call, catch, modify,
  set_cache, ◌>>=◌, the_book, follow, recover, or_throw,
}

module _ {A : Type 0} where
  abbrev pub Post : (A → Core → Type 0) → (Error → Core → Type 0) → Result A → Core → Type 0
  Post Q E (ok a) c = Q a c
  Post Q E (err e) c = E e c

  pub record Ensures (P : Core → Type 0) (m : Act A) (Q : A → Core → Type 0)
      (E : Error → Core → Type 0) : Type 0 where
    pub at : (s : Sys) → P s.core → Post Q E (m s).0 (m s).1.core

  -- `m` changes no core.
  pub record Quiet (m : Act A) : Type 0 where
    pub same : (s : Sys) → (m s).1.core ≡ s.core

module _ {A : Type 0} {P : Core → Type 0} {Q : A → Core → Type 0} {E : Error → Core → Type 0} where
  pub Ensures-pure : (a : A) → ((c : Core) → P c → Q a c) → Ensures P (pure a) Q E
  unfolding pure
  Ensures-pure a h = record { at = λ s p. h s.core p }

  pub Ensures-throw : (e : Error) → ((c : Core) → P c → E e c) → Ensures P (throw {A = A} e) Q E
  unfolding throw
  Ensures-throw e h = record { at = λ s p. h s.core p }

  pub Ensures-if :
      (b : Bool) (m n : Act A)
      → (b ≡ true → Ensures P m Q E)
      → (b ≡ false → Ensures P n Q E)
      → Ensures P (if b then m else n) Q E
  Ensures-if true m n h k = h refl
  Ensures-if false m n h k = k refl

  -- A weaker condition before and stronger ones after.
  pub Ensures-weaken :
      (P' : Core → Type 0) (Q' : A → Core → Type 0) (E' : Error → Core → Type 0) {m : Act A}
      → Ensures P' m Q' E'
      → ((c : Core) → P c → P' c)
      → ((a : A) (c : Core) → Q' a c → Q a c)
      → ((e : Error) (c : Core) → E' e c → E e c)
      → Ensures P m Q E
  Ensures-weaken P' Q' E' {m} h p q e = record {
    at = λ s k. post (m s).0 (m s).1.core (h.at s (p s.core k));
  }
    where
      post : (r : Result A) (c : Core) → Post Q' E' r c → Post Q E r c
      post (ok a) c x = q a c x
      post (err x') c x = e x' c x

  pub Ensures-catch :
      (F : Error → Core → Type 0) (m : Act A) (h : Error → Act A)
      → Ensures P m Q F
      → ((e : Error) → Ensures (F e) (h e) Q E)
      → Ensures P (catch m h) Q E
  unfolding catch
  Ensures-catch F m h km kh = record { at = λ s p. handled (m s) (km.at s p) }
    where
      handled :
          (r : Result A × Sys)
          → Post Q F r.0 r.1.core
          → Post Q E (recover r h).0 (recover r h).1.core
      handled (ok a, s) x = x
      handled (err e, s) x = (kh e).at s x

module _ {A B : Type 0} {P : Core → Type 0} {R : B → Core → Type 0}
    {E : Error → Core → Type 0} where
  pub Ensures-bind :
      (Q : A → Core → Type 0) (m : Act A) (f : A → Act B)
      → Ensures P m Q E
      → ((a : A) → Ensures (Q a) (f a) R E)
      → Ensures P (m >>= f) R E
  unfolding ◌>>=◌
  Ensures-bind Q m f km kf = record { at = λ s p. followed (m s) (km.at s p) }
    where
      followed :
          (r : Result A × Sys) → Post Q E r.0 r.1.core → Post R E (follow r f).0 (follow r f).1.core
      followed (ok a, s) x = (kf a).at s x
      followed (err e, s) x = x

module _ {P : Core → Type 0} where
  pub Ensures-modify :
      {Q : Unit {0} → Core → Type 0} {E : Error → Core → Type 0} (f : Core → Core)
      → ((c : Core) → P c → Q tt (f c))
      → Ensures P (modify f) Q E
  unfolding modify
  Ensures-modify f h = record { at = λ s p. h s.core p }

  pub Ensures-gets :
      {A : Type 0} {E : Error → Core → Type 0} (f : Core → A)
      → Ensures P (gets (λ s. f s.core)) (λ a c. P c × (a ≡ f c)) E
  unfolding gets
  Ensures-gets f = record { at = λ s p. (p, refl) }

  pub Ensures-the_book :
      (key : ℕ)
      → Ensures P (the_book key) (λ b c. P c × (lookup key c.state.books ≡ some b)) (λ e c. P c)
  unfolding the_book throw pure
  Ensures-the_book key = record { at = λ s p. found s p (lookup key s.state.books) refl }
    where
      found :
          (s : Sys) (p : P s.core) (o : Option Book)
          → lookup key s.state.books ≡ o
          → Post
              (λ b c. P c × (lookup key c.state.books ≡ some b))
              (λ e c. P c)
              (or_throw o s).0
              (or_throw o s).1.core
      found s p none e = p
      found s p (some b) e = (p, e)

  pub Ensures-quiet : {A : Type 0} {m : Act A} → Quiet m → Ensures P m (λ a c. P c) (λ e c. P c)
  Ensures-quiet {A} {m} q = record { at = λ s p. kept (m s).0 (m s).1.core s (q.same s) p }
    where
      kept :
          (r : Result A) (c : Core) (s : Sys)
          → c ≡ s.core
          → P s.core
          → Post (λ a c'. P c') (λ e c'. P c') r c
      kept (ok a) c s e p = rw e p
      kept (err x) c s e p = rw e p

module _ {A : Type 0} where
  pub Quiet-pure : (a : A) → Quiet (pure a)
  unfolding pure
  Quiet-pure a = record { same = λ s. refl }

  pub Quiet-throw : (e : Error) → Quiet (throw {A = A} e)
  unfolding throw
  Quiet-throw e = record { same = λ s. refl }

  pub Quiet-gets : (f : Sys → A) → Quiet (gets f)
  unfolding gets
  Quiet-gets f = record { same = λ s. refl }

  pub Quiet-call : (f : ℕ → Result A) → Quiet (call f)
  unfolding call
  Quiet-call f = record { same = λ s. refl }

  pub Quiet-if : (b : Bool) (m n : Act A) → Quiet m → Quiet n → Quiet (if b then m else n)
  Quiet-if true m n h k = h
  Quiet-if false m n h k = k

  pub Quiet-catch :
      (m : Act A) (h : Error → Act A) → Quiet m → ((e : Error) → Quiet (h e)) → Quiet (catch m h)
  unfolding catch
  Quiet-catch m h km kh = record { same = λ s. handled (m s) s (km.same s) }
    where
      handled : (r : Result A × Sys) (s : Sys) → r.1.core ≡ s.core → (recover r h).1.core ≡ s.core
      handled (ok a, t) s e = e
      handled (err x, t) s e = (kh x).same t ∙ e

pub Quiet-set_cache : (cache : PoolCache) → Quiet (set_cache cache)
unfolding set_cache
Quiet-set_cache cache = record { same = λ s. refl }

module _ {A B : Type 0} where
  pub Quiet-bind : (m : Act A) (f : A → Act B) → Quiet m → ((a : A) → Quiet (f a)) → Quiet (m >>= f)
  unfolding ◌>>=◌
  Quiet-bind m f km kf = record { same = λ s. followed (m s) s (km.same s) }
    where
      followed : (r : Result A × Sys) (s : Sys) → r.1.core ≡ s.core → (follow r f).1.core ≡ s.core
      followed (ok a, t) s e = (kf a).same t ∙ e
      followed (err x, t) s e = e

pub ruleset quiet_rules = (
  Quiet-pure, Quiet-throw, Quiet-gets, Quiet-call, Quiet-if, Quiet-catch, Quiet-set_cache,
  Quiet-bind,
)

-- A condition with a witness, taken apart.
pub Ensures-exists :
    {X A : Type 0} {P : X → Core → Type 0} {m : Act A} {Q : A → Core → Type 0}
    {E : Error → Core → Type 0}
    → ((x : X) → Ensures (P x) m Q E)
    → Ensures (λ c. (x : X) × P x c) m Q E
Ensures-exists h = record { at = λ s p. (h p.0).at s p.1 }

-- A fact that the condition gives whatever the core.
pub Ensures-fact :
    {H A : Type 0} {P : Core → Type 0} {m : Act A} {Q : A → Core → Type 0}
    {E : Error → Core → Type 0}
    → ((c : Core) → P c → H)
    → (H → Ensures P m Q E)
    → Ensures P m Q E
Ensures-fact h k = record { at = λ s p. (k (h s.core p)).at s p }
