-- ===== src/Sdk/Runner/Does.antt =====
-- Triples for the calls of the `Runner` of sdk/src/runner.ts: what holds of the view before a call, after
-- its answer, and after its error.
use collateralized_agents.Base.{Bool, true, false, ◌≡◌, refl, sym, subst, if◌then◌else◌, if_ind}
use collateralized_agents.Sdk.Send.{Answer, got, threw}
use collateralized_agents.Sdk.Runner.State.{Stored, Runner}
use collateralized_agents.Sdk.Runner.Calls.{
  Doing, give, see, change, save, set_state, pass, ◌>>>◌, ◌>>◌,
}
use collateralized_agents.Sdk.Runner.Rules.{View, view, Holds, Reads}

module _ {A : Type 0} where
  abbrev pub After : (A → View → Type 0) → (View → Type 0) → Answer A × Runner → Type 0
  After Q E (got a, r) = Q a (view r)
  After Q E (threw e, r) = E (view r)

  pub record Does (P : View → Type 0) (m : Doing A) (Q : A → View → Type 0) (E : View → Type 0)
      : Type 0 where
    pub at : (r : Runner) → P (view r) → After Q E (m r)

  -- `P` holds before and after, whatever the answer.
  abbrev pub Keeps : (View → Type 0) → Doing A → Type 0
  Keeps P m = Does P m (λ a. P) P

module _ {A : Type 0} (P : View → Type 0) where
  pub reads-Does : (S : A → Type 0) (m : Doing A) → Reads S m → Does P m (λ a v. S a × P v) P
  reads-Does S m h = record { at = λ r p. after (m r) (h.answers r) (subst P (sym (h.kept r)) p) }
    where
      after : (x : Answer A × Runner) → Holds S x.0 → P (view x.1) → After (λ a v. S a × P v) P x
      after (got a, r) s p = (s, p)
      after (threw e, r) s p = p

  pub quiet-Keeps : (m : Doing A) → Reads (λ a. Unit {0}) m → Keeps P m
  quiet-Keeps m h = record { at = λ r p. after (m r) (subst P (sym (h.kept r)) p) }
    where
      after : (x : Answer A × Runner) → P (view x.1) → After (λ a. P) P x
      after (got a, r) p = p
      after (threw e, r) p = p

  pub give-Does :
      (Q : A → View → Type 0) (E : View → Type 0) (a : A)
      → ((v : View) → P v → Q a v)
      → Does P (give a) Q E
  unfolding give
  give-Does Q E a h = record { at = λ r p. h (view r) p }

  pub if-Does :
      (Q : A → View → Type 0) (E : View → Type 0) (b : Bool) (m n : Doing A)
      → (b ≡ true → Does P m Q E)
      → (b ≡ false → Does P n Q E)
      → Does P (if b then m else n) Q E
  if-Does Q E b m n h k = if_ind (λ x. Does P x Q E) b m n h k

  pub weaken-Does :
      (P' : View → Type 0) (Q Q' : A → View → Type 0) (E E' : View → Type 0) (m : Doing A)
      → ((v : View) → P' v → P v)
      → ((a : A) (v : View) → Q a v → Q' a v)
      → ((v : View) → E v → E' v)
      → Does P m Q E
      → Does P' m Q' E'
  weaken-Does P' Q Q' E E' m p q e h = record { at = λ r x. after (m r) (h.at r (p (view r) x)) }
    where
      after : (x : Answer A × Runner) → After Q E x → After Q' E' x
      after (got a, r) y = q a (view r) y
      after (threw x, r) y = e (view r) y

module _ {A B : Type 0} (P : View → Type 0) (Q : A → View → Type 0) (R : B → View → Type 0)
    (E : View → Type 0) where
  pub bind-Does :
      (m : Doing A) (f : A → Doing B)
      → Does P m Q E
      → ((a : A) → Does (Q a) (f a) R E)
      → Does P (m >>> f) R E
  unfolding ◌>>>◌
  bind-Does m f h k = record { at = λ r p. after (m r) (h.at r p) }
    where
      after : (x : Answer A × Runner) → After Q E x → After R E (pass x f)
      after (got a, r) q = (k a).at r q
      after (threw e, r) q = q

module _ {A B : Type 0} (P : View → Type 0) (R : B → View → Type 0) (E : View → Type 0) where
  -- A look at the state, and then what is done with it.
  pub see-Does :
      (g : Runner → A) (f : A → Doing B)
      → ((r : Runner) → Does (λ v. (v ≡ view r) × P v) (f (g r)) R E)
      → Does P (see g >>> f) R E
  unfolding see ◌>>>◌
  see-Does g f h = record { at = λ r p. (h r).at r (refl, p) }

module _ (P Q E : View → Type 0) where
  -- A change that `g` describes on the view.
  pub change-Does :
      (f : Runner → Runner) (g : View → View)
      → ((r : Runner) → view (f r) ≡ g (view r))
      → ((v : View) → P v → Q (g v))
      → Does P (change f) (λ u. Q) E
  unfolding change
  change-Does f g e h = record { at = λ r p. subst Q (sym (e r)) (h (view r) p) }

  -- The state is changed and saved.
  pub commit-Does :
      (f : Stored → Stored)
      → ((v : View) → P v → Q (record v { state = f v.state; disk = f v.state }))
      → Does P (set_state f >> save) (λ u. Q) E
  unfolding set_state save change ◌>>>◌
  commit-Does f h = record { at = λ r p. h (view r) p }
