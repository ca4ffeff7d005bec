-- ===== src/Sdk/Runner/Rules.antt =====
-- Rules for the calls of the `Runner` of sdk/src/runner.ts: what a call answers, and what it leaves of
-- the state, the file, the hook and what was sent.
use collateralized_agents.Base.{
  ℕ, Bool, true, false, ◌≡◌, refl, ap, ◌∙◌, subst, Option, none, some, List, [], ◌∷◌, if◌then◌else◌,
  if_ind,
}
use collateralized_agents.Sdk.Send.{SendError, Answer, got, threw}
use collateralized_agents.Sdk.Runner.State.{
  Book, ChildProcess, Stored, Runner, Notice, Act, drew, settle_confirmed, started, signalled,
  notified, Signal, Fired, nothing, hook_gone, asked_to_stop, Outside,
}
use collateralized_agents.Sdk.Runner.Calls.{
  Doing, give, stop_with, see, change, act, notify, pass, ◌>>>◌, attempt, caught, send_term, stop,
  on_fired, elapse, ask, sleep, group_alive,
}

-- The draws and settles among the acts.
abbrev pub moves : List Act → List Act
moves [] = []
moves (drew p ∷ as') = drew p ∷ moves as'
moves (settle_confirmed p n ∷ as') = settle_confirmed p n ∷ moves as'
moves (started pid ∷ as') = moves as'
moves (signalled pid s ∷ as') = moves as'
moves (notified n ∷ as') = moves as'

pub record View : Type 0 where
  pub state : Stored
  pub disk : Stored
  pub hook : Option ChildProcess
  pub paper_book : Option Book
  pub reserve : Option ℕ
  pub unbound : Bool
  pub moved : List Act

abbrev pub view : Runner → View
view r = record {
  state = r.state;
  disk = r.disk;
  hook = r.hook;
  paper_book = r.paper_book;
  reserve = r.reserve;
  unbound = r.unbound;
  moved = moves r.acts;
}

moves-send_term :
    (h : Option ChildProcess) (done : List Act) → moves (send_term h done) ≡ moves done
moves-send_term none done = refl
moves-send_term (some h) done = on_pid h.pid
  where
    on_pid :
        (p : Option ℕ)
        → moves (elim p [ none ↦ done | some pid ↦ signalled pid Signal.sigterm ∷ done ])
          ≡ moves done
    on_pid none = refl
    on_pid (some pid) = refl

view-on_fired : (f : Fired) (r : Runner) → view (on_fired f r) ≡ view r
unfolding on_fired stop
view-on_fired nothing r = refl
view-on_fired (hook_gone n) r = refl
view-on_fired asked_to_stop r =
    ap (λ (m : List Act). record (view r) { moved = m }) (moves-send_term r.hook r.acts)

view-elapse : (outside : Outside) (n : ℕ) (r : Runner) → view (elapse outside n r) ≡ view r
unfolding elapse
view-elapse outside n r = view-on_fired (outside.fired r.calls) _

module _ {A : Type 0} where
  -- An answer satisfies `Q`; an error is any.
  abbrev pub Holds : (A → Type 0) → Answer A → Type 0
  Holds Q (got a) = Q a
  Holds Q (threw e) = Unit {0}

  -- `m` leaves the view as it is, and what it answers satisfies `Q`.
  pub record Reads (Q : A → Type 0) (m : Doing A) : Type 0 where
    pub kept : (r : Runner) → view (m r).1 ≡ view r
    pub answers : (r : Runner) → Holds Q (m r).0

  abbrev pub Quiet : Doing A → Type 0
  Quiet m = Reads (λ a. Unit {0}) m

  abbrev pub any_answer : (x : Answer A) → Holds (λ a. Unit {0}) x
  any_answer (got a) = tt
  any_answer (threw e) = tt

module _ {A : Type 0} where
  give-Reads : (Q : A → Type 0) (a : A) → Q a → Reads Q (give a)
  unfolding give
  give-Reads Q a q = record { kept = λ r. refl; answers = λ r. q }

  pub stop_with-Quiet : (e : SendError) → Quiet (stop_with {A = A} e)
  unfolding stop_with
  stop_with-Quiet e = record { kept = λ r. refl; answers = λ r. tt }

  pub see-Quiet : (f : Runner → A) → Quiet (see f)
  unfolding see
  see-Quiet f = record { kept = λ r. refl; answers = λ r. tt }

  pub ask-Reads :
      (outside : Outside) (f : ℕ → Answer A) → Reads (λ a. (n : ℕ) × (f n ≡ got a)) (ask outside f)
  unfolding ask
  ask-Reads outside f = record {
    kept = view-elapse outside 0;
    answers = λ r. told (f r.calls) r.calls refl;
  }
    where
      told : (x : Answer A) (n : ℕ) → f n ≡ x → Holds (λ a. (n : ℕ) × (f n ≡ got a)) x
      told (got a) n e = (n, e)
      told (threw x) n e = tt

  if-Reads :
      (Q : A → Type 0) (b : Bool) (m n : Doing A)
      → (b ≡ true → Reads Q m)
      → (b ≡ false → Reads Q n)
      → Reads Q (if b then m else n)
  if-Reads Q b m n h k = if_ind (Reads Q) b m n h k

module _ {A : Type 0} where
  pub attempt-Quiet : (m : Doing A) → Quiet m → Quiet (attempt m)
  unfolding attempt
  attempt-Quiet m h = record { kept = λ r. after (m r) ∙ h.kept r; answers = λ r. any_of (m r) }
    where
      after : (x : Answer A × Runner) → view (caught x).1 ≡ view x.1
      after (got a, r) = refl
      after (threw e, r) = refl

      any_of : (x : Answer A × Runner) → Holds (λ a. Unit {0}) (caught x).0
      any_of (got a, r) = tt
      any_of (threw e, r) = tt

-- What an attempt gives, `m` answered.
pub attempt-Reads :
    {A : Type 0} (Q : A → Type 0) (m : Doing A)
    → Reads Q m
    → Reads (λ o. (a : A) → o ≡ some a → Q a) (attempt m)
unfolding attempt
attempt-Reads {A = A} Q m h = record {
  kept = (attempt-Quiet m (record { kept = h.kept; answers = λ r. any_answer (m r).0 })).kept;
  answers = λ r. given (m r) (h.answers r);
}
  where
    given :
        (x : Answer A × Runner) → Holds Q x.0 → Holds (λ o. (a : A) → o ≡ some a → Q a) (caught x).0
    given (got a, r) q = λ b e. subst Q (some_inj e) q
      where
        some_inj : {b : A} → some a ≡ some b → a ≡ b
        some_inj e = cc
    given (threw x, r) q = λ b e. absurd (cc)

pub change-Quiet : (f : Runner → Runner) → ((r : Runner) → view (f r) ≡ view r) → Quiet (change f)
unfolding change
change-Quiet f h = record { kept = h; answers = λ r. tt }

pub notify-Quiet : (n : Notice) → Quiet (notify n)
unfolding notify act change
notify-Quiet n = record { kept = λ r. refl; answers = λ r. tt }

pub signalled-Quiet : (pid : ℕ) (s : Signal) → Quiet (act (signalled pid s))
unfolding act change
signalled-Quiet pid s = record { kept = λ r. refl; answers = λ r. tt }

pub sleep-Quiet : (outside : Outside) (ms : ℕ) → Quiet (sleep outside ms)
unfolding sleep change
sleep-Quiet outside ms = record { kept = view-elapse outside ms; answers = λ r. tt }

pub group_alive-Quiet : (outside : Outside) (pgid : ℕ) → Quiet (group_alive outside pgid)
unfolding group_alive
group_alive-Quiet outside pgid = record { kept = λ r. refl; answers = λ r. tt }

module _ {A B : Type 0} where
  pub bind-Reads :
      (Q : A → Type 0) (R : B → Type 0) (m : Doing A) (f : A → Doing B)
      → Reads Q m
      → ((a : A) → Q a → Reads R (f a))
      → Reads R (m >>> f)
  unfolding ◌>>>◌
  bind-Reads Q R m f h k = record {
    kept = λ r. after (m r) (h.answers r) ∙ h.kept r;
    answers = λ r. holds (m r) (h.answers r);
  }
    where
      after : (x : Answer A × Runner) → Holds Q x.0 → view (pass x f).1 ≡ view x.1
      after (got a, r) q = (k a q).kept r
      after (threw e, r) q = refl

      holds : (x : Answer A × Runner) → Holds Q x.0 → Holds R (pass x f).0
      holds (got a, r) q = (k a q).answers r
      holds (threw e, r) q = tt

  -- What `f` does to the view, `m >>> f` does, when `m` only reads.
  bind-Ends :
      (Q : A → Type 0) (R : View → View → Type 0) (m : Doing A) (f : A → Doing B)
      → ((v : View) → R v v)
      → Reads Q m
      → ((a : A) → Q a → (r : Runner) → R (view r) (view (f a r).1))
      → (r : Runner) → R (view r) (view ((m >>> f) r).1)
  unfolding ◌>>>◌
  bind-Ends Q R m f id h k r =
      subst (λ v. R v (view (pass (m r) f).1)) (h.kept r) (after (m r) (h.answers r))
    where
      after : (x : Answer A × Runner) → Holds Q x.0 → R (view x.1) (view (pass x f).1)
      after (got a, s) q = k a q s
      after (threw e, s) q = id (view s)

module _ {A B : Type 0} where
  pub then-Quiet :
      (m : Doing A) (f : A → Doing B) → Quiet m → ((a : A) → Quiet (f a)) → Quiet (m >>> f)
  then-Quiet m f h k = bind-Reads (λ a. Unit) (λ b. Unit) m f h (λ a u. k a)

module _ {A : Type 0} where
  pub give-Quiet : (a : A) → Quiet (give a)
  give-Quiet a = give-Reads (λ a. Unit) a tt

  pub ask-Quiet : (outside : Outside) (f : ℕ → Answer A) → Quiet (ask outside f)
  ask-Quiet outside f = record { kept = (ask-Reads outside f).kept; answers = λ r. any_answer _ }

  pub if-Quiet : (b : Bool) (m n : Doing A) → Quiet m → Quiet n → Quiet (if b then m else n)
  if-Quiet b m n h k = if_ind Quiet b m n (λ e. h) (λ e. k)

-- The rules by which a call leaves the view as it is.
pub ruleset quiet = (
  then-Quiet, give-Quiet, stop_with-Quiet, see-Quiet, ask-Quiet, if-Quiet, attempt-Quiet,
  notify-Quiet, signalled-Quiet, sleep-Quiet, group_alive-Quiet,
)
