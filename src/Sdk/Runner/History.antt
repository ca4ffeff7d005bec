-- ===== src/Sdk/Runner/History.antt =====
-- The history that the runner of sdk/src/runner.ts keeps, against the settles that `client.settle` confirmed.
use collateralized_agents.Base.{ℕ, ◌≡◌, refl, sym, ap, ◌∙◌, none, List, [], ◌∷◌, ◌++◌, map}
use collateralized_agents.Sdk.Runner.State.{
  Runner, RunnerOptions, Settled, Act, drew, settle_confirmed, started, signalled, notified,
  Outside,
}
use collateralized_agents.Sdk.Runner.Loop.{rounds}
use collateralized_agents.Sdk.Runner.Rules.{view, moves}
use collateralized_agents.Sdk.Runner.Books.{
  Books, books, Step, stays, draws, adopts, settles, drops,
}
use collateralized_agents.Sdk.Runner.Rounds.{Reach, here, rebind, next, rounds-Reach}

-- The settles that `client.settle` confirmed, the first one first: the position and what was returned for it.
abbrev pub confirmed_settles : List Act → List (ℕ × ℕ)
confirmed_settles [] = []
confirmed_settles (settle_confirmed p n ∷ done) = confirmed_settles done ++ ((p, n) ∷ [])
confirmed_settles (drew p ∷ done) = confirmed_settles done
confirmed_settles (started pid ∷ done) = confirmed_settles done
confirmed_settles (signalled pid s ∷ done) = confirmed_settles done
confirmed_settles (notified n ∷ done) = confirmed_settles done

abbrev pub noted : Settled → ℕ × ℕ
noted s = (s.position, s.returned)

-- The history notes what was confirmed.
abbrev pub IsTrue : Books → Type 0
IsTrue b = map noted b.history ≡ confirmed_settles b.moved

map-append : (xs ys : List Settled) → map noted (xs ++ ys) ≡ map noted xs ++ map noted ys
map-append [] ys = refl
map-append (x ∷ xs) ys = ap (λ t. noted x ∷ t) (map-append xs ys)

module _ (outside : Outside) (opts : RunnerOptions) where
  step-IsTrue : (b c : Books) → Step outside opts b c → IsTrue b → IsTrue c
  step-IsTrue b _ (stays _) h = h
  step-IsTrue b _ (draws _ p held t e u d) h = h
  step-IsTrue b _ (adopts _ p held t e i w) h = h
  step-IsTrue b _ (settles _ book done e s) h =
      map-append b.history (done ∷ [])
      ∙ ap (λ t. t ++ (noted done ∷ [])) h
      ∙ ap (λ p. confirmed_settles b.moved ++ ((p, done.returned) ∷ [])) s.position
  step-IsTrue b _ (drops _ book p n e w t) h = h

  Reach-IsTrue : (b c : Books) → Reach outside opts b c → IsTrue b → IsTrue c
  Reach-IsTrue b _ here h = h
  Reach-IsTrue b _ (rebind c u t r) h = Reach-IsTrue b c r h
  Reach-IsTrue b _ (next c d r s) h = step-IsTrue c d s (Reach-IsTrue b c r h)

confirmed-moves : (done : List Act) → confirmed_settles (moves done) ≡ confirmed_settles done
confirmed-moves [] = refl
confirmed-moves (drew p ∷ done) = confirmed-moves done
confirmed-moves (settle_confirmed p n ∷ done) = ap (λ t. t ++ ((p, n) ∷ [])) (confirmed-moves done)
confirmed-moves (started pid ∷ done) = confirmed-moves done
confirmed-moves (signalled pid s ∷ done) = confirmed-moves done
confirmed-moves (notified n ∷ done) = confirmed-moves done

-- When the history of a runner notes exactly the settles that `client.settle` returned from as confirmed, with
-- their amounts and in their order, it still does after any number of rounds, errors included. A settle that
-- lands while the call throws is in neither. The runner has not read its reserve yet.
pub rounds-history :
    (outside : Outside) (opts : RunnerOptions) (n : ℕ) (r : Runner)
    → r.reserve ≡ none
    → map noted r.state.history ≡ confirmed_settles r.acts
    → map noted (rounds outside opts n r).1.state.history
      ≡ confirmed_settles (rounds outside opts n r).1.acts
rounds-history outside opts n r e h =
    Reach-IsTrue outside opts (books (view r)) _ (rounds-Reach outside opts n r e)
      (h ∙ sym (confirmed-moves r.acts))
    ∙ confirmed-moves (rounds outside opts n r).1.acts
