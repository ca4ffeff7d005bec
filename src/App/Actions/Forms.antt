-- ===== src/App/Actions/Forms.antt =====
-- The terms of an agent in a form, `termsToInput` and `toTermsArg` of app/lib/useProtocol.ts.
use collateralized_agents.Base.{
  ℕ, ◌≡◌, refl, ap, sym, subst, ◌∙◌, Bool-cases, inl, inr, ℤ, Option, some, none, List, [], ◌∷◌,
  map, if◌then◌else◌,
}
use collateralized_agents.Program.{Number, whole, is_safe_integer, Terms, ◌>>=◌, new_bn}
use collateralized_agents.App.Actions.{TermsInput, parse_mints, to_terms_arg}

-- `BN.toNumber`, which throws for a number that is not a safe integer.
unfoldable pub to_number : ℤ → Option Number
to_number z = if is_safe_integer (whole z) then some (whole z) else none

-- The fields of `termsToInput`; `print` is `toBase58`.
abbrev pub input_of : (ℕ → ℕ) → Terms → Number → Number → TermsInput
input_of print t shortest longest = record {
  collateral_ratio_bps = t.collateral_ratio_bps;
  fee_bps = t.fee_bps;
  max_drawdown_bps = t.max_drawdown_bps;
  min_duration_secs = shortest;
  max_duration_secs = longest;
  allowed_assets = map print t.allowed_assets;
  rules = t.rules;
}

unfoldable pub terms_to_input : (ℕ → ℕ) → Terms → Option TermsInput
terms_to_input print t = to_number t.min_duration_secs >>= λ shortest.
    to_number t.max_duration_secs >>= λ longest. some (input_of print t shortest longest)

parse_mints-print :
    (parse : ℕ → Option ℕ) (print : ℕ → ℕ) (ks : List ℕ)
    → ((k : ℕ) → parse (print k) ≡ some k)
    → parse_mints parse (map print ks) ≡ some ks
unfolding parse_mints
parse_mints-print parse print [] h = refl
parse_mints-print parse print (k ∷ ks) h = rw (h k, parse_mints-print parse print ks h) refl

some-inj : {A : Type 0} (x y : A) → some x ≡ some y → x ≡ y
some-inj x y h = cc

absurd_some : {A : Type 0} {B : Type 0} {x : A} → some x ≡ none → B
absurd_some h = absurd (cc)

new_bn-to_number : (z : ℤ) (x : Number) → to_number z ≡ some x → new_bn x ≡ some z
unfolding to_number new_bn
new_bn-to_number z x h = elim (Bool-cases (is_safe_integer (whole z))) [
  | inl e ↦
      let same : x ≡ whole z =
        some-inj _ _ (sym h ∙ ap (λ b. if b then some (whole z) else none) e) in
      subst (λ y. new_bn y ≡ some z) (sym same) (ap (λ b. if b then some z else none) e)
  | inr e ↦ absurd_some (sym h ∙ ap (λ b. if b then some (whole z) else none) e)
]

-- The terms that a form shows are the terms that it sends back unchanged: whenever `termsToInput` does not throw,
-- `toTermsArg` gives the same terms. A key that is printed parses to itself.
pub to_terms_arg-terms_to_input :
    (parse : ℕ → Option ℕ) (print : ℕ → ℕ) (t : Terms) (input : TermsInput)
    → ((k : ℕ) → parse (print k) ≡ some k)
    → terms_to_input print t ≡ some input
    → to_terms_arg parse input ≡ some t
unfolding to_terms_arg terms_to_input
to_terms_arg-terms_to_input parse print t input h e =
    by (to_number t.min_duration_secs) (to_number t.max_duration_secs) refl refl e
  where
    by :
        (x y : Option Number)
        → to_number t.min_duration_secs ≡ x
        → to_number t.max_duration_secs ≡ y
        → (x >>= λ shortest. y >>= λ longest. some (input_of print t shortest longest)) ≡ some input
        → to_terms_arg parse input ≡ some t
    by none y p q r = cc
    by (some x) none p q r = cc
    by (some x) (some y) p q r =
        subst (λ i. to_terms_arg parse i ≡ some t) (some-inj _ _ r)
          (rw
            (
              new_bn-to_number t.min_duration_secs x p,
              new_bn-to_number t.max_duration_secs y q,
              parse_mints-print parse print t.allowed_assets h,
            )
            refl)
