-- ===== src/Agent/Orca/Best.antt =====
-- The choice of `bestQuote` in agent/src/orca.ts.
use collateralized_agents.Base.{
  ◌≤◌, ◌≡◌, refl, ◌∙◌, ◌⊎◌, inl, inr, List, [], ◌∷◌, All, arith, ltb, if◌then◌else◌,
}
use collateralized_agents.Agent.Strategies.{LegQuote}
use collateralized_agents.Agent.Orca.{best_of}

-- `q` stands in the list.
abbrev pub Offered : LegQuote → List LegQuote → Type 0
Offered q [] = ⊥
Offered q (a ∷ rest) = (q ≡ a) ⊎ Offered q rest

abbrev better : LegQuote → LegQuote → LegQuote
better a b = if ltb a.out b.out then b else a

better-le : (a b : LegQuote) → (a.out ≤ (better a b).out) × (b.out ≤ (better a b).out)
better-le a b = ground arith

better_either : (a b : LegQuote) → (better a b ≡ b) ⊎ (better a b ≡ a)
better_either a b = ground arith

best_of-All :
    (a : LegQuote) (rest : List LegQuote) → All (λ q. q.out ≤ (best_of a rest).out) (a ∷ rest)
unfolding best_of
best_of-All a [] = (omega arith, tt)
best_of-All a (b ∷ rest) =
    let h : All (λ q. q.out ≤ (best_of (better a b) rest).out) (better a b ∷ rest) =
      best_of-All (better a b) rest in
    (omega (arith, better-le a b, h.0), (omega (arith, better-le a b, h.0), h.1))

best_of-Offered : (a : LegQuote) (rest : List LegQuote) → Offered (best_of a rest) (a ∷ rest)
unfolding best_of
best_of-Offered a [] = inl refl
best_of-Offered a (b ∷ rest) = elim (best_of-Offered (better a b) rest) [
  | inl e ↦ elim (better_either a b) [ inl u ↦ inr (inl (e ∙ u)) | inr u ↦ inl (e ∙ u) ]
  | inr o ↦ inr (inr o)
]

-- The quote that is chosen is one of those offered, and none offers more.
pub best_of_lem :
    (a : LegQuote) (rest : List LegQuote)
    → Offered (best_of a rest) (a ∷ rest) × All (λ q. q.out ≤ (best_of a rest).out) (a ∷ rest)
best_of_lem a rest = (best_of-Offered a rest, best_of-All a rest)
