-- ===== src/App/Stats.antt =====
-- What `useAgents` of app/lib/useProtocol.ts shows of each agent: the results of its closed positions.
use collateralized_agents.Base.{
  ℕ, ◌+◌, Bool, true, false, ◌&&◌, ◌≡◌, refl, ℤ, pos, ◌+ℤ◌, ◌-ℤ◌, Option, none, some, List, [], ◌∷◌,
  Dict, lookup, insert, lookup-insert, ◌==◌, ==_iff, if◌then◌else◌, arith, ap, sym, subst, int_laws,
  ◌∙◌, keep_if, length, pos_part, neg_part,
}

pub data Status : Type 0 where
  opened trading settled defaulted cancelled : Status

pub record Position : Type 0 where
  pub agent : ℕ
  pub status : Status
  pub principal : ℕ
  pub returned : ℕ
  pub fee_paid : ℕ
  pub slashed : ℕ

pub record AgentStats : Type 0 where
  pub closed : ℕ
  pub principal : ℕ
  pub trader_pnl : ℤ

abbrev pub is_closed : Status → Bool
is_closed settled = true
is_closed defaulted = true
is_closed _ = false

abbrev pub no_stats : AgentStats
no_stats = record { closed = 0; principal = 0; trader_pnl = pos 0 }

-- `payout`
abbrev pub payout : Position → ℤ
payout p = (pos p.returned -ℤ pos p.fee_paid) +ℤ pos p.slashed

unfoldable pub add_position : Position → AgentStats → AgentStats
add_position p s = record {
  closed = s.closed + 1;
  principal = s.principal + p.principal;
  trader_pnl = s.trader_pnl +ℤ (payout p -ℤ pos p.principal);
}

-- `next[k] ??= { closed: 0, principal: 0, traderPnl: 0 }`
abbrev pub or_new : Option AgentStats → AgentStats
or_new none = no_stats
or_new (some s) = s

unfoldable pub count_position : Position → Dict AgentStats → Dict AgentStats
count_position p stats =
    if is_closed p.status
    then insert p.agent (add_position p (or_new (lookup p.agent stats))) stats
    else stats

unfoldable pub stats_from : Dict AgentStats → List Position → Dict AgentStats
stats_from stats [] = stats
stats_from stats (p ∷ ps) = stats_from (count_position p stats) ps

unfoldable pub stats_of : List Position → Dict AgentStats
stats_of ps = stats_from [] ps

-- A position that counts for an agent.
abbrev pub counts : ℕ → Position → Bool
counts k p = is_closed p.status && (p.agent == k)

-- The results of one agent's closed positions, in order: none when it has none.
abbrev pub results : ℕ → Option AgentStats → List Position → Option AgentStats
results k s [] = s
results k s (p ∷ ps) = results k (if counts k p then some (add_position p (or_new s)) else s) ps

count_position-lookup :
    (k : ℕ) (p : Position) (stats : Dict AgentStats)
    → lookup k (count_position p stats)
      ≡ (if counts k p then some (add_position p (or_new (lookup k stats))) else lookup k stats)
unfolding count_position
count_position-lookup k p stats = by (is_closed p.status) (p.agent == k) refl
  where
    by :
        (b c : Bool)
        → (p.agent == k) ≡ c
        → lookup k (
            if b
            then insert p.agent (add_position p (or_new (lookup p.agent stats))) stats
            else stats)
          ≡ (if b && c then some (add_position p (or_new (lookup k stats))) else lookup k stats)
    by false c e = refl
    by true true e =
        lookup-insert p.agent k (add_position p (or_new (lookup p.agent stats))) stats
        ∙ rw e (ap (λ j. some (add_position p (or_new (lookup j stats)))) ((==_iff p.agent k).0 e))
    by true false e =
        lookup-insert p.agent k (add_position p (or_new (lookup p.agent stats))) stats ∙ rw e refl

stats_from-lookup :
    (k : ℕ) (stats : Dict AgentStats) (ps : List Position)
    → lookup k (stats_from stats ps) ≡ results k (lookup k stats) ps
unfolding stats_from
stats_from-lookup k stats [] = refl
stats_from-lookup k stats (p ∷ ps) =
    stats_from-lookup k (count_position p stats) ps
    ∙ ap (λ s. results k s ps) (count_position-lookup k p stats)

abbrev pub sum : (Position → ℕ) → List Position → ℕ
sum f [] = 0
sum f (p ∷ ps) = f p + sum f ps

-- From one sum to another over some positions: how many, their principal, and the gain of the traders, who get
-- back the returns less the fees, and what was slashed.
abbrev pub IsTotal : AgentStats → AgentStats → List Position → Type 0
IsTotal s r own =
    (r.closed ≡ s.closed + length own)
    × (r.principal ≡ s.principal + sum (λ p. p.principal) own)
    × (pos_part r.trader_pnl + neg_part s.trader_pnl + sum (λ p. p.principal + p.fee_paid) own
        ≡ neg_part r.trader_pnl + pos_part s.trader_pnl + sum (λ p. p.returned + p.slashed) own)

add_position-IsTotal :
    (p : Position) (s r : AgentStats) (own : List Position)
    → IsTotal (add_position p s) r own
    → IsTotal s r (p ∷ own)
unfolding add_position
add_position-IsTotal p s r own h = (omega (arith, h.0), omega (arith, h.1), omega (int_laws, h.2))

results-IsTotal :
    (k : ℕ) (s : Option AgentStats) (ps : List Position)
    → IsTotal (or_new s) (or_new (results k s ps)) (keep_if (counts k) ps)
results-IsTotal k s [] = (omega arith, omega arith, omega arith)
results-IsTotal k s (p ∷ ps) = by (counts k p) (λ s'. results-IsTotal k s' ps)
  where
    by :
        (b : Bool)
        → ((s' : Option AgentStats)
            → IsTotal (or_new s') (or_new (results k s' ps)) (keep_if (counts k) ps))
        → IsTotal
            (or_new s)
            (or_new (results k (if b then some (add_position p (or_new s)) else s) ps))
            (if b then p ∷ keep_if (counts k) ps else keep_if (counts k) ps)
    by true h = add_position-IsTotal p (or_new s) _ _ (h (some (add_position p (or_new s))))
    by false h = h s

-- The results shown for an agent are those of its own positions that are settled or defaulted: how many they are,
-- their principal, and what their traders gained, which is the returns and what was slashed, less the principal
-- and the fees.
pub stats_of-IsTotal :
    (k : ℕ) (ps : List Position)
    → IsTotal no_stats (or_new (lookup k (stats_of ps))) (keep_if (counts k) ps)
unfolding stats_of lookup
stats_of-IsTotal k ps =
    subst (λ o. IsTotal no_stats (or_new o) (keep_if (counts k) ps))
      (sym (stats_from-lookup k [] ps)) (results-IsTotal k none ps)
