-- ===== src/Agent/Backup.antt =====
-- `checkAfterBackup` of agent/src/agent.ts: the transactions that no book knows after a start from the
-- backup, which is one save behind.
pub mod Unknown
use collateralized_agents.Base.{
  ℕ, ℤ, max_ℤ, ltb_ℤ, Bool, true, false, not, ◌&&◌, ◌||◌, ◌==◌, Option, none, some, List, [], ◌∷◌,
  ◌++◌, map, keep_if, Dict, if◌then◌else◌,
}
use collateralized_agents.Agent.State.{PendingSwap, Trade, Book}

-- An answer of `getSignaturesForAddress`.
pub record Recent : Type 0 where
  pub signature : ℕ
  pub failed : Bool
  pub block_time : Option ℤ

abbrev pub pending_sig : Option PendingSwap → List ℕ
pending_sig none = []
pending_sig (some p) = p.sig ∷ []

abbrev pub sigs_of : Book → List ℕ
sigs_of book = map (λ t. t.sig) book.trades ++ pending_sig book.pending

unfoldable pub known : Dict Book → List ℕ
known [] = []
known ((key, book) ∷ books) = sigs_of book ++ known books

unfoldable pub knows : List ℕ → ℕ → Bool
knows [] sig = false
knows (s ∷ sigs) sig = (s == sig) || knows sigs sig

unfoldable pub latest : ℤ → List Trade → ℤ
latest t [] = t
latest t (x ∷ xs) = latest (max_ℤ t x.at) xs

-- The book's draw, or its last trade.
unfoldable pub since : Book → ℤ
since book = latest book.drawn_at book.trades

abbrev pub is_after : ℤ → Option ℤ → Bool
is_after t none = true
is_after t (some block_time) = ltb_ℤ t block_time

unfoldable pub is_unknown : List ℕ → ℤ → Recent → Bool
is_unknown sigs t s = not s.failed && not (knows sigs s.signature) && is_after t s.block_time

unfoldable pub unknown : Dict Book → List Recent → Book → List Recent
unknown books recent book = keep_if (is_unknown (known books) (since book)) recent

-- The books that get an ALERT line, with the signatures in it.
unfoldable pub report : List Recent → Dict Book → Dict Book → List (ℕ × List ℕ)
report recent books [] = []
report recent books ((key, book) ∷ rest) =
    let others = report recent books rest in
    elim (unknown books recent book) [
      | [] ↦ others
      | s ∷ ss ↦ (key, map (λ x. x.signature) (s ∷ ss)) ∷ others
    ]

unfoldable pub check_after_backup : Dict Book → List Recent → List (ℕ × List ℕ)
check_after_backup books recent = report recent books books
