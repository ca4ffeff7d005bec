-- ===== src/Agent/Backup/Unknown.antt =====
-- What agent/src/agent.ts reports after a start from the backup.
use collateralized_agents.Base.{
  ℕ, ℤ, ◌≤ℤ◌, max_ℤ, Bool, true, false, ◌≡◌, ◌≢◌, List, [], ◌∷◌, ◌++◌, keep_if, All, Dict, if_ind,
  arith, le-max_ℤ_left, le-max_ℤ_right,
}
use collateralized_agents.Agent.State.{Trade, Book}
use collateralized_agents.Agent.Backup.{
  Recent, sigs_of, known, knows, latest, since, is_after, is_unknown, unknown,
}

-- No trade of the book has the signature, nor has its pending swap.
abbrev pub IsForeign : ℕ → Book → Type 0
IsForeign sig book = All (λ s. s ≢ sig) (sigs_of book)

apart :
    (sig : ℕ) (ss ts : List ℕ)
    → knows (ss ++ ts) sig ≡ false
    → All (λ s. s ≢ sig) ss × (knows ts sig ≡ false)
unfolding knows
apart sig [] ts h = (tt, h)
apart sig (s ∷ ss) ts h =
    let k = apart sig ss ts (ground (arith, h)) in ((ground (arith, h), k.0), k.1)

known-IsForeign :
    (sig : ℕ) (books : Dict Book)
    → knows (known books) sig ≡ false
    → All (λ b. IsForeign sig b.1) books
unfolding known
known-IsForeign sig [] h = tt
known-IsForeign sig ((key, book) ∷ books) h =
    let k = apart sig (sigs_of book) (known books) h in (k.0, known-IsForeign sig books k.1)

-- The transaction did not fail, is in no book, and is not known to be older than the book's last trade.
abbrev pub IsReported : Dict Book → Book → Recent → Type 0
IsReported books book s =
    (s.failed ≡ false)
    × All (λ b. IsForeign s.signature b.1) books
    × (is_after (since book) s.block_time ≡ true)

reported :
    (books : Dict Book) (book : Book) (s : Recent)
    → is_unknown (known books) (since book) s ≡ true
    → IsReported books book s
unfolding is_unknown
reported books book s h =
    (ground (arith, h), known-IsForeign s.signature books (ground (arith, h)), ground (arith, h))

All-keep_if :
    {A : Type 0} (P : A → Type 0) (p : A → Bool) (xs : List A)
    → ((x : A) → p x ≡ true → P x)
    → All P (keep_if p xs)
All-keep_if P p [] h = tt
All-keep_if P p (x ∷ xs) h =
    if_ind (All P) (p x) (x ∷ keep_if p xs) (keep_if p xs) (λ e. (h x e, All-keep_if P p xs h))
      (λ e. All-keep_if P p xs h)

latest-ge : (t : ℤ) (xs : List Trade) → (t ≤ℤ latest t xs) × All (λ x. x.at ≤ℤ latest t xs) xs
unfolding latest
latest-ge t [] = (omega arith, tt)
latest-ge t (x ∷ xs) =
    let h = latest-ge (max_ℤ t x.at) xs in
    (omega (arith, h.0, le-max_ℤ_left t x.at), (omega (arith, h.0, le-max_ℤ_right t x.at), h.1))

-- Every transaction that is reported for a book succeeded, is neither a trade nor the pending swap of
-- any book, and is not known to be from before the book's draw or any of its trades; and these times
-- are all up to the one that is compared.
pub unknown-IsReported :
    (books : Dict Book) (recent : List Recent) (book : Book)
    → All (IsReported books book) (unknown books recent book)
      × ((book.drawn_at ≤ℤ since book) × All (λ x. x.at ≤ℤ since book) book.trades)
unfolding unknown since
unknown-IsReported books recent book = (
  All-keep_if (IsReported books book) (is_unknown (known books) (since book)) recent
      (reported books book),
  latest-ge book.drawn_at book.trades,
)
