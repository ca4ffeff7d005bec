-- ===== src/App/RateLimit/Tracks.antt =====
-- The map of app/lib/rateLimit.ts against the log of all its calls, the newest first.
use collateralized_agents.Base.{
  ℕ, ◌+◌, ◌≤◌, true, false, not, ◌&&◌, ◌≡◌, sym, ap, ◌∙◌, inl, inr, Option, none, some, List, [],
  ◌∷◌, ◌++◌, length, keep_if, All, All-map, All-append, All-keep_if, Dict, lookup, ◌==◌, ==_iff,
  Bool-cases, if_ind, arith,
}
use collateralized_agents.App.RateLimit.{is_recent, is_stale, sweep, times_of, reinsert}
use collateralized_agents.App.RateLimit.Window.{
  fresh, tracked, Distinct, Bounded, Ends, fresh-sweep, tracked-sweep-le, Distinct-sweep,
  fresh-recent, is_stale-snoc, old,
}
use collateralized_agents.App.RateLimit.Reinserts.{
  tracked-reinsert, Distinct-reinsert, All-reinsert, times_of-reinsert_self, times_of-reinsert_ne,
}

-- How many calls of the log, each a key and a time, are in the window that ends at `t`.
abbrev pub total : ℕ → ℕ → List (ℕ × ℕ) → ℕ
total w t log = length (keep_if (λ c. is_recent w t c.1) log)

-- How many of them are for the key.
abbrev pub counted : ℕ → ℕ → ℕ → List (ℕ × ℕ) → ℕ
counted w t key log = length (keep_if (λ c. (c.0 == key) && is_recent w t c.1) log)

-- The map holds what of the log may still be recent, and no more.
pub record Tracks (w now : ℕ) (hits : Dict (List ℕ)) (log : List (ℕ × ℕ)) : Type 0 where
  pub distinct : Distinct hits
  pub bounded : All (Bounded w now) hits
  pub exact : (k t : ℕ) → now ≤ t → fresh w t (times_of k hits) ≡ counted w t k log
  pub covered : (t : ℕ) → now ≤ t → tracked w t hits ≤ total w t log

module _ (w : ℕ) where
  later_times : (s t : ℕ) (ts : List ℕ) → s ≤ t → All (λ x. x ≤ s) ts → All (λ x. x ≤ t) ts
  later_times s t ts h = All-map (λ x. x ≤ s) (λ x. x ≤ t) (λ x k. omega arith) ts

  later : (s t : ℕ) (hits : Dict (List ℕ)) → s ≤ t → All (Bounded w s) hits → All (Bounded w t) hits
  later s t hits h =
      All-map (Bounded w s) (Bounded w t) (λ e b. (later_times s t e.1 h b.0, b.1)) hits

  pub Tracks-later :
      (s t : ℕ) (hits : Dict (List ℕ)) (log : List (ℕ × ℕ))
      → s ≤ t
      → Tracks w s hits log
      → Tracks w t hits log
  Tracks-later s t hits log h x = record {
    distinct = x.distinct;
    bounded = later s t hits h x.bounded;
    exact = λ k u i. x.exact k u (omega arith);
    covered = λ u i. x.covered u (omega arith);
  }

  pub Tracks-sweep :
      (now : ℕ) (hits : Dict (List ℕ)) (log : List (ℕ × ℕ))
      → Tracks w now hits log
      → Tracks w now (sweep w now hits) log
  unfolding sweep
  Tracks-sweep now hits log x = record {
    distinct = Distinct-sweep w now hits x.distinct;
    bounded = All-keep_if (Bounded w now) (λ e. not (is_stale w now e.1)) hits x.bounded;
    exact = λ k t h.
        fresh-sweep w now t k hits h x.distinct
          (All-map (Bounded w now) (λ e. Ends w e.1) (λ e b. b.1) hits x.bounded)
        ∙ x.exact k t h;
    covered = λ t h. omega (arith, tracked-sweep-le w now t hits, x.covered t h);
  }

  counted_same :
      (t key k now : ℕ) (log : List (ℕ × ℕ))
      → (key == k) ≡ true
      → counted w t k ((key, now) ∷ log) ≡ fresh w t (now ∷ []) + counted w t k log
  counted_same t key k now log e = ground arith

  counted_other :
      (t key k now : ℕ) (log : List (ℕ × ℕ))
      → (key == k) ≡ false
      → counted w t k ((key, now) ∷ log) ≡ counted w t k log
  counted_other t key k now log e = ground arith

  total_next :
      (t key now : ℕ) (log : List (ℕ × ℕ))
      → total w t ((key, now) ∷ log) ≡ fresh w t (now ∷ []) + total w t log
  total_next t key now log = ground arith

  times_of-All :
      (now key : ℕ) (hits : Dict (List ℕ))
      → All (Bounded w now) hits
      → All (λ s. s ≤ now) (times_of key hits)
  unfolding lookup
  times_of-All now key [] h = tt
  times_of-All now key ((j, ts) ∷ hits) h =
      if_ind (λ (o : Option (List ℕ)). All (λ s. s ≤ now) (elim o [ none ↦ [] | some us ↦ us ]))
        (j == key) (some ts) (lookup key hits) (λ e. h.0.0) (λ e. times_of-All now key hits h.1)

  Bounded-recent :
      (now : ℕ) (ts : List ℕ)
      → All (λ s. s ≤ now) ts
      → (key : ℕ) → Bounded w now (key, keep_if (is_recent w now) ts ++ now ∷ [])
  Bounded-recent now ts h key =
      let kept = keep_if (is_recent w now) ts in
      let up_to =
        All-append (λ s. s ≤ now) kept (now ∷ [])
          (All-keep_if (λ s. s ≤ now) (is_recent w now) ts h) (omega arith, tt) in
      (
        up_to,
        λ t e. old w now t (kept ++ now ∷ []) up_to (ground (arith, is_stale-snoc w t now kept)),
      )

  -- A call at `now` is added to the log and to the entry of its key.
  pub Tracks-reinsert :
      (now key : ℕ) (hits : Dict (List ℕ)) (log : List (ℕ × ℕ))
      → Tracks w now hits log
      → Tracks w now
          (reinsert key (keep_if (is_recent w now) (times_of key hits) ++ now ∷ []) hits)
          ((key, now) ∷ log)
  Tracks-reinsert now key hits log x =
      let ts = keep_if (is_recent w now) (times_of key hits) ++ now ∷ [] in
      record {
        distinct = Distinct-reinsert key ts hits x.distinct;
        bounded =
            All-reinsert (Bounded w now) key ts hits x.bounded
              (Bounded-recent now (times_of key hits) (times_of-All now key hits x.bounded) key);
        exact = λ k t h. elim (Bool-cases (key == k)) [
          | inl e ↦ rw (times_of-reinsert_self k key ts hits e) (
              omega (
                arith,
                fresh-recent w now t (times_of key hits) h,
                x.exact key t h,
                ap (λ j. counted w t j log) ((==_iff key k).0 e),
                counted_same t key k now log e,
              ))
          | inr e ↦
              rw (times_of-reinsert_ne k key ts hits e)
                (x.exact k t h ∙ sym (counted_other t key k now log e))
        ];
        covered = λ t h. omega (
          arith,
          tracked-reinsert w t key ts hits,
          fresh-recent w now t (times_of key hits) h,
          x.covered t h,
          total_next t key now log,
        );
      }
