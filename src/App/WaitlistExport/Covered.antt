-- ===== src/App/WaitlistExport/Covered.antt =====
-- Which submissions the export of app/lib/waitlistExport.ts shows.
use collateralized_agents.Base.{
  ℕ, suc, false, ◌&&◌, ◌==◌, ==_self, ◌≡◌, refl, sym, ap, ◌∙◌, subst, ◌⊎◌, inl, inr, Option, none,
  some, List, [], ◌∷◌, ◌++◌, length, Dict, lookup, lookup-insert, lookup-insert_self,
  lookup-update_self, lookup-update_ne, update, ltb, leb, if_ind, All, arith, Bool-cases,
}
use collateralized_agents.App.WaitlistExport.{
  Row, ExportRow, changed_from, changed_fields, differs_from_all, push, group_in, group_all,
  put_row, sort_rows, group_by_email,
}

changed_from_self : (n : ℕ) (xs : List ℕ) → changed_from n xs xs ≡ []
unfolding changed_from
changed_from_self n [] = refl
changed_from_self n (x ∷ xs) = rw (==_self x, changed_from_self (suc n) xs)

-- One of the rows says the same as `r`.
abbrev pub ShownIn : Row → List Row → Type 0
ShownIn r [] = ⊥
ShownIn r (s ∷ rows) = (changed_fields s r ≡ []) ⊎ ShownIn r rows

-- The export has a line for the email of `r`, and that line shows what `r` says.
abbrev pub IsCovered : Dict ExportRow → Row → Type 0
IsCovered groups r =
    (g : ExportRow) × (lookup r.key groups ≡ some g) × ShownIn r (g.entry ∷ g.updates)

ShownIn-append : (r : Row) (ss ts : List Row) → ShownIn r ss → ShownIn r (ss ++ ts)
ShownIn-append r [] ts h = absurd h
ShownIn-append r (s ∷ ss) ts (inl e) = inl e
ShownIn-append r (s ∷ ss) ts (inr h) = inr (ShownIn-append r ss ts h)

ShownIn-last : (r : Row) (ss : List Row) → ShownIn r (ss ++ r ∷ [])
ShownIn-last r [] = inl (changed_from_self 0 r.fields)
ShownIn-last r (s ∷ ss) = inr (ShownIn-last r ss)

no_change : (xs : List ℕ) → ltb 0 (length xs) ≡ false → xs ≡ []
no_change [] h = refl
no_change (x ∷ xs) h = ground arith

seen-ShownIn : (r : Row) (ss : List Row) → differs_from_all r ss ≡ false → ShownIn r ss
unfolding differs_from_all
seen-ShownIn r [] h = cc
seen-ShownIn r (s ∷ ss) h = elim (Bool-cases (ltb 0 (length (changed_fields s r)))) [
  | inl e ↦ inr (seen-ShownIn r ss (sym (ap (λ b. b && differs_from_all r ss) e) ∙ h))
  | inr e ↦ inl (no_change (changed_fields s r) e)
]

-- A row is covered once it was grouped.
group_in-IsCovered :
    (r : Row) (o : Option ExportRow) (groups : Dict ExportRow)
    → lookup r.key groups ≡ o
    → IsCovered (group_in r o groups) r
unfolding group_in
group_in-IsCovered r none groups q =
    (_, lookup-insert_self r.key _ groups, inl (changed_from_self 0 r.fields))
group_in-IsCovered r (some g) groups q =
    if_ind (λ gs. IsCovered gs r) (differs_from_all r (g.entry ∷ g.updates))
      (update r.key (push r) groups) groups
      (λ e.
        (push r g, lookup-update_self r.key (push r) groups g q, inr (ShownIn-last r g.updates)))
      (λ e. (g, q, seen-ShownIn r (g.entry ∷ g.updates) e))

-- What was covered stays so.
kept-IsCovered :
    (r s : Row) (o : Option ExportRow) (groups : Dict ExportRow)
    → lookup r.key groups ≡ o
    → IsCovered groups s
    → IsCovered (group_in r o groups) s
unfolding group_in
kept-IsCovered r s none groups q (g, l, h) = (
  g,
  ground (arith, lookup-insert r.key s.key (record { entry = r; updates = [] }) groups, q, l),
  h,
)
kept-IsCovered r s (some f) groups q (g, l, h) =
    if_ind (λ gs. IsCovered gs s) (differs_from_all r (f.entry ∷ f.updates))
      (update r.key (push r) groups) groups
      (λ e. elim (Bool-cases (s.key == r.key)) [
        | inl same ↦ (
          push r g,
          subst (λ k. lookup s.key (update k (push r) groups) ≡ some (push r g)) (ground arith)
              (lookup-update_self s.key (push r) groups g l),
          ShownIn-append s (g.entry ∷ g.updates) (r ∷ []) h,
        )
        | inr apart ↦ (g, lookup-update_ne r.key s.key (push r) groups apart ∙ l, h)
      ])
      (λ e. (g, l, h))

group_all-keeps :
    (rows : List Row) (groups : Dict ExportRow) (s : Row)
    → IsCovered groups s
    → IsCovered (group_all rows groups) s
unfolding group_all
group_all-keeps [] groups s h = h
group_all-keeps (r ∷ rows) groups s h =
    group_all-keeps rows _ s (kept-IsCovered r s (lookup r.key groups) groups refl h)

group_all-All :
    (rows : List Row) (groups : Dict ExportRow) → All (IsCovered (group_all rows groups)) rows
unfolding group_all
group_all-All [] groups = tt
group_all-All (r ∷ rows) groups = (
  group_all-keeps rows _ r (group_in-IsCovered r (lookup r.key groups) groups refl),
  group_all-All rows _,
)

module _ (P : Row → Type 0) where
  put_row-All_back : (r : Row) (rows : List Row) → All P (put_row r rows) → P r × All P rows
  unfolding put_row
  put_row-All_back r [] h = (h.0, tt)
  put_row-All_back r (s ∷ rows) h =
      if_ind (λ ss. All P ss → P r × All P (s ∷ rows)) (leb r.submitted_at s.submitted_at) _ _
        (λ e k. (k.0, k.1)) (λ e k. let b = put_row-All_back r rows k.1 in (b.0, (k.0, b.1))) h

  pub sort_rows-All_back : (rows : List Row) → All P (sort_rows rows) → All P rows
  unfolding sort_rows
  sort_rows-All_back [] h = tt
  sort_rows-All_back (r ∷ rows) h =
      let b = put_row-All_back r (sort_rows rows) h in (b.0, sort_rows-All_back rows b.1)

-- Every submission is covered by the export: the line of its email shows a submission that says the
-- same, as its first or among its updates.
pub group_by_email-IsCovered : (rows : List Row) → All (IsCovered (group_by_email rows)) rows
unfolding group_by_email
group_by_email-IsCovered rows =
    sort_rows-All_back (IsCovered (group_all (sort_rows rows) [])) rows
      (group_all-All (sort_rows rows) [])
