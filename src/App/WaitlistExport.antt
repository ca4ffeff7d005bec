-- ===== src/App/WaitlistExport.antt =====
-- `groupByEmail` of app/lib/waitlistExport.ts. A row's `key` is its trimmed email in lower case,
-- or its id; `fields` are the texts of its other fields, in the source's order, and times are
-- compared as texts.
pub mod Covered
use collateralized_agents.Base.{
  ℕ, zero, suc, ◌+◌, Bool, true, false, not, ◌&&◌, ◌==◌, Option, none, some, List, [], ◌∷◌, ◌++◌,
  map, length, Dict, lookup, insert, update, ltb, leb, if◌then◌else◌,
}

pub record Row : Type 0 where
  pub key : ℕ
  pub submitted_at : ℕ
  pub fields : List ℕ

pub record ExportRow : Type 0 where
  pub entry : Row
  pub updates : List Row

-- The numbers of the fields that differ; both rows have the same fields.
unfoldable pub changed_from : ℕ → List ℕ → List ℕ → List ℕ
changed_from n [] ys = []
changed_from n (x ∷ xs) [] = []
changed_from n (x ∷ xs) (y ∷ ys) =
    let rest = changed_from (suc n) xs ys in if x == y then rest else n ∷ rest

abbrev pub changed_fields : Row → Row → List ℕ
changed_fields a b = changed_from 0 a.fields b.fields

-- `every(seen => changedFields(seen, r).length > 0)`
unfoldable pub differs_from_all : Row → List Row → Bool
differs_from_all r [] = true
differs_from_all r (s ∷ seen) = ltb 0 (length (changed_fields s r)) && differs_from_all r seen

abbrev pub push : Row → ExportRow → ExportRow
push r g = record g { updates = g.updates ++ r ∷ [] }

unfoldable pub group_in : Row → Option ExportRow → Dict ExportRow → Dict ExportRow
group_in r none groups = insert r.key (record { entry = r; updates = [] }) groups
group_in r (some g) groups =
    if differs_from_all r (g.entry ∷ g.updates) then update r.key (push r) groups else groups

unfoldable pub group_all : List Row → Dict ExportRow → Dict ExportRow
group_all [] groups = groups
group_all (r ∷ rows) groups = group_all rows (group_in r (lookup r.key groups) groups)

-- The stable sort by the time of submission.
unfoldable pub put_row : Row → List Row → List Row
put_row r [] = r ∷ []
put_row r (s ∷ rows) =
    if leb r.submitted_at s.submitted_at then r ∷ s ∷ rows else s ∷ put_row r rows

unfoldable pub sort_rows : List Row → List Row
sort_rows [] = []
sort_rows (r ∷ rows) = put_row r (sort_rows rows)

unfoldable pub group_by_email : List Row → Dict ExportRow
group_by_email rows = group_all (sort_rows rows) []
