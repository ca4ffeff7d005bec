-- ===== src/App/WaitlistStore/Complete.antt =====
-- The export of app/app/api/waitlist/route.ts is never silently partial.
use collateralized_agents.Base.{
  ℕ, ◌<◌, false, ◌≡◌, refl, Option, none, some, List, [], ◌∷◌, map, All, Dict, ltb, ltb→lt, if_ind,
  inl, inr, ◌⊎◌, arith,
}
use collateralized_agents.App.WaitlistExport.{Row, ExportRow, sort_rows, group_by_email}
use collateralized_agents.App.WaitlistExport.Covered.{
  IsCovered, group_by_email-IsCovered, sort_rows-All_back,
}
use collateralized_agents.App.WaitlistStore.Loading.{
  Fetch, download, failed, read_file, readable, load_entries, export_rows,
}

-- A file whose first three fetches bring nothing.
abbrev pub IsLost : (ℕ → Fetch) → Type 0
IsLost file = download file ≡ none

-- One of the files is lost.
abbrev pub OneIsLost : List (ℕ → Fetch) → Type 0
OneIsLost [] = ⊥
OneIsLost (file ∷ files) = IsLost file ⊎ OneIsLost files

-- A file that was downloaded, and that is not readable or whose entry satisfies `P`.
abbrev pub IsRead : (ℕ → Option Row) → (Row → Type 0) → (ℕ → Fetch) → Type 0
IsRead decode P file =
    (body : ℕ) × (download file ≡ some body)
    × ((decode body ≡ none) ⊎ ((row : Row) × (decode body ≡ some row) × P row))

lost : (files : List (ℕ → Fetch)) → 0 < failed (map download files) → OneIsLost files
unfolding failed
lost [] h = absurd (omega (arith, h))
lost (file ∷ files) h = by (download file) refl h (lost files)
  where
    by :
        (o : Option ℕ)
        → download file ≡ o
        → 0 < failed (o ∷ map download files)
        → (0 < failed (map download files) → OneIsLost files)
        → OneIsLost (file ∷ files)
    by none e h k = inl e
    by (some body) e h k = inr (k h)

module _ (decode : ℕ → Option Row) (P : Row → Type 0) where
  -- What a downloaded file adds to the entries.
  decoded :
      (file : ℕ → Fetch) (results : List (Option Row)) (body : ℕ) (r : Option Row)
      → download file ≡ some body
      → decode body ≡ r
      → All P (readable (r ∷ results))
      → IsRead decode P file × All P (readable results)
  unfolding readable
  decoded file results body none e f h = ((body, e, inl f), h)
  decoded file results body (some row) e f h = ((body, e, inr (row, f, h.0)), h.1)

  read :
      (files : List (ℕ → Fetch))
      → ltb 0 (failed (map download files)) ≡ false
      → All P (readable (map (read_file decode) (map download files)))
      → All (IsRead decode P) files
  unfolding failed read_file readable
  read [] z h = tt
  read (file ∷ files) z h = by (download file) refl z h (read files)
    where
      by :
          (o : Option ℕ)
          → download file ≡ o
          → ltb 0 (failed (o ∷ map download files)) ≡ false
          → All P (readable (read_file decode o ∷ map (read_file decode) (map download files)))
          → (ltb 0 (failed (map download files)) ≡ false
              → All P (readable (map (read_file decode) (map download files)))
              → All (IsRead decode P) files)
          → All (IsRead decode P) (file ∷ files)
      by none e z h k = absurd (ground (arith, z))
      by (some body) e z h k =
          let x =
            decoded file (map (read_file decode) (map download files)) body (decode body) e refl
              h in
          (x.0, k z x.1)

-- The export fails, and then one of the files could not be downloaded, or every file was downloaded and every
-- entry that is readable is covered by the export: the line of its email shows a submission that says the same.
pub export_rows_lem :
    (decode : ℕ → Option Row) (files : List (ℕ → Fetch))
    → ((export_rows decode files ≡ none) × OneIsLost files)
      ⊎ ((groups : Dict ExportRow) × (export_rows decode files ≡ some groups)
          × All (IsRead decode (IsCovered groups)) files)
unfolding export_rows load_entries
export_rows_lem decode files =
    let rows = readable (map (read_file decode) (map download files)) in
    let groups = group_by_email (sort_rows rows) in
    if_ind
      (λ o.
        ((elim o [ none ↦ none | some rs ↦ some (group_by_email rs) ] ≡ none) × OneIsLost files)
        ⊎ ((gs : Dict ExportRow) × (elim o [ none ↦ none | some rs ↦ some (group_by_email rs) ]
              ≡ some gs)
            × All (IsRead decode (IsCovered gs)) files))
      (ltb 0 (failed (map download files))) none (some (sort_rows rows))
      (λ e. inl (refl, lost files (ltb→lt _ _ e)))
      (λ e. inr (
        groups,
        refl,
        read decode (IsCovered groups) files e (
            sort_rows-All_back (IsCovered groups) rows (group_by_email-IsCovered (sort_rows rows))),
      ))
