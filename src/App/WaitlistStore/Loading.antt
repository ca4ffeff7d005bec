-- ===== src/App/WaitlistStore/Loading.antt =====
-- `download` and `loadEntries` of app/lib/waitlistStore.ts, and the rows that `GET` of
-- app/app/api/waitlist/route.ts exports. `decode` is the decryption and the parsing of a file.
use collateralized_agents.Base.{
  ℕ, zero, suc, ◌+◌, Option, none, some, List, [], ◌∷◌, map, Dict, ltb, if◌then◌else◌,
}
use collateralized_agents.App.WaitlistExport.{Row, ExportRow, sort_rows, group_by_email}

-- What one `fetch` comes to: a body, the status 404, another status, or an exception.
pub data Fetch : Type 0 where
  fetched : ℕ → Fetch
  not_found refused threw : Fetch

-- A try, and what the tries after it come to.
unfoldable pub after_try : Fetch → Option ℕ → Option ℕ
after_try (fetched body) rest = some body
after_try not_found rest = none
after_try refused rest = rest
after_try threw rest = rest

-- The loop of `download`: `left` tries from the `i`-th on.
unfoldable pub download_from : ℕ → ℕ → (ℕ → Fetch) → Option ℕ
download_from zero i fetches = none
download_from (suc left) i fetches = after_try (fetches i) (download_from left (i + 1) fetches)

abbrev pub attempts : ℕ
attempts = 3

unfoldable pub download : (ℕ → Fetch) → Option ℕ
download fetches = download_from attempts 0 fetches

-- The files that could not be downloaded.
unfoldable pub failed : List (Option ℕ) → ℕ
failed [] = 0
failed (none ∷ texts) = suc (failed texts)
failed (some body ∷ texts) = failed texts

-- A file that cannot be read is skipped.
unfoldable pub read_file : (ℕ → Option Row) → Option ℕ → Option Row
read_file decode none = none
read_file decode (some body) = decode body

-- `results.filter(r => r !== null)`
unfoldable pub readable : List (Option Row) → List Row
readable [] = []
readable (none ∷ results) = readable results
readable (some row ∷ results) = row ∷ readable results

-- `loadEntries`, none when it throws. A file is what its fetches come to.
unfoldable pub load_entries : (ℕ → Option Row) → List (ℕ → Fetch) → Option (List Row)
load_entries decode files =
    let texts = map download files in
    if ltb 0 (failed texts)
    then none
    else some (sort_rows (readable (map (read_file decode) texts)))

-- The rows of an export of the live entries, none when it fails.
unfoldable pub export_rows : (ℕ → Option Row) → List (ℕ → Fetch) → Option (Dict ExportRow)
export_rows decode files = elim (load_entries decode files) [
  | none ↦ none
  | some rows ↦ some (group_by_email rows)
]
