-- ===== src/App/Tests/Exporting.antt =====
-- The theorems on the storage and the export of app/app/api/waitlist/route.ts at concrete inputs.
use collateralized_agents.Base.{
  true, ℕ, Option, none, Dict, ltb, ◌==◌, if◌then◌else◌, ◌⊎◌, refl, ◌≡◌, some, List, [], ◌∷◌, ◌++◌,
  map, All, lookup,
}
use collateralized_agents.App.Csv.{Text, comma, text, texts, missing, Row, join, csv}
use collateralized_agents.App.Csv.Read.{after, parse, lines_of, IsSafe, values, parse-csv}
use collateralized_agents.App.WaitlistStore.{
  Store, stored, Reply, save_entry, after_first, put_first, put_beside, put_later,
}
use collateralized_agents.App.WaitlistExport as Waitlist
use collateralized_agents.App.WaitlistExport.{ExportRow}
use collateralized_agents.App.WaitlistExport.Covered.{IsCovered}
use collateralized_agents.App.WaitlistStore.Loading.{Fetch, fetched, threw, export_rows}
use collateralized_agents.App.WaitlistStore.Complete.{OneIsLost, IsRead, export_rows_lem}
use collateralized_agents.App.WaitlistStore.Saved.{Fails, Saves, save_entry-Saves}

-- A formula, a quote, a comma and a line end in the fields.
abbrev awkward : List Row
awkward =
    record {
      entry = text (61 ∷ 49 ∷ []) ∷ texts ((34 ∷ []) ∷ (44 ∷ 10 ∷ []) ∷ []) ∷ missing ∷ [];
      updates = [];
    }
    ∷ []

abbrev columns : List Text
columns = (97 ∷ []) ∷ (98 ∷ []) ∷ []

parse-csv_example :
    (body : Text) × (csv columns awkward ≡ join (comma ∷ []) columns ++ body)
    × (lines_of (parse after body) ≡ some (map values awkward))
    × All (All IsSafe) (map values awkward)
parse-csv_example = parse-csv columns awkward

-- The email has an entry, so this one goes beside it.
abbrev one_entry : Store
one_entry = record { firsts = (7, 40) ∷ []; later = [] }

abbrev undisturbed : Reply
undisturbed = record {
  first = stored;
  head = true;
  second = stored;
  before_head = λ s. s;
  before_second = λ s. s;
}

save_entry-Saves_example :
    Saves (Fails undisturbed) 7 41 one_entry (save_entry undisturbed 7 41 one_entry)
save_entry-Saves_example =
    save_entry-Saves undisturbed 7 41 one_entry (λ t. (λ id b h. h, λ id b h. h))
      (λ t. (λ id b h. h, λ id b h. h))

save_entry_beside :
    save_entry undisturbed 7 41 one_entry ≡ (true, record one_entry { later = (7, 41) ∷ [] })
unfolding save_entry after_first put_first lookup put_beside put_later
save_entry_beside = refl

-- The second file comes at the third try, and the third never does.
abbrev replies : List (ℕ → Fetch)
replies = (λ i. fetched 5) ∷ (λ i. if ltb i 2 then threw else fetched 6) ∷ (λ i. threw) ∷ []

abbrev decode : ℕ → Option Waitlist.Row
decode body =
    if body == 6 then none else some (record { key = 1; submitted_at = body; fields = [] })

export_rows_lem_example :
    ((export_rows decode replies ≡ none) × OneIsLost replies)
    ⊎ ((groups : Dict ExportRow) × (export_rows decode replies ≡ some groups)
        × All (IsRead decode (IsCovered groups)) replies)
export_rows_lem_example = export_rows_lem decode replies
