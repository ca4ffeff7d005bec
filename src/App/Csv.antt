-- ===== src/App/Csv.antt =====
-- The CSV export of `GET` in app/app/api/waitlist/route.ts. A text is the list of its character codes.
pub mod Read
use collateralized_agents.Base.{
  ℕ, Bool, true, false, ◌||◌, List, [], ◌∷◌, ◌++◌, map, ◌==◌, if◌then◌else◌,
}

abbrev pub Text : Type 0
Text = List ℕ

-- `"`
abbrev pub quote : ℕ
quote = 34

-- `,`
abbrev pub comma : ℕ
comma = 44

-- `\n`
abbrev pub newline : ℕ
newline = 10

-- `'`
abbrev pub apostrophe : ℕ
apostrophe = 39

-- A field of a row: a text, the texts of an array, or none.
pub data Field : Type 0 where
  text : Text → Field
  texts : List Text → Field
  missing : Field

-- What `xs.join(s)` puts after the first element.
abbrev pub join_rest : Text → List Text → Text
join_rest s [] = []
join_rest s (x ∷ xs) = s ++ x ++ join_rest s xs

-- `xs.join(s)`
abbrev pub join : Text → List Text → Text
join s [] = []
join s (x ∷ xs) = x ++ join_rest s xs

-- `String(Array.isArray(v) ? v.join("; ") : v ?? "")`
abbrev pub shown : Field → Text
shown (text s) = s
shown (texts ss) = join (59 ∷ 32 ∷ []) ss
shown missing = []

-- `/^[=+\-@\t\r]/`
unfoldable pub is_formula : Text → Bool
is_formula [] = false
is_formula (c ∷ s) = (c == 61) || (c == 43) || (c == 45) || (c == 64) || (c == 9) || (c == 13)

unfoldable pub defused : Text → Text
defused s = if is_formula s then apostrophe ∷ s else s

-- `s.replace(/"/g, '""')`
unfoldable pub doubled : Text → Text
doubled [] = []
doubled (c ∷ s) = if c == quote then quote ∷ quote ∷ doubled s else c ∷ doubled s

unfoldable pub csv_cell : Field → Text
csv_cell v = quote ∷ doubled (defused (shown v)) ++ (quote ∷ [])

-- A row: the fields of its entry, and the text of `describeUpdates`.
pub record Row : Type 0 where
  pub entry : List Field
  pub updates : Text

abbrev pub cells : Row → List Field
cells r = r.entry ++ (text r.updates ∷ [])

unfoldable pub csv_line : Row → Text
csv_line r = join (comma ∷ []) (map csv_cell (cells r))

-- The file, below the names of its columns.
unfoldable pub csv : List Text → List Row → Text
csv columns rows = join (newline ∷ []) (join (comma ∷ []) columns ∷ map csv_line rows)
