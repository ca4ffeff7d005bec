-- ===== src/App/Csv/Read.antt =====
-- The CSV export of app/app/api/waitlist/route.ts against a reader of quoted CSV.
use collateralized_agents.Base.{
  ℕ, Bool, true, false, ◌≡◌, refl, sym, ap, ◌∙◌, subst, Option, none, some, List, [], ◌∷◌, ◌++◌,
  map, All, ◌==◌, ==_iff, if◌then◌else◌, if_ind,
}
use collateralized_agents.App.Csv.{
  Text, quote, comma, newline, apostrophe, Field, text, join_rest, join, shown, is_formula, defused,
  doubled, csv_cell, Row, cells, csv_line, csv,
}

-- Where the reader stands: before a cell, in its quotes, or after a quote.
pub data Place : Type 0 where
  opening inside after : Place

-- The rest of a cell, the cells that follow it on its line, and the lines that follow.
abbrev pub Parsed : Type 0
Parsed = Text × List Text × List (List Text)

abbrev pub with_char : ℕ → Option Parsed → Option Parsed
with_char c none = none
with_char c (some (s, cells, lines)) = some (c ∷ s, cells, lines)

abbrev pub next_cell : Option Parsed → Option Parsed
next_cell none = none
next_cell (some (s, cells, lines)) = some ([], s ∷ cells, lines)

abbrev pub next_line : Option Parsed → Option Parsed
next_line none = none
next_line (some (s, cells, lines)) = some ([], [], (s ∷ cells) ∷ lines)

abbrev pub next_place : Place → ℕ → Place
next_place opening c = inside
next_place inside c = if c == quote then after else inside
next_place after c = if c == quote then inside else opening

abbrev pub take_char : Place → ℕ → Option Parsed → Option Parsed
take_char opening c r = if c == quote then r else none
take_char inside c r = if c == quote then r else with_char c r
take_char after c r =
    if c == quote
    then with_char quote r
    else if c == comma
    then next_cell r
    else if c == newline
    then next_line r
    else none

-- A reader of cells that all stand in quotes, a quote in a cell being written twice.
abbrev pub parse : Place → Text → Option Parsed
parse after [] = some ([], [], [])
parse _ [] = none
parse p (c ∷ s) = take_char p c (parse (next_place p c) s)

-- The lines below the first.
abbrev pub lines_of : Option Parsed → Option (List (List Text))
lines_of none = none
lines_of (some (s, cells, lines)) = some lines

abbrev pub values : Row → List Text
values r = map (λ v. defused (shown v)) (cells r)

append_assoc : {A : Type 0} (xs ys zs : List A) → (xs ++ ys) ++ zs ≡ xs ++ (ys ++ zs)
append_assoc [] ys zs = refl
append_assoc (x ∷ xs) ys zs = ap (λ l. x ∷ l) (append_assoc xs ys zs)

parse_char :
    (c : ℕ) (d k t : Text) (cs : List Text) (ls : List (List Text))
    → parse inside (d ++ k) ≡ some (t, cs, ls)
    → (b : Bool) → (c == quote) ≡ b
    → parse inside ((if b then quote ∷ quote ∷ d else c ∷ d) ++ k) ≡ some (c ∷ t, cs, ls)
parse_char c d k t cs ls h true e =
    ap (with_char quote) h ∙ ap (λ x. some (x ∷ t, cs, ls)) (sym ((==_iff c quote).0 e))
parse_char c d k t cs ls h false e =
    subst
      (λ b.
        (if b
          then parse (if b then after else inside) (d ++ k)
          else with_char c (parse (if b then after else inside) (d ++ k)))
        ≡ some (c ∷ t, cs, ls))
      (sym e) (ap (with_char c) h)

-- The quotes of a cell close where what follows is no quote.
parse-doubled :
    (t k : Text) (cs : List Text) (ls : List (List Text))
    → parse after k ≡ some ([], cs, ls)
    → parse inside (doubled t ++ (quote ∷ k)) ≡ some (t, cs, ls)
unfolding doubled
parse-doubled [] k cs ls h = h
parse-doubled (c ∷ t) k cs ls h =
    parse_char c (doubled t) (quote ∷ k) t cs ls (parse-doubled t k cs ls h) (c == quote) refl

parse-csv_cell :
    (v : Field) (k : Text) (cs : List Text) (ls : List (List Text))
    → parse after k ≡ some ([], cs, ls)
    → parse opening (csv_cell v ++ k) ≡ some (defused (shown v), cs, ls)
unfolding csv_cell
parse-csv_cell v k cs ls h =
    ap (parse inside) (append_assoc (doubled (defused (shown v))) (quote ∷ []) k)
    ∙ parse-doubled (defused (shown v)) k cs ls h

-- The cells after the first of a line.
parse-join_rest :
    (vs : List Field) (k : Text) (ls : List (List Text))
    → parse after k ≡ some ([], [], ls)
    → parse after (join_rest (comma ∷ []) (map csv_cell vs) ++ k)
      ≡ some ([], map (λ v. defused (shown v)) vs, ls)
parse-join_rest [] k ls h = h
parse-join_rest (v ∷ vs) k ls h =
    ap (λ s. next_cell (parse opening s))
      (append_assoc (csv_cell v) (join_rest (comma ∷ []) (map csv_cell vs)) k)
    ∙ ap next_cell (
        parse-csv_cell v (join_rest (comma ∷ []) (map csv_cell vs) ++ k) _ _
          (parse-join_rest vs k ls h))

parse-join :
    (v : Field) (vs : List Field) (k : Text) (ls : List (List Text))
    → parse after k ≡ some ([], [], ls)
    → parse opening (join (comma ∷ []) (map csv_cell (v ∷ vs)) ++ k)
      ≡ some (defused (shown v), map (λ w. defused (shown w)) vs, ls)
parse-join v vs k ls h =
    ap (parse opening) (append_assoc (csv_cell v) (join_rest (comma ∷ []) (map csv_cell vs)) k)
    ∙ parse-csv_cell v (join_rest (comma ∷ []) (map csv_cell vs) ++ k) _ _
        (parse-join_rest vs k ls h)

parse-csv_line :
    (r : Row) (k : Text) (ls : List (List Text))
    → parse after k ≡ some ([], [], ls)
    → next_line (parse opening (csv_line r ++ k)) ≡ some ([], [], values r ∷ ls)
unfolding csv_line
parse-csv_line r k ls h = by r.entry
  where
    by :
        (vs : List Field)
        → next_line
            (parse opening (join (comma ∷ []) (map csv_cell (vs ++ (text r.updates ∷ []))) ++ k))
          ≡ some ([], [], map (λ v. defused (shown v)) (vs ++ (text r.updates ∷ [])) ∷ ls)
    by [] = ap next_line (parse-join (text r.updates) [] k ls h)
    by (v ∷ vs) = ap next_line (parse-join v (vs ++ (text r.updates ∷ [])) k ls h)

parse-lines :
    (rows : List Row)
    → parse after (join_rest (newline ∷ []) (map csv_line rows)) ≡ some ([], [], map values rows)
parse-lines [] = refl
parse-lines (r ∷ rows) =
    parse-csv_line r (join_rest (newline ∷ []) (map csv_line rows)) _ (parse-lines rows)

-- It starts no formula of a spreadsheet.
abbrev pub IsSafe : Text → Type 0
IsSafe s = is_formula s ≡ false

apostrophe-IsSafe : (s : Text) → IsSafe (apostrophe ∷ s)
unfolding is_formula
apostrophe-IsSafe s = refl

defused-IsSafe : (s : Text) → is_formula (defused s) ≡ false
unfolding defused
defused-IsSafe s =
    if_ind IsSafe (is_formula s) (apostrophe ∷ s) s (λ e. apostrophe-IsSafe s) (λ e. e)

values-IsSafe : (vs : List Field) → All IsSafe (map (λ v. defused (shown v)) vs)
values-IsSafe [] = tt
values-IsSafe (v ∷ vs) = (defused-IsSafe (shown v), values-IsSafe vs)

rows-IsSafe : (rows : List Row) → All (All IsSafe) (map values rows)
rows-IsSafe [] = tt
rows-IsSafe (r ∷ rows) = (values-IsSafe (cells r), rows-IsSafe rows)

-- The export is the line of its columns and then a text from which a reader of quoted CSV gets back every
-- cell of every row, in order, whatever quotes, commas and line ends the fields hold: the text of the field,
-- with an apostrophe before it when it would start a formula. No cell that is read back starts a formula.
pub parse-csv :
    (columns : List Text) (rows : List Row)
    → (body : Text) × (csv columns rows ≡ join (comma ∷ []) columns ++ body)
      × (lines_of (parse after body) ≡ some (map values rows))
      × All (All IsSafe) (map values rows)
unfolding csv
parse-csv columns rows = (
  join_rest (newline ∷ []) (map csv_line rows),
  refl,
  ap lines_of (parse-lines rows),
  rows-IsSafe rows,
)
