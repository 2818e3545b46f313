-- ===== src/Csv/Parser.antt =====
-- A reader of RFC 4180: an automaton over the code units, which does not look at how they were
-- written.
use whatsapp_os.Prelude.{ℕ, List, [], ◌∷◌, ◌==◌, if◌then◌else◌}
use whatsapp_os.Csv.{Text, comma, quote, line_feed, carriage_return}

-- Where the reader is: at the start of a field, in a bare or a quoted one, after a quote inside a
-- quoted one, or after a carriage return.
pub data Mode : Type 0 where
  start bare quoted closing ending : Mode

-- The texts from a place on: what is left of the field, of the row, and the rows after it.
pub record Parsed : Type 0 where
  pub field : Text
  pub fields : List Text
  pub rows : List (List Text)

abbrev pub push : ℕ → Parsed → Parsed
push c rest = record rest { field = c ∷ rest.field }

abbrev pub new_field : Parsed → Parsed
new_field rest = record { field = []; fields = rest.field ∷ rest.fields; rows = rest.rows }

abbrev pub new_row : Parsed → Parsed
new_row rest = record { field = []; fields = []; rows = (rest.field ∷ rest.fields) ∷ rest.rows }

abbrev pub next_mode : Mode → ℕ → Mode
next_mode quoted c = if c == quote then closing else quoted
next_mode ending c = if c == line_feed then start else bare
next_mode start c =
    if c == quote
    then quoted
    else if c == comma
    then start
    else if c == carriage_return
    then ending
    else bare
next_mode closing c =
    if c == quote
    then quoted
    else if c == comma
    then start
    else if c == carriage_return
    then ending
    else bare
next_mode bare c = if c == comma then start else if c == carriage_return then ending else bare

abbrev pub emit : Mode → ℕ → Parsed → Parsed
emit quoted c rest = if c == quote then rest else push c rest
emit ending c rest = if c == line_feed then new_row rest else push c rest
emit start c rest =
    if c == quote
    then rest
    else if c == comma
    then new_field rest
    else if c == carriage_return
    then rest
    else push c rest
emit closing c rest =
    if c == comma then new_field rest else if c == carriage_return then rest else push c rest
emit bare c rest =
    if c == comma then new_field rest else if c == carriage_return then rest else push c rest

unfoldable pub parse_from : Mode → Text → Parsed
parse_from mode [] = record { field = []; fields = []; rows = [] }
parse_from mode (c ∷ cs) = let rest = parse_from (next_mode mode c) cs in emit mode c rest

abbrev pub all_rows : Parsed → List (List Text)
all_rows parsed = (parsed.field ∷ parsed.fields) ∷ parsed.rows

unfoldable pub parse_csv : Text → List (List Text)
parse_csv text = all_rows (parse_from start text)
