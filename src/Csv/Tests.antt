-- ===== src/Csv/Tests.antt =====
-- A file with a quote, a comma and a line break in its fields.
use whatsapp_os.Prelude.{◌≡◌, refl, List, [], ◌∷◌, none, some, map}
use whatsapp_os.Csv.{
  Text, Field, text_of, comma, quote, line_feed, doubled, escaped, serialize_field, joined,
  serialize_csv_row, serialize_csv,
}
use whatsapp_os.Csv.Parser.{parse_csv}
use whatsapp_os.Csv.RoundTrip.{parse_csv-serialize_csv}

abbrev headers : List Text
headers = (97 ∷ []) ∷ (98 ∷ []) ∷ []

abbrev rows : List (List Field)
rows =
    (some (120 ∷ quote ∷ comma ∷ 121 ∷ []) ∷ none ∷ [])
    ∷ (some (line_feed ∷ []) ∷ some [] ∷ [])
    ∷ []

quotes_are_doubled :
    serialize_csv_row (some (120 ∷ quote ∷ []) ∷ none ∷ [])
    ≡ quote ∷ 120 ∷ quote ∷ quote ∷ quote ∷ comma ∷ []
unfolding serialize_csv_row serialize_field joined escaped doubled
quotes_are_doubled = refl

parse_csv-serialize_csv_example :
    parse_csv (serialize_csv headers rows) ≡ headers ∷ map (map text_of) rows
parse_csv-serialize_csv_example = parse_csv-serialize_csv headers rows refl refl
