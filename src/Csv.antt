-- ===== src/Csv.antt =====
-- lib/csv.ts: rows of texts as comma-separated values. A text is the list of its code units.
pub mod Parser
pub mod RoundTrip
mod Tests
use whatsapp_os.Prelude.{
  ℕ, Bool, true, false, ◌||◌, List, [], ◌∷◌, ◌++◌, Option, none, some, any, map, ◌==◌,
  if◌then◌else◌,
}

abbrev pub Text : Type 0
Text = List ℕ

abbrev pub comma : ℕ
comma = 44

abbrev pub quote : ℕ
quote = 34

abbrev pub line_feed : ℕ
line_feed = 10

abbrev pub carriage_return : ℕ
carriage_return = 13

abbrev pub is_special : ℕ → Bool
is_special c = (c == comma) || ((c == quote) || ((c == line_feed) || (c == carriage_return)))

-- `str.replace(/"/g, '""')`.
unfoldable pub doubled : Text → Text
doubled [] = []
doubled (c ∷ cs) = let rest = doubled cs in if c == quote then quote ∷ quote ∷ rest else c ∷ rest

unfoldable pub escaped : Text → Text
escaped text = if any is_special text then quote ∷ (doubled text ++ (quote ∷ [])) else text

-- What `String(field)` gives, none for null and undefined.
abbrev pub Field : Type 0
Field = Option Text

abbrev pub text_of : Field → Text
text_of none = []
text_of (some text) = text

unfoldable pub serialize_field : Field → Text
serialize_field none = []
serialize_field (some text) = escaped text

-- `join`.
unfoldable pub joined : Text → List Text → Text
joined separator [] = []
joined separator (text ∷ []) = text
joined separator (text ∷ (next ∷ texts)) = text ++ (separator ++ joined separator (next ∷ texts))

unfoldable pub serialize_csv_row : List Field → Text
serialize_csv_row fields = joined (comma ∷ []) (map serialize_field fields)

unfoldable pub serialize_csv : List Text → List (List Field) → Text
serialize_csv headers rows =
    joined (carriage_return ∷ line_feed ∷ [])
      (serialize_csv_row (map some headers) ∷ map serialize_csv_row rows)
