-- ===== src/Csv/RoundTrip.antt =====
-- Reading what was written gives the texts back.
use whatsapp_os.Prelude.{
  ◌≡◌, refl, Bool, true, false, ◌||◌, List, [], ◌∷◌, ◌++◌, none, some, any, all, map, arith, ◌==◌,
  Bool-cases, inl, inr, ◌∙◌, ap, sym,
}
use whatsapp_os.Csv.{
  Text, comma, quote, line_feed, carriage_return, is_special, doubled, escaped, Field, text_of,
  serialize_field, joined, serialize_csv_row, serialize_csv,
}
use whatsapp_os.Csv.Parser.{
  start, bare, quoted, closing, Parsed, push, new_field, parse_from, all_rows, parse_csv,
}

-- A text before what is read next.
abbrev prepend : Text → Parsed → Parsed
prepend text rest = record rest { field = text ++ rest.field }

++_assoc : (xs ys zs : Text) → ((xs ++ ys) ++ zs) ≡ (xs ++ (ys ++ zs))
++_assoc [] ys zs = refl
++_assoc (x ∷ xs) ys zs = ap (λ rest. x ∷ rest) (++_assoc xs ys zs)

-- What follows a field: a comma, a carriage return or the end.
abbrev is_end : Text → Bool
is_end [] = true
is_end (c ∷ cs) = (c == comma) || (c == carriage_return)

parse_bare :
    (text follow : Text)
    → any is_special text ≡ false
    → parse_from bare (text ++ follow) ≡ prepend text (parse_from bare follow)
unfolding parse_from
parse_bare [] follow plain = refl
parse_bare (c ∷ cs) follow plain =
    let rest = parse_bare cs follow (ground arith) in ground (arith, rest, plain)

parse_quoted :
    (text follow : Text)
    → parse_from quoted (doubled text ++ (quote ∷ follow))
      ≡ prepend text (parse_from closing follow)
unfolding parse_from doubled
parse_quoted [] follow = refl
parse_quoted (c ∷ cs) follow =
    let rest = parse_quoted cs follow in
    elim (Bool-cases (c == quote)) [
      | inl is_quote ↦
          let same : quote ≡ c = ground arith in
          rw is_quote (
            ap (push quote) rest
            ∙ ap (λ first. push first (prepend cs (parse_from closing follow))) same)
      | inr other ↦ rw other (rw other (ap (push c) rest))
    ]

end_start :
    (follow : Text) → is_end follow ≡ true → parse_from start follow ≡ parse_from bare follow
unfolding parse_from
end_start [] stop = refl
end_start (c ∷ cs) stop = ground arith

end_closing :
    (follow : Text) → is_end follow ≡ true → parse_from closing follow ≡ parse_from bare follow
unfolding parse_from
end_closing [] stop = refl
end_closing (c ∷ cs) stop = ground arith

parse_opened :
    (text follow : Text)
    → is_end follow ≡ true
    → parse_from start (quote ∷ (doubled text ++ (quote ∷ follow)))
      ≡ prepend text (parse_from bare follow)
unfolding parse_from
parse_opened text follow stop =
    parse_quoted text follow ∙ ap (prepend text) (end_closing follow stop)

parse_plain :
    (text follow : Text)
    → is_end follow ≡ true
    → any is_special text ≡ false
    → parse_from start (text ++ follow) ≡ prepend text (parse_from bare follow)
unfolding parse_from
parse_plain [] follow stop plain = end_start follow stop
parse_plain (c ∷ cs) follow stop plain =
    let rest = parse_bare cs follow (ground arith) in ground (arith, rest, plain)

-- A field, however it is written, and what follows it.
parse_escaped :
    (text follow : Text)
    → is_end follow ≡ true
    → parse_from start (escaped text ++ follow) ≡ prepend text (parse_from bare follow)
unfolding escaped
parse_escaped text follow stop = elim (Bool-cases (any is_special text)) [
  | inl special ↦
      rw (escaped, special)
        (ap (parse_from start)
            (ap (λ rest. quote ∷ rest) (++_assoc (doubled text) (quote ∷ []) follow))
          ∙ parse_opened text follow stop)
  | inr plain ↦ rw (escaped, plain) (parse_plain text follow stop plain)
]

parse_field :
    (field : Field) (follow : Text)
    → is_end follow ≡ true
    → parse_from start (serialize_field field ++ follow)
      ≡ prepend (text_of field) (parse_from bare follow)
unfolding serialize_field
parse_field none follow stop = end_start follow stop
parse_field (some text) follow stop = parse_escaped text follow stop

++_nil : (xs : Text) → (xs ++ []) ≡ xs
++_nil [] = refl
++_nil (x ∷ xs) = ap (λ rest. x ∷ rest) (++_nil xs)

prepend_nil :
    (text : Text) (fields : List Text) (rows : List (List Text))
    → prepend text (record { field = []; fields = fields; rows = rows })
      ≡ record { field = text; fields = fields; rows = rows }
prepend_nil text fields rows =
    ap (λ field. record { field = field; fields = fields; rows = rows }) (++_nil text)

text_of-some : (texts : List Text) → map text_of (map some texts) ≡ texts
text_of-some [] = refl
text_of-some (text ∷ texts) = ap (λ rest. text ∷ rest) (text_of-some texts)

-- A row, and what follows it: the end, or a line break.
parse_row :
    (field : Field) (fields : List Field) (follow : Text) (rows : List (List Text))
    → is_end follow ≡ true
    → parse_from bare follow ≡ record { field = []; fields = []; rows = rows }
    → parse_from start (joined (comma ∷ []) (map serialize_field (field ∷ fields)) ++ follow)
      ≡ record { field = text_of field; fields = map text_of fields; rows = rows }
unfolding joined parse_from
parse_row field [] follow rows stop after =
    parse_field field follow stop
    ∙ ap (prepend (text_of field)) after
    ∙ prepend_nil (text_of field) [] rows
parse_row field (next ∷ fields) follow rows stop after =
    let later = parse_row next fields follow rows stop after in
    let others = joined (comma ∷ []) (map serialize_field (next ∷ fields)) in
    ap (parse_from start) (++_assoc (serialize_field field) (comma ∷ others) follow)
    ∙ parse_field field (comma ∷ (others ++ follow)) refl
    ∙ ap (λ rest. prepend (text_of field) (new_field rest)) later
    ∙ prepend_nil (text_of field) (text_of next ∷ map text_of fields) rows

abbrev line_break : Text
line_break = carriage_return ∷ line_feed ∷ []

-- A row that has a field.
abbrev pub is_row : List Field → Bool
is_row [] = false
is_row (field ∷ fields) = true

-- The rows of a file, from its first row on.
parse_rows :
    (first : List Field) (rows : List (List Field))
    → is_row first ≡ true
    → all is_row rows ≡ true
    → all_rows (parse_from start (joined line_break (map serialize_csv_row (first ∷ rows))))
      ≡ map (map text_of) (first ∷ rows)
unfolding joined serialize_csv_row parse_from
parse_rows [] rows first_full full = cc
parse_rows (field ∷ fields) [] first_full full =
    ap (λ text. all_rows (parse_from start text))
      (sym (++_nil (joined (comma ∷ []) (map serialize_field (field ∷ fields)))))
    ∙ ap all_rows (parse_row field fields [] [] refl refl)
parse_rows (field ∷ fields) (next ∷ rows) first_full full =
    let later = parse_rows next rows (ground arith) (ground arith) in
    let follow = line_break ++ joined line_break (map serialize_csv_row (next ∷ rows)) in
    ap all_rows (
      parse_row field fields follow (map (map text_of) (next ∷ rows)) refl
        (ap (λ read. record { field = []; fields = []; rows = read }) later))

-- A file that is written and read again has its headers and the texts of its fields, row by row, if
-- the headers and each row have a field; null and undefined come back as the empty text.
pub parse_csv-serialize_csv :
    (headers : List Text) (rows : List (List Field))
    → is_row (map some headers) ≡ true
    → all is_row rows ≡ true
    → parse_csv (serialize_csv headers rows) ≡ headers ∷ map (map text_of) rows
unfolding parse_csv serialize_csv
parse_csv-serialize_csv headers rows headed full =
    parse_rows (map some headers) rows headed full
    ∙ ap (λ first. first ∷ map (map text_of) rows) (text_of-some headers)
