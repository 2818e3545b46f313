-- ===== src/Phone.antt =====
-- lib/phone.ts: phone numbers in E.164. A text is the list of its code units.
pub mod Rules
pub mod Laws
pub mod Spellings
mod Tests
use Prim.Native.String.{String}
use text.Mathlib.Text.{◌==◌ as str_eq}
use whatsapp_os.Prelude.{
  ℕ, zero, suc, ◌-◌, Bool, true, false, not, ◌&&◌, ◌||◌, List, [], ◌∷◌, ◌++◌, Option, none, some,
  length, any, all, filter, find, leb, ltb, ◌==◌, if◌then◌else◌,
}

abbrev pub Text : Type 0
Text = List ℕ

abbrev pub zero_digit : ℕ
zero_digit = 48

abbrev space : ℕ
space = 32

abbrev pub plus : ℕ
plus = 43

abbrev pub is_digit : ℕ → Bool
is_digit c = leb 48 c && leb c 57

pub record CountryRule : Type 0 where
  pub iso2 : String
  pub calling_code : Text
  pub national_prefix : Text
  pub national_number_lengths : List ℕ

abbrev rule : String → Text → Text → List ℕ → CountryRule
rule iso2 code prefix sizes = record {
  iso2 = iso2;
  calling_code = code;
  national_prefix = prefix;
  national_number_lengths = sizes;
}

abbrev pub pk : CountryRule
pk = rule "PK" (57 ∷ 50 ∷ []) (48 ∷ []) (10 ∷ [])

abbrev pub ae : CountryRule
ae = rule "AE" (57 ∷ 55 ∷ 49 ∷ []) (48 ∷ []) (9 ∷ [])

abbrev pub gb : CountryRule
gb = rule "GB" (52 ∷ 52 ∷ []) (48 ∷ []) (10 ∷ [])

abbrev pub us : CountryRule
us = rule "US" (49 ∷ []) (49 ∷ []) (10 ∷ [])

abbrev pub ind : CountryRule
ind = rule "IN" (57 ∷ 49 ∷ []) (48 ∷ []) (10 ∷ [])

abbrev pub sa : CountryRule
sa = rule "SA" (57 ∷ 54 ∷ 54 ∷ []) (48 ∷ []) (9 ∷ [])

abbrev pub country_rules : List CountryRule
country_rules = pk ∷ ae ∷ gb ∷ us ∷ ind ∷ sa ∷ []

-- Longest calling code first; the sort is stable.
abbrev pub rules_by_code_length : List CountryRule
rules_by_code_length = ae ∷ sa ∷ pk ∷ gb ∷ ind ∷ us ∷ []

pub record NormalisedPhone : Type 0 where
  pub e164 : Text
  pub wa_id : Text
  pub country_iso2 : Option String
  pub formatted : Text

abbrev pub is_empty : Text → Bool
is_empty [] = true
is_empty (_ ∷ _) = false

abbrev pub starts_with : Text → Text → Bool
starts_with [] text = true
starts_with (p ∷ ps) [] = false
starts_with (p ∷ ps) (c ∷ cs) = (p == c) && starts_with ps cs

-- `text.slice(n)`.
abbrev pub slice : ℕ → Text → Text
slice zero text = text
slice (suc n) [] = []
slice (suc n) (c ∷ cs) = slice n cs

unfoldable pub digits_only : Text → Text
digits_only = filter is_digit

-- `/^\+[1-9]\d{6,14}$/`.
unfoldable pub is_valid_e164 : Text → Bool
is_valid_e164 [] = false
is_valid_e164 (_ ∷ []) = false
is_valid_e164 (c ∷ (first ∷ rest)) =
    (c == plus)
    && ((leb 49 first && leb first 57)
        && (all is_digit rest && (leb 6 (length rest) && leb (length rest) 14)))

unfoldable pub unknown_country : Text → Option NormalisedPhone
unknown_country bare =
    if is_valid_e164 (plus ∷ bare)
    then some
        (record { e164 = plus ∷ bare; wa_id = bare; country_iso2 = none; formatted = plus ∷ bare })
    else none

-- `text.slice(0, n)`.
abbrev slice_to : ℕ → Text → Text
slice_to zero text = []
slice_to (suc n) [] = []
slice_to (suc n) (c ∷ cs) = c ∷ slice_to n cs

abbrev format_national : Text → Text → Text
format_national calling_code national =
    plus
    ∷ (calling_code
        ++ (space
            ∷ (if leb 9 (length national)
                then slice_to 3 national ++ (space ∷ slice 3 national)
                else national)))

abbrev pub built : CountryRule → Text → NormalisedPhone
built rule national = record {
  e164 = plus ∷ (rule.calling_code ++ national);
  wa_id = rule.calling_code ++ national;
  country_iso2 = some rule.iso2;
  formatted = format_national rule.calling_code national;
}

abbrev pub fits : CountryRule → Text → Bool
fits rule national = any (λ size. length national == size) rule.national_number_lengths

-- Without a trunk prefix that was kept after the country code.
unfoldable pub without_trunk : CountryRule → Text → Text
without_trunk rule national =
    if not (is_empty rule.national_prefix)
      && (starts_with rule.national_prefix national
          && (not (fits rule national)
              && any (λ size. length national - length rule.national_prefix == size)
                  rule.national_number_lengths))
    then slice (length rule.national_prefix) national
    else national

unfoldable pub build_from_international : Text → Option NormalisedPhone
build_from_international bare =
    elim (find (λ rule. starts_with rule.calling_code bare) rules_by_code_length) [
      | none ↦ unknown_country bare
      | some rule ↦
          let national = without_trunk rule (slice (length rule.calling_code) bare) in
          if fits rule national then some (built rule national) else unknown_country bare
    ]

-- A number that is given in the country of the workspace.
unfoldable pub build_national : CountryRule → Text → Option NormalisedPhone
build_national rule bare =
    let after_trunk = slice (length rule.national_prefix) bare in
    let after_code = slice (length rule.calling_code) bare in
    if not (is_empty rule.national_prefix)
      && (starts_with rule.national_prefix bare && fits rule after_trunk)
    then some (built rule after_trunk)
    else if starts_with rule.calling_code bare && fits rule after_code
    then some (built rule after_code)
    else if fits rule bare
    then some (built rule bare)
    else build_from_international bare

-- Of a text that is trimmed already.
unfoldable pub normalise_phone : Text → String → Option NormalisedPhone
normalise_phone trimmed default_country =
    let has_access_prefix = starts_with (zero_digit ∷ zero_digit ∷ []) trimmed in
    let had_plus = starts_with (plus ∷ []) trimmed || has_access_prefix in
    let bare = digits_only (if has_access_prefix then slice 2 trimmed else trimmed) in
    let size = length bare in
    if ltb size 6 || ltb 15 size
    then none
    else if had_plus
    then build_from_international bare
    else elim (find (λ rule. str_eq rule.iso2 default_country) country_rules) [
      | none ↦ build_from_international bare
      | some rule ↦ build_national rule bare
    ]
