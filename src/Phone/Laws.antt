-- ===== src/Phone/Laws.antt =====
-- What a normalised number is: valid, and normalised again to itself.
use Prim.Native.String.{String}
use text.Mathlib.Text.{◌==◌ as str_eq}
use whatsapp_os.Prelude.{
  ℕ, suc, ◌≡◌, refl, Bool, true, false, not, ◌&&◌, ◌||◌, [], ◌∷◌, Option, none, some, length, all,
  filter, find, leb, ltb, arith, if◌then◌else◌, Bool-cases, Option-cases, inl, inr, ◌∙◌, sym, ap,
  zero, or_else,
}
use mathlib.Core.Path.{subst}
use whatsapp_os.Phone.{
  Text, plus, is_empty, zero_digit, is_digit, CountryRule, country_rules, rules_by_code_length,
  NormalisedPhone, starts_with, slice, digits_only, is_valid_e164, unknown_country, built, fits,
  without_trunk, build_from_international, build_national, normalise_phone,
}
use whatsapp_os.Phone.Rules.{
  IsSettled, Settles, find-AllOf, country_rules-AllSettle, rules_by_code_length-AllSettle,
}

all-slice : (n : ℕ) (text : Text) → all is_digit text ≡ true → all is_digit (slice n text) ≡ true
all-slice zero text digits = digits
all-slice (suc n) [] digits = refl
all-slice (suc n) (c ∷ cs) digits = all-slice n cs (ground arith)

all-filter : (text : Text) → all is_digit (filter is_digit text) ≡ true
all-filter [] = refl
all-filter (c ∷ cs) = ground (arith, all-filter cs)

filter-all : (text : Text) → all is_digit text ≡ true → filter is_digit text ≡ text
filter-all [] digits = refl
filter-all (c ∷ cs) digits = ground (arith, filter-all cs, digits)

absurd_none : {phone : NormalisedPhone} → none ≡ some phone → IsSettled phone
absurd_none same = cc

unknown_country-IsSettled :
    (bare : Text) (phone : NormalisedPhone)
    → all is_digit bare ≡ true
    → build_from_international bare ≡ unknown_country bare
    → unknown_country bare ≡ some phone
    → IsSettled phone
unfolding unknown_country is_valid_e164
unknown_country-IsSettled [] phone digits same made = cc
unknown_country-IsSettled (c ∷ cs) phone digits same made =
    let plain : NormalisedPhone = record {
      e164 = plus ∷ c ∷ cs;
      wa_id = c ∷ cs;
      country_iso2 = none;
      formatted = plus ∷ c ∷ cs;
    } in
    elim (Bool-cases (is_valid_e164 (plus ∷ c ∷ cs))) [
      | inr invalid ↦
          let refused : unknown_country (c ∷ cs) ≡ none = rw (unknown_country, invalid) refl in
          absurd_none (sym refused ∙ made)
      | inl valid ↦
          let kept : unknown_country (c ∷ cs) ≡ some plain = rw (unknown_country, valid) refl in
          subst IsSettled (ap (λ o. or_else o plain) (sym kept ∙ made))
            ((valid, refl, digits, ground (arith, valid), ground (arith, valid), same ∙ kept))
    ]

without_trunk-all :
    (rule : CountryRule) (national : Text)
    → all is_digit national ≡ true
    → all is_digit (without_trunk rule national) ≡ true
unfolding without_trunk
without_trunk-all rule national digits =
    ground (arith, all-slice (length rule.national_prefix) national digits, digits)

international-IsSettled :
    (bare : Text) (phone : NormalisedPhone)
    → all is_digit bare ≡ true
    → build_from_international bare ≡ some phone
    → IsSettled phone
unfolding build_from_international
international-IsSettled bare phone digits made =
    let p : CountryRule → Bool = λ rule. starts_with rule.calling_code bare in
    elim (Option-cases (find p rules_by_code_length)) [
      | inl missing ↦
          let same : build_from_international bare ≡ unknown_country bare =
            rw (build_from_international, missing) refl in
          unknown_country-IsSettled bare phone digits same (sym same ∙ made)
      | inr (rule, found) ↦
          let settles : Settles rule =
            find-AllOf Settles p rules_by_code_length rules_by_code_length-AllSettle found in
          let national = without_trunk rule (slice (length rule.calling_code) bare) in
          let numeric =
            without_trunk-all rule (slice (length rule.calling_code) bare)
              (all-slice (length rule.calling_code) bare digits) in
          elim (Bool-cases (fits rule national)) [
            | inl fit ↦
                let kept : build_from_international bare ≡ some (built rule national) =
                  rw (build_from_international, found) (rw fit refl) in
                subst IsSettled (ap (λ o. or_else o phone) (sym kept ∙ made))
                  (settles national fit numeric)
            | inr odd ↦
                let same : build_from_international bare ≡ unknown_country bare =
                  rw (build_from_international, found) (rw odd refl) in
                unknown_country-IsSettled bare phone digits same (sym same ∙ made)
          ]
    ]

second_of : (a b : Bool) → (a && b) ≡ true → b ≡ true
second_of a b h = ground arith

choice-IsSettled :
    {phone : NormalisedPhone} (b : Bool) (chosen : NormalisedPhone) (rest : Option NormalisedPhone)
    → (b ≡ true → IsSettled chosen)
    → (rest ≡ some phone → IsSettled phone)
    → (if b then some chosen else rest) ≡ some phone
    → IsSettled phone
choice-IsSettled {phone} true chosen rest settled later made =
    subst IsSettled (ap (λ o. or_else o phone) made) (settled refl)
choice-IsSettled false chosen rest settled later made = later made

national-IsSettled :
    (rule : CountryRule) (bare : Text) (phone : NormalisedPhone)
    → Settles rule
    → all is_digit bare ≡ true
    → build_national rule bare ≡ some phone
    → IsSettled phone
unfolding build_national
national-IsSettled rule bare phone settles digits made =
    let trunk = slice (length rule.national_prefix) bare in
    let taken = not (is_empty rule.national_prefix) in
    let starts = starts_with rule.national_prefix bare in
    let code = slice (length rule.calling_code) bare in
    choice-IsSettled (taken && (starts && fits rule trunk)) (built rule trunk) _
      (λ hit.
        settles trunk
          (second_of starts (fits rule trunk) (second_of taken (starts && fits rule trunk) hit))
          (all-slice (length rule.national_prefix) bare digits))
      (choice-IsSettled (starts_with rule.calling_code bare && fits rule code) (built rule code) _
        (λ hit.
          settles code (second_of (starts_with rule.calling_code bare) (fits rule code) hit)
            (all-slice (length rule.calling_code) bare digits))
        (choice-IsSettled (fits rule bare) (built rule bare) (build_from_international bare)
          (λ fit. settles bare fit digits) (international-IsSettled bare phone digits)))
      made

sized-IsSettled :
    {phone : NormalisedPhone} (refused : Bool) (rest : Option NormalisedPhone)
    → (rest ≡ some phone → IsSettled phone)
    → (if refused then none else rest) ≡ some phone
    → IsSettled phone
sized-IsSettled true rest later made = absurd_none made
sized-IsSettled false rest later made = later made

routed-IsSettled :
    (had_plus : Bool) (rule : Option CountryRule) (bare : Text) (phone : NormalisedPhone)
    → all is_digit bare ≡ true
    → ((known : CountryRule) → rule ≡ some known → Settles known)
    → (if had_plus then build_from_international bare else elim rule [
      | none ↦ build_from_international bare
      | some rule ↦ build_national rule bare
    ])
      ≡ some phone
    → IsSettled phone
routed-IsSettled true rule bare phone digits settles made =
    international-IsSettled bare phone digits made
routed-IsSettled false none bare phone digits settles made =
    international-IsSettled bare phone digits made
routed-IsSettled false (some rule) bare phone digits settles made =
    national-IsSettled rule bare phone (settles rule refl) digits made

normalise_phone-IsSettled :
    (trimmed : Text) (country : String) (phone : NormalisedPhone)
    → normalise_phone trimmed country ≡ some phone
    → IsSettled phone
unfolding normalise_phone digits_only
normalise_phone-IsSettled trimmed country phone made =
    let access = starts_with (zero_digit ∷ zero_digit ∷ []) trimmed in
    let source : Text = if access then slice 2 trimmed else trimmed in
    let bare = filter is_digit source in
    let digits = all-filter source in
    sized-IsSettled (ltb (length bare) 6 || ltb 15 (length bare)) _
      (routed-IsSettled (starts_with (plus ∷ []) trimmed || access)
        (find (λ rule. str_eq rule.iso2 country) country_rules) bare phone digits
        (λ known found.
          find-AllOf Settles (λ rule. str_eq rule.iso2 country) country_rules
            country_rules-AllSettle found))
      made

normalise_stored :
    (wa : Text) (country : String)
    → all is_digit wa ≡ true
    → leb 6 (length wa) ≡ true
    → leb (length wa) 15 ≡ true
    → normalise_phone (plus ∷ wa) country ≡ build_from_international wa
unfolding normalise_phone digits_only
normalise_stored wa country digits least most =
    let short : ltb (length wa) 6 ≡ false = ground arith in
    let long : ltb 15 (length wa) ≡ false = ground arith in
    rw (filter-all wa digits) (rw (short, long) refl)

-- A number that is stored is a valid E.164 number, its digits are the form that WhatsApp wants, and
-- normalising it again, for any country, gives it back.
pub normalise_phone-IsStable :
    (trimmed : Text) (country country' : String) (phone : NormalisedPhone)
    → normalise_phone trimmed country ≡ some phone
    → (is_valid_e164 phone.e164 ≡ true)
      × (phone.e164 ≡ plus ∷ phone.wa_id)
      × (normalise_phone phone.e164 country' ≡ some phone)
normalise_phone-IsStable trimmed country country' phone made =
    let (valid, shape, digits, least, most, again) =
      normalise_phone-IsSettled trimmed country phone made in
    (
      valid,
      shape,
      ap (λ text. normalise_phone text country') shape
          ∙ normalise_stored phone.wa_id country' digits least most
          ∙ again,
    )
