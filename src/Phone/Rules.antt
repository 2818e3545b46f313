-- ===== src/Phone/Rules.antt =====
-- The rules of the countries: a number that fits one is a settled one.
use whatsapp_os.Prelude.{
  ◌≡◌, refl, Bool, true, List, [], ◌∷◌, some, length, all, find, leb, arith, Bool-cases, inl, inr,
  ◌∙◌, sym, ap, or_else,
}
use mathlib.Core.Path.{subst}
use whatsapp_os.Phone.{
  Text, plus, is_digit, CountryRule, pk, ae, gb, us, ind, sa, country_rules, rules_by_code_length,
  NormalisedPhone, is_valid_e164, built, fits, without_trunk, build_from_international,
}

-- A number that is stored: valid, with its digits as the other form, and found again from them.
abbrev pub IsSettled : NormalisedPhone → Type 0
IsSettled phone =
    (is_valid_e164 phone.e164 ≡ true)
    × (phone.e164 ≡ plus ∷ phone.wa_id)
    × (all is_digit phone.wa_id ≡ true)
    × (leb 6 (length phone.wa_id) ≡ true)
    × (leb (length phone.wa_id) 15 ≡ true)
    × (build_from_international phone.wa_id ≡ some phone)

without_trunk-fits :
    (rule : CountryRule) (national : Text)
    → fits rule national ≡ true
    → without_trunk rule national ≡ national
unfolding without_trunk
without_trunk-fits rule national fit = ground (arith, fit)

-- A rule whose numbers are settled.
abbrev pub Settles : CountryRule → Type 0
Settles rule =
    (national : Text)
    → fits rule national ≡ true
    → all is_digit national ≡ true
    → IsSettled (built rule national)

pk-Settles : Settles pk
unfolding is_valid_e164 build_from_international
pk-Settles national fit digits = (
  ground arith,
  refl,
  ground arith,
  ground arith,
  ground arith,
  rw (without_trunk-fits pk national fit) (rw fit refl),
)

ae-Settles : Settles ae
unfolding is_valid_e164 build_from_international
ae-Settles national fit digits = (
  ground arith,
  refl,
  ground arith,
  ground arith,
  ground arith,
  rw (without_trunk-fits ae national fit) (rw fit refl),
)

gb-Settles : Settles gb
unfolding is_valid_e164 build_from_international
gb-Settles national fit digits = (
  ground arith,
  refl,
  ground arith,
  ground arith,
  ground arith,
  rw (without_trunk-fits gb national fit) (rw fit refl),
)

us-Settles : Settles us
unfolding is_valid_e164 build_from_international
us-Settles national fit digits = (
  ground arith,
  refl,
  ground arith,
  ground arith,
  ground arith,
  rw (without_trunk-fits us national fit) (rw fit refl),
)

ind-Settles : Settles ind
unfolding is_valid_e164 build_from_international
ind-Settles national fit digits = (
  ground arith,
  refl,
  ground arith,
  ground arith,
  ground arith,
  rw (without_trunk-fits ind national fit) (rw fit refl),
)

sa-Settles : Settles sa
unfolding is_valid_e164 build_from_international
sa-Settles national fit digits = (
  ground arith,
  refl,
  ground arith,
  ground arith,
  ground arith,
  rw (without_trunk-fits sa national fit) (rw fit refl),
)

-- What holds of each rule holds of one that is found.
abbrev pub AllOf : (CountryRule → Type 0) → List CountryRule → Type 0
AllOf P [] = Unit {0}
AllOf P (rule ∷ rules) = P rule × AllOf P rules

pub find-AllOf :
    (P : CountryRule → Type 0) (p : CountryRule → Bool) (rules : List CountryRule)
    {rule : CountryRule}
    → AllOf P rules
    → find p rules ≡ some rule
    → P rule
find-AllOf P p [] held found = cc
find-AllOf P p (first ∷ rules) {rule = rule} held found = elim (Bool-cases (p first)) [
  | inl hit ↦
      let reached : find p (first ∷ rules) ≡ some first = rw hit refl in
      subst P (ap (λ o. or_else o first) (sym reached ∙ found)) held.0
  | inr miss ↦
      let later : find p (first ∷ rules) ≡ find p rules = rw miss refl in
      find-AllOf P p rules held.1 (sym later ∙ found)
]

pub country_rules-AllSettle : AllOf Settles country_rules
country_rules-AllSettle =
    (pk-Settles, (ae-Settles, (gb-Settles, (us-Settles, (ind-Settles, (sa-Settles, tt))))))

pub rules_by_code_length-AllSettle : AllOf Settles rules_by_code_length
rules_by_code_length-AllSettle =
    (ae-Settles, (sa-Settles, (pk-Settles, (gb-Settles, (ind-Settles, (us-Settles, tt))))))
