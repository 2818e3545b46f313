-- ===== src/Phone/Spellings.antt =====
-- The spellings of a Pakistani number that are one number.
use Prim.Native.String.{String}
use whatsapp_os.Prelude.{
  ◌≡◌, refl, true, false, [], ◌∷◌, some, length, ltb, arith, ◌⊎◌, inl, inr, ◌∙◌,
}
use whatsapp_os.Phone.{
  Text, plus, zero_digit, pk, starts_with, slice, digits_only, built, fits, without_trunk,
  build_from_international, build_national, normalise_phone,
}

fits-slice : (national : Text) → fits pk national ≡ true → fits pk (slice 2 national) ≡ false
fits-slice [] fit = ground arith
fits-slice (c ∷ []) fit = ground arith
fits-slice (c ∷ (d ∷ rest)) fit = ground arith

normalise_local :
    (typed bare : Text)
    → starts_with (plus ∷ []) typed ≡ false
    → starts_with (zero_digit ∷ zero_digit ∷ []) typed ≡ false
    → digits_only typed ≡ bare
    → ltb (length bare) 6 ≡ false
    → ltb 15 (length bare) ≡ false
    → normalise_phone typed "PK" ≡ build_national pk bare
unfolding normalise_phone
normalise_local typed bare no_plus no_access digits short long =
    rw (no_plus, no_access, digits, short, long) refl

normalise_international :
    (typed bare : Text) (country : String)
    → digits_only typed ≡ bare
    → ltb (length bare) 6 ≡ false
    → ltb 15 (length bare) ≡ false
    → (normalise_phone (plus ∷ typed) country ≡ build_from_international bare)
      × (normalise_phone (zero_digit ∷ zero_digit ∷ typed) country ≡ build_from_international bare)
unfolding normalise_phone digits_only
normalise_international typed bare country digits short long =
    (rw (digits, short, long) refl, rw (digits, short, long) refl)

build_national-bare :
    (national : Text)
    → fits pk national ≡ true
    → starts_with (zero_digit ∷ []) national ≡ false
    → build_national pk national ≡ some (built pk national)
unfolding build_national
build_national-bare national fit lead = ground (arith, fits-slice national fit, fit, lead)

build_national-trunk :
    (national : Text)
    → fits pk national ≡ true
    → build_national pk (zero_digit ∷ national) ≡ some (built pk national)
unfolding build_national
build_national-trunk national fit = rw fit refl

build_national-code :
    (national : Text)
    → fits pk national ≡ true
    → build_national pk (57 ∷ 50 ∷ national) ≡ some (built pk national)
unfolding build_national
build_national-code national fit = rw fit refl

without_trunk-own :
    (national : Text) → fits pk national ≡ true → without_trunk pk national ≡ national
unfolding without_trunk
without_trunk-own national fit = ground (arith, fit)

without_trunk-kept :
    (national : Text)
    → fits pk national ≡ true
    → without_trunk pk (zero_digit ∷ national) ≡ national
unfolding without_trunk
without_trunk-kept national fit = ground (arith, fit)

international-code :
    (national : Text)
    → fits pk national ≡ true
    → build_from_international (57 ∷ 50 ∷ national) ≡ some (built pk national)
unfolding build_from_international
international-code national fit = rw (without_trunk-own national fit) (rw fit refl)

international-trunk :
    (national : Text)
    → fits pk national ≡ true
    → build_from_international (57 ∷ 50 ∷ zero_digit ∷ national) ≡ some (built pk national)
unfolding build_from_international
international-trunk national fit = rw (without_trunk-kept national fit) (rw fit refl)

-- A text without a mark of the country: the number alone, after a zero or after the country's code.
abbrev pub IsLocal : Text → Text → Type 0
IsLocal national typed =
    (starts_with (plus ∷ []) typed ≡ false)
    × (starts_with (zero_digit ∷ zero_digit ∷ []) typed ≡ false)
    × ((digits_only typed ≡ national)
        ⊎ ((digits_only typed ≡ zero_digit ∷ national) ⊎ (digits_only typed ≡ 57 ∷ 50 ∷ national)))

-- A text with the country's code, with a zero after it or not.
abbrev pub IsAbroad : Text → Text → Type 0
IsAbroad national typed =
    (digits_only typed ≡ 57 ∷ 50 ∷ national) ⊎ (digits_only typed ≡ 57 ∷ 50 ∷ zero_digit ∷ national)

normalise_home :
    (national home : Text)
    → fits pk national ≡ true
    → starts_with (zero_digit ∷ []) national ≡ false
    → IsLocal national home
    → normalise_phone home "PK" ≡ some (built pk national)
normalise_home national home fit lead (no_plus, no_access, inl digits) =
    normalise_local home national no_plus no_access digits (ground arith) (ground arith)
    ∙ build_national-bare national fit lead
normalise_home national home fit lead (no_plus, no_access, inr (inl digits)) =
    normalise_local home (zero_digit ∷ national) no_plus no_access digits (ground arith)
      (ground arith)
    ∙ build_national-trunk national fit
normalise_home national home fit lead (no_plus, no_access, inr (inr digits)) =
    normalise_local home (57 ∷ 50 ∷ national) no_plus no_access digits (ground arith) (ground arith)
    ∙ build_national-code national fit

normalise_abroad :
    (national abroad : Text) (country : String)
    → fits pk national ≡ true
    → IsAbroad national abroad
    → (normalise_phone (plus ∷ abroad) country ≡ some (built pk national))
      × (normalise_phone (zero_digit ∷ zero_digit ∷ abroad) country ≡ some (built pk national))
normalise_abroad national abroad country fit (inl digits) =
    let (with_plus, with_zeros) =
      normalise_international abroad (57 ∷ 50 ∷ national) country digits (ground arith)
        (ground arith) in
    (with_plus ∙ international-code national fit, with_zeros ∙ international-code national fit)
normalise_abroad national abroad country fit (inr digits) =
    let (with_plus, with_zeros) =
      normalise_international abroad (57 ∷ 50 ∷ zero_digit ∷ national) country digits (ground arith)
        (ground arith) in
    (with_plus ∙ international-trunk national fit, with_zeros ∙ international-trunk national fit)

-- All spellings of a Pakistani number are one number, whatever stands between the digits: alone, after
-- a zero or after 92 for a workspace in Pakistan, and after +92, 0092, +920 or 00920 for any
-- workspace. The number has ten code units and does not start with a zero.
pub normalise_phone_spellings :
    (national home abroad : Text) (country : String)
    → fits pk national ≡ true
    → starts_with (zero_digit ∷ []) national ≡ false
    → IsLocal national home
    → IsAbroad national abroad
    → (normalise_phone home "PK" ≡ some (built pk national))
      × (normalise_phone (plus ∷ abroad) country ≡ some (built pk national))
      × (normalise_phone (zero_digit ∷ zero_digit ∷ abroad) country ≡ some (built pk national))
normalise_phone_spellings national home abroad country fit lead local international =
    let (with_plus, with_zeros) = normalise_abroad national abroad country fit international in
    (normalise_home national home fit lead local, with_plus, with_zeros)
