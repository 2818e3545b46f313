-- ===== src/Phone/Tests.antt =====
-- A number as it is typed in Pakistan.
use whatsapp_os.Prelude.{◌≡◌, refl, true, [], ◌∷◌, some, inl, inr}
use whatsapp_os.Phone.{
  Text, plus, pk, NormalisedPhone, built, digits_only, build_national, is_valid_e164,
  normalise_phone,
}
use whatsapp_os.Phone.Spellings.{IsLocal, IsAbroad, normalise_phone_spellings}
use whatsapp_os.Phone.Laws.{normalise_phone-IsStable}

-- 0300 1234567
abbrev typed : Text
typed = 48 ∷ 51 ∷ 48 ∷ 48 ∷ 32 ∷ 49 ∷ 50 ∷ 51 ∷ 52 ∷ 53 ∷ 54 ∷ 55 ∷ []

abbrev stored : NormalisedPhone
stored = built pk (51 ∷ 48 ∷ 48 ∷ 49 ∷ 50 ∷ 51 ∷ 52 ∷ 53 ∷ 54 ∷ 55 ∷ [])

typed_is_stored : normalise_phone typed "PK" ≡ some stored
unfolding normalise_phone digits_only build_national
typed_is_stored = refl

normalise_phone-IsStable_example :
    (is_valid_e164 stored.e164 ≡ true)
    × (stored.e164 ≡ plus ∷ stored.wa_id)
    × (normalise_phone stored.e164 "GB" ≡ some stored)
normalise_phone-IsStable_example = normalise_phone-IsStable typed "PK" "GB" stored typed_is_stored

abbrev own : Text
own = 51 ∷ 48 ∷ 48 ∷ 49 ∷ 50 ∷ 51 ∷ 52 ∷ 53 ∷ 54 ∷ 55 ∷ []

-- 92-300-1234567
abbrev dashed : Text
dashed = 57 ∷ 50 ∷ 45 ∷ 51 ∷ 48 ∷ 48 ∷ 45 ∷ 49 ∷ 50 ∷ 51 ∷ 52 ∷ 53 ∷ 54 ∷ 55 ∷ []

typed-IsLocal : IsLocal own typed
unfolding digits_only
typed-IsLocal = (refl, refl, inr (inl refl))

dashed-IsAbroad : IsAbroad own dashed
unfolding digits_only
dashed-IsAbroad = inl refl

normalise_phone_spellings_example :
    (normalise_phone typed "PK" ≡ some stored)
    × (normalise_phone (plus ∷ dashed) "SA" ≡ some stored)
    × (normalise_phone (48 ∷ 48 ∷ dashed) "SA" ≡ some stored)
normalise_phone_spellings_example =
    normalise_phone_spellings own typed dashed "SA" refl refl typed-IsLocal dashed-IsAbroad
