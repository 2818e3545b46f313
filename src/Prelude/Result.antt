-- ===== src/Prelude/Result.antt =====
-- Code that may throw: a value, or the error that was thrown.
use mathlib.Core.Path.{◌≡◌, refl}
use mathlib.Core.Bool.{Bool, true, false}

pub data Result {ℓ} (E A : Type ℓ) : Type ℓ where
  ok : A → Result E A
  err : E → Result E A

-- The same error, as one of a wider type.
abbrev pub wrap {ℓ} : {E F A : Type ℓ} → (E → F) → Result E A → Result F A
wrap widen (err thrown) = err (widen thrown)
wrap widen (ok value) = ok value

infixl 5 ◌>>=◌ ◌>>◌
-- `if (bad) throw e`
abbrev pub throw_if {ℓ} : {E : Type ℓ} → Bool → E → Result E (Unit {ℓ})
throw_if false thrown = ok tt
throw_if true thrown = err thrown

abbrev pub ◌>>=◌ {ℓ} : {E A B : Type ℓ} → Result E A → (A → Result E B) → Result E B
err thrown >>= rest = err thrown
ok value >>= rest = rest value

abbrev pub ◌>>◌ {ℓ} : {E B : Type ℓ} → Result E (Unit {ℓ}) → Result E B → Result E B
first >> second = first >>= λ done. second

-- Inversion of a test that did not throw, and of a chain that returned.
pub throw_if-eq-ok {ℓ} :
    {E B : Type ℓ} (bad : Bool) (thrown : E) (rest : Result E B) {value : B}
    → (throw_if bad thrown >> rest) ≡ ok value
    → (bad ≡ false) × (rest ≡ ok value)
throw_if-eq-ok false thrown rest h = (refl, h)
throw_if-eq-ok true thrown rest h = cc

pub >>=-eq-ok {ℓ} :
    {E A B : Type ℓ} (first : Result E A) (rest : A → Result E B) {value : B}
    → (first >>= rest) ≡ ok value
    → (a : A) × (first ≡ ok a) × (rest a ≡ ok value)
>>=-eq-ok (err thrown) rest h = cc
>>=-eq-ok (ok a) rest h = (a, refl, h)
