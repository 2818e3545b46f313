-- ===== src/Money/Laws.antt =====
-- Money arithmetic is exact or refused.
use whatsapp_os.Prelude.{
  ◌+◌, ◌*◌, ◌≤◌, ◌≡◌, ◌∙◌, refl, sym, true, false, Bool-cases, inl, inr, List, [], ◌∷◌, arith,
  if◌then◌else◌,
}
use mathlib.Core.Path.{subst}
use whatsapp_os.Prelude.Int.{
  ℤ, pos, negsuc, magnitude, is_negative, ◌+ℤ◌, ◌-ℤ◌, ◌*ℤ◌, ◌≤ℤ◌, int_laws, pos_part, neg_part,
}
use whatsapp_os.Prelude.Result.{Result, ok, err, >>=-eq-ok}
use whatsapp_os.Money.{
  Currency, Money, MoneyError, Number, whole, fraction, add, subtract, sum_from, sum, max_safe,
  is_safe, basis_points_divisor, share, multiply, percentage_of, zero_money, max, min, math_round,
}

-- A result that is the exact amount, in range, or an error. In this form a caller's proof needs no
-- inversion of the chain.
abbrev pub Yields : ℤ → Currency → Result MoneyError Money → Type 0
Yields exact currency (ok c) =
    (c.minor ≡ exact) × (c.currency ≡ currency) × (magnitude c.minor ≤ max_safe)
Yields exact currency (err e) = Unit

abbrev pub integer_of : Number → ℤ
integer_of (whole z) = z
integer_of fraction = pos 0

pub add-Yields : (a b : Money) → Yields (a.minor +ℤ b.minor) a.currency (add a b)
unfolding add
add-Yields a b = ground arith

pub subtract-Yields : (a b : Money) → Yields (a.minor -ℤ b.minor) a.currency (subtract a b)
unfolding subtract
subtract-Yields a b = ground arith

pub multiply-Yields :
    (a : Money) (n : Number) → Yields (a.minor *ℤ integer_of n) a.currency (multiply a n)
unfolding multiply
multiply-Yields a (whole q) = ground arith
multiply-Yields a fraction = tt

-- What a successful addition returns.
pub add-eq-ok :
    (a b : Money) {c : Money}
    → add a b ≡ ok c
    → (c.minor ≡ a.minor +ℤ b.minor) × (c.currency ≡ a.currency) × (magnitude c.minor ≤ max_safe)
unfolding add
add-eq-ok a b h = ground arith

-- The amounts of a list, added up without any check.
abbrev pub total_minor : List Money → ℤ
total_minor [] = pos 0
total_minor (m ∷ ms) = m.minor +ℤ total_minor ms

sum_from-eq-ok :
    (start : Money) (ms : List Money) {c : Money}
    → sum_from start ms ≡ ok c
    → (c.minor ≡ start.minor +ℤ total_minor ms) × (c.currency ≡ start.currency)
unfolding sum_from
sum_from-eq-ok start [] h = grind int_laws
sum_from-eq-ok start (m ∷ ms) h =
    let (next, added, rest) = >>=-eq-ok (add start m) (λ t. sum_from t ms) h in
    let (exact, kept, _) = add-eq-ok start m added in
    let (minor, currency) = sum_from-eq-ok next ms rest in
    (rw (minor, exact) (omega int_laws), currency ∙ kept)

-- A sum that is returned is the exact sum, in the currency that was asked for.
pub sum-eq-ok :
    (ms : List Money) (currency : Currency) {c : Money}
    → sum ms currency ≡ ok c
    → (c.minor ≡ total_minor ms) × (c.currency ≡ currency)
unfolding sum
sum-eq-ok ms currency h =
    let (minor, kept) = sum_from-eq-ok (zero_money currency) ms h in
    (rw minor (omega int_laws), kept)

abbrev round_away : ℤ → ℤ
round_away s = if is_negative s then pos 0 -ℤ math_round (pos 0 -ℤ s) 10000 else math_round s 10000

abbrev Nearest : ℤ → ℤ → Type 0
Nearest r exact =
    (2 * 10000 * pos_part r + 2 * neg_part exact
      ≤ 2 * pos_part exact + 2 * 10000 * neg_part r + 10000)
    × (2 * pos_part exact + 2 * 10000 * neg_part r
        ≤ 2 * 10000 * pos_part r + 2 * neg_part exact + 10000)

round_away-Nearest : (s : ℤ) → Nearest (round_away s) s
unfolding math_round ◌-ℤ◌
round_away-Nearest (pos n) = ground arith
round_away-Nearest (negsuc n) = ground arith

percentage_of-minor :
    (value : Money) (rate : ℤ) {c : Money}
    → percentage_of value (whole rate) ≡ ok c
    → (c.minor ≡ share (value.minor *ℤ rate)) × (c.currency ≡ value.currency)
unfolding percentage_of
percentage_of-minor value rate h = ground arith

share_safe :
    (scaled : ℤ)
    → is_safe scaled ≡ true
    → share scaled ≡ (
        if is_negative scaled
        then pos 0 -ℤ math_round (pos 0 -ℤ scaled) basis_points_divisor
        else math_round scaled basis_points_divisor)
unfolding share
share_safe scaled safe = rw (share, safe) refl

-- A share of an amount is the nearest whole amount while the product of the two is a safe integer: it
-- differs from amount × rate / 10000 by half a unit at most, whatever the signs.
pub percentage_of_nearest :
    (value : Money) (rate : ℤ) {c : Money}
    → magnitude (value.minor *ℤ rate) ≤ max_safe
    → percentage_of value (whole rate) ≡ ok c
    → let exact = value.minor *ℤ rate in
      (2 * 10000 * pos_part c.minor + 2 * neg_part exact
        ≤ 2 * pos_part exact + 2 * 10000 * neg_part c.minor + 10000)
      × (2 * pos_part exact + 2 * 10000 * neg_part c.minor
          ≤ 2 * 10000 * pos_part c.minor + 2 * neg_part exact + 10000)
      × (c.currency ≡ value.currency)
percentage_of_nearest value rate safe h =
    let near = round_away-Nearest (value.minor *ℤ rate) in
    let (minor, currency) = percentage_of-minor value rate h in
    let is = share_safe (value.minor *ℤ rate) (ground arith) in
    let both = subst (λ r. Nearest r (value.minor *ℤ rate)) (sym (minor ∙ is)) near in
    (both.0, both.1, currency)

-- The larger and the smaller of two amounts of one currency add up to both.
pub max-min_sum :
    (a b : Money) {hi lo : Money}
    → max a b ≡ ok hi
    → min a b ≡ ok lo
    → (lo.minor ≤ℤ hi.minor) × (hi.minor +ℤ lo.minor ≡ a.minor +ℤ b.minor)
unfolding max min
max-min_sum a b h k = grind int_laws

pub *ℤ_nonneg : (a b : ℤ) → pos 0 ≤ℤ a → pos 0 ≤ℤ b → pos 0 ≤ℤ a *ℤ b
unfolding ◌*ℤ◌
*ℤ_nonneg (pos a) (pos b) h k = ground arith
*ℤ_nonneg a (negsuc b) h k = absurd (omega arith)
*ℤ_nonneg (negsuc a) b h k = absurd (omega arith)

share_nonneg : (s : ℤ) → pos 0 ≤ℤ s → pos 0 ≤ℤ share s
unfolding share math_round
share_nonneg (pos n) h =
    let positive : is_negative (pos n) ≡ false = ground arith in
    elim (Bool-cases (is_safe (pos n))) [
      | inl safe ↦ rw (share, safe) (rw positive (omega arith))
      | inr unsafe ↦ rw (share, unsafe) (rw positive (omega arith))
    ]
share_nonneg (negsuc n) h = absurd (omega arith)

pub percentage_of_nonneg :
    (value : Money) (rate : ℤ) {c : Money}
    → pos 0 ≤ℤ value.minor
    → pos 0 ≤ℤ rate
    → percentage_of value (whole rate) ≡ ok c
    → pos 0 ≤ℤ c.minor
percentage_of_nonneg value rate v r h =
    let (minor, currency) = percentage_of-minor value rate h in
    rw minor (share_nonneg (value.minor *ℤ rate) (*ℤ_nonneg value.minor rate v r))
