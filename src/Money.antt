-- ===== src/Money.antt =====
-- lib/money.ts: integer amounts in minor units, each with its currency.
-- An amount is a mathematical integer. JavaScript computes sums and products of safe integers in
-- doubles; where the exact result is safe the double is exact, and where it is not the double is
-- not safe either, so that `money` rejects exactly the same results. A share divides a product, which
-- may be beyond the safe range while the share is not: there the doubles are computed, and for a
-- contained tax (`round_scaled`) everywhere.
pub mod Laws
pub mod Doubles
mod Tests
use whatsapp_os.Prelude.{
  ℕ, zero, suc, ◌+◌, ◌-◌, ◌*◌, ◌/◌, ◌^◌, Bool, true, false, ◌&&◌, List, [], ◌∷◌, ltb, leb, ◌==◌,
  if◌then◌else◌,
}
use whatsapp_os.Prelude.Int.{
  ℤ, pos, negsuc, pos_part, neg_part, ◌+ℤ◌, ◌-ℤ◌, ◌*ℤ◌, ltb_ℤ, is_negative, magnitude,
}
use whatsapp_os.Prelude.Result.{Result, ok, err, ◌>>=◌, ◌>>◌, throw_if}

-- `SUPPORTED_CURRENCIES`.
pub data Currency : Type 0 where
  pkr usd aed gbp eur : Currency

abbrev pub currency_index : Currency → ℕ
currency_index pkr = 0
currency_index usd = 1
currency_index aed = 2
currency_index gbp = 3
currency_index eur = 4

infix 50 ◌same◌
abbrev pub ◌same◌ : Currency → Currency → Bool
a same b = currency_index a == currency_index b

pub record Money : Type 0 where
  pub minor : ℤ
  pub currency : Currency

-- A JavaScript number where the code tests `Number.isInteger`: an integer, or anything else.
pub data Number : Type 0 where
  whole : ℤ → Number
  fraction : Number

pub data MoneyError : Type 0 where
  unsafe_value mixed_currency fractional_quantity fractional_rate : MoneyError

-- `Number.MAX_SAFE_INTEGER`
abbrev pub max_safe : ℕ
max_safe = 2 ^ 53 - 1

unfoldable pub money : ℤ → Currency → Result MoneyError Money
money minor currency =
    if ltb max_safe (magnitude minor)
    then err unsafe_value
    else ok (record { minor = minor; currency = currency })

assert_same_currency : Money → Money → Result MoneyError (Unit {0})
assert_same_currency a b = if a.currency same b.currency then ok tt else err mixed_currency

unfoldable pub add : Money → Money → Result MoneyError Money
unfolding assert_same_currency money
add a b = do assert_same_currency a b; money (a.minor +ℤ b.minor) a.currency

unfoldable pub subtract : Money → Money → Result MoneyError Money
unfolding assert_same_currency money
subtract a b = do assert_same_currency a b; money (a.minor -ℤ b.minor) a.currency

-- The loop of `sum`, from the total so far.
unfoldable pub sum_from : Money → List Money → Result MoneyError Money
unfolding add
sum_from total [] = ok total
sum_from total (value ∷ values) = do total' ← add total value; sum_from total' values

abbrev pub zero_money : Currency → Money
zero_money currency = record { minor = pos 0; currency = currency }

unfoldable pub sum : List Money → Currency → Result MoneyError Money
unfolding sum_from
sum values currency = sum_from (zero_money currency) values

unfoldable pub multiply : Money → Number → Result MoneyError Money
unfolding money
multiply value (whole quantity) = money (value.minor *ℤ quantity) value.currency
multiply value fraction = err fractional_quantity

-- `Math.round` of n / d: to the nearest integer, a tie upwards.
unfoldable pub math_round : ℤ → ℕ → ℤ
math_round (pos n) d = pos ((2 * n + d) / (2 * d))
math_round (negsuc n) d = pos 0 -ℤ pos ((2 * (n + 1) + d - 1) / (2 * d))

abbrev pub basis_points_divisor : ℕ
basis_points_divisor = 10000

-- To the nearest whole number, a tie to the even one.
abbrev pub round_half_even : ℕ → ℕ → ℕ
round_half_even n d =
    let q = n / d in
    let rest = n - q * d in
    if ltb (2 * rest) d then q else if ltb d (2 * rest) then q + 1 else 2 * ((q + 1) / 2)

-- The distance of the doubles around a number that is not below 2^53, a power of two; beyond the
-- largest double it is no longer the right one, but there `money` rejects the result.
abbrev pub spacing : ℕ → ℕ → ℕ → ℕ
spacing zero unit n = unit
spacing (suc rounds) unit n = elim (leb (2 ^ 53 * unit) n) [
  | true ↦ spacing rounds (2 * unit) n
  | false ↦ unit
]

-- The double of a product that is no safe integer.
unfoldable pub double_product : ℕ → ℕ
double_product n = let unit = spacing 971 1 n in round_half_even n unit * unit

-- How many doubles there are from a quotient n / d to the next whole number, a power of two. Below 1
-- there are more of them, but a quotient by less than 2^52 is either 1 / 2 or so far from it that
-- both round alike.
abbrev pub resolution : ℕ → ℕ → ℕ → ℕ → ℕ
resolution zero scale n d = scale
resolution (suc rounds) scale n d = elim (ltb (n * (2 * scale)) (2 ^ 53 * d)) [
  | true ↦ resolution rounds (2 * scale) n d
  | false ↦ scale
]

-- `Math.round` of a quotient in doubles.
unfoldable pub rounded_quotient : ℕ → ℕ → ℕ
rounded_quotient n d =
    let scale = resolution 53 1 n d in (2 * round_half_even (n * scale) d + scale) / (2 * scale)

-- The same where a tie goes down, for a negative quotient: `Math.round` takes a tie upwards.
unfoldable rounded_quotient_down : ℕ → ℕ → ℕ
rounded_quotient_down n d =
    let scale = resolution 53 1 n d in (2 * round_half_even (n * scale) d + scale - 1) / (2 * scale)

-- `Math.round` of a product of integers over d, in doubles.
unfoldable pub round_scaled : ℤ → ℕ → ℤ
unfolding double_product rounded_quotient rounded_quotient_down
round_scaled (pos n) d = pos (rounded_quotient (double_product n) d)
round_scaled (negsuc n) d = pos 0 -ℤ pos (rounded_quotient_down (double_product (n + 1)) d)

abbrev pub is_safe : ℤ → Bool
is_safe z = leb (magnitude z) max_safe

-- The share of a product, rounded half away from zero. While the product is safe its double is exact,
-- and so is the rounding: the quotient is at least 1/10000 from a half that it does not hit, and the
-- doubles there are closer than that. A larger product is rounded to a double first.
unfoldable pub share : ℤ → ℤ
unfolding math_round double_product rounded_quotient
share scaled =
    if is_safe scaled
    then (if is_negative scaled
        then pos 0 -ℤ math_round (pos 0 -ℤ scaled) basis_points_divisor
        else math_round scaled basis_points_divisor)
    else (let large = rounded_quotient (double_product (magnitude scaled)) basis_points_divisor in
        if is_negative scaled then pos 0 -ℤ pos large else pos large)

unfoldable pub percentage_of : Money → Number → Result MoneyError Money
unfolding money share
percentage_of value fraction = err fractional_rate
percentage_of value (whole basis_points) =
    money (share (value.minor *ℤ basis_points)) value.currency

pub data Sign : Type 0 where
  less equal greater : Sign

unfoldable pub compare_money : Money → Money → Result MoneyError Sign
unfolding assert_same_currency
compare_money a b = do
  assert_same_currency a b
  if ltb_ℤ a.minor b.minor then ok less else if ltb_ℤ b.minor a.minor then ok greater else ok equal

unfoldable pub max : Money → Money → Result MoneyError Money
unfolding compare_money
max a b = do order ← compare_money a b; ok (elim order [ less ↦ b | _ ↦ a ])

unfoldable pub min : Money → Money → Result MoneyError Money
unfolding compare_money
min a b = do order ← compare_money a b; ok (elim order [ greater ↦ b | _ ↦ a ])

abbrev pub is_zero : Money → Bool
is_zero value = magnitude value.minor == 0

unfoldable pub clamp_to_zero : Money → Money
clamp_to_zero value = if is_negative value.minor then zero_money value.currency else value
