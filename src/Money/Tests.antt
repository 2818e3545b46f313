-- ===== src/Money/Tests.antt =====
-- Amounts computed by evaluation, and the theorems at them.
use whatsapp_os.Prelude.{◌≡◌, refl, ◌+◌, ◌*◌, ◌≤◌, [], ◌∷◌, arith}
use whatsapp_os.Prelude.Int.{ℤ, magnitude, pos, negsuc, pos_part, neg_part, ◌+ℤ◌, ◌-ℤ◌, ◌*ℤ◌}
use whatsapp_os.Prelude.Result.{ok}
use whatsapp_os.Money.{
  Money, whole, pkr, money, add, sum, percentage_of, math_round, share, double_product,
  rounded_quotient, max_safe,
}
use whatsapp_os.Money.Laws.{percentage_of_nearest}

abbrev rupees : ℤ → Money
rupees n = record { minor = n; currency = pkr }

sum_run : sum (rupees (pos 250) ∷ rupees (negsuc 49) ∷ []) pkr ≡ ok (rupees (pos 200))
unfolding sum add money ◌+ℤ◌
sum_run = refl

share_run : percentage_of (rupees (pos 333)) (whole (pos 1750)) ≡ ok (rupees (pos 58))
unfolding percentage_of share money math_round ◌*ℤ◌ ◌-ℤ◌
share_run = refl

-- All of an amount, and one unit more: the product is beyond the safe range.
all_and_one :
    percentage_of (rupees (pos 4049658484850500)) (whole (pos 10000))
    ≡ ok (rupees (pos 4049658484850501))
unfolding percentage_of share double_product rounded_quotient money ◌*ℤ◌
all_and_one = refl

small_product : magnitude (pos 333 *ℤ pos 1750) ≤ max_safe
unfolding ◌*ℤ◌
small_product = omega arith

percentage_of_nearest_example :
    let exact = pos 333 *ℤ pos 1750 in
    (2 * 10000 * 58 + 2 * neg_part exact ≤ 2 * pos_part exact + 2 * 10000 * 0 + 10000)
    × (2 * pos_part exact + 2 * 10000 * 0 ≤ 2 * 10000 * 58 + 2 * neg_part exact + 10000)
    × (pkr ≡ pkr)
percentage_of_nearest_example =
    percentage_of_nearest (rupees (pos 333)) (pos 1750) small_product share_run
