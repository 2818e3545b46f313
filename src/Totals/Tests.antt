-- ===== src/Totals/Tests.antt =====
-- Orders priced by evaluation, and the theorems at them.
use whatsapp_os.Prelude.{◌≡◌, refl, [], ◌∷◌, none, some, false, true}
use whatsapp_os.Prelude.Int.{pos, ◌+ℤ◌, ◌-ℤ◌, ◌*ℤ◌}
use whatsapp_os.Prelude.Result.{ok}
use whatsapp_os.Money.{
  Money, whole, pkr, money, add, subtract, sum, multiply, math_round, double_product,
  rounded_quotient, round_scaled, percentage_of, share, compare_money, clamp_to_zero,
}
use whatsapp_os.Totals.{
  OrderChargeInput, OrderTotals, check_quantity, discount_line, compute_line, compute_lines,
  apply_discount, check_threshold, reaches, delivery, check_rate, inclusive_tax, exclusive_tax,
  taxed, charge, compute_order_totals,
}
use whatsapp_os.Totals.Laws.{IsReconciled, compute_order_totals-IsReconciled}

abbrev rs : Prim.Native.Nat.ℕ → Money
rs n = record { minor = pos n; currency = pkr }

-- Two shirts at 3499 with 100 off, 17.5% tax, delivery at 250 waived from 5000.
abbrev shirts : OrderChargeInput
shirts = record {
  currency = pkr;
  lines =
      record { unit_price = rs 349900; quantity = whole (pos 2); discount = some (rs 10000) } ∷ [];
  delivery_fee = some (rs 25000);
  discount = none;
  free_delivery_threshold = some (rs 500000);
  tax_basis_points = some (whole (pos 1750));
  tax_inclusive = false;
}

abbrev shirts_priced : OrderTotals
shirts_priced = record {
  currency = pkr;
  lines =
      record {
        unit_price = rs 349900;
        quantity = pos 2;
        gross = rs 699800;
        discount = rs 10000;
        total = rs 689800;
      }
      ∷ [];
  subtotal = rs 689800;
  discount = rs 10000;
  delivery_fee = rs 0;
  tax = rs 120715;
  total = rs 810515;
  free_delivery_applied = true;
}

shirts_run : compute_order_totals shirts ≡ ok shirts_priced
unfolding compute_order_totals charge taxed exclusive_tax check_rate delivery reaches
    check_threshold apply_discount compute_lines compute_line discount_line check_quantity money add
    subtract sum multiply math_round percentage_of share compare_money clamp_to_zero ◌+ℤ◌ ◌-ℤ◌ ◌*ℤ◌
shirts_run = refl

compute_order_totals-IsReconciled_example : IsReconciled shirts shirts_priced
compute_order_totals-IsReconciled_example =
    compute_order_totals-IsReconciled shirts shirts_priced shirts_run

-- 17% of tax in a marked price of 1170.
contained_run : inclusive_tax pkr (rs 117000) (pos 1700) ≡ ok (rs 17000, rs 117000)
unfolding inclusive_tax round_scaled double_product rounded_quotient money ◌*ℤ◌
contained_run = refl

-- Beyond the safe range the product is rounded first: the exact share ends in 249.
contained_run_large :
    inclusive_tax pkr (rs 8744779910718229) (pos 7097)
    ≡ ok (rs 3629976196196250, rs 8744779910718229)
unfolding inclusive_tax round_scaled double_product rounded_quotient money ◌*ℤ◌
contained_run_large = refl
