-- ===== src/Orders/Tests.antt =====
-- A shop with one order, and the theorems at it.
use whatsapp_os.Prelude.{◌≡◌, refl, false, List, [], ◌∷◌, none, some, arith}
use whatsapp_os.Prelude.Int.{pos, ◌+ℤ◌, ◌-ℤ◌, ◌*ℤ◌}
use whatsapp_os.Prelude.Table.{sum_of}
use whatsapp_os.Authz.{manager}
use whatsapp_os.Inventory.{StockKey, StockRow, has_key, mark_sold}
use whatsapp_os.Inventory.Laws.{units}
use whatsapp_os.Orders.Status.{
  OrderStatus, pending, confirmed, shipped, delivered, unpaid, unfulfilled, cod,
}
use whatsapp_os.Orders.{
  DeliveryAddress, OrderRow, Db, TenantContext, items_of, sell_all, move_items,
}
use whatsapp_os.Orders.Update.{UpdateEnds, update_order_expected}
use whatsapp_os.Orders.Service.{UpdateOrderInput, update_order, update_order_status, cancel_order}
use whatsapp_os.Orders.Laws.{status_outcome}
use whatsapp_os.Orders.Transition.{may_follow, moved, moved_stock, update_order_status_expected}
use whatsapp_os.Orders.Cancel.{expected_cancel, cancel_order_expected}
use whatsapp_os.Money.{
  pkr, money, add, subtract, sum, multiply, math_round, percentage_of, share, compare_money,
  clamp_to_zero,
}
use whatsapp_os.Prelude.Result.{ok}
use whatsapp_os.Totals.{
  check_quantity, discount_line, compute_line, compute_lines, apply_discount, check_threshold,
  reaches, delivery, check_rate, exclusive_tax, taxed, charge, compute_order_totals,
}
use whatsapp_os.Orders.Figures.{
  MoneySettings, CallerAmounts, FinalItem, OrderFigures, honoured, threshold_of, lines_of, with_tax,
  order_figures,
}
use whatsapp_os.Orders.Reconciled.{AddsUp, order_figures-AddsUp}
use whatsapp_os.Orders.Stock.{order_changes_conserve, SameElsewhere, order_changes_keep_other_stock}

abbrev clerk : TenantContext
clerk = record { workspace_id = 1; role = manager; membership_id = 4 }

abbrev to_amina : DeliveryAddress
to_amina = record {
  customer_name = "Amina";
  phone_e164 = "+923001234567";
  address_line1 = some "12 Mall Road";
  address_line2 = none;
  city = some "Lahore";
  postal_code = none;
  country = "PK";
  courier_name = none;
  tracking_number = none;
}

abbrev order_in : OrderStatus → OrderRow
order_in status = record {
  id = 9;
  workspace_id = 1;
  contact_id = 3;
  address = to_amina;
  status = status;
  payment_status = unpaid;
  fulfillment_status = unfulfilled;
  payment_method = cod;
  subtotal_minor = pos 500;
  discount_minor = pos 0;
  delivery_fee_minor = pos 0;
  tax_minor = pos 0;
  total_minor = pos 500;
  created_by_ai = false;
  notes = none;
  confirmed_at = none;
  shipped_at = none;
  delivered_at = none;
  cancelled_at = none;
  cancel_reason = none;
  deleted_at = none;
}

abbrev shirt : StockKey
shirt = record { workspace_id = 1; product_id = 7; variant_id = none }

-- Two reserved for the order, and three for others.
abbrev stocked : List StockRow
stocked =
    record { id = 1; key = shirt; available = 4; reserved = 5; sold = 0; low_stock_threshold = 2 }
    ∷ []

abbrev shop : OrderStatus → Db
shop status = record {
  orders = order_in status ∷ [];
  items =
      record {
        workspace_id = 1;
        order_id = 9;
        product_id = some 7;
        variant_id = none;
        unit_price_minor = pos 250;
        quantity = 2;
        line_subtotal_minor = pos 500;
      }
      ∷ [];
  events = [];
  stock = stocked;
}

update_order_status_expected_example :
    update_order_status clerk 9 delivered none 77 (shop shipped)
    ≡ status_outcome
        (λ from. may_follow from delivered)
        (moved delivered none 77)
        (moved_stock delivered 1)
        clerk
        9
        delivered
        none
        (shop shipped)
update_order_status_expected_example =
    update_order_status_expected clerk 9 delivered none 77 (shop shipped)

cancel_order_expected_example :
    cancel_order clerk 9 "no answer" 77 (shop confirmed)
    ≡ expected_cancel clerk 9 "no answer" 77 (shop confirmed)
cancel_order_expected_example = cancel_order_expected clerk 9 "no answer" 77 (shop confirmed)

order_changes_conserve_example :
    (sum_of (units shirt) (update_order_status clerk 9 delivered none 77 (shop shipped)).1.stock
      ≡ sum_of (units shirt) stocked)
    × (sum_of (units shirt) (cancel_order clerk 9 "no answer" 77 (shop shipped)).1.stock
        ≡ sum_of (units shirt) stocked)
order_changes_conserve_example =
    order_changes_conserve shirt clerk 9 delivered none "no answer" 77 (shop shipped)

order_changes_keep_other_stock_example :
    SameElsewhere 2 stocked (update_order_status clerk 9 delivered none 77 (shop shipped)).1.stock
    × SameElsewhere 2 stocked (cancel_order clerk 9 "no answer" 77 (shop shipped)).1.stock
order_changes_keep_other_stock_example =
    order_changes_keep_other_stock 2 clerk 9 delivered none "no answer" 77 (shop shipped)
      (λ same. absurd (omega arith))

-- Delivered twice, the order has taken four of the five reserved units, two of them of others.
sold_twice :
    sell_all 1 (items_of 1 9 (shop delivered)) (sell_all 1 (items_of 1 9 (shop delivered)) stocked)
    ≡ record { id = 1; key = shirt; available = 4; reserved = 1; sold = 4; low_stock_threshold = 2 }
      ∷ []
unfolding mark_sold has_key move_items
sold_twice = refl

abbrev cash : UpdateOrderInput
cash = record {
  customer_name = none;
  phone_e164 = none;
  address_line1 = none;
  address_line2 = none;
  city = some (some "Karachi");
  postal_code = none;
  country = none;
  notes = some none;
  payment_method = some cod;
  courier_name = none;
  tracking_number = none;
}

update_order_expected_example :
    UpdateEnds clerk 9 cash (shop pending) (update_order clerk 9 cash (shop pending))
update_order_expected_example = update_order_expected clerk 9 cash (shop pending)

-- A shirt at 2500, a tax of 300 entered by hand and the delivery of the settings.
abbrev policy : MoneySettings
policy = record {
  delivery_fee_minor = pos 250;
  free_delivery_threshold_minor = some (pos 5000);
  tax_rate_bps = pos 1750;
}

abbrev by_hand : CallerAmounts
by_hand = record {
  discount_minor = some (pos 100);
  delivery_fee_minor = none;
  tax_minor = some (pos 300);
}

abbrev figures : OrderFigures
figures = record {
  subtotal_minor = pos 2500;
  discount_minor = pos 100;
  delivery_fee_minor = pos 250;
  tax_minor = pos 300;
  total_minor = pos 2950;
}

abbrev one_shirt : List FinalItem
one_shirt = record { unit_price_minor = pos 2500; quantity = pos 1 } ∷ []

figures_run : order_figures false by_hand policy pkr one_shirt ≡ ok figures
unfolding order_figures honoured threshold_of lines_of with_tax compute_order_totals charge taxed
    exclusive_tax check_rate delivery reaches check_threshold apply_discount compute_lines
    compute_line discount_line check_quantity money add subtract sum multiply math_round
    percentage_of share compare_money clamp_to_zero ◌+ℤ◌ ◌-ℤ◌ ◌*ℤ◌
figures_run = refl

order_figures-AddsUp_example : AddsUp figures
order_figures-AddsUp_example =
    order_figures-AddsUp false by_hand policy pkr one_shirt figures figures_run
