-- ===== src/Orders/Figures.antt =====
-- The money of a new order, step 3 of `createOrder` in server/services/order/order.service.ts: whose
-- amounts count, and the columns that are stored.
use whatsapp_os.Prelude.{Bool, true, false, List, [], ◌∷◌, Option, none, some, or_else}
use whatsapp_os.Prelude.Int.{ℤ, pos}
use whatsapp_os.Prelude.Result.{Result, ok, ◌>>=◌, wrap}
use whatsapp_os.Money.{Currency, Money, whole, money, add}
use whatsapp_os.Totals.{TotalsError, arithmetic, OrderLineInput, OrderTotals, compute_order_totals}

-- The business's own policy.
pub record MoneySettings : Type 0 where
  pub delivery_fee_minor : ℤ
  pub free_delivery_threshold_minor : Option ℤ
  pub tax_rate_bps : ℤ

-- What the caller entered.
pub record CallerAmounts : Type 0 where
  pub discount_minor : Option ℤ
  pub delivery_fee_minor : Option ℤ
  pub tax_minor : Option ℤ

pub record FinalItem : Type 0 where
  pub unit_price_minor : ℤ
  pub quantity : ℤ

pub record OrderFigures : Type 0 where
  pub subtotal_minor : ℤ
  pub discount_minor : ℤ
  pub delivery_fee_minor : ℤ
  pub tax_minor : ℤ
  pub total_minor : ℤ

-- An order that the AI creates has no say over its amounts.
unfoldable pub honoured : Bool → CallerAmounts → CallerAmounts
honoured true amounts = record {
  discount_minor = none;
  delivery_fee_minor = none;
  tax_minor = none;
}
honoured false amounts = amounts

unfoldable pub threshold_of :
    MoneySettings → CallerAmounts → Currency → Result TotalsError (Option Money)
threshold_of settings amounts currency = elim amounts.delivery_fee_minor [
  | some entered ↦ ok none
  | none ↦ elim settings.free_delivery_threshold_minor [
    | none ↦ ok none
    | some threshold ↦ wrap arithmetic (money threshold currency) >>= λ amount. ok (some amount)
  ]
]

unfoldable pub lines_of : Currency → List FinalItem → Result TotalsError (List OrderLineInput)
lines_of currency [] = ok []
lines_of currency (item ∷ items) = do
  unit_price ← wrap arithmetic (money item.unit_price_minor currency)
  rest ← lines_of currency items
  ok (record { unit_price = unit_price; quantity = whole item.quantity; discount = none } ∷ rest)

-- An entered tax replaces the rate, and is added to what the engine found.
unfoldable pub with_tax : Currency → ℤ → OrderTotals → Result TotalsError OrderFigures
with_tax currency entered totals = do
  override_tax ← wrap arithmetic (money entered currency)
  tax ← wrap arithmetic (add totals.tax override_tax)
  total ← wrap arithmetic (add totals.total override_tax)
  ok (record {
    subtotal_minor = totals.subtotal.minor;
    discount_minor = totals.discount.minor;
    delivery_fee_minor = totals.delivery_fee.minor;
    tax_minor = tax.minor;
    total_minor = total.minor;
  })

abbrev pub rate_of : MoneySettings → CallerAmounts → ℤ
rate_of settings amounts = elim amounts.tax_minor [
  | none ↦ settings.tax_rate_bps
  | some entered ↦ pos 0
]

unfoldable pub order_figures :
    Bool
    → CallerAmounts
    → MoneySettings
    → Currency
    → List FinalItem
    → Result TotalsError OrderFigures
order_figures created_by_ai entered settings currency items = do
  let amounts = honoured created_by_ai entered
  delivery_fee ←
      wrap arithmetic
        (money (or_else amounts.delivery_fee_minor settings.delivery_fee_minor) currency)
  threshold ← threshold_of settings amounts currency
  lines ← lines_of currency items
  discount ← wrap arithmetic (money (or_else amounts.discount_minor (pos 0)) currency)
  totals ← compute_order_totals (record {
    currency = currency;
    lines = lines;
    delivery_fee = some delivery_fee;
    discount = some discount;
    free_delivery_threshold = threshold;
    tax_basis_points = some (whole (rate_of settings amounts));
    tax_inclusive = false;
  })
  with_tax currency (or_else amounts.tax_minor (pos 0)) totals
