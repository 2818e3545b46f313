-- ===== src/Totals.antt =====
-- server/domain/order-totals.ts: the one place where the money of an order is computed.
pub mod Lines
mod Stages
pub mod Laws
mod Tests
use whatsapp_os.Prelude.{
  ℕ, ◌+◌, ◌*◌, Bool, true, false, not, ◌&&◌, ◌||◌, List, [], ◌∷◌, map, Option, none, some, ltb,
  length, or_else, is_some, if◌then◌else◌, ◌==◌,
}
use whatsapp_os.Prelude.Int.{ℤ, pos, ltb_ℤ, is_negative, magnitude, ◌+ℤ◌, ◌*ℤ◌}
use whatsapp_os.Prelude.Result.{Result, ok, err, ◌>>=◌, ◌>>◌, throw_if, wrap}
use whatsapp_os.Money.{
  Currency, ◌same◌, Money, Number, whole, fraction, MoneyError, money, add, subtract, sum, multiply,
  round_scaled, percentage_of, Sign, less, compare_money, is_zero, clamp_to_zero, zero_money,
}

-- What `computeOrderTotals` throws: a `BusinessRuleError` of its own, an item's with its place, or
-- a `MoneyError` of lib/money.ts.
pub data TotalsError : Type 0 where
  no_items too_many_items item_currency discount_currency negative_discount : TotalsError
  fee_currency negative_fee threshold_currency negative_threshold tax_rate : TotalsError
  item_quantity item_quantity_large item_negative_price item_discount_large : ℕ → TotalsError
  arithmetic : MoneyError → TotalsError

pub record OrderLineInput : Type 0 where
  pub unit_price : Money
  pub quantity : Number
  pub discount : Option Money

pub record OrderLineTotals : Type 0 where
  pub unit_price : Money
  pub quantity : ℤ
  pub gross : Money
  pub discount : Money
  pub total : Money

pub record OrderChargeInput : Type 0 where
  pub currency : Currency
  pub lines : List OrderLineInput
  pub delivery_fee : Option Money
  pub discount : Option Money
  pub free_delivery_threshold : Option Money
  pub tax_basis_points : Option Number
  pub tax_inclusive : Bool

pub record OrderTotals : Type 0 where
  pub currency : Currency
  pub lines : List OrderLineTotals
  pub subtotal : Money
  pub discount : Money
  pub delivery_fee : Money
  pub tax : Money
  pub total : Money
  pub free_delivery_applied : Bool

abbrev pub max_line_quantity : ℕ
max_line_quantity = 10000

abbrev pub max_lines : ℕ
max_lines = 200

-- An amount of the order's currency that is not negative.
abbrev pub require_amount :
    Currency → Money → TotalsError → TotalsError → Result TotalsError (Unit {0})
require_amount currency amount wrong_currency negative = do
  throw_if (not (amount.currency same currency)) wrong_currency
  throw_if (is_negative amount.minor) negative

-- The tests on an item's quantity; `number` is its place, from 1.
unfoldable pub check_quantity : ℕ → Number → Result TotalsError ℤ
check_quantity number fraction = err (item_quantity number)
check_quantity number (whole quantity) = do
  throw_if (ltb_ℤ quantity (pos 1)) (item_quantity number)
  throw_if (ltb_ℤ (pos max_line_quantity) quantity) (item_quantity_large number)
  ok quantity

-- The body of `input.lines.map`, from the discount on.
unfoldable pub discount_line :
    Currency → ℕ → OrderLineInput → ℤ → Money → Result TotalsError OrderLineTotals
discount_line currency number line quantity gross = do
  let discount = or_else line.discount (zero_money currency)
  require_amount currency discount discount_currency negative_discount
  throw_if (ltb_ℤ gross.minor discount.minor) (item_discount_large number)
  total ← wrap arithmetic (subtract gross discount)
  ok (record {
    unit_price = line.unit_price;
    quantity = quantity;
    gross = gross;
    discount = discount;
    total = total;
  })

-- The body of `input.lines.map`.
unfoldable pub compute_line : Currency → ℕ → OrderLineInput → Result TotalsError OrderLineTotals
compute_line currency number line = do
  quantity ← check_quantity number line.quantity
  require_amount currency line.unit_price item_currency (item_negative_price number)
  gross ← wrap arithmetic (multiply line.unit_price line.quantity)
  discount_line currency number line quantity gross

unfoldable pub compute_lines :
    Currency → ℕ → List OrderLineInput → Result TotalsError (List OrderLineTotals)
compute_lines currency number [] = ok []
compute_lines currency number (line ∷ lines) = do
  first ← compute_line currency number line
  rest ← compute_lines currency (number + 1) lines
  ok (first ∷ rest)

-- The goods after the order-level discount, and the part of that discount which applied.
unfoldable pub apply_discount : Currency → Money → Option Money → Result TotalsError (Money × Money)
apply_discount currency subtotal requested = do
  let order_discount = or_else requested (zero_money currency)
  require_amount currency order_discount discount_currency negative_discount
  difference ← wrap arithmetic (subtract subtotal order_discount)
  let discounted = clamp_to_zero difference
  applied ← wrap arithmetic (subtract subtotal discounted)
  ok (discounted, applied)

unfoldable pub check_threshold : Currency → Option Money → Result TotalsError (Unit {0})
check_threshold currency none = ok tt
check_threshold currency (some threshold) =
    require_amount currency threshold threshold_currency negative_threshold

-- `compare(goods, threshold) >= 0`, asked only where a fee is configured.
unfoldable pub reaches : Money → Money → Option Money → Result TotalsError Bool
reaches goods fee none = ok false
reaches goods fee (some threshold) = if is_zero fee then ok false else do
  order ← wrap arithmetic (compare_money goods threshold)
  ok (elim order [ less ↦ false | _ ↦ true ])

-- The delivery fee that is charged, and whether a threshold waived it.
unfoldable pub delivery :
    Currency → Money → Option Money → Option Money → Result TotalsError (Money × Bool)
delivery currency goods fee threshold = do
  let configured = or_else fee (zero_money currency)
  require_amount currency configured fee_currency negative_fee
  check_threshold currency threshold
  waived ← reaches goods configured threshold
  ok (if waived then zero_money currency else configured, waived)

unfoldable pub check_rate : Number → Result TotalsError ℤ
check_rate fraction = err tax_rate
check_rate (whole rate) =
    if is_negative rate || ltb_ℤ (pos 10000) rate then err tax_rate else ok rate

-- A tax that the marked prices contain, and one that is added to them.
unfoldable pub inclusive_tax : Currency → Money → ℤ → Result TotalsError (Money × Money)
inclusive_tax currency base rate = do
  let rounded = round_scaled (base.minor *ℤ rate) (10000 + magnitude rate)
  tax ← wrap arithmetic (money rounded currency)
  ok (tax, base)

unfoldable pub exclusive_tax : Money → ℤ → Result TotalsError (Money × Money)
exclusive_tax base rate = do
  tax ← wrap arithmetic (percentage_of base (whole rate))
  total ← wrap arithmetic (add base tax)
  ok (tax, total)

-- The tax on the goods with the delivery fee, and the order's total.
unfoldable pub taxed : Currency → Money → ℤ → Bool → Result TotalsError (Money × Money)
taxed currency base rate inclusive =
    if magnitude rate == 0
    then ok (zero_money currency, base)
    else if inclusive
    then inclusive_tax currency base rate
    else exclusive_tax base rate

-- `computeOrderTotals` from the order-level discount on.
unfoldable pub charge :
    OrderChargeInput → List OrderLineTotals → Money → Result TotalsError OrderTotals
charge input lines subtotal = do
  (discounted, applied) ← apply_discount input.currency subtotal input.discount
  (fee, waived) ←
      delivery input.currency discounted input.delivery_fee input.free_delivery_threshold
  rate ← check_rate (or_else input.tax_basis_points (whole (pos 0)))
  base ← wrap arithmetic (add discounted fee)
  (tax, total) ← taxed input.currency base rate input.tax_inclusive
  line_discounts ← wrap arithmetic (sum (map (λ line. line.discount) lines) input.currency)
  discount ← wrap arithmetic (add line_discounts applied)
  ok (record {
    currency = input.currency;
    lines = lines;
    subtotal = subtotal;
    discount = discount;
    delivery_fee = fee;
    tax = tax;
    total = total;
    free_delivery_applied = waived;
  })

unfoldable pub compute_order_totals : OrderChargeInput → Result TotalsError OrderTotals
compute_order_totals input = do
  throw_if (length input.lines == 0) no_items
  throw_if (ltb max_lines (length input.lines)) too_many_items
  lines ← compute_lines input.currency 1 input.lines
  subtotal ← wrap arithmetic (sum (map (λ line. line.total) lines) input.currency)
  charge input lines subtotal
