-- ===== src/Totals/Lines.antt =====
-- The items of an order: what `compute_lines` of server/domain/order-totals.ts guarantees of each.
use whatsapp_os.Prelude.{ℕ, ◌+◌, ◌≡◌, List, [], ◌∷◌, map, arith, or_else, length}
use whatsapp_os.Prelude.Int.{ℤ, pos, ◌-ℤ◌, ◌*ℤ◌, ◌≤ℤ◌, int_laws}
use whatsapp_os.Prelude.Result.{Result, ok, >>=-eq-ok, wrap, ◌>>◌}
use whatsapp_os.Money.{Currency, Money, Number, multiply, zero_money}
use whatsapp_os.Money.Laws.{multiply-Yields, subtract-Yields, integer_of, total_minor}
use whatsapp_os.Totals.{
  TotalsError, OrderLineInput, OrderLineTotals, max_line_quantity, require_amount, check_quantity,
  arithmetic, compute_line, discount_line, compute_lines,
}

-- A priced item: the price, quantity and discount are those that were asked for, gross is price ×
-- quantity, the discount lies between 0 and gross, and the total is what is left, in the order's
-- currency.
pub record IsPriced (currency : Currency) (asked : OrderLineInput) (line : OrderLineTotals)
    : Type 0 where
  pub price_kept : line.unit_price ≡ asked.unit_price
  pub quantity_kept : line.quantity ≡ integer_of asked.quantity
  pub discount_kept : line.discount ≡ or_else asked.discount (zero_money currency)
  pub gross_exact : line.gross.minor ≡ line.unit_price.minor *ℤ line.quantity
  pub quantity_min : pos 1 ≤ℤ line.quantity
  pub quantity_max : line.quantity ≤ℤ pos max_line_quantity
  pub price_nonneg : pos 0 ≤ℤ line.unit_price.minor
  pub discount_nonneg : pos 0 ≤ℤ line.discount.minor
  pub discount_fits : line.discount.minor ≤ℤ line.gross.minor
  pub total_exact : line.total.minor ≡ line.gross.minor -ℤ line.discount.minor
  pub total_currency : line.total.currency ≡ currency

-- What the discount stage adds to a gross amount and a quantity that it is given.
abbrev IsDiscounted : Currency → OrderLineInput → ℤ → Money → OrderLineTotals → Type 0
IsDiscounted currency line quantity gross priced =
    (priced.unit_price ≡ line.unit_price)
    × (priced.quantity ≡ quantity)
    × (priced.gross ≡ gross)
    × (priced.discount ≡ or_else line.discount (zero_money currency))
    × (pos 0 ≤ℤ priced.discount.minor)
    × (priced.discount.minor ≤ℤ gross.minor)
    × (priced.total.minor ≡ gross.minor -ℤ priced.discount.minor)
    × (priced.total.currency ≡ gross.currency)

discount_line-IsDiscounted :
    (currency : Currency) (number : ℕ) (line : OrderLineInput) (quantity : ℤ) (gross : Money)
    (priced : OrderLineTotals)
    → discount_line currency number line quantity gross ≡ ok priced
    → IsDiscounted currency line quantity gross priced
unfolding discount_line
discount_line-IsDiscounted currency number line quantity gross priced h =
    ground (arith, subtract-Yields gross (or_else line.discount (zero_money currency)))

pub check_quantity-eq-ok :
    (number : ℕ) (n : Number) {q : ℤ}
    → check_quantity number n ≡ ok q
    → (integer_of n ≡ q) × (pos 1 ≤ℤ q) × (q ≤ℤ pos max_line_quantity)
unfolding check_quantity
check_quantity-eq-ok number n h = ground arith

-- What the source has tested before the discount stage, put together with what that stage adds.
IsPriced-stage :
    (currency : Currency) (line : OrderLineInput) (q : ℤ) (gross : Money) (priced : OrderLineTotals)
    → (integer_of line.quantity ≡ q) × (pos 1 ≤ℤ q) × (q ≤ℤ pos max_line_quantity)
    → (line.unit_price.currency ≡ currency) × (pos 0 ≤ℤ line.unit_price.minor)
    → wrap {F = TotalsError} arithmetic (multiply line.unit_price line.quantity) ≡ ok gross
    → IsDiscounted currency line q gross priced
    → IsPriced currency line priced
IsPriced-stage currency line q gross priced a b product d =
    ground (arith, multiply-Yields line.unit_price line.quantity)

-- What `require_amount` has tested when the chain goes on.
pub require_amount-eq-ok :
    {A : Type 0} (currency : Currency) (amount : Money) (e f : TotalsError)
    (k : Result TotalsError A) {a : A}
    → (require_amount currency amount e f >> k) ≡ ok a
    → (amount.currency ≡ currency) × (pos 0 ≤ℤ amount.minor) × (k ≡ ok a)
require_amount-eq-ok currency amount e f k h = ground arith

pub compute_line-IsPriced :
    (currency : Currency) (number : ℕ) (line : OrderLineInput) (priced : OrderLineTotals)
    → compute_line currency number line ≡ ok priced
    → IsPriced currency line priced
unfolding compute_line
compute_line-IsPriced currency number line priced h =
    let (q, checked, h1) = >>=-eq-ok (check_quantity number line.quantity) _ h in
    let (same_currency, nonneg, h2) = require_amount-eq-ok currency line.unit_price _ _ _ h1 in
    let (gross, product, h3) =
      >>=-eq-ok (wrap arithmetic (multiply line.unit_price line.quantity)) _ h2 in
    IsPriced-stage currency line q gross priced (check_quantity-eq-ok number line.quantity checked)
      (same_currency, nonneg) product
      (discount_line-IsDiscounted currency number line q gross priced h3)

-- All the items, in order.
abbrev pub AllPriced : Currency → List OrderLineInput → List OrderLineTotals → Type 0
AllPriced currency [] [] = Unit
AllPriced currency (asked ∷ rest) (line ∷ lines) =
    IsPriced currency asked line × AllPriced currency rest lines
AllPriced currency _ _ = ⊥

pub compute_lines-AllPriced :
    (currency : Currency) (number : ℕ) (lines : List OrderLineInput) (priced : List OrderLineTotals)
    → compute_lines currency number lines ≡ ok priced
    → AllPriced currency lines priced × (length priced ≡ length lines)
unfolding compute_lines
compute_lines-AllPriced currency number [] priced h = ground arith
compute_lines-AllPriced currency number (line ∷ lines) priced h =
    let (first, one, h1) = >>=-eq-ok (compute_line currency number line) _ h in
    let (rest, more, h2) = >>=-eq-ok (compute_lines currency (number + 1) lines) _ h1 in
    let head = compute_line-IsPriced currency number line first one in
    let (tail, same_length) = compute_lines-AllPriced currency (number + 1) lines rest more in
    ground arith

pub line_nonneg :
    (currency : Currency) (asked : OrderLineInput) (line : OrderLineTotals)
    → IsPriced currency asked line
    → (pos 0 ≤ℤ line.total.minor) × (pos 0 ≤ℤ line.discount.minor)
line_nonneg currency asked line p =
    (rw (p.total_exact) (let fits = p.discount_fits in omega int_laws), p.discount_nonneg)

-- What is summed over priced items is not negative.
pub total_nonneg :
    (currency : Currency) (asked : List OrderLineInput) (lines : List OrderLineTotals)
    → AllPriced currency asked lines
    → (pos 0 ≤ℤ total_minor (map (λ line. line.total) lines))
      × (pos 0 ≤ℤ total_minor (map (λ line. line.discount) lines))
total_nonneg currency [] [] h = omega arith
total_nonneg currency (line ∷ rest) [] h = absurd h
total_nonneg currency [] (line ∷ lines) h = absurd h
total_nonneg currency (asked ∷ rest) (line ∷ lines) (p, h) =
    let tail = total_nonneg currency rest lines h in
    let head = line_nonneg currency asked line p in (omega int_laws, omega int_laws)
