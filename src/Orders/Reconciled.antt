-- ===== src/Orders/Reconciled.antt =====
-- The stored columns of a new order reconcile.
use mathlib.Core.Path.{subst}
use whatsapp_os.Totals.Lines.{AllPriced}
use whatsapp_os.Prelude.{◌≡◌, refl, ap, ◌∙◌, Bool, List, [], ◌∷◌, map, none, or_else}
use whatsapp_os.Prelude.Int.{ℤ, pos, pos_part, neg_part, ◌+ℤ◌, int_laws}
use whatsapp_os.Prelude.Result.{Result, ok, >>=-eq-ok, wrap}
use whatsapp_os.Money.{Currency, money, add}
use whatsapp_os.Money.Laws.{total_minor}
use whatsapp_os.Totals.{
  TotalsError, arithmetic, OrderLineInput, OrderLineTotals, OrderTotals, compute_order_totals,
}
use whatsapp_os.Totals.Laws.{compute_order_totals-IsReconciled, exact_add}
use whatsapp_os.Orders.Figures.{
  MoneySettings, CallerAmounts, FinalItem, OrderFigures, honoured, threshold_of, lines_of, with_tax,
  order_figures,
}

-- subtotal - discount + delivery + tax = total.
abbrev pub AddsUp : OrderFigures → Type 0
AddsUp f =
    f.total_minor +ℤ f.discount_minor ≡ f.subtotal_minor +ℤ f.delivery_fee_minor +ℤ f.tax_minor

figures-injective :
    {a b : OrderFigures} → (let r : Result TotalsError OrderFigures = ok a in r ≡ ok b) → a ≡ b
figures-injective h = cc

lines-injective :
    {a b : List OrderLineInput}
    → (let r : Result TotalsError (List OrderLineInput) = ok a in r ≡ ok b)
    → a ≡ b
lines-injective h = cc

taxed_columns :
    (total discount subtotal fee tax entered tax' total' : ℤ)
    → total +ℤ discount ≡ subtotal +ℤ fee +ℤ tax
    → tax' ≡ tax +ℤ entered
    → total' ≡ total +ℤ entered
    → total' +ℤ discount ≡ subtotal +ℤ fee +ℤ tax'
taxed_columns total discount subtotal fee tax entered tax' total' h g k =
    let up = ap pos_part h in let down = ap neg_part h in rw (g, k) (omega int_laws)

drop_zero :
    (subtotal lines fee tax : ℤ)
    → lines ≡ pos 0
    → subtotal +ℤ lines +ℤ fee +ℤ tax ≡ subtotal +ℤ fee +ℤ tax
drop_zero subtotal lines fee tax h = rw h (omega int_laws)

with_tax-AddsUp :
    (currency : Currency) (entered : ℤ) (totals : OrderTotals) (f : OrderFigures)
    → totals.total.minor +ℤ totals.discount.minor
      ≡ totals.subtotal.minor +ℤ totals.delivery_fee.minor +ℤ totals.tax.minor
    → with_tax currency entered totals ≡ ok f
    → AddsUp f
unfolding with_tax
with_tax-AddsUp currency entered totals f balance h =
    let (override, _, h1) =
      >>=-eq-ok (wrap {F = TotalsError} arithmetic (money entered currency)) _ h in
    let (tax, taxed, h2) =
      >>=-eq-ok (wrap {F = TotalsError} arithmetic (add totals.tax override)) _ h1 in
    let (total, totalled, h3) =
      >>=-eq-ok (wrap {F = TotalsError} arithmetic (add totals.total override)) _ h2 in
    subst AddsUp (figures-injective h3) (
      taxed_columns totals.total.minor totals.discount.minor totals.subtotal.minor
        totals.delivery_fee.minor totals.tax.minor override.minor tax.minor total.minor balance
        (exact_add totals.tax override taxed) (exact_add totals.total override totalled))

-- The lines of a new order have no discount of their own.
abbrev Undiscounted : List OrderLineInput → Type 0
Undiscounted [] = Unit
Undiscounted (line ∷ lines) = (line.discount ≡ none) × Undiscounted lines

lines_of-Undiscounted :
    (currency : Currency) (items : List FinalItem) (lines : List OrderLineInput)
    → lines_of currency items ≡ ok lines
    → Undiscounted lines
unfolding lines_of
lines_of-Undiscounted currency [] lines h = subst Undiscounted (lines-injective h) tt
lines_of-Undiscounted currency (item ∷ items) lines h =
    let (price, _, h1) =
      >>=-eq-ok (wrap {F = TotalsError} arithmetic (money item.unit_price_minor currency)) _ h in
    let (rest, more, h2) = >>=-eq-ok (lines_of currency items) _ h1 in
    subst Undiscounted (lines-injective h2) (refl, lines_of-Undiscounted currency items rest more)

no_line_discounts :
    (currency : Currency) (asked : List OrderLineInput) (lines : List OrderLineTotals)
    → Undiscounted asked
    → AllPriced currency asked lines
    → total_minor (map (λ line. line.discount) lines) ≡ pos 0
no_line_discounts currency [] [] u p = refl
no_line_discounts currency (a ∷ rest) [] u p = absurd p
no_line_discounts currency [] (line ∷ lines) u p = absurd p
no_line_discounts currency (a ∷ rest) (line ∷ lines) (none_here, u) (p, ps) =
    let tail = no_line_discounts currency rest lines u ps in
    let kept = p.discount_kept in rw kept (rw none_here (rw tail (omega int_laws)))

-- Whoever creates the order and whatever they entered, the columns that are stored add up.
pub order_figures-AddsUp :
    (created_by_ai : Bool) (entered : CallerAmounts) (settings : MoneySettings)
    (currency : Currency) (items : List FinalItem) (f : OrderFigures)
    → order_figures created_by_ai entered settings currency items ≡ ok f
    → AddsUp f
unfolding order_figures
order_figures-AddsUp created_by_ai entered settings currency items f h =
    let amounts = honoured created_by_ai entered in
    let (fee, _, h1) =
      >>=-eq-ok
        (wrap {F = TotalsError} arithmetic
          (money (or_else amounts.delivery_fee_minor settings.delivery_fee_minor) currency))
        _ h in
    let (threshold, _, h2) = >>=-eq-ok (threshold_of settings amounts currency) _ h1 in
    let (lines, asked, h3) = >>=-eq-ok (lines_of currency items) _ h2 in
    let (discount, _, h4) =
      >>=-eq-ok
        (wrap {F = TotalsError} arithmetic
          (money (or_else amounts.discount_minor (pos 0)) currency))
        _ h3 in
    let (totals, priced, h5) = >>=-eq-ok (compute_order_totals _) _ h4 in
    let reconciled = compute_order_totals-IsReconciled _ totals priced in
    let nothing_off =
      no_line_discounts currency lines totals.lines
        (lines_of-Undiscounted currency items lines asked) (reconciled.items.0) in
    with_tax-AddsUp currency (or_else amounts.tax_minor (pos 0)) totals f
      (reconciled.balance
        ∙ drop_zero totals.subtotal.minor _ totals.delivery_fee.minor totals.tax.minor nothing_off)
      h5
