-- ===== src/Totals/Laws.antt =====
-- A priced order adds up.
use mathlib.Core.Path.{subst}
use whatsapp_os.Prelude.{
  ◌≤◌, ◌≡◌, Bool, true, false, List, map, arith, or_else, length, ◌==◌, if◌then◌else◌,
}
use whatsapp_os.Prelude.Int.{ℤ, pos, magnitude, ◌+ℤ◌, ◌≤ℤ◌, int_laws}
use whatsapp_os.Prelude.Result.{Result, ok, >>=-eq-ok, throw_if-eq-ok, wrap}
use whatsapp_os.Money.{Currency, Money, Number, whole, fraction, add, sum, zero_money}
use whatsapp_os.Money.Laws.{add-eq-ok, sum-eq-ok, total_minor}
use whatsapp_os.Totals.{
  TotalsError, OrderLineTotals, OrderChargeInput, OrderTotals, arithmetic, check_rate,
  compute_lines, apply_discount, delivery, taxed, charge, compute_order_totals,
}
use whatsapp_os.Totals.Lines.{AllPriced, compute_lines-AllPriced, total_nonneg}
use whatsapp_os.Totals.Stages.{
  wrap-eq-ok, IsCut, apply_discount-IsCut, IsDelivery, delivery-IsDelivery, IsTaxed, taxed-IsTaxed,
}

-- What every computed order satisfies, against its input.
pub record IsReconciled (input : OrderChargeInput) (t : OrderTotals) : Type 0 where
  pub items : AllPriced input.currency input.lines t.lines × (length t.lines ≡ length input.lines)
  pub subtotal_exact : t.subtotal.minor ≡ total_minor (map (λ line. line.total) t.lines)
  pub balance :
      t.total.minor +ℤ t.discount.minor
      ≡ t.subtotal.minor
        +ℤ total_minor (map (λ line. line.discount) t.lines)
        +ℤ t.delivery_fee.minor
        +ℤ (if input.tax_inclusive then pos 0 else t.tax.minor)
  pub nonneg :
      (pos 0 ≤ℤ t.subtotal.minor)
      × (pos 0 ≤ℤ t.discount.minor)
      × (pos 0 ≤ℤ t.delivery_fee.minor)
      × (pos 0 ≤ℤ t.tax.minor)
      × (pos 0 ≤ℤ t.total.minor)
  pub contained : input.tax_inclusive ≡ true → t.tax.minor ≤ℤ t.total.minor
  pub fee_charged : t.delivery_fee.minor ≡ (
      if t.free_delivery_applied
      then pos 0
      else (or_else input.delivery_fee (zero_money input.currency)).minor)

module _ (goods applied fee tax lines : ℤ) where
  added : goods +ℤ fee +ℤ tax +ℤ (lines +ℤ applied) ≡ goods +ℤ applied +ℤ lines +ℤ fee +ℤ tax
  added = omega int_laws

  included : goods +ℤ fee +ℤ (lines +ℤ applied) ≡ goods +ℤ applied +ℤ lines +ℤ fee +ℤ pos 0
  included = omega int_laws

balance_of_parts :
    (goods applied fee tax lines subtotal base discount total : ℤ) (inclusive : Bool)
    → subtotal ≡ goods +ℤ applied
    → base ≡ goods +ℤ fee
    → discount ≡ lines +ℤ applied
    → total ≡ (if inclusive then base else base +ℤ tax)
    → total +ℤ discount ≡ subtotal +ℤ lines +ℤ fee +ℤ (if inclusive then pos 0 else tax)
balance_of_parts g a f x l subtotal base discount total true s b d t =
    rw (t, b, d, s) (included g a f x l)
balance_of_parts g a f x l subtotal base discount total false s b d t =
    rw (t, b, d, s) (added g a f x l)

+ℤ_nonneg : (a b c : ℤ) → c ≡ a +ℤ b → pos 0 ≤ℤ a → pos 0 ≤ℤ b → pos 0 ≤ℤ c
+ℤ_nonneg a b c e h k = rw e (omega int_laws)

total_nonneg_of_parts :
    (base tax total : ℤ) (inclusive : Bool)
    → total ≡ (if inclusive then base else base +ℤ tax)
    → pos 0 ≤ℤ base
    → pos 0 ≤ℤ tax
    → pos 0 ≤ℤ total
total_nonneg_of_parts base tax total true e h k = rw e h
total_nonneg_of_parts base tax total false e h k = +ℤ_nonneg base tax total e h k

applied_nonneg :
    (subtotal goods applied : Money) (asked : ℤ)
    → IsCut subtotal asked goods applied
    → pos 0 ≤ℤ subtotal.minor
    → pos 0 ≤ℤ applied.minor
unfolding ◌+ℤ◌
applied_nonneg subtotal goods applied asked cut s = ground arith

-- The last stage: the arithmetic that puts the stages' results together.
reconcile :
    (input : OrderChargeInput) (t : OrderTotals) (goods applied base line_discounts : Money)
    → AllPriced input.currency input.lines t.lines × (length t.lines ≡ length input.lines)
    → t.subtotal.minor ≡ total_minor (map (λ line. line.total) t.lines)
    → IsCut t.subtotal (or_else input.discount (zero_money input.currency)).minor goods applied
    → IsDelivery goods
        (or_else input.delivery_fee (zero_money input.currency))
        input.free_delivery_threshold
        t.delivery_fee
        t.free_delivery_applied
    → base.minor ≡ goods.minor +ℤ t.delivery_fee.minor
    → IsTaxed base input.tax_inclusive t.tax t.total
    → line_discounts.minor ≡ total_minor (map (λ line. line.discount) t.lines)
    → t.discount.minor ≡ line_discounts.minor +ℤ applied.minor
    → IsReconciled input t
reconcile input t goods applied base line_discounts items subtotal cut fee sum_base tax sum_lines
      sum_all =
    let (lines_nonneg, discounts_nonneg) =
      total_nonneg input.currency input.lines t.lines items.0 in
    let subtotal_nonneg : pos 0 ≤ℤ t.subtotal.minor = rw subtotal lines_nonneg in
    let base_nonneg =
      +ℤ_nonneg goods.minor t.delivery_fee.minor base.minor sum_base cut.left_nonneg
        fee.fee_nonneg in
    record {
      items = items;
      subtotal_exact = subtotal;
      balance =
          balance_of_parts goods.minor applied.minor t.delivery_fee.minor t.tax.minor
            (total_minor (map (λ line. line.discount) t.lines)) t.subtotal.minor base.minor
            t.discount.minor t.total.minor input.tax_inclusive cut.splits sum_base
            (rw (sum_all, sum_lines)) tax.total_exact;
      nonneg = (
        subtotal_nonneg,
        +ℤ_nonneg line_discounts.minor applied.minor t.discount.minor sum_all
            (rw sum_lines discounts_nonneg)
            (applied_nonneg t.subtotal goods applied _ cut subtotal_nonneg),
        fee.fee_nonneg,
        tax.tax_nonneg,
        total_nonneg_of_parts base.minor t.tax.minor t.total.minor input.tax_inclusive
            tax.total_exact base_nonneg tax.tax_nonneg,
      );
      contained = tax.contained;
      fee_charged = fee.charged;
    }

check_rate_within :
    (n : Number) {rate : ℤ} → check_rate n ≡ ok rate → (pos 0 ≤ℤ rate) × (magnitude rate ≤ 10000)
unfolding check_rate
check_rate_within (whole z) h = ground arith
check_rate_within fraction h = cc

exact_sum :
    (ms : List Money) (currency : Currency) {c : Money}
    → wrap {F = TotalsError} arithmetic (sum ms currency) ≡ ok c
    → c.minor ≡ total_minor ms
exact_sum ms currency h = (sum-eq-ok ms currency (wrap-eq-ok (sum ms currency) h)).0

pub exact_add :
    (a b : Money) {c : Money}
    → wrap {F = TotalsError} arithmetic (add a b) ≡ ok c
    → c.minor ≡ a.minor +ℤ b.minor
exact_add a b h = (add-eq-ok a b (wrap-eq-ok (add a b) h)).0

ok-injective :
    {a b : OrderTotals} → (let r : Result TotalsError OrderTotals = ok a in r ≡ ok b) → a ≡ b
ok-injective h = cc

charge-IsReconciled :
    (input : OrderChargeInput) (lines : List OrderLineTotals) (subtotal : Money) {t : OrderTotals}
    → AllPriced input.currency input.lines lines × (length lines ≡ length input.lines)
    → subtotal.minor ≡ total_minor (map (λ line. line.total) lines)
    → charge input lines subtotal ≡ ok t
    → IsReconciled input t
unfolding charge
charge-IsReconciled input lines subtotal items exact h =
    let nonneg : pos 0 ≤ℤ subtotal.minor =
      rw exact (total_nonneg input.currency input.lines lines items.0).0 in
    let ((goods, applied), h1, k1) =
      >>=-eq-ok (apply_discount input.currency subtotal input.discount) _ h in
    let ((fee, waived), h2, k2) =
      >>=-eq-ok (delivery input.currency goods input.delivery_fee input.free_delivery_threshold) _
        k1 in
    let (rate, h3, k3) =
      >>=-eq-ok (check_rate (or_else input.tax_basis_points (whole (pos 0)))) _ k2 in
    let (base, h4, k4) = >>=-eq-ok (wrap arithmetic (add goods fee)) _ k3 in
    let ((tax, total), h5, k5) =
      >>=-eq-ok (taxed input.currency base rate input.tax_inclusive) _ k4 in
    let (line_discounts, h6, k6) =
      >>=-eq-ok (wrap arithmetic (sum (map (λ line. line.discount) lines) input.currency)) _ k5 in
    let (discount, h7, k7) = >>=-eq-ok (wrap arithmetic (add line_discounts applied)) _ k6 in
    let cut = apply_discount-IsCut input.currency subtotal input.discount nonneg h1 in
    let charged =
      delivery-IsDelivery input.currency goods input.delivery_fee input.free_delivery_threshold
        h2 in
    let sum_base = exact_add goods fee h4 in
    let base_nonneg =
      +ℤ_nonneg goods.minor fee.minor base.minor sum_base cut.left_nonneg charged.fee_nonneg in
    subst (IsReconciled input) (ok-injective k7) (
      reconcile input _ goods applied base line_discounts items exact cut charged sum_base
        (taxed-IsTaxed input.currency base rate input.tax_inclusive base_nonneg
          (check_rate_within _ h3).0 (check_rate_within _ h3).1 h5)
        (exact_sum _ input.currency h6) (exact_add line_discounts applied h7))

-- Whatever the input, an order that is priced adds up: its items are those that were asked for, they
-- and the subtotal are exact, the total and the discounts equal the goods with delivery and the added
-- tax, no amount is negative, a contained tax is part of the total, and the fee is the configured one
-- unless it was waived.
pub compute_order_totals-IsReconciled :
    (input : OrderChargeInput) (t : OrderTotals)
    → compute_order_totals input ≡ ok t
    → IsReconciled input t
unfolding compute_order_totals
compute_order_totals-IsReconciled input t h =
    let (_, h1) = throw_if-eq-ok (length input.lines == 0) _ _ h in
    let (_, h2) = throw_if-eq-ok _ _ _ h1 in
    let (lines, priced, h3) = >>=-eq-ok (compute_lines input.currency 1 input.lines) _ h2 in
    let (subtotal, summed, h4) =
      >>=-eq-ok (wrap arithmetic (sum (map (λ line. line.total) lines) input.currency)) _ h3 in
    charge-IsReconciled input lines subtotal
      (compute_lines-AllPriced input.currency 1 input.lines lines priced)
      (exact_sum _ input.currency summed) h4
