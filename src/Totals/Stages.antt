-- ===== src/Totals/Stages.antt =====
-- The stages after the items: the order-level discount, the delivery fee, the tax.
use mathlib.Core.Path.{subst₂}
use whatsapp_os.Prelude.{
  ◌≡◌, ◌≤◌, ◌↔◌, Bool, true, false, Option, none, some, arith, or_else, ◌==◌, ◌⊎◌, ◌≢◌,
  if◌then◌else◌, Bool-cases, inl, inr,
}
use whatsapp_os.Prelude.Int.{ℤ, pos, ◌+ℤ◌, ◌-ℤ◌, ◌≤ℤ◌, magnitude}
use whatsapp_os.Prelude.Result.{Result, ok, err, ◌>>=◌, >>=-eq-ok, wrap}
use whatsapp_os.Money.{
  Currency, Money, MoneyError, whole, percentage_of, money, subtract, zero_money, clamp_to_zero,
  compare_money,
}
use whatsapp_os.Money.Laws.{percentage_of_nonneg, add-Yields, subtract-Yields}
use whatsapp_os.Money.Doubles.{round_scaled_contained}
use whatsapp_os.Totals.{
  TotalsError, arithmetic, check_threshold, reaches, inclusive_tax, exclusive_tax, apply_discount,
  delivery, taxed,
}
use whatsapp_os.Totals.Lines.{require_amount-eq-ok}

-- The goods after the order-level discount, against the subtotal and what was asked for: the
-- discount is cut to the subtotal, never refused for its size.
pub record IsCut (subtotal : Money) (asked : ℤ) (discounted applied : Money) : Type 0 where
  pub asked_nonneg : pos 0 ≤ℤ asked
  pub left_nonneg : pos 0 ≤ℤ discounted.minor
  pub splits : subtotal.minor ≡ discounted.minor +ℤ applied.minor
  pub cut :
      ((asked ≤ℤ subtotal.minor) × (applied.minor ≡ asked))
      ⊎ ((subtotal.minor ≤ℤ asked) × (discounted.minor ≡ pos 0))
  pub currencies :
      (discounted.currency ≡ subtotal.currency) × (applied.currency ≡ subtotal.currency)

-- The same from the difference of the subtotal and the discount.
IsCut-of_difference :
    (subtotal difference applied : Money) (asked : ℤ)
    → pos 0 ≤ℤ subtotal.minor
    → pos 0 ≤ℤ asked
    → (difference.minor ≡ subtotal.minor -ℤ asked) × (difference.currency ≡ subtotal.currency)
    → (applied.minor ≡ subtotal.minor -ℤ (clamp_to_zero difference).minor)
      × (applied.currency ≡ subtotal.currency)
    → IsCut subtotal asked (clamp_to_zero difference) applied
unfolding clamp_to_zero ◌-ℤ◌ ◌+ℤ◌
IsCut-of_difference subtotal difference applied asked s a d e = ground arith

pub wrap-eq-ok :
    {A : Type 0} (m : Result MoneyError A) {a : A}
    → wrap {F = TotalsError} arithmetic m ≡ ok a
    → m ≡ ok a
wrap-eq-ok (ok x) h = ground arith
wrap-eq-ok (err e) h = cc

difference_exact :
    (a b c : Money)
    → wrap {F = TotalsError} arithmetic (subtract a b) ≡ ok c
    → (c.minor ≡ a.minor -ℤ b.minor) × (c.currency ≡ a.currency)
difference_exact a b c h = ground (arith, subtract-Yields a b)

applied-IsCut :
    (subtotal difference discounted applied : Money) (asked : ℤ)
    → pos 0 ≤ℤ subtotal.minor
    → pos 0 ≤ℤ asked
    → (difference.minor ≡ subtotal.minor -ℤ asked) × (difference.currency ≡ subtotal.currency)
    → ◌>>=◌ {B = Money × Money}
        (wrap {F = TotalsError} arithmetic (subtract subtotal (clamp_to_zero difference)))
        (λ rest. ok (clamp_to_zero difference, rest))
      ≡ ok (discounted, applied)
    → IsCut subtotal asked discounted applied
applied-IsCut subtotal difference discounted applied asked s a d h =
    let (rest, second, h1) =
      >>=-eq-ok (wrap arithmetic (subtract subtotal (clamp_to_zero difference))) _ h in
    let exact = difference_exact subtotal (clamp_to_zero difference) rest second in
    let whole_cut = IsCut-of_difference subtotal difference rest asked s a d exact in
    let left : clamp_to_zero difference ≡ discounted = cc h1 in
    let right : rest ≡ applied = cc h1 in
    subst₂ (λ l r. IsCut subtotal asked l r) left right whole_cut

pub apply_discount-IsCut :
    (currency : Currency) (subtotal : Money) (requested : Option Money) {discounted applied : Money}
    → pos 0 ≤ℤ subtotal.minor
    → apply_discount currency subtotal requested ≡ ok (discounted, applied)
    → IsCut subtotal (or_else requested (zero_money currency)).minor discounted applied
unfolding apply_discount
apply_discount-IsCut currency subtotal requested s h =
    let asked = or_else requested (zero_money currency) in
    let (_, nonneg, h1) = require_amount-eq-ok currency asked _ _ _ h in
    let (difference, first, h2) = >>=-eq-ok (wrap arithmetic (subtract subtotal asked)) _ h1 in
    applied-IsCut subtotal difference _ _ asked.minor s nonneg
      (difference_exact subtotal asked difference first) h2

-- The threshold waives a fee: one is configured, there is a fee, and the goods reach it.
abbrev pub Waives : Option Money → Money → Money → Type 0
Waives none configured goods = ⊥
Waives (some t) configured goods = (configured.minor ≢ pos 0) × (t.minor ≤ℤ goods.minor)

pub record IsDelivery (goods configured : Money) (threshold : Option Money) (fee : Money)
    (waived : Bool) : Type 0 where
  pub fee_nonneg : pos 0 ≤ℤ fee.minor
  pub charged : fee.minor ≡ (if waived then pos 0 else configured.minor)
  pub waived_iff : (waived ≡ true) ↔ Waives threshold configured goods

reaches_iff :
    (goods configured : Money) (threshold : Option Money) {waived : Bool}
    → reaches goods configured threshold ≡ ok waived
    → (waived ≡ true) ↔ Waives threshold configured goods
unfolding reaches compare_money
reaches_iff goods configured none h = ground arith
reaches_iff goods configured (some t) h = ground arith

pub delivery-IsDelivery :
    (currency : Currency) (goods : Money) (fee threshold : Option Money) {charged : Money}
    {waived : Bool}
    → delivery currency goods fee threshold ≡ ok (charged, waived)
    → IsDelivery goods (or_else fee (zero_money currency)) threshold charged waived
unfolding delivery
delivery-IsDelivery currency goods fee threshold h =
    let configured = or_else fee (zero_money currency) in
    let (_, nonneg, h1) = require_amount-eq-ok currency configured _ _ _ h in
    let (_, _, h2) = >>=-eq-ok (check_threshold currency threshold) _ h1 in
    let (w, reached, h3) = >>=-eq-ok (reaches goods configured threshold) _ h2 in
    let iff = reaches_iff goods configured threshold reached in ground arith

-- The tax is not negative; a contained tax leaves the total alone and is no more than it, and an
-- added one raises the total by just the tax.
pub record IsTaxed (base : Money) (inclusive : Bool) (tax total : Money) : Type 0 where
  pub tax_nonneg : pos 0 ≤ℤ tax.minor
  pub total_exact : total.minor ≡ (if inclusive then base.minor else base.minor +ℤ tax.minor)
  pub contained : inclusive ≡ true → tax.minor ≤ℤ total.minor

exclusive-IsTaxed :
    (base : Money) (rate : ℤ) {tax total : Money}
    → pos 0 ≤ℤ base.minor
    → pos 0 ≤ℤ rate
    → exclusive_tax base rate ≡ ok (tax, total)
    → IsTaxed base false tax total
unfolding exclusive_tax
exclusive-IsTaxed base rate b r h =
    let (t, share, h1) = >>=-eq-ok (wrap arithmetic (percentage_of base (whole rate))) _ h in
    let nonneg = percentage_of_nonneg base rate b r (wrap-eq-ok _ share) in
    ground (arith, add-Yields base t)

inclusive-IsTaxed :
    (currency : Currency) (base : Money) (rate : ℤ) {tax total : Money}
    → pos 0 ≤ℤ base.minor
    → pos 0 ≤ℤ rate
    → magnitude rate ≤ 10000
    → inclusive_tax currency base rate ≡ ok (tax, total)
    → IsTaxed base true tax total
unfolding inclusive_tax money
inclusive-IsTaxed currency base rate b r most h =
    let within = round_scaled_contained base.minor rate b r most in ground arith

untaxed_IsTaxed :
    (currency : Currency) (base : Money) (inclusive : Bool) {tax total : Money}
    → pos 0 ≤ℤ base.minor
    → let untaxed : Result TotalsError (Money × Money) = ok (zero_money currency, base) in
      untaxed ≡ ok (tax, total) → IsTaxed base inclusive tax total
unfolding ◌+ℤ◌
untaxed_IsTaxed currency base true b h = ground arith
untaxed_IsTaxed currency base false b h = ground arith

charged-IsTaxed :
    (currency : Currency) (base : Money) (rate : ℤ) (inclusive : Bool) {tax total : Money}
    → pos 0 ≤ℤ base.minor
    → pos 0 ≤ℤ rate
    → magnitude rate ≤ 10000
    → (if inclusive then inclusive_tax currency base rate else exclusive_tax base rate)
      ≡ ok (tax, total)
    → IsTaxed base inclusive tax total
charged-IsTaxed currency base rate true b r most h = inclusive-IsTaxed currency base rate b r most h
charged-IsTaxed currency base rate false b r most h = exclusive-IsTaxed base rate b r h

pub taxed-IsTaxed :
    (currency : Currency) (base : Money) (rate : ℤ) (inclusive : Bool) {tax total : Money}
    → pos 0 ≤ℤ base.minor
    → pos 0 ≤ℤ rate
    → magnitude rate ≤ 10000
    → taxed currency base rate inclusive ≡ ok (tax, total)
    → IsTaxed base inclusive tax total
unfolding taxed
taxed-IsTaxed currency base rate inclusive b r most h = elim (Bool-cases (magnitude rate == 0)) [
  | inl zero_rate ↦ untaxed_IsTaxed currency base inclusive b (rw zero_rate at h)
  | inr some_rate ↦ charged-IsTaxed currency base rate inclusive b r most (rw some_rate at h)
]
