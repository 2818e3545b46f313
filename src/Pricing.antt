-- ===== src/Pricing.antt =====
-- server/services/product/pricing.ts: what a product or one of its variants costs.
pub mod Laws
mod Tests
use Prim.Native.String.{String}
use text.Mathlib.Text.{◌==◌ as str_eq}
use whatsapp_os.Prelude.{Bool, true, false, Option, none, some, or_else, if◌then◌else◌}
use whatsapp_os.Prelude.Int.{ℤ, ltb_ℤ}
use whatsapp_os.Prelude.Result.{Result, ok, err, ◌>>=◌, ◌>>◌}
use whatsapp_os.Money.{Currency, pkr, usd, aed, gbp, eur, Money, MoneyError, money}

-- An unsupported code falls back on the default.
unfoldable pub coerce_currency : String → Currency
coerce_currency value =
    if str_eq value "PKR"
    then pkr
    else if str_eq value "USD"
    then usd
    else if str_eq value "AED"
    then aed
    else if str_eq value "GBP"
    then gbp
    else if str_eq value "EUR"
    then eur
    else pkr

pub record PricedProduct : Type 0 where
  pub price_minor : ℤ
  pub sale_price_minor : Option ℤ
  pub currency : String

pub record PricedVariant : Type 0 where
  pub price_minor : Option ℤ
  pub sale_price_minor : Option ℤ

pub record ResolvedPrice : Type 0 where
  pub effective : Money
  pub list : Money
  pub is_discounted : Bool

abbrev pub override_of : Option PricedVariant → Option ℤ
override_of none = none
override_of (some variant) = variant.price_minor

abbrev pub variant_sale : Option PricedVariant → Option ℤ
variant_sale none = none
variant_sale (some variant) = variant.sale_price_minor

abbrev pub list_minor : PricedProduct → Option PricedVariant → ℤ
list_minor product variant = or_else (override_of variant) product.price_minor

-- JavaScript's `a ?? b` where `b` may be null too.
abbrev pub first_some : Option ℤ → Option ℤ → Option ℤ
first_some none b = b
first_some (some a) b = some a

abbrev pub sale_minor : PricedProduct → Option PricedVariant → Option ℤ
sale_minor product variant = elim (override_of variant) [
  | none ↦ first_some (variant_sale variant) product.sale_price_minor
  | some price ↦ variant_sale variant
]

abbrev pub is_sale : Option ℤ → ℤ → Bool
is_sale none list = false
is_sale (some sale) list = ltb_ℤ sale list

abbrev pub effective_minor : Option ℤ → ℤ → ℤ
effective_minor none list = list
effective_minor (some sale) list = if ltb_ℤ sale list then sale else list

unfoldable pub resolve_price :
    PricedProduct → Option PricedVariant → Result MoneyError ResolvedPrice
resolve_price product variant =
    let currency = coerce_currency product.currency in
    let list = list_minor product variant in
    let sale = sale_minor product variant in
    do
      effective_price ← money (effective_minor sale list) currency
      list_price ← money list currency
      ok (record {
        effective = effective_price;
        list = list_price;
        is_discounted = is_sale sale list;
      })
