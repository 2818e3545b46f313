-- ===== src/Pricing/Laws.antt =====
-- What a resolved price promises a customer.
use whatsapp_os.Prelude.{◌≤◌, ◌≡◌, refl, Option, none, some, arith, or_else}
use whatsapp_os.Prelude.Int.{ℤ, ◌≤ℤ◌, ltb_ℤ, magnitude}
use whatsapp_os.Prelude.Result.{ok}
use whatsapp_os.Money.{Currency, Money, money, max_safe}
use whatsapp_os.Pricing.{
  coerce_currency, PricedProduct, PricedVariant, ResolvedPrice, list_minor, sale_minor, is_sale,
  effective_minor, resolve_price,
}

money-eq-ok :
    (minor : ℤ) (currency : Currency) {m : Money}
    → money minor currency ≡ ok m
    → m ≡ record { minor = minor; currency = currency }
unfolding money
money-eq-ok minor currency h = ground arith

money_safe :
    (minor : ℤ) (currency : Currency)
    → magnitude minor ≤ max_safe
    → money minor currency ≡ ok (record { minor = minor; currency = currency })
unfolding money
money_safe minor currency h = ground arith

effective_bounds :
    (sale : Option ℤ) (list : ℤ)
    → (effective_minor sale list ≤ℤ list)
      × (is_sale sale list ≡ ltb_ℤ (effective_minor sale list) list)
effective_bounds none list = ground arith
effective_bounds (some sale) list = ground arith

effective_safe :
    (sale : Option ℤ) (list : ℤ)
    → magnitude (or_else sale list) ≤ max_safe
    → magnitude list ≤ max_safe
    → magnitude (effective_minor sale list) ≤ max_safe
effective_safe none list h g = g
effective_safe (some sale) list h g = ground arith

-- The price of amounts that are safe integers is resolved: the customer never pays more than the
-- list price, and the list price is struck through exactly where it is more than what is paid.
pub resolve_price_lem :
    (product : PricedProduct) (variant : Option PricedVariant)
    → magnitude (list_minor product variant) ≤ max_safe
    → magnitude (or_else (sale_minor product variant) (list_minor product variant)) ≤ max_safe
    → (price : ResolvedPrice) × (resolve_price product variant ≡ ok price)
      × (price.effective.minor ≤ℤ price.list.minor)
      × (price.is_discounted ≡ ltb_ℤ price.effective.minor price.list.minor)
      × (price.effective.currency ≡ price.list.currency)
unfolding resolve_price
resolve_price_lem product variant safe_list safe_sale =
    let currency = coerce_currency product.currency in
    let list = list_minor product variant in
    let sale = sale_minor product variant in
    let bounds = effective_bounds sale list in
    let paid = effective_minor sale list in
    let price : ResolvedPrice = record {
      effective = record { minor = paid; currency = currency };
      list = record { minor = list; currency = currency };
      is_discounted = is_sale sale list;
    } in
    (
      price,
      rw (resolve_price, money_safe paid currency (effective_safe sale list safe_sale safe_list))
          (rw (money_safe list currency safe_list) refl),
      bounds.0,
      bounds.1,
      refl,
    )

-- A variant that has its own price inherits neither the product's price nor its sale.
pub resolve_price_own :
    (product other : PricedProduct) (variant : PricedVariant) (price : ℤ)
    → variant.price_minor ≡ some price
    → product.currency ≡ other.currency
    → resolve_price product (some variant) ≡ resolve_price other (some variant)
unfolding resolve_price
resolve_price_own product other variant price own same = rw (own, same) refl
