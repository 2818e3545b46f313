-- ===== src/Pricing/Tests.antt =====
-- Prices of a shirt and its sizes.
use whatsapp_os.Prelude.{none, some}
use whatsapp_os.Prelude.Int.{pos}
use whatsapp_os.Pricing.{PricedProduct, PricedVariant}

abbrev shirt : PricedProduct
shirt = record { price_minor = pos 349900; sale_price_minor = some (pos 299900); currency = "PKR" }

abbrev shirt_at_full_price : PricedProduct
shirt_at_full_price = record { price_minor = pos 399900; sale_price_minor = none; currency = "PKR" }

-- A size with a price of its own, under the product's sale price.
abbrev small : PricedVariant
small = record { price_minor = some (pos 250000); sale_price_minor = none }
