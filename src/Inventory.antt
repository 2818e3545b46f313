-- ===== src/Inventory.antt =====
-- server/repositories/inventory.repository.ts: the stock rows, and the guarded movements on them.
-- Every movement is one `updateMany`; the rows after it and its count stand side by side.
-- A column is a natural number: a decrement runs under its `gte` filter only, where the truncated
-- subtraction is exact. Quantities are natural numbers, which the schemas guarantee.
pub mod Laws
mod Tests
use whatsapp_os.Prelude.{
  ℕ, ◌+◌, ◌-◌, Bool, true, false, ◌&&◌, List, [], ◌∷◌, ◌++◌, Option, none, some, leb, ◌==◌, find,
  filter, length, or_else, if◌then◌else◌, map,
}
use whatsapp_os.Prelude.Int.{ℤ, pos, negsuc}
use whatsapp_os.Prelude.Table.{update_many, count_where}

-- The `where` of every statement: the workspace, the product, and the variant, which is none for
-- the row of the product itself.
pub record StockKey : Type 0 where
  pub workspace_id : ℕ
  pub product_id : ℕ
  pub variant_id : Option ℕ

pub record StockRow : Type 0 where
  pub id : ℕ
  pub key : StockKey
  pub available : ℕ
  pub reserved : ℕ
  pub sold : ℕ
  pub low_stock_threshold : ℕ

abbrev pub same_variant : Option ℕ → Option ℕ → Bool
same_variant none none = true
same_variant (some a) (some b) = a == b
same_variant _ _ = false

unfoldable pub has_key : StockKey → StockRow → Bool
has_key key row =
    row.key.workspace_id == key.workspace_id
    && (row.key.product_id == key.product_id && same_variant row.key.variant_id key.variant_id)

unfoldable pub find_stock : StockKey → List StockRow → Option StockRow
find_stock key rows = find (has_key key) rows

unfoldable pub list_stock_for_product : ℕ → ℕ → List StockRow → List StockRow
list_stock_for_product workspace_id product_id rows =
    filter (λ row. row.key.workspace_id == workspace_id && row.key.product_id == product_id) rows

-- The row for a key, created where there is none. `new_id` is the identity that the database gives
-- a created row; the retry after a lost race needs a second transaction and is not modelled.
unfoldable pub ensure_stock_row :
    ℕ → StockKey → Option ℕ → Option ℕ → List StockRow → StockRow × List StockRow
ensure_stock_row new_id key available threshold rows = elim (find_stock key rows) [
  | some row ↦ (row, rows)
  | none ↦
      let row : StockRow = record {
        id = new_id;
        key = key;
        available = or_else available 0;
        reserved = 0;
        sold = 0;
        low_stock_threshold = or_else threshold 3;
      } in
      (row, rows ++ (row ∷ []))
]

-- The rows after a statement, and its count.
abbrev pub Written : Type 0
Written = List StockRow × ℕ

abbrev write : (StockRow → Bool) → (StockRow → StockRow) → List StockRow → Written
write p f rows = (update_many p f rows, count_where p rows)

unfoldable pub set_available : StockKey → ℕ → List StockRow → Written
set_available key available = write (has_key key) (λ row. record row { available = available })

-- `delta < 0` carries the guard `available: { gte: -delta }`.
unfoldable pub adjust_available : StockKey → ℤ → List StockRow → Written
adjust_available key (pos units) =
    write (has_key key) (λ row. record row { available = row.available + units })
adjust_available key (negsuc n) =
    write (λ row. has_key key row && leb (n + 1) row.available)
      (λ row. record row { available = row.available - (n + 1) })

unfoldable pub set_low_stock_threshold : StockKey → ℕ → List StockRow → Written
set_low_stock_threshold key threshold =
    write (has_key key) (λ row. record row { low_stock_threshold = threshold })

abbrev pub may_reserve : StockKey → ℕ → StockRow → Bool
may_reserve key quantity row = has_key key row && leb quantity row.available

abbrev pub move_to_reserved : ℕ → StockRow → StockRow
move_to_reserved quantity row = record row {
  available = row.available - quantity;
  reserved = row.reserved + quantity;
}

unfoldable pub reserve_stock : StockKey → ℕ → List StockRow → Written
reserve_stock key quantity = write (may_reserve key quantity) (move_to_reserved quantity)

abbrev pub has_reserved : StockKey → ℕ → StockRow → Bool
has_reserved key quantity row = has_key key row && leb quantity row.reserved

abbrev pub put_back : ℕ → StockRow → StockRow
put_back quantity row = record row {
  available = row.available + quantity;
  reserved = row.reserved - quantity;
}

unfoldable pub release_stock : StockKey → ℕ → List StockRow → Written
release_stock key quantity = write (has_reserved key quantity) (put_back quantity)

abbrev pub move_to_sold : ℕ → StockRow → StockRow
move_to_sold quantity row = record row {
  reserved = row.reserved - quantity;
  sold = row.sold + quantity;
}

unfoldable pub mark_sold : StockKey → ℕ → List StockRow → Written
mark_sold key quantity = write (has_reserved key quantity) (move_to_sold quantity)

-- `SELECT DISTINCT "productId"`: each product once, in the order of its first low row.
add_distinct : ℕ → List ℕ → List ℕ
add_distinct id ids = elim (find (λ other. other == id) ids) [ none ↦ id ∷ ids | some found ↦ ids ]

unfoldable pub find_low_stock_product_ids : ℕ → List StockRow → List ℕ
unfolding add_distinct
find_low_stock_product_ids workspace_id [] = []
find_low_stock_product_ids workspace_id (row ∷ rows) =
    let rest = find_low_stock_product_ids workspace_id rows in
    if (row.key.workspace_id == workspace_id) && leb row.available row.low_stock_threshold
    then add_distinct row.key.product_id rest
    else rest

unfoldable pub count_low_stock_products : ℕ → List StockRow → ℕ
unfolding find_low_stock_product_ids
count_low_stock_products workspace_id rows = length (find_low_stock_product_ids workspace_id rows)
