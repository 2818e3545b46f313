-- ===== src/Inventory/Tests.antt =====
-- A shelf of two rows, and the theorems at it.
use whatsapp_os.Prelude.{ℕ, ◌≡◌, refl, ◌+◌, [], ◌∷◌, List, none}
use whatsapp_os.Prelude.Table.{sum_of}
use whatsapp_os.Inventory.{StockKey, StockRow, has_key, reserve_stock}
use whatsapp_os.Inventory.Laws.{on_shelf, reserve_all, granted, reserve_all_exact}

abbrev shirt : StockKey
shirt = record { workspace_id = 1; product_id = 7; variant_id = none }

abbrev cap : StockKey
cap = record { workspace_id = 2; product_id = 8; variant_id = none }

abbrev row_of : ℕ → StockKey → ℕ → ℕ → StockRow
row_of id key available reserved = record {
  id = id;
  key = key;
  available = available;
  reserved = reserved;
  sold = 0;
  low_stock_threshold = 2;
}

abbrev shelf : List StockRow
shelf = row_of 1 shirt 5 1 ∷ row_of 2 cap 3 0 ∷ []

reserve_all_exact_example :
    sum_of (on_shelf shirt) (reserve_all shirt (3 ∷ 4 ∷ 2 ∷ []) shelf)
      + granted shirt (3 ∷ 4 ∷ 2 ∷ []) shelf
    ≡ sum_of (on_shelf shirt) shelf
reserve_all_exact_example = reserve_all_exact shirt (3 ∷ 4 ∷ 2 ∷ []) shelf

-- The second of them gets nothing.
granted_run : granted shirt (3 ∷ 4 ∷ 2 ∷ []) shelf ≡ 5
unfolding granted reserve_stock has_key
granted_run = refl
