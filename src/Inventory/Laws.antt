-- ===== src/Inventory/Laws.antt =====
-- What the movements of server/repositories/inventory.repository.ts keep and change.
use whatsapp_os.Prelude.{
  ℕ, ◌+◌, ◌-◌, ◌*◌, ◌≡◌, ◌≢◌, refl, ap, Bool, true, ◌&&◌, List, [], ◌∷◌, Option, none, some, arith,
  leb, ◌==◌, filter, find, if◌then◌else◌,
}
use whatsapp_os.Prelude.Table.{
  update_many, sum_of, sum_of-update_many, sum_of-update_many_count, filter-update_many,
}
use whatsapp_os.Prelude.Int.{pos, negsuc}
use whatsapp_os.Inventory.{
  StockKey, StockRow, has_key, find_stock, Written, set_available, adjust_available,
  set_low_stock_threshold, reserve_stock, release_stock, mark_sold, may_reserve, has_reserved,
  move_to_reserved, put_back, move_to_sold,
}

-- The statements that write stock rows.
pub data Movement : Type 0 where
  count_shelf adjust_up adjust_down threshold reserve release sell : StockKey → ℕ → Movement

-- What each statement does; `adjust_down` takes off one more than its number.
unfoldable pub run : Movement → List StockRow → Written
run (count_shelf key n) rows = set_available key n rows
run (adjust_up key n) rows = adjust_available key (pos n) rows
run (adjust_down key n) rows = adjust_available key (negsuc n) rows
run (threshold key n) rows = set_low_stock_threshold key n rows
run (reserve key n) rows = reserve_stock key n rows
run (release key n) rows = release_stock key n rows
run (sell key n) rows = mark_sold key n rows

abbrev pub key_of : Movement → StockKey
key_of (count_shelf key n) = key
key_of (adjust_up key n) = key
key_of (adjust_down key n) = key
key_of (threshold key n) = key
key_of (reserve key n) = key
key_of (release key n) = key
key_of (sell key n) = key

-- The units of the rows with a key, wherever they are.
abbrev pub units : StockKey → StockRow → ℕ
units key row = if has_key key row then row.available + row.reserved + row.sold else 0

-- Reserving, releasing and selling move units and never make or lose any, at every key.
pub moves_conserve :
    (key other : StockKey) (quantity : ℕ) (rows : List StockRow)
    → (sum_of (units other) (reserve_stock key quantity rows).0 ≡ sum_of (units other) rows)
      × (sum_of (units other) (release_stock key quantity rows).0 ≡ sum_of (units other) rows)
      × (sum_of (units other) (mark_sold key quantity rows).0 ≡ sum_of (units other) rows)
unfolding reserve_stock release_stock mark_sold has_key
moves_conserve key other quantity rows = (
  sum_of-update_many (units other) (may_reserve key quantity) (move_to_reserved quantity) rows
      (λ row h. ground arith),
  sum_of-update_many (units other) (has_reserved key quantity) (put_back quantity) rows
      (λ row h. ground arith),
  sum_of-update_many (units other) (has_reserved key quantity) (move_to_sold quantity) rows
      (λ row h. ground arith),
)

-- A statement under the key's filter leaves the rows of other workspaces as they are.
module _ (key : StockKey) (workspace_id : ℕ) (p : StockRow → Bool) (f : StockRow → StockRow)
    (same_key : (row : StockRow) → (f row).key ≡ row.key) (apart : key.workspace_id ≢ workspace_id)
    (rows : List StockRow) where
  abbrev of_workspace : StockRow → Bool
  of_workspace row = row.key.workspace_id == workspace_id

  keyed_elsewhere :
      ((row : StockRow) → p row ≡ true → has_key key row ≡ true)
      → filter of_workspace (update_many p f rows) ≡ filter of_workspace rows
  unfolding has_key
  keyed_elsewhere under =
      filter-update_many of_workspace p f rows
        (λ row. ap (λ (k : StockKey). k.workspace_id == workspace_id) (same_key row))
        (λ row h. ground (arith, under row h))

-- A statement writes no row of another workspace.
pub run_keeps_other_workspaces :
    (movement : Movement) (workspace_id : ℕ) (rows : List StockRow)
    → (key_of movement).workspace_id ≢ workspace_id
    → filter (λ row. row.key.workspace_id == workspace_id) (run movement rows).0
      ≡ filter (λ row. row.key.workspace_id == workspace_id) rows
unfolding run set_available adjust_available set_low_stock_threshold reserve_stock release_stock
    mark_sold
run_keeps_other_workspaces (count_shelf key n) w rows apart =
    keyed_elsewhere key w _ _ (λ row. refl) apart rows (λ row h. h)
run_keeps_other_workspaces (adjust_up key n) w rows apart =
    keyed_elsewhere key w _ _ (λ row. refl) apart rows (λ row h. h)
run_keeps_other_workspaces (adjust_down key n) w rows apart =
    keyed_elsewhere key w (λ row. has_key key row && leb (n + 1) row.available) _ (λ row. refl)
      apart rows (λ row h. ground arith)
run_keeps_other_workspaces (threshold key n) w rows apart =
    keyed_elsewhere key w _ _ (λ row. refl) apart rows (λ row h. h)
run_keeps_other_workspaces (reserve key n) w rows apart =
    keyed_elsewhere key w (may_reserve key n) _ (λ row. refl) apart rows (λ row h. ground arith)
run_keeps_other_workspaces (release key n) w rows apart =
    keyed_elsewhere key w (has_reserved key n) _ (λ row. refl) apart rows (λ row h. ground arith)
run_keeps_other_workspaces (sell key n) w rows apart =
    keyed_elsewhere key w (has_reserved key n) _ (λ row. refl) apart rows (λ row h. ground arith)

abbrev pub on_shelf : StockKey → StockRow → ℕ
on_shelf key row = if has_key key row then row.available else 0

abbrev held : StockKey → StockRow → ℕ
held key row = if has_key key row then row.reserved else 0

-- Reservations for one key, one after another in the order in which the statements ran.
unfoldable pub reserve_all : StockKey → List ℕ → List StockRow → List StockRow
reserve_all key [] rows = rows
reserve_all key (quantity ∷ rest) rows = reserve_all key rest (reserve_stock key quantity rows).0

-- The units that they were granted: each quantity times the count its statement returned.
unfoldable pub granted : StockKey → List ℕ → List StockRow → ℕ
granted key [] rows = 0
granted key (quantity ∷ rest) rows =
    let (rows', count) = reserve_stock key quantity rows in
    quantity * count + granted key rest rows'

reserve-on_shelf :
    (key : StockKey) (quantity : ℕ) (rows : List StockRow)
    → let (rows', count) = reserve_stock key quantity rows in
      sum_of (on_shelf key) rows' + quantity * count ≡ sum_of (on_shelf key) rows
unfolding reserve_stock has_key
reserve-on_shelf key quantity rows =
    sum_of-update_many_count (on_shelf key) (may_reserve key quantity) (move_to_reserved quantity)
      quantity rows (λ row h. ground arith)

-- Never oversold: however many orders reserve one item, in whatever order, what they are granted
-- is exactly what leaves the shelf, so it is never more than was on it.
pub reserve_all_exact :
    (key : StockKey) (quantities : List ℕ) (rows : List StockRow)
    → sum_of (on_shelf key) (reserve_all key quantities rows) + granted key quantities rows
      ≡ sum_of (on_shelf key) rows
unfolding reserve_all granted
reserve_all_exact key [] rows = omega arith
reserve_all_exact key (quantity ∷ rest) rows = omega (
  arith,
  reserve-on_shelf key quantity rows,
  reserve_all_exact key rest (reserve_stock key quantity rows).0,
)

-- What one statement makes of the row with its key; none stays none.
abbrev pub row_after : Movement → StockRow → StockRow
row_after (count_shelf key n) row = record row { available = n }
row_after (adjust_up key n) row = record row { available = row.available + n }
row_after (adjust_down key n) row =
    if leb (n + 1) row.available then record row { available = row.available - (n + 1) } else row
row_after (threshold key n) row = record row { low_stock_threshold = n }
row_after (reserve key n) row = if leb n row.available then move_to_reserved n row else row
row_after (release key n) row = if leb n row.reserved then put_back n row else row
row_after (sell key n) row = if leb n row.reserved then move_to_sold n row else row

abbrev pub map_row : (StockRow → StockRow) → Option StockRow → Option StockRow
map_row f none = none
map_row f (some row) = some (f row)

find-keyed :
    (key : StockKey) (p : StockRow → Bool) (f g : StockRow → StockRow)
    → ((row : StockRow) → has_key key (f row) ≡ has_key key row)
    → ((row : StockRow) → has_key key row ≡ true → (if p row then f row else row) ≡ g row)
    → (rows : List StockRow)
    → find (has_key key) (update_many p f rows) ≡ map_row g (find (has_key key) rows)
find-keyed key p f g same step [] = refl
find-keyed key p f g same step (row ∷ rows) =
    ground (arith, same row, step row, find-keyed key p f g same step rows)

-- The row that a statement finds under its key, after the statement: set, moved by the quantity
-- if the guard allows it, and else as it was.
pub find_stock-run :
    (movement : Movement) (rows : List StockRow)
    → find_stock (key_of movement) (run movement rows).0
      ≡ map_row (row_after movement) (find_stock (key_of movement) rows)
unfolding run find_stock set_available adjust_available set_low_stock_threshold reserve_stock
    release_stock mark_sold
find_stock-run (count_shelf key n) rows =
    find-keyed key (has_key key) (λ row. record row { available = n })
      (row_after (count_shelf key n)) (λ row. unfold has_key in refl) (λ row h. rw h) rows
find_stock-run (adjust_up key n) rows =
    find-keyed key (has_key key) (λ row. record row { available = row.available + n })
      (row_after (adjust_up key n)) (λ row. unfold has_key in refl) (λ row h. rw h) rows
find_stock-run (adjust_down key n) rows =
    find-keyed key (λ row. has_key key row && leb (n + 1) row.available)
      (λ row. record row { available = row.available - (n + 1) }) (row_after (adjust_down key n))
      (λ row. unfold has_key in refl) (λ row h. rw h) rows
find_stock-run (threshold key n) rows =
    find-keyed key (has_key key) (λ row. record row { low_stock_threshold = n })
      (row_after (threshold key n)) (λ row. unfold has_key in refl) (λ row h. rw h) rows
find_stock-run (reserve key n) rows =
    find-keyed key (may_reserve key n) (move_to_reserved n) (row_after (reserve key n))
      (λ row. unfold has_key in refl) (λ row h. rw h) rows
find_stock-run (release key n) rows =
    find-keyed key (has_reserved key n) (put_back n) (row_after (release key n))
      (λ row. unfold has_key in refl) (λ row h. rw h) rows
find_stock-run (sell key n) rows =
    find-keyed key (has_reserved key n) (move_to_sold n) (row_after (sell key n))
      (λ row. unfold has_key in refl) (λ row h. rw h) rows
