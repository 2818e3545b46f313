-- ===== src/Orders/Stock.antt =====
-- What a change of an order does to the stock, to other workspaces, and to units.
use Prim.Native.String.{String}
use whatsapp_os.Prelude.{
  ℕ, ◌≡◌, ◌≢◌, refl, sym, ◌∙◌, Bool, List, [], ◌∷◌, Option, arith, filter, ◌==◌, Option-cases, inl,
  inr,
}
use whatsapp_os.Prelude.Table.{sum_of}
use whatsapp_os.Inventory.{StockKey, StockRow}
use whatsapp_os.Inventory.Laws.{
  units, moves_conserve, release, sell, run, run_keeps_other_workspaces,
}
use whatsapp_os.Orders.Status.{OrderStatus, cancelled, delivered}
use whatsapp_os.Orders.{
  OrderItemRow, Db, TenantContext, items_of, move_items, release_all, sell_all, stock_after,
}
use whatsapp_os.Orders.Service.{update_order_status, cancel_order}
use whatsapp_os.Orders.Laws.{update_order_status_lem}
use whatsapp_os.Orders.Cancel.{cancel_order_expected}

-- A loop over items keeps what each movement keeps.
move_items-keeps :
    (P : List StockRow → List StockRow → Type 0)
    (move : StockKey → ℕ → List StockRow → List StockRow) (workspace_id : ℕ)
    → ((stock : List StockRow) → P stock stock)
    → ((a b c : List StockRow) → P a b → P b c → P a c)
    → ((key : StockKey) (quantity : ℕ) (stock : List StockRow)
        → key.workspace_id ≡ workspace_id
        → P stock (move key quantity stock))
    → (items : List OrderItemRow) (stock : List StockRow)
    → P stock (move_items move workspace_id items stock)
unfolding move_items
move_items-keeps P move w same then_next one [] stock = same stock
move_items-keeps P move w same then_next one (item ∷ items) stock =
    elim (Option-cases item.product_id) [
      | inl gone ↦ rw gone (move_items-keeps P move w same then_next one items stock)
      | inr (product, here) ↦ rw here (
          then_next stock _ _ (one _ item.quantity stock refl)
            (move_items-keeps P move w same then_next one items _))
    ]

abbrev SameUnits : StockKey → List StockRow → List StockRow → Type 0
SameUnits key a b = sum_of (units key) b ≡ sum_of (units key) a

module _ (key : StockKey) (w : ℕ) (items : List OrderItemRow) (stock : List StockRow) where
  release_all-SameUnits : SameUnits key stock (release_all w items stock)
  release_all-SameUnits =
      move_items-keeps (SameUnits key) _ w (λ s. refl) (λ a b c p q. q ∙ p)
        (λ k n s e. (moves_conserve k key n s).1) items stock

  sell_all-SameUnits : SameUnits key stock (sell_all w items stock)
  sell_all-SameUnits =
      move_items-keeps (SameUnits key) _ w (λ s. refl) (λ a b c p q. q ∙ p)
        (λ k n s e. (moves_conserve k key n s).2) items stock

  stock_after-SameUnits :
      (status : OrderStatus) → SameUnits key stock (stock_after status w items stock)
  unfolding stock_after
  stock_after-SameUnits cancelled = release_all-SameUnits
  stock_after-SameUnits delivered = sell_all-SameUnits
  stock_after-SameUnits _ = refl

-- However a change of status or a cancellation ends, at every stock key the units on the shelf,
-- reserved and sold are together as many as before.
pub order_changes_conserve :
    (key : StockKey) (ctx : TenantContext) (order_id : ℕ) (status : OrderStatus)
    (remark : Option String) (reason : String) (now : ℕ) (db : Db)
    → (sum_of (units key) (update_order_status ctx order_id status remark now db).1.stock
        ≡ sum_of (units key) db.stock)
      × (sum_of (units key) (cancel_order ctx order_id reason now db).1.stock
          ≡ sum_of (units key) db.stock)
order_changes_conserve key ctx order_id status remark reason now db =
    let items = items_of ctx.workspace_id order_id db in
    (
      rw (update_order_status_lem ctx order_id status remark now db)
          (ground (arith, stock_after-SameUnits key ctx.workspace_id items db.stock status)),
      rw (cancel_order_expected ctx order_id reason now db)
          (ground (arith, release_all-SameUnits key ctx.workspace_id items db.stock)),
    )

abbrev pub of_workspace : ℕ → StockRow → Bool
of_workspace w row = row.key.workspace_id == w

abbrev pub SameElsewhere : ℕ → List StockRow → List StockRow → Type 0
SameElsewhere w a b = filter (of_workspace w) b ≡ filter (of_workspace w) a

module _ (other w : ℕ) (apart : w ≢ other) (items : List OrderItemRow) (stock : List StockRow) where
  release_all-SameElsewhere : SameElsewhere other stock (release_all w items stock)
  unfolding run
  release_all-SameElsewhere =
      move_items-keeps (SameElsewhere other) _ w (λ s. refl) (λ a b c p q. q ∙ p)
        (λ k n s e. run_keeps_other_workspaces (release k n) other s (λ same. apart (sym e ∙ same)))
        items stock

  sell_all-SameElsewhere : SameElsewhere other stock (sell_all w items stock)
  unfolding run
  sell_all-SameElsewhere =
      move_items-keeps (SameElsewhere other) _ w (λ s. refl) (λ a b c p q. q ∙ p)
        (λ k n s e. run_keeps_other_workspaces (sell k n) other s (λ same. apart (sym e ∙ same)))
        items stock

  stock_after-SameElsewhere :
      (status : OrderStatus) → SameElsewhere other stock (stock_after status w items stock)
  unfolding stock_after
  stock_after-SameElsewhere cancelled = release_all-SameElsewhere
  stock_after-SameElsewhere delivered = sell_all-SameElsewhere
  stock_after-SameElsewhere _ = refl

-- However a change of status or a cancellation ends, the stock of another workspace is as it was.
pub order_changes_keep_other_stock :
    (other : ℕ) (ctx : TenantContext) (order_id : ℕ) (status : OrderStatus) (remark : Option String)
    (reason : String) (now : ℕ) (db : Db)
    → ctx.workspace_id ≢ other
    → SameElsewhere other db.stock (update_order_status ctx order_id status remark now db).1.stock
      × SameElsewhere other db.stock (cancel_order ctx order_id reason now db).1.stock
order_changes_keep_other_stock other ctx order_id status remark reason now db apart =
    let items = items_of ctx.workspace_id order_id db in
    (
      rw (update_order_status_lem ctx order_id status remark now db) (
          ground
            (arith, stock_after-SameElsewhere other ctx.workspace_id apart items db.stock status)),
      rw (cancel_order_expected ctx order_id reason now db)
          (ground (arith, release_all-SameElsewhere other ctx.workspace_id apart items db.stock)),
    )
