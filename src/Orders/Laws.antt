-- ===== src/Orders/Laws.antt =====
-- How `updateOrderStatus` ends on every branch, in terms of its steps.
use Prim.Native.String.{String}
use whatsapp_os.Prelude.{
  ℕ, ◌≡◌, refl, Bool, true, false, List, [], ◌∷◌, ◌++◌, Option, none, some, arith, find,
  if◌then◌else◌, Bool-cases, Option-cases, inl, inr,
}
use whatsapp_os.Prelude.Table.{update_many, find-update_many, count_where-find, find_holds}
use whatsapp_os.Authz.{role_has_permission, order_update_status}
use whatsapp_os.Orders.Status.{OrderStatus, cancelled, is_legal_status_transition}
use whatsapp_os.Inventory.{StockRow}
use whatsapp_os.Orders.{
  OrderItemRow, OrderRow, Db, TenantContext, forbidden, order_not_found, illegal_transition,
  Outcome, done, failed, is_order, find_order_by_id, update_order_row, items_of, stock_after,
  apply_status, status_changed,
}
use whatsapp_os.Orders.Service.{change_status, update_order_status}

-- The update under the key of one order that was found: it is counted, and found again as changed.
module _ (workspace_id order_id : ℕ) (change : OrderRow → OrderRow)
    (same : (row : OrderRow)
      → is_order workspace_id order_id (change row) ≡ is_order workspace_id order_id row)
    (db : Db) (order : OrderRow)
    (found : find (is_order workspace_id order_id) db.orders ≡ some order) where
  abbrev pub changed : List OrderRow
  changed = update_many (is_order workspace_id order_id) change db.orders

  pub update_order_row_found :
      update_order_row workspace_id order_id change db ≡ done (tt, record db { orders = changed })
  unfolding update_order_row
  update_order_row_found =
      ground (arith, count_where-find (is_order workspace_id order_id) db.orders found)

  pub find-changed : find (is_order workspace_id order_id) changed ≡ some (change order)
  find-changed = ground (
    arith,
    find-update_many (is_order workspace_id order_id) (is_order workspace_id order_id) change
        db.orders same,
    find_holds (is_order workspace_id order_id) db.orders found,
  )

same_order_status :
    (w i : ℕ) (status : OrderStatus) (remark : Option String) (now : ℕ) (row : OrderRow)
    → is_order w i (apply_status status remark now row) ≡ is_order w i row
unfolding apply_status
same_order_status w i cancelled remark now row = refl
same_order_status w i _ remark now row = refl

-- What a change of status leaves, of a legality, a change of the row and a change of the stock.
abbrev pub status_outcome :
    (OrderStatus → Bool)
    → (OrderRow → OrderRow)
    → (List OrderItemRow → List StockRow → List StockRow)
    → TenantContext
    → ℕ
    → OrderStatus
    → Option String
    → Db
    → Outcome OrderRow × Db
status_outcome legal change move ctx order_id status remark db =
    if role_has_permission ctx.role order_update_status
    then (elim (find (is_order ctx.workspace_id order_id) db.orders) [
      | none ↦ (failed order_not_found, db)
      | some order ↦
          if legal order.status
          then (
            done (change order),
            record db {
              orders = update_many (is_order ctx.workspace_id order_id) change db.orders;
              stock = move (items_of ctx.workspace_id order_id db) db.stock;
              events =
                  db.events
                  ++ (record {
                    workspace_id = ctx.workspace_id;
                    order_id = order_id;
                    type = status_changed status;
                    from_status = some order.status;
                    to_status = some status;
                    actor_member_id = some ctx.membership_id;
                    by_ai = false;
                    note = remark;
                  }
                      ∷ []);
            },
          )
          else (failed illegal_transition, db)
    ])
    else (failed forbidden, db)

abbrev pub expected_status :
    TenantContext → ℕ → OrderStatus → Option String → ℕ → Db → Outcome OrderRow × Db
expected_status ctx order_id status remark now db =
    status_outcome (λ from. is_legal_status_transition from status) (apply_status status remark now)
      (stock_after status ctx.workspace_id) ctx order_id status remark db

-- What a permitted, legal change of status leaves.
abbrev db_after_status : TenantContext → ℕ → OrderStatus → Option String → ℕ → OrderRow → Db → Db
db_after_status ctx order_id status remark now order db = record db {
  orders =
      update_many (is_order ctx.workspace_id order_id) (apply_status status remark now) db.orders;
  stock = stock_after status ctx.workspace_id (items_of ctx.workspace_id order_id db) db.stock;
  events =
      db.events
      ++ (record {
        workspace_id = ctx.workspace_id;
        order_id = order_id;
        type = status_changed status;
        from_status = some order.status;
        to_status = some status;
        actor_member_id = some ctx.membership_id;
        by_ai = false;
        note = remark;
      }
          ∷ []);
}

change_status_done :
    (ctx : TenantContext) (order_id : ℕ) (status : OrderStatus) (remark : Option String) (now : ℕ)
    (db : Db) (order : OrderRow)
    → role_has_permission ctx.role order_update_status ≡ true
    → find (is_order ctx.workspace_id order_id) db.orders ≡ some order
    → is_legal_status_transition order.status status ≡ true
    → change_status ctx order_id status remark now db
      ≡ done (
        apply_status status remark now order,
        db_after_status ctx order_id status remark now order db,
      )
unfolding change_status find_order_by_id
change_status_done ctx order_id status remark now db order may found legal =
    let items = items_of ctx.workspace_id order_id db in
    let stock = stock_after status ctx.workspace_id items db.stock in
    let moved = record db { stock = stock } in
    let same = same_order_status ctx.workspace_id order_id status remark now in
    ground (
      arith,
      update_order_row_found ctx.workspace_id order_id (apply_status status remark now) same moved
          order found,
      find-changed ctx.workspace_id order_id (apply_status status remark now) same db order found,
    )

module _ (ctx : TenantContext) (order_id : ℕ) (status : OrderStatus) (remark : Option String)
    (now : ℕ) (db : Db) where
  change_forbidden :
      role_has_permission ctx.role order_update_status ≡ false
      → change_status ctx order_id status remark now db ≡ failed forbidden
  unfolding change_status
  change_forbidden no_right = rw no_right

  change_missing :
      role_has_permission ctx.role order_update_status ≡ true
      → find (is_order ctx.workspace_id order_id) db.orders ≡ none
      → change_status ctx order_id status remark now db ≡ failed order_not_found
  unfolding change_status find_order_by_id
  change_missing may missing = ground arith

  change_illegal :
      (order : OrderRow)
      → role_has_permission ctx.role order_update_status ≡ true
      → find (is_order ctx.workspace_id order_id) db.orders ≡ some order
      → is_legal_status_transition order.status status ≡ false
      → change_status ctx order_id status remark now db ≡ failed illegal_transition
  unfolding change_status find_order_by_id
  change_illegal order may found illegal = ground arith

  pub update_order_status_lem :
      update_order_status ctx order_id status remark now db
      ≡ expected_status ctx order_id status remark now db
  unfolding update_order_status
  update_order_status_lem = elim (Bool-cases (role_has_permission ctx.role order_update_status)) [
    | inr no_right ↦ ground (arith, change_forbidden no_right)
    | inl may ↦ elim (Option-cases (find (is_order ctx.workspace_id order_id) db.orders)) [
      | inl missing ↦ ground (arith, change_missing may missing)
      | inr (order, found) ↦ elim (Bool-cases (is_legal_status_transition order.status status)) [
        | inl legal ↦
            ground
              (arith, change_status_done ctx order_id status remark now db order may found legal)
        | inr illegal ↦ ground (arith, change_illegal order may found illegal)
      ]
    ]
  ]
