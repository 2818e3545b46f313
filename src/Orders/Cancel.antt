-- ===== src/Orders/Cancel.antt =====
-- How `cancelOrder` ends, on every branch.
use Prim.Native.String.{String}
use whatsapp_os.Prelude.{
  ℕ, ◌≡◌, refl, true, false, [], ◌∷◌, ◌++◌, none, some, arith, find, if◌then◌else◌, Bool-cases,
  Option-cases, inl, inr,
}
use whatsapp_os.Prelude.Table.{update_many}
use whatsapp_os.Authz.{role_has_permission, order_cancel}
use whatsapp_os.Orders.Status.{cancelled, delivered, refunded, ◌is◌}
use whatsapp_os.Orders.{
  OrderRow, Db, TenantContext, forbidden, order_not_found, already_cancelled, already_delivered,
  already_refunded, Outcome, done, failed, is_order, find_order_by_id, items_of, release_all,
  order_cancelled,
}
use whatsapp_os.Orders.Service.{cancel, cancel_order}
use whatsapp_os.Orders.Laws.{update_order_row_found, find-changed}

abbrev pub cancelled_row : String → ℕ → OrderRow → OrderRow
cancelled_row reason now row = record row {
  status = cancelled;
  cancelled_at = some now;
  cancel_reason = some reason;
}

abbrev pub db_after_cancel : TenantContext → ℕ → String → ℕ → OrderRow → Db → Db
db_after_cancel ctx order_id reason now order db = record db {
  orders = update_many (is_order ctx.workspace_id order_id) (cancelled_row reason now) db.orders;
  stock = release_all ctx.workspace_id (items_of ctx.workspace_id order_id db) db.stock;
  events =
      db.events
      ++ (record {
        workspace_id = ctx.workspace_id;
        order_id = order_id;
        type = order_cancelled;
        from_status = some order.status;
        to_status = some cancelled;
        actor_member_id = some ctx.membership_id;
        by_ai = false;
        note = some reason;
      }
          ∷ []);
}

-- A cancellation is refused without the permission, on an order that is not there, and on one that
-- is cancelled, delivered or refunded, each leaving the database; any other order is cancelled.
abbrev pub expected_cancel : TenantContext → ℕ → String → ℕ → Db → Outcome OrderRow × Db
expected_cancel ctx order_id reason now db =
    if role_has_permission ctx.role order_cancel
    then (elim (find (is_order ctx.workspace_id order_id) db.orders) [
      | none ↦ (failed order_not_found, db)
      | some order ↦
          if order.status is cancelled
          then (failed already_cancelled, db)
          else if order.status is delivered
          then (failed already_delivered, db)
          else if order.status is refunded
          then (failed already_refunded, db)
          else (
            done (cancelled_row reason now order),
            db_after_cancel ctx order_id reason now order db,
          )
    ])
    else (failed forbidden, db)

module _ (ctx : TenantContext) (order_id : ℕ) (reason : String) (now : ℕ) (db : Db) where
  cancel_forbidden :
      role_has_permission ctx.role order_cancel ≡ false
      → cancel ctx order_id reason now db ≡ failed forbidden
  unfolding cancel
  cancel_forbidden no_right = rw no_right

  cancel_missing :
      role_has_permission ctx.role order_cancel ≡ true
      → find (is_order ctx.workspace_id order_id) db.orders ≡ none
      → cancel ctx order_id reason now db ≡ failed order_not_found
  unfolding cancel find_order_by_id
  cancel_missing may missing = ground arith

  cancel_found :
      (order : OrderRow)
      → role_has_permission ctx.role order_cancel ≡ true
      → find (is_order ctx.workspace_id order_id) db.orders ≡ some order
      → cancel ctx order_id reason now db ≡ (
          if order.status is cancelled
          then failed already_cancelled
          else if order.status is delivered
          then failed already_delivered
          else if order.status is refunded
          then failed already_refunded
          else done
              (cancelled_row reason now order, db_after_cancel ctx order_id reason now order db))
  unfolding cancel find_order_by_id
  cancel_found order may found =
      let items = items_of ctx.workspace_id order_id db in
      let released = record db { stock = release_all ctx.workspace_id items db.stock } in
      ground (
        arith,
        update_order_row_found ctx.workspace_id order_id (cancelled_row reason now) (λ row. refl)
            released order found,
        find-changed ctx.workspace_id order_id (cancelled_row reason now) (λ row. refl) db order
            found,
      )

  -- `cancelOrder` ends as expected, on every branch.
  pub cancel_order_expected :
      cancel_order ctx order_id reason now db ≡ expected_cancel ctx order_id reason now db
  unfolding cancel_order
  cancel_order_expected = elim (Bool-cases (role_has_permission ctx.role order_cancel)) [
    | inr no_right ↦ ground (arith, cancel_forbidden no_right)
    | inl may ↦ elim (Option-cases (find (is_order ctx.workspace_id order_id) db.orders)) [
      | inl missing ↦ ground (arith, cancel_missing may missing)
      | inr (order, found) ↦ ground (arith, cancel_found order may found)
    ]
  ]
