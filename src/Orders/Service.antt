-- ===== src/Orders/Service.antt =====
-- server/services/order/order.service.ts: `updateOrderStatus`, `cancelOrder` and `updateOrder`.
use Prim.Native.String.{String}
use whatsapp_os.Prelude.{or_else, ℕ, false, not, ◌&&◌, Option, some}
use whatsapp_os.Authz.{order_update, order_update_status, order_cancel}
use whatsapp_os.Orders.Status.{
  OrderStatus, draft, pending, delivered, cancelled, refunded, ◌is◌, PaymentMethod,
  is_legal_status_transition,
}
use whatsapp_os.Orders.{
  OrderRow, Db, TenantContext, Outcome, Tx, ◌>>=◌, ◌>>◌, throw_if, read, write, transaction,
  require_permission, find_order_by_id, update_order_row, create_order_event, items_of, release_all,
  stock_after, apply_status, order_cancelled, status_changed, illegal_transition, not_editable,
  already_cancelled, already_delivered, already_refunded,
}

-- The body of `updateOrderStatus`.
unfoldable pub change_status : TenantContext → ℕ → OrderStatus → Option String → ℕ → Tx OrderRow
change_status ctx order_id status note now = do
  require_permission ctx order_update_status
  order ← find_order_by_id ctx.workspace_id order_id
  throw_if (not (is_legal_status_transition order.status status)) illegal_transition
  items ← read (items_of ctx.workspace_id order_id)
  write (λ db. record db { stock = stock_after status ctx.workspace_id items db.stock })
  update_order_row ctx.workspace_id order_id (apply_status status note now)
  create_order_event (record {
    workspace_id = ctx.workspace_id;
    order_id = order_id;
    type = status_changed status;
    from_status = some order.status;
    to_status = some status;
    actor_member_id = some ctx.membership_id;
    by_ai = false;
    note = note;
  })
  find_order_by_id ctx.workspace_id order_id

unfoldable pub update_order_status :
    TenantContext → ℕ → OrderStatus → Option String → ℕ → Db → Outcome OrderRow × Db
update_order_status ctx order_id status note now =
    transaction (change_status ctx order_id status note now)

-- The body of `cancelOrder`.
unfoldable pub cancel : TenantContext → ℕ → String → ℕ → Tx OrderRow
cancel ctx order_id reason now = do
  require_permission ctx order_cancel
  order ← find_order_by_id ctx.workspace_id order_id
  throw_if (order.status is cancelled) already_cancelled
  throw_if (order.status is delivered) already_delivered
  throw_if (order.status is refunded) already_refunded
  items ← read (items_of ctx.workspace_id order_id)
  write (λ db. record db { stock = release_all ctx.workspace_id items db.stock })
  update_order_row ctx.workspace_id order_id (λ row. record row {
    status = cancelled;
    cancelled_at = some now;
    cancel_reason = some reason;
  })
  create_order_event (record {
    workspace_id = ctx.workspace_id;
    order_id = order_id;
    type = order_cancelled;
    from_status = some order.status;
    to_status = some cancelled;
    actor_member_id = some ctx.membership_id;
    by_ai = false;
    note = some reason;
  })
  find_order_by_id ctx.workspace_id order_id

unfoldable pub cancel_order : TenantContext → ℕ → String → ℕ → Db → Outcome OrderRow × Db
cancel_order ctx order_id reason now = transaction (cancel ctx order_id reason now)

-- A field that is not given is none, and leaves a column alone; a column that may be null has an
-- option for a value.
pub record UpdateOrderInput : Type 0 where
  pub customer_name : Option String
  pub phone_e164 : Option String
  pub address_line1 : Option (Option String)
  pub address_line2 : Option (Option String)
  pub city : Option (Option String)
  pub postal_code : Option (Option String)
  pub country : Option String
  pub notes : Option (Option String)
  pub payment_method : Option PaymentMethod
  pub courier_name : Option (Option String)
  pub tracking_number : Option (Option String)

-- `data` of `updateMany`.
unfoldable pub apply_update : UpdateOrderInput → OrderRow → OrderRow
apply_update input order = record order {
  address = record {
    customer_name = or_else input.customer_name order.address.customer_name;
    phone_e164 = or_else input.phone_e164 order.address.phone_e164;
    address_line1 = or_else input.address_line1 order.address.address_line1;
    address_line2 = or_else input.address_line2 order.address.address_line2;
    city = or_else input.city order.address.city;
    postal_code = or_else input.postal_code order.address.postal_code;
    country = or_else input.country order.address.country;
    courier_name = or_else input.courier_name order.address.courier_name;
    tracking_number = or_else input.tracking_number order.address.tracking_number;
  };
  notes = or_else input.notes order.notes;
  payment_method = or_else input.payment_method order.payment_method;
}

-- `updateOrder` runs outside a transaction, and writes nothing before its last test that can fail.
unfoldable pub update_order : TenantContext → ℕ → UpdateOrderInput → Db → Outcome OrderRow × Db
update_order ctx order_id input = transaction (do
  require_permission ctx order_update
  order ← find_order_by_id ctx.workspace_id order_id
  throw_if (not (order.status is draft) && not (order.status is pending)) not_editable
  update_order_row ctx.workspace_id order_id (apply_update input)
  find_order_by_id ctx.workspace_id order_id)
