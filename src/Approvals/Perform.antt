-- ===== src/Approvals/Perform.antt =====
-- server/services/approval/approval.service.ts: what the execution of an approved action does to the shop.
use Prim.Native.String.{String, ◌++◌ as join}
use text.Mathlib.Text.{◌==◌ as str_eq}
use whatsapp_os.Prelude.{ℕ, Bool, not, ◌&&◌, ◌||◌, Option, none, some, or_else, find, if◌then◌else◌}
use whatsapp_os.Orders.Status as Status
use whatsapp_os.Orders.Status.{OrderStatus, ◌is◌}
use whatsapp_os.Orders.{OrderRow, Db, TenantContext, Outcome, is_order}
use whatsapp_os.Orders as Orders
use whatsapp_os.Orders.Service.{UpdateOrderInput, cancel_order, update_order}
use whatsapp_os.Sending.{nonempty}
use whatsapp_os.Approvals.{
  cancel_order_action, modify_order_action, change_address_action, ExecutionError, missing_target,
  target_not_found, service_error, ExecutionResult, order_cancelled, order_updated,
  manual_processing, ActionApprovalRow,
}

-- What the body of the `try` came to, before it is written to the approval.
pub data Performed : Type 0 where
  finished : ExecutionResult → Performed
  stale : OrderStatus → String → Performed
  threw : ExecutionError → Performed

-- A status as the source spells it.
abbrev status_name : OrderStatus → String
status_name Status.draft = "DRAFT"
status_name Status.pending = "PENDING"
status_name Status.confirmed = "CONFIRMED"
status_name Status.processing = "PROCESSING"
status_name Status.shipped = "SHIPPED"
status_name Status.delivered = "DELIVERED"
status_name Status.cancelled = "CANCELLED"
status_name Status.returned = "RETURNED"
status_name Status.refunded = "REFUNDED"

-- The order that the approval is about.
unfoldable pub target_of : ActionApprovalRow → Option ℕ
target_of approval =
    if str_eq (or_else approval.target_entity_type "") "Order"
    then approval.target_entity_id
    else none

-- `a || b || c`, of texts.
unfoldable pub cancel_reason_of : ActionApprovalRow → String
cancel_reason_of approval =
    if nonempty approval.decision_reason
    then or_else approval.decision_reason ""
    else if nonempty approval.reason
    then or_else approval.reason ""
    else "Staff approved cancellation"

abbrev pub is_past_cancelling : OrderStatus → Bool
is_past_cancelling status =
    (status is Status.delivered) || ((status is Status.shipped) || (status is Status.cancelled))

abbrev pub is_past_editing : OrderStatus → Bool
is_past_editing status = not (status is Status.draft) && not (status is Status.pending)

abbrev pub after_service : (OrderRow → ExecutionResult) → Outcome OrderRow × Db → Performed × Db
after_service result (Orders.done order, shop) = (finished (result order), shop)
after_service result (Orders.failed error, shop) = (threw (service_error error), shop)

-- With the order that is looked for, if it is found.
abbrev pub on_target :
    TenantContext → ActionApprovalRow → Db → (OrderRow → Performed × Db) → Performed × Db
on_target ctx approval shop act = elim (target_of approval) [
  | none ↦ (threw missing_target, shop)
  | some order_id ↦ elim (find (is_order ctx.workspace_id order_id) shop.orders) [
    | none ↦ (threw target_not_found, shop)
    | some order ↦ act order
  ]
]

abbrev pub stale_text : OrderStatus → String
stale_text status =
    join "Order is already " (join (status_name status) ". Cancellation could not be executed.")

unfoldable pub perform_cancel : TenantContext → ActionApprovalRow → ℕ → Db → Performed × Db
perform_cancel ctx approval now shop = on_target ctx approval shop (λ order.
    if is_past_cancelling order.status
    then (stale order.status (stale_text order.status), shop)
    else after_service (λ row. order_cancelled row.id row.status)
        (cancel_order ctx order.id (cancel_reason_of approval) now shop))

abbrev no_update : UpdateOrderInput
no_update = record {
  customer_name = none;
  phone_e164 = none;
  address_line1 = none;
  address_line2 = none;
  city = none;
  postal_code = none;
  country = none;
  notes = none;
  payment_method = none;
  courier_name = none;
  tracking_number = none;
}

unfoldable pub perform_update : TenantContext → ActionApprovalRow → Db → Performed × Db
perform_update ctx approval shop = on_target ctx approval shop (λ order.
    if is_past_editing order.status
    then (
      stale order.status (
          join "Order is " (
            join (status_name order.status)
              ". Modification permitted only on draft or pending orders.")),
      shop,
    )
    else after_service (λ row. order_updated row.id)
        (update_order ctx order.id (or_else approval.payload no_update) shop))

unfoldable pub perform : TenantContext → ActionApprovalRow → ℕ → Db → Performed × Db
perform ctx approval now shop = elim approval.action_type [
  | cancel_order_action ↦ perform_cancel ctx approval now shop
  | modify_order_action ↦ perform_update ctx approval shop
  | change_address_action ↦ perform_update ctx approval shop
  | _ ↦ (finished manual_processing, shop)
]
