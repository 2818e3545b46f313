-- ===== src/Approvals/Cancelling.antt =====
-- An approved cancellation, from the approval to the order and its stock.
use Prim.Native.String.{String}
use whatsapp_os.Prelude.{
  ℕ, ◌≡◌, refl, Bool, true, false, inl, inr, Option, some, arith, find, Bool-cases, if◌then◌else◌,
  ◌∙◌, ap,
}
use whatsapp_os.Prelude.Result.{ok}
use whatsapp_os.Prelude.Table.{find_holds}
use whatsapp_os.Authz.{role_has_permission, order_cancel}
use whatsapp_os.Orders.Status as Status
use whatsapp_os.Orders.Status.{◌is◌}
use whatsapp_os.Orders as Orders
use whatsapp_os.Orders.{OrderRow, Db, TenantContext, Outcome, is_order}
use whatsapp_os.Orders.Service.{cancel_order}
use whatsapp_os.Orders.Cancel.{cancelled_row, db_after_cancel, cancel_order_expected}
use whatsapp_os.Approvals.{
  cancel_order_action, awaiting, executed, failed, ExecutionResult, order_cancelled,
  ActionApprovalRow, Office, get_required_permission_for_action, is_approval, with_status,
}
use whatsapp_os.Approvals.Perform.{
  Performed, finished, stale, target_of, on_target, stale_text, cancel_reason_of,
  is_past_cancelling, perform_cancel, perform,
}
use whatsapp_os.Approvals.Execute.{Caller, outcome_data, approve_request}
use whatsapp_os.Approvals.Granted.{approved_row, silent, approve_performs}

module _ (ctx : TenantContext) (now : ℕ) (shop : Db) (order_id : ℕ) (order : OrderRow)
    (found : find (is_order ctx.workspace_id order_id) shop.orders ≡ some order) where
  -- What the order's cancellation comes to, of an order that is neither stale nor refunded.
  cancel_open :
      (reason : String)
      → role_has_permission ctx.role order_cancel ≡ true
      → is_past_cancelling order.status ≡ false
      → (order.status is Status.refunded) ≡ false
      → cancel_order ctx order.id reason now shop ≡ (
        Orders.done (cancelled_row reason now order),
        db_after_cancel ctx order_id reason now order shop,
      )
  cancel_open reason may early unpaid =
      let own : order.id ≡ order_id =
        ground (arith, find_holds (is_order ctx.workspace_id order_id) shop.orders found) in
      rw own (
        cancel_order_expected ctx order_id reason now shop
        ∙ ground (arith, found, may, early, unpaid))

  module _ (approval : ActionApprovalRow) (about : target_of approval ≡ some order_id) where
    on_target-found :
        (act : OrderRow → Performed × Db) → on_target ctx approval shop act ≡ act order
    on_target-found act = rw (on_target, about) (rw found refl)

    perform_cancel_lem :
        role_has_permission ctx.role order_cancel ≡ true
        → (order.status is Status.refunded) ≡ false
        → perform_cancel ctx approval now shop ≡ (
            if is_past_cancelling order.status
            then (stale order.status (stale_text order.status), shop)
            else (
              finished (order_cancelled order.id Status.cancelled),
              db_after_cancel ctx order_id (cancel_reason_of approval) now order shop,
            ))
    unfolding perform_cancel
    perform_cancel_lem may unpaid =
        on_target-found _ ∙ elim (Bool-cases (is_past_cancelling order.status)) [
          | inl past ↦ rw past refl
          | inr early ↦
              rw early (rw (cancel_open (cancel_reason_of approval) may early unpaid) refl)
        ]

-- Delivered, shipped or cancelled.
abbrev pub is_too_late : Status.OrderStatus → Bool
is_too_late Status.delivered = true
is_too_late Status.shipped = true
is_too_late Status.cancelled = true
is_too_late _ = false

is_too_late_lem : (status : Status.OrderStatus) → is_too_late status ≡ is_past_cancelling status
is_too_late_lem Status.draft = refl
is_too_late_lem Status.pending = refl
is_too_late_lem Status.confirmed = refl
is_too_late_lem Status.processing = refl
is_too_late_lem Status.shipped = refl
is_too_late_lem Status.delivered = refl
is_too_late_lem Status.cancelled = refl
is_too_late_lem Status.returned = refl
is_too_late_lem Status.refunded = refl

abbrev result_if : Bool → Performed × Db → Performed × Db → Performed × Db
result_if past old new = if past then old else new

status_of_outcome :
    (now : ℕ) (status : Status.OrderStatus) (text : String) (result : ExecutionResult)
    → (before after : Db) (past : Bool)
    → (outcome_data now
        (result_if past (stale status text, before) (finished result, after)).0).status
      ≡ (if past then failed else executed)
status_of_outcome now status text result before after true = refl
status_of_outcome now status text result before after false = refl

shop_of_outcome :
    (old new : Performed) (before after : Db) (past : Bool)
    → (result_if past (old, before) (new, after)).1 ≡ (if past then before else after)
shop_of_outcome old new before after true = refl
shop_of_outcome old new before after false = refl

perform_of_cancel :
    (ctx : TenantContext) (approval : ActionApprovalRow) (now : ℕ) (shop : Db)
    → approval.action_type ≡ cancel_order_action
    → perform ctx approval now shop ≡ perform_cancel ctx approval now shop
unfolding perform
perform_of_cancel ctx approval now shop action = ground (arith, action)

module _ (caller : Caller) (id : ℕ) (reason : Option String) (now : ℕ) (office : Office)
    (row : ActionApprovalRow) where
  approve_cancels :
      (order_id : ℕ) (order : OrderRow)
      → caller.is_member ≡ true
      → role_has_permission caller.ctx.role order_cancel ≡ true
      → find (is_approval caller.ctx.workspace_id id) office.approvals ≡ some row
      → row.status ≡ awaiting
      → row.action_type ≡ cancel_order_action
      → target_of row ≡ some order_id
      → find (is_order caller.ctx.workspace_id order_id) office.shop.orders ≡ some order
      → (order.status is Status.refunded) ≡ false
      → (end : ActionApprovalRow) × ((approve_request silent caller id reason now office).0
          ≡ ok end)
        × (end.status ≡ (if is_past_cancelling order.status then failed else executed))
        × ((approve_request silent caller id reason now office).1.shop ≡ (
            if is_past_cancelling order.status
            then office.shop
            else db_after_cancel caller.ctx order_id
                (cancel_reason_of (approved_row caller.ctx reason now row))
                now
                order
                office.shop))
  unfolding get_required_permission_for_action target_of
  approve_cancels order_id order member may found pending action about placed unpaid =
      let granted = approved_row caller.ctx reason now row in
      let may_decide : role_has_permission caller.ctx.role
            (get_required_permission_for_action row.action_type)
          ≡ true =
        rw action may in
      let (answer, after) =
        approve_performs caller id reason now office row member found pending may_decide in
      let same = perform_of_cancel caller.ctx granted now office.shop action in
      let done =
        same
        ∙ perform_cancel_lem caller.ctx now office.shop order_id order placed granted about may
            unpaid in
      let past = is_past_cancelling order.status in
      let text = stale_text order.status in
      let result = order_cancelled order.id Status.cancelled in
      let shop' =
        db_after_cancel caller.ctx order_id (cancel_reason_of granted) now order office.shop in
      (
        with_status (outcome_data now (perform caller.ctx granted now office.shop).0) granted,
        answer,
        ap (λ out. (outcome_data now out.0).status) done
            ∙ status_of_outcome now order.status text result office.shop shop' past,
        after
            ∙ ap (λ out. out.1) done
            ∙ shop_of_outcome (stale order.status text) (finished result) office.shop shop' past,
      )

  -- A member with the permission approves a pending cancellation of an order that is not refunded, and no
  -- entry of the audit log is refused:
  -- if the order is delivered, shipped or cancelled by then, the approval has failed and the shop is
  -- as it was; otherwise the approval is executed, and the order is cancelled, its stock released
  -- and an event added, as `cancelOrder` does.
  pub approve_request_cancels :
      (order_id : ℕ) (order : OrderRow)
      → caller.is_member ≡ true
      → role_has_permission caller.ctx.role order_cancel ≡ true
      → find (is_approval caller.ctx.workspace_id id) office.approvals ≡ some row
      → row.status ≡ awaiting
      → row.action_type ≡ cancel_order_action
      → target_of row ≡ some order_id
      → find (is_order caller.ctx.workspace_id order_id) office.shop.orders ≡ some order
      → (order.status is Status.refunded) ≡ false
      → (end : ActionApprovalRow) × ((approve_request silent caller id reason now office).0
          ≡ ok end)
        × (end.status ≡ (if is_too_late order.status then failed else executed))
        × ((approve_request silent caller id reason now office).1.shop ≡ (
            if is_too_late order.status
            then office.shop
            else db_after_cancel caller.ctx order_id
                (cancel_reason_of (approved_row caller.ctx reason now row))
                now
                order
                office.shop))
  approve_request_cancels order_id order =
      rw (is_too_late_lem order.status) (approve_cancels order_id order)
