-- ===== src/Orders/Transition.antt =====
-- How a change of status ends, column by column.
use Prim.Native.String.{String}
use text.Mathlib.Text.{◌==◌ as str_eq}
use whatsapp_os.Prelude.{
  ℕ, ◌+◌, ◌≡◌, refl, Bool, true, false, not, ◌&&◌, ◌||◌, List, [], ◌∷◌, Option, none, some, arith,
  leb, ◌==◌, if◌then◌else◌, ◌∙◌, ap, Option-cases, inl, inr,
}
use whatsapp_os.Inventory.{StockKey, StockRow, release_stock, mark_sold}
use whatsapp_os.Orders.Status.{
  OrderStatus, draft, pending, confirmed, processing, shipped, delivered, cancelled, returned,
  refunded, status_index, ◌is◌, paid, PaymentStatus, unpaid, payment_pending, partially_paid,
  payment_refunded, payment_failed, fulfilled, is_cod, is_paid, is_legal_status_transition,
}
use whatsapp_os.Orders.{
  OrderRow, OrderItemRow, Db, TenantContext, move_items, stock_after, apply_status,
}
use whatsapp_os.Orders.Service.{update_order_status}
use whatsapp_os.Orders.Laws.{status_outcome, update_order_status_lem}

-- An order may stay; come one step closer to its delivery; be cancelled until it is shipped; come back
-- once it is shipped; and be refunded once it is delivered or came back.
abbrev pub may_follow : OrderStatus → OrderStatus → Bool
may_follow from to =
    (to is from)
    || ((leb (status_index to) 5 && (status_index to == status_index from + 1))
        || (((to is cancelled) && leb (status_index from) 3)
            || (((to is returned) && (from is shipped || from is delivered))
                || ((to is refunded) && (from is delivered || from is returned)))))

legal_is_may_follow :
    (from to : OrderStatus) → is_legal_status_transition from to ≡ may_follow from to
unfolding is_legal_status_transition
legal_is_may_follow from to = ground arith

abbrev is_given : Option String → Bool
is_given none = false
is_given (some text) = not (str_eq text "")

-- The columns of an order after a change of status. What is paid on delivery is paid.
abbrev pub moved : OrderStatus → Option String → ℕ → OrderRow → OrderRow
moved status remark now order = record order {
  status = status;
  confirmed_at = if status is confirmed then some now else order.confirmed_at;
  shipped_at = if status is shipped then some now else order.shipped_at;
  delivered_at = if status is delivered then some now else order.delivered_at;
  cancelled_at = if status is cancelled then some now else order.cancelled_at;
  cancel_reason = if status is cancelled && is_given remark then remark else order.cancel_reason;
  fulfillment_status = if status is delivered then fulfilled else order.fulfillment_status;
  payment_status =
      if status is delivered && is_cod order.payment_method then paid else order.payment_status;
}

-- One item of an order: its units go back to the shelf on a cancellation, and are sold on a delivery.
abbrev pub moved_item : OrderStatus → ℕ → OrderItemRow → List StockRow → List StockRow
moved_item status workspace_id item stock = elim item.product_id [
  | none ↦ stock
  | some product_id ↦
      let key : StockKey = record {
        workspace_id = workspace_id;
        product_id = product_id;
        variant_id = item.variant_id;
      } in
      if status is cancelled
      then (release_stock key item.quantity stock).0
      else if status is delivered
      then (mark_sold key item.quantity stock).0
      else stock
]

abbrev pub moved_stock : OrderStatus → ℕ → List OrderItemRow → List StockRow → List StockRow
moved_stock status workspace_id [] stock = stock
moved_stock status workspace_id (item ∷ items) stock =
    moved_stock status workspace_id items (moved_item status workspace_id item stock)

paid_lem :
    (is_cash : Bool) (payment : PaymentStatus)
    → (if is_cash && not (is_paid payment) then paid else payment)
      ≡ (if is_cash then paid else payment)
paid_lem false payment = refl
paid_lem true paid = refl
paid_lem true unpaid = refl
paid_lem true payment_pending = refl
paid_lem true partially_paid = refl
paid_lem true payment_refunded = refl
paid_lem true payment_failed = refl

reason_lem :
    (empty : Bool) (text : String) (old : Option String)
    → (if empty then old else some text) ≡ (if not empty then some text else old)
reason_lem true text old = refl
reason_lem false text old = refl

moved_lem :
    (status : OrderStatus) (remark : Option String) (now : ℕ) (row : OrderRow)
    → apply_status status remark now row ≡ moved status remark now row
unfolding apply_status
moved_lem draft remark now row = refl
moved_lem pending remark now row = refl
moved_lem confirmed remark now row = refl
moved_lem processing remark now row = refl
moved_lem shipped remark now row = refl
moved_lem delivered remark now row =
    ap
      (λ (payment : PaymentStatus). record row {
        status = delivered;
        delivered_at = some now;
        fulfillment_status = fulfilled;
        payment_status = payment;
      })
      (paid_lem (is_cod row.payment_method) row.payment_status)
moved_lem cancelled none now row = refl
moved_lem cancelled (some text) now row =
    ap
      (λ (reason : Option String). record row {
        status = cancelled;
        cancelled_at = some now;
        cancel_reason = reason;
      })
      (reason_lem (str_eq text "") text row.cancel_reason)
moved_lem returned remark now row = refl
moved_lem refunded remark now row = refl

move_items-moved :
    (status : OrderStatus)
    → (move : StockKey → ℕ → List StockRow → List StockRow) (workspace_id : ℕ)
    → ((item : OrderItemRow) (stock : List StockRow)
        → moved_item status workspace_id item stock ≡ (elim item.product_id [
          | none ↦ stock
          | some product_id ↦
              move
                (record {
                  workspace_id = workspace_id;
                  product_id = product_id;
                  variant_id = item.variant_id;
                })
                item.quantity
                stock
        ]))
    → (items : List OrderItemRow) (stock : List StockRow)
    → move_items move workspace_id items stock ≡ moved_stock status workspace_id items stock
unfolding move_items
move_items-moved status move w same [] stock = refl
move_items-moved status move w same (item ∷ items) stock =
    rw (same item stock) (move_items-moved status move w same items _)

no_move :
    (status : OrderStatus) (workspace_id : ℕ) (items : List OrderItemRow) (stock : List StockRow)
    → (status is cancelled) ≡ false
    → (status is delivered) ≡ false
    → stock ≡ moved_stock status workspace_id items stock
no_move status w [] stock open_ moving = refl
no_move status w (item ∷ items) stock open_ moving = elim (Option-cases item.product_id) [
  | inl gone ↦ rw gone (no_move status w items stock open_ moving)
  | inr (product, here) ↦ rw (here, open_) (rw moving (no_move status w items stock open_ moving))
]

moved_stock_lem :
    (status : OrderStatus) (workspace_id : ℕ) (items : List OrderItemRow) (stock : List StockRow)
    → stock_after status workspace_id items stock ≡ moved_stock status workspace_id items stock
unfolding stock_after
moved_stock_lem cancelled w items stock =
    move_items-moved cancelled (λ key quantity s. (release_stock key quantity s).0) w
      (λ item s. refl) items stock
moved_stock_lem delivered w items stock =
    move_items-moved delivered (λ key quantity s. (mark_sold key quantity s).0) w (λ item s. refl)
      items stock
moved_stock_lem draft w items stock = no_move draft w items stock refl refl
moved_stock_lem pending w items stock = no_move pending w items stock refl refl
moved_stock_lem confirmed w items stock = no_move confirmed w items stock refl refl
moved_stock_lem processing w items stock = no_move processing w items stock refl refl
moved_stock_lem shipped w items stock = no_move shipped w items stock refl refl
moved_stock_lem returned w items stock = no_move returned w items stock refl refl
moved_stock_lem refunded w items stock = no_move refunded w items stock refl refl

-- `updateOrderStatus` ends as expected on every branch: refused without the permission, on an order that
-- is not there and on a status that may not follow, each leaving the database; otherwise done, the
-- order changed column by column, its items moved one by one and an event added.
pub update_order_status_expected :
    (ctx : TenantContext) (order_id : ℕ) (status : OrderStatus) (remark : Option String) (now : ℕ)
    (db : Db)
    → update_order_status ctx order_id status remark now db
      ≡ status_outcome
          (λ from. may_follow from status)
          (moved status remark now)
          (moved_stock status ctx.workspace_id)
          ctx
          order_id
          status
          remark
          db
update_order_status_expected ctx order_id status remark now db =
    update_order_status_lem ctx order_id status remark now db ∙ (λ i.
      status_outcome (λ from. legal_is_may_follow from status i)
        (λ row. moved_lem status remark now row i)
        (λ items stock. moved_stock_lem status ctx.workspace_id items stock i) ctx order_id status
        remark db)
