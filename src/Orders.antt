-- ===== src/Orders.antt =====
-- server/services/order/order.service.ts with server/repositories/order.repository.ts: an order's
-- life after it is placed. A database is a record of tables; a transaction that throws leaves it.
pub mod Status
pub mod Figures
pub mod Reconciled
pub mod Service
pub mod Cancel
pub mod Stock
pub mod Update
pub mod Laws
pub mod Transition
mod Tests
use Prim.Native.String.{String}
use text.Mathlib.Text.{◌==◌ as str_eq}
use whatsapp_os.Prelude.{
  or_else, ℕ, ◌+◌, Bool, true, false, not, ◌&&◌, ◌||◌, List, [], ◌∷◌, ◌++◌, Option, none, some,
  ◌==◌, find, filter, is_some, if◌then◌else◌,
}
use whatsapp_os.Prelude.Int.{ℤ}
use whatsapp_os.Prelude.Table.{update_many, count_where}
use whatsapp_os.Authz.{
  Role, Permission, role_has_permission, order_update, order_update_status, order_cancel,
}
use whatsapp_os.Inventory.{StockKey, StockRow, release_stock, mark_sold}
use Status.{
  OrderStatus, draft, pending, confirmed, shipped, delivered, cancelled, refunded, ◌is◌,
  PaymentStatus, paid, is_paid, FulfillmentStatus, fulfilled, PaymentMethod, is_cod,
  is_legal_status_transition,
}

-- Whom an order goes to, and by which courier.
pub record DeliveryAddress : Type 0 where
  pub customer_name : String
  pub phone_e164 : String
  pub address_line1 : Option String
  pub address_line2 : Option String
  pub city : Option String
  pub postal_code : Option String
  pub country : String
  pub courier_name : Option String
  pub tracking_number : Option String

pub record OrderRow : Type 0 where
  pub id : ℕ
  pub workspace_id : ℕ
  pub contact_id : ℕ
  pub address : DeliveryAddress
  pub status : OrderStatus
  pub payment_status : PaymentStatus
  pub fulfillment_status : FulfillmentStatus
  pub payment_method : PaymentMethod
  pub subtotal_minor : ℤ
  pub discount_minor : ℤ
  pub delivery_fee_minor : ℤ
  pub tax_minor : ℤ
  pub total_minor : ℤ
  pub created_by_ai : Bool
  pub notes : Option String
  pub confirmed_at : Option ℕ
  pub shipped_at : Option ℕ
  pub delivered_at : Option ℕ
  pub cancelled_at : Option ℕ
  pub cancel_reason : Option String
  pub deleted_at : Option ℕ

pub record OrderItemRow : Type 0 where
  pub workspace_id : ℕ
  pub order_id : ℕ
  pub product_id : Option ℕ
  pub variant_id : Option ℕ
  pub unit_price_minor : ℤ
  pub quantity : ℕ
  pub line_subtotal_minor : ℤ

pub data EventType : Type 0 where
  order_created order_cancelled : EventType
  status_changed : OrderStatus → EventType

pub record OrderEventRow : Type 0 where
  pub workspace_id : ℕ
  pub order_id : ℕ
  pub type : EventType
  pub from_status : Option OrderStatus
  pub to_status : Option OrderStatus
  pub actor_member_id : Option ℕ
  pub by_ai : Bool
  pub note : Option String

-- The tables that the order service writes.
pub record Db : Type 0 where
  pub orders : List OrderRow
  pub items : List OrderItemRow
  pub events : List OrderEventRow
  pub stock : List StockRow

-- The fields of a `TenantContext` that the service reads.
pub record TenantContext : Type 0 where
  pub workspace_id : ℕ
  pub role : Role
  pub membership_id : ℕ

pub data ServiceError : Type 0 where
  forbidden order_not_found illegal_transition not_editable : ServiceError
  already_cancelled already_delivered already_refunded : ServiceError

pub data Outcome (A : Type 0) : Type 0 where
  done : A → Outcome A
  failed : ServiceError → Outcome A

-- A transaction: a value with the database after it, or an error, which leaves no database.
abbrev pub Tx : Type 0 → Type 0
Tx A = Db → Outcome (A × Db)

infixl 5 ◌>>=◌ ◌>>◌
abbrev pub ◌>>=◌ : {A B : Type 0} → Tx A → (A → Tx B) → Tx B
◌>>=◌ m f db = elim (m db) [ done (a, db') ↦ f a db' | failed e ↦ failed e ]

abbrev pub ◌>>◌ : {B : Type 0} → Tx (Unit {0}) → Tx B → Tx B
m >> k = m >>= λ _. k

abbrev pub return : {A : Type 0} → A → Tx A
return a db = done (a, db)

abbrev pub throw_if : Bool → ServiceError → Tx (Unit {0})
throw_if true e db = failed e
throw_if false e db = done (tt, db)

abbrev pub read : {A : Type 0} → (Db → A) → Tx A
read f db = done (f db, db)

abbrev pub write : (Db → Db) → Tx (Unit {0})
write f db = done (tt, f db)

-- `db.$transaction`: what was written is kept only if the body returned.
abbrev pub transaction : {A : Type 0} → Tx A → Db → Outcome A × Db
transaction body db = elim (body db) [ done (a, db') ↦ (done a, db') | failed e ↦ (failed e, db) ]

abbrev pub require_permission : TenantContext → Permission → Tx (Unit {0})
require_permission ctx permission =
    throw_if (not (role_has_permission ctx.role permission)) forbidden

-- `where: { id, workspaceId, deletedAt: null }`.
abbrev pub is_order : ℕ → ℕ → OrderRow → Bool
is_order workspace_id order_id order =
    order.id == order_id && (order.workspace_id == workspace_id && not (is_some order.deleted_at))

unfoldable pub find_order_by_id : ℕ → ℕ → Tx OrderRow
find_order_by_id workspace_id order_id db = elim (find (is_order workspace_id order_id) db.orders) [
  | none ↦ failed order_not_found
  | some order ↦ done (order, db)
]

-- `order.updateMany`, with the service's test of its count.
unfoldable pub update_order_row : ℕ → ℕ → (OrderRow → OrderRow) → Tx (Unit {0})
update_order_row workspace_id order_id change = do
  count ← read (λ db. count_where (is_order workspace_id order_id) db.orders)
  write (λ db. record db { orders = update_many (is_order workspace_id order_id) change db.orders })
  throw_if (count == 0) order_not_found

abbrev pub create_order_event : OrderEventRow → Tx (Unit {0})
create_order_event event = write (λ db. record db { events = db.events ++ (event ∷ []) })

abbrev pub items_of : ℕ → ℕ → Db → List OrderItemRow
items_of workspace_id order_id db =
    filter (λ item. item.order_id == order_id && item.workspace_id == workspace_id) db.items

-- The stock rows after a loop over items; an item whose product is gone is passed over.
unfoldable pub move_items :
    (StockKey → ℕ → List StockRow → List StockRow)
    → ℕ
    → List OrderItemRow
    → List StockRow
    → List StockRow
move_items move workspace_id [] stock = stock
move_items move workspace_id (item ∷ items) stock =
    let next : List StockRow = elim item.product_id [
      | none ↦ stock
      | some product_id ↦
          move
            (record {
              workspace_id = workspace_id;
              product_id = product_id;
              variant_id = item.variant_id;
            })
            item.quantity stock
    ] in
    move_items move workspace_id items next

-- The service ignores the counts that `releaseStock` and `markSold` return.
abbrev pub release_all : ℕ → List OrderItemRow → List StockRow → List StockRow
release_all = move_items (λ key quantity stock. (release_stock key quantity stock).0)

abbrev pub sell_all : ℕ → List OrderItemRow → List StockRow → List StockRow
sell_all = move_items (λ key quantity stock. (mark_sold key quantity stock).0)

-- The inventory implications of a new status.
unfoldable pub stock_after : OrderStatus → ℕ → List OrderItemRow → List StockRow → List StockRow
stock_after cancelled workspace_id items stock = release_all workspace_id items stock
stock_after delivered workspace_id items stock = sell_all workspace_id items stock
stock_after _ workspace_id items stock = stock

-- `updateData`; an empty note gives a cancellation no reason.
unfoldable pub apply_status : OrderStatus → Option String → ℕ → OrderRow → OrderRow
apply_status cancelled remark now order = record order {
  status = cancelled;
  cancelled_at = some now;
  cancel_reason = elim remark [
    | none ↦ order.cancel_reason
    | some text ↦ if str_eq text "" then order.cancel_reason else some text
  ];
}
apply_status confirmed remark now order = record order {
  status = confirmed;
  confirmed_at = some now;
}
apply_status shipped remark now order = record order { status = shipped; shipped_at = some now }
apply_status delivered remark now order = record order {
  status = delivered;
  delivered_at = some now;
  fulfillment_status = fulfilled;
  payment_status =
      if is_cod order.payment_method && not (is_paid order.payment_status)
      then paid
      else order.payment_status;
}
apply_status status remark now order = record order { status = status }
