-- ===== src/Orders/Update.antt =====
-- How `updateOrder` ends, on every branch.
use whatsapp_os.Prelude.{
  ℕ, ◌≡◌, refl, true, false, Option, or_else, ◌||◌, none, some, arith, find, if◌then◌else◌,
  Bool-cases, Option-cases, inl, inr,
}
use whatsapp_os.Prelude.Table.{update_many}
use whatsapp_os.Authz.{role_has_permission, order_update}
use whatsapp_os.Orders.Status.{draft, pending, ◌is◌}
use whatsapp_os.Orders.{
  OrderRow, Db, TenantContext, forbidden, order_not_found, not_editable, Outcome, done, failed,
  is_order, find_order_by_id,
}
use whatsapp_os.Orders.Service.{UpdateOrderInput, apply_update, update_order}
use whatsapp_os.Orders.Laws.{update_order_row_found, find-changed}

abbrev update_outcome : TenantContext → ℕ → UpdateOrderInput → Db → Outcome OrderRow × Db
update_outcome ctx order_id input db =
    if role_has_permission ctx.role order_update
    then (elim (find (is_order ctx.workspace_id order_id) db.orders) [
      | none ↦ (failed order_not_found, db)
      | some order ↦
          if order.status is draft || order.status is pending
          then (
            done (apply_update input order),
            record db {
              orders =
                  update_many (is_order ctx.workspace_id order_id) (apply_update input) db.orders;
            },
          )
          else (failed not_editable, db)
    ])
    else (failed forbidden, db)

same_order_update :
    (w i : ℕ) (input : UpdateOrderInput) (row : OrderRow)
    → is_order w i (apply_update input row) ≡ is_order w i row
unfolding apply_update
same_order_update w i input row = refl

module _ (ctx : TenantContext) (order_id : ℕ) (input : UpdateOrderInput) (db : Db) where
  update_found :
      (order : OrderRow)
      → role_has_permission ctx.role order_update ≡ true
      → find (is_order ctx.workspace_id order_id) db.orders ≡ some order
      → update_order ctx order_id input db ≡ update_outcome ctx order_id input db
  unfolding update_order find_order_by_id
  update_found order may found =
      let same = same_order_update ctx.workspace_id order_id input in
      ground (
        arith,
        update_order_row_found ctx.workspace_id order_id (apply_update input) same db order found,
        find-changed ctx.workspace_id order_id (apply_update input) same db order found,
      )

  update_order_lem : update_order ctx order_id input db ≡ update_outcome ctx order_id input db
  unfolding update_order find_order_by_id
  update_order_lem = elim (Bool-cases (role_has_permission ctx.role order_update)) [
    | inr no_right ↦ rw no_right refl
    | inl may ↦ elim (Option-cases (find (is_order ctx.workspace_id order_id) db.orders)) [
      | inl missing ↦ ground arith
      | inr (order, found) ↦ update_found order may found
    ]
  ]

-- A column after an edit: what was given for it, or what it held.
pub data IsColumn {A : Type 0} : Option A → A → A → Type 0 where
  replaced : {given old : A} → IsColumn (some given) old given
  kept : {old : A} → IsColumn none old old

or_else-IsColumn :
    {A : Type 0} (given : Option A) (old : A) → IsColumn given old (or_else given old)
or_else-IsColumn none old = kept
or_else-IsColumn (some value) old = replaced

-- The row after an edit: each of the eleven columns that can be edited is as given, or as it was.
pub record IsEdited (input : UpdateOrderInput) (old new : OrderRow) : Type 0 where
  pub customer_name :
      IsColumn input.customer_name old.address.customer_name new.address.customer_name
  pub phone_e164 : IsColumn input.phone_e164 old.address.phone_e164 new.address.phone_e164
  pub address_line1 :
      IsColumn input.address_line1 old.address.address_line1 new.address.address_line1
  pub address_line2 :
      IsColumn input.address_line2 old.address.address_line2 new.address.address_line2
  pub city : IsColumn input.city old.address.city new.address.city
  pub postal_code : IsColumn input.postal_code old.address.postal_code new.address.postal_code
  pub country : IsColumn input.country old.address.country new.address.country
  pub notes : IsColumn input.notes old.notes new.notes
  pub payment_method : IsColumn input.payment_method old.payment_method new.payment_method
  pub courier_name : IsColumn input.courier_name old.address.courier_name new.address.courier_name
  pub tracking_number :
      IsColumn input.tracking_number old.address.tracking_number new.address.tracking_number
  pub others :
      new
      ≡ record old { address = new.address; notes = new.notes; payment_method = new.payment_method }

apply_update-IsEdited :
    (input : UpdateOrderInput) (order : OrderRow) → IsEdited input order (apply_update input order)
unfolding apply_update
apply_update-IsEdited input order = record {
  customer_name = or_else-IsColumn input.customer_name order.address.customer_name;
  phone_e164 = or_else-IsColumn input.phone_e164 order.address.phone_e164;
  address_line1 = or_else-IsColumn input.address_line1 order.address.address_line1;
  address_line2 = or_else-IsColumn input.address_line2 order.address.address_line2;
  city = or_else-IsColumn input.city order.address.city;
  postal_code = or_else-IsColumn input.postal_code order.address.postal_code;
  country = or_else-IsColumn input.country order.address.country;
  notes = or_else-IsColumn input.notes order.notes;
  payment_method = or_else-IsColumn input.payment_method order.payment_method;
  courier_name = or_else-IsColumn input.courier_name order.address.courier_name;
  tracking_number = or_else-IsColumn input.tracking_number order.address.tracking_number;
  others = refl;
}

-- How an edit ends: refused without the permission, on an order that is not there and on one that is
-- no draft and not pending, each leaving the database; any other order is edited, and the rest of the
-- database is as it was.
pub data UpdateEnds (ctx : TenantContext) (order_id : ℕ) (input : UpdateOrderInput) (db : Db)
    : Outcome OrderRow × Db → Type 0 where
  no_permission :
      role_has_permission ctx.role order_update ≡ false
      → UpdateEnds ctx order_id input db (failed forbidden, db)
  no_order :
      role_has_permission ctx.role order_update ≡ true
      → find (is_order ctx.workspace_id order_id) db.orders ≡ none
      → UpdateEnds ctx order_id input db (failed order_not_found, db)
  too_late :
      (order : OrderRow)
      → role_has_permission ctx.role order_update ≡ true
      → find (is_order ctx.workspace_id order_id) db.orders ≡ some order
      → (order.status is draft || order.status is pending) ≡ false
      → UpdateEnds ctx order_id input db (failed not_editable, db)
  edited :
      (order : OrderRow) (edit : OrderRow → OrderRow)
      → role_has_permission ctx.role order_update ≡ true
      → find (is_order ctx.workspace_id order_id) db.orders ≡ some order
      → (order.status is draft || order.status is pending) ≡ true
      → ((row : OrderRow) → IsEdited input row (edit row))
      → UpdateEnds ctx order_id input db (
        done (edit order),
        record db { orders = update_many (is_order ctx.workspace_id order_id) edit db.orders },
      )

-- `updateOrder` ends on every branch as it should: refused without the permission, on an order that is
-- not there and on one that is no draft and not pending, each leaving the database; any other order
-- has each of the eleven fields as given, or as it was, and the rest of the database is as it was.
pub update_order_expected :
    (ctx : TenantContext) (order_id : ℕ) (input : UpdateOrderInput) (db : Db)
    → UpdateEnds ctx order_id input db (update_order ctx order_id input db)
update_order_expected ctx order_id input db =
    rw (update_order_lem ctx order_id input db)
      (elim (Bool-cases (role_has_permission ctx.role order_update)) [
        | inr no_right ↦ rw no_right (no_permission no_right)
        | inl may ↦ elim (Option-cases (find (is_order ctx.workspace_id order_id) db.orders)) [
          | inl missing ↦ rw (may, missing) (no_order may missing)
          | inr (order, found) ↦
              elim (Bool-cases (order.status is draft || order.status is pending)) [
                | inl early ↦
                    rw (may, found)
                      (rw early (
                        edited order (apply_update input) may found early
                          (apply_update-IsEdited input)))
                | inr late ↦ rw (may, found) (rw late (too_late order may found late))
              ]
        ]
      ])
