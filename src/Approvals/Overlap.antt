-- ===== src/Approvals/Overlap.antt =====
-- Two approvals that overlap: both have read the approval before either acts on it.
use Prim.Native.String.{String}
use whatsapp_os.Prelude.{
  ℕ, ◌≡◌, refl, true, List, Option, some, arith, find, ◌∙◌, sym, ap, Bool-cases, inl, inr,
}
use whatsapp_os.Prelude.Result.{ok}
use whatsapp_os.Prelude.Table.{find_holds}
use whatsapp_os.Authz.{Role, role_has_permission}
use whatsapp_os.Orders.{TenantContext}
use whatsapp_os.Approvals.{
  awaiting, approved, ActionApprovalRow, Office, get_required_permission_for_action, is_approval,
  with_status, UpdateApprovalStatusData, update_approval_status,
}
use whatsapp_os.Approvals.Perform.{Performed, perform}
use whatsapp_os.Approvals.Execute.{
  Caller, has_thrown, outcome_data, conclude, execute_approved_request, decision, approve_pending,
  approve_loaded, approve_request,
}
use whatsapp_os.Approvals.Decided.{returned-rows}
use whatsapp_os.Approvals.Granted.{
  approved_row, silent, update-rows, marked_office, approve_pending_lem, execute_marked,
  approve_request_lem,
}

conclude-rows :
    (ws id now : ℕ) (performed : Performed) (rows : List ActionApprovalRow)
    → (conclude silent ws id now performed rows).1
      ≡ (update_approval_status ws id (outcome_data now performed) rows).1
unfolding conclude
conclude-rows ws id now performed rows =
    let same = returned-rows (update_approval_status ws id (outcome_data now performed) rows) in
    elim (Bool-cases (has_thrown performed)) [
      | inl thrown ↦ rw (thrown, conclude) same
      | inr finished_it ↦ rw (finished_it, conclude) same
    ]

-- What is written to an approval by a call that performs it.
abbrev pub settled :
    TenantContext → Option String → ℕ → Office → ActionApprovalRow → ActionApprovalRow
settled ctx reason now office row =
    with_status (outcome_data now (perform ctx (approved_row ctx reason now row) now office.shop).0)
      (approved_row ctx reason now row)

module _ (ctx : TenantContext) (reason : Option String) (now : ℕ) (office : Office)
    (row : ActionApprovalRow)
    (found : find (is_approval ctx.workspace_id row.id) office.approvals ≡ some row)
    (may : role_has_permission ctx.role (get_required_permission_for_action row.action_type)
      ≡ true) where
  settled-found :
      find
        (is_approval ctx.workspace_id row.id)
        (approve_pending silent ctx row reason now office).1.approvals
      ≡ some (settled ctx reason now office row)
  unfolding execute_approved_request
  settled-found =
      let granted = approved_row ctx reason now row in
      let done = perform ctx granted now office.shop in
      let marked = marked_office ctx reason now office row in
      rw (approve_pending_lem ctx reason now office row found may) (
        ap (find (is_approval ctx.workspace_id row.id))
          (conclude-rows ctx.workspace_id row.id now done.0 marked.approvals)
        ∙ update-rows ctx.workspace_id row.id (outcome_data now done.0) marked.approvals granted (
            update-rows ctx.workspace_id row.id (decision approved reason ctx now) office.approvals
              row found))

  performs :
      ((approve_pending silent ctx row reason now office).0
        ≡ ok (settled ctx reason now office row))
      × ((approve_pending silent ctx row reason now office).1.shop
          ≡ (perform ctx (approved_row ctx reason now row) now office.shop).1)
  performs =
      rw (approve_pending_lem ctx reason now office row found may)
        (execute_marked ctx reason now office row found)

-- Only the id and the action of the row that was read are used.
same_call :
    (ctx : TenantContext) (reason : Option String) (now : ℕ) (office : Office)
    (row : ActionApprovalRow) (written : UpdateApprovalStatusData)
    → approve_pending silent ctx row reason now office
      ≡ approve_pending silent ctx (with_status written row) reason now office
unfolding approve_pending
same_call ctx reason now office row written = refl

pending_call :
    (ctx : TenantContext) (reason : Option String) (now : ℕ) (office : Office)
    (row : ActionApprovalRow)
    → row.status ≡ awaiting
    → approve_loaded silent ctx (some row) reason now office
      ≡ approve_pending silent ctx row reason now office
pending_call ctx reason now office row pending = ground (arith, pending)

-- Two members of a workspace who may decide have both read a pending approval. No log entry is refused.
-- The first acts, and then the second on the row that it has read: the second call approves again what
-- the first has settled, and performs the action again, on the shop that the first left.
pub overlapping_approvals_both_perform :
    (caller : Caller) (role : Role) (membership_id id : ℕ) (reason reason' : Option String)
    (now now' : ℕ) (office : Office) (row : ActionApprovalRow)
    → caller.is_member ≡ true
    → find (is_approval caller.ctx.workspace_id id) office.approvals ≡ some row
    → row.status ≡ awaiting
    → role_has_permission caller.ctx.role (get_required_permission_for_action row.action_type)
      ≡ true
    → role_has_permission role (get_required_permission_for_action row.action_type) ≡ true
    → let second : TenantContext = record {
      workspace_id = caller.ctx.workspace_id;
      role = role;
      membership_id = membership_id;
    } in
      let after = (approve_request silent caller id reason now office).1 in
      let first_row = settled caller.ctx reason now office row in
      ((approve_loaded silent second (some row) reason' now' after).0
        ≡ ok (settled second reason' now' after first_row))
      × ((approve_loaded silent second (some row) reason' now' after).1.shop
          ≡ (perform second (approved_row second reason' now' first_row) now' after.shop).1)
overlapping_approvals_both_perform caller role membership_id id reason reason' now now' office row
      member found pending may may' =
    let second : TenantContext = record {
      workspace_id = caller.ctx.workspace_id;
      role = role;
      membership_id = membership_id;
    } in
    let first_row = settled caller.ctx reason now office row in
    let own : id ≡ row.id =
      ground (arith, find_holds (is_approval caller.ctx.workspace_id id) office.approvals found) in
    let here : find (is_approval caller.ctx.workspace_id row.id) office.approvals ≡ some row =
      ap (λ key. find (is_approval caller.ctx.workspace_id key) office.approvals) (sym own)
      ∙ found in
    let after = (approve_pending silent caller.ctx row reason now office).1 in
    let reached = settled-found caller.ctx reason now office row here may in
    rw (approve_request_lem caller id reason now office row silent member found pending) (
      rw (pending_call second reason' now' after row pending) (
        rw (same_call second reason' now' after row (decision approved reason caller.ctx now)) (
          rw
            (same_call second reason' now' after (approved_row caller.ctx reason now row) (
              outcome_data now
                (perform caller.ctx (approved_row caller.ctx reason now row) now office.shop).0))
            (performs second reason' now' after first_row reached may'))))
