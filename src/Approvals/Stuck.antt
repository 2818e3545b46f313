-- ===== src/Approvals/Stuck.antt =====
-- An approval whose log entry is refused.
use Prim.Native.String.{String}
use whatsapp_os.Prelude.{ℕ, ◌≡◌, refl, Bool, true, Option, some, arith, find, ◌∙◌, sym, ap}
use whatsapp_os.Prelude.Result.{ok, err}
use whatsapp_os.Prelude.Table.{find_holds}
use whatsapp_os.Authz.{role_has_permission}
use whatsapp_os.Orders.{TenantContext}
use whatsapp_os.Approvals.{
  awaiting, approved, ActionApprovalRow, Office, get_required_permission_for_action, is_approval,
  find_approval_by_id, update_approval_status,
}
use whatsapp_os.Approvals.Execute.{
  Caller, LogEntry, decision_entry, log_refused, decision, approve_pending, approve_request,
}
use whatsapp_os.Approvals.Granted.{approved_row, update-found, update-rows, approve_request_lem}

stopped :
    (refuses : LogEntry → Bool) (ctx : TenantContext) (row : ActionApprovalRow)
    → (reason : Option String) (now : ℕ) (office : Office)
    → role_has_permission ctx.role (get_required_permission_for_action row.action_type) ≡ true
    → refuses decision_entry ≡ true
    → (update_approval_status ctx.workspace_id row.id
        (decision approved reason ctx now)
        office.approvals).0
      ≡ some (approved_row ctx reason now row)
    → approve_pending refuses ctx row reason now office ≡ (
      err log_refused,
      record office {
        approvals =
            (update_approval_status ctx.workspace_id row.id
              (decision approved reason ctx now)
              office.approvals).1;
      },
    )
unfolding approve_pending
stopped refuses ctx row reason now office may refused written =
    rw (approve_pending, may) (rw written (rw refused refl))

again :
    (refuses : LogEntry → Bool) (caller : Caller) (id : ℕ) (reason : Option String) (now : ℕ)
    → (office : Office) (row : ActionApprovalRow) → caller.is_member ≡ true
    → find (is_approval caller.ctx.workspace_id id) office.approvals ≡ some row
    → row.status ≡ approved
    → approve_request refuses caller id reason now office ≡ (ok row, office)
unfolding approve_request find_approval_by_id
again refuses caller id reason now office row member found granted =
    ground (arith, member, found, granted)

-- When the log entry of a decision is refused, the approval is marked as approved, the call throws
-- and the shop is as it was; and every later approval of it, by any member, returns the approved row
-- and changes nothing, so that the action is never performed.
pub refused_log_strands :
    (refuses : LogEntry → Bool) (caller : Caller) (id : ℕ) (reason : Option String) (now : ℕ)
    → (office : Office) (row : ActionApprovalRow) → caller.is_member ≡ true
    → find (is_approval caller.ctx.workspace_id id) office.approvals ≡ some row
    → row.status ≡ awaiting
    → role_has_permission caller.ctx.role (get_required_permission_for_action row.action_type)
      ≡ true
    → refuses decision_entry ≡ true
    → ((approve_request refuses caller id reason now office).0 ≡ err log_refused)
      × ((approve_request refuses caller id reason now office).1.shop ≡ office.shop)
      × ((refuses' : LogEntry → Bool) (caller' : Caller) (reason' : Option String) (now' : ℕ)
          → caller'.is_member ≡ true
          → caller'.ctx.workspace_id ≡ caller.ctx.workspace_id
          → approve_request refuses' caller' id reason' now'
              (approve_request refuses caller id reason now office).1
            ≡ (
              ok (approved_row caller.ctx reason now row),
              (approve_request refuses caller id reason now office).1,
            ))
unfolding find_approval_by_id
refused_log_strands refuses caller id reason now office row member found pending may refused =
    let own : id ≡ row.id =
      ground (arith, find_holds (is_approval caller.ctx.workspace_id id) office.approvals found) in
    let here : find (is_approval caller.ctx.workspace_id row.id) office.approvals ≡ some row =
      ap (λ key. find (is_approval caller.ctx.workspace_id key) office.approvals) (sym own)
      ∙ found in
    let marked =
      update_approval_status caller.ctx.workspace_id row.id
        (decision approved reason caller.ctx now) office.approvals in
    let thrown : approve_request refuses caller id reason now office
        ≡ (err log_refused, record office { approvals = marked.1 }) =
      approve_request_lem caller id reason now office row refuses member found pending
      ∙ stopped refuses caller.ctx row reason now office may refused (
          update-found caller.ctx.workspace_id row.id (decision approved reason caller.ctx now)
            office.approvals row here) in
    rw thrown (
      (
        refl,
        refl,
        λ refuses' caller' reason' now' member' same.
            again refuses' caller' id reason' now' (record office { approvals = marked.1 })
              (approved_row caller.ctx reason now row) member'
              (ap (λ key. find (is_approval key id) marked.1) same
                ∙ (rw own (
                    update-rows caller.ctx.workspace_id row.id
                      (decision approved reason caller.ctx now) office.approvals row here)))
              refl,
      ))
