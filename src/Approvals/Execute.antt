-- ===== src/Approvals/Execute.antt =====
-- server/services/approval/approval.service.ts: `approveRequest`, `rejectRequest` and
-- `executeApprovedRequest`.
use Prim.Native.String.{String}
use whatsapp_os.Prelude.{ℕ, Bool, true, false, not, List, Option, none, some, if◌then◌else◌}
use whatsapp_os.Prelude.Result.{Result, ok, err}
use whatsapp_os.Authz.{role_has_permission}
use whatsapp_os.Orders.{TenantContext}
use whatsapp_os.Approvals.{
  ApprovalStatus, awaiting, approved, rejected, executed, failed, ExecutionError, audit_refused,
  stale_state, execution_failed, ActionApprovalRow, Office, get_required_permission_for_action,
  find_approval_by_id, UpdateApprovalStatusData, update_approval_status,
}
use whatsapp_os.Approvals.Perform.{Performed, finished, stale, threw, perform}

-- Who calls, and whether the context names a membership.
pub record Caller : Type 0 where
  pub ctx : TenantContext
  pub is_member : Bool

pub data ApprovalError : Type 0 where
  only_members approval_not_found forbidden record_missing log_refused : ApprovalError
  wrong_status : ApprovalStatus → ApprovalError

-- The entries of the audit log that a call writes; one that is refused throws.
pub data LogEntry : Type 0 where
  decision_entry execution_entry failure_entry : LogEntry

abbrev change : ApprovalStatus → UpdateApprovalStatusData
change status = record {
  status = status;
  decision_reason = none;
  resolved_by_member_id = none;
  resolved_at = none;
  executed_at = none;
  execution_result = none;
}

abbrev pub failure_data : ExecutionError → UpdateApprovalStatusData
failure_data error = record (change failed) { execution_result = some (execution_failed error) }

-- What is written to the approval first.
abbrev pub outcome_data : ℕ → Performed → UpdateApprovalStatusData
outcome_data now (finished result) = record (change executed) {
  executed_at = some (some now);
  execution_result = some result;
}
outcome_data now (stale status text) = record (change failed) {
  decision_reason = some (some text);
  execution_result = some (stale_state status);
}
outcome_data now (threw error) = failure_data error

abbrev pub has_thrown : Performed → Bool
has_thrown (threw error) = true
has_thrown _ = false

abbrev pub returned :
    Option ActionApprovalRow × List ActionApprovalRow
    → Result ApprovalError ActionApprovalRow × List ActionApprovalRow
returned (none, rows) = (err record_missing, rows)
returned (some row, rows) = (ok row, rows)

-- The outcome written, and logged. A log entry that is refused throws inside the `try`, so that the
-- approval is marked as failed; the `catch` logs that, and returns the failed row if it can.
unfoldable pub conclude :
    (LogEntry → Bool)
    → ℕ
    → ℕ
    → ℕ
    → Performed
    → List ActionApprovalRow
    → Result ApprovalError ActionApprovalRow × List ActionApprovalRow
conclude refuses workspace_id id now performed rows =
    let written = update_approval_status workspace_id id (outcome_data now performed) rows in
    let marked = update_approval_status workspace_id id (failure_data audit_refused) written.1 in
    if has_thrown performed
    then (if refuses failure_entry then (err log_refused, written.1) else returned written)
    else if not (refuses execution_entry)
    then returned written
    else if refuses failure_entry
    then (err log_refused, marked.1)
    else returned marked

-- `executeApprovedRequest` of a row.
unfoldable pub execute_approved_request :
    (LogEntry → Bool)
    → TenantContext
    → ActionApprovalRow
    → ℕ
    → Office
    → Result ApprovalError ActionApprovalRow × Office
execute_approved_request refuses ctx approval now office =
    let done = perform ctx approval now office.shop in
    let end = conclude refuses ctx.workspace_id approval.id now done.0 office.approvals in
    elim approval.status [
      | executed ↦ (ok approval, office)
      | approved ↦ (end.0, record { approvals = end.1; shop = done.1 })
      | status ↦ (err (wrong_status status), office)
    ]

abbrev pub decision : ApprovalStatus → Option String → TenantContext → ℕ → UpdateApprovalStatusData
decision status reason ctx now = record (change status) {
  decision_reason = some reason;
  resolved_by_member_id = some (some ctx.membership_id);
  resolved_at = some (some now);
}

-- From the tests that `approveRequest` makes on a pending row on.
unfoldable pub approve_pending :
    (LogEntry → Bool)
    → TenantContext
    → ActionApprovalRow
    → Option String
    → ℕ
    → Office
    → Result ApprovalError ActionApprovalRow × Office
approve_pending refuses ctx approval reason now office =
    let (row, rows) =
      update_approval_status ctx.workspace_id approval.id (decision approved reason ctx now)
        office.approvals in
    let marked = record office { approvals = rows } in
    if not (role_has_permission ctx.role (get_required_permission_for_action approval.action_type))
    then (err forbidden, office)
    else elim row [
      | none ↦ (err record_missing, marked)
      | some updated ↦
          if refuses decision_entry
          then (err log_refused, marked)
          else execute_approved_request refuses ctx updated now marked
    ]

-- What `approveRequest` does with the row that it has read.
abbrev pub approve_loaded :
    (LogEntry → Bool)
    → TenantContext
    → Option ActionApprovalRow
    → Option String
    → ℕ
    → Office
    → Result ApprovalError ActionApprovalRow × Office
approve_loaded refuses ctx none reason now office = (err approval_not_found, office)
approve_loaded refuses ctx (some approval) reason now office = elim approval.status [
  | approved ↦ (ok approval, office)
  | executed ↦ (ok approval, office)
  | awaiting ↦ approve_pending refuses ctx approval reason now office
  | status ↦ (err (wrong_status status), office)
]

-- A call that reads and acts with nothing in between.
unfoldable pub approve_request :
    (LogEntry → Bool)
    → Caller
    → ℕ
    → Option String
    → ℕ
    → Office
    → Result ApprovalError ActionApprovalRow × Office
approve_request refuses caller id reason now office =
    if not caller.is_member
    then (err only_members, office)
    else approve_loaded refuses caller.ctx
        (find_approval_by_id caller.ctx.workspace_id id office.approvals) reason now office

unfoldable pub reject_request :
    (LogEntry → Bool)
    → Caller
    → ℕ
    → String
    → ℕ
    → Office
    → Result ApprovalError ActionApprovalRow × Office
reject_request refuses caller id reason now office =
    if not caller.is_member
    then (err only_members, office)
    else elim (find_approval_by_id caller.ctx.workspace_id id office.approvals) [
      | none ↦ (err approval_not_found, office)
      | some approval ↦ elim approval.status [
        | rejected ↦ (ok approval, office)
        | awaiting ↦
            let written =
              update_approval_status caller.ctx.workspace_id id
                (decision rejected (some reason) caller.ctx now) office.approvals in
            let marked = record office { approvals = written.1 } in
            if not (
              role_has_permission caller.ctx.role
                (get_required_permission_for_action approval.action_type))
            then (err forbidden, office)
            else if refuses decision_entry
            then (err log_refused, marked)
            else ((returned written).0, marked)
        | status ↦ (err (wrong_status status), office)
      ]
    ]
