-- ===== src/Approvals.antt =====
-- server/services/approval/approval.service.ts and server/repositories/approval.repository.ts: actions
-- that wait for a member's approval, and their execution. There is no transaction around an
-- approval, so what was written before a throw stays.
pub mod Perform
pub mod Execute
pub mod Decided
pub mod Once
pub mod Overlap
pub mod Granted
pub mod Cancelling
pub mod Stuck
pub mod Request
mod Tests
use Prim.Native.String.{String}
use text.Mathlib.Text.{◌==◌ as str_eq}
use whatsapp_os.Prelude.{
  ℕ, Bool, true, false, not, ◌&&◌, List, [], ◌∷◌, ◌++◌, Option, none, some, or_else, ◌==◌, find,
  is_some, if◌then◌else◌,
}
use whatsapp_os.Prelude.Table.{update_many, count_where}
use whatsapp_os.Authz.{Permission, order_cancel, order_update, order_refund}
use whatsapp_os.Orders.{Db, TenantContext, ServiceError}
use whatsapp_os.Orders.Status.{OrderStatus}
use whatsapp_os.Orders.Service.{UpdateOrderInput}

pub data ApprovalActionType : Type 0 where
  cancel_order_action modify_order_action refund_action change_address_action discount_action :
      ApprovalActionType

pub data ApprovalStatus : Type 0 where
  awaiting approved rejected executed failed : ApprovalStatus

pub data ApprovalRequesterType : Type 0 where
  ai_agent customer system : ApprovalRequesterType

-- Why an execution threw.
pub data ExecutionError : Type 0 where
  missing_target target_not_found audit_refused : ExecutionError
  service_error : ServiceError → ExecutionError

pub data ExecutionResult : Type 0 where
  order_cancelled : ℕ → OrderStatus → ExecutionResult
  order_updated : ℕ → ExecutionResult
  manual_processing : ExecutionResult
  stale_state : OrderStatus → ExecutionResult
  execution_failed : ExecutionError → ExecutionResult

pub record ActionApprovalRow : Type 0 where
  pub id : ℕ
  pub workspace_id : ℕ
  pub action_type : ApprovalActionType
  pub status : ApprovalStatus
  pub requested_by_type : ApprovalRequesterType
  pub requested_by_id : Option ℕ
  pub target_entity_type : Option String
  pub target_entity_id : Option ℕ
  pub payload : Option UpdateOrderInput
  pub reason : Option String
  pub decision_reason : Option String
  pub resolved_by_member_id : Option ℕ
  pub resolved_at : Option ℕ
  pub executed_at : Option ℕ
  pub execution_result : Option ExecutionResult
  pub idempotency_key : Option String

-- The approvals, and the tables that an execution writes.
pub record Office : Type 0 where
  pub approvals : List ActionApprovalRow
  pub shop : Db

unfoldable pub get_required_permission_for_action : ApprovalActionType → Permission
get_required_permission_for_action cancel_order_action = order_cancel
get_required_permission_for_action refund_action = order_refund
get_required_permission_for_action _ = order_update

-- `where: { id, workspaceId }`.
abbrev pub is_approval : ℕ → ℕ → ActionApprovalRow → Bool
is_approval workspace_id id row = row.id == id && row.workspace_id == workspace_id

unfoldable pub find_approval_by_id : ℕ → ℕ → List ActionApprovalRow → Option ActionApprovalRow
find_approval_by_id workspace_id id = find (is_approval workspace_id id)

abbrev pub has_key : ℕ → String → ActionApprovalRow → Bool
has_key workspace_id key row =
    row.workspace_id == workspace_id && str_eq (or_else row.idempotency_key "") key

-- For a key that is not empty.
unfoldable pub find_approval_by_idempotency_key :
    ℕ → String → List ActionApprovalRow → Option ActionApprovalRow
find_approval_by_idempotency_key workspace_id key = find (has_key workspace_id key)

unfoldable pub count_pending_approvals : ℕ → List ActionApprovalRow → ℕ
count_pending_approvals workspace_id =
    count_where
      (λ row. row.workspace_id == workspace_id && elim row.status [ awaiting ↦ true | _ ↦ false ])

-- A field that is undefined is none, and leaves what is stored.
pub record UpdateApprovalStatusData : Type 0 where
  pub status : ApprovalStatus
  pub decision_reason : Option (Option String)
  pub resolved_by_member_id : Option (Option ℕ)
  pub resolved_at : Option (Option ℕ)
  pub executed_at : Option (Option ℕ)
  pub execution_result : Option ExecutionResult

abbrev pub with_status : UpdateApprovalStatusData → ActionApprovalRow → ActionApprovalRow
with_status data_ row = record row {
  status = data_.status;
  decision_reason = or_else data_.decision_reason row.decision_reason;
  resolved_by_member_id = or_else data_.resolved_by_member_id row.resolved_by_member_id;
  resolved_at = or_else data_.resolved_at row.resolved_at;
  executed_at = or_else data_.executed_at row.executed_at;
  execution_result = elim data_.execution_result [
    | none ↦ row.execution_result
    | some result ↦ some result
  ];
}

-- The row after the update, none where there is none to update, and the rows.
unfoldable pub update_approval_status :
    ℕ
    → ℕ
    → UpdateApprovalStatusData
    → List ActionApprovalRow
    → Option ActionApprovalRow × List ActionApprovalRow
update_approval_status workspace_id id data_ rows =
    let after = update_many (is_approval workspace_id id) (with_status data_) rows in
    (find_approval_by_id workspace_id id after, after)

pub record CreateApprovalRequestInput : Type 0 where
  pub action_type : ApprovalActionType
  pub requested_by_type : Option ApprovalRequesterType
  pub requested_by_id : Option ℕ
  pub target_entity_type : Option String
  pub target_entity_id : Option ℕ
  pub payload : Option UpdateOrderInput
  pub reason : Option String
  pub idempotency_key : Option String

-- `createApproval`, under the id that the database gives the row.
abbrev pub new_approval : ℕ → Option ℕ → CreateApprovalRequestInput → ℕ → ActionApprovalRow
new_approval workspace_id requested_by_id input id = record {
  id = id;
  workspace_id = workspace_id;
  action_type = input.action_type;
  status = awaiting;
  requested_by_type = or_else input.requested_by_type ai_agent;
  requested_by_id = requested_by_id;
  target_entity_type = input.target_entity_type;
  target_entity_id = input.target_entity_id;
  payload = input.payload;
  reason = input.reason;
  decision_reason = none;
  resolved_by_member_id = none;
  resolved_at = none;
  executed_at = none;
  execution_result = none;
  idempotency_key = input.idempotency_key;
}

-- `requester` is who asks, as the context has it: none for an agent.
unfoldable pub create_approval_request :
    ℕ
    → Option ℕ
    → CreateApprovalRequestInput
    → ℕ
    → List ActionApprovalRow
    → ActionApprovalRow × List ActionApprovalRow
create_approval_request workspace_id requester input id rows =
    let asked_by : Option ℕ = elim input.requested_by_id [
      | none ↦ requester
      | some given ↦ some given
    ] in
    let row = new_approval workspace_id asked_by input id in
    let added : ActionApprovalRow × List ActionApprovalRow = (row, rows ++ (row ∷ [])) in
    elim input.idempotency_key [
      | none ↦ added
      | some key ↦
          let existing = find_approval_by_idempotency_key workspace_id key rows in
          if str_eq key ""
          then added
          else elim existing [ none ↦ added | some stored ↦ (stored, rows) ]
    ]
