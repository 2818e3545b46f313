-- ===== src/Approvals/Decided.antt =====
-- Decisions on approvals: what decides, and that a decided approval stays decided.
use Prim.Native.String.{String}
use whatsapp_os.Prelude.{
  ℕ, ◌≡◌, refl, Bool, true, false, not, ◌&&◌, ◌⊎◌, inl, inr, List, Option, none, some, arith, find,
  Option-cases,
}
use whatsapp_os.Prelude.Table.{find-update_many, find_holds}
use whatsapp_os.Authz.{role_has_permission}
use whatsapp_os.Orders.{TenantContext}
use whatsapp_os.Approvals.{
  ApprovalStatus, awaiting, approved, rejected, audit_refused, ActionApprovalRow, Office,
  get_required_permission_for_action, is_approval, find_approval_by_id, with_status,
  UpdateApprovalStatusData, update_approval_status,
}
use whatsapp_os.Approvals.Perform.{Performed, finished, stale, threw, perform}
use whatsapp_os.Approvals.Execute.{
  Caller, LogEntry, failure_data, outcome_data, returned, conclude, execute_approved_request,
  decision, approve_pending, approve_request, reject_request,
}

-- A call on an approval.
pub data Call : Type 0 where
  approve : (LogEntry → Bool) → Caller → ℕ → Option String → ℕ → Call
  reject : (LogEntry → Bool) → Caller → ℕ → String → ℕ → Call

abbrev pub after_call : Call → Office → Office
after_call (approve refuses caller id reason now) office =
    (approve_request refuses caller id reason now office).1
after_call (reject refuses caller id reason now) office =
    (reject_request refuses caller id reason now office).1

abbrev pub caller_of : Call → Caller
caller_of (approve refuses caller id reason now) = caller
caller_of (reject refuses caller id reason now) = caller

abbrev pub id_of : Call → ℕ
id_of (approve refuses caller id reason now) = id
id_of (reject refuses caller id reason now) = id

abbrev pub is_awaiting : ApprovalStatus → Bool
is_awaiting awaiting = true
is_awaiting _ = false

abbrev pub may_decide : Caller → Option ActionApprovalRow → Bool
may_decide caller none = false
may_decide caller (some row) =
    is_awaiting row.status
    && role_has_permission caller.ctx.role (get_required_permission_for_action row.action_type)

-- Whether a call decides its approval: a member who has the permission for the action calls, and the
-- approval is pending.
abbrev pub decides : Call → Office → Bool
decides call office =
    (caller_of call).is_member
    && may_decide (caller_of call)
        (find_approval_by_id (caller_of call).ctx.workspace_id (id_of call) office.approvals)

abbrev pub decided_option : Option ActionApprovalRow → Bool
decided_option none = true
decided_option (some row) = not (is_awaiting row.status)

pub returned-rows :
    (out : Option ActionApprovalRow × List ActionApprovalRow) → (returned out).1 ≡ out.1
returned-rows (none, rows) = refl
returned-rows (some row, rows) = refl

-- What does not decide changes nothing.
pub undecided_is_unchanged :
    (call : Call) (office : Office) → decides call office ≡ false → after_call call office ≡ office
unfolding approve_request reject_request approve_pending
undecided_is_unchanged (approve refuses caller id reason now) office idle =
    elim (Option-cases (find_approval_by_id caller.ctx.workspace_id id office.approvals)) [
      | inl missing ↦ ground (arith, missing)
      | inr (row, found) ↦ ground (arith, found, idle)
    ]
undecided_is_unchanged (reject refuses caller id reason now) office idle =
    elim (Option-cases (find_approval_by_id caller.ctx.workspace_id id office.approvals)) [
      | inl missing ↦ ground (arith, missing)
      | inr (row, found) ↦ ground (arith, found, idle)
    ]

module _ (ws id : ℕ) where
  abbrev pub is_decided : List ActionApprovalRow → Bool
  is_decided rows = decided_option (find (is_approval ws id) rows)

  is_decided-update :
      (ws' id' : ℕ) (data_ : UpdateApprovalStatusData) (rows : List ActionApprovalRow)
      → is_awaiting data_.status ≡ false
      → is_decided rows ≡ true
      → is_decided (update_approval_status ws' id' data_ rows).1 ≡ true
  unfolding update_approval_status
  is_decided-update ws' id' data_ rows final held =
      rw
        (
          update_approval_status,
          find-update_many (is_approval ws id) (is_approval ws' id') (with_status data_) rows
              (λ row. refl),
        )
        (elim (Option-cases (find (is_approval ws id) rows)) [
          | inl missing ↦ rw missing refl
          | inr (row, found) ↦ ground (arith, found, final, held)
        ])

  is_decided-own :
      (data_ : UpdateApprovalStatusData) (rows : List ActionApprovalRow)
      → is_awaiting data_.status ≡ false
      → is_decided (update_approval_status ws id data_ rows).1 ≡ true
  unfolding update_approval_status
  is_decided-own data_ rows final =
      rw
        (
          update_approval_status,
          find-update_many (is_approval ws id) (is_approval ws id) (with_status data_) rows
              (λ row. refl),
        )
        (elim (Option-cases (find (is_approval ws id) rows)) [
          | inl missing ↦ rw missing refl
          | inr (row, found) ↦ rw (found, find_holds (is_approval ws id) rows found) (rw final refl)
        ])

  pub is_decided-written :
      (ws' id' : ℕ) (data_ : UpdateApprovalStatusData) (rows : List ActionApprovalRow)
      → ws ≡ ws'
      → id ≡ id'
      → is_awaiting data_.status ≡ false
      → is_decided (update_approval_status ws' id' data_ rows).1 ≡ true
  is_decided-written ws' id' data_ rows own_workspace own_approval final =
      rw⁻¹ (own_workspace, own_approval) (is_decided-own data_ rows final)

  outcome_is_final :
      (now : ℕ) (performed : Performed) → is_awaiting (outcome_data now performed).status ≡ false
  outcome_is_final now (finished result) = refl
  outcome_is_final now (stale status text) = refl
  outcome_is_final now (threw error) = refl

  is_decided-conclude :
      (refuses : LogEntry → Bool) (ws' id' now : ℕ) (performed : Performed)
      (rows : List ActionApprovalRow)
      → is_decided rows ≡ true
      → is_decided (conclude refuses ws' id' now performed rows).1 ≡ true
  unfolding conclude
  is_decided-conclude refuses ws' id' now performed rows held =
      let out = update_approval_status ws' id' (outcome_data now performed) rows in
      let first : is_decided out.1 ≡ true =
        is_decided-update ws' id' (outcome_data now performed) rows (outcome_is_final now performed)
          held in
      let marked = update_approval_status ws' id' (failure_data audit_refused) out.1 in
      let second : is_decided marked.1 ≡ true =
        is_decided-update ws' id' (failure_data audit_refused) out.1 refl first in
      let kept : is_decided (returned out).1 ≡ true = rw (returned-rows out) first in
      let failed_row : is_decided (returned marked).1 ≡ true = rw (returned-rows marked) second in
      ground (arith, first, second, kept, failed_row)

  is_decided-execute :
      (refuses : LogEntry → Bool) (ctx : TenantContext) (approval : ActionApprovalRow) (now : ℕ)
      (office : Office)
      → is_decided office.approvals ≡ true
      → is_decided (execute_approved_request refuses ctx approval now office).1.approvals ≡ true
  unfolding execute_approved_request
  is_decided-execute refuses ctx approval now office held =
      let end =
        is_decided-conclude refuses ctx.workspace_id approval.id now
          (perform ctx approval now office.shop).0 office.approvals held in
      ground (arith, held, end)

  -- Once the decision is written, the rest keeps it.
  pub is_decided-approve_pending :
      (refuses : LogEntry → Bool) (ctx : TenantContext) (approval : ActionApprovalRow)
      → (reason : Option String) (now : ℕ) (office : Office)
      → is_decided
          (update_approval_status ctx.workspace_id approval.id
            (decision approved reason ctx now)
            office.approvals).1
        ≡ true
      → (is_decided office.approvals ≡ true)
        ⊎ (role_has_permission ctx.role (get_required_permission_for_action approval.action_type)
            ≡ true)
      → is_decided (approve_pending refuses ctx approval reason now office).1.approvals ≡ true
  unfolding approve_pending
  is_decided-approve_pending refuses ctx approval reason now office written allowed =
      let out =
        update_approval_status ctx.workspace_id approval.id (decision approved reason ctx now)
          office.approvals in
      let marked : Office = record office { approvals = out.1 } in
      elim (Option-cases out.0) [
        | inl missing ↦ ground (arith, missing, written, allowed)
        | inr (updated, e) ↦
            let end = is_decided-execute refuses ctx updated now marked written in
            ground (arith, e, written, allowed, end)
      ]

  pub is_decided-call :
      (call : Call) (office : Office)
      → is_decided office.approvals ≡ true
      → is_decided (after_call call office).approvals ≡ true
  unfolding approve_request reject_request
  is_decided-call (approve refuses caller id' reason now) office held =
      elim (Option-cases (find_approval_by_id caller.ctx.workspace_id id' office.approvals)) [
        | inl missing ↦ ground (arith, missing, held)
        | inr (row, found) ↦
            let end =
              is_decided-approve_pending refuses caller.ctx row reason now office
                (is_decided-update caller.ctx.workspace_id row.id
                  (decision approved reason caller.ctx now) office.approvals refl held)
                (inl held) in
            ground (arith, found, held, end)
      ]
  is_decided-call (reject refuses caller id' reason now) office held =
      let end =
        is_decided-update caller.ctx.workspace_id id'
          (decision rejected (some reason) caller.ctx now) office.approvals refl held in
      elim (Option-cases (find_approval_by_id caller.ctx.workspace_id id' office.approvals)) [
        | inl missing ↦ ground (arith, missing, held)
        | inr (row, found) ↦ ground (arith, found, held, end)
      ]
