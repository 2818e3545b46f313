-- ===== src/Approvals/Granted.antt =====
-- An approval that is granted: what is performed and what is written.
use Prim.Native.String.{String}
use whatsapp_os.Prelude.{
  ℕ, ◌≡◌, refl, Bool, true, false, List, Option, none, some, arith, find, ◌∙◌, sym, ap, Bool-cases,
  inl, inr,
}
use whatsapp_os.Prelude.Result.{ok}
use whatsapp_os.Prelude.Table.{find-update_many, find_holds}
use whatsapp_os.Authz.{role_has_permission}
use whatsapp_os.Orders.{TenantContext}
use whatsapp_os.Approvals.{
  awaiting, approved, ActionApprovalRow, Office, get_required_permission_for_action, is_approval,
  find_approval_by_id, with_status, UpdateApprovalStatusData, update_approval_status,
}
use whatsapp_os.Approvals.Perform.{Performed, perform}
use whatsapp_os.Approvals.Execute.{
  Caller, LogEntry, has_thrown, outcome_data, returned, conclude, execute_approved_request,
  decision, approve_pending, approve_request,
}

pub update-found :
    (ws id : ℕ) (data_ : UpdateApprovalStatusData) (rows : List ActionApprovalRow)
    (row : ActionApprovalRow)
    → find (is_approval ws id) rows ≡ some row
    → (update_approval_status ws id data_ rows).0 ≡ some (with_status data_ row)
unfolding update_approval_status find_approval_by_id
update-found ws id data_ rows row found =
    find-update_many (is_approval ws id) (is_approval ws id) (with_status data_) rows (λ row. refl)
    ∙ ground (arith, found, find_holds (is_approval ws id) rows found)

pub update-rows :
    (ws id : ℕ) (data_ : UpdateApprovalStatusData) (rows : List ActionApprovalRow)
    (row : ActionApprovalRow)
    → find (is_approval ws id) rows ≡ some row
    → find (is_approval ws id) (update_approval_status ws id data_ rows).1
      ≡ some (with_status data_ row)
unfolding update_approval_status find_approval_by_id
update-rows ws id data_ rows row found = update-found ws id data_ rows row found

returned-fst :
    (out : Option ActionApprovalRow × List ActionApprovalRow) {row : ActionApprovalRow}
    → out.0 ≡ some row
    → (returned out).0 ≡ ok row
returned-fst (none, rows) e = cc
returned-fst (some row, rows) e = cc

abbrev pub silent : LogEntry → Bool
silent entry = false

-- The outcome that is written to a row that is there, with nothing refused by the log.
conclude-found :
    (ws id now : ℕ) (performed : Performed) (rows : List ActionApprovalRow)
    (row : ActionApprovalRow)
    → find (is_approval ws id) rows ≡ some row
    → (conclude silent ws id now performed rows).0
      ≡ ok (with_status (outcome_data now performed) row)
unfolding conclude
conclude-found ws id now performed rows row found =
    let done =
      returned-fst (update_approval_status ws id (outcome_data now performed) rows)
        (update-found ws id (outcome_data now performed) rows row found) in
    elim (Bool-cases (has_thrown performed)) [
      | inl thrown ↦ rw (thrown, conclude) done
      | inr finished_it ↦ rw (finished_it, conclude) done
    ]

-- The row once it is approved.
abbrev pub approved_row : TenantContext → Option String → ℕ → ActionApprovalRow → ActionApprovalRow
approved_row ctx reason now = with_status (decision approved reason ctx now)

module _ (ctx : TenantContext) (reason : Option String) (now : ℕ) (office : Office)
    (row : ActionApprovalRow) where
  abbrev pub marked_office : Office
  marked_office = record office {
    approvals =
        (update_approval_status ctx.workspace_id row.id (decision approved reason ctx now)
          office.approvals).1;
  }

  pub approve_pending_lem :
      find (is_approval ctx.workspace_id row.id) office.approvals ≡ some row
      → role_has_permission ctx.role (get_required_permission_for_action row.action_type) ≡ true
      → approve_pending silent ctx row reason now office
        ≡ execute_approved_request silent ctx (approved_row ctx reason now row) now marked_office
  unfolding approve_pending
  approve_pending_lem found may =
      let out =
        update-found ctx.workspace_id row.id (decision approved reason ctx now) office.approvals row
          found in
      rw (approve_pending, may) (rw out refl)

  pub execute_marked :
      find (is_approval ctx.workspace_id row.id) office.approvals ≡ some row
      → let done = perform ctx (approved_row ctx reason now row) now office.shop in
        ((execute_approved_request silent ctx (approved_row ctx reason now row) now marked_office).0
          ≡ ok (with_status (outcome_data now done.0) (approved_row ctx reason now row)))
        × ((execute_approved_request silent ctx
              (approved_row ctx reason now row)
              now
              marked_office).1.shop
            ≡ done.1)
  unfolding execute_approved_request
  execute_marked found =
      let done = perform ctx (approved_row ctx reason now row) now office.shop in
      let kept =
        update-found ctx.workspace_id row.id (decision approved reason ctx now) office.approvals row
          found in
      (
        conclude-found ctx.workspace_id row.id now done.0 marked_office.approvals
            (approved_row ctx reason now row)
            (update-rows ctx.workspace_id row.id (decision approved reason ctx now) office.approvals
              row found),
        refl,
      )

module _ (caller : Caller) (id : ℕ) (reason : Option String) (now : ℕ) (office : Office)
    (row : ActionApprovalRow) where
  pub approve_request_lem :
      (refuses : LogEntry → Bool)
      → caller.is_member ≡ true
      → find (is_approval caller.ctx.workspace_id id) office.approvals ≡ some row
      → row.status ≡ awaiting
      → approve_request refuses caller id reason now office
        ≡ approve_pending refuses caller.ctx row reason now office
  unfolding approve_request find_approval_by_id
  approve_request_lem refuses member found pending = ground (arith, member, found, pending)

  -- An approval that is granted: the action is performed on the row as it was approved, and its
  -- outcome written.
  pub approve_performs :
      caller.is_member ≡ true
      → find (is_approval caller.ctx.workspace_id id) office.approvals ≡ some row
      → row.status ≡ awaiting
      → role_has_permission caller.ctx.role (get_required_permission_for_action row.action_type)
        ≡ true
      → let done = perform caller.ctx (approved_row caller.ctx reason now row) now office.shop in
        ((approve_request silent caller id reason now office).0
          ≡ ok (with_status (outcome_data now done.0) (approved_row caller.ctx reason now row)))
        × ((approve_request silent caller id reason now office).1.shop ≡ done.1)
  approve_performs member found pending may =
      let own : id ≡ row.id =
        ground
          (arith, find_holds (is_approval caller.ctx.workspace_id id) office.approvals found) in
      let here : find (is_approval caller.ctx.workspace_id row.id) office.approvals ≡ some row =
        ap (λ key. find (is_approval caller.ctx.workspace_id key) office.approvals) (sym own)
        ∙ found in
      rw (approve_request_lem silent member found pending) (
        rw (approve_pending_lem caller.ctx reason now office row here may)
          (execute_marked caller.ctx reason now office row here))
