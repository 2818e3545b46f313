-- ===== src/Approvals/Once.antt =====
-- An approval is acted on once by calls that do not overlap.
use whatsapp_os.Prelude.{
  ℕ, suc, ◌≤◌, ◌≡◌, refl, Bool, true, false, ◌&&◌, inl, inr, List, [], ◌∷◌, some, arith, ◌==◌, find,
  Bool-cases, Option-cases, if◌then◌else◌, ◌∙◌, ap,
}
use whatsapp_os.Prelude.Table.{find_holds}
use whatsapp_os.Approvals.{
  approved, rejected, ActionApprovalRow, Office, is_approval, find_approval_by_id,
}
use whatsapp_os.Approvals.Execute.{decision, approve_request, reject_request}
use whatsapp_os.Approvals.Decided.{
  Call, approve, reject, after_call, caller_of, id_of, decides, is_decided, is_decided-written,
  is_decided-approve_pending, is_decided-call,
}

pair-ap : {a b c d : ℕ} → a ≡ b → c ≡ d → Path (ℕ × ℕ) (a, c) (b, d)
pair-ap e e' = cc

module _ (ws id : ℕ) where
  abbrev is_about : Call → Bool
  is_about call = (caller_of call).ctx.workspace_id == ws && id_of call == id

  -- How many of the calls decide the approval.
  abbrev pub decisions : List Call → Office → ℕ
  decisions [] office = 0
  decisions (call ∷ calls) office =
      let rest = decisions calls (after_call call office) in
      if is_about call && decides call office then suc rest else rest

  found_about :
      (call : Call) (rows : List ActionApprovalRow)
      → is_about call ≡ true
      → find_approval_by_id (caller_of call).ctx.workspace_id (id_of call) rows
        ≡ find (is_approval ws id) rows
  unfolding find_approval_by_id
  found_about call rows about =
      let own_workspace : (caller_of call).ctx.workspace_id ≡ ws = ground arith in
      let own_approval : id_of call ≡ id = ground arith in
      ap (λ key. find (is_approval key.0 key.1) rows) (pair-ap own_workspace own_approval)

  decided_is_idle :
      (call : Call) (office : Office)
      → is_decided ws id office.approvals ≡ true
      → (is_about call && decides call office) ≡ false
  decided_is_idle call office held = elim (Bool-cases (is_about call)) [
    | inr other ↦ rw other refl
    | inl about ↦
        let here = found_about call office.approvals about in
        elim (Option-cases (find (is_approval ws id) office.approvals)) [
          | inl missing ↦ ground (arith, about, here ∙ missing)
          | inr (row, found) ↦ ground (arith, about, here ∙ found, found, held)
        ]
  ]

  deciding_call-is_decided :
      (call : Call) (office : Office)
      → (is_about call && decides call office) ≡ true
      → is_decided ws id (after_call call office).approvals ≡ true
  unfolding approve_request reject_request
  deciding_call-is_decided (approve refuses caller id' reason now) office deciding =
      let here =
        found_about (approve refuses caller id' reason now) office.approvals (ground arith) in
      elim (Option-cases (find (is_approval ws id) office.approvals)) [
        | inl missing ↦ ground (arith, deciding, here ∙ missing)
        | inr (row, found) ↦
            let is_row = find_holds (is_approval ws id) office.approvals found in
            let written =
              is_decided-written ws id caller.ctx.workspace_id row.id
                (decision approved reason caller.ctx now) office.approvals (ground arith)
                (ground arith) refl in
            let end =
              is_decided-approve_pending ws id refuses caller.ctx row reason now office written
                (inr (ground (arith, deciding, here ∙ found))) in
            ground (arith, deciding, here ∙ found, end)
      ]
  deciding_call-is_decided (reject refuses caller id' reason now) office deciding =
      let here =
        found_about (reject refuses caller id' reason now) office.approvals (ground arith) in
      elim (Option-cases (find (is_approval ws id) office.approvals)) [
        | inl missing ↦ ground (arith, deciding, here ∙ missing)
        | inr (row, found) ↦
            let written =
              is_decided-written ws id caller.ctx.workspace_id id'
                (decision rejected (some reason) caller.ctx now) office.approvals (ground arith)
                (ground arith) refl in
            ground (arith, deciding, here ∙ found, written)
      ]

  no_more_decisions :
      (calls : List Call) (office : Office)
      → is_decided ws id office.approvals ≡ true
      → decisions calls office ≡ 0
  no_more_decisions [] office held = refl
  no_more_decisions (call ∷ calls) office held =
      let rest =
        no_more_decisions calls (after_call call office) (is_decided-call ws id call office held) in
      rw (decided_is_idle call office held) rest

  -- Of any calls that approve or reject, each made after the one before it has ended, by anybody, at any
  -- time and on any approvals, at most one decides a given approval.
  pub decided_at_most_once : (calls : List Call) (office : Office) → decisions calls office ≤ 1
  decided_at_most_once [] office = omega arith
  decided_at_most_once (call ∷ calls) office =
      elim (Bool-cases (is_about call && decides call office)) [
        | inl deciding ↦
            let rest =
              no_more_decisions calls (after_call call office)
                (deciding_call-is_decided call office deciding) in
            rw deciding (omega arith)
        | inr idle ↦ rw idle (decided_at_most_once calls (after_call call office))
      ]
