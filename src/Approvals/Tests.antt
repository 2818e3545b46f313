-- ===== src/Approvals/Tests.antt =====
-- A manager's approvals of a cancellation, and the theorems at them.
use Prim.Native.String.{String}
use whatsapp_os.Prelude.{
  ℕ, ◌≤◌, ◌≡◌, refl, Bool, true, false, List, [], ◌∷◌, Option, none, some, if◌then◌else◌,
}
use whatsapp_os.Prelude.Int.{pos}
use whatsapp_os.Prelude.Result.{ok, err}
use whatsapp_os.Authz.{manager, role_has_permission, order_cancel}
use whatsapp_os.Orders.Status as Status
use whatsapp_os.Orders.Status.{OrderStatus, ◌is◌}
use whatsapp_os.Orders.{DeliveryAddress, OrderRow, TenantContext}
use whatsapp_os.Orders.Cancel.{db_after_cancel}
use whatsapp_os.Approvals.{
  cancel_order_action, awaiting, executed, failed, ai_agent, ActionApprovalRow, Office,
  CreateApprovalRequestInput, create_approval_request, get_required_permission_for_action,
}
use whatsapp_os.Approvals.Perform.{perform, target_of, cancel_reason_of}
use whatsapp_os.Approvals.Execute.{Caller, log_refused, LogEntry, approve_loaded, approve_request}
use whatsapp_os.Approvals.Decided.{Call, approve, after_call, undecided_is_unchanged}
use whatsapp_os.Approvals.Once.{decisions, decided_at_most_once}
use whatsapp_os.Approvals.Overlap.{settled, overlapping_approvals_both_perform}
use whatsapp_os.Approvals.Granted.{silent, approved_row}
use whatsapp_os.Approvals.Cancelling.{is_too_late, approve_request_cancels}
use whatsapp_os.Approvals.Request.{create_approval_request_twice}
use whatsapp_os.Approvals.Stuck.{refused_log_strands}

abbrev clerk : TenantContext
clerk = record { workspace_id = 1; role = manager; membership_id = 4 }

abbrev member : Caller
member = record { ctx = clerk; is_member = true }

abbrev outsider : Caller
outsider = record { ctx = clerk; is_member = false }

abbrev to_amina : DeliveryAddress
to_amina = record {
  customer_name = "Amina";
  phone_e164 = "+923001234567";
  address_line1 = some "12 Mall Road";
  address_line2 = none;
  city = some "Lahore";
  postal_code = none;
  country = "PK";
  courier_name = none;
  tracking_number = none;
}

abbrev order : OrderRow
order = record {
  id = 9;
  workspace_id = 1;
  contact_id = 3;
  address = to_amina;
  status = Status.confirmed;
  payment_status = Status.unpaid;
  fulfillment_status = Status.unfulfilled;
  payment_method = Status.cod;
  subtotal_minor = pos 500;
  discount_minor = pos 0;
  delivery_fee_minor = pos 0;
  tax_minor = pos 0;
  total_minor = pos 500;
  created_by_ai = false;
  notes = none;
  confirmed_at = none;
  shipped_at = none;
  delivered_at = none;
  cancelled_at = none;
  cancel_reason = none;
  deleted_at = none;
}

abbrev request : ActionApprovalRow
request = record {
  id = 2;
  workspace_id = 1;
  action_type = cancel_order_action;
  status = awaiting;
  requested_by_type = ai_agent;
  requested_by_id = none;
  target_entity_type = some "Order";
  target_entity_id = some 9;
  payload = none;
  reason = some "The customer changed their mind.";
  decision_reason = none;
  resolved_by_member_id = none;
  resolved_at = none;
  executed_at = none;
  execution_result = none;
  idempotency_key = none;
}

abbrev office : Office
office = record {
  approvals = request ∷ [];
  shop = record { orders = order ∷ []; items = []; events = []; stock = [] };
}

may_cancel : role_has_permission manager order_cancel ≡ true
unfolding role_has_permission
may_cancel = refl

is_about_order : target_of request ≡ some 9
unfolding target_of
is_about_order = refl

approve_request_cancels_example :
    (end : ActionApprovalRow) × ((approve_request silent member 2 none 77 office).0 ≡ ok end)
    × (end.status ≡ (if is_too_late Status.confirmed then failed else executed))
    × ((approve_request silent member 2 none 77 office).1.shop ≡ (
        if is_too_late Status.confirmed
        then office.shop
        else db_after_cancel clerk 9
            (cancel_reason_of (approved_row clerk none 77 request))
            77
            order
            office.shop))
approve_request_cancels_example =
    approve_request_cancels member 2 none 77 office request 9 order refl may_cancel refl refl refl
      is_about_order refl refl

abbrev double_click : List Call
double_click = approve silent member 2 none 77 ∷ approve silent member 2 none 78 ∷ []

decided_at_most_once_example : decisions 1 2 double_click office ≤ 1
decided_at_most_once_example = decided_at_most_once 1 2 double_click office

undecided_is_unchanged_example : after_call (approve silent outsider 2 none 77) office ≡ office
undecided_is_unchanged_example =
    undecided_is_unchanged (approve silent outsider 2 none 77) office refl

abbrev broken_log : LogEntry → Bool
broken_log entry = true

may_decide :
    role_has_permission manager (get_required_permission_for_action cancel_order_action) ≡ true
unfolding role_has_permission get_required_permission_for_action
may_decide = refl

refused_log_strands_example :
    ((approve_request broken_log member 2 none 77 office).0 ≡ err log_refused)
    × ((approve_request broken_log member 2 none 77 office).1.shop ≡ office.shop)
    × ((refuses' : LogEntry → Bool) (caller' : Caller) (reason' : Option String) (now' : ℕ)
        → caller'.is_member ≡ true
        → caller'.ctx.workspace_id ≡ 1
        → approve_request refuses' caller' 2 reason' now'
            (approve_request broken_log member 2 none 77 office).1
          ≡ (
            ok (approved_row clerk none 77 request),
            (approve_request broken_log member 2 none 77 office).1,
          ))
refused_log_strands_example =
    refused_log_strands broken_log member 2 none 77 office request refl refl refl may_decide refl

abbrev asked : CreateApprovalRequestInput
asked = record {
  action_type = cancel_order_action;
  requested_by_type = none;
  requested_by_id = none;
  target_entity_type = some "Order";
  target_entity_id = some 9;
  payload = none;
  reason = none;
  idempotency_key = some "turn-1";
}

create_approval_request_twice_example :
    create_approval_request 1
      (some 4)
      asked
      8
      (create_approval_request 1 none asked 7 (request ∷ [])).1
    ≡ create_approval_request 1 none asked 7 (request ∷ [])
create_approval_request_twice_example =
    create_approval_request_twice 1 none (some 4) asked asked 7 8 (request ∷ []) "turn-1" refl refl
      refl

-- Two managers who both opened the request before either of them approved it.
overlapping_approvals_both_perform_example :
    let after = (approve_request silent member 2 none 77 office).1 in
    let colleague = record clerk { membership_id = 5 } in
    ((approve_loaded silent colleague (some request) none 78 after).0
      ≡ ok (settled colleague none 78 after (settled clerk none 77 office request)))
    × ((approve_loaded silent colleague (some request) none 78 after).1.shop
        ≡ (perform colleague
            (approved_row colleague none 78 (settled clerk none 77 office request))
            78
            after.shop).1)
overlapping_approvals_both_perform_example =
    overlapping_approvals_both_perform member manager 5 2 none none 77 78 office request refl refl
      refl may_decide may_decide
