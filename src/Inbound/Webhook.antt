-- ===== src/Inbound/Webhook.antt =====
-- server/services/whatsapp/webhook-processor.service.ts: `processWebhookEvent`. The statements on
-- events but the one that marks a message as processed are taken to succeed.
use Prim.Native.String.{String}
use whatsapp_os.Prelude.{ℕ, Bool, true, false, not, ◌||◌, Option, none, some, if◌then◌else◌}
use whatsapp_os.Prelude.Result.{ok, err}
use whatsapp_os.Phone.{Text}
use whatsapp_os.Dispatch.Outbound.{InboundStatusUpdate, process_status_update}
use whatsapp_os.Inbound.{
  InboundEvent, InboundProcessResult, invalid_phone, database_error, Refused, Step,
}
use whatsapp_os.Inbound.Receive.{process_inbound_message}
use whatsapp_os.Inbound.Events.{
  Afterwards, DomainEvent, Hook, NumberRow, ReplyJob, Run, WebhookEventRow, accepts_inbound,
  enqueue_ai_respond, enqueue_reply, failed, find_number, find_webhook_event_by_id, ignored,
  is_handled, mark_processed, message, processed, processing, returned, status_update, threw,
  touch_account, touch_account_activity, touch_inbound_activity, touch_number,
  update_webhook_event_status,
}

abbrev pub ignore_event : ℕ → ℕ → Option ℕ → Hook → Run
ignore_event id now workspace_id hook = (
  returned,
  update_webhook_event_status id
      (λ row. record row {
        status = ignored;
        workspace_id = workspace_id;
        has_error = true;
        processed_at = some now;
      })
      hook,
)

-- A transient failure: the error is noted, and thrown again.
abbrev pub fail_again : ℕ → Hook → Run
fail_again id hook =
    (threw, update_webhook_event_status id (λ row. record row { has_error = true }) hook)

abbrev pub processed_row : ℕ → WebhookEventRow → WebhookEventRow
processed_row now row = record row {
  status = processed;
  processed_at = some now;
  has_error = false;
}

-- What follows on a message that was processed. A duplicate is not answered.
unfoldable pub after_message :
    (Afterwards → Bool) → ℕ → ℕ → NumberRow → InboundEvent → InboundProcessResult → Hook → Run
after_message fails id now number event result hook =
    let marked = update_webhook_event_status id (processed_row now) hook in
    let touched = touch_inbound_activity number event.occurred_at marked in
    let job : ReplyJob = record {
      workspace_id = number.workspace_id;
      conversation_id = result.conversation_id;
      message_id = result.message_id;
    } in
    if fails mark_processed
    then fail_again id hook
    else if fails touch_account
    then fail_again id marked
    else if fails touch_number
    then fail_again id (touch_account_activity number event.occurred_at marked)
    else if result.is_duplicate
    then (returned, touched)
    else if fails enqueue_reply
    then fail_again id touched
    else (returned, enqueue_ai_respond job touched)

-- The `try`, with a message that the inbound service processed or refused.
abbrev pub message_ended :
    (Afterwards → Bool) → ℕ → ℕ → NumberRow → InboundEvent → Step InboundProcessResult → Hook → Run
message_ended fails id now number event (ok result, world) hook =
    after_message fails id now number event result (record hook { world = world })
message_ended fails id now number event (err invalid_phone, world) hook = (
  returned,
  update_webhook_event_status id
      (λ row. record row { status = failed; has_error = true; processed_at = some now })
      (record hook { world = world }),
)
message_ended fails id now number event (err database_error, world) hook =
    fail_again id (record hook { world = world })

abbrev pub status_ended : (Afterwards → Bool) → ℕ → ℕ → InboundStatusUpdate → ℕ → Hook → Run
status_ended fails id ws update now hook =
    let written : Hook = record hook {
      world = record hook.world {
        messages = (process_status_update ws update now hook.world.messages).1;
      };
    } in
    if fails mark_processed
    then fail_again id written
    else (returned, update_webhook_event_status id (processed_row now) written)

unfoldable pub execute_event :
    (Afterwards → Bool)
    → Refused
    → (Text → String)
    → ℕ
    → ℕ
    → NumberRow
    → Option DomainEvent
    → Hook
    → Run
execute_event fails refused printed id now number none hook =
    ignore_event id now (some number.workspace_id) hook
execute_event fails refused printed id now number (some (message event)) hook =
    message_ended fails id now number event
      (process_inbound_message refused number.workspace_id printed event now hook.world) hook
execute_event fails refused printed id now number (some (status_update update)) hook =
    status_ended fails id number.workspace_id update now hook

unfoldable pub route_event :
    (Afterwards → Bool) → Refused → (Text → String) → ℕ → ℕ → WebhookEventRow → Hook → Run
route_event fails refused printed id now event hook = elim event.phone_number_id [
  | none ↦ ignore_event id now event.workspace_id hook
  | some phone_number_id ↦ elim (find_number phone_number_id hook.numbers) [
    | none ↦ ignore_event id now event.workspace_id hook
    | some number ↦
        if not (accepts_inbound number.status) || not (accepts_inbound number.account_status)
        then ignore_event id now (some number.workspace_id) hook
        else execute_event fails refused printed id now number event.domain_event (
            update_webhook_event_status id
              (λ row. record row { workspace_id = some number.workspace_id }) hook)
  ]
]

unfoldable pub process_webhook_event :
    (Afterwards → Bool) → Refused → (Text → String) → ℕ → ℕ → Hook → Run
process_webhook_event fails refused printed now id hook =
    elim (find_webhook_event_by_id id hook.events) [
      | none ↦ (threw, hook)
      | some event ↦
          if is_handled event.status
          then (returned, hook)
          else route_event fails refused printed id now event
              (update_webhook_event_status id (λ row. record row { status = processing }) hook)
    ]
