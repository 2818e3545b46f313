-- ===== src/Dispatch/Outbound.antt =====
-- server/services/whatsapp/outbound.service.ts, and `processStatusUpdate` of
-- server/services/whatsapp/inbound.service.ts.
use Prim.Native.String.{String, ◌++◌ as join}
use whatsapp_os.Prelude.{
  ℕ, Bool, true, false, not, ◌&&◌, ◌||◌, List, ◌∷◌, Option, none, some, or_else, ltb, is_some,
  if◌then◌else◌,
}
use whatsapp_os.Prelude.Result.{Result, ok, err}
use whatsapp_os.RateLimit.{message_dispatch, consume}
use whatsapp_os.Sending.{SendError, nonempty, classify_send_failure}
use whatsapp_os.Messages.{
  template, MessageStatus, sending, MessageRow, is_out, find_message_by_id,
  find_message_by_provider_id, StatusOptions, update_message_status, ProviderSendResult,
}
use whatsapp_os.Messages.Channel.{
  ConversationRow, find_conversation_by_id, touch_conversation_activity,
}
use whatsapp_os.Dispatch.{
  Content, text_content, template_content, Request, World, sending_status, conversation_activity,
  Surroundings, message_not_found, conversation_not_found, invalid_window, not_configured,
  rate_limited, send_failed, Action, ◌>>=◌, ◌>>◌, return, throw, read, write_if, some_or_throw,
  throw_if, with_messages,
}
use whatsapp_os.Dispatch.Outcome.{
  no_options, record_send_failure, record_send_success, persist_dispatch_result,
}

-- What the message is sent as.
unfoldable pub content_of : MessageRow → Content
content_of message =
    let as_text = text_content (or_else message.body "") message.reply_to_provider_message_id in
    elim message.type [
      | template ↦ elim message.template_name [
        | none ↦ as_text
        | some name ↦
            if nonempty (some name)
            then template_content name (or_else message.template_language "en") message.payload
            else as_text
      ]
      | _ ↦ as_text
    ]

abbrev is_sending : MessageStatus → Bool
is_sending sending = true
is_sending _ = false

-- The first two tests, and the third's on what it read again.
abbrev pub is_dispatched : MessageRow → Bool
is_dispatched message = nonempty message.provider_message_id || is_out message.status

-- The row that a test returns at once.
unfoldable pub settled_row : ℕ → ℕ → MessageRow → World → Option MessageRow
settled_row workspace_id message_id message world =
    let refreshed = find_message_by_id workspace_id message_id world.messages in
    let again : Option MessageRow = elim refreshed [
      | none ↦ none
      | some row ↦ if is_sending message.status && is_dispatched row then some row else none
    ] in
    if is_dispatched message
    then some message
    else if is_some again
    then again
    else if is_some message.delivery_uncertain_at
    then some message
    else none

abbrev pub with_activity : ℕ → ConversationRow → ProviderSendResult → World → World
with_activity workspace_id conversation result world = record world {
  conversations =
      touch_conversation_activity workspace_id conversation.id
        (record {
          last_message_at = result.occurred_at;
          is_inbound = false;
          unread_delta = none;
          first_response = not (is_some conversation.first_response_at);
          increment_count = some false;
        })
        world.conversations;
}

-- What follows once the result is written.
unfoldable pub note_sent :
    Surroundings
    → ℕ
    → MessageRow
    → ConversationRow
    → ProviderSendResult
    → Option MessageRow
    → Action MessageRow
note_sent met workspace_id message conversation result updated = do
  write_if (met.refuses conversation_activity) (with_activity workspace_id conversation result)
  record_send_success met workspace_id conversation.phone_number_id result
  return (or_else updated message)

-- The bookkeeping after a send that was answered.
unfoldable pub finish :
    Surroundings → ℕ → MessageRow → ConversationRow → ProviderSendResult → Action MessageRow
finish met workspace_id message conversation result =
    persist_dispatch_result met workspace_id message.id conversation.phone_number_id result
    >>= note_sent met workspace_id message conversation result

abbrev pub with_sending : Surroundings → ℕ → MessageRow → World → World
with_sending met workspace_id message =
    with_messages
      (λ rows. (update_message_status workspace_id message.id sending no_options met.now rows).1)

abbrev pub request_of : Surroundings → ℕ → MessageRow → ConversationRow → Request
request_of met workspace_id message conversation = record {
  workspace_id = workspace_id;
  message_id = message.id;
  to_phone = conversation.contact_phone_e164;
  content = content_of message;
  answer = met.answer;
}

abbrev pub after_handing : Surroundings → ℕ → MessageRow → ConversationRow → World → World
after_handing met workspace_id message conversation world = record world {
  requests = request_of met workspace_id message conversation ∷ world.requests;
}

-- `show` stands for JavaScript's printing of a number.
module _ (show : ℕ → String) where
  unfoldable pub allow_dispatch : Surroundings → ℕ → Action (Unit {0})
  allow_dispatch met workspace_id world =
      elim (consume message_dispatch (join "workspace:" (show workspace_id)) met.now met.now
        world.buckets) [
          | none ↦ (err invalid_window, world)
          | some (decision, buckets) ↦
              let counted = record world { buckets = buckets } in
              if decision.allowed
              then (ok tt, counted)
              else (err (rate_limited decision.retry_after_seconds), counted)
        ]

  -- What the provider answered, with what is written when it threw.
  unfoldable pub answered :
      Surroundings
      → ℕ
      → MessageRow
      → ConversationRow
      → Result SendError ProviderSendResult
      → Action ProviderSendResult
  answered met workspace_id message conversation (ok result) = return result
  answered met workspace_id message conversation (err error) = do
    record_send_failure met workspace_id message.id conversation.phone_number_id
        (classify_send_failure show error)
    throw (send_failed error)

  unfoldable pub send : Surroundings → ℕ → MessageRow → ConversationRow → Action ProviderSendResult
  send met workspace_id message conversation world =
      answered met workspace_id message conversation met.answer
        (after_handing met workspace_id message conversation world)

  -- From the count of the workspace's sends on.
  unfoldable pub deliver : Surroundings → ℕ → MessageRow → ConversationRow → Action MessageRow
  deliver met workspace_id message conversation = do
    allow_dispatch met workspace_id
    throw_if (not met.has_provider) not_configured
    write_if (met.refuses sending_status) (with_sending met workspace_id message)
    result ← send met workspace_id message conversation
    finish met workspace_id message conversation result

  unfoldable pub dispatch_outbound_message : Surroundings → ℕ → ℕ → Action MessageRow
  dispatch_outbound_message met workspace_id message_id = do
    found ← read (λ world. find_message_by_id workspace_id message_id world.messages)
    message ← some_or_throw message_not_found found
    settled ← read (settled_row workspace_id message_id message)
    elim settled [
      | some row ↦ return row
      | none ↦ do
        spoken ← read (λ world.
            find_conversation_by_id workspace_id message.conversation_id world.conversations)
        conversation ← some_or_throw conversation_not_found spoken
        deliver met workspace_id message conversation
    ]

pub record InboundStatusUpdate : Type 0 where
  pub provider_message_id : String
  pub status : MessageStatus
  pub occurred_at : ℕ
  pub error_code : Option String
  pub error_message : Option String

pub data StatusUpdateResult : Type 0 where
  not_found : StatusUpdateResult
  already_advanced updated : ℕ → MessageStatus → StatusUpdateResult

unfoldable pub process_status_update :
    ℕ → InboundStatusUpdate → ℕ → List MessageRow → StatusUpdateResult × List MessageRow
process_status_update workspace_id update now rows =
    elim (find_message_by_provider_id workspace_id update.provider_message_id rows) [
      | none ↦ (not_found, rows)
      | some message ↦
          let options : StatusOptions = record {
            occurred_at = some update.occurred_at;
            error_code = update.error_code;
            error_message = update.error_message;
          } in
          let written =
            update_message_status workspace_id message.id update.status options now rows in
          (
            if ltb 0 written.0
                then updated message.id update.status
                else already_advanced message.id update.status,
            written.1,
          )
    ]
