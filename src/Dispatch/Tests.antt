-- ===== src/Dispatch/Tests.antt =====
-- One queued message and one conversation, and the theorems at them.
use Prim.Native.String.{String}
use whatsapp_os.Prelude.{ℕ, ◌≤◌, ◌≡◌, refl, Bool, true, false, List, [], ◌∷◌, none, some}
use whatsapp_os.Prelude.Result.{Result, ok, err}
use whatsapp_os.Sending.{SendError, plain_error}
use whatsapp_os.Messages.{
  MessageRow, outbound, text_message, sent, delivered, queued, ProviderSendResult,
  find_message_by_id, mark_delivery_uncertain, update_message_status, is_held, status_rank,
  status_data, record_message_dispatch,
}
use whatsapp_os.Dispatch.{
  World, Write, failure_record, dispatch_result, Surroundings, not_configured,
}
use whatsapp_os.Dispatch.Outbound.{
  dispatch_outbound_message, settled_row, deliver, allow_dispatch, send, answered, finish,
  note_sent,
}
use whatsapp_os.Dispatch.Outcome.{
  persist_dispatch_result, persist_from, record_send_failure, failure_rows, account_after_failure,
  record_send_success, health_after_success,
}
use whatsapp_os.RateLimit.{
  bucket_key, consume, consume_key, window_end, window_start, rate_limits, evaluate,
  increment_bucket, next_bucket,
}
use whatsapp_os.Messages.Channel.{find_conversation_by_id}
use whatsapp_os.Dispatch.Send.{taken}
use whatsapp_os.Dispatch.Once.{Event, attempt, report, after_events, taken_at_most_once}
use whatsapp_os.Dispatch.Deferred.{early_error_leaves_message}

abbrev printed : ℕ → String
printed _ = "n"

abbrev queued_row : MessageRow
queued_row = record {
  id = 5;
  workspace_id = 1;
  conversation_id = 3;
  direction = outbound;
  type = text_message;
  status = queued;
  body = some "Your order is on its way.";
  provider_message_id = none;
  reply_to_provider_message_id = none;
  sender_member_id = some 2;
  sender_contact_id = none;
  sent_by_ai = false;
  template_name = none;
  template_language = none;
  payload = none;
  error_code = none;
  error_message = none;
  occurred_at = 1000;
  sent_at = some 1000;
  delivered_at = none;
  read_at = none;
  failed_at = none;
  delivery_uncertain_at = none;
}

abbrev shop : World
shop = record {
  messages = queued_row ∷ [];
  conversations =
      record {
        id = 3;
        workspace_id = 1;
        phone_number_id = none;
        contact_phone_e164 = "+923001234567";
        message_count = 1;
        unread_count = 0;
        last_message_at = none;
        last_inbound_at = none;
        last_outbound_at = none;
        first_response_at = none;
      }
      ∷ [];
  accounts = [];
  phones = [];
  buckets = [];
  requests = [];
}

abbrev accepted : Result SendError ProviderSendResult
accepted = ok (record { provider_message_id = "wamid.1"; status = sent; occurred_at = 2000 })

abbrev lost : Result SendError ProviderSendResult
lost = err (plain_error none)

abbrev none_refused : Write → Bool
none_refused _ = false

abbrev no_result : Write → Bool
no_result (dispatch_result n) = true
no_result _ = false

abbrev nothing_recorded : Write → Bool
nothing_recorded (dispatch_result n) = true
nothing_recorded failure_record = true
nothing_recorded _ = false

abbrev meeting : Result SendError ProviderSendResult → (Write → Bool) → Surroundings
meeting answer refuses = record {
  now = 2000;
  has_provider = true;
  answer = answer;
  refuses = refuses;
}

-- An answer that could not be written down, a retry, and a report on the id that was lost.
abbrev troubled : List Event
troubled =
    attempt (meeting accepted no_result) 1 5
    ∷ attempt (meeting accepted none_refused) 1 5
    ∷ report 1
        (record {
          provider_message_id = "wamid.1";
          status = delivered;
          occurred_at = 3000;
          error_code = none;
          error_message = none;
        })
        3000
    ∷ attempt (meeting lost none_refused) 1 5
    ∷ []

taken_at_most_once_example : taken printed 1 5 (after_events printed troubled shop) ≤ 1
taken_at_most_once_example = taken_at_most_once printed 1 5 troubled shop refl refl

abbrev unconfigured : Surroundings
unconfigured = record (meeting accepted none_refused) { has_provider = false }

unconfigured_throws :
    (dispatch_outbound_message printed unconfigured 1 5 shop).0 ≡ err not_configured
unfolding dispatch_outbound_message find_message_by_id settled_row find_conversation_by_id deliver
    allow_dispatch consume consume_key window_end window_start rate_limits evaluate increment_bucket
    next_bucket
unconfigured_throws = refl

early_error_leaves_message_example :
    (dispatch_outbound_message printed unconfigured 1 5 shop).1
    ≡ record shop { buckets = (dispatch_outbound_message printed unconfigured 1 5 shop).1.buckets }
early_error_leaves_message_example =
    early_error_leaves_message unconfigured 1 printed 5 shop not_configured unconfigured_throws refl

-- When even the record of the failure is refused, a retry sends the message again.
sends_twice :
    taken printed 1 5 (
      after_events printed
        (attempt (meeting accepted nothing_recorded) 1 5
          ∷ attempt (meeting accepted none_refused) 1 5
          ∷ [])
        shop)
    ≡ 2
unfolding dispatch_outbound_message find_message_by_id settled_row find_conversation_by_id deliver
    allow_dispatch consume consume_key window_end window_start rate_limits evaluate increment_bucket
    next_bucket send answered finish persist_dispatch_result persist_from record_send_failure
    failure_rows account_after_failure mark_delivery_uncertain update_message_status is_held
    status_rank status_data record_message_dispatch note_sent record_send_success
    health_after_success bucket_key
sends_twice = refl
