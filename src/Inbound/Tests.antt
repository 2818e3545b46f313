-- ===== src/Inbound/Tests.antt =====
-- One message on one number, and the theorems at it.
use Prim.Native.String.{String}
use whatsapp_os.Prelude.{◌≡◌, refl, true, false, [], ◌∷◌, none, some, ap, sym, ◌∙◌}
use mathlib.Core.Path.{subst}
use whatsapp_os.Prelude.Result.{ok}
use whatsapp_os.Messages.{text_message, create_message, find_message_by_provider_id}
use whatsapp_os.Phone.{
  Text, NormalisedPhone, normalise_phone, digits_only, build_national, build_from_international,
  without_trunk, built, pk,
}
use whatsapp_os.Inbound.{World, InboundEvent, Refused, touch_conversation}
use whatsapp_os.Inbound.Receive.{process_inbound_message, receive, store_message, inbound_message}
use whatsapp_os.Inbound.Contacts.{
  resolve_contact, find_contact_by_phone, find_deleted_contact_by_phone, new_contact,
}
use whatsapp_os.Inbound.Conversations.{
  resolve_conversation, find_latest_conversation_for_contact, new_thread,
}
use whatsapp_os.Messages.Channel.{touched}
use whatsapp_os.Inbound.Stored.{process_inbound_message_twice}
use whatsapp_os.Inbound.Events.{
  Run, Hook, WebhookEventRow, NumberRow, message, received, processing, connected, threw,
  accepts_inbound,
}
use whatsapp_os.Inbound.Webhook.{process_webhook_event, route_event, execute_event}
use whatsapp_os.Inbound.Routed.{attempt_at, Attempt, after_attempts, IsRouted}
use whatsapp_os.Inbound.Returned.{none_refused}
use whatsapp_os.Inbound.Answered.{none_fails, IsOpen, IsAnswered, attempt_at-IsAnswered}
use whatsapp_os.Inbound.Lost.{lost_message_is_not_answered}

-- +923001234567
abbrev customer : Text
customer = 43 ∷ 57 ∷ 50 ∷ 51 ∷ 48 ∷ 48 ∷ 49 ∷ 50 ∷ 51 ∷ 52 ∷ 53 ∷ 54 ∷ 55 ∷ []

abbrev printed : Text → String
printed _ = "+923001234567"

abbrev hello : InboundEvent
hello = record {
  type = text_message;
  provider_message_id = "wamid.1";
  from_phone = customer;
  wa_profile_name = some "Amina";
  body = some "Hello";
  occurred_at = 900;
  reply_to_provider_message_id = none;
}

abbrev customer_phone : NormalisedPhone
customer_phone = built pk (51 ∷ 48 ∷ 48 ∷ 49 ∷ 50 ∷ 51 ∷ 52 ∷ 53 ∷ 54 ∷ 55 ∷ [])

abbrev empty : World
empty = record { contacts = []; threads = []; messages = []; next_id = 1 }

customer-IsValid : normalise_phone customer "PK" ≡ some customer_phone
unfolding normalise_phone digits_only build_national build_from_international without_trunk
customer-IsValid = refl

abbrev one_message : World
one_message = record {
  contacts = record (new_contact 1 customer hello 1) { last_interaction_at = some 900 } ∷ [];
  threads =
      record (new_thread 1 (new_contact 1 customer hello 1) "+923001234567" 2 1000) {
        row = record {
          id = 2;
          workspace_id = 1;
          phone_number_id = none;
          contact_phone_e164 = "+923001234567";
          message_count = 1;
          unread_count = 1;
          last_message_at = some 900;
          last_inbound_at = some 900;
          last_outbound_at = none;
          first_response_at = none;
        };
      }
      ∷ [];
  messages = inbound_message 1 hello 2 1 3 1000 ∷ [];
  next_id = 4;
}

hello_is_received : process_inbound_message none_refused 1 printed hello 1000 empty ≡ (
  ok (record { message_id = 3; conversation_id = 2; contact_id = some 1; is_duplicate = false }),
  one_message,
)
unfolding process_inbound_message receive resolve_contact resolve_conversation store_message
    normalise_phone digits_only build_national build_from_international without_trunk
    find_contact_by_phone find_deleted_contact_by_phone find_latest_conversation_for_contact
    find_message_by_provider_id create_message touched
hello_is_received = refl

process_inbound_message_twice_example :
    process_inbound_message none_refused 1 printed hello 2000 one_message ≡ (
      ok (record { message_id = 3; conversation_id = 2; contact_id = some 1; is_duplicate = true }),
      one_message,
    )
process_inbound_message_twice_example =
    process_inbound_message_twice none_refused none_refused 1 hello printed 1000 2000 empty
      one_message
      (record { message_id = 3; conversation_id = 2; contact_id = some 1; is_duplicate = false })
      hello_is_received

abbrev number : NumberRow
number = record {
  id = 8;
  phone_number_id = 77;
  workspace_id = 1;
  account_id = 9;
  status = connected;
  account_status = connected;
  last_inbound_at = none;
  account_last_inbound_event_at = none;
}

abbrev hook : Hook
hook = record {
  world = empty;
  events =
      record {
        id = 6;
        phone_number_id = some 77;
        workspace_id = none;
        domain_event = some (message hello);
        status = received;
        has_error = false;
        processed_at = none;
      }
      ∷ [];
  numbers = number ∷ [];
  replies = [];
}

abbrev counters_refused : Refused
counters_refused touch_conversation = true
counters_refused _ = false

abbrev first : Attempt
first = record { fails = none_fails; refused = counters_refused; now = 1000 }

abbrev second : Attempt
second = record { fails = none_fails; refused = none_refused; now = 2000 }

abbrev failed_row : WebhookEventRow
failed_row = record {
  id = 6;
  phone_number_id = some 77;
  workspace_id = some 1;
  domain_event = some (message hello);
  status = processing;
  has_error = true;
  processed_at = none;
}

-- The message is stored, and the counters of its conversation are not.
abbrev failed_hook : Hook
failed_hook = record {
  world = record one_message {
    threads = new_thread 1 (new_contact 1 customer hello 1) "+923001234567" 2 1000 ∷ [];
  };
  events = failed_row ∷ [];
  numbers = number ∷ [];
  replies = [];
}

first_throws :
    process_webhook_event none_fails counters_refused printed 1000 6 hook ≡ (threw, failed_hook)
unfolding process_webhook_event route_event execute_event accepts_inbound process_inbound_message
    receive resolve_contact resolve_conversation store_message normalise_phone digits_only
    build_national build_from_international without_trunk find_contact_by_phone
    find_deleted_contact_by_phone find_latest_conversation_for_contact find_message_by_provider_id
    create_message
first_throws = refl

failed_hook-IsRouted : IsRouted printed 6 77 1 hello failed_hook
failed_hook-IsRouted = record {
  stored = failed_row;
  found = refl;
  says = refl;
  came_in_on = refl;
  number = number;
  known = refl;
  owned = refl;
}

hello_is_stored :
    find_message_by_provider_id 1 "wamid.1" failed_hook.world.messages
    ≡ some (inbound_message 1 hello 2 1 3 1000)
unfolding find_message_by_provider_id create_message
hello_is_stored = refl

lost_message_is_not_answered_example :
    (after_attempts printed 6 (first ∷ second ∷ []) hook).replies ≡ []
lost_message_is_not_answered_example =
    lost_message_is_not_answered printed 6 77 1 hello (inbound_message 1 hello 2 1 3 1000)
      customer_phone first (second ∷ []) hook customer-IsValid (ap (λ (r : Run). r.0) first_throws)
      (subst (IsRouted printed 6 77 1 hello) (sym (ap (λ (r : Run). r.1) first_throws))
        failed_hook-IsRouted)
      (ap (λ (r : Run). find_message_by_provider_id 1 "wamid.1" r.1.world.messages) first_throws
        ∙ hello_is_stored)

hook-IsRouted : IsRouted printed 6 77 1 hello hook
hook-IsRouted = record {
  stored = record {
    id = 6;
    phone_number_id = some 77;
    workspace_id = none;
    domain_event = some (message hello);
    status = received;
    has_error = false;
    processed_at = none;
  };
  found = refl;
  says = refl;
  came_in_on = refl;
  number = number;
  known = refl;
  owned = refl;
}

hook-IsOpen : IsOpen printed 6 77 1 hello hook hook-IsRouted
unfolding accepts_inbound hook-IsRouted
hook-IsOpen = (refl, refl, refl)

hello_is_new : find_message_by_provider_id 1 "wamid.1" [] ≡ none
unfolding find_message_by_provider_id
hello_is_new = refl

attempt_at-IsAnswered_example :
    IsAnswered printed 6 77 1 hello (first ∷ []) (
      attempt_at printed 6 (record { fails = none_fails; refused = none_refused; now = 2000 }) hook)
attempt_at-IsAnswered_example =
    attempt_at-IsAnswered printed 6 77 1 hello customer_phone 2000 (first ∷ []) hook hook-IsRouted
      hook-IsOpen customer-IsValid hello_is_new
