-- ===== src/Inbound/Lost.antt =====
-- A message that is stored by an attempt that throws.
use Prim.Native.String.{String}
use whatsapp_os.Prelude.{ℕ, ◌≡◌, List, ◌∷◌, some}
use whatsapp_os.Messages.{MessageRow, find_message_by_provider_id}
use whatsapp_os.Phone.{Text, normalise_phone, NormalisedPhone}
use whatsapp_os.Inbound.{InboundEvent}
use whatsapp_os.Inbound.Events.{threw, Hook}
use whatsapp_os.Inbound.Webhook.{process_webhook_event}
use whatsapp_os.Inbound.Routed.{Attempt, attempt_at, after_attempts, IsRouted}
use whatsapp_os.Inbound.Stuck.{after_attempts-IsStuck}
use whatsapp_os.Inbound.Quiet.{process_webhook_event-IsQuiet}

-- If an attempt at the event of a message throws, and the message is stored by then, then neither it
-- nor any later attempt adds a job that answers a message.
pub lost_message_is_not_answered :
    (printed : Text → String) (id pid ws : ℕ) (event : InboundEvent) (row : MessageRow)
    (phone : NormalisedPhone) (first : Attempt) (later : List Attempt) (hook : Hook)
    → normalise_phone event.from_phone "PK" ≡ some phone
    → (process_webhook_event first.fails first.refused printed first.now id hook).0 ≡ threw
    → IsRouted printed id pid ws event (attempt_at printed id first hook)
    → find_message_by_provider_id ws event.provider_message_id
        (attempt_at printed id first hook).world.messages
      ≡ some row
    → (after_attempts printed id (first ∷ later) hook).replies ≡ hook.replies
lost_message_is_not_answered printed id pid ws event row phone first later hook valid thrown routed
      kept =
    let quiet =
      process_webhook_event-IsQuiet first.fails first.refused printed first.now id hook thrown in
    let stuck =
      after_attempts-IsStuck printed id pid ws event row hook.replies later
        (attempt_at printed id first hook) phone valid
        (record { routed = routed; kept = kept; same_replies = quiet }) in
    stuck.same_replies
