-- ===== src/Inbound/Events.antt =====
-- Stored webhook events, the numbers that they come in on and the jobs that answer messages, with the
-- statements of server/repositories/webhook-event.repository.ts and whatsapp-account.repository.ts. What
-- a payload says is a field of the event.
use whatsapp_os.Prelude.{
  ℕ, Bool, true, false, ◌&&◌, List, [], ◌∷◌, ◌++◌, Option, some, find, any, ◌==◌, if◌then◌else◌,
}
use whatsapp_os.Prelude.Table.{update_many}
use whatsapp_os.Dispatch.Outbound.{InboundStatusUpdate}
use whatsapp_os.Inbound.{World, InboundEvent}

pub data WebhookStatus : Type 0 where
  received processing processed failed ignored : WebhookStatus

-- PROCESSED or IGNORED.
abbrev pub is_handled : WebhookStatus → Bool
is_handled processed = true
is_handled ignored = true
is_handled _ = false

pub data ChannelStatus : Type 0 where
  disconnected pending connected degraded error_ : ChannelStatus

unfoldable pub accepts_inbound : ChannelStatus → Bool
accepts_inbound disconnected = false
accepts_inbound _ = true

pub data DomainEvent : Type 0 where
  message : InboundEvent → DomainEvent
  status_update : InboundStatusUpdate → DomainEvent

pub record WebhookEventRow : Type 0 where
  pub id : ℕ
  pub phone_number_id : Option ℕ
  pub workspace_id : Option ℕ
  pub domain_event : Option DomainEvent
  pub status : WebhookStatus
  pub has_error : Bool
  pub processed_at : Option ℕ

-- A number with its account.
pub record NumberRow : Type 0 where
  pub id : ℕ
  pub phone_number_id : ℕ
  pub workspace_id : ℕ
  pub account_id : ℕ
  pub status : ChannelStatus
  pub account_status : ChannelStatus
  pub last_inbound_at : Option ℕ
  pub account_last_inbound_event_at : Option ℕ

-- A job of type `ai.respond`; its dedupe key is the message.
pub record ReplyJob : Type 0 where
  pub workspace_id : ℕ
  pub conversation_id : ℕ
  pub message_id : ℕ

pub record Hook : Type 0 where
  pub world : World
  pub events : List WebhookEventRow
  pub numbers : List NumberRow
  pub replies : List ReplyJob

-- What may throw after a message was processed.
pub data Afterwards : Type 0 where
  mark_processed touch_account touch_number enqueue_reply : Afterwards

pub data HookOutcome : Type 0 where
  returned threw : HookOutcome

abbrev pub Run : Type 0
Run = HookOutcome × Hook

abbrev pub find_webhook_event_by_id : ℕ → List WebhookEventRow → Option WebhookEventRow
find_webhook_event_by_id id = find (λ (row : WebhookEventRow). row.id == id)

-- The caller's changes to the row.
abbrev pub update_webhook_event_status : ℕ → (WebhookEventRow → WebhookEventRow) → Hook → Hook
update_webhook_event_status id change hook = record hook {
  events = update_many (λ (row : WebhookEventRow). row.id == id) change hook.events;
}

abbrev pub find_number : ℕ → List NumberRow → Option NumberRow
find_number phone_number_id = find (λ (row : NumberRow). row.phone_number_id == phone_number_id)

-- `touchInboundActivity` is two statements.
abbrev pub touch_account_activity : NumberRow → ℕ → Hook → Hook
touch_account_activity number at hook = record hook {
  numbers =
      update_many
        (λ (row : NumberRow).
          (row.account_id == number.account_id) && (row.workspace_id == number.workspace_id))
        (λ (row : NumberRow). record row { account_last_inbound_event_at = some at }) hook.numbers;
}

abbrev pub touch_number_activity : NumberRow → ℕ → Hook → Hook
touch_number_activity number at hook = record hook {
  numbers =
      update_many
        (λ (row : NumberRow). (row.id == number.id) && (row.workspace_id == number.workspace_id))
        (λ (row : NumberRow). record row { last_inbound_at = some at }) hook.numbers;
}

unfoldable pub touch_inbound_activity : NumberRow → ℕ → Hook → Hook
touch_inbound_activity number at hook =
    touch_number_activity number at (touch_account_activity number at hook)

abbrev pub enqueue_ai_respond : ReplyJob → Hook → Hook
enqueue_ai_respond job hook =
    if any (λ (held : ReplyJob). held.message_id == job.message_id) hook.replies
    then hook
    else record hook { replies = hook.replies ++ (job ∷ []) }
