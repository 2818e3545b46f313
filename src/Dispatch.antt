-- ===== src/Dispatch.antt =====
-- Handing a message to the provider, in the services under server/services/whatsapp: the tables, and
-- code that reads and writes them and may throw. There is no transaction, so what was written
-- before a throw stays.
pub mod Outcome
pub mod Outbound
pub mod Guard
pub mod Parts
pub mod Finish
pub mod Send
pub mod Once
pub mod Late
pub mod Deferred
mod Tests
use Prim.Native.String.{String, ◌++◌ as join}
use whatsapp_os.Prelude.{
  ℕ, zero, suc, ◌+◌, Bool, true, false, not, ◌&&◌, ◌||◌, List, [], ◌∷◌, ◌++◌, Option, none, some,
  or_else, ◌==◌, ltb, is_some, if◌then◌else◌,
}
use whatsapp_os.Prelude.Result.{Result, ok, err}
use whatsapp_os.RateLimit.{RateLimitDecision, Bucket, message_dispatch, consume}
use whatsapp_os.Sending.{
  SendError, SendFailureClass, uncertain, SendFailure, nonempty, indicates_credential_failure,
  classify_send_failure,
}
use whatsapp_os.Messages.{
  MessageType, template, MessageStatus, sending, failed, MessageRow, is_out, find_message_by_id,
  find_message_by_provider_id, StatusOptions, update_message_status, ProviderSendResult,
  record_message_dispatch, mark_delivery_uncertain,
}
use whatsapp_os.Messages.Channel.{
  ConversationRow, find_conversation_by_id, touch_conversation_activity, AccountRow, PhoneRow,
  find_phone_number_by_id, update_account_error, touch_outbound_success,
}

-- `sendText` and `sendTemplate` with their arguments, but for the phone.
pub data Content : Type 0 where
  text_content : String → Option String → Content
  template_content : String → String → Option String → Content

-- A request that was handed to the provider, and how it ended.
pub record Request : Type 0 where
  pub workspace_id : ℕ
  pub message_id : ℕ
  pub to_phone : String
  pub content : Content
  pub answer : Result SendError ProviderSendResult

-- The tables that a dispatch reads and writes, and the requests that the provider was handed.
pub record World : Type 0 where
  pub messages : List MessageRow
  pub conversations : List ConversationRow
  pub accounts : List AccountRow
  pub phones : List PhoneRow
  pub buckets : List Bucket
  pub requests : List Request

-- The writes of a dispatch that the database may refuse; a result is written in numbered attempts.
pub data Write : Type 0 where
  sending_status failure_record conversation_activity account_health : Write
  dispatch_result : ℕ → Write

-- What a dispatch meets: the time, whether a provider is configured, what it answers, and which
-- writes are refused.
pub record Surroundings : Type 0 where
  pub now : ℕ
  pub has_provider : Bool
  pub answer : Result SendError ProviderSendResult
  pub refuses : Write → Bool

pub data DispatchError : Type 0 where
  message_not_found conversation_not_found invalid_window not_configured write_refused :
      DispatchError
  rate_limited : ℕ → DispatchError
  send_failed : SendError → DispatchError

abbrev pub Action : Type 0 → Type 0
Action A = World → Result DispatchError A × World

-- What follows a step that returned; a throw ends the run.
abbrev pub and_then :
    {A B : Type 0}
    → Result DispatchError A × World
    → (A → Action B)
    → Result DispatchError B × World
and_then (err e, world) rest = (err e, world)
and_then (ok a, world) rest = rest a world

infixl 5 ◌>>=◌ ◌>>◌
abbrev pub ◌>>=◌ : {A B : Type 0} → Action A → (A → Action B) → Action B
(m >>= f) world = and_then (m world) f

abbrev pub ◌>>◌ : {B : Type 0} → Action (Unit {0}) → Action B → Action B
m >> k = m >>= λ _. k

abbrev pub return : {A : Type 0} → A → Action A
return a world = (ok a, world)

abbrev pub throw : {A : Type 0} → DispatchError → Action A
throw e world = (err e, world)

abbrev pub read : {A : Type 0} → (World → A) → Action A
read f world = (ok (f world), world)

abbrev pub write_if : Bool → (World → World) → Action (Unit {0})
write_if refused f world = if refused then (err write_refused, world) else (ok tt, f world)

abbrev pub throw_if : Bool → DispatchError → Action (Unit {0})
throw_if true e world = (err e, world)
throw_if false e world = (ok tt, world)

abbrev pub some_or_throw : {A : Type 0} → DispatchError → Option A → Action A
some_or_throw e none = throw e
some_or_throw e (some a) = return a

-- A write whose error is caught and logged.
abbrev pub write_unless : Bool → (World → World) → Action (Unit {0})
write_unless refused f world = (ok tt, if refused then world else f world)

abbrev pub with_messages : (List MessageRow → List MessageRow) → World → World
with_messages f world = record world { messages = f world.messages }
