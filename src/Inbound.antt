-- ===== src/Inbound.antt =====
-- server/services/whatsapp/inbound.service.ts: the rows that `processInboundMessage` reads and writes,
-- and its steps.
pub mod Contacts
pub mod Conversations
pub mod Receive
pub mod Events
pub mod Webhook
mod Ends
mod Received
pub mod Stored
pub mod Routed
mod Stuck
mod Quiet
pub mod Lost
mod Returned
pub mod Answered
mod Tests
use Prim.Native.String.{String}
use whatsapp_os.Prelude.{
  ℕ, suc, Bool, true, false, not, ◌&&◌, List, [], ◌∷◌, ◌++◌, Option, none, some, or_else, is_some,
  find, any, leb, ltb, ◌==◌, if◌then◌else◌,
}
use whatsapp_os.Prelude.Result.{Result, ok, err}
use whatsapp_os.Prelude.Table.{update_many}
use whatsapp_os.Sending.{nonempty}
use whatsapp_os.Messages.{
  MessageType, text_message, inbound, received, MessageRow, CreateMessageFields, create_message,
  find_message_by_provider_id,
}
use whatsapp_os.Messages.Channel.{ConversationRow, is_conversation, touched}
use whatsapp_os.Phone.{Text, normalise_phone}

-- A customer. The rest of the columns are null, or the form's.
pub record ContactRow : Type 0 where
  pub id : ℕ
  pub workspace_id : ℕ
  pub phone_e164 : Text
  pub name : Option String
  pub wa_profile_name : Option String
  pub email : Option String
  pub source : Option String
  pub city : Option String
  pub deleted_at : Option ℕ
  pub last_interaction_at : Option ℕ

pub data ThreadStatus : Type 0 where
  open_ pending_ resolved closed : ThreadStatus

abbrev pub is_over : ThreadStatus → Bool
is_over resolved = true
is_over closed = true
is_over _ = false

-- A conversation on WhatsApp: its counters, and whose it is.
pub record Thread : Type 0 where
  pub row : ConversationRow
  pub contact_id : ℕ
  pub status : ThreadStatus
  pub created_at : ℕ

pub record World : Type 0 where
  pub contacts : List ContactRow
  pub threads : List Thread
  pub messages : List MessageRow
  pub next_id : ℕ

-- `InboundTextMessage` and `InboundMediaMessage`; `body` is the caption of the latter.
pub record InboundEvent : Type 0 where
  pub type : MessageType
  pub provider_message_id : String
  pub from_phone : Text
  pub wa_profile_name : Option String
  pub body : Option String
  pub occurred_at : ℕ
  pub reply_to_provider_message_id : Option String

pub record InboundProcessResult : Type 0 where
  pub message_id : ℕ
  pub conversation_id : ℕ
  pub contact_id : Option ℕ
  pub is_duplicate : Bool

-- A number that is none, and a statement that the database refuses.
pub data InboundError : Type 0 where
  invalid_phone : InboundError
  database_error : InboundError

-- The statements that write, each of which may be refused.
pub data Statement : Type 0 where
  restore_contact create_contact update_profile touch_contact reopen_conversation
        create_conversation insert_message touch_conversation :
      Statement

abbrev pub Refused : Type 0
Refused = Statement → Bool

abbrev pub Step : Type 0 → Type 0
Step A = Result InboundError A × World

-- The rest of a function, after a step that did not throw.
abbrev pub and_then : {A B : Type 0} → Step A → (A → World → Step B) → Step B
and_then (ok value, world) rest = rest value world
and_then (err thrown, world) rest = (err thrown, world)

-- A write that may be refused, and then changes nothing.
abbrev pub write : {A : Type 0} → Bool → A → World → World → Step A
write true value world after = (err database_error, world)
write false value world after = (ok value, after)
