-- ===== src/Messages.antt =====
-- server/repositories/message.repository.ts: messages, and the statements that move their status.
pub mod Channel
pub mod Progress
mod Tests
use Prim.Native.String.{String}
use text.Mathlib.Text.{◌==◌ as str_eq}
use whatsapp_os.Prelude.{
  ℕ, Bool, true, false, not, ◌&&◌, List, [], ◌∷◌, ◌++◌, Option, none, some, or_else, leb, ◌==◌,
  find, if◌then◌else◌,
}
use whatsapp_os.Prelude.Table.{update_many, count_where}
use whatsapp_os.Sending.{nonempty}

pub data MessageDirection : Type 0 where
  inbound outbound : MessageDirection

pub data MessageType : Type 0 where
  text_message image video audio document sticker location contacts interactive template reaction
        system unsupported :
      MessageType

pub data MessageStatus : Type 0 where
  queued sending sent delivered seen failed received : MessageStatus

-- STATUS_RANK; `seen` is READ.
unfoldable pub status_rank : MessageStatus → ℕ
status_rank queued = 0
status_rank sending = 1
status_rank sent = 2
status_rank received = 2
status_rank delivered = 3
status_rank seen = 4
status_rank failed = 5

abbrev pub is_failed : MessageStatus → Bool
is_failed failed = true
is_failed _ = false

-- SENT, DELIVERED or READ.
abbrev pub is_out : MessageStatus → Bool
is_out sent = true
is_out delivered = true
is_out seen = true
is_out _ = false

pub record MessageRow : Type 0 where
  pub id : ℕ
  pub workspace_id : ℕ
  pub conversation_id : ℕ
  pub direction : MessageDirection
  pub type : MessageType
  pub status : MessageStatus
  pub body : Option String
  pub provider_message_id : Option String
  pub reply_to_provider_message_id : Option String
  pub sender_member_id : Option ℕ
  pub sender_contact_id : Option ℕ
  pub sent_by_ai : Bool
  pub template_name : Option String
  pub template_language : Option String
  pub payload : Option String
  pub error_code : Option String
  pub error_message : Option String
  pub occurred_at : ℕ
  pub sent_at : Option ℕ
  pub delivered_at : Option ℕ
  pub read_at : Option ℕ
  pub failed_at : Option ℕ
  pub delivery_uncertain_at : Option ℕ

-- `CreateMessageFields`, without attachments. A field that may be left out is an option.
pub record CreateMessageFields : Type 0 where
  pub conversation_id : ℕ
  pub direction : MessageDirection
  pub type : Option MessageType
  pub status : Option MessageStatus
  pub body : Option String
  pub provider_message_id : Option String
  pub reply_to_provider_message_id : Option String
  pub sender_member_id : Option ℕ
  pub sender_contact_id : Option ℕ
  pub sent_by_ai : Option Bool
  pub template_name : Option String
  pub template_language : Option String
  pub payload : Option String
  pub occurred_at : Option ℕ
  pub sent_at : Option ℕ

abbrev default_status : MessageDirection → MessageStatus
default_status inbound = received
default_status outbound = queued

abbrev default_sent_at : MessageDirection → ℕ → Option ℕ
default_sent_at inbound now = none
default_sent_at outbound now = some now

-- The row that `create` adds, under the id that the database gives it.
unfoldable pub create_message : ℕ → CreateMessageFields → ℕ → ℕ → MessageRow
create_message workspace_id fields id now = record {
  id = id;
  workspace_id = workspace_id;
  conversation_id = fields.conversation_id;
  direction = fields.direction;
  type = or_else fields.type text_message;
  status = or_else fields.status (default_status fields.direction);
  body = fields.body;
  provider_message_id = fields.provider_message_id;
  reply_to_provider_message_id = fields.reply_to_provider_message_id;
  sender_member_id = fields.sender_member_id;
  sender_contact_id = fields.sender_contact_id;
  sent_by_ai = or_else fields.sent_by_ai false;
  template_name = fields.template_name;
  template_language = fields.template_language;
  payload = fields.payload;
  error_code = none;
  error_message = none;
  occurred_at = or_else fields.occurred_at now;
  sent_at = elim fields.sent_at [
    | none ↦ default_sent_at fields.direction now
    | some time ↦ some time
  ];
  delivered_at = none;
  read_at = none;
  failed_at = none;
  delivery_uncertain_at = none;
}

-- `where: { id, workspaceId }`.
abbrev pub is_message : ℕ → ℕ → MessageRow → Bool
is_message workspace_id message_id row = row.id == message_id && row.workspace_id == workspace_id

unfoldable pub find_message_by_id : ℕ → ℕ → List MessageRow → Option MessageRow
find_message_by_id workspace_id message_id = find (is_message workspace_id message_id)

abbrev pub has_provider_id : String → Option String → Bool
has_provider_id id none = false
has_provider_id id (some stored) = str_eq stored id

unfoldable pub find_message_by_provider_id : ℕ → String → List MessageRow → Option MessageRow
find_message_by_provider_id workspace_id provider_message_id = find (λ row.
    has_provider_id provider_message_id row.provider_message_id && row.workspace_id == workspace_id)

pub record StatusOptions : Type 0 where
  pub occurred_at : Option ℕ
  pub error_code : Option String
  pub error_message : Option String

-- A text that is given and not empty replaces what is stored.
abbrev replace_text : Option String → Option String → Option String
replace_text given stored = if nonempty given then given else stored

-- `updateData`.
unfoldable pub status_data : MessageStatus → StatusOptions → ℕ → MessageRow → MessageRow
status_data sent options now row = record row {
  status = sent;
  sent_at = some (or_else options.occurred_at now);
}
status_data delivered options now row = record row {
  status = delivered;
  delivered_at = some (or_else options.occurred_at now);
}
status_data seen options now row = record row {
  status = seen;
  read_at = some (or_else options.occurred_at now);
}
status_data failed options now row = record row {
  status = failed;
  failed_at = some (or_else options.occurred_at now);
  error_code = replace_text options.error_code row.error_code;
  error_message = replace_text options.error_message row.error_message;
}
status_data status options now row = record row { status = status }

-- Whether `updateMessageStatus` leaves a message of the first status alone.
unfoldable pub is_held : MessageStatus → MessageStatus → Bool
is_held existing new = leb (status_rank new) (status_rank existing) && not (is_failed new)

-- The count of rows it changes, and the rows after it.
unfoldable pub update_message_status :
    ℕ → ℕ → MessageStatus → StatusOptions → ℕ → List MessageRow → ℕ × List MessageRow
update_message_status workspace_id message_id new options now rows =
    elim (find (is_message workspace_id message_id) rows) [
      | none ↦ (0, rows)
      | some existing ↦ if is_held existing.status new then (0, rows) else (
        count_where (is_message workspace_id message_id) rows,
        update_many (is_message workspace_id message_id) (status_data new options now) rows,
      )
    ]

-- What a provider answers: the id it gave the message, the status, and the time.
pub record ProviderSendResult : Type 0 where
  pub provider_message_id : String
  pub status : MessageStatus
  pub occurred_at : ℕ

abbrev pub dispatched : ProviderSendResult → MessageRow → MessageRow
dispatched result row = record row {
  provider_message_id = some result.provider_message_id;
  status = result.status;
  sent_at = some result.occurred_at;
  delivery_uncertain_at = none;
}

-- The caller passes on all three fields of the result.
unfoldable pub record_message_dispatch :
    ℕ → ℕ → ProviderSendResult → List MessageRow → Option MessageRow × List MessageRow
record_message_dispatch workspace_id message_id result rows =
    let after = update_many (is_message workspace_id message_id) (dispatched result) rows in
    (find_message_by_id workspace_id message_id after, after)

abbrev pub flagged : String → String → ℕ → MessageRow → MessageRow
flagged code message now row = record row {
  delivery_uncertain_at = some now;
  error_code = some code;
  error_message = some message;
}

unfoldable pub mark_delivery_uncertain :
    ℕ → ℕ → String → String → ℕ → List MessageRow → List MessageRow
mark_delivery_uncertain workspace_id message_id code message now =
    update_many (is_message workspace_id message_id) (flagged code message now)
