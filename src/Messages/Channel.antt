-- ===== src/Messages/Channel.antt =====
-- server/repositories/conversation.repository.ts and server/repositories/whatsapp-account.repository.ts:
-- what a dispatch reads and writes of conversations, phone numbers and accounts.
use Prim.Native.String.{String}
use whatsapp_os.Prelude.{
  ℕ, suc, ◌+◌, Bool, true, ◌&&◌, List, Option, none, some, or_else, ◌==◌, find, if◌then◌else◌,
}
use whatsapp_os.Prelude.Table.{update_many}

pub record ConversationRow : Type 0 where
  pub id : ℕ
  pub workspace_id : ℕ
  pub phone_number_id : Option ℕ
  pub contact_phone_e164 : String
  pub message_count : ℕ
  pub unread_count : ℕ
  pub last_message_at : Option ℕ
  pub last_inbound_at : Option ℕ
  pub last_outbound_at : Option ℕ
  pub first_response_at : Option ℕ

abbrev pub is_conversation : ℕ → ℕ → ConversationRow → Bool
is_conversation workspace_id id row = row.id == id && row.workspace_id == workspace_id

unfoldable pub find_conversation_by_id : ℕ → ℕ → List ConversationRow → Option ConversationRow
find_conversation_by_id workspace_id id = find (is_conversation workspace_id id)

-- `deltas`; the direction is a flag, and an increment of the count is the default.
pub record ActivityDeltas : Type 0 where
  pub last_message_at : ℕ
  pub is_inbound : Bool
  pub unread_delta : Option ℕ
  pub first_response : Bool
  pub increment_count : Option Bool

unfoldable pub touched : ActivityDeltas → ConversationRow → ConversationRow
touched deltas row =
    let counted = record row {
      last_message_at = some deltas.last_message_at;
      message_count =
          if or_else deltas.increment_count true then suc row.message_count else row.message_count;
    } in
    if deltas.is_inbound
    then record counted {
      last_inbound_at = some deltas.last_message_at;
      unread_count = row.unread_count + or_else deltas.unread_delta 1;
    }
    else record counted {
      last_outbound_at = some deltas.last_message_at;
      first_response_at =
          if deltas.first_response then some deltas.last_message_at else row.first_response_at;
    }

unfoldable pub touch_conversation_activity :
    ℕ → ℕ → ActivityDeltas → List ConversationRow → List ConversationRow
touch_conversation_activity workspace_id id deltas =
    update_many (is_conversation workspace_id id) (touched deltas)

pub record AccountRow : Type 0 where
  pub id : ℕ
  pub workspace_id : ℕ
  pub has_error_status : Bool
  pub last_error_message : Option String
  pub last_error_code : Option String
  pub last_error_at : Option ℕ
  pub last_outbound_success_at : Option ℕ

pub record PhoneRow : Type 0 where
  pub id : ℕ
  pub workspace_id : ℕ
  pub account_id : ℕ
  pub last_outbound_at : Option ℕ

unfoldable pub find_phone_number_by_id : ℕ → ℕ → List PhoneRow → Option PhoneRow
find_phone_number_by_id workspace_id id =
    find (λ row. row.id == id && row.workspace_id == workspace_id)

abbrev is_account : ℕ → ℕ → AccountRow → Bool
is_account workspace_id id row = row.id == id && row.workspace_id == workspace_id

-- The one caller gives no code and no time.
unfoldable pub update_account_error : ℕ → ℕ → String → ℕ → List AccountRow → List AccountRow
update_account_error workspace_id id message now = update_many (is_account workspace_id id) (λ row.
    record row {
      has_error_status = true;
      last_error_message = some message;
      last_error_code = none;
      last_error_at = some now;
    })

unfoldable pub touch_outbound_success :
    ℕ → ℕ → ℕ → ℕ → List AccountRow × List PhoneRow → List AccountRow × List PhoneRow
touch_outbound_success workspace_id account_id phone_id at (accounts, phones) = (
  update_many (is_account workspace_id account_id)
      (λ row. record row { last_outbound_success_at = some at }) accounts,
  update_many (λ row. row.id == phone_id && row.workspace_id == workspace_id)
      (λ row. record row { last_outbound_at = some at }) phones,
)
