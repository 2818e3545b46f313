-- ===== src/Automation/Actions.antt =====
-- `executeSingleAction`: what one action does, and which conversation or contact it is for.
use whatsapp_os.Prelude.{
  ℕ, suc, Bool, true, false, not, ◌&&◌, List, [], ◌∷◌, ◌++◌, Option, none, some, any, filter, find,
  ltb, ◌==◌, if◌then◌else◌, or_else,
}
use whatsapp_os.Prelude.Table.{update_many}
use whatsapp_os.Automation.{
  Text, text_eq, given, send_message, send_template, wait, add_tag, remove_tag, assign_conversation,
  set_conversation_status, set_priority, set_lead_stage, pause_ai, resume_ai, notify_team,
  create_note, ConversationStatus, resolved, closed, is_active_conversation, conversation, contact,
  order, other_subject, Subject, ActionConfig, AutomationAction, Conversation, Contact, Order, Tag,
  ContactTag, Notification, Shop,
}

-- The row that was updated last, the first of several.
abbrev pub latest : List Conversation → Option Conversation
latest [] = none
latest (row ∷ rows) = elim (latest rows) [
  | none ↦ some row
  | some later ↦ if ltb row.updated_at later.updated_at then some later else some row
]

abbrev pub id_of : Option Conversation → Option ℕ
id_of none = none
id_of (some row) = some row.id

unfoldable pub active_conversation : ℕ → ℕ → Shop → Option ℕ
active_conversation ws contact_id shop = id_of (
    latest (
      filter
        (λ row.
          (row.workspace_id == ws)
          && ((row.contact_id == contact_id) && is_active_conversation row.status))
        shop.conversations))

abbrev pub contact_of_order : ℕ → ℕ → Shop → Option ℕ
contact_of_order ws id shop =
    elim (find (λ (row : Order). (row.id == id) && (row.workspace_id == ws)) shop.orders) [
      | none ↦ none
      | some row ↦ row.contact_id
    ]

unfoldable pub resolve_conversation_id : ℕ → Subject → Shop → Option ℕ
resolve_conversation_id ws subject shop = elim subject.type [
  | conversation ↦ some subject.id
  | contact ↦ active_conversation ws subject.id shop
  | order ↦ elim (contact_of_order ws subject.id shop) [
    | none ↦ none
    | some contact_id ↦ active_conversation ws contact_id shop
  ]
  | other_subject name ↦ none
]

unfoldable pub resolve_contact_id : ℕ → Subject → Shop → Option ℕ
resolve_contact_id ws subject shop = elim subject.type [
  | contact ↦ some subject.id
  | conversation ↦
      elim (find (λ (row : Conversation). (row.id == subject.id) && (row.workspace_id == ws))
        shop.conversations) [ none ↦ none | some row ↦ some row.contact_id ]
  | order ↦ contact_of_order ws subject.id shop
  | other_subject name ↦ none
]

-- `updateMany` on the conversations of a workspace with an id; the time of the update is set too.
abbrev pub update_conversation : ℕ → ℕ → ℕ → (Conversation → Conversation) → Shop → Shop
update_conversation now ws id change shop = record shop {
  conversations =
      update_many (λ (row : Conversation). (row.id == id) && (row.workspace_id == ws))
        (λ (row : Conversation). record (change row) { updated_at = now }) shop.conversations;
}

-- A write to the conversation of the subject, if there is one.
abbrev pub on_conversation : ℕ → ℕ → Subject → (Conversation → Conversation) → Shop → Shop
on_conversation now ws subject change shop = elim (resolve_conversation_id ws subject shop) [
  | none ↦ shop
  | some id ↦ update_conversation now ws id change shop
]

abbrev pub wanted_tags : ActionConfig → List Text
wanted_tags config = elim config.tags [
  | some names ↦ names
  | none ↦ elim config.tag [ none ↦ [] | some name ↦ name ∷ [] ]
]

abbrev pub find_tag : ℕ → Text → Shop → Option Tag
find_tag ws name shop =
    find (λ (tag : Tag). (tag.workspace_id == ws) && text_eq tag.name name) shop.tags

abbrev pub link_tag : ℕ → ℕ → Shop → Shop
link_tag contact_id tag_id shop =
    if any (λ (link : ContactTag). (link.contact_id == contact_id) && (link.tag_id == tag_id))
      shop.contact_tags
    then shop
    else record shop {
      contact_tags =
          shop.contact_tags ++ (record { contact_id = contact_id; tag_id = tag_id } ∷ []);
    }

-- `tag.upsert`, then `contactTag.upsert`.
unfoldable pub add_one_tag : ℕ → ℕ → Text → Shop → Shop
add_one_tag ws contact_id name shop = elim (find_tag ws name shop) [
  | some tag ↦ link_tag contact_id tag.id shop
  | none ↦
      let tag : Tag = record { id = shop.next_tag_id; workspace_id = ws; name = name } in
      link_tag contact_id tag.id
        (record shop { tags = shop.tags ++ (tag ∷ []); next_tag_id = suc shop.next_tag_id })
]

unfoldable pub remove_one_tag : ℕ → ℕ → Text → Shop → Shop
remove_one_tag ws contact_id name shop = elim (find_tag ws name shop) [
  | none ↦ shop
  | some tag ↦ record shop {
    contact_tags =
        filter
          (λ (link : ContactTag). not ((link.contact_id == contact_id) && (link.tag_id == tag.id)))
          shop.contact_tags;
  }
]

abbrev pub each_tag : (Text → Shop → Shop) → List Text → Shop → Shop
each_tag step [] shop = shop
each_tag step (name ∷ names) shop = each_tag step names (step name shop)

-- Without a tag nothing is looked up; and without a contact nothing is written.
abbrev pub on_contact : ℕ → Subject → (ℕ → Shop → Shop) → Shop → Shop
on_contact ws subject change shop = elim (resolve_contact_id ws subject shop) [
  | none ↦ shop
  | some contact_id ↦ change contact_id shop
]

abbrev pub add_message : ℕ → ℕ → ℕ → Bool → Text → Shop → Shop
add_message now ws id is_template body shop = record shop {
  messages =
      shop.messages
      ++ (record {
        workspace_id = ws;
        conversation_id = id;
        is_template = is_template;
        body = body;
        occurred_at = now;
      }
          ∷ []);
}

-- "Template: "
abbrev pub template_prefix : Text
template_prefix = 84 ∷ 101 ∷ 109 ∷ 112 ∷ 108 ∷ 97 ∷ 116 ∷ 101 ∷ 58 ∷ 32 ∷ []

-- "Automation Alert", "INFO" and "MANUAL_TAKEOVER"
abbrev pub default_title : Text
default_title =
    65 ∷ 117 ∷ 116 ∷ 111 ∷ 109 ∷ 97 ∷ 116 ∷ 105 ∷ 111 ∷ 110 ∷ 32 ∷ 65 ∷ 108 ∷ 101 ∷ 114 ∷ 116 ∷ []

abbrev pub default_level : Text
default_level = 73 ∷ 78 ∷ 70 ∷ 79 ∷ []

abbrev pub default_reason : Text
default_reason = 77 ∷ 65 ∷ 78 ∷ 85 ∷ 65 ∷ 76 ∷ 95 ∷ 84 ∷ 65 ∷ 75 ∷ 69 ∷ 79 ∷ 86 ∷ 69 ∷ 82 ∷ []

abbrev pub status_change : ℕ → ConversationStatus → Conversation → Conversation
status_change now resolved row = record row { status = resolved; resolved_at = some now }
status_change now closed row = record row { status = closed; closed_at = some now }
status_change now status row = record row { status = status }

abbrev pub paused_ai : ℕ → ActionConfig → Conversation → Conversation
paused_ai now config row = record row {
  ai_enabled = false;
  ai_paused_at = some now;
  handoff_reason = some (or_else (given config.reason) default_reason);
  handoff_at = some now;
}

abbrev pub resumed_ai : Conversation → Conversation
resumed_ai row = record row {
  ai_enabled = true;
  ai_paused_at = none;
  ai_paused_by_member_id = none;
  handoff_reason = none;
  handoff_at = none;
}

abbrev pub team_notification : ℕ → Subject → ActionConfig → Notification
team_notification ws subject config = record {
  workspace_id = ws;
  member_id = config.member_id;
  level = or_else (given config.level) default_level;
  title = or_else config.title default_title;
  body = config.body;
  resource = subject;
}

-- WAIT is not an action of its own here: the loop deals with it before.
unfoldable pub execute_single_action : ℕ → ℕ → Subject → AutomationAction → Shop → Shop
execute_single_action now ws subject action shop = elim action.type [
  | send_message ↦ elim (given action.config.body) [
    | none ↦ shop
    | some body ↦ elim (resolve_conversation_id ws subject shop) [
      | none ↦ shop
      | some id ↦
          update_conversation now ws id
            (λ row. record row {
              last_outbound_at = some now;
              last_message_at = some now;
              message_count = suc row.message_count;
            })
            (add_message now ws id false body shop)
    ]
  ]
  | send_template ↦ elim (given action.config.template_name) [
    | none ↦ shop
    | some name ↦ elim (resolve_conversation_id ws subject shop) [
      | none ↦ shop
      | some id ↦ add_message now ws id true (template_prefix ++ name) shop
    ]
  ]
  | wait ↦ shop
  | add_tag ↦ elim (wanted_tags action.config) [
    | [] ↦ shop
    | name ∷ names ↦ on_contact ws subject (λ id. each_tag (add_one_tag ws id) (name ∷ names)) shop
  ]
  | remove_tag ↦ elim (wanted_tags action.config) [
    | [] ↦ shop
    | name ∷ names ↦
        on_contact ws subject (λ id. each_tag (remove_one_tag ws id) (name ∷ names)) shop
  ]
  | assign_conversation ↦
      on_conversation now ws subject
        (λ row. record row { assigned_to_member_id = action.config.member_id }) shop
  | set_conversation_status ↦ elim action.config.status [
    | none ↦ shop
    | some status ↦ on_conversation now ws subject (status_change now status) shop
  ]
  | set_priority ↦ elim (given action.config.priority) [
    | none ↦ shop
    | some priority ↦
        on_conversation now ws subject (λ row. record row { priority = priority }) shop
  ]
  | set_lead_stage ↦ elim (given action.config.stage) [
    | none ↦ shop
    | some stage ↦
        on_contact ws subject
          (λ id old. record old {
            contacts =
                update_many (λ (row : Contact). (row.id == id) && (row.workspace_id == ws))
                  (λ (row : Contact). record row { lead_stage = stage }) old.contacts;
          })
          shop
  ]
  | pause_ai ↦ on_conversation now ws subject (paused_ai now action.config) shop
  | resume_ai ↦ on_conversation now ws subject resumed_ai shop
  | notify_team ↦ record shop {
    notifications = shop.notifications ++ (team_notification ws subject action.config ∷ []);
  }
  | create_note ↦ elim (given action.config.content) [
    | none ↦ shop
    | some content ↦ record shop {
      notes =
          shop.notes ++ (record { workspace_id = ws; resource = subject; content = content } ∷ []);
    }
  ]
]
