-- ===== src/Automation.antt =====
-- server/services/automation/automation-engine.service.ts: what automations are, what they work on, and
-- the rows of server/repositories/automation.repository.ts. A text is the list of its code units.
pub mod Actions
pub mod Triggers
pub mod Engine
mod Tests
use whatsapp_os.Prelude.{
  ℕ, zero, suc, ◌+◌, Bool, true, false, not, ◌&&◌, ◌||◌, List, [], ◌∷◌, ◌++◌, Option, none, some,
  any, filter, find, ltb, leb, ◌==◌, if◌then◌else◌, or_else,
}
use whatsapp_os.Prelude.Table.{update_many}

abbrev pub Text : Type 0
Text = List ℕ

abbrev pub text_eq : Text → Text → Bool
text_eq [] [] = true
text_eq [] (d ∷ ds) = false
text_eq (c ∷ cs) [] = false
text_eq (c ∷ cs) (d ∷ ds) = (c == d) && text_eq cs ds

-- A text that is there and not empty.
abbrev pub given : Option Text → Option Text
given none = none
given (some []) = none
given (some (c ∷ cs)) = some (c ∷ cs)

pub data TriggerType : Type 0 where
  message_received message_contains conversation_opened conversation_idle conversation_resolved
        contact_created lead_stage_changed order_created order_status_changed payment_received
        appointment_upcoming handoff_requested low_stock :
      TriggerType

abbrev pub trigger_index : TriggerType → ℕ
trigger_index message_received = 0
trigger_index message_contains = 1
trigger_index conversation_opened = 2
trigger_index conversation_idle = 3
trigger_index conversation_resolved = 4
trigger_index contact_created = 5
trigger_index lead_stage_changed = 6
trigger_index order_created = 7
trigger_index order_status_changed = 8
trigger_index payment_received = 9
trigger_index appointment_upcoming = 10
trigger_index handoff_requested = 11
trigger_index low_stock = 12

pub data ActionType : Type 0 where
  send_message send_template wait add_tag remove_tag assign_conversation set_conversation_status
        set_priority set_lead_stage pause_ai resume_ai notify_team create_note :
      ActionType

pub data ConversationStatus : Type 0 where
  open_ pending_ resolved closed : ConversationStatus

abbrev pub is_active_conversation : ConversationStatus → Bool
is_active_conversation open_ = true
is_active_conversation pending_ = true
is_active_conversation _ = false

pub data RunStatus : Type 0 where
  running waiting completed failed cancelled : RunStatus

abbrev pub is_waiting : RunStatus → Bool
is_waiting waiting = true
is_waiting _ = false

pub data SubjectType : Type 0 where
  conversation contact order : SubjectType
  other_subject : Text → SubjectType

abbrev pub subject_eq : SubjectType → SubjectType → Bool
subject_eq conversation conversation = true
subject_eq contact contact = true
subject_eq order order = true
subject_eq (other_subject a) (other_subject b) = text_eq a b
subject_eq _ _ = false

pub record Subject : Type 0 where
  pub type : SubjectType
  pub id : ℕ

-- The fields of an action's JSON that are read, each there if it has the type that is asked for.
pub record ActionConfig : Type 0 where
  pub duration_minutes : Option ℕ
  pub duration_seconds : Option ℕ
  pub body : Option Text
  pub template_name : Option Text
  pub tags : Option (List Text)
  pub tag : Option Text
  pub member_id : Option ℕ
  pub status : Option ConversationStatus
  pub priority : Option Text
  pub stage : Option Text
  pub reason : Option Text
  pub title : Option Text
  pub level : Option Text
  pub content : Option Text

pub record AutomationAction : Type 0 where
  pub id : ℕ
  pub position : ℕ
  pub type : ActionType
  pub config : ActionConfig

pub data MatchMode : Type 0 where
  match_any match_all match_exact : MatchMode

pub record TriggerConfig : Type 0 where
  pub keywords : List Text
  pub match_mode : MatchMode
  pub case_sensitive : Bool
  pub from_status : Option Text
  pub to_status : Option Text
  pub from_stage : Option Text
  pub to_stage : Option Text
  pub threshold : Option ℕ
  pub idle_minutes : Option ℕ

pub record EventData : Type 0 where
  pub body : Option Text
  pub text : Option Text
  pub from_status : Option Text
  pub to_status : Option Text
  pub from_stage : Option Text
  pub to_stage : Option Text
  pub available : Option ℕ
  pub idle_minutes : Option ℕ

pub record TriggerEvent : Type 0 where
  pub trigger_type : TriggerType
  pub subject : Subject
  pub event_key : Option Text
  pub event_data : EventData

pub record Automation : Type 0 where
  pub id : ℕ
  pub workspace_id : ℕ
  pub trigger_type : TriggerType
  pub trigger_config : Option TriggerConfig
  pub is_active : Bool
  pub run_count : ℕ
  pub last_run_at : Option ℕ
  pub actions : List AutomationAction

-- The parts of `auto:<automation>:<subject type>:<subject>:<event>`.
pub record DedupeKey : Type 0 where
  pub automation_id : ℕ
  pub subject : Subject
  pub event_key : Text

abbrev pub key_eq : DedupeKey → DedupeKey → Bool
key_eq a b =
    (a.automation_id == b.automation_id)
    && ((subject_eq a.subject.type b.subject.type && (a.subject.id == b.subject.id))
        && text_eq a.event_key b.event_key)

pub record AutomationRun : Type 0 where
  pub id : ℕ
  pub workspace_id : ℕ
  pub automation_id : ℕ
  pub subject : Subject
  pub dedupe_key : DedupeKey
  pub status : RunStatus
  pub current_action_position : ℕ
  pub finished_at : Option ℕ
  pub error : Option Text

-- A job of type `automation.resume`; its dedupe key is the run with the position.
pub record ResumeJob : Type 0 where
  pub workspace_id : ℕ
  pub run_id : ℕ
  pub action_index : ℕ
  pub run_at : ℕ

pub record Conversation : Type 0 where
  pub id : ℕ
  pub workspace_id : ℕ
  pub contact_id : ℕ
  pub status : ConversationStatus
  pub priority : Text
  pub assigned_to_member_id : Option ℕ
  pub ai_enabled : Bool
  pub ai_paused_at : Option ℕ
  pub ai_paused_by_member_id : Option ℕ
  pub handoff_reason : Option Text
  pub handoff_at : Option ℕ
  pub last_outbound_at : Option ℕ
  pub last_message_at : Option ℕ
  pub message_count : ℕ
  pub resolved_at : Option ℕ
  pub closed_at : Option ℕ
  pub updated_at : ℕ

pub record Contact : Type 0 where
  pub id : ℕ
  pub workspace_id : ℕ
  pub lead_stage : Text

pub record Order : Type 0 where
  pub id : ℕ
  pub workspace_id : ℕ
  pub contact_id : Option ℕ

-- A message that an automation writes: OUTBOUND, with the status SENT.
pub record SentMessage : Type 0 where
  pub workspace_id : ℕ
  pub conversation_id : ℕ
  pub is_template : Bool
  pub body : Text
  pub occurred_at : ℕ

pub record Tag : Type 0 where
  pub id : ℕ
  pub workspace_id : ℕ
  pub name : Text

pub record ContactTag : Type 0 where
  pub contact_id : ℕ
  pub tag_id : ℕ

pub record Notification : Type 0 where
  pub workspace_id : ℕ
  pub member_id : Option ℕ
  pub level : Text
  pub title : Text
  pub body : Option Text
  pub resource : Subject

pub record Note : Type 0 where
  pub workspace_id : ℕ
  pub resource : Subject
  pub content : Text

-- What actions read and write.
pub record Shop : Type 0 where
  pub conversations : List Conversation
  pub contacts : List Contact
  pub orders : List Order
  pub messages : List SentMessage
  pub tags : List Tag
  pub contact_tags : List ContactTag
  pub notifications : List Notification
  pub notes : List Note
  pub next_tag_id : ℕ

pub record EngineState : Type 0 where
  pub shop : Shop
  pub automations : List Automation
  pub runs : List AutomationRun
  pub jobs : List ResumeJob
  pub next_run_id : ℕ
