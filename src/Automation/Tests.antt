-- ===== src/Automation/Tests.antt =====
-- An automation that greets a customer, waits, and tells the team, run on one conversation.
use whatsapp_os.Prelude.{ℕ, ◌≡◌, refl, true, List, [], ◌∷◌, none, some, length}
use whatsapp_os.Automation.{
  message_received, send_message, wait, notify_team, open_, running, waiting, conversation, Subject,
  ActionConfig, AutomationAction, ActionType, TriggerEvent, Automation, AutomationRun, RunStatus,
  Conversation, EngineState,
}
use whatsapp_os.Automation.Actions.{resolve_conversation_id, execute_single_action}
use whatsapp_os.Automation.Triggers.{TextOperations, evaluate_trigger_match}
use whatsapp_os.Automation.Engine.{
  by_position, from_position, execute_remaining, execute_automation_actions, resume_automation,
  trigger_one, trigger_each, trigger_automations,
}
use whatsapp_os.Automation.Engine.Script.{performed, resume_all}
use whatsapp_os.Automation.Engine.Ready.{no_faults, IsReady, IsComplete}
use whatsapp_os.Automation.Engine.Complete.{execute_automation_actions-IsComplete}
use whatsapp_os.Automation.Engine.Stale.{stale_resume_repeats}
use whatsapp_os.Automation.Engine.Triggered.{trigger_automations_twice}

abbrev nothing_set : ActionConfig
nothing_set = record {
  duration_minutes = none;
  duration_seconds = none;
  body = none;
  template_name = none;
  tags = none;
  tag = none;
  member_id = none;
  status = none;
  priority = none;
  stage = none;
  reason = none;
  title = none;
  level = none;
  content = none;
}

abbrev action : ℕ → ActionType → AutomationAction
action position type = record {
  id = position;
  position = position;
  type = type;
  config = record nothing_set { body = some (72 ∷ 105 ∷ []); duration_minutes = some 10 };
}

-- Not in the order of the positions.
abbrev follow_up : Automation
follow_up = record {
  id = 7;
  workspace_id = 1;
  trigger_type = message_received;
  trigger_config = none;
  is_active = true;
  run_count = 3;
  last_run_at = none;
  actions = action 2 notify_team ∷ action 1 wait ∷ action 3 wait ∷ action 0 send_message ∷ [];
}

abbrev chat : Conversation
chat = record {
  id = 5;
  workspace_id = 1;
  contact_id = 9;
  status = open_;
  priority = [];
  assigned_to_member_id = none;
  ai_enabled = true;
  ai_paused_at = none;
  ai_paused_by_member_id = none;
  handoff_reason = none;
  handoff_at = none;
  last_outbound_at = none;
  last_message_at = none;
  message_count = 1;
  resolved_at = none;
  closed_at = none;
  updated_at = 0;
}

abbrev about_chat : Subject
about_chat = record { type = conversation; id = 5 }

abbrev run_at : RunStatus → ℕ → AutomationRun
run_at status position = record {
  id = 11;
  workspace_id = 1;
  automation_id = 7;
  subject = about_chat;
  dedupe_key = record { automation_id = 7; subject = about_chat; event_key = 49 ∷ [] };
  status = status;
  current_action_position = position;
  finished_at = none;
  error = none;
}

abbrev state_with : List AutomationRun → EngineState
state_with runs = record {
  shop = record {
    conversations = chat ∷ [];
    contacts = [];
    orders = [];
    messages = [];
    tags = [];
    contact_tags = [];
    notifications = [];
    notes = [];
    next_tag_id = 1;
  };
  automations = follow_up ∷ [];
  runs = runs;
  jobs = [];
  next_run_id = 12;
}

abbrev fresh : EngineState
fresh = state_with (run_at running 0 ∷ [])

-- The run waits at position four when the job of its first wait, for position two, comes again.
abbrev waits_later : EngineState
waits_later = state_with (run_at waiting 4 ∷ [])

fresh-IsReady : IsReady 1 11 follow_up about_chat fresh
fresh-IsReady = record {
  run = run_at running 0;
  found = refl;
  for_automation = refl;
  for_subject = refl;
  known = refl;
}

execute_automation_actions-IsComplete_example :
    IsComplete 1 11 follow_up about_chat
      (performed 1000
        (700000 ∷ 1400000 ∷ [])
        1
        about_chat
        (by_position follow_up.actions)
        fresh.shop)
      (resume_all no_faults
        (700000 ∷ 1400000 ∷ [])
        (execute_automation_actions no_faults 1000 1 follow_up 11 about_chat 0 fresh).1)
execute_automation_actions-IsComplete_example =
    execute_automation_actions-IsComplete 1 11 follow_up about_chat 1000 (700000 ∷ 1400000 ∷ [])
      fresh (refl, (refl, (refl, (refl, tt)))) refl refl fresh-IsReady refl

stale_resume_repeats_example :
    (resume_automation no_faults 800000 1 11 2 waits_later).1.shop
    ≡ performed 800000 [] 1 about_chat
        (from_position 2 (by_position follow_up.actions))
        waits_later.shop
stale_resume_repeats_example =
    stale_resume_repeats 1 11 follow_up about_chat 800000 2 waits_later (run_at waiting 4) refl refl
      refl refl refl

-- The team is told a second time.
told_again : length (resume_automation no_faults 800000 1 11 2 waits_later).1.shop.notifications ≡ 1
unfolding resume_automation execute_automation_actions execute_remaining execute_single_action
told_again = refl

abbrev as_is : TextOperations
as_is = record { to_lower_case = λ text. text; trim = λ text. text }

abbrev received : TriggerEvent
received = record {
  trigger_type = message_received;
  subject = about_chat;
  event_key = some (50 ∷ []);
  event_data = record {
    body = none;
    text = none;
    from_status = none;
    to_status = none;
    from_stage = none;
    to_stage = none;
    available = none;
    idle_minutes = none;
  };
}

trigger_automations_twice_example :
    (trigger_automations as_is no_faults 2000 [] 1 received
      (trigger_automations as_is no_faults 1000 [] 1 received (state_with [])).1).1
    ≡ (trigger_automations as_is no_faults 1000 [] 1 received (state_with [])).1
trigger_automations_twice_example =
    trigger_automations_twice as_is no_faults no_faults 1000 2000 [] [] 1 received (state_with [])
      refl

-- The greeting is a message that is SENT, and no job to send it is added: the run waits.
greeting_is_not_queued :
    (length (trigger_automations as_is no_faults 1000 [] 1 received (state_with [])).1.shop.messages
      ≡ 1)
    × ((trigger_automations as_is no_faults 1000 [] 1 received (state_with [])).1.jobs
        ≡ record { workspace_id = 1; run_id = 12; action_index = 2; run_at = 601000 } ∷ [])
unfolding trigger_automations trigger_each trigger_one evaluate_trigger_match
    execute_automation_actions execute_remaining execute_single_action resolve_conversation_id
greeting_is_not_queued = (refl, refl)
