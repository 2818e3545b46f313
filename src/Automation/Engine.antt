-- ===== src/Automation/Engine.antt =====
-- The engine: `triggerAutomations`, `executeAutomationActions` and `resumeAutomation`, with the statements
-- on runs. What an action that throws has written, and its message, is an argument.
pub mod Ordered
mod Rows
mod Kept
pub mod Ready
pub mod Script
pub mod Complete
pub mod Stale
pub mod Triggered
use whatsapp_os.Prelude.{
  ℕ, zero, suc, ◌+◌, ◌*◌, max, Bool, true, false, not, ◌&&◌, List, [], ◌∷◌, ◌++◌, Option, none,
  some, any, filter, find, leb, ltb, ◌==◌, if◌then◌else◌, or_else,
}
use whatsapp_os.Prelude.Table.{update_many}
use whatsapp_os.Automation.{
  Text, given, TriggerType, trigger_index, ActionType, wait, RunStatus, running, waiting, completed,
  failed, is_waiting, Subject, ActionConfig, AutomationAction, TriggerEvent, Automation, DedupeKey,
  key_eq, AutomationRun, ResumeJob, Shop, EngineState,
}
use whatsapp_os.Automation.Actions.{execute_single_action}
use whatsapp_os.Automation.Triggers.{TextOperations, evaluate_trigger_match}

-- An action that throws: its message, and the shop with what it has written.
abbrev pub Faults : Type 0
Faults = AutomationAction → Shop → Option (Text × Shop)

pub record RunResult : Type 0 where
  pub status : RunStatus
  pub error : Option Text

pub record TriggeredRun : Type 0 where
  pub automation_id : ℕ
  pub run_id : ℕ
  pub status : RunStatus

abbrev pub is_wait : ActionType → Bool
is_wait wait = true
is_wait _ = false

abbrev pub insert_by_position : AutomationAction → List AutomationAction → List AutomationAction
insert_by_position action [] = action ∷ []
insert_by_position action (next ∷ rest) =
    if leb action.position next.position
    then action ∷ next ∷ rest
    else next ∷ insert_by_position action rest

abbrev pub by_position : List AutomationAction → List AutomationAction
by_position [] = []
by_position (action ∷ rest) = insert_by_position action (by_position rest)

abbrev pub is_run : ℕ → ℕ → AutomationRun → Bool
is_run ws id run = (run.id == id) && (run.workspace_id == ws)

abbrev pub update_automation_run :
    ℕ → ℕ → (AutomationRun → AutomationRun) → EngineState → EngineState
update_automation_run ws id change state = record state {
  runs = update_many (is_run ws id) change state.runs;
}

abbrev pub find_automation_run_by_id : ℕ → ℕ → EngineState → Option AutomationRun
find_automation_run_by_id ws id state = find (is_run ws id) state.runs

abbrev pub find_automation_run_by_dedupe_key : DedupeKey → EngineState → Option AutomationRun
find_automation_run_by_dedupe_key key state =
    find (λ (run : AutomationRun). key_eq run.dedupe_key key) state.runs

abbrev pub increment_automation_run_count : ℕ → ℕ → ℕ → EngineState → EngineState
increment_automation_run_count now ws id state = record state {
  automations =
      update_many (λ (row : Automation). (row.id == id) && (row.workspace_id == ws))
        (λ (row : Automation). record row { run_count = suc row.run_count; last_run_at = some now })
        state.automations;
}

-- Rows stand in the order of their creation.
abbrev pub find_active_automations_by_trigger : ℕ → TriggerType → EngineState → List Automation
find_active_automations_by_trigger ws type state =
    filter
      (λ (row : Automation).
        (row.workspace_id == ws)
        && ((trigger_index row.trigger_type == trigger_index type) && row.is_active))
      state.automations

abbrev pub wait_seconds : ActionConfig → ℕ
wait_seconds config = or_else config.duration_seconds (or_else config.duration_minutes 0 * 60)

-- A job with its key in the queue is not added again.
abbrev pub enqueue_resume : ResumeJob → List ResumeJob → List ResumeJob
enqueue_resume job jobs =
    if any
      (λ (held : ResumeJob). (held.run_id == job.run_id) && (held.action_index == job.action_index))
      jobs
    then jobs
    else jobs ++ (job ∷ [])

-- The loop over the actions that are left.
unfoldable pub execute_remaining :
    Faults → ℕ → ℕ → ℕ → ℕ → Subject → List AutomationAction → EngineState → RunResult × EngineState
execute_remaining faults now ws automation_id run_id subject [] state = (
  record { status = completed; error = none },
  increment_automation_run_count now ws automation_id (
      update_automation_run ws run_id
        (λ run. record run { status = completed; finished_at = some now }) state),
)
execute_remaining faults now ws automation_id run_id subject (action ∷ rest) state =
    let continued = execute_remaining faults now ws automation_id run_id subject rest (
      update_automation_run ws run_id
        (λ run. record run { current_action_position = suc action.position })
        (record state { shop = execute_single_action now ws subject action state.shop })) in
    if is_wait action.type
    then (
      record { status = waiting; error = none },
      record (update_automation_run ws run_id
          (λ run. record run { status = waiting; current_action_position = suc action.position })
          state) {
            jobs =
                enqueue_resume
                  (record {
                    workspace_id = ws;
                    run_id = run_id;
                    action_index = suc action.position;
                    run_at = now + max 1 (wait_seconds action.config) * 1000;
                  })
                  state.jobs;
          },
    )
    else elim (faults action state.shop) [
      | none ↦ continued
      | some (message, shop) ↦ (
        record { status = failed; error = some message },
        update_automation_run ws run_id
            (λ run. record run { status = failed; error = some message; finished_at = some now })
            (record state { shop = shop }),
      )
    ]

abbrev pub from_position : ℕ → List AutomationAction → List AutomationAction
from_position start = filter (λ (action : AutomationAction). leb start action.position)

unfoldable pub execute_automation_actions :
    Faults → ℕ → ℕ → Automation → ℕ → Subject → ℕ → EngineState → RunResult × EngineState
execute_automation_actions faults now ws automation run_id subject start state =
    execute_remaining faults now ws automation.id run_id subject
      (from_position start (by_position automation.actions)) state

-- A run is read with its automation, which it has by a foreign key.
unfoldable pub resume_automation :
    Faults → ℕ → ℕ → ℕ → ℕ → EngineState → Option RunResult × EngineState
resume_automation faults now ws run_id action_index state =
    elim (find_automation_run_by_id ws run_id state) [
      | none ↦ (none, state)
      | some run ↦
          if not (is_waiting run.status)
          then (some (record { status = run.status; error = none }), state)
          else elim (find (λ (row : Automation). row.id == run.automation_id) state.automations) [
            | none ↦ (none, state)
            | some automation ↦
                let (result, after) =
                  execute_automation_actions faults now ws automation run.id run.subject
                    action_index
                    (update_automation_run ws run.id (λ row. record row { status = running })
                      state) in
                (some result, after)
          ]
    ]

-- The key of the event, or the time as a text.
abbrev pub dedupe_key_of : Text → TriggerEvent → Automation → DedupeKey
dedupe_key_of stamp event automation = record {
  automation_id = automation.id;
  subject = event.subject;
  event_key = or_else (given event.event_key) stamp;
}

unfoldable pub trigger_one :
    Faults → ℕ → Text → ℕ → TriggerEvent → Automation → EngineState → TriggeredRun × EngineState
trigger_one faults now stamp ws event automation state =
    elim (find_automation_run_by_dedupe_key (dedupe_key_of stamp event automation) state) [
      | some existing ↦ (
        record { automation_id = automation.id; run_id = existing.id; status = existing.status },
        state,
      )
      | none ↦
          let run : AutomationRun = record {
            id = state.next_run_id;
            workspace_id = ws;
            automation_id = automation.id;
            subject = event.subject;
            dedupe_key = dedupe_key_of stamp event automation;
            status = running;
            current_action_position = 0;
            finished_at = none;
            error = none;
          } in
          let (result, after) =
            execute_automation_actions faults now ws automation run.id event.subject 0
              (record state {
                runs = state.runs ++ (run ∷ []);
                next_run_id = suc state.next_run_id;
              }) in
          (record { automation_id = automation.id; run_id = run.id; status = result.status }, after)
    ]

abbrev pub as_list : TriggeredRun × EngineState → List TriggeredRun × EngineState
as_list (one, state) = (one ∷ [], state)

unfoldable pub trigger_each :
    TextOperations
    → Faults
    → ℕ
    → Text
    → ℕ
    → TriggerEvent
    → List Automation
    → EngineState
    → List TriggeredRun × EngineState
trigger_each operations faults now stamp ws event [] state = ([], state)
trigger_each operations faults now stamp ws event (automation ∷ rest) state =
    let (result, after) =
      if evaluate_trigger_match operations automation.trigger_type automation.trigger_config
        event.event_data
      then as_list (trigger_one faults now stamp ws event automation state)
      else ([], state) in
    let (results, last) = trigger_each operations faults now stamp ws event rest after in
    (result ++ results, last)

unfoldable pub trigger_automations :
    TextOperations
    → Faults
    → ℕ
    → Text
    → ℕ
    → TriggerEvent
    → EngineState
    → List TriggeredRun × EngineState
trigger_automations operations faults now stamp ws event state =
    trigger_each operations faults now stamp ws event
      (find_active_automations_by_trigger ws event.trigger_type state) state
