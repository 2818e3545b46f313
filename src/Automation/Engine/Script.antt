-- ===== src/Automation/Engine/Script.antt =====
-- What a run is to do, and the queue that resumes it: its actions in order, with the time going on
-- at each WAIT.
use whatsapp_os.Prelude.{ℕ, true, false, List, [], ◌∷◌}
use whatsapp_os.Automation.{Subject, AutomationAction, ResumeJob, Shop, EngineState}
use whatsapp_os.Automation.Actions.{execute_single_action}
use whatsapp_os.Automation.Engine.{Faults, is_wait, resume_automation}

-- Each action that is no WAIT, once and in order; `later` has the times at which the waits are over.
abbrev pub performed : ℕ → List ℕ → ℕ → Subject → List AutomationAction → Shop → Shop
performed now later ws subject [] shop = shop
performed now [] ws subject (action ∷ rest) shop = elim (is_wait action.type) [
  | true ↦ shop
  | false ↦ performed now [] ws subject rest (execute_single_action now ws subject action shop)
]
performed now (time ∷ later) ws subject (action ∷ rest) shop = elim (is_wait action.type) [
  | true ↦ performed time later ws subject rest shop
  | false ↦
      performed now (time ∷ later) ws subject rest
        (execute_single_action now ws subject action shop)
]

abbrev pub resumed : Faults → ℕ → List ResumeJob → EngineState → EngineState
resumed faults time [] state = state
resumed faults time (job ∷ jobs) state =
    (resume_automation faults time job.workspace_id job.run_id job.action_index
      (record state { jobs = jobs })).1

-- At each time the first job of the queue is taken.
abbrev pub resume_all : Faults → List ℕ → EngineState → EngineState
resume_all faults [] state = state
resume_all faults (time ∷ later) state =
    resume_all faults later (resumed faults time state.jobs state)
