-- ===== src/Automation/Engine/Ready.antt =====
-- The steps of a run: an action, a WAIT that the queue takes up again, and the end.
use whatsapp_os.Prelude.{
  ℕ, suc, ◌≡◌, refl, true, false, ◌&&◌, List, [], ◌∷◌, ◌++◌, Option, none, some, find, ◌==◌,
  ==_refl, arith, ap, sym, ◌∙◌,
}
use mathlib.Core.Path.{subst}
use whatsapp_os.Prelude.Table.{updated, count_where, find-update_many, find_holds}
use whatsapp_os.Automation.{
  waiting, running, completed, Subject, AutomationAction, Automation, AutomationRun, Shop,
  EngineState,
}
use whatsapp_os.Automation.Actions.{execute_single_action}
use whatsapp_os.Automation.Engine.{
  Faults, is_wait, by_position, from_position, is_run, update_automation_run,
  find_automation_run_by_id, execute_remaining, execute_automation_actions, resume_automation,
}
use whatsapp_os.Automation.Engine.Ordered.{IsAscending, from_position-next}
use whatsapp_os.Automation.Engine.Rows.{find_run-update}
use whatsapp_os.Automation.Engine.Script.{performed, resume_all}

abbrev pub no_faults : Faults
no_faults action shop = none

abbrev pub waits_in : List AutomationAction → ℕ
waits_in = count_where (λ (action : AutomationAction). is_wait action.type)

abbrev pub find_automation : ℕ → EngineState → Option Automation
find_automation id state = find (λ (row : Automation). row.id == id) state.automations

module _ (ws run_id : ℕ) (automation : Automation) (subject : Subject) where
  -- A run of the automation on the subject, and the automation, as they are read.
  pub record IsReady (state : EngineState) : Type 0 where
    pub run : AutomationRun
    pub found : find_automation_run_by_id ws run_id state ≡ some run
    pub for_automation : run.automation_id ≡ automation.id
    pub for_subject : run.subject ≡ subject
    pub known : find_automation automation.id state ≡ some automation

  -- The run has ended, is counted, and waits for nothing.
  pub record IsComplete (shop : Shop) (state : EngineState) : Type 0 where
    pub done : state.shop ≡ shop
    pub no_jobs : state.jobs ≡ []
    pub run : AutomationRun
    pub found : find_automation_run_by_id ws run_id state ≡ some run
    pub ended : run.status ≡ completed
    pub counted : Automation
    pub known : find_automation automation.id state ≡ some counted
    pub once_more : counted.run_count ≡ suc automation.run_count

  update-IsReady :
      (state : EngineState) (change : AutomationRun → AutomationRun)
      → ((row : AutomationRun) → is_run ws run_id (change row) ≡ is_run ws run_id row)
      → ((row : AutomationRun) → (change row).automation_id ≡ row.automation_id)
      → ((row : AutomationRun) → (change row).subject ≡ row.subject)
      → IsReady state
      → IsReady (update_automation_run ws run_id change state)
  update-IsReady state change same same_automation same_subject ready = record {
    run = change ready.run;
    found = find_run-update ws run_id change state ready.run same ready.found;
    for_automation = same_automation ready.run ∙ ready.for_automation;
    for_subject = same_subject ready.run ∙ ready.for_subject;
    known = ready.known;
  }

  -- A job takes up a waiting run with the actions from its position on.
  pub resume_automation-waiting :
      (now index : ℕ) (state : EngineState) (run : AutomationRun)
      → find_automation_run_by_id ws run_id state ≡ some run
      → run.status ≡ waiting
      → run.automation_id ≡ automation.id
      → run.subject ≡ subject
      → find_automation automation.id state ≡ some automation
      → (resume_automation no_faults now ws run_id index state).1
        ≡ (execute_remaining no_faults now ws automation.id run_id subject
            (from_position index (by_position automation.actions))
            (update_automation_run ws run_id (λ row. record row { status = running }) state)).1
  unfolding resume_automation execute_automation_actions
  resume_automation-waiting now index state run found is_waiting own about known =
      let hit : is_run ws run_id run ≡ true = find_holds (is_run ws run_id) state.runs found in
      let same_id : run.id ≡ run_id = ground arith in
      let its_own : find_automation run.automation_id state ≡ some automation =
        subst (λ id. find_automation id state ≡ some automation) (sym own) known in
      rw (found, resume_automation) (rw is_waiting (rw its_own (rw (same_id, about) refl)))

  pub performed-step :
      (now : ℕ) (later : List ℕ) (action : AutomationAction) (rest : List AutomationAction)
      (shop : Shop)
      → is_wait action.type ≡ false
      → performed now later ws subject (action ∷ rest) shop
        ≡ performed now later ws subject rest (execute_single_action now ws subject action shop)
  performed-step now [] action rest shop acts = rw (acts, performed) refl
  performed-step now (time ∷ later) action rest shop acts = rw (acts, performed) refl

  pub ended-IsComplete :
      (now : ℕ) (state : EngineState)
      → automation.workspace_id ≡ ws
      → IsReady state
      → state.jobs ≡ []
      → IsComplete state.shop
          (execute_remaining no_faults now ws automation.id run_id subject [] state).1
  unfolding execute_remaining
  ended-IsComplete now state owner ready idle =
      let counted : Automation = record automation {
        run_count = suc automation.run_count;
        last_run_at = some now;
      } in
      let own : (automation.id == automation.id) ≡ true = ==_refl automation.id in
      let in_workspace : (automation.workspace_id == ws) ≡ true = rw owner (==_refl ws) in
      let bump : Automation → Automation =
        λ row. record row { run_count = suc row.run_count; last_run_at = some now } in
      record {
        done = refl;
        no_jobs = idle;
        run = record ready.run { status = completed; finished_at = some now };
        found =
            find_run-update ws run_id
              (λ run. record run { status = completed; finished_at = some now }) state ready.run
              (λ row. refl) ready.found;
        ended = refl;
        counted = counted;
        known =
            find-update_many (λ (row : Automation). row.id == automation.id)
              (λ (row : Automation). (row.id == automation.id) && (row.workspace_id == ws)) bump
              state.automations (λ row. refl)
            ∙ ap
                (updated
                  (λ (row : Automation). (row.id == automation.id) && (row.workspace_id == ws))
                  bump)
                ready.known
            ∙ rw (own, in_workspace) refl;
        once_more = refl;
      }

  abbrev pub acted : ℕ → AutomationAction → EngineState → EngineState
  acted now action state =
      update_automation_run ws run_id
        (λ run. record run { current_action_position = suc action.position })
        (record state { shop = execute_single_action now ws subject action state.shop })

  pub acted-IsReady :
      (now : ℕ) (action : AutomationAction) (state : EngineState)
      → IsReady state
      → IsReady (acted now action state)
  acted-IsReady now action state ready = record {
    run = record ready.run { current_action_position = suc action.position };
    found =
        find_run-update ws run_id
          (λ run. record run { current_action_position = suc action.position }) state ready.run
          (λ row. refl) ready.found;
    for_automation = ready.for_automation;
    for_subject = ready.for_subject;
    known = ready.known;
  }

  pub execute_remaining-acts :
      (now : ℕ) (action : AutomationAction) (rest : List AutomationAction) (state : EngineState)
      → is_wait action.type ≡ false
      → (execute_remaining no_faults now ws automation.id run_id subject (action ∷ rest) state).1
        ≡ (execute_remaining no_faults now ws automation.id run_id subject rest
            (acted now action state)).1
  unfolding execute_remaining
  execute_remaining-acts now action rest state acts = rw (execute_remaining, acts) refl

  -- The state in which the job that a WAIT leaves has taken up the run again.
  abbrev pub taken_up : AutomationAction → EngineState → EngineState
  taken_up action state =
      update_automation_run ws run_id (λ run. record run { status = running })
        (record (update_automation_run ws run_id
          (λ run. record run { status = waiting; current_action_position = suc action.position })
          state) { jobs = [] })

  pub taken_up-IsReady :
      (action : AutomationAction) (state : EngineState)
      → IsReady state
      → IsReady (taken_up action state)
  taken_up-IsReady action state ready =
      let paused =
        update-IsReady state
          (λ run. record run { status = waiting; current_action_position = suc action.position })
          (λ row. refl) (λ row. refl) (λ row. refl) ready in
      record {
        run = record paused.run { status = running };
        found =
            find_run-update ws run_id (λ run. record run { status = running })
              (update_automation_run ws run_id
                (λ run. record run {
                  status = waiting;
                  current_action_position = suc action.position;
                })
                state)
              paused.run (λ row. refl) paused.found;
        for_automation = paused.for_automation;
        for_subject = paused.for_subject;
        known = paused.known;
      }

  pub wait-resumed :
      (now time : ℕ) (before : List AutomationAction) (action : AutomationAction)
      (rest : List AutomationAction) (state : EngineState)
      → by_position automation.actions ≡ before ++ (action ∷ rest)
      → IsAscending (before ++ (action ∷ rest))
      → is_wait action.type ≡ true
      → IsReady state
      → state.jobs ≡ []
      → resume_all no_faults
          (time ∷ [])
          (execute_remaining no_faults now ws automation.id run_id subject (action ∷ rest) state).1
        ≡ (execute_remaining no_faults time ws automation.id run_id subject rest
            (taken_up action state)).1
  unfolding execute_remaining
  wait-resumed now time before action rest state sorted ascending waits ready idle =
      let after = sym (ap (from_position (suc action.position)) sorted) in
      let found =
        find_run-update ws run_id
          (λ run. record run { status = waiting; current_action_position = suc action.position })
          state ready.run (λ row. refl) ready.found in
      let paused : EngineState =
        record (update_automation_run ws run_id
          (λ run. record run { status = waiting; current_action_position = suc action.position })
          state) { jobs = [] } in
      let left : from_position (suc action.position) (by_position automation.actions) ≡ rest =
        ap (from_position (suc action.position)) sorted
        ∙ from_position-next before action rest ascending in
      rw (execute_remaining, waits)
        (rw idle (
          resume_automation-waiting time (suc action.position) paused
            (record ready.run { status = waiting; current_action_position = suc action.position })
            found refl ready.for_automation ready.for_subject ready.known
          ∙ ap
              (λ actions.
                (execute_remaining no_faults time ws automation.id run_id subject actions
                  (taken_up action state)).1)
              left))
