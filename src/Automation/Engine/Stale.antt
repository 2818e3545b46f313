-- ===== src/Automation/Engine/Stale.antt =====
-- A job of an earlier wait that is delivered again.
use whatsapp_os.Prelude.{ℕ, ◌≡◌, refl, List, [], ◌∷◌, some, Bool-cases, inl, inr, ap, sym, ◌∙◌}
use whatsapp_os.Automation.{
  waiting, running, Subject, AutomationAction, Automation, AutomationRun, EngineState,
}
use whatsapp_os.Automation.Engine.{
  is_wait, by_position, from_position, update_automation_run, find_automation_run_by_id,
  execute_remaining, resume_automation,
}
use whatsapp_os.Automation.Engine.Script.{performed}
use whatsapp_os.Automation.Engine.Ready.{
  no_faults, find_automation, performed-step, acted, execute_remaining-acts,
  resume_automation-waiting,
}

module _ (ws run_id : ℕ) (automation : Automation) (subject : Subject) where
  -- One call does the actions up to the first WAIT.
  execute_remaining-shop :
      (now : ℕ) (actions : List AutomationAction) (state : EngineState)
      → (execute_remaining no_faults now ws automation.id run_id subject actions state).1.shop
        ≡ performed now [] ws subject actions state.shop
  unfolding execute_remaining
  execute_remaining-shop now [] state = refl
  execute_remaining-shop now (action ∷ rest) state = elim (Bool-cases (is_wait action.type)) [
    | inl waits ↦ rw (waits, performed) refl
    | inr acts ↦
        ap (λ (end : EngineState). end.shop)
          (execute_remaining-acts ws run_id automation subject now action rest state acts)
        ∙ execute_remaining-shop now rest (acted ws run_id automation subject now action state)
        ∙ sym (performed-step ws run_id automation subject now [] action rest state.shop acts)
  ]

  -- If no action throws, a job that takes up a waiting run does all actions from the job's position up to
  -- the next WAIT, whatever position the run waits at by then: what stands between is done again.
  pub stale_resume_repeats :
      (now index : ℕ) (state : EngineState) (run : AutomationRun)
      → find_automation_run_by_id ws run_id state ≡ some run
      → run.status ≡ waiting
      → run.automation_id ≡ automation.id
      → run.subject ≡ subject
      → find_automation automation.id state ≡ some automation
      → (resume_automation no_faults now ws run_id index state).1.shop
        ≡ performed now [] ws subject
            (from_position index (by_position automation.actions))
            state.shop
  stale_resume_repeats now index state run found is_waiting own about known =
      ap (λ (end : EngineState). end.shop)
        (resume_automation-waiting ws run_id automation subject now index state run found is_waiting
          own about known)
      ∙ execute_remaining-shop now (from_position index (by_position automation.actions))
          (update_automation_run ws run_id (λ row. record row { status = running }) state)
