-- ===== src/Automation/Engine/Complete.antt =====
-- A run with waits does what its actions say, each once and in order.
use whatsapp_os.Prelude.{
  ℕ, suc, ◌≡◌, refl, true, false, List, [], ◌∷◌, ◌++◌, length, arith, sym, ◌∙◌, Bool-cases, inl,
  inr,
}
use mathlib.Core.Path.{subst}
use mathlib.Core.List.{append_assoc}
use whatsapp_os.Automation.{Subject, AutomationAction, Automation, EngineState}
use whatsapp_os.Automation.Engine.{
  is_wait, by_position, execute_remaining, execute_automation_actions,
}
use whatsapp_os.Automation.Engine.Ordered.{
  HasOwnPositions, IsAscending, by_position-IsAscending, from_start,
}
use whatsapp_os.Automation.Engine.Script.{performed, resume_all}
use whatsapp_os.Automation.Engine.Ready.{
  no_faults, waits_in, IsReady, IsComplete, performed-step, ended-IsComplete, acted, acted-IsReady,
  execute_remaining-acts, taken_up, taken_up-IsReady, wait-resumed,
}

module _ (ws run_id : ℕ) (automation : Automation) (subject : Subject) where
  acts-IsComplete :
      (now : ℕ) (later : List ℕ) (action : AutomationAction) (rest : List AutomationAction)
      (state : EngineState)
      → is_wait action.type ≡ false
      → IsComplete ws run_id automation subject
          (performed now later ws subject rest
            (acted ws run_id automation subject now action state).shop)
          (resume_all no_faults later
            (execute_remaining no_faults now ws automation.id run_id subject rest
              (acted ws run_id automation subject now action state)).1)
      → IsComplete ws run_id automation subject
          (performed now later ws subject (action ∷ rest) state.shop)
          (resume_all no_faults later
            (execute_remaining no_faults now ws automation.id run_id subject
              (action ∷ rest)
              state).1)
  acts-IsComplete now later action rest state acts complete =
      rw (performed-step ws run_id automation subject now later action rest state.shop acts) (
        rw (execute_remaining-acts ws run_id automation subject now action rest state acts)
          complete)

  waits-IsComplete :
      (now time : ℕ) (later : List ℕ) (before : List AutomationAction) (action : AutomationAction)
      (rest : List AutomationAction) (state : EngineState)
      → by_position automation.actions ≡ before ++ (action ∷ rest)
      → IsAscending (before ++ (action ∷ rest))
      → IsReady ws run_id automation subject state
      → state.jobs ≡ []
      → is_wait action.type ≡ true
      → IsComplete ws run_id automation subject (performed time later ws subject rest state.shop) (
          resume_all no_faults later
            (execute_remaining no_faults time ws automation.id run_id subject rest
              (taken_up ws run_id automation subject action state)).1)
      → IsComplete ws run_id automation subject
          (performed now (time ∷ later) ws subject (action ∷ rest) state.shop)
          (resume_all no_faults
            (time ∷ later)
            (execute_remaining no_faults now ws automation.id run_id subject
              (action ∷ rest)
              state).1)
  waits-IsComplete now time later before action rest state sorted ascending ready idle waits
        complete =
      let shops : performed now (time ∷ later) ws subject (action ∷ rest) state.shop
          ≡ performed time later ws subject rest state.shop =
        rw (waits, performed) refl in
      rw shops (
        subst
          (λ (end : EngineState).
            IsComplete ws run_id automation subject
              (performed time later ws subject rest state.shop) (resume_all no_faults later end))
          (sym (
            wait-resumed ws run_id automation subject now time before action rest state sorted
              ascending waits ready idle))
          complete)

  run-IsComplete :
      (now : ℕ) (later : List ℕ) (before remaining : List AutomationAction) (state : EngineState)
      → by_position automation.actions ≡ before ++ remaining
      → IsAscending (before ++ remaining)
      → waits_in remaining ≡ length later
      → automation.workspace_id ≡ ws
      → IsReady ws run_id automation subject state
      → state.jobs ≡ []
      → IsComplete ws run_id automation subject
          (performed now later ws subject remaining state.shop)
          (resume_all no_faults later
            (execute_remaining no_faults now ws automation.id run_id subject remaining state).1)
  run-IsComplete now [] before [] state sorted ascending enough owner ready idle =
      ended-IsComplete ws run_id automation subject now state owner ready idle
  run-IsComplete now (time ∷ later) before [] state sorted ascending enough owner ready idle =
      absurd (omega arith)
  run-IsComplete now [] before (action ∷ rest) state sorted ascending enough owner ready idle =
      let sorted' = sorted ∙ sym (append_assoc before (action ∷ []) rest) in
      let ascending' = subst IsAscending (sym (append_assoc before (action ∷ []) rest)) ascending in
      elim (Bool-cases (is_wait action.type)) [
        | inr acts ↦ acts-IsComplete now [] action rest state acts (
            run-IsComplete now [] (before ++ (action ∷ [])) rest
              (acted ws run_id automation subject now action state) sorted' ascending'
              (sym (rw (waits_in, acts) refl) ∙ enough) owner
              (acted-IsReady ws run_id automation subject now action state ready) idle)
        | inl waits ↦
            let more : suc (waits_in rest) ≡ 0 = sym (rw (waits_in, waits) refl) ∙ enough in
            absurd (omega arith)
      ]
  run-IsComplete now (time ∷ later) before (action ∷ rest) state sorted ascending enough owner ready
        idle =
      let sorted' = sorted ∙ sym (append_assoc before (action ∷ []) rest) in
      let ascending' = subst IsAscending (sym (append_assoc before (action ∷ []) rest)) ascending in
      elim (Bool-cases (is_wait action.type)) [
        | inr acts ↦ acts-IsComplete now (time ∷ later) action rest state acts (
            run-IsComplete now (time ∷ later) (before ++ (action ∷ [])) rest
              (acted ws run_id automation subject now action state) sorted' ascending'
              (sym (rw (waits_in, acts) refl) ∙ enough) owner
              (acted-IsReady ws run_id automation subject now action state ready) idle)
        | inl waits ↦
            let more : suc (waits_in rest) ≡ suc (length later) =
              sym (rw (waits_in, waits) refl) ∙ enough in
            waits-IsComplete now time later before action rest state sorted ascending ready idle
              waits
              (run-IsComplete time later (before ++ (action ∷ [])) rest
                (taken_up ws run_id automation subject action state) sorted' ascending'
                (omega arith) owner
                (taken_up-IsReady ws run_id automation subject action state ready) refl)
      ]

  -- A run that starts, of an automation whose actions have positions of their own and throw nothing,
  -- and each of whose waits is taken up once by the queue: the shop is as if all actions had been
  -- done once each in the order of their positions, the waits left out and the time going on at each.
  -- The run has ended, it is counted once, and no job is left.
  pub execute_automation_actions-IsComplete :
      (now : ℕ) (later : List ℕ) (state : EngineState)
      → HasOwnPositions automation.actions
      → waits_in (by_position automation.actions) ≡ length later
      → automation.workspace_id ≡ ws
      → IsReady ws run_id automation subject state
      → state.jobs ≡ []
      → IsComplete ws run_id automation subject
          (performed now later ws subject (by_position automation.actions) state.shop)
          (resume_all no_faults later
            (execute_automation_actions no_faults now ws automation run_id subject 0 state).1)
  unfolding execute_automation_actions
  execute_automation_actions-IsComplete now later state own enough owner ready idle =
      rw (from_start (by_position automation.actions)) (
        run-IsComplete now later [] (by_position automation.actions) state refl
          (by_position-IsAscending automation.actions own) enough owner ready idle)
