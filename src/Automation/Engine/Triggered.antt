-- ===== src/Automation/Engine/Triggered.antt =====
-- An event that is reported again starts nothing.
use whatsapp_os.Prelude.{
  ℕ, suc, ◌≡◌, refl, Bool, true, false, not, ◌||◌, List, [], ◌∷◌, ◌++◌, none, all, any-append,
  is_some, arith, Bool-cases, Option-cases, inl, inr, ap, sym, ◌∙◌,
}
use mathlib.Core.Path.{subst}
use whatsapp_os.Automation.{
  Text, given, TriggerEvent, Automation, DedupeKey, key_eq, AutomationRun, running, EngineState,
}
use whatsapp_os.Automation.Triggers.{TextOperations, evaluate_trigger_match}
use whatsapp_os.Automation.Engine.{
  Faults, find_automation_run_by_dedupe_key, find_active_automations_by_trigger,
  execute_automation_actions, dedupe_key_of, trigger_one, trigger_each, trigger_automations,
}
use whatsapp_os.Automation.Engine.Kept.{
  key_eq_refl, find-any, any-find, both_true, either_true, or_else-given, has_key, execute-has_key,
  all_active, execute-all_active,
}

module _ (faults : Faults) (now ws : ℕ) (operations : TextOperations) (stamp : Text)
    (event : TriggerEvent) where
  -- The state in which the actions of a new run start.
  abbrev started : Automation → EngineState → EngineState
  started automation state = record state {
    runs =
        state.runs
        ++ (record {
          id = state.next_run_id;
          workspace_id = ws;
          automation_id = automation.id;
          subject = event.subject;
          dedupe_key = dedupe_key_of stamp event automation;
          status = running;
          current_action_position = 0;
          finished_at = none;
          error = none;
        }
            ∷ []);
    next_run_id = suc state.next_run_id;
  }

  trigger_one-keeps :
      (P : EngineState → Type 0) (automation : Automation) (state : EngineState)
      → P state
      → P
          (execute_automation_actions faults now ws automation state.next_run_id event.subject 0
            (started automation state)).1
      → P (trigger_one faults now stamp ws event automation state).1
  unfolding trigger_one
  trigger_one-keeps P automation state held ran =
      elim (Option-cases
        (find_automation_run_by_dedupe_key (dedupe_key_of stamp event automation) state)) [
          | inl new ↦ rw (new, trigger_one) ran
          | inr (existing, found) ↦ rw (found, trigger_one) held
        ]

  started-has_key :
      (key : DedupeKey) (automation : Automation) (state : EngineState)
      → has_key key state ≡ true
      → has_key key (started automation state) ≡ true
  started-has_key key automation state held =
      any-append (λ (run : AutomationRun). key_eq run.dedupe_key key) state.runs _ ∙ rw held refl

  trigger_one-has_key :
      (key : DedupeKey) (automation : Automation) (state : EngineState)
      → has_key key state ≡ true
      → has_key key (trigger_one faults now stamp ws event automation state).1 ≡ true
  trigger_one-has_key key automation state held =
      trigger_one-keeps (λ after. has_key key after ≡ true) automation state held
        (execute-has_key faults now ws automation state.next_run_id 0 event.subject key
          (started automation state) (started-has_key key automation state held))

  -- After it, the event has a run of the automation.
  trigger_one-own :
      (automation : Automation) (state : EngineState)
      → has_key
          (dedupe_key_of stamp event automation)
          (trigger_one faults now stamp ws event automation state).1
        ≡ true
  unfolding trigger_one
  trigger_one-own automation state =
      let key = dedupe_key_of stamp event automation in
      elim (Option-cases (find_automation_run_by_dedupe_key key state)) [
        | inr (existing, found) ↦
            rw (found, trigger_one)
              (any-find (λ (run : AutomationRun). key_eq run.dedupe_key key) state.runs found)
        | inl new ↦
            rw (new, trigger_one)
              (execute-has_key faults now ws automation state.next_run_id 0 event.subject key
                (started automation state)
                (any-append (λ (run : AutomationRun). key_eq run.dedupe_key key) state.runs _
                  ∙ ground (arith, key_eq_refl key)))
      ]

  abbrev matches : Automation → Bool
  matches automation =
      evaluate_trigger_match operations automation.trigger_type automation.trigger_config
        event.event_data

  -- An automation that does not wait for the event, or that the event has a run of.
  abbrev covered : EngineState → Automation → Bool
  covered state automation =
      not (matches automation) || has_key (dedupe_key_of stamp event automation) state

  abbrev each : List Automation → EngineState → EngineState
  each list state = (trigger_each operations faults now stamp ws event list state).1

  each-match :
      (automation : Automation) (rest : List Automation) (state : EngineState)
      → matches automation ≡ true
      → each (automation ∷ rest) state
        ≡ each rest (trigger_one faults now stamp ws event automation state).1
  unfolding trigger_each
  each-match automation rest state hit = rw (hit, trigger_each) refl

  each-miss :
      (automation : Automation) (rest : List Automation) (state : EngineState)
      → matches automation ≡ false
      → each (automation ∷ rest) state ≡ each rest state
  unfolding trigger_each
  each-miss automation rest state miss = rw (miss, trigger_each) refl

  each-keeps :
      (P : EngineState → Type 0)
      → ((automation : Automation) (state : EngineState)
          → P state
          → P (trigger_one faults now stamp ws event automation state).1)
      → (list : List Automation) (state : EngineState) → P state
      → P (each list state)
  unfolding trigger_each
  each-keeps P one [] state held = held
  each-keeps P one (automation ∷ rest) state held = elim (Bool-cases (matches automation)) [
    | inl hit ↦ subst P (sym (each-match automation rest state hit)) (
        each-keeps P one rest (trigger_one faults now stamp ws event automation state).1
          (one automation state held))
    | inr miss ↦
        subst P (sym (each-miss automation rest state miss)) (each-keeps P one rest state held)
  ]

  each-covers :
      (list : List Automation) (state : EngineState) → all (covered (each list state)) list ≡ true
  unfolding trigger_each
  each-covers [] state = refl
  each-covers (automation ∷ rest) state = elim (Bool-cases (matches automation)) [
    | inl hit ↦
        let next = (trigger_one faults now stamp ws event automation state).1 in
        let key = dedupe_key_of stamp event automation in
        let own =
          each-keeps (λ after. has_key key after ≡ true) (trigger_one-has_key key) rest next
            (trigger_one-own automation state) in
        let others = each-covers rest next in
        subst (λ (end : EngineState). all (covered end) (automation ∷ rest) ≡ true)
          (sym (each-match automation rest state hit))
          (both_true _ _ (either_true (matches automation) _ own) others)
    | inr miss ↦
        let others = each-covers rest state in
        subst (λ (end : EngineState). all (covered end) (automation ∷ rest) ≡ true)
          (sym (each-miss automation rest state miss)) (both_true _ _ (rw miss refl) others)
  ]

  trigger_one-idle :
      (automation : Automation) (state : EngineState)
      → has_key (dedupe_key_of stamp event automation) state ≡ true
      → (trigger_one faults now stamp ws event automation state).1 ≡ state
  unfolding trigger_one
  trigger_one-idle automation state held =
      let key = dedupe_key_of stamp event automation in
      let (run, found) =
        find-any (λ (run : AutomationRun). key_eq run.dedupe_key key) state.runs held in
      rw (found, trigger_one) refl

  each-idle :
      (list : List Automation) (state : EngineState)
      → all (covered state) list ≡ true
      → each list state ≡ state
  unfolding trigger_each
  each-idle [] state covers = refl
  each-idle (automation ∷ rest) state covers = elim (Bool-cases (matches automation)) [
    | inl hit ↦
        let idle = trigger_one-idle automation state (ground arith) in
        each-match automation rest state hit
        ∙ ap (each rest) idle
        ∙ each-idle rest state (ground arith)
    | inr miss ↦ each-miss automation rest state miss ∙ each-idle rest state (ground arith)
  ]

-- An event with a key that is reported again, at any later time, changes nothing: each active automation
-- that waits for it has its run from the first time, whatever its actions did or threw.
pub trigger_automations_twice :
    (operations : TextOperations) (faults faults' : Faults) (now now' : ℕ) (stamp stamp' : Text)
    (ws : ℕ) (event : TriggerEvent) (state : EngineState)
    → is_some (given event.event_key) ≡ true
    → (trigger_automations operations faults' now' stamp' ws event
        (trigger_automations operations faults now stamp ws event state).1).1
      ≡ (trigger_automations operations faults now stamp ws event state).1
unfolding trigger_automations
trigger_automations_twice operations faults faults' now now' stamp stamp' ws event state keyed =
    let list = find_active_automations_by_trigger ws event.trigger_type state in
    let after = each faults now ws operations stamp event list state in
    let p = covered faults now ws operations stamp event after in
    let covers : all p list ≡ true = each-covers faults now ws operations stamp event list state in
    let kept : all p (find_active_automations_by_trigger ws event.trigger_type after) ≡ true =
      each-keeps faults now ws operations stamp event
        (λ later.
          all_active faults now ws event.trigger_type p (λ row count last. refl) later ≡ true)
        (λ automation earlier held.
          trigger_one-keeps faults now ws operations stamp event
            (λ later.
              all_active faults now ws event.trigger_type p (λ row count last. refl) later ≡ true)
            automation earlier held
            (execute-all_active faults now ws event.trigger_type p (λ row count last. refl)
              automation earlier.next_run_id 0 event.subject true
              (started faults now ws operations stamp event automation earlier) held))
        list state covers in
    let same = or_else-given (given event.event_key) stamp stamp' keyed in
    let covers' =
      subst
        (λ key.
          all
            (λ (automation : Automation).
              not (
                evaluate_trigger_match operations automation.trigger_type automation.trigger_config
                  event.event_data)
              || has_key
                  (record {
                    automation_id = automation.id;
                    subject = event.subject;
                    event_key = key;
                  })
                  after)
            (find_active_automations_by_trigger ws event.trigger_type after)
          ≡ true)
        same kept in
    each-idle faults' now' ws operations stamp' event
      (find_active_automations_by_trigger ws event.trigger_type after) after covers'
