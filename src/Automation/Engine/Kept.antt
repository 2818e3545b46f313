-- ===== src/Automation/Engine/Kept.antt =====
-- What the writes of a run keep: the runs that there are, and which automations are active.
use whatsapp_os.Prelude.{
  ℕ, suc, ◌≡◌, refl, Bool, true, not, ◌&&◌, ◌||◌, List, [], ◌∷◌, Option, none, some, any, all,
  filter, find, is_some, or_else, ◌==◌, arith, Bool-cases, Option-cases, inl, inr, ap, sym, ◌∙◌,
}
use whatsapp_os.Prelude.Table.{update_many}
use whatsapp_os.Automation.{
  Text, text_eq, trigger_index, TriggerType, subject_eq, SubjectType, conversation, contact, order,
  other_subject, Subject, AutomationAction, Automation, DedupeKey, key_eq, AutomationRun, ResumeJob,
  completed, waiting, failed, Shop, EngineState,
}
use whatsapp_os.Automation.Actions.{execute_single_action}
use whatsapp_os.Automation.Engine.{
  Faults, is_run, is_wait, increment_automation_run_count, by_position, from_position,
  update_automation_run, find_active_automations_by_trigger, execute_remaining,
  execute_automation_actions,
}

text_eq_refl : (text : Text) → text_eq text text ≡ true
text_eq_refl [] = refl
text_eq_refl (c ∷ cs) = ground (arith, text_eq_refl cs)

subject_eq_refl : (type : SubjectType) → subject_eq type type ≡ true
subject_eq_refl conversation = refl
subject_eq_refl contact = refl
subject_eq_refl order = refl
subject_eq_refl (other_subject name) = text_eq_refl name

pub key_eq_refl : (key : DedupeKey) → key_eq key key ≡ true
key_eq_refl key = ground (arith, subject_eq_refl key.subject.type, text_eq_refl key.event_key)

pub find-any :
    {A : Type 0} (p : A → Bool) (xs : List A) → any p xs ≡ true → (x : A) × (find p xs ≡ some x)
find-any p [] h = cc
find-any p (x ∷ xs) h = elim (Bool-cases (p x)) [
  | inl hit ↦ (x, rw hit refl)
  | inr miss ↦ let (y, found) = find-any p xs (sym (rw miss refl) ∙ h) in (y, rw miss found)
]

pub any-find :
    {A : Type 0} (p : A → Bool) (xs : List A) {x : A} → find p xs ≡ some x → any p xs ≡ true
any-find p [] h = cc
any-find p (x ∷ xs) {x = y} h = ground (arith, any-find p xs {x = y})

any-update_many :
    {A : Type 0} (p q : A → Bool) (f : A → A) (xs : List A)
    → ((x : A) → p (f x) ≡ p x)
    → any p (update_many q f xs) ≡ any p xs
any-update_many p q f [] same = refl
any-update_many p q f (x ∷ xs) same = ground (arith, same x, any-update_many p q f xs same)

-- Rows that are selected have a property after an update that changes neither.
all-filter-update_many :
    {A : Type 0} (p s q : A → Bool) (f : A → A) (xs : List A)
    → ((x : A) → p (f x) ≡ p x)
    → ((x : A) → s (f x) ≡ s x)
    → all p (filter s (update_many q f xs)) ≡ all p (filter s xs)
all-filter-update_many p s q f [] same kept = refl
all-filter-update_many p s q f (x ∷ xs) same kept =
    ground (arith, same x, kept x, all-filter-update_many p s q f xs same kept)

pub both_true : (a b : Bool) → a ≡ true → b ≡ true → (a && b) ≡ true
both_true a b first second = ground arith

pub either_true : (a b : Bool) → b ≡ true → (not a || b) ≡ true
either_true a b second = ground arith

pub or_else-given :
    (key : Option Text) (stamp stamp' : Text)
    → is_some key ≡ true
    → or_else key stamp ≡ or_else key stamp'
or_else-given none stamp stamp' keyed = cc
or_else-given (some key) stamp stamp' keyed = refl

abbrev pub has_key : DedupeKey → EngineState → Bool
has_key key state = any (λ (run : AutomationRun). key_eq run.dedupe_key key) state.runs

-- What every write of a run keeps, the run keeps.
module _ (faults : Faults) (now ws : ℕ) (P : EngineState → Type 0)
    (on_run : (id : ℕ) (change : AutomationRun → AutomationRun) (state : EngineState)
      → ((run : AutomationRun) → (change run).dedupe_key ≡ run.dedupe_key)
      → P state
      → P (update_automation_run ws id change state))
    (on_shop : (shop : Shop) (state : EngineState) → P state → P (record state { shop = shop }))
    (on_jobs : (jobs : List ResumeJob) (state : EngineState)
      → P state
      → P (record state { jobs = jobs }))
    (on_count : (id : ℕ) (state : EngineState)
      → P state
      → P (increment_automation_run_count now ws id state)) where
  execute_remaining-keeps :
      (automation_id run_id : ℕ) (subject : Subject) (actions : List AutomationAction)
      (state : EngineState)
      → P state
      → P (execute_remaining faults now ws automation_id run_id subject actions state).1
  unfolding execute_remaining
  execute_remaining-keeps automation_id run_id subject [] state held =
      on_count automation_id
        (update_automation_run ws run_id
          (λ run. record run { status = completed; finished_at = some now }) state)
        (on_run run_id (λ run. record run { status = completed; finished_at = some now }) state
          (λ run. refl) held)
  execute_remaining-keeps automation_id run_id subject (action ∷ rest) state held =
      elim (Bool-cases (is_wait action.type)) [
        | inl waits ↦
            rw (execute_remaining, waits)
              (on_jobs _
                (update_automation_run ws run_id
                  (λ run. record run {
                    status = waiting;
                    current_action_position = suc action.position;
                  })
                  state)
                (on_run run_id
                  (λ run. record run {
                    status = waiting;
                    current_action_position = suc action.position;
                  })
                  state (λ run. refl) held))
        | inr acts ↦ elim (Option-cases (faults action state.shop)) [
          | inr ((message, shop), fault) ↦
              rw (execute_remaining, acts)
                (rw fault (
                  on_run run_id
                    (λ run. record run {
                      status = failed;
                      error = some message;
                      finished_at = some now;
                    })
                    (record state { shop = shop }) (λ run. refl) (on_shop shop state held)))
          | inl fine ↦
              rw (execute_remaining, acts)
                (rw fine (
                  execute_remaining-keeps automation_id run_id subject rest
                    (update_automation_run ws run_id
                      (λ run. record run { current_action_position = suc action.position })
                      (record state {
                        shop = execute_single_action now ws subject action state.shop;
                      }))
                    (on_run run_id
                      (λ run. record run { current_action_position = suc action.position })
                      (record state {
                        shop = execute_single_action now ws subject action state.shop;
                      })
                      (λ run. refl)
                      (on_shop (execute_single_action now ws subject action state.shop) state
                        held))))
        ]
      ]

module _ (faults : Faults) (now ws : ℕ) where
  pub execute-has_key :
      (automation : Automation) (run_id start : ℕ) (subject : Subject) (key : DedupeKey)
      (state : EngineState)
      → has_key key state ≡ true
      → has_key key
          (execute_automation_actions faults now ws automation run_id subject start state).1
        ≡ true
  unfolding execute_automation_actions
  execute-has_key automation run_id start subject key =
      execute_remaining-keeps faults now ws (λ state. has_key key state ≡ true)
        (λ id change state same held.
          any-update_many (λ (run : AutomationRun). key_eq run.dedupe_key key) (is_run ws id) change
            state.runs (λ run. ap (λ k. key_eq k key) (same run))
          ∙ held)
        (λ shop state held. held) (λ jobs state held. held) (λ id state held. held) automation.id
        run_id subject (from_position start (by_position automation.actions))

  -- A property of automations that does not look at how often they ran.
  module _ (type : TriggerType) (p : Automation → Bool)
      (uncounted : (row : Automation) (count : ℕ) (last : Option ℕ)
        → p (record row { run_count = count; last_run_at = last }) ≡ p row) where
    abbrev pub all_active : EngineState → Bool
    all_active state = all p (find_active_automations_by_trigger ws type state)

    pub execute-all_active :
        (automation : Automation) (run_id start : ℕ) (subject : Subject) (value : Bool)
        (state : EngineState)
        → all_active state ≡ value
        → all_active
            (execute_automation_actions faults now ws automation run_id subject start state).1
          ≡ value
    unfolding execute_automation_actions
    execute-all_active automation run_id start subject value =
        execute_remaining-keeps faults now ws (λ state. all_active state ≡ value)
          (λ id change state same held. held) (λ shop state held. held) (λ jobs state held. held)
          (λ id state held.
            all-filter-update_many p
              (λ (row : Automation).
                (row.workspace_id == ws)
                && ((trigger_index row.trigger_type == trigger_index type) && row.is_active))
              (λ (row : Automation). (row.id == id) && (row.workspace_id == ws))
              (λ (row : Automation). record row {
                run_count = suc row.run_count;
                last_run_at = some now;
              })
              state.automations (λ row. uncounted row (suc row.run_count) (some now)) (λ row. refl)
            ∙ held)
          automation.id run_id subject (from_position start (by_position automation.actions))
