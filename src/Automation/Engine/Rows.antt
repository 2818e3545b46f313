-- ===== src/Automation/Engine/Rows.antt =====
-- A run that is found, before and after a write to it.
use whatsapp_os.Prelude.{ℕ, ◌≡◌, refl, true, some, ap, ◌∙◌}
use whatsapp_os.Prelude.Table.{updated, find-update_many, find_holds}
use whatsapp_os.Automation.{AutomationRun, EngineState}
use whatsapp_os.Automation.Engine.{is_run, update_automation_run, find_automation_run_by_id}

pub find_run-update :
    (ws id : ℕ) (change : AutomationRun → AutomationRun) (state : EngineState) (run : AutomationRun)
    → ((row : AutomationRun) → is_run ws id (change row) ≡ is_run ws id row)
    → find_automation_run_by_id ws id state ≡ some run
    → find_automation_run_by_id ws id (update_automation_run ws id change state) ≡ some (change run)
find_run-update ws id change state run same found =
    let hit : is_run ws id run ≡ true = find_holds (is_run ws id) state.runs found in
    find-update_many (is_run ws id) (is_run ws id) change state.runs same
    ∙ ap (updated (is_run ws id) change) found
    ∙ rw hit refl
