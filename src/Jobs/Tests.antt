-- ===== src/Jobs/Tests.antt =====
-- A queue of three jobs, and the theorems at it.
use whatsapp_os.Prelude.{
  leb, if◌then◌else◌, List, find, length, arith, ℕ, ◌≡◌, refl, ◌+◌, ◌≤◌, not, true, [], ◌∷◌, none,
  some, all, arith,
}
use whatsapp_os.Prelude.Int.{ℤ, pos, negsuc}
use whatsapp_os.Prelude.Table.{update_many}
use whatsapp_os.Jobs.Backoff.{default_backoff, backoff_delay_ms}
use whatsapp_os.Jobs.{
  Job, Jobs, InsertJobInput, pending, has_id, new_job, selected, is_selected, claim_jobs,
  by_priority, insert_by_priority, runs_before,
}
use whatsapp_os.Jobs.Housekeeping.{reclaim_stalled_jobs}
use whatsapp_os.Jobs.Backoff.{lock_expired_before}
use whatsapp_os.Jobs.Queue.{reclaim_stalled, fail}
use whatsapp_os.Jobs.Claims.{given_up, waiting_again, claim_jobs_once, fail_lem}
use whatsapp_os.Jobs.Crashes.{Round, IsCrashing, crash_rounds, crash_rounds_revive}
use whatsapp_os.Jobs.Dedupe.{HasUniqueKeys, claiming, table_after, table_after-HasUniqueKeys}

abbrev input_of : ℕ → ℤ → InsertJobInput
input_of run_after priority = record {
  type = "message.send";
  payload = "{}";
  workspace_id = some 1;
  run_after = run_after;
  max_attempts = 3;
  priority = priority;
  dedupe_key = none;
}

abbrev queue : Jobs
queue =
    new_job 1 (input_of 10 (pos 0))
    ∷ new_job 2 (input_of 20 (pos 5))
    ∷ new_job 3 (input_of 50 (negsuc 9))
    ∷ []

-- The urgent job first, and one of negative priority last.
selected_run :
    selected 5 100 queue
    ≡ new_job 2 (input_of 20 (pos 5))
      ∷ new_job 1 (input_of 10 (pos 0))
      ∷ new_job 3 (input_of 50 (negsuc 9))
      ∷ []
unfolding selected by_priority insert_by_priority runs_before
selected_run = refl

claim_jobs_once_example :
    all (λ job. not (is_selected 1 100 queue job)) (selected 5 200 (claim_jobs "w1" 1 100 queue).1)
    ≡ true
claim_jobs_once_example = claim_jobs_once "w1" 1 100 5 200 queue

fail_lem_example :
    (run_after : ℕ) × (100 ≤ run_after)
    × (run_after ≤ 100 + default_backoff.max_delay_ms)
    × (fail default_backoff 100 500000 2 "timeout" queue
        ≡ some (
            update_many
              (has_id 2)
              (if leb 3 0 then given_up 100 "timeout" else waiting_again run_after "timeout")
              queue))
fail_lem_example =
    fail_lem default_backoff 100 500000 2 "timeout" queue (new_job 2 (input_of 20 (pos 5))) refl

abbrev crash_at : ℕ → Round
crash_at now = record { worker = "w1"; limit = 2; claimed_at = now; recovered_at = now + 360000 }

abbrev four_crashes : List Round
four_crashes = crash_at 100 ∷ crash_at 400000 ∷ crash_at 800000 ∷ crash_at 1200000 ∷ []

queue-IsCrashing : IsCrashing 1 four_crashes queue
unfolding claim_jobs selected by_priority insert_by_priority runs_before reclaim_stalled
    reclaim_stalled_jobs lock_expired_before
queue-IsCrashing =
    (refl, omega arith, (refl, omega arith, (refl, omega arith, (refl, omega arith, tt))))

-- One attempt more than the three that are allowed.
crash_rounds_revive_example :
    (row : Job) × (find (has_id 1) (crash_rounds four_crashes queue) ≡ some row)
    × (row.status ≡ pending)
    × (row.attempts ≡ 0 + length four_crashes)
    × (row.max_attempts ≡ 3)
crash_rounds_revive_example =
    crash_rounds_revive 1 four_crashes queue (new_job 1 (input_of 10 (pos 0))) refl refl
      queue-IsCrashing

queue-HasUniqueKeys : HasUniqueKeys queue
queue-HasUniqueKeys key = omega arith

table_after-HasUniqueKeys_example : HasUniqueKeys (claim_jobs "w1" 1 100 queue).1
unfolding table_after
table_after-HasUniqueKeys_example =
    table_after-HasUniqueKeys (claiming "w1" 1 100) queue (claim_jobs "w1" 1 100 queue).1
      queue-HasUniqueKeys refl

delay_run : backoff_delay_ms 3 default_backoff ≡ 45000
unfolding backoff_delay_ms
delay_run = refl
