-- ===== src/Jobs/Housekeeping.antt =====
-- The statements of server/repositories/job.repository.ts that look after the queue: releasing
-- dedupe keys, recovering stalled jobs, deleting old ones.
use Prim.Native.String.{String}
use whatsapp_os.Prelude.{
  ℕ, Bool, false, not, ◌&&◌, [], ◌∷◌, Option, none, some, ltb, leb, ◌==◌, filter, if◌then◌else◌,
}
use whatsapp_os.Prelude.Table.{update_many, count_where}
use whatsapp_os.Jobs.{
  is_pending, is_running, is_completed, is_dead, Job, Jobs, has_id, has_dedupe_key, pending,
}

abbrev pub without_key : Job → Job
without_key job = record job { dedupe_key = none }

abbrev pub in_workspace : ℕ → Job → Bool
in_workspace w job = elim job.workspace_id [ none ↦ false | some owner ↦ owner == w ]

abbrev pub is_held_by_dead : ℕ → String → Job → Bool
is_held_by_dead w key job = is_dead job.status && in_workspace w job && has_dedupe_key key job

abbrev pub is_own : ℕ → ℕ → Job → Bool
is_own w id job = has_id id job && in_workspace w job

unfoldable pub release_dead_job_dedupe_key : ℕ → String → Jobs → ℕ × Jobs
release_dead_job_dedupe_key workspace_id key jobs =
    let held = is_held_by_dead workspace_id key in
    (count_where held jobs, update_many held without_key jobs)

unfoldable pub release_job_dedupe_key : ℕ → ℕ → Jobs → ℕ × Jobs
release_job_dedupe_key workspace_id id jobs =
    let own = is_own workspace_id id in (count_where own jobs, update_many own without_key jobs)

-- A null column is before no time.
abbrev pub before : Option ℕ → ℕ → Bool
before none limit = false
before (some time) limit = ltb time limit

abbrev pub is_stalled : ℕ → Job → Bool
is_stalled locked_before job = is_running job.status && before job.locked_at locked_before

abbrev pub reclaimed_job : Job → Job
reclaimed_job job = record job {
  status = pending;
  locked_at = none;
  locked_by = none;
  last_error = some "Reclaimed after worker stall.";
}

unfoldable pub reclaim_stalled_jobs : ℕ → Jobs → ℕ × Jobs
reclaim_stalled_jobs locked_before jobs = (
  count_where (is_stalled locked_before) jobs,
  update_many (is_stalled locked_before) reclaimed_job jobs,
)

abbrev pub is_old_completed : ℕ → Job → Bool
is_old_completed limit job = is_completed job.status && before job.completed_at limit

abbrev pub is_old_dead : ℕ → Job → Bool
is_old_dead limit job = is_dead job.status && before job.completed_at limit

unfoldable pub delete_completed_jobs_before : ℕ → Jobs → ℕ × Jobs
delete_completed_jobs_before limit jobs =
    let old = is_old_completed limit in (count_where old jobs, filter (λ job. not (old job)) jobs)

unfoldable pub delete_dead_jobs_before : ℕ → Jobs → ℕ × Jobs
delete_dead_jobs_before limit jobs =
    let old = is_old_dead limit in (count_where old jobs, filter (λ job. not (old job)) jobs)

unfoldable pub oldest_pending_run_after : Jobs → Option ℕ
oldest_pending_run_after [] = none
oldest_pending_run_after (job ∷ rest) =
    let oldest = oldest_pending_run_after rest in
    if is_pending job.status
    then some (elim oldest [
      | none ↦ job.run_after
      | some time ↦ if leb job.run_after time then job.run_after else time
    ])
    else oldest
