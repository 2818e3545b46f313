-- ===== src/Jobs/Queue.antt =====
-- server/jobs/drivers/postgres-queue.ts: claiming, failing and recovering jobs over the repository.
use Prim.Native.String.{String}
use whatsapp_os.Prelude.{ℕ, List, [], ◌∷◌, Option, none, some, find, if◌then◌else◌}
use whatsapp_os.Prelude.Result.{Result, ok, err}
use whatsapp_os.Jobs.Backoff.{
  BackoffConfig, is_exhausted, next_run_at, lock_expired_before, lock_timeout_ms,
}
use whatsapp_os.Jobs.{Jobs, has_id, claim_jobs, mark_job_retrying, mark_job_dead}
use whatsapp_os.Jobs.Housekeeping.{reclaim_stalled_jobs}

-- The driver of the queue: the end of a job that threw, and the recovery of stalled ones.

unfoldable pub fail : BackoffConfig → ℕ → ℕ → ℕ → String → Jobs → Option Jobs
fail backoff now jitter id detail jobs = elim (find (has_id id) jobs) [
  | none ↦ some jobs
  | some job ↦
      if is_exhausted job.attempts job.max_attempts
      then mark_job_dead now id detail jobs
      else mark_job_retrying id (next_run_at now job.attempts jitter backoff) detail jobs
]

unfoldable pub reclaim_stalled : ℕ → Jobs → ℕ × Jobs
reclaim_stalled now = reclaim_stalled_jobs (lock_expired_before now lock_timeout_ms)

pub record ClaimedJob (Payload : Type 0) : Type 0 where
  pub id : ℕ
  pub type : String
  pub payload : Payload
  pub workspace_id : Option ℕ
  pub attempts : ℕ
  pub max_attempts : ℕ

-- The claim of the driver: a row of an unknown type, or with a payload that does not parse, is
-- marked dead and left out. `parse` stands for the catalogue of job types with its schemas, which
-- a validation library checks; an error is the text that is stored.
module _ {Payload : Type 0} (parse : String → String → Result String Payload) where
  unfoldable pub claim_rows : ℕ → Jobs → Jobs → Option (List (ClaimedJob Payload) × Jobs)
  claim_rows now [] jobs = some ([], jobs)
  claim_rows now (row ∷ rows) jobs = elim (parse row.type row.payload) [
    | err reason ↦ elim (mark_job_dead now row.id reason jobs) [
      | none ↦ none
      | some buried ↦ claim_rows now rows buried
    ]
    | ok payload ↦ elim (claim_rows now rows jobs) [
      | none ↦ none
      | some (claimed, rest) ↦ some (
        record {
          id = row.id;
          type = row.type;
          payload = payload;
          workspace_id = row.workspace_id;
          attempts = row.attempts;
          max_attempts = row.max_attempts;
        }
            ∷ claimed,
        rest,
      )
    ]
  ]

  unfoldable pub claim : String → ℕ → ℕ → Jobs → Option (List (ClaimedJob Payload) × Jobs)
  claim worker limit now jobs =
      let taken = claim_jobs worker limit now jobs in claim_rows now taken.0 taken.1
