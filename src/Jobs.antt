-- ===== src/Jobs.antt =====
-- server/repositories/job.repository.ts: the background queue, its rows, and how jobs are claimed,
-- inserted and reported. The `jobs` table is a list of rows in the order of their insertion.
pub mod Backoff
pub mod Housekeeping
pub mod Queue
pub mod Claims
pub mod Crashes
pub mod Dedupe
mod Tests
use Prim.Native.String.{String}
use text.Mathlib.Text.{◌==◌ as str_eq}
use whatsapp_os.Prelude.{
  ℕ, zero, suc, ◌+◌, ◌-◌, ◌/◌, Bool, true, false, not, ◌&&◌, ◌||◌, List, [], ◌∷◌, ◌++◌, map, Option,
  none, some, ltb, leb, ◌==◌, any, filter, find, or_else, if◌then◌else◌, max,
}
use whatsapp_os.Prelude.Int.{ℤ, ltb_ℤ, eq_ℤ}
use whatsapp_os.Prelude.Table.{update_many, count_where}
use whatsapp_os.Prelude.Result.{Result, ok, err}
use Backoff.{BackoffConfig, is_exhausted, next_run_at, lock_expired_before, lock_timeout_ms}

pub data JobStatus : Type 0 where
  pending running completed failed dead : JobStatus

abbrev pub is_pending : JobStatus → Bool
is_pending pending = true
is_pending _ = false

abbrev pub is_running : JobStatus → Bool
is_running running = true
is_running _ = false

abbrev pub is_completed : JobStatus → Bool
is_completed completed = true
is_completed _ = false

abbrev pub is_dead : JobStatus → Bool
is_dead dead = true
is_dead _ = false

-- A row of the table; `payload` is the JSON text, and ids are numbers.
pub record Job : Type 0 where
  pub id : ℕ
  pub type : String
  pub payload : String
  pub workspace_id : Option ℕ
  pub status : JobStatus
  pub run_after : ℕ
  pub attempts : ℕ
  pub max_attempts : ℕ
  pub priority : ℤ
  pub dedupe_key : Option String
  pub locked_at : Option ℕ
  pub locked_by : Option String
  pub started_at : Option ℕ
  pub completed_at : Option ℕ
  pub last_error : Option String

abbrev pub Jobs : Type 0
Jobs = List Job

abbrev pub has_id : ℕ → Job → Bool
has_id id job = job.id == id

abbrev pub has_dedupe_key : String → Job → Bool
has_dedupe_key key job = elim job.dedupe_key [ none ↦ false | some held ↦ str_eq held key ]

-- The row that the database is asked for must be there: `update` rejects on a missing one.
unfoldable pub update_job : ℕ → (Job → Job) → Jobs → Option Jobs
update_job id change jobs =
    if any (has_id id) jobs then some (update_many (has_id id) change jobs) else none

-- claimJobs

abbrev pub eligible : ℕ → Job → Bool
eligible now job = is_pending job.status && leb job.run_after now

-- ORDER BY priority DESC, "runAfter" ASC.
unfoldable pub runs_before : Job → Job → Bool
runs_before a b =
    ltb_ℤ b.priority a.priority || (eq_ℤ a.priority b.priority && leb a.run_after b.run_after)

unfoldable pub insert_by_priority : Job → Jobs → Jobs
insert_by_priority job [] = job ∷ []
insert_by_priority job (next ∷ rest) =
    let later = insert_by_priority job rest in
    if runs_before job next then job ∷ next ∷ rest else next ∷ later

unfoldable pub by_priority : Jobs → Jobs
by_priority [] = []
by_priority (job ∷ rest) = insert_by_priority job (by_priority rest)

abbrev pub take : ℕ → Jobs → Jobs
take zero jobs = []
take (suc n) [] = []
take (suc n) (job ∷ rest) = job ∷ take n rest

-- The ids that the inner SELECT locks, without contention.
unfoldable pub selected : ℕ → ℕ → Jobs → Jobs
selected limit now jobs = take limit (by_priority (filter (eligible now) jobs))

abbrev pub is_selected : ℕ → ℕ → Jobs → Job → Bool
is_selected limit now jobs job = any (has_id job.id) (selected limit now jobs)

abbrev pub claimed_by : String → ℕ → Job → Job
claimed_by worker now job = record job {
  status = running;
  attempts = suc job.attempts;
  locked_at = some now;
  locked_by = some worker;
  started_at = some (or_else job.started_at now);
}

-- The claimed rows, as RETURNING gives them, and the table.
unfoldable pub claim_jobs : String → ℕ → ℕ → Jobs → Jobs × Jobs
claim_jobs worker limit now jobs = (
  map (claimed_by worker now) (filter (is_selected limit now jobs) jobs),
  update_many (is_selected limit now jobs) (claimed_by worker now) jobs,
)

-- insertJob

pub record InsertJobInput : Type 0 where
  pub type : String
  pub payload : String
  pub workspace_id : Option ℕ
  pub run_after : ℕ
  pub max_attempts : ℕ
  pub priority : ℤ
  pub dedupe_key : Option String

abbrev pub new_job : ℕ → InsertJobInput → Job
new_job id input = record {
  id = id;
  type = input.type;
  payload = input.payload;
  workspace_id = input.workspace_id;
  status = pending;
  run_after = input.run_after;
  attempts = 0;
  max_attempts = input.max_attempts;
  priority = input.priority;
  dedupe_key = input.dedupe_key;
  locked_at = none;
  locked_by = none;
  started_at = none;
  completed_at = none;
  last_error = none;
}

pub record Inserted : Type 0 where
  pub id : ℕ
  pub created : Bool

-- `fresh` is the id that the database generates. The read after a conflict finds the row, since
-- nothing runs between the two statements here.
unfoldable pub insert_job : ℕ → InsertJobInput → Jobs → Inserted × Jobs
insert_job fresh input jobs =
    let added : Inserted × Jobs =
      (record { id = fresh; created = true }, jobs ++ (new_job fresh input ∷ [])) in
    elim input.dedupe_key [
      | none ↦ added
      | some key ↦ elim (find (has_dedupe_key key) jobs) [
        | none ↦ added
        | some existing ↦ (record { id = existing.id; created = false }, jobs)
      ]
    ]

-- The writes of a worker's report.

abbrev pub completed_job : ℕ → Job → Job
completed_job now job = record job {
  status = completed;
  completed_at = some now;
  locked_at = none;
  locked_by = none;
  dedupe_key = none;
}

unfoldable pub mark_job_completed : ℕ → ℕ → Jobs → Option Jobs
mark_job_completed now id = update_job id (completed_job now)

abbrev pub retrying_job : ℕ → String → Job → Job
retrying_job run_after last_error job = record job {
  status = pending;
  run_after = run_after;
  last_error = some last_error;
  locked_at = none;
  locked_by = none;
}

unfoldable pub mark_job_retrying : ℕ → ℕ → String → Jobs → Option Jobs
mark_job_retrying id run_after last_error = update_job id (retrying_job run_after last_error)

abbrev pub dead_job : ℕ → String → Job → Job
dead_job now last_error job = record job {
  status = dead;
  last_error = some last_error;
  completed_at = some now;
  locked_at = none;
  locked_by = none;
}

unfoldable pub mark_job_dead : ℕ → ℕ → String → Jobs → Option Jobs
mark_job_dead now id last_error = update_job id (dead_job now last_error)
