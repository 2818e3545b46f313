-- ===== src/Jobs/Claims.antt =====
-- What claiming and failing jobs guarantee.
use Prim.Native.String.{String}
use whatsapp_os.Prelude.{
  if◌then◌else◌, ℕ, zero, suc, ◌+◌, ◌≤◌, leb, none, ◌≡◌, refl, Bool, true, false, not, ◌&&◌, [],
  ◌∷◌, some, arith, length, any, all, filter, find, Bool-cases, inl, inr,
}
use whatsapp_os.Prelude.Table.{update_many}
use whatsapp_os.Jobs.Backoff.{BackoffConfig, is_exhausted, next_run_at, next_run_at_bounds}
use whatsapp_os.Jobs.{
  Job, Jobs, pending, dead, has_id, eligible, insert_by_priority, by_priority, runs_before, take,
  selected, is_selected, claimed_by, claim_jobs, update_job, mark_job_dead, mark_job_retrying,
}
use whatsapp_os.Jobs.Queue.{fail}

-- At most `limit` rows are selected.
length-take : (n : ℕ) (jobs : Jobs) → length (take n jobs) ≤ n
length-take zero jobs = omega arith
length-take (suc n) [] = omega arith
length-take (suc n) (job ∷ rest) = let shorter = length-take n rest in omega arith

-- A row at the front of the queue is before no row that is more urgent: the order is by priority,
-- and by age within one.
abbrev pub IsOrdered : Jobs → Type 0
IsOrdered [] = Unit
IsOrdered (job ∷ rest) = (all (runs_before job) rest ≡ true) × IsOrdered rest

runs_before_total : (a b : Job) → runs_before a b ≡ false → runs_before b a ≡ true
unfolding runs_before
runs_before_total a b h = ground arith

runs_before_trans :
    (a b c : Job) → runs_before a b ≡ true → runs_before b c ≡ true → runs_before a c ≡ true
unfolding runs_before
runs_before_trans a b c h g = ground arith

all-runs_before :
    (a b : Job) (jobs : Jobs)
    → runs_before a b ≡ true
    → all (runs_before b) jobs ≡ true
    → all (runs_before a) jobs ≡ true
all-runs_before a b [] h g = refl
all-runs_before a b (job ∷ rest) h g =
    ground (arith, runs_before_trans a b job, all-runs_before a b rest)

all-insert_by_priority :
    (p : Job → Bool) (job : Job) (jobs : Jobs)
    → all p (insert_by_priority job jobs) ≡ (p job && all p jobs)
unfolding insert_by_priority
all-insert_by_priority p job [] = refl
all-insert_by_priority p job (next ∷ rest) = ground (arith, all-insert_by_priority p job rest)

insert_by_priority-IsOrdered :
    (job : Job) (jobs : Jobs) → IsOrdered jobs → IsOrdered (insert_by_priority job jobs)
unfolding insert_by_priority
insert_by_priority-IsOrdered job [] h = (refl, tt)
insert_by_priority-IsOrdered job (next ∷ rest) (first, later) =
    elim (Bool-cases (runs_before job next)) [
      | inl sooner ↦
          rw sooner ((rw sooner (all-runs_before job next rest sooner first), (first, later)))
      | inr after ↦ rw after (
        rw (all-insert_by_priority (runs_before next) job rest)
            (rw (runs_before_total job next after) first),
        insert_by_priority-IsOrdered job rest later,
      )
    ]

by_priority-IsOrdered : (jobs : Jobs) → IsOrdered (by_priority jobs)
unfolding by_priority
by_priority-IsOrdered [] = tt
by_priority-IsOrdered (job ∷ rest) =
    insert_by_priority-IsOrdered job (by_priority rest) (by_priority-IsOrdered rest)

all-by_priority : (p : Job → Bool) (jobs : Jobs) → all p (by_priority jobs) ≡ all p jobs
unfolding by_priority
all-by_priority p [] = refl
all-by_priority p (job ∷ rest) =
    ground (arith, all-insert_by_priority p job (by_priority rest), all-by_priority p rest)

all-take : (p : Job → Bool) (n : ℕ) (jobs : Jobs) → all p jobs ≡ true → all p (take n jobs) ≡ true
all-take p zero jobs h = refl
all-take p (suc n) [] h = refl
all-take p (suc n) (job ∷ rest) h = ground (arith, all-take p n rest)

all-filter : (p : Job → Bool) (jobs : Jobs) → all p (filter p jobs) ≡ true
all-filter p [] = refl
all-filter p (job ∷ rest) = ground (arith, all-filter p rest)

take-IsOrdered : (n : ℕ) (jobs : Jobs) → IsOrdered jobs → IsOrdered (take n jobs)
take-IsOrdered zero jobs h = tt
take-IsOrdered (suc n) [] h = tt
take-IsOrdered (suc n) (job ∷ rest) (first, later) =
    (all-take (runs_before job) n rest first, take-IsOrdered n rest later)

-- A claim selects at most `limit` jobs, each pending and due, the most urgent first.
pub selected_lem :
    (limit now : ℕ) (jobs : Jobs)
    → (length (selected limit now jobs) ≤ limit)
      × (all (eligible now) (selected limit now jobs) ≡ true)
      × IsOrdered (selected limit now jobs)
unfolding selected
selected_lem limit now jobs =
    let due = filter (eligible now) jobs in
    (
      length-take limit (by_priority due),
      all-take (eligible now) limit (by_priority due)
          (rw (all-by_priority (eligible now) due) (all-filter (eligible now) jobs)),
      take-IsOrdered limit (by_priority due) (by_priority-IsOrdered due),
    )

all-filter-update_many :
    (p q s : Job → Bool) (f : Job → Job) (jobs : Jobs)
    → ((job : Job) → s job ≡ true → q (f job) ≡ false)
    → ((job : Job) → s job ≡ false → p job ≡ true)
    → all p (filter q (update_many s f jobs)) ≡ true
all-filter-update_many p q s f [] gone rest_holds = refl
all-filter-update_many p q s f (job ∷ rest) gone rest_holds =
    ground (arith, gone job, rest_holds job, all-filter-update_many p q s f rest gone rest_holds)

-- A job that one claim took is not taken by the next, whichever worker asks and whenever: it is
-- running.
pub claim_jobs_once :
    (worker : String) (limit now next_limit next_now : ℕ) (jobs : Jobs)
    → all
        (λ job. not (is_selected limit now jobs job))
        (selected next_limit next_now (claim_jobs worker limit now jobs).1)
      ≡ true
unfolding claim_jobs selected
claim_jobs_once worker limit now next_limit next_now jobs =
    let free = λ (job : Job). not (is_selected limit now jobs job) in
    let table = (claim_jobs worker limit now jobs).1 in
    all-take free next_limit _ (
      rw (all-by_priority free (filter (eligible next_now) table)) (
        all-filter-update_many free (eligible next_now) (is_selected limit now jobs)
          (claimed_by worker now) jobs (λ job h. refl) (λ job h. rw h refl)))

any-find : (p : Job → Bool) (jobs : Jobs) {job : Job} → find p jobs ≡ some job → any p jobs ≡ true
any-find p [] h = cc
any-find p (first ∷ rest) {job = job} h = ground (arith, any-find p rest {job = job})

-- The columns of a job that is given up, and of one that waits for another attempt.
abbrev pub given_up : ℕ → String → Job → Job
given_up now detail row = record row {
  status = dead;
  last_error = some detail;
  completed_at = some now;
  locked_at = none;
  locked_by = none;
}

abbrev pub waiting_again : ℕ → String → Job → Job
waiting_again run_after detail row = record row {
  status = pending;
  run_after = run_after;
  last_error = some detail;
  locked_at = none;
  locked_by = none;
}

-- A job that threw and is found. If it has been tried as often as it may be, the rows with its id are
-- dead, completed now, with the error and without a lock. Otherwise they are pending again, with the
-- error and without a lock, to run not before now and at most the ceiling later. No other row changes.
pub fail_lem :
    (backoff : BackoffConfig) (now jitter id : ℕ) (detail : String) (jobs : Jobs) (job : Job)
    → find (has_id id) jobs ≡ some job
    → (run_after : ℕ) × (now ≤ run_after)
      × (run_after ≤ now + backoff.max_delay_ms)
      × (fail backoff now jitter id detail jobs
          ≡ some (
              update_many
                (has_id id)
                (if leb job.max_attempts job.attempts
                  then given_up now detail
                  else waiting_again run_after detail)
                jobs))
unfolding fail mark_job_dead mark_job_retrying update_job is_exhausted
fail_lem backoff now jitter id detail jobs job found =
    let here = any-find (has_id id) jobs found in
    let when = next_run_at_bounds now job.attempts jitter backoff in
    (
      next_run_at now job.attempts jitter backoff,
      when.0,
      when.1,
      rw (found, fail)
          (elim (Bool-cases (leb job.max_attempts job.attempts)) [
            | inl out ↦ rw out (rw here refl)
            | inr left ↦ rw left (rw here refl)
          ]),
    )
