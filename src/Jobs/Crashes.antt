-- ===== src/Jobs/Crashes.antt =====
-- What becomes of a job whose workers die without a report.
use Prim.Native.String.{String}
use whatsapp_os.Prelude.{
  ℕ, ◌+◌, ◌<◌, ◌≡◌, refl, true, List, [], ◌∷◌, some, arith, any, find, length, ◌-◌, ◌∙◌, ap,
}
use whatsapp_os.Prelude.Table.{find-update_many, find_holds, updated}
use whatsapp_os.Jobs.Backoff.{lock_expired_before}
use whatsapp_os.Jobs.{Job, Jobs, has_id, is_selected, pending, selected, claimed_by, claim_jobs}
use whatsapp_os.Jobs.Housekeeping.{reclaim_stalled_jobs, reclaimed_job, is_stalled}
use whatsapp_os.Jobs.Queue.{reclaim_stalled}

-- A claim by a worker that dies, and the next recovery of stalled jobs.
pub record Round : Type 0 where
  pub worker : String
  pub limit : ℕ
  pub claimed_at : ℕ
  pub recovered_at : ℕ

abbrev pub crash_round : Round → Jobs → Jobs
crash_round round jobs =
    (reclaim_stalled round.recovered_at
      (claim_jobs round.worker round.limit round.claimed_at jobs).1).1

abbrev pub crash_rounds : List Round → Jobs → Jobs
crash_rounds [] jobs = jobs
crash_rounds (round ∷ rounds) jobs = crash_rounds rounds (crash_round round jobs)

-- Each of the claims takes the job, and each recovery comes more than five minutes after its claim.
abbrev pub IsCrashing : ℕ → List Round → Jobs → Type 0
IsCrashing id [] jobs = Unit
IsCrashing id (round ∷ rounds) jobs =
    (any (has_id id) (selected round.limit round.claimed_at jobs) ≡ true)
    × (round.claimed_at + 300000 < round.recovered_at)
    × IsCrashing id rounds (crash_round round jobs)

crashed : Round → Job → Job
crashed round job = reclaimed_job (claimed_by round.worker round.claimed_at job)

find-crash_round :
    (id : ℕ) (round : Round) (jobs : Jobs) (job : Job)
    → find (has_id id) jobs ≡ some job
    → any (has_id id) (selected round.limit round.claimed_at jobs) ≡ true
    → round.claimed_at + 300000 < round.recovered_at
    → find (has_id id) (crash_round round jobs) ≡ some (crashed round job)
unfolding crashed claim_jobs reclaim_stalled reclaim_stalled_jobs lock_expired_before
find-crash_round id round jobs job found taken late =
    let own : job.id ≡ id = ground (arith, find_holds (has_id id) jobs found) in
    let is_taken : is_selected round.limit round.claimed_at jobs job ≡ true =
      ap (λ n. any (has_id n) (selected round.limit round.claimed_at jobs)) own ∙ taken in
    let claimed = claimed_by round.worker round.claimed_at job in
    let stalled : is_stalled (round.recovered_at - 300000) claimed ≡ true = ground arith in
    let running_row : find (has_id id) (claim_jobs round.worker round.limit round.claimed_at jobs).1
        ≡ some claimed =
      find-update_many (has_id id) (is_selected round.limit round.claimed_at jobs)
        (claimed_by round.worker round.claimed_at) jobs (λ row. refl)
      ∙ ap
          (updated (is_selected round.limit round.claimed_at jobs)
            (claimed_by round.worker round.claimed_at))
          found
      ∙ rw is_taken refl in
    find-update_many (has_id id) (is_stalled (round.recovered_at - 300000)) reclaimed_job
      (claim_jobs round.worker round.limit round.claimed_at jobs).1 (λ row. refl)
    ∙ ap (updated (is_stalled (round.recovered_at - 300000)) reclaimed_job) running_row
    ∙ rw stalled refl

-- Whatever other jobs there are: a pending job that one claim after another takes, each by a worker
-- that dies without a report, is pending again after the recoveries; its attempts are counted and not
-- compared with its maximum.
pub crash_rounds_revive :
    (id : ℕ) (rounds : List Round) (jobs : Jobs) (job : Job)
    → find (has_id id) jobs ≡ some job
    → job.status ≡ pending
    → IsCrashing id rounds jobs
    → (row : Job) × (find (has_id id) (crash_rounds rounds jobs) ≡ some row)
      × (row.status ≡ pending)
      × (row.attempts ≡ job.attempts + length rounds)
      × (row.max_attempts ≡ job.max_attempts)
unfolding crashed
crash_rounds_revive id [] jobs job found free crashing = (job, found, free, omega arith, refl)
crash_rounds_revive id (round ∷ rounds) jobs job found free (taken, late, later) =
    let (row, reached, again, count, same) =
      crash_rounds_revive id rounds (crash_round round jobs) (crashed round job)
        (find-crash_round id round jobs job found taken late) refl later in
    (row, reached, again, omega arith, same)
