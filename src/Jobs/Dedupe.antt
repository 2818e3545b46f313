-- ===== src/Jobs/Dedupe.antt =====
-- The dedupe keys of the queue: at most one job holds a key, as the unique index demands.
use Prim.Native.String.{String}
use text.Mathlib.TextEquality.{eq_iff}
use text.Mathlib.Text.{◌==◌ as str_eq}
use whatsapp_os.Prelude.{
  ℕ, ◌+◌, ◌≤◌, ◌≡◌, refl, sym, Bool, true, false, not, [], ◌∷◌, ◌++◌, Option, none, some, arith,
  any, filter, find, Bool-cases, Option-cases, inl, inr,
}
use whatsapp_os.Prelude.Table.{update_many, count_where}
use whatsapp_os.Jobs.{
  Job, Jobs, has_id, has_dedupe_key, claim_jobs, InsertJobInput, new_job, insert_job, update_job,
  mark_job_completed, mark_job_retrying, mark_job_dead, is_selected, claimed_by, completed_job,
  retrying_job, dead_job,
}
use whatsapp_os.Jobs.Housekeeping.{
  release_dead_job_dedupe_key, release_job_dedupe_key, reclaim_stalled_jobs, without_key,
  is_stalled, reclaimed_job, is_held_by_dead, is_own, is_old_completed, is_old_dead,
  delete_completed_jobs_before, delete_dead_jobs_before,
}

abbrev pub holders : String → Jobs → ℕ
holders key = count_where (has_dedupe_key key)

abbrev pub HasUniqueKeys : Jobs → Type 0
HasUniqueKeys jobs = (key : String) → holders key jobs ≤ 1

same_text : (s t : String) → str_eq s t ≡ true → s ≡ t
same_text s t h = (eq_iff s t).0 h

-- A write that gives no row a key that it did not hold.
holders-update_many :
    (key : String) (p : Job → Bool) (f : Job → Job) (jobs : Jobs)
    → ((job : Job) → has_dedupe_key key job ≡ false → has_dedupe_key key (f job) ≡ false)
    → holders key (update_many p f jobs) ≤ holders key jobs
holders-update_many key p f [] h = omega arith
holders-update_many key p f (job ∷ rest) h =
    let fewer = holders-update_many key p f rest h in ground (arith, h job)

holders-filter :
    (key : String) (p : Job → Bool) (jobs : Jobs) → holders key (filter p jobs) ≤ holders key jobs
holders-filter key p [] = omega arith
holders-filter key p (job ∷ rest) = let fewer = holders-filter key p rest in ground arith

holders-append :
    (key : String) (xs ys : Jobs) → holders key (xs ++ ys) ≡ holders key xs + holders key ys
holders-append key [] ys = omega arith
holders-append key (job ∷ xs) ys = let rest = holders-append key xs ys in ground arith

holders-find-none :
    (key : String) (jobs : Jobs) → find (has_dedupe_key key) jobs ≡ none → holders key jobs ≡ 0
holders-find-none key [] h = refl
holders-find-none key (job ∷ rest) h = ground (arith, holders-find-none key rest)

-- The statements that the queue runs on its table.
pub data Statement : Type 0 where
  claiming : String → ℕ → ℕ → Statement
  inserting : ℕ → InsertJobInput → Statement
  completing : ℕ → ℕ → Statement
  retrying : ℕ → ℕ → String → Statement
  burying : ℕ → ℕ → String → Statement
  releasing_dead : ℕ → String → Statement
  releasing_own : ℕ → ℕ → Statement
  reclaiming : ℕ → Statement
  deleting_completed deleting_dead : ℕ → Statement

-- The table after a statement; none when it is rejected.
unfoldable pub table_after : Statement → Jobs → Option Jobs
table_after (claiming worker limit now) jobs = some (claim_jobs worker limit now jobs).1
table_after (inserting fresh input) jobs = some (insert_job fresh input jobs).1
table_after (completing now id) jobs = mark_job_completed now id jobs
table_after (retrying id time detail) jobs = mark_job_retrying id time detail jobs
table_after (burying now id detail) jobs = mark_job_dead now id detail jobs
table_after (releasing_dead w key) jobs = some (release_dead_job_dedupe_key w key jobs).1
table_after (releasing_own w id) jobs = some (release_job_dedupe_key w id jobs).1
table_after (reclaiming limit) jobs = some (reclaim_stalled_jobs limit jobs).1
table_after (deleting_completed limit) jobs = some (delete_completed_jobs_before limit jobs).1
table_after (deleting_dead limit) jobs = some (delete_dead_jobs_before limit jobs).1

insert_job-HasUniqueKeys :
    (fresh : ℕ) (input : InsertJobInput) (jobs : Jobs)
    → HasUniqueKeys jobs
    → HasUniqueKeys (insert_job fresh input jobs).1
unfolding insert_job
insert_job-HasUniqueKeys fresh input jobs unique key =
    let added = holders-append key jobs (new_job fresh input ∷ []) in
    let before = unique key in
    elim (Option-cases input.dedupe_key) [
      | inl keyless ↦ rw (insert_job, keyless) (rw added (rw keyless (omega arith)))
      | inr (wanted, has) ↦ elim (Option-cases (find (has_dedupe_key wanted) jobs)) [
        | inl missing ↦
            rw (insert_job, has)
              (rw missing (
                rw added (
                  rw has (elim (Bool-cases (str_eq wanted key)) [
                    | inl same ↦
                        let nobody =
                          holders-find-none key jobs
                            (rw (sym (same_text wanted key same)) missing) in
                        rw same (omega arith)
                    | inr other ↦ rw other (omega arith)
                  ]))))
        | inr (existing, found) ↦ rw (insert_job, has) (rw found before)
      ]
    ]

update_job-HasUniqueKeys :
    (id : ℕ) (f : Job → Job) (jobs next : Jobs)
    → ((key : String) (job : Job)
        → has_dedupe_key key job ≡ false
        → has_dedupe_key key (f job) ≡ false)
    → HasUniqueKeys jobs
    → update_job id f jobs ≡ some next
    → HasUniqueKeys next
unfolding update_job
update_job-HasUniqueKeys id f jobs next h unique done key =
    let fewer = holders-update_many key (has_id id) f jobs (h key) in
    let before = unique key in
    elim (Bool-cases (any (has_id id) jobs)) [ inl here ↦ ground arith | inr gone ↦ ground arith ]

-- Statements that are always done.
updated_table :
    (p : Job → Bool) (f : Job → Job) (jobs next : Jobs)
    → HasUniqueKeys jobs
    → some (update_many p f jobs) ≡ some next
    → ((key : String) (job : Job)
        → has_dedupe_key key job ≡ false
        → has_dedupe_key key (f job) ≡ false)
    → HasUniqueKeys next
updated_table p f jobs next unique done h key =
    let same : update_many p f jobs ≡ next = cc in
    let before = unique key in
    let fewer = holders-update_many key p f jobs (h key) in rw (sym same) (omega arith)

filtered_table :
    (p : Job → Bool) (jobs next : Jobs)
    → HasUniqueKeys jobs
    → some (filter p jobs) ≡ some next
    → HasUniqueKeys next
filtered_table p jobs next unique done key =
    let same : filter p jobs ≡ next = cc in
    let before = unique key in let fewer = holders-filter key p jobs in rw (sym same) (omega arith)

-- Every statement of the queue that is done leaves a table in which at most one job holds a key, if
-- it found such a table.
pub table_after-HasUniqueKeys :
    (statement : Statement) (jobs next : Jobs)
    → HasUniqueKeys jobs
    → table_after statement jobs ≡ some next
    → HasUniqueKeys next
unfolding table_after claim_jobs mark_job_completed mark_job_retrying mark_job_dead
    release_dead_job_dedupe_key release_job_dedupe_key reclaim_stalled_jobs
    delete_completed_jobs_before delete_dead_jobs_before
table_after-HasUniqueKeys (claiming worker limit now) jobs next unique done =
    updated_table (is_selected limit now jobs) (claimed_by worker now) jobs next unique done
      (λ key job h. h)
table_after-HasUniqueKeys (inserting fresh input) jobs next unique done = λ key.
    let same : (insert_job fresh input jobs).1 ≡ next = cc in
    rw (sym same) (insert_job-HasUniqueKeys fresh input jobs unique key)
table_after-HasUniqueKeys (completing now id) jobs next unique done =
    update_job-HasUniqueKeys id (completed_job now) jobs next (λ key job h. refl) unique done
table_after-HasUniqueKeys (retrying id time detail) jobs next unique done =
    update_job-HasUniqueKeys id (retrying_job time detail) jobs next (λ key job h. h) unique done
table_after-HasUniqueKeys (burying now id detail) jobs next unique done =
    update_job-HasUniqueKeys id (dead_job now detail) jobs next (λ key job h. h) unique done
table_after-HasUniqueKeys (releasing_dead w key) jobs next unique done =
    updated_table (is_held_by_dead w key) without_key jobs next unique done (λ key job h. refl)
table_after-HasUniqueKeys (releasing_own w id) jobs next unique done =
    updated_table (is_own w id) without_key jobs next unique done (λ key job h. refl)
table_after-HasUniqueKeys (reclaiming limit) jobs next unique done =
    updated_table (is_stalled limit) reclaimed_job jobs next unique done (λ key job h. h)
table_after-HasUniqueKeys (deleting_completed limit) jobs next unique done =
    filtered_table (λ job. not (is_old_completed limit job)) jobs next unique done
table_after-HasUniqueKeys (deleting_dead limit) jobs next unique done =
    filtered_table (λ job. not (is_old_dead limit job)) jobs next unique done
