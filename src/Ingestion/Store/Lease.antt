-- ===== src/Ingestion/Store/Lease.antt =====
-- The operations of MemoryStore that grant and extend a lease (internal/ingestion/jobs.go).
pub mod Oldest
use manu.Base.{
  ℕ, ◌+◌, Bool, true, not, ◌&&◌, ◌||◌, Option, none, some, [], Str, str_eq, is_empty, trim_space,
  insert, keys, ltb, ℤ, pos_part, is_positive, increment,
}
use manu.Ingestion.Result.{
  Result, ok, ◌>>◌, ◌>>=◌, guard, Context, check_context, invalid_job, job_state, job_lease_lost,
  job_cancelled,
}
use manu.Ingestion.Text.{validate_identifier}
use manu.Ingestion.Job.{running, is_running, is_partial, is_failed, is_embedding_projection, Job}
use manu.Ingestion.Store.{MemoryStore, Outcome, checked, find, commit, default_stage}
use manu.Ingestion.Store.Selection.{select}

unfoldable pub validate_lease : Str → ℤ → Result (Unit {0})
validate_lease owner lease = do
  guard (not (is_empty (trim_space owner))) invalid_job
  guard (is_positive lease) invalid_job

-- `at == nil || !now.Before(*at)`
abbrev pub lease_ended : Option ℕ → ℕ → Bool
lease_ended none now = true
lease_ended (some at) now = not (ltb now at)

unfoldable pub require_lease : Job → Str → ℕ → Result (Unit {0})
require_lease job owner now = do
  guard (not (is_failed job.state && job.cancel_requested)) job_cancelled
  guard (is_running job.state) job_state
  guard
      (not (
        is_empty job.lease_owner
        || not (str_eq job.lease_owner owner)
        || lease_ended job.lease_expires_at now))
      job_lease_lost

-- now.Add(lease), for a lease that is positive.
abbrev pub add_duration : ℕ → ℤ → ℕ
add_duration now lease = now + pos_part lease

-- The job that Claim writes.
unfoldable pub claimed_job : Str → ℤ → ℕ → Job → Job
claimed_job owner lease now job = record job {
  state = running;
  stage = default_stage job.stage;
  attempt_count = increment job.attempt_count;
  lease_owner = owner;
  lease_expires_at = some (add_duration now lease);
  started_at = elim job.started_at [ none ↦ some now | some at ↦ some at ];
  finished_at = none;
  diagnostic_code = [];
  diagnostic_message = [];
}

unfoldable pub check_claim : Context → Str → Str → ℤ → Result (Unit {0})
check_claim ctx organization owner lease = do
  check_context ctx
  validate_identifier organization
  validate_lease owner lease

unfoldable pub claim_selected : Str → ℤ → ℕ → Option Job → MemoryStore → Outcome (Option Job)
claim_selected owner lease now none s = (ok none, s)
claim_selected owner lease now (some job) s =
    let taken = claimed_job owner lease now job in
    (ok (some taken), record s { jobs = insert job.id taken s.jobs })

-- `none` is the false result: no work is available.
unfoldable pub claim : Context → Str → Str → ℤ → ℕ → MemoryStore → Outcome (Option Job)
unfolding check_claim claim_selected
claim ctx organization owner lease now s =
    checked (check_claim ctx organization owner lease)
      (claim_selected owner lease now (select organization now s.jobs (keys s.jobs)) s) s

-- The job that Heartbeat writes, or its error.
unfoldable pub heartbeat_job : Context → Str → Str → Str → ℤ → ℕ → MemoryStore → Result Job
heartbeat_job ctx organization id owner lease now s = do
  check_context ctx
  validate_lease owner lease
  job ← find organization id s
  require_lease job owner now
  ok (record job { lease_expires_at = some (add_duration now lease) })

unfoldable pub heartbeat : Context → Str → Str → Str → ℤ → ℕ → MemoryStore → Outcome Job
unfolding heartbeat_job commit
heartbeat ctx organization id owner lease now s =
    commit (heartbeat_job ctx organization id owner lease now s) s

unfoldable pub resumed_job : Str → ℤ → ℕ → Job → Job
resumed_job owner lease now job = record job {
  state = running;
  attempt_count = increment job.attempt_count;
  lease_owner = owner;
  lease_expires_at = some (add_duration now lease);
  finished_at = none;
  diagnostic_code = [];
  diagnostic_message = [];
}

unfoldable pub resume_partial_job : Context → Str → Str → Str → ℤ → ℕ → MemoryStore → Result Job
resume_partial_job ctx organization id owner lease now s = do
  check_context ctx
  validate_identifier organization
  validate_identifier id
  validate_lease owner lease
  job ← find organization id s
  guard (is_partial job.state && is_embedding_projection job.stage && not job.cancel_requested)
      job_state
  ok (resumed_job owner lease now job)

unfoldable pub resume_partial : Context → Str → Str → Str → ℤ → ℕ → MemoryStore → Outcome Job
unfolding resume_partial_job commit
resume_partial ctx organization id owner lease now s =
    commit (resume_partial_job ctx organization id owner lease now s) s
