-- ===== src/Ingestion/Store/Progress.antt =====
-- The operations of MemoryStore that move a job on or end it (internal/ingestion/jobs.go).
use manu.Base.{ℕ, true, ◌&&◌, ◌||◌, none, some, [], Str, bytes, if◌then◌else◌}
use manu.Ingestion.Result.{
  Result, ok, err, ◌>>◌, ◌>>=◌, guard, Context, check_context, invalid_job, job_state,
}
use manu.Ingestion.Job.{
  JobState, completed, partial, failed, JobStage, activation, is_pending, is_running, is_failed,
  is_activation, valid_stage, JobCounts, validate_counts, Diagnostic, validate_diagnostic, Job,
}
use manu.Ingestion.Store.{get, MemoryStore, Outcome, find, commit}
use manu.Ingestion.Job.Stage.{stage_transition_allowed, monotonic_counts}
use manu.Ingestion.Store.Lease.{require_lease}

-- mutateRunning up to the write: what `update` refuses is not written.
unfoldable pub running_job : Str → Str → Str → ℕ → (Job → Result Job) → MemoryStore → Result Job
running_job organization id owner now update s = do
  job ← find organization id s
  require_lease job owner now
  update job

unfoldable pub advance_update : JobStage → JobCounts → Job → Result Job
advance_update stage counts job = do
  guard (stage_transition_allowed job.stage stage) job_state
  monotonic_counts job.counts counts
  ok (record job { stage = stage; counts = counts })

unfoldable pub advance_stage_job :
    Context → Str → Str → Str → JobStage → JobCounts → ℕ → MemoryStore → Result Job
advance_stage_job ctx organization id owner stage counts now s = do
  check_context ctx
  guard (valid_stage stage) invalid_job
  validate_counts counts
  running_job organization id owner now (advance_update stage counts) s

unfoldable pub advance_stage :
    Context → Str → Str → Str → JobStage → JobCounts → ℕ → MemoryStore → Outcome Job
unfolding advance_stage_job running_job advance_update commit
advance_stage ctx organization id owner stage counts now s =
    commit (advance_stage_job ctx organization id owner stage counts now s) s

unfoldable pub completed_job : JobCounts → ℕ → Job → Job
completed_job counts now job = record job {
  state = completed;
  stage = activation;
  counts = counts;
  lease_owner = [];
  lease_expires_at = none;
  finished_at = some now;
}

unfoldable pub complete_update : JobCounts → ℕ → Job → Result Job
complete_update counts now job = do
  guard (is_activation job.stage) job_state
  monotonic_counts job.counts counts
  ok (completed_job counts now job)

unfoldable pub complete_job : Context → Str → Str → Str → JobCounts → ℕ → MemoryStore → Result Job
complete_job ctx organization id owner counts now s = do
  check_context ctx
  validate_counts counts
  running_job organization id owner now (complete_update counts now) s

unfoldable pub complete : Context → Str → Str → Str → JobCounts → ℕ → MemoryStore → Outcome Job
unfolding complete_job running_job complete_update commit
complete ctx organization id owner counts now s =
    commit (complete_job ctx organization id owner counts now s) s

unfoldable pub ended_job : JobState → JobStage → Diagnostic → JobCounts → ℕ → Job → Job
ended_job state stage diagnostic counts now job = record job {
  state = state;
  stage = stage;
  counts = counts;
  diagnostic_code = diagnostic.code;
  diagnostic_message = diagnostic.message;
  lease_owner = [];
  lease_expires_at = none;
  finished_at = some now;
}

unfoldable pub partial_update : JobStage → Diagnostic → JobCounts → ℕ → Job → Result Job
partial_update stage diagnostic counts now job = do
  guard (stage_transition_allowed job.stage stage) job_state
  monotonic_counts job.counts counts
  ok (ended_job partial stage diagnostic counts now job)

unfoldable pub mark_partial_job :
    Context → Str → Str → Str → JobStage → Diagnostic → JobCounts → ℕ → MemoryStore → Result Job
mark_partial_job ctx organization id owner stage diagnostic counts now s = do
  check_context ctx
  guard (valid_stage stage) invalid_job
  validate_diagnostic diagnostic
  validate_counts counts
  running_job organization id owner now (partial_update stage diagnostic counts now) s

-- The operation Partial.
unfoldable pub mark_partial :
    Context → Str → Str → Str → JobStage → Diagnostic → JobCounts → ℕ → MemoryStore → Outcome Job
unfolding mark_partial_job running_job partial_update commit
mark_partial ctx organization id owner stage diagnostic counts now s =
    commit (mark_partial_job ctx organization id owner stage diagnostic counts now s) s

-- Fail keeps the stage and the counters.
unfoldable pub fail_update : Diagnostic → ℕ → Job → Result Job
fail_update diagnostic now job = ok (ended_job failed job.stage diagnostic job.counts now job)

unfoldable pub fail_job : Context → Str → Str → Str → Diagnostic → ℕ → MemoryStore → Result Job
fail_job ctx organization id owner diagnostic now s = do
  check_context ctx
  validate_diagnostic diagnostic
  running_job organization id owner now (fail_update diagnostic now) s

unfoldable pub fail : Context → Str → Str → Str → Diagnostic → ℕ → MemoryStore → Outcome Job
unfolding fail_job running_job fail_update commit
fail ctx organization id owner diagnostic now s =
    commit (fail_job ctx organization id owner diagnostic now s) s

abbrev pub diagnostic_code_cancelled : Str
diagnostic_code_cancelled = bytes "cancelled"

unfoldable pub cancelled_job : ℕ → Job → Job
cancelled_job now job = record job {
  state = failed;
  cancel_requested = true;
  diagnostic_code = diagnostic_code_cancelled;
  diagnostic_message = bytes "job cancelled";
  lease_owner = [];
  lease_expires_at = none;
  finished_at = some now;
}

-- Cancel on the job that it found. A job that is already cancelled is returned and not written.
unfoldable pub cancel_found : ℕ → Result Job → MemoryStore → Outcome Job
unfolding commit
cancel_found now (err e) s = (err e, s)
cancel_found now (ok job) s =
    if is_failed job.state && job.cancel_requested
    then (ok job, s)
    else if is_pending job.state || is_running job.state
    then commit (ok (cancelled_job now job)) s
    else (err job_state, s)

unfoldable pub cancel : Context → Str → Str → ℕ → MemoryStore → Outcome Job
unfolding cancel_found
cancel ctx organization id now s = cancel_found now (get ctx organization id s) s
