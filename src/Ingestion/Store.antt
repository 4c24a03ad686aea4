-- ===== src/Ingestion/Store.antt =====
-- MemoryStore of internal/ingestion/jobs.go: each operation takes what its clock returns, and
-- returns its result with the new store. The mutex makes an operation one step.
pub mod Consistency
pub mod Selection
pub mod Lease
pub mod Progress
pub mod Steps
pub mod Invariant
pub mod Evolution
pub mod Creation
pub mod Cancellation
pub mod IdentityKeys
pub mod Admission
use manu.Base.{
  ℕ, ◌+◌, ◌≡◌, Bool, true, false, not, ◌&&◌, ◌||◌, Option, none, some, List, [], ◌∷◌, ◌++◌, Str,
  bytes, str_eq, str_lt, is_empty, trim_space, Map, lookup, insert, keys, ltb, leb, ◌==◌,
  if◌then◌else◌, ℤ, pos, negsuc, pos_part, is_zero, is_positive, ltb_ℤ, increment,
}
use manu.Ingestion.Result.{
  Error, Result, ok, err, ◌>>◌, ◌>>=◌, guard, Context, check_context, invalid_job, job_not_found,
  job_conflict, job_state, job_lease_lost, job_cancelled,
}
use manu.Ingestion.Text.{validate_identifier}
use manu.Ingestion.Job.{
  JobState, pending, running, completed, partial, failed, JobStage, validation, activation,
  canonical_persistence, textual_projection, relational_projection, embedding_projection,
  is_pending, is_running, is_partial, is_failed, is_validation, is_activation,
  is_embedding_projection, valid_stage, JobCounts, validate_counts, Diagnostic, validate_diagnostic,
  Job,
}
use manu.Ingestion.Job.Validate.{validate, is_some}

pub record MemoryStore : Type 0 where
  pub jobs : Map Job
  pub by_key : Map Str

unfoldable pub new_memory_store : MemoryStore
new_memory_store = record { jobs = []; by_key = [] }

abbrev pub default_state : JobState → JobState
default_state (JobState.other []) = pending
default_state s = s

abbrev pub default_stage : JobStage → JobStage
default_stage (JobStage.other []) = validation
default_stage s = s

unfoldable pub identity_key : Job → Str
identity_key j =
    j.organization_id
    ++ 0 ∷ (j.source_external_id ++ 0 ∷ (j.snapshot_external_id ++ 0 ∷ j.factual_digest))

unfoldable pub same_identity : Job → Job → Bool
same_identity l r =
    str_eq l.organization_id r.organization_id
    && str_eq l.source_external_id r.source_external_id
    && str_eq l.snapshot_external_id r.snapshot_external_id
    && str_eq l.factual_digest r.factual_digest
    && str_eq l.analysis_configuration_id r.analysis_configuration_id
    && str_eq l.source_id r.source_id
    && str_eq l.snapshot_id r.snapshot_id
    && str_eq l.organization_external_id r.organization_external_id
    && str_eq l.organization_name r.organization_name

-- `existing` where it has the identity of `job`. The zero job of a missing entry never has, since
-- the organization of `job` is not empty.
unfoldable pub reuse : Option Job → Job → Result Job
reuse none job = err job_conflict
reuse (some existing) job = if same_identity existing job then ok existing else err job_conflict

abbrev pub Outcome : Type 0 → Type 0
Outcome A = Result A × MemoryStore

-- An early return of the error that `check` found, before anything is written.
abbrev pub checked : {A : Type 0} → Result (Unit {0}) → Outcome A → MemoryStore → Outcome A
checked (err e) next s = (err e, s)
checked (ok passed) next s = next

unfoldable pub add_job : Job → MemoryStore → MemoryStore
add_job job s = record {
  jobs = insert job.id job s.jobs;
  by_key = insert (identity_key job) job.id s.by_key;
}

-- The part of Create under the lock: by identifier, then by factual identity, else a new entry.
unfoldable pub insert_new : Job → MemoryStore → Outcome Job
unfolding reuse add_job
insert_new job s = elim (lookup job.id s.jobs) [
  | some existing ↦ (reuse (some existing) job, s)
  | none ↦ elim (lookup (identity_key job) s.by_key) [
    | some existing_id ↦ (reuse (lookup existing_id s.jobs) job, s)
    | none ↦ (ok job, add_job job s)
  ]
]

unfoldable pub with_defaults : ℕ → Job → Job
with_defaults now job = record job {
  state = default_state job.state;
  stage = default_stage job.stage;
  created_at = if job.created_at == 0 then now else job.created_at;
}

unfoldable pub check_new : Context → Job → Result (Unit {0})
check_new ctx job = do
  check_context ctx
  guard (is_pending job.state && is_validation job.stage && is_zero job.attempt_count) invalid_job
  validate job

-- `s.now()` is called, if at all, before the lock is taken.
unfoldable pub create : Context → ℕ → Job → MemoryStore → Outcome Job
unfolding with_defaults check_new insert_new
create ctx now job s =
    let filled = with_defaults now job in checked (check_new ctx filled) (insert_new filled s) s

unfoldable pub find : Str → Str → MemoryStore → Result Job
find organization id s = elim (lookup id s.jobs) [
  | none ↦ err job_not_found
  | some job ↦ if str_eq job.organization_id organization then ok job else err job_not_found
]

unfoldable pub get : Context → Str → Str → MemoryStore → Result Job
unfolding find
get ctx organization id s = do check_context ctx; find organization id s

-- `s.jobs[job.ID] = job` where there is a job to write.
unfoldable pub commit : Result Job → MemoryStore → Outcome Job
commit (err e) s = (err e, s)
commit (ok job) s = (ok job, record s { jobs = insert job.id job s.jobs })
