-- ===== src/Ingestion/Store/Steps.antt =====
-- What an operation of MemoryStore may do to the jobs, as a relation.
pub mod Soundness
pub mod Endings
pub mod Moves
pub mod Effects
pub mod Validity
pub mod Identity
pub mod Graph
use manu.Base.{
  Option, if◌then◌else◌, ◌==◌, ℕ, ◌<◌, none, insert, List, [], ◌∷◌, ◌≡◌, ◌⊎◌, true, false, some,
  Str, is_empty, lookup, ℤ, is_positive,
}
use manu.Ingestion.Result.{Result, ok, err, Passed, Context}
use manu.Ingestion.Job.{
  pending, running, completed, partial, failed, JobStage, embedding_projection, activation,
  valid_stage, validation, JobCounts, validate_counts, Diagnostic, validate_diagnostic, Job,
}
use manu.Ingestion.Job.Stage.{stage_transition_allowed, monotonic_counts}
use manu.Ingestion.Job.Validate.{validate}
use manu.Ingestion.Store
use manu.Ingestion.Store.{MemoryStore, Outcome, identity_key, add_job}
use manu.Ingestion.Store.Selection.{claimable}
use manu.Ingestion.Store.Lease
use manu.Ingestion.Store.Lease.{add_duration, claimed_job, resumed_job}
use manu.Ingestion.Store.Progress
use manu.Ingestion.Store.Progress.{completed_job, ended_job, cancelled_job}

-- The worker `owner` holds the lease of the job at the instant `now`.
pub record Holds (owner : Str) (now : ℕ) (j : Job) : Type 0 where
  pub is_running : j.state ≡ running
  pub owned : j.lease_owner ≡ owner
  pub named : is_empty owner ≡ false
  pub until : ℕ
  pub leased : j.lease_expires_at ≡ some until
  pub in_time : now < until

-- A worker that may be given a lease, for a positive time.
pub record Asks (owner : Str) (lease : ℤ) : Type 0 where
  pub named : is_empty owner ≡ false
  pub positive : is_positive lease ≡ true

-- New counters that a job accepts.
pub record Counted (j : Job) (counts : JobCounts) : Type 0 where
  pub counted : Passed (validate_counts counts)
  pub grown : Passed (monotonic_counts j.counts counts)

pub data Transition (now : ℕ) (j j' : Job) : Type 0 where
  take :
      (owner : Str) (lease : ℤ)
      → Asks owner lease
      → claimable j now ≡ true
      → j.cancel_requested ≡ false
      → j' ≡ claimed_job owner lease now j
      → Transition now j j'
  renew :
      (owner : Str) (lease : ℤ)
      → Asks owner lease
      → Holds owner now j
      → j' ≡ record j { lease_expires_at = some (add_duration now lease) }
      → Transition now j j'
  advance :
      (owner : Str) (stage : JobStage) (counts : JobCounts)
      → Holds owner now j
      → valid_stage stage ≡ true
      → stage_transition_allowed j.stage stage ≡ true
      → Counted j counts
      → j' ≡ record j { stage = stage; counts = counts }
      → Transition now j j'
  finish :
      (owner : Str) (counts : JobCounts)
      → Holds owner now j
      → j.stage ≡ activation
      → Counted j counts
      → j' ≡ completed_job counts now j
      → Transition now j j'
  pause :
      (owner : Str) (stage : JobStage) (diagnostic : Diagnostic) (counts : JobCounts)
      → Holds owner now j
      → valid_stage stage ≡ true
      → stage_transition_allowed j.stage stage ≡ true
      → Passed (validate_diagnostic diagnostic)
      → Counted j counts
      → j' ≡ ended_job partial stage diagnostic counts now j
      → Transition now j j'
  resume :
      (owner : Str) (lease : ℤ)
      → Asks owner lease
      → j.state ≡ partial
      → j.stage ≡ embedding_projection
      → j.cancel_requested ≡ false
      → j' ≡ resumed_job owner lease now j
      → Transition now j j'
  give_up :
      (owner : Str) (diagnostic : Diagnostic)
      → Holds owner now j
      → Passed (validate_diagnostic diagnostic)
      → j' ≡ ended_job failed j.stage diagnostic j.counts now j
      → Transition now j j'
  stop : (j.state ≡ pending) ⊎ (j.state ≡ running) → j' ≡ cancelled_job now j → Transition now j j'

-- The worker that makes a transition; none for a cancellation.
abbrev pub actor : {now : ℕ} {j j' : Job} → Transition now j j' → Option Str
actor (take owner lease asks free kept e) = some owner
actor (renew owner lease asks holds e) = some owner
actor (advance owner stage counts holds valid allowed counted e) = some owner
actor (finish owner counts holds at counted e) = some owner
actor (pause owner stage diagnostic counts holds valid allowed safe counted e) = some owner
actor (resume owner lease asks paused at kept e) = some owner
actor (give_up owner diagnostic holds safe e) = some owner
actor (stop open_state e) = none

-- Within an organization the worker may write the job `new` at the instant `now`: it follows from
-- the one stored at `id`.
pub record Change (now : ℕ) (organization : Str) (worker : Option Str) (s : MemoryStore) (id : Str)
    (new : Job) : Type 0 where
  pub old : Job
  pub stored : lookup id s.jobs ≡ some old
  pub scoped : old.organization_id ≡ organization
  pub moved : Transition now old new
  pub acted : actor moved ≡ worker

-- A job that Create may add.
pub record Addition (s : MemoryStore) (job : Job) : Type 0 where
  pub valid : Passed (validate job)
  pub is_pending : job.state ≡ pending
  pub at_validation : job.stage ≡ validation
  pub fresh_id : lookup job.id s.jobs ≡ none
  pub fresh_key : lookup (identity_key job) s.by_key ≡ none

-- `date` is the creation time that an added job has.
pub data Effect (now date : ℕ) (organization : Str) (worker : Option Str) (s s' : MemoryStore)
    : Type 0 where
  unchanged : s' ≡ s → Effect now date organization worker s s'
  changed :
      (id : Str) (new : Job)
      → Change now organization worker s id new
      → s' ≡ record s { jobs = insert new.id new s.jobs }
      → Effect now date organization worker s s'
  added :
      (job : Job)
      → Addition s job
      → job.created_at ≡ date
      → s' ≡ add_job job s
      → Effect now date organization worker s s'

-- An operation with its arguments.
pub data Request : Type 0 where
  create : Context → Job → Request
  claim : Context → Str → Str → ℤ → Request
  heartbeat : Context → Str → Str → Str → ℤ → Request
  advance_stage : Context → Str → Str → Str → JobStage → JobCounts → Request
  complete : Context → Str → Str → Str → JobCounts → Request
  mark_partial : Context → Str → Str → Str → JobStage → Diagnostic → JobCounts → Request
  resume_partial : Context → Str → Str → Str → ℤ → Request
  fail : Context → Str → Str → Str → Diagnostic → Request
  cancel : Context → Str → Str → Request

-- The creation time of the job that a request may add.
abbrev pub date : ℕ → Request → ℕ
date now (create ctx job) = if job.created_at == 0 then now else job.created_at
date now _ = 0

-- The organization that a request is for.
abbrev pub scope : Request → Str
scope (create ctx job) = job.organization_id
scope (claim ctx org owner lease) = org
scope (heartbeat ctx org id owner lease) = org
scope (advance_stage ctx org id owner stage counts) = org
scope (complete ctx org id owner counts) = org
scope (mark_partial ctx org id owner stage diagnostic counts) = org
scope (resume_partial ctx org id owner lease) = org
scope (fail ctx org id owner diagnostic) = org
scope (cancel ctx org id) = org

-- The worker that sends it, if a worker does.
abbrev pub worker : Request → Option Str
worker (create ctx job) = none
worker (claim ctx org owner lease) = some owner
worker (heartbeat ctx org id owner lease) = some owner
worker (advance_stage ctx org id owner stage counts) = some owner
worker (complete ctx org id owner counts) = some owner
worker (mark_partial ctx org id owner stage diagnostic counts) = some owner
worker (resume_partial ctx org id owner lease) = some owner
worker (fail ctx org id owner diagnostic) = some owner
worker (cancel ctx org id) = none

-- The store after one operation, and after a list of operations with what the clock then returns.
unfoldable pub serve : ℕ → Request → MemoryStore → MemoryStore
serve now (create ctx job) s = (Store.create ctx now job s).1
serve now (claim ctx org owner lease) s = (Lease.claim ctx org owner lease now s).1
serve now (heartbeat ctx org id owner lease) s = (Lease.heartbeat ctx org id owner lease now s).1
serve now (advance_stage ctx org id owner stage counts) s =
    (Progress.advance_stage ctx org id owner stage counts now s).1
serve now (complete ctx org id owner counts) s = (Progress.complete ctx org id owner counts now s).1
serve now (mark_partial ctx org id owner stage diagnostic counts) s =
    (Progress.mark_partial ctx org id owner stage diagnostic counts now s).1
serve now (resume_partial ctx org id owner lease) s =
    (Lease.resume_partial ctx org id owner lease now s).1
serve now (fail ctx org id owner diagnostic) s = (Progress.fail ctx org id owner diagnostic now s).1
serve now (cancel ctx org id) s = (Progress.cancel ctx org id now s).1

unfoldable pub serve_all : List (ℕ × Request) → MemoryStore → MemoryStore
serve_all [] s = s
serve_all ((now, r) ∷ rest) s = serve_all rest (serve now r s)
