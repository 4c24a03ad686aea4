-- ===== src/Ingestion/Examples.antt =====
-- Runs of the job store, and the theorems at them.
mod Operations
mod Executions
use manu.Base.{
  ℕ, ◌≡◌, ◌⊎◌, refl, inr, false, none, some, List, [], ◌∷◌, Str, bytes, lookup, pos, arith, str_eq,
  str_lt, insert, keys, trim_space, has_control,
}
use manu.Ingestion.Result.{Passed, live, check_context}
use manu.Ingestion.Text.{validate_identifier, is_lower_sha256}
use manu.Ingestion.Job.{
  Job, pending, running, validation, canonical_persistence, no_counts, validate_counts, valid_state,
  valid_stage,
}
use manu.Ingestion.Job.Validate.{validate}
use manu.Ingestion.Store.{MemoryStore, new_memory_store, identity_key, create, get}
use manu.Ingestion.Store.Lease.{claim, claimed_job, validate_lease}
use manu.Ingestion.Store.Progress.{cancel, cancelled_job}
use manu.Ingestion.Store.Selection.{select, visit, better, eligible, before}
use manu.Ingestion.Store.Steps.{Request, worker, serve, serve_all, Holds}
use manu.Ingestion.Store.Steps.Graph.{Progressed}
use manu.Ingestion.Store.Invariant.{reachable_jobs_valid, reachable_identity_unique}
use manu.Ingestion.Store.Evolution.{IsNamed, new_memory_store-IsNamed, serve_all-IsNamed}
use manu.Ingestion.Store.Evolution.Leases.{lease_protects, organizations_isolated}
use manu.Ingestion.Store.Evolution.Lifecycle.{progress_kept, terminal_absorbs}

abbrev digest : Str
digest = bytes "0123456789abcdef0123456789abcdef0123456789abcdef0123456789abcdef"

abbrev pub first_job : Job
first_job = record {
  id = bytes "job-1";
  organization_id = bytes "acme";
  organization_external_id = [];
  organization_name = [];
  source_id = [];
  snapshot_id = [];
  source_external_id = bytes "source";
  snapshot_external_id = bytes "snapshot";
  factual_digest = digest;
  analysis_configuration_id = bytes "default";
  state = pending;
  stage = validation;
  attempt_count = pos 0;
  lease_owner = [];
  lease_expires_at = none;
  cancel_requested = false;
  diagnostic_code = [];
  diagnostic_message = [];
  counts = no_counts;
  created_at = 100;
  started_at = none;
  finished_at = none;
}

abbrev pub second_job : Job
second_job = record first_job { id = bytes "job-2"; source_external_id = bytes "other" }

-- Two jobs are created, and a worker claims the first.
abbrev pub opening : List (ℕ × Request)
opening =
    (100, Request.create live first_job)
    ∷ (100, Request.create live second_job)
    ∷ (110, Request.claim live (bytes "acme") (bytes "w") (pos 50))
    ∷ []

abbrev pub taken_job : Job
taken_job = record first_job {
  state = running;
  attempt_count = pos 1;
  lease_owner = bytes "w";
  lease_expires_at = some 160;
  started_at = some 110;
}

-- What a run of the store computes with.
pub runs : Unit {0}
unfolding serve_all serve create claim claimed_job validate validate_identifier validate_counts
    valid_state valid_stage is_lower_sha256 has_control trim_space str_eq str_lt lookup insert keys
    select visit better eligible before check_context validate_lease identity_key new_memory_store
runs = tt

pub opening_claims :
    lookup (bytes "job-1") (serve_all opening new_memory_store).jobs ≡ some taken_job
unfolding runs
opening_claims = refl

opening_waits : lookup (bytes "job-2") (serve_all opening new_memory_store).jobs ≡ some second_job
unfolding runs
opening_waits = refl

reachable_jobs_valid_example : Passed (validate taken_job) × (taken_job.id ≡ bytes "job-1")
reachable_jobs_valid_example =
    reachable_jobs_valid opening (bytes "job-1") taken_job (omega arith) (omega arith)
      opening_claims

reachable_identity_unique_example : (bytes "job-1" ≡ bytes "job-1") × (taken_job ≡ taken_job)
reachable_identity_unique_example =
    reachable_identity_unique opening (bytes "job-1") (bytes "job-1") taken_job taken_job
      (omega arith) (omega arith) opening_claims opening_claims refl

pub opening-IsNamed : IsNamed (serve_all opening new_memory_store)
opening-IsNamed = serve_all-IsNamed opening new_memory_store new_memory_store-IsNamed

worker-Holds : Holds (bytes "w") 120 taken_job
worker-Holds = record {
  is_running = refl;
  owned = refl;
  named = refl;
  until = 160;
  leased = refl;
  in_time = omega arith;
}

abbrev pub opened : MemoryStore
opened = serve_all opening new_memory_store

abbrev intruder : Request
intruder = Request.heartbeat live (bytes "acme") (bytes "job-1") (bytes "x") (pos 50)

lease_protects_example :
    (lookup (bytes "job-1") (serve 120 intruder opened).jobs ≡ some taken_job)
    ⊎ ((worker intruder ≡ none)
        × (lookup (bytes "job-1") (serve 120 intruder opened).jobs
            ≡ some (cancelled_job 120 taken_job)))
lease_protects_example =
    lease_protects 120 intruder opened (bytes "job-1") (bytes "w") taken_job opening-IsNamed
      opening_claims worker-Holds (λ e. ground arith)

abbrev stranger : Request
stranger = Request.cancel live (bytes "other") (bytes "job-1")

organizations_isolated_example :
    lookup (bytes "job-1") (serve 120 stranger opened).jobs ≡ some taken_job
organizations_isolated_example =
    organizations_isolated 120 stranger opened (bytes "job-1") taken_job opening-IsNamed
      opening_claims (λ e. ground arith)

abbrev later : List (ℕ × Request)
later =
    (
      130,
      Request.advance_stage live (bytes "acme") (bytes "job-1") (bytes "w") canonical_persistence
          (record no_counts { artifact_count = pos 3 }),
    )
    ∷ (140, Request.cancel live (bytes "acme") (bytes "job-1"))
    ∷ []

progress_kept_example :
    (j : Job) × (lookup (bytes "job-1") (serve_all later opened).jobs ≡ some j)
    × Progressed taken_job j
progress_kept_example =
    progress_kept later opened (bytes "job-1") taken_job opening-IsNamed opening_claims

abbrev cancelled : List (ℕ × Request)
cancelled = (105, Request.cancel live (bytes "acme") (bytes "job-1")) ∷ []

abbrev closed : MemoryStore
closed = serve_all cancelled opened

cancel_closes : lookup (bytes "job-1") closed.jobs ≡ some (cancelled_job 105 taken_job)
unfolding runs get cancel cancelled_job
cancel_closes = refl

terminal_absorbs_example :
    lookup (bytes "job-1") (serve_all later closed).jobs ≡ some (cancelled_job 105 taken_job)
unfolding cancelled_job
terminal_absorbs_example =
    terminal_absorbs later closed (bytes "job-1") (cancelled_job 105 taken_job)
      (serve_all-IsNamed cancelled opened opening-IsNamed) cancel_closes (inr refl)
