-- ===== src/Ingestion/Examples/Operations.antt =====
-- The theorems on single operations of the job store, at concrete stores.
use manu.Base.{
  ℕ, ◌≡◌, ◌↔◌, ◌≤◌, length, refl, true, false, none, some, List, [], ◌∷◌, Str, bytes, lookup,
  insert, keys, pos, arith, Map, str_eq, trim_space, has_control, str_eq_iff, mem-keys,
}
use mathlib.Core.List.{Memᴰ, Perm}
use manu.Ingestion.Result.{Passed, ok, err, live, job_cancelled}
use manu.Ingestion.Text.{validate_identifier, is_uuid, new_uuid, valid_diagnostic_code}
use manu.Ingestion.Text.Uuid.{is_uuid-new_uuid}
use manu.Ingestion.Job.{
  Job, JobStage, completed, canonical_persistence, textual_projection, relational_projection,
  embedding_projection, activation, no_counts, validate_counts, valid_stage, Diagnostic,
  validate_diagnostic,
}
use manu.Ingestion.Job.Validate.{validate}
use manu.Ingestion.Job.New.{NewJobInput, new_job, pending_job, choose_id}
use manu.Ingestion.Store.{MemoryStore, new_memory_store, identity_key, create, get, find, add_job}
use manu.Ingestion.Store.Lease.{
  claim, claimed_job, check_claim, validate_lease, require_lease, heartbeat,
}
use manu.Ingestion.Store.Lease.Oldest.{
  IsOldest, claim_takes-IsOldest, claim_idle, claim_ahead_of_clock_invalid,
}
use manu.Ingestion.Store.Progress.{
  advance_stage, complete, mark_partial, fail, cancel, cancelled_job, advance_update,
  complete_update, completed_job, running_job,
}
use manu.Ingestion.Job.Stage.{stage_transition_allowed, stage_index, monotonic_counts}
use manu.Ingestion.Store.Selection.{select, eligible, sorted_jobs}
use manu.Ingestion.Store.Selection.Least.{select_order_irrelevant}
use manu.Ingestion.Store.Selection.Snapshot.{IsOrdered, values, snapshot-IsOrdered}
use manu.Ingestion.Store.Creation.{get-create, create_again}
use manu.Ingestion.Store.Cancellation.{cancel_refuses_workers}
use manu.Ingestion.Store.IdentityKeys.{identity_key_iff}
use manu.Ingestion.Store.Admission.{create-new_job}
use manu.Ingestion.Store.Evolution.{IsNamed, new_memory_store-IsNamed, serve_all-IsNamed}
use manu.Ingestion.Store.Evolution.Completion.{completion_takes_seven}
use manu.Ingestion.Store.Steps.{Request, serve, serve_all}
use manu.Ingestion.Examples.{first_job, second_job, taken_job, opened, opening-IsNamed, runs}

abbrev waiting_jobs : Map Job
waiting_jobs = (bytes "job-2", second_job) ∷ (bytes "job-1", first_job) ∷ []

abbrev two_waiting : MemoryStore
two_waiting = record { jobs = waiting_jobs; by_key = [] }

claim_takes-IsOldest_example :
    (k : Job) × IsOldest (bytes "acme") 110 two_waiting k
    × (claim live (bytes "acme") (bytes "w") (pos 50) 110 two_waiting ≡ (
      ok (some (claimed_job (bytes "w") (pos 50) 110 k)),
      record two_waiting {
        jobs = insert k.id (claimed_job (bytes "w") (pos 50) 110 k) waiting_jobs;
      },
    ))
unfolding runs check_claim
claim_takes-IsOldest_example =
    claim_takes-IsOldest live (bytes "acme") (bytes "w") (pos 50) 110 two_waiting (bytes "job-2")
      second_job refl refl refl

claim_idle_example :
    (claim live (bytes "other") (bytes "w") (pos 50) 110 two_waiting ≡ (ok none, two_waiting)) ↔ (
      (l : Str) (j : Job)
      → lookup l two_waiting.jobs ≡ some j
      → eligible (bytes "other") 110 j ≡ false)
unfolding runs check_claim
claim_idle_example = claim_idle live (bytes "other") (bytes "w") (pos 50) 110 two_waiting refl

claim_ahead_of_clock_invalid_example :
    (eligible (bytes "acme") 50 first_job ≡ true)
    × ¬ Passed (validate (claimed_job (bytes "w") (pos 50) 50 first_job))
unfolding runs
claim_ahead_of_clock_invalid_example =
    claim_ahead_of_clock_invalid (bytes "w") (pos 50) 50 first_job refl refl (omega arith)

select_order_irrelevant_example :
    select (bytes "acme") 110 waiting_jobs (bytes "job-2" ∷ bytes "job-1" ∷ [])
    ≡ select (bytes "acme") 110 waiting_jobs (bytes "job-1" ∷ bytes "job-2" ∷ [])
unfolding lookup keys str_eq
select_order_irrelevant_example =
    select_order_irrelevant (bytes "acme") 110 waiting_jobs (bytes "job-2" ∷ bytes "job-1" ∷ [])
      (bytes "job-1" ∷ bytes "job-2" ∷ []) (λ l j at. mem-keys l j waiting_jobs at)
      (λ l j at. elim (mem-keys l j waiting_jobs at) [
        | Memᴰ.head e ↦ Memᴰ.tail (Memᴰ.head e)
        | Memᴰ.tail (Memᴰ.head e) ↦ Memᴰ.head e
        | Memᴰ.tail (Memᴰ.tail m) ↦ elim m [ ]
      ])
      (λ k j at. ground (arith, at, str_eq_iff (bytes "job-1") k, str_eq_iff (bytes "job-2") k))

abbrev pub after_create : MemoryStore
after_create = (create live 100 first_job new_memory_store).1

created : create live 100 first_job new_memory_store ≡ (ok first_job, after_create)
unfolding runs
created = refl

get-create_example : get live (bytes "acme") (bytes "job-1") after_create ≡ ok first_job
get-create_example =
    get-create live 100 first_job new_memory_store first_job after_create new_memory_store-IsNamed
      created

create_again_example : create live 200 first_job after_create ≡ (ok first_job, after_create)
create_again_example =
    create_again live 100 200 first_job new_memory_store first_job after_create (omega arith)
      created

abbrev after_cancel : MemoryStore
after_cancel = (cancel live (bytes "acme") (bytes "job-1") 105 opened).1

cancelled_now :
    cancel live (bytes "acme") (bytes "job-1") 105 opened
    ≡ (ok (cancelled_job 105 taken_job), after_cancel)
unfolding runs get cancel cancelled_job
cancelled_now = refl

abbrev broken : Diagnostic
broken = record { code = bytes "processing_error"; message = bytes "job processing failed" }

broken_passes : Passed (validate_diagnostic broken)
unfolding runs validate_diagnostic valid_diagnostic_code
broken_passes = refl

cancel_refuses_workers_example :
    (heartbeat live (bytes "acme") (bytes "job-1") (bytes "w") (pos 50) 120 after_cancel
      ≡ (err job_cancelled, after_cancel))
    × (advance_stage live
          (bytes "acme")
          (bytes "job-1")
          (bytes "w")
          canonical_persistence
          no_counts
          120
          after_cancel
        ≡ (err job_cancelled, after_cancel))
    × (complete live (bytes "acme") (bytes "job-1") (bytes "w") no_counts 120 after_cancel
        ≡ (err job_cancelled, after_cancel))
    × (mark_partial live
          (bytes "acme")
          (bytes "job-1")
          (bytes "w")
          canonical_persistence
          broken
          no_counts
          120
          after_cancel
        ≡ (err job_cancelled, after_cancel))
    × (fail live (bytes "acme") (bytes "job-1") (bytes "w") broken 120 after_cancel
        ≡ (err job_cancelled, after_cancel))
unfolding validate_lease validate_identifier valid_stage validate_counts trim_space has_control
cancel_refuses_workers_example =
    cancel_refuses_workers (bytes "acme") (bytes "job-1") 105 opened (cancelled_job 105 taken_job)
      after_cancel (bytes "w") (pos 50) canonical_persistence broken no_counts 120 opening-IsNamed
      cancelled_now refl refl broken_passes refl

identity_key_iff_example : (identity_key first_job ≡ identity_key second_job) ↔ (
    (first_job.organization_id ≡ second_job.organization_id)
    × (first_job.source_external_id ≡ second_job.source_external_id)
    × (first_job.snapshot_external_id ≡ second_job.snapshot_external_id)
    × (first_job.factual_digest ≡ second_job.factual_digest))
unfolding runs
identity_key_iff_example = identity_key_iff first_job second_job refl refl

abbrev pub advance_to : JobStage → Request
advance_to stage =
    Request.advance_stage live (bytes "acme") (bytes "job-1") (bytes "w") stage no_counts

abbrev to_the_end : List (ℕ × Request)
to_the_end =
    (110, Request.claim live (bytes "acme") (bytes "w") (pos 50))
    ∷ (120, advance_to canonical_persistence)
    ∷ (121, advance_to textual_projection)
    ∷ (122, advance_to relational_projection)
    ∷ (123, advance_to embedding_projection)
    ∷ (124, advance_to activation)
    ∷ (125, Request.complete live (bytes "acme") (bytes "job-1") (bytes "w") no_counts)
    ∷ []

abbrev finished_job : Job
finished_job = record first_job {
  state = completed;
  stage = activation;
  attempt_count = pos 1;
  started_at = some 110;
  finished_at = some 125;
}

to_the_end_completes :
    lookup (bytes "job-1") (serve_all to_the_end after_create).jobs ≡ some finished_job
unfolding runs advance_stage advance_update complete complete_update completed_job running_job
    stage_transition_allowed stage_index monotonic_counts find require_lease
to_the_end_completes = refl

after_create-first : lookup (bytes "job-1") after_create.jobs ≡ some first_job
unfolding runs
after_create-first = refl

pub after_create-IsNamed : IsNamed after_create
unfolding serve create serve_all
after_create-IsNamed =
    serve_all-IsNamed ((100, Request.create live first_job) ∷ []) new_memory_store
      new_memory_store-IsNamed

completion_takes_seven_example : 7 ≤ length to_the_end
completion_takes_seven_example =
    completion_takes_seven to_the_end after_create (bytes "job-1") first_job finished_job
      after_create-IsNamed after_create-first refl refl to_the_end_completes refl

abbrev sixteen : List ℕ
sixteen =
    0 ∷ 17 ∷ 34 ∷ 51 ∷ 68 ∷ 85 ∷ 102 ∷ 119 ∷ 136 ∷ 153 ∷ 170 ∷ 187 ∷ 204 ∷ 221 ∷ 238 ∷ 255 ∷ []

is_uuid-new_uuid_example : (id : Str) × (new_uuid (some sixteen) ≡ some id) × (is_uuid id ≡ true)
is_uuid-new_uuid_example = is_uuid-new_uuid sixteen refl (
  omega arith,
  (
    omega arith,
    (
      omega arith,
      (
        omega arith,
        (
          omega arith,
          (
            omega arith,
            (
              omega arith,
              (
                omega arith,
                (
                  omega arith,
                  (
                    omega arith,
                    (
                      omega arith,
                      (omega arith, (omega arith, (omega arith, (omega arith, (omega arith, tt))))),
                    ),
                  ),
                ),
              ),
            ),
          ),
        ),
      ),
    ),
  ),
)

snapshot-IsOrdered_example :
    IsOrdered (sorted_jobs waiting_jobs) × Perm (sorted_jobs waiting_jobs) (values waiting_jobs)
snapshot-IsOrdered_example = snapshot-IsOrdered waiting_jobs

abbrev input : NewJobInput
input = record {
  id = bytes "job-3";
  organization_id = bytes "acme";
  organization_external_id = [];
  organization_name = [];
  source_id = [];
  snapshot_id = [];
  source_external_id = bytes "third";
  snapshot_external_id = bytes "snapshot";
  factual_digest = first_job.factual_digest;
  analysis_configuration_id = bytes "default";
  created_at = 0;
}

abbrev third_job : Job
third_job = pending_job 100 input (bytes "job-3")

third_made : new_job none 100 input ≡ ok third_job
unfolding runs new_job pending_job choose_id
third_made = refl

create-new_job_example :
    create live 130 third_job two_waiting ≡ (ok third_job, add_job third_job two_waiting)
unfolding runs pending_job
create-new_job_example =
    create-new_job none 100 130 input third_job two_waiting third_made refl refl
