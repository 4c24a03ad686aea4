-- ===== src/Ingestion/Examples/Executions.antt =====
-- The theorems on the executor, at concrete turns.
use manu.Base.{ℕ, ◌≡◌, refl, none, some, List, [], ◌∷◌, bytes, lookup, pos, arith}
use manu.Ingestion.Result.{live, context_canceled, foreign, job_processing}
use manu.Ingestion.Job.{
  Job, completed, canonical_persistence, textual_projection, relational_projection,
  embedding_projection, activation,
}
use manu.Ingestion.Job.Stage.{stage_transition_allowed, stage_index, monotonic_counts}
use manu.Ingestion.Store.{MemoryStore, find, get}
use manu.Ingestion.Store.Lease.{require_lease, heartbeat, heartbeat_job}
use manu.Ingestion.Store.Progress.{
  advance_stage, advance_update, complete, complete_update, completed_job, running_job,
}
use manu.Ingestion.Store.Steps.{Request, serve_all, Holds}
use manu.Ingestion.Store.Evolution.{serve_all-IsNamed}
use manu.Ingestion.Executor.{tick, others, Turn, beat_during, conclude, publish, process}
use manu.Ingestion.Executor.Options.{ExecutorOptions}
use manu.Ingestion.Executor.Outcome.{Published, process_nil}
use manu.Ingestion.Executor.Recorded.{
  memory, broken_job, process_completes, process_records_failure,
}
use manu.Ingestion.Executor.Workers.{Round}
use manu.Ingestion.Examples.{taken_job, opened, opening-IsNamed, runs}
use manu.Ingestion.Examples.Operations.{advance_to}

abbrev asked : ExecutorOptions
asked = record {
  organization_id = bytes "acme";
  workers = pos 0;
  lease_duration = pos 50;
  heartbeat_interval = pos 0;
  poll_interval = pos 0;
  owner = bytes " ";
}

abbrev made : ExecutorOptions
made = record asked {
  workers = pos 1;
  heartbeat_interval = pos 16;
  poll_interval = pos 100_000_000;
  owner = bytes "executor";
}

-- The handler moves the job through its stages, and the heartbeat ticks once.
abbrev stages : List (ℕ × Request)
stages =
    (120, advance_to canonical_persistence)
    ∷ (121, advance_to textual_projection)
    ∷ (122, advance_to relational_projection)
    ∷ (123, advance_to embedding_projection)
    ∷ (124, advance_to activation)
    ∷ []

abbrev good_turn : Turn MemoryStore
good_turn = record {
  during = tick live 115 ∷ others (serve_all stages) ∷ [];
  handled = none;
  after = none;
  cleanup_context = live;
  fail_at = 130;
  get_context = live;
  between = λ s. s;
  complete_context = live;
  complete_at = 131;
}

abbrev good_end : MemoryStore
good_end = (process memory made (bytes "w") taken_job good_turn opened).1

good_turn_completes : process memory made (bytes "w") taken_job good_turn opened ≡ (none, good_end)
unfolding runs process beat_during conclude publish memory heartbeat heartbeat_job get find
    advance_stage advance_update complete complete_update completed_job running_job require_lease
    stage_transition_allowed stage_index monotonic_counts
good_turn_completes = refl

process_nil_example :
    Published memory
      (bytes "w")
      taken_job
      good_turn
      (beat_during memory made (bytes "w") taken_job good_turn.during opened).0
      (beat_during memory made (bytes "w") taken_job good_turn.during opened).1
      good_end
process_nil_example =
    process_nil memory (bytes "w") taken_job good_turn made opened good_end good_turn_completes

process_completes_example :
    (done : Job) × (lookup (bytes "job-1") good_end.jobs ≡ some done)
    × (done.state ≡ completed)
    × (done.organization_id ≡ bytes "acme")
    × (good_turn.handled ≡ none)
process_completes_example =
    process_completes made (bytes "w") taken_job good_turn opened good_end opening-IsNamed
      (tt, ((λ s named. serve_all-IsNamed stages s named), tt)) (λ s named. named)
      good_turn_completes

abbrev bad_turn : Turn MemoryStore
bad_turn = record good_turn { during = []; handled = some foreign }

bad_turn-Holds : Holds (bytes "w") 130 taken_job
bad_turn-Holds = record {
  is_running = refl;
  owned = refl;
  named = refl;
  until = 160;
  leased = refl;
  in_time = omega arith;
}

opened_claims : lookup (bytes "job-1") opened.jobs ≡ some taken_job
unfolding runs
opened_claims = refl

process_records_failure_example :
    ((process memory made (bytes "w") taken_job bad_turn opened).0 ≡ some job_processing)
    × (lookup (bytes "job-1") (process memory made (bytes "w") taken_job bad_turn opened).1.jobs
        ≡ some (broken_job 130 taken_job))
unfolding beat_during
process_records_failure_example =
    process_records_failure made (bytes "w") taken_job taken_job bad_turn opened foreign refl refl
      refl refl refl opened_claims refl refl bad_turn-Holds

abbrev bad_round : Round MemoryStore
bad_round = record {
  begins = none;
  claim_context = live;
  claim_at = 200;
  turn = bad_turn;
  waited = none;
}

abbrev last_round : Round MemoryStore
last_round = record bad_round { begins = some context_canceled }

abbrev a_failure : List (Round MemoryStore)
a_failure = bad_round ∷ []
