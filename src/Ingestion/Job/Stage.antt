-- ===== src/Ingestion/Job/Stage.antt =====
-- The order of stages and of counters in internal/ingestion/jobs.go.
use manu.Base.{Bool, false, not, ◌||◌, str_eq, ◌==◌, ℤ, pos, negsuc, ltb_ℤ, increment}
use manu.Ingestion.Result.{Result, guard, job_state}
use manu.Ingestion.Job.{
  JobStage, validation, activation, canonical_persistence, textual_projection,
  relational_projection, embedding_projection, JobCounts,
}

unfoldable pub stage_index : JobStage → ℤ
stage_index validation = pos 0
stage_index canonical_persistence = pos 1
stage_index textual_projection = pos 2
stage_index relational_projection = pos 3
stage_index embedding_projection = pos 4
stage_index activation = pos 5
stage_index (JobStage.other s) = negsuc 0

abbrev eq_ℤ : ℤ → ℤ → Bool
eq_ℤ (pos a) (pos b) = a == b
eq_ℤ (negsuc a) (negsuc b) = a == b
eq_ℤ _ _ = false

stage_eq : JobStage → JobStage → Bool
unfolding stage_index
stage_eq (JobStage.other s) (JobStage.other t) = str_eq s t
stage_eq from to = eq_ℤ (stage_index from) (stage_index to)

unfoldable pub stage_transition_allowed : JobStage → JobStage → Bool
unfolding stage_index stage_eq
stage_transition_allowed from to =
    stage_eq from to || eq_ℤ (stage_index to) (increment (stage_index from))

unfoldable pub monotonic_counts : JobCounts → JobCounts → Result (Unit {0})
monotonic_counts counts next =
    guard
      (not (
        ltb_ℤ next.artifact_count counts.artifact_count
        || ltb_ℤ next.observation_count counts.observation_count
        || ltb_ℤ next.evidence_count counts.evidence_count
        || ltb_ℤ next.failure_count counts.failure_count))
      job_state
