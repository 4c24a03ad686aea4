-- ===== src/Ingestion/Job.antt =====
-- The job record of internal/ingestion/jobs.go, its states, stages, counters and diagnostic.
pub mod Validate
pub mod New
pub mod Stage
use manu.Base.{
  ℕ, Bool, true, false, ◌≡◌, Option, none, some, ◌&&◌, not, Str, bytes, str_eq, ℤ, pos, negsuc,
  is_negative, leb, length, has_control, take, trim_space, if◌then◌else◌, increment, ◌==◌, ◌||◌,
}
use manu.Ingestion.Result.{Result, ok, err, ◌>>◌, ◌>>=◌, guard, invalid_job}
use manu.Ingestion.Text.{
  valid_diagnostic_code, max_diagnostic_code_length, max_diagnostic_message_length,
}

-- A Go string type: `other` holds any text outside the durable vocabulary, `other []` the empty one.
pub data JobState : Type 0 where
  pending running completed partial failed : JobState
  other : Str → JobState

pub data JobStage : Type 0 where
  validation canonical_persistence textual_projection : JobStage
  relational_projection embedding_projection activation : JobStage
  other : Str → JobStage

unfoldable pub valid_state : JobState → Bool
valid_state (JobState.other s) = false
valid_state _ = true

unfoldable pub valid_stage : JobStage → Bool
valid_stage (JobStage.other s) = false
valid_stage _ = true

abbrev pub is_pending : JobState → Bool
is_pending pending = true
is_pending _ = false

abbrev pub is_running : JobState → Bool
is_running running = true
is_running _ = false

abbrev pub is_completed : JobState → Bool
is_completed completed = true
is_completed _ = false

abbrev pub is_partial : JobState → Bool
is_partial partial = true
is_partial _ = false

abbrev pub is_failed : JobState → Bool
is_failed failed = true
is_failed _ = false

abbrev pub is_validation : JobStage → Bool
is_validation validation = true
is_validation _ = false

abbrev pub is_embedding_projection : JobStage → Bool
is_embedding_projection embedding_projection = true
is_embedding_projection _ = false

abbrev pub is_activation : JobStage → Bool
is_activation activation = true
is_activation _ = false

pub record JobCounts : Type 0 where
  pub artifact_count : ℤ
  pub observation_count : ℤ
  pub evidence_count : ℤ
  pub failure_count : ℤ

unfoldable pub validate_counts : JobCounts → Result (Unit {0})
validate_counts c =
    guard
      (not (
        is_negative c.artifact_count
        || is_negative c.observation_count
        || is_negative c.evidence_count
        || is_negative c.failure_count))
      invalid_job

pub record Diagnostic : Type 0 where
  pub code : Str
  pub message : Str

unfoldable pub validate_diagnostic : Diagnostic → Result (Unit {0})
validate_diagnostic d = do
  guard (valid_diagnostic_code d.code && leb (length d.code) max_diagnostic_code_length) invalid_job
  guard (leb (length d.message) max_diagnostic_message_length && not (has_control d.message))
      invalid_job

unfoldable pub new_safe_diagnostic : Str → Str → Result Diagnostic
new_safe_diagnostic code message =
    let trimmed = trim_space message in
    let diagnostic : Diagnostic = record {
      code = trim_space code;
      message =
          if leb (length trimmed) max_diagnostic_message_length
          then trimmed
          else take max_diagnostic_message_length trimmed;
    } in
    validate_diagnostic diagnostic >> ok diagnostic

-- Instants count from Go's zero time, which is 0. A pointer to a time is an `Option`.
pub record Job : Type 0 where
  pub id : Str
  pub organization_id : Str
  pub organization_external_id : Str
  pub organization_name : Str
  pub source_id : Str
  pub snapshot_id : Str
  pub source_external_id : Str
  pub snapshot_external_id : Str
  pub factual_digest : Str
  pub analysis_configuration_id : Str
  pub state : JobState
  pub stage : JobStage
  pub attempt_count : ℤ
  pub lease_owner : Str
  pub lease_expires_at : Option ℕ
  pub cancel_requested : Bool
  pub diagnostic_code : Str
  pub diagnostic_message : Str
  pub counts : JobCounts
  pub created_at : ℕ
  pub started_at : Option ℕ
  pub finished_at : Option ℕ

-- A method that returns a copy of a job returns the job: values of the model are not shared, and
-- `cloneJob` is the identity.
abbrev pub clone_job : Job → Job
clone_job job = job

abbrev pub no_counts : JobCounts
no_counts = record {
  artifact_count = pos 0;
  observation_count = pos 0;
  evidence_count = pos 0;
  failure_count = pos 0;
}
