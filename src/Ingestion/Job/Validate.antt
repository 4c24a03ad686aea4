-- ===== src/Ingestion/Job/Validate.antt =====
-- Job.Validate and NewJob of internal/ingestion/jobs.go.
pub mod Parts
use manu.Base.{
  ℕ, Bool, true, false, Option, none, some, ◌&&◌, ◌||◌, not, List, [], ◌∷◌, Str, is_empty,
  is_negative, is_positive, is_zero, ltb, ◌==◌, has_control, if◌then◌else◌,
}
use manu.Ingestion.Result.{Result, ok, ◌>>◌, guard, invalid_job}
use manu.Ingestion.Text.{validate_identifier, is_uuid, is_lower_sha256}
use manu.Ingestion.Job.{
  JobState, pending, running, completed, partial, failed, valid_state, valid_stage, is_running,
  is_failed, validate_counts, validate_diagnostic, Job,
}

-- The loop over the required identifiers.
unfoldable pub validate_required : List Str → Result (Unit {0})
validate_required [] = ok tt
validate_required (value ∷ rest) = validate_identifier value >> validate_required rest

abbrev pub required_fields : Job → List Str
required_fields j =
    j.id ∷ j.organization_id ∷ j.source_external_id ∷ j.snapshot_external_id
    ∷ j.analysis_configuration_id ∷ []

unfoldable pub validate_optional_names : Job → Result (Unit {0})
validate_optional_names j = do
  if not (is_empty j.organization_external_id)
      then validate_identifier j.organization_external_id
      else ok tt
  guard (not (has_control j.organization_name)) invalid_job

unfoldable pub validate_names : Job → Result (Unit {0})
unfolding validate_required validate_optional_names
validate_names j = do validate_required (required_fields j); validate_optional_names j

unfoldable pub validate_references : Job → Result (Unit {0})
validate_references j = do
  guard (not (is_empty j.source_id && not (is_empty j.snapshot_id))) invalid_job
  guard (is_empty j.source_id || is_uuid j.source_id) invalid_job
  guard (is_empty j.snapshot_id || is_uuid j.snapshot_id) invalid_job
  guard (not (is_empty j.factual_digest) && is_lower_sha256 j.factual_digest) invalid_job

abbrev pub is_some {ℓ} : {A : Type ℓ} → Option A → Bool
is_some none = false
is_some (some a) = true

-- `at != nil && at.Before(bound)`
abbrev pub set_before : Option ℕ → ℕ → Bool
set_before none bound = false
set_before (some at) bound = ltb at bound

-- `first != nil && last != nil && last.Before(*first)`
abbrev pub both_before : Option ℕ → Option ℕ → Bool
both_before last none = false
both_before last (some first) = set_before last first

abbrev pub set_to_zero : Option ℕ → Bool
set_to_zero none = false
set_to_zero (some at) = at == 0

unfoldable pub validate_times : Job → Result (Unit {0})
validate_times j = do
  guard (valid_state j.state && valid_stage j.stage) invalid_job
  guard (not (j.created_at == 0)) invalid_job
  guard (not (set_before j.started_at j.created_at)) invalid_job
  guard (not (set_before j.finished_at j.created_at)) invalid_job
  guard (not (both_before j.finished_at j.started_at)) invalid_job

unfoldable pub validate_lease_fields : Job → Result (Unit {0})
validate_lease_fields j = do
  guard (is_empty j.lease_owner || is_running j.state) invalid_job
  guard (not (is_some j.lease_expires_at) || is_running j.state) invalid_job
  guard (not (set_to_zero j.lease_expires_at)) invalid_job
  guard (not (is_some j.lease_expires_at && is_empty j.lease_owner)) invalid_job

-- The `switch` on the state.
unfoldable pub validate_switch : JobState → Job → Result (Unit {0})
validate_switch pending j =
    guard
      (is_zero j.attempt_count
        && not (is_some j.started_at)
        && not (is_some j.finished_at)
        && is_empty j.lease_owner
        && not (is_some j.lease_expires_at))
      invalid_job
validate_switch running j =
    guard
      (is_positive j.attempt_count
        && not (is_some j.finished_at)
        && not j.cancel_requested
        && is_empty j.diagnostic_code
        && is_empty j.diagnostic_message)
      invalid_job
validate_switch completed j =
    guard
      (is_some j.finished_at
        && is_empty j.lease_owner
        && not (is_some j.lease_expires_at)
        && not j.cancel_requested
        && is_empty j.diagnostic_code
        && is_empty j.diagnostic_message)
      invalid_job
validate_switch partial j = do
  guard (is_some j.finished_at && is_empty j.lease_owner && not (is_some j.lease_expires_at))
      invalid_job
  guard (not (is_empty j.diagnostic_code)) invalid_job
validate_switch failed j = do
  guard (is_some j.finished_at && is_empty j.lease_owner && not (is_some j.lease_expires_at))
      invalid_job
  guard (not (is_empty j.diagnostic_code)) invalid_job
validate_switch (JobState.other s) j = ok tt

unfoldable pub validate_details : Job → Result (Unit {0})
validate_details j = do
  guard (not (is_negative j.attempt_count)) invalid_job
  validate_counts j.counts
  if not (is_empty j.diagnostic_code)
      then validate_diagnostic (record { code = j.diagnostic_code; message = j.diagnostic_message })
      else guard (is_empty j.diagnostic_message) invalid_job
  guard (not (j.cancel_requested && not (is_failed j.state))) invalid_job

unfoldable pub validate : Job → Result (Unit {0})
unfolding validate_names validate_references validate_times validate_lease_fields validate_switch
    validate_details
validate j = do
  validate_names j
  validate_references j
  validate_times j
  validate_lease_fields j
  validate_switch j.state j
  validate_details j
