-- ===== src/Ingestion/Job/New.antt =====
-- NewJob of internal/ingestion/jobs.go.
use manu.Base.{
  ℕ, false, Option, none, some, List, [], Str, is_empty, trim_space, ◌==◌, if◌then◌else◌, pos,
}
use manu.Ingestion.Result.{Result, ok, err, ◌>>◌, ◌>>=◌, invalid_job}
use manu.Ingestion.Text.{new_uuid}
use manu.Ingestion.Job.{pending, validation, Job, no_counts}
use manu.Ingestion.Job.Validate.{validate}

pub record NewJobInput : Type 0 where
  pub id : Str
  pub organization_id : Str
  pub organization_external_id : Str
  pub organization_name : Str
  pub source_id : Str
  pub snapshot_id : Str
  pub source_external_id : Str
  pub snapshot_external_id : Str
  pub factual_digest : Str
  pub analysis_configuration_id : Str
  pub created_at : ℕ

-- The given identity, or a random one where none is given.
unfoldable pub choose_id : Option (List ℕ) → Str → Result Str
choose_id random id =
    if is_empty id
    then elim (new_uuid random) [ none ↦ err invalid_job | some fresh ↦ ok fresh ]
    else ok id

unfoldable pub pending_job : ℕ → NewJobInput → Str → Job
pending_job now input id = record {
  id = id;
  organization_id = trim_space input.organization_id;
  organization_external_id = trim_space input.organization_external_id;
  organization_name = trim_space input.organization_name;
  source_id = trim_space input.source_id;
  snapshot_id = trim_space input.snapshot_id;
  source_external_id = trim_space input.source_external_id;
  snapshot_external_id = trim_space input.snapshot_external_id;
  factual_digest = input.factual_digest;
  analysis_configuration_id = trim_space input.analysis_configuration_id;
  state = pending;
  stage = validation;
  attempt_count = pos 0;
  lease_owner = [];
  lease_expires_at = none;
  cancel_requested = false;
  diagnostic_code = [];
  diagnostic_message = [];
  counts = no_counts;
  created_at = if input.created_at == 0 then now else input.created_at;
  started_at = none;
  finished_at = none;
}

-- `random` is what rand.Read delivers and `now` what time.Now returns.
unfoldable pub new_job : Option (List ℕ) → ℕ → NewJobInput → Result Job
unfolding choose_id pending_job
new_job random now input = do
  id ← choose_id random (trim_space input.id)
  let job = pending_job now input id
  validate job
  ok job
