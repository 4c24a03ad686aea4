-- ===== src/Ingestion/Store/Steps/Soundness.antt =====
-- Sound jobs, and that Claim, Heartbeat, AdvanceStage and Complete leave a job sound.
use manu.Base.{
  ℕ, suc, ◌≤◌, ◌<◌, ◌≡◌, true, false, some, none, Option, Str, is_empty, ℤ, pos_part, max_int64,
  arith,
}
use manu.Ingestion.Result.{Passed}
use manu.Ingestion.Text.{valid_diagnostic_code}
use manu.Ingestion.Job.{
  Job, JobStage, JobCounts, Diagnostic, validate_counts, validate_diagnostic, valid_stage,
  valid_state,
}
use manu.Ingestion.Job.Validate.{
  validate_names, validate_references, validate_times, validate_lease_fields, validate_switch,
  validate_details,
}
use manu.Ingestion.Job.Validate.Parts.{IsValid}
use manu.Ingestion.Store.Selection.{claimable}
use manu.Ingestion.Store.Lease.{add_duration, claimed_job}
use manu.Ingestion.Store.Progress.{completed_job}
use manu.Ingestion.Store.Steps.{Holds, Asks}

-- The times of a job lie no later than `t`, and it was attempted `n` times at most.
abbrev pub By : ℕ → Option ℕ → Type 0
By t none = Unit
By t (some at) = at ≤ t

pub record IsSound (n t : ℕ) (j : Job) : Type 0 where
  pub valid : IsValid j
  pub created : j.created_at ≤ t
  pub started : By t j.started_at
  pub attempts : pos_part j.attempt_count ≤ n

pub code_named : (d : Diagnostic) → Passed (validate_diagnostic d) → is_empty d.code ≡ false
unfolding validate_diagnostic valid_diagnostic_code
code_named d h = ground arith

module _ (n t now : ℕ) (j : Job) (s : IsSound n t j) (later : t ≤ now) (few : n < max_int64) where
  pub take-IsSound :
      (owner : Str) (lease : ℤ)
      → Asks owner lease
      → claimable j now ≡ true
      → j.cancel_requested ≡ false
      → IsSound (suc n) now (claimed_job owner lease now j)
  unfolding claimed_job claimable valid_state valid_stage
  take-IsSound owner lease asks free kept = record {
    valid = record {
      names = unfold validate_names in s.valid.names;
      references = unfold validate_references in s.valid.references;
      times = unfold validate_times in ground (arith, s.valid.times);
      lease = unfold validate_lease_fields in ground (arith, s.valid.lease);
      switch =
          unfold validate_switch validate_details in
          ground (arith, s.valid.switch, s.valid.details);
      details =
          unfold validate_details validate_switch in
          ground (arith, s.valid.details, s.valid.switch);
    };
    created = omega arith;
    started = ground arith;
    attempts = ground arith;
  }

  pub renew-IsSound :
      (owner : Str) (lease : ℤ)
      → Asks owner lease
      → Holds owner now j
      → IsSound (suc n) now (record j { lease_expires_at = some (add_duration now lease) })
  unfolding validate_times
  renew-IsSound owner lease asks holds = record {
    valid = record {
      names = unfold validate_names in s.valid.names;
      references = unfold validate_references in s.valid.references;
      times = unfold validate_times in ground (arith, s.valid.times);
      lease =
          unfold validate_lease_fields in
          ground (arith, s.valid.lease, holds.is_running, holds.owned);
      switch =
          unfold validate_switch validate_details in
          ground (arith, s.valid.switch, s.valid.details);
      details =
          unfold validate_details validate_switch in
          ground (arith, s.valid.details, s.valid.switch);
    };
    created = omega arith;
    started = ground arith;
    attempts = ground arith;
  }

  pub advance-IsSound :
      (owner : Str) (stage : JobStage) (counts : JobCounts)
      → Holds owner now j
      → valid_stage stage ≡ true
      → Passed (validate_counts counts)
      → IsSound (suc n) now (record j { stage = stage; counts = counts })
  unfolding validate_times
  advance-IsSound owner stage counts holds valid counted = record {
    valid = record {
      names = unfold validate_names in s.valid.names;
      references = unfold validate_references in s.valid.references;
      times = unfold validate_times in ground (arith, s.valid.times);
      lease = unfold validate_lease_fields in ground (arith, s.valid.lease);
      switch =
          unfold validate_switch validate_details in
          ground (arith, s.valid.switch, s.valid.details);
      details =
          unfold validate_details validate_switch in
          ground (arith, s.valid.details, s.valid.switch);
    };
    created = omega arith;
    started = ground arith;
    attempts = ground arith;
  }

  pub finish-IsSound :
      (owner : Str) (counts : JobCounts)
      → Holds owner now j
      → Passed (validate_counts counts)
      → IsSound (suc n) now (completed_job counts now j)
  unfolding completed_job valid_state valid_stage
  finish-IsSound owner counts holds counted = record {
    valid = record {
      names = unfold validate_names in s.valid.names;
      references = unfold validate_references in s.valid.references;
      times = unfold validate_times in ground (arith, s.valid.times);
      lease = unfold validate_lease_fields in ground (arith, s.valid.lease);
      switch =
          unfold validate_switch validate_details in
          ground (arith, s.valid.switch, s.valid.details);
      details =
          unfold validate_details validate_switch in
          ground (arith, s.valid.details, s.valid.switch);
    };
    created = omega arith;
    started = ground arith;
    attempts = ground arith;
  }
