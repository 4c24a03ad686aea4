-- ===== src/Ingestion/Store/Steps/Validity.antt =====
-- A transition takes a valid job to a valid job.
use manu.Base.{
  ℕ, suc, ◌≤◌, ◌<◌, ◌≡◌, sym, subst, true, false, Str, ℤ, ◌⊎◌, has_control, max_int64, arith,
}
use manu.Ingestion.Result.{Passed}
use manu.Ingestion.Text.{valid_diagnostic_code}
use manu.Ingestion.Job.{
  pending, running, partial, failed, embedding_projection, Job, JobStage, JobCounts, Diagnostic,
  validate_counts, validate_diagnostic, valid_stage, valid_state,
}
use manu.Ingestion.Job.Validate.{
  validate_names, validate_references, validate_times, validate_lease_fields, validate_switch,
  validate_details,
}
use manu.Ingestion.Store.Lease.{resumed_job}
use manu.Ingestion.Store.Progress.{ended_job, cancelled_job}
use manu.Ingestion.Store.Steps.{
  Holds, Asks, Transition, take, renew, advance, finish, pause, resume, give_up, stop,
}
use manu.Ingestion.Store.Steps.Soundness.{
  IsSound, code_named, take-IsSound, renew-IsSound, advance-IsSound, finish-IsSound,
}

module _ (n t now : ℕ) (j : Job) (s : IsSound n t j) (later : t ≤ now) (few : n < max_int64) where
  resume-IsSound :
      (owner : Str) (lease : ℤ)
      → Asks owner lease
      → j.state ≡ partial
      → j.stage ≡ embedding_projection
      → j.cancel_requested ≡ false
      → IsSound (suc n) now (resumed_job owner lease now j)
  unfolding resumed_job valid_state valid_stage
  resume-IsSound owner lease asks paused at kept = record {
    valid = record {
      names = unfold validate_names in s.valid.names;
      references = unfold validate_references in s.valid.references;
      times = unfold validate_times in ground (arith, s.valid.times);
      lease = unfold validate_lease_fields in ground (arith, s.valid.lease);
      switch =
          unfold validate_switch validate_details in
          ground (arith, s.valid.switch, s.valid.details);
      details =
          unfold validate_details validate_switch in
          ground (arith, s.valid.details, s.valid.switch);
    };
    created = omega arith;
    started = ground arith;
    attempts = ground arith;
  }

  pause-IsSound :
      (owner : Str) (stage : JobStage) (diagnostic : Diagnostic) (counts : JobCounts)
      → Holds owner now j
      → valid_stage stage ≡ true
      → Passed (validate_diagnostic diagnostic)
      → Passed (validate_counts counts)
      → IsSound (suc n) now (ended_job partial stage diagnostic counts now j)
  unfolding ended_job valid_state
  pause-IsSound owner stage diagnostic counts holds valid safe counted = record {
    valid = record {
      names = unfold validate_names in s.valid.names;
      references = unfold validate_references in s.valid.references;
      times = unfold validate_times in ground (arith, s.valid.times);
      lease = unfold validate_lease_fields in ground (arith, s.valid.lease);
      switch =
          unfold validate_switch validate_details in
          ground (arith, s.valid.switch, s.valid.details, code_named diagnostic safe);
      details =
          unfold validate_details validate_switch in
          ground (arith, s.valid.details, s.valid.switch, code_named diagnostic safe);
    };
    created = omega arith;
    started = ground arith;
    attempts = ground arith;
  }

  give_up-IsSound :
      (owner : Str) (diagnostic : Diagnostic)
      → Holds owner now j
      → Passed (validate_diagnostic diagnostic)
      → IsSound (suc n) now (ended_job failed j.stage diagnostic j.counts now j)
  unfolding ended_job valid_state
  give_up-IsSound owner diagnostic holds safe = record {
    valid = record {
      names = unfold validate_names in s.valid.names;
      references = unfold validate_references in s.valid.references;
      times = unfold validate_times in ground (arith, s.valid.times);
      lease = unfold validate_lease_fields in ground (arith, s.valid.lease);
      switch =
          unfold validate_switch validate_details in
          ground (arith, s.valid.switch, s.valid.details, code_named diagnostic safe);
      details =
          unfold validate_details validate_switch in
          ground (arith, s.valid.details, s.valid.switch, code_named diagnostic safe);
    };
    created = omega arith;
    started = ground arith;
    attempts = ground arith;
  }

  stop-IsSound :
      (j.state ≡ pending) ⊎ (j.state ≡ running) → IsSound (suc n) now (cancelled_job now j)
  unfolding cancelled_job valid_state validate_diagnostic valid_diagnostic_code has_control
  stop-IsSound open_state = record {
    valid = record {
      names = unfold validate_names in s.valid.names;
      references = unfold validate_references in s.valid.references;
      times = unfold validate_times in ground (arith, s.valid.times);
      lease = unfold validate_lease_fields in ground (arith, s.valid.lease);
      switch =
          unfold validate_switch validate_details in
          ground (arith, s.valid.switch, s.valid.details);
      details =
          unfold validate_details validate_switch in
          ground (arith, s.valid.details, s.valid.switch);
    };
    created = omega arith;
    started = ground arith;
    attempts = ground arith;
  }

-- A step of a sound job at an instant that is not earlier leaves it sound.
pub Transition-IsSound :
    (n t now : ℕ) (j j' : Job)
    → IsSound n t j
    → t ≤ now
    → n < max_int64
    → Transition now j j'
    → IsSound (suc n) now j'
Transition-IsSound n t now j j' s later few (take owner lease asks free kept e) =
    subst (IsSound (suc n) now) (sym e)
      (take-IsSound n t now j s later few owner lease asks free kept)
Transition-IsSound n t now j j' s later few (renew owner lease asks holds e) =
    subst (IsSound (suc n) now) (sym e) (renew-IsSound n t now j s later few owner lease asks holds)
Transition-IsSound n t now j j' s later few
      (advance owner stage counts holds valid allowed counted e) =
    subst (IsSound (suc n) now) (sym e)
      (advance-IsSound n t now j s later few owner stage counts holds valid counted.counted)
Transition-IsSound n t now j j' s later few (finish owner counts holds at counted e) =
    subst (IsSound (suc n) now) (sym e)
      (finish-IsSound n t now j s later few owner counts holds counted.counted)
Transition-IsSound n t now j j' s later few
      (pause owner stage diagnostic counts holds valid allowed safe counted e) =
    subst (IsSound (suc n) now) (sym e) (
      pause-IsSound n t now j s later few owner stage diagnostic counts holds valid safe
        counted.counted)
Transition-IsSound n t now j j' s later few (resume owner lease asks paused at kept e) =
    subst (IsSound (suc n) now) (sym e)
      (resume-IsSound n t now j s later few owner lease asks paused at kept)
Transition-IsSound n t now j j' s later few (give_up owner diagnostic holds safe e) =
    subst (IsSound (suc n) now) (sym e)
      (give_up-IsSound n t now j s later few owner diagnostic holds safe)
Transition-IsSound n t now j j' s later few (stop open_state e) =
    subst (IsSound (suc n) now) (sym e) (stop-IsSound n t now j s later few open_state)
