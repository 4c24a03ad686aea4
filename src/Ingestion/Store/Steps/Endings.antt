-- ===== src/Ingestion/Store/Steps/Endings.antt =====
-- AdvanceStage, Complete, Partial and Fail of MemoryStore write what a transition gives.
use manu.Base.{ℕ, ◌≡◌, refl, true, some, Str, arith}
use manu.Ingestion.Result.{
  ok, Passed, Context, then-eq-ok, guard-eq-ok, invalid_job, job_state, check_context, ◌>>◌,
}
use manu.Ingestion.Job.{
  partial, JobStage, valid_stage, JobCounts, validate_counts, Diagnostic, validate_diagnostic, Job,
  is_activation,
}
use manu.Ingestion.Job.Stage.{stage_transition_allowed, monotonic_counts}
use manu.Ingestion.Store.{MemoryStore}
use manu.Ingestion.Store.Progress.{
  advance_update, complete_update, partial_update, fail_update, advance_stage_job, complete_job,
  mark_partial_job, fail_job, completed_job, ended_job,
}
use manu.Ingestion.Store.Steps.{Holds, advance, finish, pause, give_up}
use manu.Ingestion.Store.Steps.Moves.{Moved, Changes, running_job-Changes}

advance_update-moves :
    (owner : Str) (stage : JobStage) (counts : JobCounts) (now : ℕ)
    → valid_stage stage ≡ true
    → Passed (validate_counts counts)
    → (old new : Job) → Holds owner now old
    → advance_update stage counts old ≡ ok new
    → Moved now owner old new
unfolding advance_update
advance_update-moves owner stage counts now valid counted old new holds h =
    let (allowed, h₁) =
      guard-eq-ok (stage_transition_allowed old.stage stage) job_state
        (monotonic_counts old.counts counts >> ok (record old { stage = stage; counts = counts }))
        h in
    let (grown, e) =
      then-eq-ok (monotonic_counts old.counts counts)
        (ok (record old { stage = stage; counts = counts })) h₁ in
    record {
      by_transition =
          advance owner stage counts holds valid allowed
            (record { counted = counted; grown = grown }) (cc e);
      acted = refl {a = some owner};
    }

pub advance_stage-Changes :
    (ctx : Context) (organization id owner : Str) (stage : JobStage) (counts : JobCounts) (now : ℕ)
    (s : MemoryStore)
    → Changes now organization
        (some owner)
        s
        id
        (advance_stage_job ctx organization id owner stage counts now s)
unfolding advance_stage_job
advance_stage-Changes ctx organization id owner stage counts now s new h =
    let (_, h₁) = then-eq-ok (check_context ctx) _ h in
    let (valid, h₂) = guard-eq-ok (valid_stage stage) invalid_job _ h₁ in
    let (counted, h₃) = then-eq-ok (validate_counts counts) _ h₂ in
    running_job-Changes organization id owner now (advance_update stage counts) s
      (advance_update-moves owner stage counts now valid counted) new h₃

complete_update-moves :
    (owner : Str) (counts : JobCounts) (now : ℕ)
    → Passed (validate_counts counts)
    → (old new : Job) → Holds owner now old
    → complete_update counts now old ≡ ok new
    → Moved now owner old new
unfolding complete_update
complete_update-moves owner counts now counted old new holds h =
    let (at_end, h₁) =
      guard-eq-ok (is_activation old.stage) job_state
        (monotonic_counts old.counts counts >> ok (completed_job counts now old)) h in
    let (grown, e) =
      then-eq-ok (monotonic_counts old.counts counts) (ok (completed_job counts now old)) h₁ in
    record {
      by_transition =
          finish owner counts holds (ground arith) (record { counted = counted; grown = grown })
            (cc e);
      acted = refl {a = some owner};
    }

pub complete-Changes :
    (ctx : Context) (organization id owner : Str) (counts : JobCounts) (now : ℕ) (s : MemoryStore)
    → Changes now organization
        (some owner)
        s
        id
        (complete_job ctx organization id owner counts now s)
unfolding complete_job
complete-Changes ctx organization id owner counts now s new h =
    let (_, h₁) = then-eq-ok (check_context ctx) _ h in
    let (counted, h₂) = then-eq-ok (validate_counts counts) _ h₁ in
    running_job-Changes organization id owner now (complete_update counts now) s
      (complete_update-moves owner counts now counted) new h₂

partial_update-moves :
    (owner : Str) (stage : JobStage) (diagnostic : Diagnostic) (counts : JobCounts) (now : ℕ)
    → valid_stage stage ≡ true
    → Passed (validate_diagnostic diagnostic)
    → Passed (validate_counts counts)
    → (old new : Job) → Holds owner now old
    → partial_update stage diagnostic counts now old ≡ ok new
    → Moved now owner old new
unfolding partial_update
partial_update-moves owner stage diagnostic counts now valid safe counted old new holds h =
    let (allowed, h₁) =
      guard-eq-ok (stage_transition_allowed old.stage stage) job_state
        (monotonic_counts old.counts counts
          >> ok (ended_job partial stage diagnostic counts now old))
        h in
    let (grown, e) =
      then-eq-ok (monotonic_counts old.counts counts)
        (ok (ended_job partial stage diagnostic counts now old)) h₁ in
    record {
      by_transition =
          pause owner stage diagnostic counts holds valid allowed safe
            (record { counted = counted; grown = grown }) (cc e);
      acted = refl {a = some owner};
    }

pub mark_partial-Changes :
    (ctx : Context) (organization id owner : Str) (stage : JobStage) (diagnostic : Diagnostic)
    (counts : JobCounts) (now : ℕ) (s : MemoryStore)
    → Changes now organization
        (some owner)
        s
        id
        (mark_partial_job ctx organization id owner stage diagnostic counts now s)
unfolding mark_partial_job
mark_partial-Changes ctx organization id owner stage diagnostic counts now s new h =
    let (_, h₁) = then-eq-ok (check_context ctx) _ h in
    let (valid, h₂) = guard-eq-ok (valid_stage stage) invalid_job _ h₁ in
    let (safe, h₃) = then-eq-ok (validate_diagnostic diagnostic) _ h₂ in
    let (counted, h₄) = then-eq-ok (validate_counts counts) _ h₃ in
    running_job-Changes organization id owner now (partial_update stage diagnostic counts now) s
      (partial_update-moves owner stage diagnostic counts now valid safe counted) new h₄

pub fail-Changes :
    (ctx : Context) (organization id owner : Str) (diagnostic : Diagnostic) (now : ℕ)
    (s : MemoryStore)
    → Changes now organization
        (some owner)
        s
        id
        (fail_job ctx organization id owner diagnostic now s)
unfolding fail_job fail_update
fail-Changes ctx organization id owner diagnostic now s new h =
    let (_, h₁) = then-eq-ok (check_context ctx) _ h in
    let (safe, h₂) = then-eq-ok (validate_diagnostic diagnostic) _ h₁ in
    running_job-Changes organization id owner now (fail_update diagnostic now) s
      (λ old new' holds e. record {
        by_transition = give_up owner diagnostic holds safe (cc e);
        acted = refl {a = some owner};
      })
      new h₂
