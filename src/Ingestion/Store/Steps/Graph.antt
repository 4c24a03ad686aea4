-- ===== src/Ingestion/Store/Steps/Graph.antt =====
-- What a transition does to the state, the stage and the counters of a job.
use manu.Base.{[], ◌∷◌, ℕ, ◌≡◌, inl, inr, ◌≤ℤ◌, subst, sym, arith, true}
use manu.Ingestion.Job.{
  JobState, pending, running, completed, partial, failed, JobStage, JobCounts, Job,
}
use manu.Ingestion.Job.Stage.{stage_index, stage_transition_allowed, monotonic_counts}
use manu.Ingestion.Store.{default_stage}
use manu.Ingestion.Store.Selection.{claimable}
use manu.Ingestion.Store.Lease.{claimed_job, resumed_job}
use manu.Ingestion.Store.Progress.{completed_job, ended_job, cancelled_job}
use manu.Ingestion.Store.Steps.{
  Counted, Transition, take, renew, advance, finish, pause, resume, give_up, stop,
}

-- The life cycle: the states that may follow a state.
pub data Follows : JobState → JobState → Type 0 where
  claimed : Follows pending running
  withdrawn : Follows pending failed
  kept : Follows running running
  done : Follows running completed
  limited : Follows running partial
  broken : Follows running failed
  resumed : Follows partial running

claimable-Follows : (now : ℕ) (j : Job) → claimable j now ≡ true → Follows j.state running
unfolding claimable
claimable-Follows now j h = grind (arith, claimed, kept)

pub Transition-Follows : (now : ℕ) (j j' : Job) → Transition now j j' → Follows j.state j'.state
unfolding claimed_job resumed_job completed_job ended_job cancelled_job
Transition-Follows now j j' (take owner lease asks free k e) =
    subst (λ x. Follows j.state x.state) (sym e) (claimable-Follows now j free)
Transition-Follows now j j' (renew owner lease asks holds e) = grind (arith, kept, holds.is_running)
Transition-Follows now j j' (advance owner stage counts holds valid allowed counted e) =
    grind (arith, kept, holds.is_running)
Transition-Follows now j j' (finish owner counts holds at counted e) =
    grind (arith, done, holds.is_running)
Transition-Follows now j j'
      (pause owner stage diagnostic counts holds valid allowed safe counted e) =
    grind (arith, limited, holds.is_running)
Transition-Follows now j j' (resume owner lease asks paused at k e) = grind (arith, resumed)
Transition-Follows now j j' (give_up owner diagnostic holds safe e) =
    grind (arith, broken, holds.is_running)
Transition-Follows now j j' (stop (inl waiting) e) = grind (arith, withdrawn)
Transition-Follows now j j' (stop (inr busy) e) = grind (arith, broken)

-- The progress of `j'` is at least that of `j`.
pub record Progressed (j j' : Job) : Type 0 where
  pub stage : stage_index j.stage ≤ℤ stage_index j'.stage
  pub artifacts : j.counts.artifact_count ≤ℤ j'.counts.artifact_count
  pub observations : j.counts.observation_count ≤ℤ j'.counts.observation_count
  pub evidence : j.counts.evidence_count ≤ℤ j'.counts.evidence_count
  pub failures : j.counts.failure_count ≤ℤ j'.counts.failure_count

allowed-le :
    (from to : JobStage)
    → stage_transition_allowed from to ≡ true
    → stage_index from ≤ℤ stage_index to
unfolding stage_transition_allowed
allowed-le from to h = ground arith

Counted-grown :
    (j j' : Job) (counts : JobCounts)
    → j'.counts ≡ counts
    → stage_index j.stage ≤ℤ stage_index j'.stage
    → Counted j counts
    → Progressed j j'
unfolding monotonic_counts
Counted-grown j j' counts e ahead counted = record {
  stage = ahead;
  artifacts = ground (arith, counted.grown);
  observations = ground (arith, counted.grown);
  evidence = ground (arith, counted.grown);
  failures = ground (arith, counted.grown);
}

same-Progressed :
    (j j' : Job)
    → j'.counts ≡ j.counts
    → stage_index j.stage ≤ℤ stage_index j'.stage
    → Progressed j j'
same-Progressed j j' e ahead = record {
  stage = ahead;
  artifacts = rw e (omega arith);
  observations = rw e (omega arith);
  evidence = rw e (omega arith);
  failures = rw e (omega arith);
}

default_stage-le : (s : JobStage) → stage_index s ≤ℤ stage_index (default_stage s)
unfolding stage_index
default_stage-le (JobStage.other []) = omega arith
default_stage-le (JobStage.other (c ∷ s)) = omega arith
default_stage-le _ = omega arith

-- Whatever the transition, the stage does not go back and no counter decreases.
pub Transition-Progressed : (now : ℕ) (j j' : Job) → Transition now j j' → Progressed j j'
unfolding claimed_job resumed_job completed_job ended_job cancelled_job
Transition-Progressed now j j' (take owner lease asks free k e) =
    same-Progressed j j' (ground arith) (rw e (default_stage-le j.stage))
Transition-Progressed now j j' (renew owner lease asks holds e) =
    same-Progressed j j' (ground arith) (rw e (omega arith))
Transition-Progressed now j j' (advance owner stage counts holds valid allowed counted e) =
    Counted-grown j j' counts (ground arith) (rw e (allowed-le j.stage stage allowed)) counted
Transition-Progressed now j j' (finish owner counts holds at counted e) =
    Counted-grown j j' counts (ground arith) (rw (e, at) (omega arith)) counted
Transition-Progressed now j j' (pause owner stage d counts holds valid allowed safe counted e) =
    Counted-grown j j' counts (ground arith) (rw e (allowed-le j.stage stage allowed)) counted
Transition-Progressed now j j' (resume owner lease asks paused at k e) =
    same-Progressed j j' (ground arith) (rw e (omega arith))
Transition-Progressed now j j' (give_up owner diagnostic holds safe e) =
    same-Progressed j j' (ground arith) (rw e (omega arith))
Transition-Progressed now j j' (stop open_state e) =
    same-Progressed j j' (ground arith) (rw e (omega arith))
