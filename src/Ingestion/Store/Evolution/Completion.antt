-- ===== src/Ingestion/Store/Evolution/Completion.antt =====
-- How much has to happen before a job is completed.
use manu.Base.{
  ℕ, suc, ◌+◌, ◌≤◌, ◌≡◌, refl, sym, some, List, [], ◌∷◌, Str, lookup, arith, pos_part, subst,
  length, true,
}
use manu.Ingestion.Job.{
  JobState, JobStage, pending, running, completed, partial, Job, validation, activation,
}
use manu.Ingestion.Job.Stage.{stage_index, stage_transition_allowed}
use manu.Ingestion.Store.{MemoryStore, default_stage}
use manu.Ingestion.Store.Lease.{claimed_job, resumed_job}
use manu.Ingestion.Store.Progress.{completed_job, ended_job, cancelled_job}
use manu.Ingestion.Store.Steps.{
  Transition, take, renew, advance, finish, pause, resume, give_up, stop, Request, serve, serve_all,
}
use manu.Ingestion.Store.Evolution.{
  IsNamed, Evolves, stay, step, serve_all-Evolves, serve-Outlives, serve-IsNamed, as_it_was,
  moved_on,
}

abbrev state_rank : JobState → ℕ
state_rank running = 1
state_rank partial = 1
state_rank completed = 2
state_rank _ = 0

-- How far a job has come; one request adds one at most.
rank : Job → ℕ
rank j = pos_part (stage_index j.stage) + state_rank j.state

allowed-rank :
    (from to : JobStage)
    → stage_transition_allowed from to ≡ true
    → pos_part (stage_index to) ≤ suc (pos_part (stage_index from))
unfolding stage_transition_allowed
allowed-rank from to h = ground arith

default_stage-rank :
    (s : JobStage) → pos_part (stage_index (default_stage s)) ≤ pos_part (stage_index s)
unfolding stage_index
default_stage-rank s = ground arith

rank-Transition : (now : ℕ) (j j' : Job) → Transition now j j' → rank j' ≤ suc (rank j)
unfolding rank claimed_job resumed_job completed_job ended_job cancelled_job
rank-Transition now j j' (take owner lease asks free k e) =
    rw e (omega (arith, default_stage-rank j.stage))
rank-Transition now j j' (renew owner lease asks holds e) = rw e (omega arith)
rank-Transition now j j' (advance owner stage counts holds valid allowed counted e) =
    rw e (omega (arith, allowed-rank j.stage stage allowed))
rank-Transition now j j' (finish owner counts holds at counted e) =
    rw (e, at, holds.is_running) (omega arith)
rank-Transition now j j' (pause owner stage d counts holds valid allowed safe counted e) =
    rw (e, holds.is_running) (omega (arith, allowed-rank j.stage stage allowed))
rank-Transition now j j' (resume owner lease asks paused at k e) = rw (e, paused) (omega arith)
rank-Transition now j j' (give_up owner diagnostic holds safe e) = rw e (omega arith)
rank-Transition now j j' (stop open_state e) = rw e (omega arith)

rank-serve_all :
    (requests : List (ℕ × Request)) (s : MemoryStore) (k : Str) (j j' : Job)
    → IsNamed s
    → lookup k s.jobs ≡ some j
    → lookup k (serve_all requests s).jobs ≡ some j'
    → rank j' ≤ rank j + length requests
unfolding serve_all
rank-serve_all [] s k j j' named at at' = ground (arith, at, at')
rank-serve_all ((now, r) ∷ rest) s k j j' named at at' =
    let (m, after, outlives) = serve-Outlives now r s k j named at in
    let one : rank m ≤ suc (rank j) = elim outlives [
      | as_it_was e ↦ rw e (omega arith)
      | moved_on t scoped acted ↦ rank-Transition now j m t
    ] in
    omega (
      arith,
      one,
      rank-serve_all rest (serve now r s) k m j' (serve-IsNamed now r s named) after at',
    )

-- A completed job is in the last stage.
abbrev AtEnd : Job → Type 0
AtEnd j = j.state ≡ completed → j.stage ≡ activation

AtEnd-Transition : (now : ℕ) (j j' : Job) → Transition now j j' → AtEnd j'
unfolding claimed_job resumed_job completed_job ended_job cancelled_job
AtEnd-Transition now j j' (take owner lease asks free k e) over = ground arith
AtEnd-Transition now j j' (renew owner lease asks holds e) over = ground (arith, holds.is_running)
AtEnd-Transition now j j' (advance owner stage counts holds valid allowed counted e) over =
    ground (arith, holds.is_running)
AtEnd-Transition now j j' (finish owner counts holds at counted e) over = ground arith
AtEnd-Transition now j j' (pause owner stage d counts holds valid allowed safe counted e) over =
    ground arith
AtEnd-Transition now j j' (resume owner lease asks paused at k e) over = ground arith
AtEnd-Transition now j j' (give_up owner diagnostic holds safe e) over = ground arith
AtEnd-Transition now j j' (stop open_state e) over = ground arith

AtEnd-Evolves : (j j' : Job) → AtEnd j → Evolves j j' → AtEnd j'
AtEnd-Evolves j j' h (stay e) = subst AtEnd (sym e) h
AtEnd-Evolves j j' h (step {j' = m} now t rest) =
    AtEnd-Evolves m j' (AtEnd-Transition now j m t) rest

-- From a stored job that is pending at the first stage to one that is completed, under the same
-- identifier, it takes seven requests at least: a claim, five advances and the completion itself.
pub completion_takes_seven :
    (requests : List (ℕ × Request)) (s : MemoryStore) (k : Str) (j j' : Job)
    → IsNamed s
    → lookup k s.jobs ≡ some j
    → j.state ≡ pending
    → j.stage ≡ validation
    → lookup k (serve_all requests s).jobs ≡ some j'
    → j'.state ≡ completed
    → 7 ≤ length requests
unfolding rank stage_index
completion_takes_seven requests s k j j' named at waiting first at' over =
    let (m, after, c) = serve_all-Evolves requests s k j named at in
    let same : m ≡ j' = ground (arith, after, at') in
    let end : j'.stage ≡ activation =
      subst AtEnd same (AtEnd-Evolves j m (λ e. ground arith) c) over in
    let last : rank j' ≡ 7 = rw (end, over) refl in
    let start : rank j ≡ 0 = rw (waiting, first) refl in
    omega (arith, rank-serve_all requests s k j j' named at at', last, start)
