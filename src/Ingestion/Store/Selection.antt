-- ===== src/Ingestion/Store/Selection.antt =====
-- How Claim chooses a job, and the order of Snapshot (internal/ingestion/jobs.go).
pub mod Choice
pub mod Least
pub mod Snapshot
use manu.Base.{
  ℕ, Bool, true, not, ◌&&◌, ◌||◌, Option, none, some, List, [], ◌∷◌, Str, str_eq, str_lt, Map,
  lookup, ltb, ◌==◌, if◌then◌else◌,
}
use manu.Ingestion.Job.{Job, is_pending, is_running}

unfoldable pub claimable : Job → ℕ → Bool
claimable job now =
    is_pending job.state
    || is_running job.state
      && (elim job.lease_expires_at [ none ↦ true | some at ↦ not (ltb now at) ])

unfoldable pub before : Job → Job → Bool
before left right =
    if left.created_at == right.created_at
    then str_lt left.id right.id
    else ltb left.created_at right.created_at

-- The test that lets the loop go on to the next job is the negation of this one.
unfoldable pub eligible : Str → ℕ → Job → Bool
unfolding claimable
eligible organization now candidate =
    str_eq candidate.organization_id organization
    && not candidate.cancel_requested
    && claimable candidate now

-- One round of the loop of Claim.
unfoldable pub better : Option Job → Job → Option Job
better none candidate = some candidate
better (some selected) candidate =
    if before candidate selected then some candidate else some selected

unfoldable pub visit : Str → ℕ → Option Job → Option Job → Option Job
visit organization now selected none = selected
visit organization now selected (some candidate) =
    if eligible organization now candidate then better selected candidate else selected

unfoldable pub select_from : Str → ℕ → Map Job → List Str → Option Job → Option Job
select_from organization now jobs [] selected = selected
select_from organization now jobs (id ∷ ids) selected =
    select_from organization now jobs ids (visit organization now selected (lookup id jobs))

-- The loop over the jobs that stand at `ids`.
unfoldable pub select : Str → ℕ → Map Job → List Str → Option Job
unfolding select_from
select organization now jobs ids = select_from organization now jobs ids none

-- sort.Slice by `before`, as an insertion sort.
unfoldable pub insert_sorted : Job → List Job → List Job
insert_sorted job [] = job ∷ []
insert_sorted job (other ∷ rest) =
    if before job other then job ∷ other ∷ rest else other ∷ insert_sorted job rest

unfoldable pub collect : Map Job → List Job
unfolding insert_sorted
collect [] = []
collect ((id, job) ∷ rest) = insert_sorted job (collect rest)

unfoldable pub sorted_jobs : Map Job → List Job
unfolding collect
sorted_jobs jobs = collect jobs
