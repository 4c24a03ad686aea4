-- ===== src/Ingestion/Store/Cancellation.antt =====
-- A cancelled job is out of its worker's reach.
use manu.Base.{
  ℕ, ◌≡◌, refl, ap, true, ◌&&◌, ◌||◌, some, Str, str_eq_refl, lookup, lookup-insert_self, ℤ, arith,
  Bool-cases, inl, inr, ◌⊎◌,
}
use manu.Ingestion.Result.{
  Result, Error, ok, err, Passed, live, job_cancelled, job_state, check_context,
}
use manu.Ingestion.Job.{
  is_failed, is_pending, is_running, Job, JobStage, JobCounts, Diagnostic, failed, valid_stage,
  validate_counts, validate_diagnostic,
}
use manu.Ingestion.Text.{validate_identifier}
use manu.Ingestion.Store.{MemoryStore, find, get}
use manu.Ingestion.Store.Lease.{validate_lease, require_lease, heartbeat, resume_partial}
use manu.Ingestion.Store.Progress.{
  advance_stage, complete, mark_partial, fail, running_job, advance_update, complete_update,
  partial_update, fail_update, cancel, cancel_found, cancelled_job,
}
use manu.Ingestion.Store.Evolution.{IsNamed}
use manu.Ingestion.Store.Steps.Moves.{find-eq-ok}

-- A stored job that was cancelled.
pub record IsCancelled (organization id : Str) (s : MemoryStore) (j : Job) : Type 0 where
  pub stored : lookup id s.jobs ≡ some j
  pub scoped : j.organization_id ≡ organization
  pub ended : j.state ≡ failed
  pub wanted : j.cancel_requested ≡ true

module _ (organization id : Str) (s : MemoryStore) (j : Job)
    (c : IsCancelled organization id s j) where
  find_cancelled : find organization id s ≡ ok j
  unfolding find
  find_cancelled = rw (c.stored, find) (rw (c.scoped, str_eq_refl) refl)

  require_lease_cancelled : (owner : Str) (now : ℕ) → require_lease j owner now ≡ err job_cancelled
  unfolding require_lease
  require_lease_cancelled owner now = ground (arith, c.ended, c.wanted)

  running_job_cancelled :
      (owner : Str) (now : ℕ) (update : Job → Result Job)
      → running_job organization id owner now update s ≡ err job_cancelled
  unfolding running_job
  running_job_cancelled owner now update =
      rw find_cancelled (rw (require_lease_cancelled owner now) refl)

  -- Whatever worker asks, with arguments that are valid, each operation that needs a lease on a
  -- cancelled job reports the cancellation, and leaves the store as it is.
  pub cancelled_refuses_workers :
      (owner : Str) (lease : ℤ) (stage : JobStage) (diagnostic : Diagnostic) (counts : JobCounts)
      (now : ℕ)
      → Passed (validate_lease owner lease)
      → valid_stage stage ≡ true
      → Passed (validate_diagnostic diagnostic)
      → Passed (validate_counts counts)
      → (heartbeat live organization id owner lease now s ≡ (err job_cancelled, s))
        × (advance_stage live organization id owner stage counts now s ≡ (err job_cancelled, s))
        × (complete live organization id owner counts now s ≡ (err job_cancelled, s))
        × (mark_partial live organization id owner stage diagnostic counts now s
            ≡ (err job_cancelled, s))
        × (fail live organization id owner diagnostic now s ≡ (err job_cancelled, s))
  unfolding heartbeat advance_stage complete mark_partial fail check_context
  cancelled_refuses_workers owner lease stage diagnostic counts now asked valid safe counted =
      let gone = running_job_cancelled owner now in
      (
        rw asked (rw find_cancelled (rw (require_lease_cancelled owner now) refl)),
        rw valid (rw counted (rw (gone (advance_update stage counts)) refl)),
        rw counted (rw (gone (complete_update counts now)) refl),
        rw valid
            (rw safe (rw counted (rw (gone (partial_update stage diagnostic counts now)) refl))),
        rw safe (rw (gone (fail_update diagnostic now)) refl),
      )

  -- Cancelling it again returns the job and changes nothing; it cannot be resumed.
  pub cancelled_stays :
      (owner : Str) (lease : ℤ) (now : ℕ)
      → Passed (validate_identifier organization)
      → Passed (validate_identifier id)
      → Passed (validate_lease owner lease)
      → (cancel live organization id now s ≡ (ok j, s))
        × (resume_partial live organization id owner lease now s ≡ (err job_state, s))
  unfolding cancel get resume_partial check_context
  cancelled_stays owner lease now named known asked = (
    rw find_cancelled (rw (c.ended, c.wanted) refl),
    rw named (rw known (rw asked (rw find_cancelled (ground (arith, c.ended))))),
  )

IsCancelled-path :
    (organization id : Str) {s s' : MemoryStore} {j j' : Job}
    → j ≡ j'
    → s ≡ s'
    → IsCancelled organization id s j
    → IsCancelled organization id s' j'
IsCancelled-path organization id e f c = record {
  stored = cc (e, f, c.stored);
  scoped = rw (← e) c.scoped;
  ended = rw (← e) c.ended;
  wanted = rw (← e) c.wanted;
}

cancel_found-IsCancelled :
    (organization id : Str) (now : ℕ) (s : MemoryStore) (j j' : Job) (s' : MemoryStore)
    → lookup id s.jobs ≡ some j
    → j.id ≡ id
    → j.organization_id ≡ organization
    → cancel_found now (ok j) s ≡ (ok j', s')
    → IsCancelled organization id s' j'
unfolding cancel_found cancelled_job
cancel_found-IsCancelled organization id now s j j' s' at named scoped h =
    elim (Bool-cases (is_failed j.state && j.cancel_requested)) [
      | inl already ↦
          let r = rw already at h in
          IsCancelled-path organization id {j = j} (ground arith) (ap (λ x. x.1) r)
            (record { stored = at; scoped = scoped; ended = ground arith; wanted = ground arith })
      | inr fresh ↦ elim (Bool-cases (is_pending j.state || is_running j.state)) [
        | inr closed ↦ absurd (ground arith)
        | inl open_state ↦
            let r = rw open_state at (rw fresh at h) in
            IsCancelled-path organization id {j = cancelled_job now j} (ground arith)
              (ap (λ x. x.1) r)
              (record {
                stored = rw (← named) (lookup-insert_self j.id (cancelled_job now j) s.jobs);
                scoped = scoped;
                ended = refl;
                wanted = refl;
              })
      ]
    ]

-- Where Cancel returns a job, what then stands under the identifier is that job, failed and with
-- its cancellation requested.
pub cancel-IsCancelled :
    (organization id : Str) (now : ℕ) (s : MemoryStore) (j : Job) (s' : MemoryStore)
    → IsNamed s
    → cancel live organization id now s ≡ (ok j, s')
    → IsCancelled organization id s' j
unfolding cancel get check_context
cancel-IsCancelled organization id now s j s' named h = elim (result (find organization id s)) [
  | inl (old, e) ↦
      let (at, scoped) = find-eq-ok organization id s old e in
      cancel_found-IsCancelled organization id now s old j s' at (named id old at) scoped
        (rw e at h)
  | inr (x, e) ↦ absurd (unfold cancel_found in let r = rw e at h in ground arith)
]
  where
    result : (r : Result Job) → ((a : Job) × (r ≡ ok a)) ⊎ ((x : Error) × (r ≡ err x))
    result (ok a) = inl (a, refl)
    result (err x) = inr (x, refl)

-- Once Cancel has returned a job, no worker's operation on it succeeds: whatever worker asks, at
-- whatever instant and with arguments that are valid, the five operations that need a lease report
-- the cancellation and leave the store as it is.
pub cancel_refuses_workers :
    (organization id : Str) (now : ℕ) (s : MemoryStore) (j : Job) (s' : MemoryStore) (owner : Str)
    (lease : ℤ) (stage : JobStage) (diagnostic : Diagnostic) (counts : JobCounts) (later : ℕ)
    → IsNamed s
    → cancel live organization id now s ≡ (ok j, s')
    → Passed (validate_lease owner lease)
    → valid_stage stage ≡ true
    → Passed (validate_diagnostic diagnostic)
    → Passed (validate_counts counts)
    → (heartbeat live organization id owner lease later s' ≡ (err job_cancelled, s'))
      × (advance_stage live organization id owner stage counts later s' ≡ (err job_cancelled, s'))
      × (complete live organization id owner counts later s' ≡ (err job_cancelled, s'))
      × (mark_partial live organization id owner stage diagnostic counts later s'
          ≡ (err job_cancelled, s'))
      × (fail live organization id owner diagnostic later s' ≡ (err job_cancelled, s'))
cancel_refuses_workers organization id now s j s' owner lease stage diagnostic counts later named
      h =
    cancelled_refuses_workers organization id s' j
      (cancel-IsCancelled organization id now s j s' named h) owner lease stage diagnostic counts
      later
