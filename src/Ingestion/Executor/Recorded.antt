-- ===== src/Ingestion/Executor/Recorded.antt =====
-- The executor over MemoryStore: what a processed job looks like in the store.
use manu.Base.{
  ℕ, ◌≡◌, refl, subst, ap, false, inl, inr, Option, none, some, List, [], ◌∷◌, Str, lookup, insert,
  lookup-insert_self, has_control, str_eq_refl, All, arith,
}
use manu.Ingestion.Result.{
  Error, ok, Context, live, Passed, Result-cases, job_processing, check_context, then-eq-ok,
  bind-eq-ok,
}
use manu.Ingestion.Job.{Job, completed, failed, validate_diagnostic, validate_counts, JobCounts}
use manu.Ingestion.Text.{valid_diagnostic_code}
use manu.Ingestion.Store.{MemoryStore, find, get, commit}
use manu.Ingestion.Store.Lease.{claim, heartbeat, require_lease}
use manu.Ingestion.Store.Progress.{
  complete, complete_job, complete_update, completed_job, fail, fail_job, fail_update, ended_job,
  running_job,
}
use manu.Ingestion.Store.Steps.{Holds, Request, serve}
use manu.Ingestion.Store.Steps.Moves.{find-eq-ok}
use manu.Ingestion.Store.Evolution.{IsNamed, serve-IsNamed}
use manu.Ingestion.Executor.{
  JobStore, Event, tick, others, Turn, lost, elapse, beat_during, process, conclude, record_failure,
  is_partial_error, processing_failed,
}
use manu.Ingestion.Executor.Options.{ExecutorOptions}
use manu.Ingestion.Executor.Outcome.{process_nil}

unfoldable pub memory : JobStore MemoryStore
memory = record {
  claim = claim;
  heartbeat = heartbeat;
  fail = fail;
  get = get;
  complete = complete;
}

-- An act on the store that leaves each job at its identifier.
abbrev pub KeepsNames : (MemoryStore → MemoryStore) → Type 0
KeepsNames act = (s : MemoryStore) → IsNamed s → IsNamed (act s)

abbrev pub Harmless : Event MemoryStore → Type 0
Harmless (tick ctx now) = Unit
Harmless (others act) = KeepsNames act

elapse-IsNamed :
    (during : List (Event MemoryStore)) (s : MemoryStore)
    → All Harmless during
    → IsNamed s
    → IsNamed (elapse memory during s)
unfolding elapse
elapse-IsNamed [] s h named = named
elapse-IsNamed (tick ctx now ∷ rest) s h named = elapse-IsNamed rest s h.1 named
elapse-IsNamed (others act ∷ rest) s h named = elapse-IsNamed rest (act s) h.1 (h.0 s named)

beat_during-IsNamed :
    (options : ExecutorOptions) (owner : Str) (job : Job) (during : List (Event MemoryStore))
    (s : MemoryStore)
    → All Harmless during
    → IsNamed s
    → IsNamed (beat_during memory options owner job during s).1
unfolding beat_during memory serve
beat_during-IsNamed options owner job [] s h named = named
beat_during-IsNamed options owner job (others act ∷ rest) s h named =
    beat_during-IsNamed options owner job rest (act s) h.1 (h.0 s named)
beat_during-IsNamed options owner job (tick ctx now ∷ rest) s h named =
    let answer = heartbeat ctx job.organization_id job.id owner options.lease_duration now s in
    let after : IsNamed answer.1 =
      serve-IsNamed now
        (Request.heartbeat ctx job.organization_id job.id owner options.lease_duration) s named in
    elim (Result-cases answer.0) [
      | inl (renewed, e) ↦
          rw (e, beat_during) (beat_during-IsNamed options owner job rest answer.1 h.1 after)
      | inr (x, e) ↦ rw (e, beat_during) (elapse-IsNamed rest answer.1 h.1 after)
    ]

complete_update-eq-ok :
    (counts : JobCounts) (now : ℕ) (old new : Job)
    → complete_update counts now old ≡ ok new
    → new ≡ completed_job counts now old
unfolding complete_update
complete_update-eq-ok counts now old new h = ground arith

complete-eq-ok :
    (ctx : Context) (organization id owner : Str) (counts : JobCounts) (now : ℕ)
    (s s' : MemoryStore) (done : Job)
    → IsNamed s
    → complete ctx organization id owner counts now s ≡ (ok done, s')
    → (lookup id s'.jobs ≡ some done)
      × (done.state ≡ completed)
      × (done.organization_id ≡ organization)
unfolding complete complete_job running_job complete_update completed_job commit
complete-eq-ok ctx organization id owner counts now s s' done named h =
    elim (Result-cases (complete_job ctx organization id owner counts now s)) [
      | inr (e, refused) ↦ absurd (ground arith)
      | inl (new, e) ↦
          let (_, e₁) = then-eq-ok (check_context ctx) _ e in
          let (_, e₂) = then-eq-ok (validate_counts counts) _ e₁ in
          let (old, found, e₃) = bind-eq-ok (find organization id s) _ e₂ in
          let (_, e₄) = then-eq-ok (require_lease old owner now) _ e₃ in
          let (stored, scoped) = find-eq-ok organization id s old found in
          let made = complete_update-eq-ok counts now old new e₄ in
          let same : new ≡ done = ground arith in
          let left : s' ≡ record s { jobs = insert new.id new s.jobs } = ground arith in
          let at : new.id ≡ id = cc (made, named id old stored) in
          (
            rw (← same, left, ← at) (lookup-insert_self new.id new s.jobs),
            rw (← same, made) refl,
            rw (← same, made) scoped,
          )
    ]

-- Where process returns nil, and nobody renames a stored job in the meantime, the job that stands
-- under the claimed identifier then is completed, in the organization of the claimed job, and the
-- handler had returned nil.
pub process_completes :
    (options : ExecutorOptions) (owner : Str) (job : Job) (turn : Turn MemoryStore)
    (s s' : MemoryStore)
    → IsNamed s
    → All Harmless turn.during
    → KeepsNames turn.between
    → process memory options owner job turn s ≡ (none, s')
    → (done : Job) × (lookup job.id s'.jobs ≡ some done)
      × (done.state ≡ completed)
      × (done.organization_id ≡ job.organization_id)
      × (turn.handled ≡ none)
unfolding memory get
process_completes options owner job turn s s' named harmless kept h =
    let p = process_nil memory owner job turn options s s' h in
    let middle = (beat_during memory options owner job turn.during s).1 in
    let still = beat_during-IsNamed options owner job turn.during s harmless named in
    let (_, found) = then-eq-ok (check_context turn.get_context) _ p.found in
    let (stored, scoped) = find-eq-ok job.organization_id job.id middle p.latest found in
    let same : p.latest.id ≡ job.id = still job.id p.latest stored in
    let (at, over, in_organization) =
      complete-eq-ok turn.complete_context p.latest.organization_id p.latest.id owner
        p.latest.counts turn.complete_at (turn.between middle) s' p.done (kept middle still)
        p.completed in
    (p.done, rw (← same) at, over, rw (← scoped) in_organization, p.handled)

Holds-require_lease :
    (j : Job) (owner : Str) (now : ℕ) → Holds owner now j → Passed (require_lease j owner now)
unfolding require_lease
Holds-require_lease j owner now holds = ground (
  arith,
  holds.is_running,
  holds.owned,
  holds.named,
  holds.leased,
  holds.in_time,
  str_eq_refl owner,
)

processing_failed-valid : Passed (validate_diagnostic processing_failed)
unfolding validate_diagnostic valid_diagnostic_code has_control
processing_failed-valid = refl

find_ok :
    (organization id : Str) (s : MemoryStore) (j : Job)
    → lookup id s.jobs ≡ some j
    → j.organization_id ≡ organization
    → find organization id s ≡ ok j
unfolding find
find_ok organization id s j stored scoped = rw (stored, find) (rw (scoped, str_eq_refl) refl)

-- The job that a failed processing leaves.
abbrev pub broken_job : ℕ → Job → Job
broken_job now j = ended_job failed j.stage processing_failed j.counts now j

fail_records :
    (organization id owner : Str) (now : ℕ) (s : MemoryStore) (j : Job)
    → lookup id s.jobs ≡ some j
    → j.organization_id ≡ organization
    → Holds owner now j
    → fail live organization id owner processing_failed now s
      ≡ (ok (broken_job now j), record s { jobs = insert j.id (broken_job now j) s.jobs })
unfolding fail fail_job running_job fail_update check_context ended_job
fail_records organization id owner now s j stored scoped holds = rw processing_failed-valid (
    rw (find_ok organization id s j stored scoped)
      (rw (Holds-require_lease j owner now holds) refl))

conclude_fails :
    (owner : Str) (job : Job) (turn : Turn MemoryStore) (beat : Option Error) (failure : Error)
    (s s' : MemoryStore) (ended : Job)
    → turn.after ≡ none
    → lost beat ≡ none
    → turn.handled ≡ some failure
    → is_partial_error failure ≡ false
    → fail turn.cleanup_context job.organization_id job.id owner processing_failed turn.fail_at s
      ≡ (ok ended, s')
    → conclude memory owner job turn beat s ≡ (some job_processing, s')
unfolding conclude record_failure memory
conclude_fails owner job turn beat failure s s' ended calm kept broke whole e = ground arith

-- Where the handler fails with an error that does not say partial, its context is in force, the
-- heartbeat sent no error, and the worker still holds the lease of the stored job, process reports
-- the failure, and what stands under the identifier then is the failed job, its diagnostic that of
-- a failed processing, its stage and counters as they were.
pub process_records_failure :
    (options : ExecutorOptions) (owner : Str) (job j : Job) (turn : Turn MemoryStore)
    (s : MemoryStore) (failure : Error)
    → turn.after ≡ none
    → lost (beat_during memory options owner job turn.during s).0 ≡ none
    → turn.handled ≡ some failure
    → is_partial_error failure ≡ false
    → turn.cleanup_context ≡ live
    → lookup job.id (beat_during memory options owner job turn.during s).1.jobs ≡ some j
    → j.id ≡ job.id
    → j.organization_id ≡ job.organization_id
    → Holds owner turn.fail_at j
    → ((process memory options owner job turn s).0 ≡ some job_processing)
      × (lookup job.id (process memory options owner job turn s).1.jobs
          ≡ some (broken_job turn.fail_at j))
unfolding process ended_job
process_records_failure options owner job j turn s failure calm kept broke whole goes stored named
      scoped holds =
    let middle = (beat_during memory options owner job turn.during s).1 in
    let outcome =
      conclude_fails owner job turn (beat_during memory options owner job turn.during s).0 failure
        middle (record middle { jobs = insert j.id (broken_job turn.fail_at j) middle.jobs })
        (broken_job turn.fail_at j) calm kept broke whole
        (rw goes (
          fail_records job.organization_id job.id owner turn.fail_at middle j stored scoped
            holds)) in
    (
      ap (λ x. x.0) outcome,
      rw outcome (
          subst
            (λ k.
              lookup k (insert j.id (broken_job turn.fail_at j) middle.jobs)
              ≡ some (broken_job turn.fail_at j))
            named (lookup-insert_self j.id (broken_job turn.fail_at j) middle.jobs)),
    )
