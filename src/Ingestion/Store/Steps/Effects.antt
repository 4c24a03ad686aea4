-- ===== src/Ingestion/Store/Steps/Effects.antt =====
-- Every operation of MemoryStore leaves the store alone, adds one pending job, or writes one job
-- that follows from the stored one by a transition.
use manu.Base.{
  ℕ, ◌≡◌, refl, inl, inr, true, false, some, none, Str, str_eq_iff, lookup, keys, ℤ, arith,
  Option-cases, Bool-cases, is_zero, Option, ◌&&◌, ◌||◌,
}
use manu.Ingestion.Result.{
  Result, ok, err, Passed, Context, then-eq-ok, guard-eq-ok, check_context, invalid_job,
}
use manu.Ingestion.Job.{Job, is_pending, is_validation, pending, validation, is_running, is_failed}
use manu.Ingestion.Text.{validate_identifier}
use manu.Ingestion.Job.Validate.{validate}
use manu.Ingestion.Store
use manu.Ingestion.Store.{
  MemoryStore, Outcome, checked, create, get, find, commit, add_job, identity_key, insert_new,
  check_new, with_defaults, reuse,
}
use manu.Ingestion.Store.Selection.{claimable, eligible, select}
use manu.Ingestion.Store.Selection.Choice.{Found, select-Found}
use manu.Ingestion.Store.Lease
use manu.Ingestion.Store.Lease.{
  validate_lease, claimed_job, claim, check_claim, claim_selected, heartbeat, resume_partial,
}
use manu.Ingestion.Store.Progress
use manu.Ingestion.Store.Progress.{
  cancel_found, cancelled_job, cancel, advance_stage, complete, mark_partial, fail,
}
use manu.Ingestion.Store.Steps.{
  take, stop, Effect, unchanged, changed, added, Request, date, scope, worker, serve,
}
use manu.Ingestion.Store.Steps.Moves.{
  find-eq-ok, validate_lease-Asks, Changes, heartbeat-Changes, resume_partial-Changes,
}
use manu.Ingestion.Store.Steps.Endings.{
  advance_stage-Changes, complete-Changes, mark_partial-Changes, fail-Changes,
}

commit-Effect :
    (now : ℕ) (s : MemoryStore) (organization : Str) (worker : Option Str) (id : Str)
    (r : Result Job)
    → Changes now organization worker s id r
    → Effect now 0 organization worker s (commit r s).1
unfolding commit
commit-Effect now s organization worker id (err e) h = unchanged refl
commit-Effect now s organization worker id (ok new) h = changed id new (h new refl) refl

eligible-parts :
    (organization : Str) (now : ℕ) (j : Job)
    → eligible organization now j ≡ true
    → (j.organization_id ≡ organization) × (j.cancel_requested ≡ false) × (claimable j now ≡ true)
unfolding eligible
eligible-parts organization now j h =
    (ground (arith, str_eq_iff j.organization_id organization), ground arith, ground arith)

check_claim-lease :
    (ctx : Context) (organization owner : Str) (lease : ℤ)
    → Passed (check_claim ctx organization owner lease)
    → Passed (validate_lease owner lease)
unfolding check_claim
check_claim-lease ctx organization owner lease h =
    let (_, h₁) = then-eq-ok (check_context ctx) _ h in
    (then-eq-ok (validate_identifier organization) (validate_lease owner lease) h₁).1

check_new-parts :
    (ctx : Context) (job : Job)
    → Passed (check_new ctx job)
    → Passed (validate job) × (job.state ≡ pending) × (job.stage ≡ validation)
unfolding check_new
check_new-parts ctx job h =
    let (_, h₁) = then-eq-ok (check_context ctx) _ h in
    let (new, valid) =
      guard-eq-ok (is_pending job.state && is_validation job.stage && is_zero job.attempt_count)
        invalid_job (validate job) h₁ in
    (valid, ground arith, ground arith)

claim_selected-Effect :
    (organization owner : Str) (lease : ℤ) (now : ℕ) (s : MemoryStore) (selected : Option Job)
    → Passed (validate_lease owner lease)
    → ((j : Job) → selected ≡ some j → Found organization now s.jobs j)
    → Effect now 0 organization (some owner) s (claim_selected owner lease now selected s).1
unfolding claim_selected
claim_selected-Effect organization owner lease now s none asked found = unchanged refl
claim_selected-Effect organization owner lease now s (some j) asked found =
    let f = found j refl in
    let (scoped, kept, free) = eligible-parts organization now j f.fits in
    changed f.at (claimed_job owner lease now j)
      (record {
        old = j;
        stored = f.stored;
        scoped = scoped;
        moved = take owner lease (validate_lease-Asks owner lease asked) free kept refl;
        acted = refl;
      })
      (unfold claimed_job in refl)

checked-Effect :
    {A : Type 0} (now d : ℕ) (organization : Str) (worker : Option Str) (s : MemoryStore)
    (check : Result (Unit {0})) (next : Outcome A)
    → (Passed check → Effect now d organization worker s next.1)
    → Effect now d organization worker s (checked check next s).1
checked-Effect now d organization worker s (err e) next h = unchanged refl
checked-Effect now d organization worker s (ok tt) next h = h refl

claim-Effect :
    (ctx : Context) (organization owner : Str) (lease : ℤ) (now : ℕ) (s : MemoryStore)
    → Effect now 0 organization (some owner) s (Lease.claim ctx organization owner lease now s).1
unfolding Lease.claim
claim-Effect ctx organization owner lease now s =
    let selected = select organization now s.jobs (keys s.jobs) in
    checked-Effect now 0 organization (some owner) s (check_claim ctx organization owner lease)
      (claim_selected owner lease now selected s)
      λ passed.
        claim_selected-Effect organization owner lease now s selected
          (check_claim-lease ctx organization owner lease passed)
          (select-Found organization now s.jobs (keys s.jobs))

cancel_found-Effect :
    (organization id : Str) (now : ℕ) (s : MemoryStore) (r : Result Job)
    → ((j : Job) → r ≡ ok j → (lookup id s.jobs ≡ some j) × (j.organization_id ≡ organization))
    → Effect now 0 organization none s (cancel_found now r s).1
unfolding cancel_found
cancel_found-Effect organization id now s (err e) found = unchanged refl
cancel_found-Effect organization id now s (ok j) found =
    elim (Bool-cases (is_failed j.state && j.cancel_requested)) [
      | inl already ↦ rw (already, cancel_found) (unchanged refl)
      | inr fresh ↦
          rw (fresh, cancel_found)
            (elim (Bool-cases (is_pending j.state || is_running j.state)) [
              | inl open_state ↦ rw open_state (
                  changed id (cancelled_job now j)
                    (record {
                      old = j;
                      stored = (found j refl).0;
                      scoped = (found j refl).1;
                      moved = stop (ground arith) refl;
                      acted = refl;
                    })
                    refl)
              | inr closed ↦ rw closed (unchanged refl)
            ])
    ]

cancel-Effect :
    (ctx : Context) (organization id : Str) (now : ℕ) (s : MemoryStore)
    → Effect now 0 organization none s (Progress.cancel ctx organization id now s).1
unfolding Progress.cancel get
cancel-Effect ctx organization id now s =
    cancel_found-Effect organization id now s (get ctx organization id s)
      λ j h. find-eq-ok organization id s j (then-eq-ok (check_context ctx) _ h).1

insert_new-Effect :
    (now : ℕ) (job : Job) (s : MemoryStore)
    → Passed (validate job)
    → job.state ≡ pending
    → job.stage ≡ validation
    → Effect now job.created_at job.organization_id none s (insert_new job s).1
unfolding insert_new
insert_new-Effect now job s valid waiting first = elim (Option-cases (lookup job.id s.jobs)) [
  | inr (old, e) ↦ rw (e, insert_new) (unchanged refl)
  | inl fresh ↦ elim (Option-cases (lookup (identity_key job) s.by_key)) [
    | inr (id, e) ↦ rw (fresh, e, insert_new) (unchanged refl)
    | inl new ↦
        rw (fresh, new, insert_new)
          (added job
            (record {
              valid = valid;
              is_pending = waiting;
              at_validation = first;
              fresh_id = fresh;
              fresh_key = new;
            })
            refl refl)
  ]
]

create-Effect :
    (ctx : Context) (now : ℕ) (job : Job) (s : MemoryStore)
    → Effect now
        (date now (Request.create ctx job))
        job.organization_id
        none
        s
        (Store.create ctx now job s).1
unfolding Store.create with_defaults
create-Effect ctx now job s =
    checked-Effect now (date now (Request.create ctx job)) job.organization_id none s
      (check_new ctx (with_defaults now job)) (insert_new (with_defaults now job) s)
      λ passed.
        let (valid, waiting, first) = check_new-parts ctx (with_defaults now job) passed in
        insert_new-Effect now (with_defaults now job) s valid waiting first

-- Whatever the operation, its effect on the store is one of the three kinds.
pub serve-Effect :
    (now : ℕ) (r : Request) (s : MemoryStore)
    → Effect now (date now r) (scope r) (worker r) s (serve now r s)
unfolding serve Lease.heartbeat Lease.resume_partial Progress.advance_stage Progress.complete
    Progress.mark_partial Progress.fail
serve-Effect now (Request.create ctx job) s = create-Effect ctx now job s
serve-Effect now (Request.claim ctx org owner lease) s = claim-Effect ctx org owner lease now s
serve-Effect now (Request.heartbeat ctx org id owner lease) s =
    commit-Effect now s org (some owner) id _ (heartbeat-Changes ctx org id owner lease now s)
serve-Effect now (Request.advance_stage ctx org id owner stage counts) s =
    commit-Effect now s org (some owner) id _
      (advance_stage-Changes ctx org id owner stage counts now s)
serve-Effect now (Request.complete ctx org id owner counts) s =
    commit-Effect now s org (some owner) id _ (complete-Changes ctx org id owner counts now s)
serve-Effect now (Request.mark_partial ctx org id owner stage diagnostic counts) s =
    commit-Effect now s org (some owner) id _
      (mark_partial-Changes ctx org id owner stage diagnostic counts now s)
serve-Effect now (Request.resume_partial ctx org id owner lease) s =
    commit-Effect now s org (some owner) id _ (resume_partial-Changes ctx org id owner lease now s)
serve-Effect now (Request.fail ctx org id owner diagnostic) s =
    commit-Effect now s org (some owner) id _ (fail-Changes ctx org id owner diagnostic now s)
serve-Effect now (Request.cancel ctx org id) s = cancel-Effect ctx org id now s
